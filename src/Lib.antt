-- ===== src/Lib.antt =====
-- SlipStream Plus: a client that splits connections into framed chunks over many tunnel instances, and
-- the central server that puts them together again.
--
-- The client's proxy (internal/proxy) reads a SOCKS5 request and makes a packet splitter for the
-- connection. The splitter
-- (internal/tunnel/splitter.go) numbers the client's chunks, picks a healthy instance for each one, and
-- sends it as a frame through the pool of tunnel connections (pool.go, tunnelconn.go). The central
-- server (cmd/centralserver) reads the frames of its tunnel connections, opens an upstream connection
-- for a SYN, reorders the data frames (internal/tunnel/reorder.go) and hands them to the upstream's
-- write queue; what the upstream answers goes back over one of the connection's sources at a time.
-- Without packet splitting a balancer (internal/balancer) picks one instance for a connection.
-- internal/users limits and charges the users, internal/health decides which instances are healthy,
-- internal/engine starts and restarts them, and internal/config says which there are. The dashboard
-- (internal/gui) changes the users and the configuration and has the instances restarted; main
-- (cmd/slipstreamplus) puts the parts together.
--
-- Files:
-- Prelude: Go's maps as association lists (lookup, insert, delete), int64 as integers with their
--   wrap-around, Boolean tests, lists over the native numbers.
-- Tunnel/Protocol: internal/tunnel/protocol.go. frame_bytes is WriteFrame, read_frame is ReadFrame; a
--   stream is the list of the bytes that are still to come.
-- Tunnel/Reorder: internal/tunnel/reorder.go. put is Insert; drain is the loop by which clients take out
--   what is ready. Times are arguments, in milliseconds.
-- Tunnel/Pool: internal/tunnel/pool.go and tunnelconn.go. send_frame is SendFrame, dispatch is what
--   readLoop does with a frame. Whether a connection takes a write is a parameter.
-- Tunnel/Splitter: internal/tunnel/splitter.go; relay_chunk is a round of RelayClientToUpstream, on_event
--   one of RelayUpstreamToClient.
-- Engine/Instance: the counters and the health of internal/engine/instance.go.
-- Balancer: internal/balancer, a function pick_... for the Pick of each strategy.
-- Central/State, Handlers, Upstream: cmd/centralserver/state.go and upstream.go. A handler is a step
--   from the connections to the connections and a list of effects. Central/Upstream/Writer is the
--   upstreamWriter beside the handlers that send into its queue.
-- Central/Reader, Cleanup: cmd/centralserver/server.go.
-- Users: internal/users, and the limits in bytes of internal/config/config.go.
-- Upload: the splitter and the central server together, from a client's chunks to the write queue.
-- Health: internal/health/checker.go. check_one is checkOne, with what the probes found out as a
--   parameter; Health/History is the relation of all that can happen to an instance, and Health/Probes
--   is probes.go without its connections.
-- Engine/Manager: internal/engine/manager.go. Whether a process starts is a parameter. Control is the
--   manager as a whole, with Shutdown and Reload; Supervisor is a supervisor's goroutine beside those of
--   Shutdown and RestartInstance, as events in any order.
-- Config: internal/config/expand.go, and in Config/Validation the Validate of config.go. A port is what
--   its JSON value says.
-- Proxy: internal/proxy/socks5.go. open_session is handleConnection up to the routing, as a parser of
--   what the client sends. Proxy/Relay is relay.go, with the dialled upstream and what the relays move as
--   parameters; Proxy/Ssh is ssh.go, with the SSH library as a parameter; Proxy/Limit is the accept loop.
-- Gui: internal/gui/server.go and handlers.go. A handler is a function from the server to its answer and
--   the server; what is outside, such as whether the file can be written, comes with a request. The user
--   managers stand in a list, and a pointer is a place in it, so that the dashboard and the proxy can
--   share one or not. Gui/Steps is the relation of all that a request can do.
-- Main: cmd/slipstreamplus/main.go, from the flags and the configuration to the proxy that is started.
--
-- Fuel: drain runs with one round more than there are frames buffered, and each round that goes on takes
-- one out; frames runs with the length of the stream; limited_write with one round more than there are
-- bytes, since a round that does not fail takes a byte. Loops of the source over a list or with a bound
-- are structural.
--
-- Bounds: an integer that wraps where it is counted up wraps here (the counters of connections and bytes, the
-- sequence numbers, the round robin of the pool, which panics from 2 ^ 63 on). The weights that the weighted
-- round robin sums up are integers without a bound.
--
-- Not modelled: locks (an operation is one step, and an order of operations is a list; so is a check of the
-- health checker, whose goroutines may overlap), logging, dials, deadlines and the rest of the network, child
-- processes, signals, JSON and the routing of HTTP paths (a request has its route and its decoded body), the
-- page that the dashboard shows, and what follows a restart over the dashboard (it is only noted that one is
-- under way, and the new process is a launch). A relay moves each byte that it reads, so that what is read,
-- written and counted is one number. A connection of the server that is no longer in the map keeps no state but
-- the queue that is opened for it. A nil slice and an empty one are both [].
pub mod Prelude
pub mod Engine
pub mod Balancer
pub mod Tunnel
pub mod Central
pub mod Users
pub mod Upload
pub mod Health
pub mod Config
pub mod Proxy
pub mod Gui
pub mod Main
