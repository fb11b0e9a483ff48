-- ===== src/Proxy/Relay.antt =====
-- internal/proxy/relay.go: the two ways in which a request is served. What the relays move is a
-- parameter, in the order in which it passes: `up` is a Read of the client, `down` a Write to it.
use slip_stream_plus.Prelude.{
  ℕ, ◌+◌, ◌/◌, Bool, List, [], ◌∷◌, ◌++◌, ◌==◌, if◌then◌else◌, get_or, drop, length, Option, none,
  some,
}
use slip_stream_plus.Prelude.Int.{pos}
use slip_stream_plus.Tunnel.Protocol.{Bytes, ok, err, read_full, next_id}
use slip_stream_plus.Tunnel.Pool.{TunnelPool, has_tunnels}
use slip_stream_plus.Tunnel.Splitter.{PacketSplitter, new_packet_splitter, send_syn, close_splitter}
use slip_stream_plus.Engine.Instance.{Instance, socks, ssh, incr_conns, decr_conns, add_tx, add_rx}
use slip_stream_plus.Engine.Manager.{healthy_instances}
use slip_stream_plus.Users.{User, add_used_bytes, needs_rate_limit}
use slip_stream_plus.Users.Writer.{note_used}
use slip_stream_plus.Proxy.{Target, reply}

pub data Moved : Type 0 where
  up down : ℕ → Moved

unfoldable pub tx_of : List Moved → ℕ
tx_of [] = 0
tx_of (up n ∷ rest) = n + tx_of rest
tx_of (down _ ∷ rest) = tx_of rest

unfoldable pub rx_of : List Moved → ℕ
rx_of [] = 0
rx_of (up _ ∷ rest) = rx_of rest
rx_of (down n ∷ rest) = n + rx_of rest

-- What `WrapReader` and `WrapWriter` count.
unfoldable pub charge : List Moved → User → User
unfolding note_used
charge [] u = u
charge (up n ∷ rest) u = charge rest (note_used n u)
charge (down n ∷ rest) u = charge rest (note_used n u)

unfoldable pub wrapped : List Moved → User → User
unfolding charge needs_rate_limit
wrapped moved u = if needs_rate_limit u then charge moved u else u

unfoldable pub socks_only : List Instance → List Instance
socks_only [] = []
socks_only (i ∷ rest) = let more = socks_only rest in elim i.mode [ socks ↦ i ∷ more | ssh ↦ more ]

-- `HealthyInstances`, and the loop over its result.
unfoldable pub socks_healthy : List Instance → List Instance
unfolding socks_only healthy_instances
socks_healthy is = socks_only (healthy_instances is)

-- A change of the instance with a number, which its pointer names.
unfoldable pub update : ℕ → (Instance → Instance) → List Instance → List Instance
update id f [] = []
update id f (i ∷ rest) = (if i.id == id then f i else i) ∷ update id f rest

-- What a dialled instance does: it is not reached, takes no request, or sends these bytes.
pub data Upstream : Type 0 where
  unreached unwritable : Upstream
  answers : Bytes → Upstream

-- The bound address and port of the upstream's reply, read and dropped.
unfoldable pub drain_bound : ℕ → Bytes → Bytes
drain_bound atyp rest =
    if atyp == 0x01
    then drop 6 rest
    else if atyp == 0x03
    then drop (get_or rest 0 0 + 2) (drop 1 rest)
    else if atyp == 0x04
    then drop 18 rest
    else drop 6 rest

-- The upstream's answer to the greeting and the request: the reply for the client, and, if the relay starts, what
-- the upstream sends behind its reply.
unfoldable pub negotiate : Upstream → Bytes × Option Bytes
unfolding drain_bound read_full
negotiate unreached = (reply 0x05, none)
negotiate unwritable = (reply 0x01, none)
negotiate (answers reader) = elim (read_full 6 reader) [
  | err _ ↦ (reply 0x01, none)
  | ok (resp, rest) ↦
      let after = drain_bound (get_or resp 5 0) rest in
      if get_or resp 3 0 == 0x00 then (reply 0x00, some after) else (reply (get_or resp 3 0), none)
]

unfoldable pub pipelined : Target → Bytes
pipelined t = (0x05 ∷ 0x01 ∷ 0x00 ∷ 0x05 ∷ 0x01 ∷ 0x00 ∷ t.atyp ∷ []) ++ (t.addr ++ t.port)

-- The end of `relay`.
unfoldable pub relayed : List Moved → Instance → Instance
unfolding tx_of rx_of
relayed moved i = add_rx (pos (rx_of moved)) (add_tx (pos (tx_of moved)) i)

unfoldable pub relay_user : List Moved → User → User
unfolding wrapped add_used_bytes
relay_user moved u =
    let after = wrapped moved u in
    if needs_rate_limit u then after else add_used_bytes (pos (tx_of moved + rx_of moved)) after

-- `handleConnectionLevel`. `pick` is the balancer's, and `dial` what an instance does with the bytes it is sent.
unfoldable pub handle_connection_level :
    (List Instance → Option Instance)
    → (Instance → Bytes → Upstream)
    → List Moved
    → Target
    → List Instance
    → Option User
    → Bytes × List Instance × Option User
unfolding socks_healthy update negotiate pipelined relayed relay_user
handle_connection_level pick dial moved t instances user =
    if length (socks_healthy instances) == 0
    then (reply 0x01, instances, user)
    else (elim (pick (socks_healthy instances)) [
      | none ↦ (reply 0x01, instances, user)
      | some i ↦
          let n = negotiate (dial i (pipelined t)) in
          (elim (n.1) [
            | none ↦ (n.0, instances, user)
            | some _ ↦ (
              n.0,
              update i.id decr_conns
                  (update i.id (relayed moved) (update i.id incr_conns instances)),
              elim user [ none ↦ none | some u ↦ some (relay_user moved u) ],
            )
          ])
    ])

-- What the packet splitter's connections share.
pub record Split : Type 0 where
  pub pool : TunnelPool
  pub counter : ℕ
  pub instances : List Instance
  pub user : Option User

-- The shares of the instances at the end of `handlePacketSplit`.
unfoldable pub share : ℕ → ℕ → List Instance → List Instance → List Instance
unfolding update
share tx rx [] instances = instances
share tx rx (i ∷ rest) instances =
    share tx rx rest (update i.id (λ j. add_rx (pos rx) (add_tx (pos tx) j)) instances)

unfoldable pub split_user : List Moved → User → User
unfolding wrapped add_used_bytes
split_user moved u = add_used_bytes (pos (tx_of moved + rx_of moved)) (wrapped moved u)

-- `handlePacketSplit` when it has counted the connection on `track`, the first of the healthy instances; `relay` is
-- what its two relays do with the splitter and the pool.
unfoldable pub split_over :
    (ℕ → Bool)
    → ℕ
    → ℕ
    → (PacketSplitter → TunnelPool → PacketSplitter × TunnelPool)
    → List Moved
    → Target
    → List Instance
    → Split
    → Bytes × Split
split_over accepts now later relay moved t healthy s =
    let id = next_id s.counter in
    let p = new_packet_splitter id healthy s.pool in
    let syn = send_syn accepts now t.atyp t.addr t.port healthy (p.0) (p.1) in
    if syn.0
    then (let r = relay (syn.1) (syn.2) in
        let tx = tx_of moved / length healthy in
        let rx = rx_of moved / length healthy in
        (
          reply 0x00,
          record {
            pool = (close_splitter accepts later healthy (r.0) (r.1)).1;
            counter = id;
            instances = share tx rx healthy s.instances;
            user = elim s.user [ none ↦ none | some u ↦ some (split_user moved u) ];
          },
        ))
    else (
      reply 0x01,
      record s { pool = (close_splitter accepts now healthy (syn.1) (syn.2)).1; counter = id },
    )

-- The connection is counted on `track` while it is served.
unfoldable pub split_from :
    (ℕ → Bool)
    → ℕ
    → ℕ
    → (PacketSplitter → TunnelPool → PacketSplitter × TunnelPool)
    → List Moved
    → Target
    → List Instance
    → Split
    → Bytes × Split
split_from accepts now later relay moved t [] s = (reply 0x01, s)
split_from accepts now later relay moved t (track ∷ rest) s =
    let counted = record s { instances = update track.id incr_conns s.instances } in
    let out = split_over accepts now later relay moved t (track ∷ rest) counted in
    (out.0, record (out.1) { instances = update track.id decr_conns ((out.1).instances) })

-- `handlePacketSplit`
unfoldable pub handle_packet_split :
    (ℕ → Bool)
    → ℕ
    → ℕ
    → (PacketSplitter → TunnelPool → PacketSplitter × TunnelPool)
    → List Moved
    → Target
    → Split
    → Bytes × Split
handle_packet_split accepts now later relay moved t s =
    if has_tunnels s.pool
    then split_from accepts now later relay moved t (socks_healthy s.instances) s
    else (reply 0x01, s)
