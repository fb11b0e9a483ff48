-- ===== src/Central/Upstream.antt =====
-- cmd/centralserver/upstream.go: the connection to the upstream proxy, its replies and its end.
pub mod Writer
use slip_stream_plus.Prelude.{
  ℕ, ◌+◌, ◌%◌, Bool, true, List, [], ◌∷◌, ◌++◌, ◌==◌, if◌then◌else◌, get_or, drop, Option, none,
  some,
}
use slip_stream_plus.Prelude.Maps.{lookup, insert, nat_key}
use slip_stream_plus.Tunnel.Protocol.{Bytes, Frame, u32_mod, ok, err, read_full}
use slip_stream_plus.Tunnel.Reorder.{drain_all}
use slip_stream_plus.Central.State.{
  ConnState, Conns, Effect, close_target, enqueue, send_frame, remove_conn,
}

-- The greeting and the CONNECT request, in one write.
unfoldable pub connect_request : ℕ → Bytes → Bytes → Bytes
connect_request atyp addr port =
    (0x05 ∷ 0x01 ∷ 0x00 ∷ 0x05 ∷ 0x01 ∷ 0x00 ∷ atyp ∷ []) ++ (addr ++ port)

-- The length of the bound address and port in the reply; `first` is the byte behind the header.
unfoldable pub bind_len : ℕ → ℕ → ℕ
bind_len atyp first =
    if atyp == 0x01
    then 6
    else if atyp == 0x03
    then 1 + (first + 2)
    else if atyp == 0x04
    then 18
    else 6

-- What the upstream answers: refused, or what it sends behind the reply. A bound address that is
-- cut short is not noticed.
unfoldable pub handshake : Bytes → Option Bytes
unfolding read_full bind_len
handshake reader = elim (read_full 6 reader) [
  | err e ↦ none
  | ok (resp, rest) ↦
      if get_or resp 3 0 == 0x00
      then some (drop (bind_len (get_or resp 5 0) (get_or rest 0 0)) rest)
      else none
]

unfoldable pub rst_frame : ℕ → Frame
rst_frame id = record { conn_id = id; seq_num = 0; flags = 0x14; payload = [] }

unfoldable pub fin_frame : ℕ → Frame
fin_frame id = record { conn_id = id; seq_num = 0; flags = 0x12; payload = [] }

-- A frame for the client, and then the connection is removed.
unfoldable pub finish : (ℕ → Bool) → ℕ → Frame → Conns → Conns × List Effect
unfolding send_frame remove_conn
finish accepts id frame conns =
    let s = send_frame accepts id frame conns in let r = remove_conn id (s.0) in (r.0, (s.1) ++ r.1)

-- The upstream is there: the write queue opens, and what arrived before goes into it.
unfoldable pub open_queue : ℕ → (ℕ → ℕ) → ConnState → ConnState × List Effect
unfolding drain_all enqueue
open_queue id clock state =
    let d = drain_all clock state.reorderer in
    let q = enqueue id [] (d.0) in
    (record state { target = true; reorderer = d.1; write_ch = some (q.0) }, q.1)

-- The connection that was dialled is there. `removed` is its state if that is not in the map any more: the
-- goroutine still has it, and opens its queue and fills it.
unfoldable pub connected : ℕ → (ℕ → ℕ) → Option ConnState → Conns → Conns × List Effect
unfolding open_queue
connected id clock (some removed) conns = (conns, (open_queue id clock removed).1)
connected id clock none conns = elim (lookup id conns) [
  | none ↦ (conns, [])
  | some state ↦ let s = open_queue id clock state in (insert id (s.0) conns, s.1)
]

-- `connectUpstream`, up to the relay. `answer` is what comes from the upstream, and `none` if it
-- cannot be dialled or written to.
unfoldable pub connect_upstream :
    (ℕ → Bool) → Option Bytes → ℕ → (ℕ → ℕ) → Option ConnState → Conns → Conns × List Effect
unfolding handshake rst_frame finish connected
connect_upstream accepts none id clock removed conns = finish accepts id (rst_frame id) conns
connect_upstream accepts (some reader) id clock removed conns = elim (handshake reader) [
  | none ↦ let f = finish accepts id (rst_frame id) conns in (f.0, close_target id ∷ f.1)
  | some rest ↦ connected id clock removed conns
]

-- A round of `relayUpstreamToTunnel` that reads something.
unfoldable pub relay_chunk : (ℕ → Bool) → ℕ → Bytes → ℕ → Conns → Conns × List Effect
unfolding send_frame
relay_chunk accepts id chunk now conns = elim (lookup id conns) [
  | none ↦ (conns, [])
  | some state ↦
      send_frame accepts id
        (record { conn_id = id; seq_num = state.tx_seq; flags = 0x10; payload = chunk })
        (insert id (record state { tx_seq = (state.tx_seq + 1) % u32_mod; last_active = now })
          conns)
]

-- The end of the relay.
unfoldable pub relay_end : (ℕ → Bool) → ℕ → Conns → Conns × List Effect
unfolding finish fin_frame
relay_end accepts id conns =
    let f = finish accepts id (fin_frame id) conns in (f.0, close_target id ∷ f.1)
