-- ===== src/Central/State.antt =====
-- cmd/centralserver/state.go: the connections and their sources. A source (`*sourceConn`) is the
-- number of its tunnel connection; times are milliseconds and arguments.
use slip_stream_plus.Prelude.{
  ℕ, ◌+◌, ◌%◌, Bool, true, false, List, [], ◌∷◌, ◌++◌, ltb, ◌==◌, if◌then◌else◌, length, take, drop,
  Option, none, some,
}
use slip_stream_plus.Prelude.Maps.{Map, lookup, insert, delete, nat_key}
use slip_stream_plus.Tunnel.Protocol.{Bytes, Frame}
use slip_stream_plus.Tunnel.Reorder.{Reorderer}

-- `connState`. `target` tells whether there is an upstream; `write_ch` is what the write queue
-- holds, and `none` is the nil channel.
pub record ConnState : Type 0 where
  pub target : Bool
  pub reorderer : Reorderer
  pub tx_seq : ℕ
  pub created : ℕ
  pub last_active : ℕ
  pub sources : List ℕ
  pub source_idx : ℕ
  pub write_ch : Option (List Bytes)

abbrev pub Conns : Type 0
Conns = Map ℕ ConnState

-- What a handler does to the world outside `conns`.
pub data Effect : Type 0 where
  -- `go cs.connectUpstream(...)` for ATYP, address and port
  dial : ℕ → ℕ → Bytes → Bytes → Effect
  -- a slice that the write queue took, and one that it had no room for
  queued dropped : ℕ → Bytes → Effect
  -- `state.cancel()` and `state.target.Close()`
  cancel close_target : ℕ → Effect
  -- a frame that a source took, and one that no source took
  sent : ℕ → Frame → Effect
  unsent : Frame → Effect

-- `make(chan []byte, 256)`
abbrev pub write_ch_cap : ℕ
write_ch_cap = 256

-- `sources = append(sources[:i], sources[i+1:]...)` at the first place of a source.
unfoldable pub remove_source : ℕ → List ℕ → List ℕ
remove_source dead [] = []
remove_source dead (s ∷ rest) = if s == dead then rest else s ∷ remove_source dead rest

unfoldable pub has_source : ℕ → List ℕ → Bool
has_source source [] = false
has_source source (s ∷ rest) = if s == source then true else has_source source rest

-- `select { case writeCh <- data: default: }` for each slice in turn.
unfoldable pub enqueue : ℕ → List Bytes → List Bytes → List Bytes × List Effect
enqueue id queue [] = (queue, [])
enqueue id queue (chunk ∷ rest) =
    let room = ltb (length queue) write_ch_cap in
    let more = enqueue id (if room then queue ++ (chunk ∷ []) else queue) rest in
    (more.0, (if room then queued id chunk else dropped id chunk) ∷ more.1)

-- The sources from the current one on, round the list.
unfoldable pub rotated : List ℕ → ℕ → List ℕ
rotated sources idx = let start = idx % length sources in drop start sources ++ take start sources

-- The loop of `sendFrame`: each source in turn until one takes the frame, and those that did not
-- are removed. `accepts` tells which sources can still be written to.
unfoldable pub try_sources : (ℕ → Bool) → Frame → List ℕ → List ℕ → Effect × List ℕ
unfolding remove_source
try_sources accepts frame [] sources = (unsent frame, sources)
try_sources accepts frame (s ∷ rest) sources =
    let more = try_sources accepts frame rest (remove_source s sources) in
    if accepts s then (sent s frame, sources) else more

unfoldable pub send_frame : (ℕ → Bool) → ℕ → Frame → Conns → Conns × List Effect
unfolding try_sources rotated
send_frame accepts id frame conns = elim (lookup id conns) [
  | none ↦ (conns, [])
  | some state ↦
      if length state.sources == 0
      then (conns, [])
      else (let t =
            try_sources accepts frame (rotated state.sources state.source_idx) state.sources in
          (
            insert id (record state { source_idx = state.source_idx + 1; sources = t.1 }) conns,
            t.0 ∷ [],
          ))
]

-- `removeConn`
unfoldable pub remove_conn : ℕ → Conns → Conns × List Effect
remove_conn id conns = elim (lookup id conns) [
  | none ↦ (conns, [])
  | some state ↦ (delete id conns, cancel id ∷ [])
]
