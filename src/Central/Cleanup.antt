-- ===== src/Central/Cleanup.antt =====
-- cmd/centralserver/server.go: how connections go away with their sources and with time.
pub mod Sources
pub mod Ticks
use slip_stream_plus.Prelude.{
  ℕ, ◌-◌, Bool, not, ◌&&◌, ◌||◌, List, [], ◌∷◌, ◌++◌, ltb, ◌==◌, if◌then◌else◌, length, none, some,
}
use slip_stream_plus.Prelude.Maps.{lookup, insert, delete, nat_key}
use slip_stream_plus.Central.State.{ConnState, Conns, Effect, cancel, close_target, remove_source}

-- `state.cancel()`, `state.target.Close()` if there is an upstream.
unfoldable pub close_effects : ℕ → ConnState → List Effect
close_effects id state = cancel id ∷ (if state.target then close_target id ∷ [] else [])

-- One round of the loop of `cleanupSource`.
unfoldable pub cleanup_one : ℕ → ℕ → Conns → Conns × List Effect
unfolding remove_source close_effects
cleanup_one dead id conns = elim (lookup id conns) [
  | none ↦ (conns, [])
  | some state ↦
      let left = remove_source dead state.sources in
      if length left == 0
      then (delete id conns, close_effects id state)
      else (insert id (record state { sources = left }) conns, [])
]

-- `cleanupSource`, for the numbers that the source served.
unfoldable pub cleanup_source : ℕ → List ℕ → Conns → Conns × List Effect
unfolding cleanup_one
cleanup_source dead [] conns = (conns, [])
cleanup_source dead (id ∷ ids) conns =
    let s = cleanup_one dead id conns in
    let more = cleanup_source dead ids (s.0) in (more.0, (s.1) ++ more.1)

unfoldable pub should_clean : ℕ → ConnState → Bool
should_clean now state =
    (not state.target && ltb 60000 (now - state.created))
    || ((length state.sources == 0) && ltb 30000 (now - state.created))
    || ltb 60000 (now - state.last_active)

-- A tick of `cleanupLoop`.
unfoldable pub cleanup_tick : ℕ → Conns → Conns × List Effect
unfolding should_clean close_effects
cleanup_tick now [] = ([], [])
cleanup_tick now ((id, state) ∷ rest) =
    let more = cleanup_tick now rest in
    if should_clean now state
    then (more.0, close_effects id state ++ more.1)
    else ((id, state) ∷ more.0, more.1)

-- `closeAll`
unfoldable pub close_all : Conns → Conns × List Effect
unfolding close_effects
close_all [] = ([], [])
close_all ((id, state) ∷ rest) = ([], close_effects id state ++ (close_all rest).1)
