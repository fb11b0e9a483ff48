-- ===== src/Engine/Manager.antt =====
-- internal/engine/manager.go: the instances of a configuration, and what starts, stops and restarts them. Whether a
-- process can be started is a parameter, which an instance's number is given to. Times are seconds.
pub mod Backoff
pub mod Control
pub mod Supervisor
use Prim.Native.String.{String}
use text.Mathlib.Text.{◌==◌ as str_eq}
use slip_stream_plus.Prelude.{
  ℕ, zero, suc, ◌+◌, ◌*◌, Bool, true, false, List, [], ◌∷◌, ltb, ◌==◌, if◌then◌else◌, Option, none,
  some,
}
use slip_stream_plus.Config.{ExpandedInstance}
use slip_stream_plus.Engine.Instance.{
  Instance, InstanceState, starting, dead, Mode, socks, ssh, new_instance, set_state, is_healthy,
}

-- An instance's mode is one of two texts.
unfoldable pub mode_of : ExpandedInstance → Mode
mode_of e = if str_eq e.mode "ssh" then ssh else socks

-- The loop of `NewManager` and of `Reload`: the instances are numbered as they stand.
unfoldable pub new_instances : ℕ → List ExpandedInstance → List Instance
unfolding mode_of new_instance
new_instances i [] = []
new_instances i (e ∷ rest) = new_instance i (mode_of e) ∷ new_instances (suc i) rest

-- `Start`: the state changes only when the process is there.
unfoldable pub start : (ℕ → Bool) → Instance → Instance × Bool
unfolding set_state
start starts i = if starts i.id then (set_state starting i, true) else (i, false)

-- `Stop`
unfoldable pub stop : Instance → Instance
unfolding set_state
stop i = set_state dead i

-- `StartAll` ends at the first instance that does not start: the instances, those that have a supervisor, and the
-- instance that failed.
unfoldable pub start_all : (ℕ → Bool) → List Instance → List Instance × List ℕ × Option ℕ
unfolding start
start_all starts [] = ([], [], none)
start_all starts (i ∷ rest) =
    let more = start_all starts rest in
    if starts i.id
    then ((start starts i).0 ∷ more.0, i.id ∷ more.1, more.2)
    else (i ∷ rest, [], some i.id)

-- The last loop of `Reload` goes on behind an instance that does not start.
unfoldable pub start_each : (ℕ → Bool) → List Instance → List Instance × List ℕ
unfolding start
start_each starts [] = ([], [])
start_each starts (i ∷ rest) =
    let more = start_each starts rest in
    ((start starts i).0 ∷ more.0, if starts i.id then i.id ∷ more.1 else more.1)

unfoldable pub healthy_instances : List Instance → List Instance
unfolding is_healthy
healthy_instances [] = []
healthy_instances (i ∷ rest) =
    let more = healthy_instances rest in if is_healthy i then i ∷ more else more

-- `RestartInstance` stops the first instance with the number; the supervisor starts it again. `none` is an error.
unfoldable pub restart_instance : ℕ → List Instance → Option (List Instance)
unfolding stop
restart_instance id [] = none
restart_instance id (i ∷ rest) =
    let more = restart_instance id rest in
    if i.id == id then some (stop i ∷ rest) else (elim more [ none ↦ none | some l ↦ some (i ∷ l) ])

abbrev pub max_backoff : ℕ
max_backoff = 30

unfoldable pub next_backoff : ℕ → ℕ
next_backoff backoff = let b = backoff * 2 in if ltb max_backoff b then max_backoff else b

-- The inner loop of `supervise`, for so many failing attempts in a row before one that succeeds: how long it waits
-- before each attempt.
unfoldable pub backoff_waits : ℕ → ℕ → List ℕ
unfolding next_backoff
backoff_waits backoff zero = backoff ∷ []
backoff_waits backoff (suc failures) = backoff ∷ backoff_waits (next_backoff backoff) failures
