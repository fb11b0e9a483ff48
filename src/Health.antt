-- ===== src/Health.antt =====
-- internal/health/checker.go: when an instance counts as healthy. What a probe finds out is a
-- parameter (`Outcome`), and a check is one step. Times are nanoseconds.
mod Tests
pub mod History
pub mod Streaks
pub mod Probes
use slip_stream_plus.Prelude.{
  ℕ, zero, suc, ◌+◌, ◌/◌, ◌≤◌, ◌<◌, Bool, true, false, not, ◌&&◌, List, [], ◌∷◌, ltb, leb, ◌==◌,
  if◌then◌else◌, max, Option, none, some,
}
use slip_stream_plus.Prelude.Int.{ℤ, pos, negsuc}
use slip_stream_plus.Prelude.Maps.{Map, lookup, insert, nat_key}
use slip_stream_plus.Engine.Instance.{
  Instance, InstanceState, starting, healthy, unhealthy, dead, Mode, socks, ssh, set_last_ping_ms,
  set_state,
}

abbrev pub max_consecutive_failures : ℕ
max_consecutive_failures = 3

-- `max(timeout, 30s)` of `NewChecker`, in seconds.
unfoldable pub checker_timeout : ℕ → ℕ
checker_timeout timeout = if ltb timeout 30 then 30 else timeout

-- `c.failures[id]`
unfoldable pub failures_of : ℕ → Map ℕ ℕ → ℕ
failures_of id failures = elim (lookup id failures) [ none ↦ 0 | some n ↦ n ]

unfoldable pub record_success : ℕ → Map ℕ ℕ → Map ℕ ℕ
record_success id failures = insert id 0 failures

unfoldable pub record_failure : ℕ → Map ℕ ℕ → Map ℕ ℕ × ℕ
unfolding failures_of
record_failure id failures = let n = failures_of id failures + 1 in (insert id n failures, n)

-- What a check finds out: whether the port takes a connection, how long the tunnel's probe took, and
-- how long the probe to the target took. `none` is an error.
pub record Outcome : Type 0 where
  pub listening : Bool
  pub tunnel : Option ℕ
  pub end_to_end : Option ℕ

unfoldable pub is_unhealthy : Instance → Bool
is_unhealthy i = elim i.state [ unhealthy ↦ true | _ ↦ false ]

unfoldable pub is_dead : Instance → Bool
is_dead i = elim i.state [ dead ↦ true | _ ↦ false ]

unfoldable pub is_ssh : Instance → Bool
is_ssh i = elim i.mode [ ssh ↦ true | socks ↦ false ]

unfoldable pub give_up : Instance → Instance
unfolding set_state set_last_ping_ms
give_up i = set_last_ping_ms (negsuc 0) (set_state unhealthy i)

-- What a check leaves: the failures, the instance, and whether it asks for a restart.
pub record Checked : Type 0 where
  pub failures : Map ℕ ℕ
  pub instance' : Instance
  pub restart : Bool

-- The port takes no connection.
unfoldable pub not_listening : Instance → Map ℕ ℕ → Checked
unfolding record_failure is_unhealthy give_up
not_listening i failures =
    let f = record_failure i.id failures in
    if is_unhealthy i
    then record { failures = f.0; instance' = i; restart = false }
    else record { failures = f.0; instance' = give_up i; restart = true }

-- A probe fails; only the tunnel's asks for a restart.
unfoldable pub probe_failed : Bool → Instance → Map ℕ ℕ → Checked
unfolding record_failure is_unhealthy give_up
probe_failed restarts i failures =
    let f = record_failure i.id failures in
    if ltb (f.1) max_consecutive_failures
    then record { failures = f.0; instance' = i; restart = false }
    else if is_unhealthy i
    then record { failures = f.0; instance' = i; restart = false }
    else record { failures = f.0; instance' = give_up i; restart = restarts }

-- `rtt.Milliseconds()`, and 1 for less.
unfoldable pub ping_ms : ℕ → ℕ
ping_ms rtt = let ms = rtt / 1000000 in if ms == 0 then 1 else ms

unfoldable pub all_succeeded : ℕ → Instance → Map ℕ ℕ → Checked
unfolding record_success ping_ms set_state set_last_ping_ms
all_succeeded rtt i failures = record {
  failures = record_success i.id failures;
  instance' = set_state healthy (set_last_ping_ms (pos (ping_ms rtt)) i);
  restart = false;
}

-- `checkOne`; `targeted` tells whether there is a target.
unfoldable pub check_one : Bool → Outcome → Instance → Map ℕ ℕ → Checked
unfolding is_ssh
check_one targeted o i failures =
    if not o.listening then not_listening i failures else (elim o.tunnel [
      | none ↦ probe_failed true i failures
      | some rtt ↦
          if targeted && not (is_ssh i)
          then (elim o.end_to_end [
            | none ↦ probe_failed false i failures
            | some e2e ↦ all_succeeded (max rtt e2e) i failures
          ])
          else all_succeeded rtt i failures
    ])

-- What `checkAll` does with a dead instance.
unfoldable pub check_dead : Instance → Instance
unfolding set_last_ping_ms
check_dead i = set_last_ping_ms (negsuc 0) i
