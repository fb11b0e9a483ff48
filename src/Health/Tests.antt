-- ===== src/Health/Tests.antt =====
-- internal/health/checker.go: an instance that starts, answers once, and then fails three checks.
use slip_stream_plus.Prelude.{◌+◌, ◌≡◌, refl, true, false, List, [], ◌∷◌, ltb, leb, none, some}
use slip_stream_plus.Prelude.Int.{pos}
use slip_stream_plus.Prelude.Maps.{lookup, insert, nat_key}
use slip_stream_plus.Engine.Instance.{
  is_healthy, dead, healthy, starting, socks, set_state, set_last_ping_ms, new_instance,
}
use slip_stream_plus.Health.{
  Outcome, check_one, record_success, failures_of, ping_ms, is_ssh, all_succeeded, probe_failed,
  record_failure, is_unhealthy, is_dead, give_up, max_consecutive_failures,
}
use slip_stream_plus.Health.History.{
  Watched, Reach, here, then_step, started, checked, fresh, Inv, Reach-Inv,
}
use slip_stream_plus.Health.Streaks.{
  Round, with_supervisor, followed, check_round, run_checks, streak, run_checks_lem,
}

abbrev answers : Outcome
answers = record { listening = true; tunnel = some 40000000; end_to_end = some 90000000 }

abbrev silent : Outcome
silent = record { listening = true; tunnel = none; end_to_end = none }

abbrev serving : Watched
serving = record {
  instance' =
      set_state healthy (set_last_ping_ms (pos 90) (set_state starting (new_instance 4 socks)));
  failures = insert 4 0 [];
}

serving-Reach : Reach true (fresh 4 socks) serving
unfolding check_one all_succeeded is_ssh ping_ms record_success set_state set_last_ping_ms
    new_instance
serving-Reach = then_step (then_step here started) (checked answers)

Reach-Inv_example : Inv serving
Reach-Inv_example = Reach-Inv 4 socks serving-Reach

serving_healthy : serving.instance'.state ≡ healthy
unfolding set_state
serving_healthy = refl

abbrev failing : List Round
failing =
    record { outcome = silent; starts = false }
    ∷ record { outcome = silent; starts = false }
    ∷ record { outcome = silent; starts = true }
    ∷ record { outcome = silent; starts = false }
    ∷ []

run_checks_lem_example :
    let out = run_checks true failing serving in
    (is_healthy (out.1.instance') ≡ ltb (streak serving + 4) max_consecutive_failures)
    × (out.0 ≡ leb max_consecutive_failures (streak serving + 4))
run_checks_lem_example =
    run_checks_lem true 4 socks serving failing serving-Reach serving_healthy
      ((refl, refl), ((refl, refl), ((refl, refl), ((refl, refl), tt))))

-- The third failure has the instance restarted, and the fourth asks for that again.
failing_restarts :
    let out = run_checks true failing serving in (out.0 ≡ true) × (out.1.instance'.state ≡ dead)
unfolding run_checks check_round followed with_supervisor is_dead check_one probe_failed
    is_unhealthy failures_of record_failure give_up set_state set_last_ping_ms new_instance lookup
    insert
failing_restarts = (refl, refl)
