-- ===== src/Health/Streaks.antt =====
-- internal/health/checker.go: an instance whose tunnel stops to answer, check after check, with the restarts that the
-- checks ask for.
use slip_stream_plus.Prelude.{
  ℕ, suc, ◌+◌, ◌≤◌, ◌<◌, ◌≡◌, refl, ap, ◌∙◌, Bool, true, false, ◌||◌, List, [], ◌∷◌, length, All,
  ltb, leb, if◌then◌else◌, none, arith, dec_lt,
}
use slip_stream_plus.Prelude.Maps.{Map, nat_key}
use slip_stream_plus.Engine.Instance.{
  Instance, starting, healthy, dead, set_state, set_last_ping_ms, Mode, is_healthy,
}
use slip_stream_plus.Health.{
  Outcome, Checked, failures_of, check_one, check_dead, max_consecutive_failures, probe_failed,
  record_failure, is_unhealthy, is_dead, give_up,
}
use slip_stream_plus.Health.History.{Watched, Reach, fresh, Reach-Inv, after, failures_of-insert}

-- A round of `checkAll`: what the check of the instance finds out, and whether the supervisor has started it again
-- before the next round if it is dead then.
pub record Round : Type 0 where
  pub outcome : Outcome
  pub starts : Bool

unfoldable pub with_supervisor : Bool → Instance → Instance
unfolding set_state
with_supervisor starts i = if starts then set_state starting i else i

-- The check of an instance that is not dead. A restart that it asks for stops the instance.
unfoldable pub followed : Bool → Checked → Bool × Watched
unfolding with_supervisor set_state
followed starts c =
    if c.restart
    then (
      true,
      record {
        instance' = with_supervisor starts (set_state dead c.instance');
        failures = c.failures;
      },
    )
    else (false, after c)

-- A round, and whether it asks for a restart.
unfoldable pub check_round : Bool → Round → Watched → Bool × Watched
unfolding is_dead check_dead check_one with_supervisor followed
check_round targeted r w =
    if is_dead w.instance'
    then (false, record w { instance' = with_supervisor r.starts (check_dead w.instance') })
    else followed r.starts (check_one targeted r.outcome w.instance' w.failures)

-- One round after the other, and whether any asks for a restart.
unfoldable pub run_checks : Bool → List Round → Watched → Bool × Watched
unfolding check_round
run_checks targeted [] w = (false, w)
run_checks targeted (r ∷ rs) w =
    let c = check_round targeted r w in
    let more = run_checks targeted rs (c.1) in (c.0 || more.0, more.1)

-- The port takes the connection, and the tunnel's probe fails.
abbrev pub IsTunnelFailure : Round → Type 0
IsTunnelFailure r = (r.outcome.listening ≡ true) × r.outcome.tunnel ≡ none

abbrev pub streak : Watched → ℕ
streak w = failures_of w.instance'.id w.failures

check_one_fails :
    (targeted : Bool) (r : Round) (i : Instance) (m : Map ℕ ℕ)
    → IsTunnelFailure r
    → check_one targeted r.outcome i m ≡ probe_failed true i m
unfolding check_one
check_one_fails targeted r i m (on, fails) = rw (on, fails) refl

-- Below three failures a check leaves the instance as it is, and asks for nothing.
round_below :
    (targeted : Bool) (r : Round) (w : Watched)
    → IsTunnelFailure r
    → w.instance'.state ≡ healthy
    → suc (streak w) < max_consecutive_failures
    → let c = check_round targeted r w in
      (c.0 ≡ false) × (c.1.instance'.state ≡ healthy) × (streak (c.1) ≡ suc (streak w))
unfolding check_round followed is_dead probe_failed record_failure
round_below targeted r w f e h =
    rw (check_one_fails targeted r w.instance' w.failures f)
      (ground (arith, e, h, failures_of-insert w.instance'.id (streak w + 1) w.failures))

-- The third failure in a row asks for a restart, and the instance is not healthy behind it.
round_third :
    (targeted : Bool) (r : Round) (w : Watched)
    → IsTunnelFailure r
    → w.instance'.state ≡ healthy
    → max_consecutive_failures ≤ suc (streak w)
    → let c = check_round targeted r w in
      (c.0 ≡ true) × (is_healthy (c.1.instance') ≡ false) × (streak (c.1) ≡ suc (streak w))
unfolding check_round followed with_supervisor is_dead probe_failed record_failure is_unhealthy
    is_healthy give_up set_state set_last_ping_ms
round_third targeted r w f e h =
    rw (check_one_fails targeted r w.instance' w.failures f)
      (ground (arith, e, h, failures_of-insert w.instance'.id (streak w + 1) w.failures))

-- Failures that follow do not make it healthy, whether it is started again or not.
round_after :
    (targeted : Bool) (r : Round) (w : Watched)
    → IsTunnelFailure r
    → is_healthy w.instance' ≡ false
    → max_consecutive_failures ≤ streak w
    → let c = check_round targeted r w in
      (is_healthy (c.1.instance') ≡ false) × (max_consecutive_failures ≤ streak (c.1))
unfolding check_round followed with_supervisor is_dead probe_failed record_failure is_unhealthy
    is_healthy give_up set_state set_last_ping_ms check_dead
round_after targeted r w f e h =
    rw (check_one_fails targeted r w.instance' w.failures f)
      (ground (arith, e, h, failures_of-insert w.instance'.id (streak w + 1) w.failures))

run_after :
    (targeted : Bool) (rs : List Round) (w : Watched)
    → All IsTunnelFailure rs
    → is_healthy w.instance' ≡ false
    → max_consecutive_failures ≤ streak w
    → is_healthy (run_checks targeted rs w).1.instance' ≡ false
unfolding run_checks
run_after targeted [] w _ e h = e
run_after targeted (r ∷ rs) w (f, fs) e h =
    let (e', h') = round_after targeted r w f e h in
    run_after targeted rs (check_round targeted r w).1 fs e' h'

-- What a run ends in: the instance is healthy below three failures, and from three on a restart was asked for.
Ends : ℕ → Bool × Watched → Type 0
Ends n out =
    (is_healthy out.1.instance' ≡ ltb n max_consecutive_failures)
    × (out.0 ≡ leb max_consecutive_failures n)

run_below :
    (targeted : Bool) (rs : List Round) (w : Watched)
    → All IsTunnelFailure rs
    → w.instance'.state ≡ healthy
    → streak w < max_consecutive_failures
    → Ends (streak w + length rs) (run_checks targeted rs w)
unfolding run_checks Ends is_healthy
run_below targeted [] w _ e h = ground (arith, e, h)
run_below targeted (r ∷ rs) w (f, fs) e h =
    let c = check_round targeted r w in
    elim (dec_lt (suc (streak w)) max_consecutive_failures) [
      | yes below ↦
          let (quiet, same, more) = round_below targeted r w f e below in
          let (a, b) = run_below targeted rs (c.1) fs same (omega (arith, more, below)) in
          let total : streak (c.1) + length rs ≡ streak w + suc (length rs) = omega (arith, more) in
          (a ∙ ap (λ n. ltb n 3) total, rw (quiet) (b ∙ ap (λ n. leb 3 n) total))
      | no above ↦
          let (asks, gone, more) = round_third targeted r w f e (omega (arith, above)) in
          (
            run_after targeted rs (c.1) fs gone (omega (arith, above, more))
                ∙ ground (arith, above),
            rw (asks) (ground (arith, above)),
          )
    ]

-- Of an instance that is healthy now, and whose port takes connections while its tunnel fails check after check, with
-- nothing else happening to it but the restarts that the checks ask for: it stays healthy, and no restart is asked
-- for, as long as the failures in a row, those before these checks included, are fewer than three; from three on a
-- restart has been asked for, and the instance is not healthy, whether it is started again or not.
pub run_checks_lem :
    (targeted : Bool) (id : ℕ) (mode : Mode) (w : Watched) (rs : List Round)
    → Reach targeted (fresh id mode) w
    → w.instance'.state ≡ healthy
    → All IsTunnelFailure rs
    → let out = run_checks targeted rs w in
      (is_healthy (out.1.instance') ≡ ltb (streak w + length rs) max_consecutive_failures)
      × (out.0 ≡ leb max_consecutive_failures (streak w + length rs))
unfolding Ends
run_checks_lem targeted id mode w rs r e all =
    run_below targeted rs w all e ((Reach-Inv id mode r).few_failures e)
