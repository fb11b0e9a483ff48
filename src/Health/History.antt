-- ===== src/Health/History.antt =====
-- internal/health/checker.go and internal/engine: all that happens to the health of an instance.
use slip_stream_plus.Prelude.{
  ℕ, [], ◌+◌, ◌<◌, ◌≡◌, refl, ◌⊎◌, inl, inr, Bool-cases, Option-cases, Bool, true, false, not, ◌&&◌,
  max, arith,
}
use slip_stream_plus.Prelude.Int.{ℤ, pos, ◌<ℤ◌}
use slip_stream_plus.Prelude.Maps.{Map, insert, nat_key}
use slip_stream_plus.Prelude.Maps.Laws.{lookup-insert}
use slip_stream_plus.Engine.Instance.{
  Instance, starting, healthy, dead, set_state, set_last_ping_ms, new_instance, Mode, incr_conns,
  decr_conns, add_tx, add_rx,
}
use slip_stream_plus.Health.{
  Outcome, Checked, failures_of, check_one, check_dead, is_dead, is_ssh, max_consecutive_failures,
  not_listening, probe_failed, all_succeeded, ping_ms,
}

-- An instance and the checker's failures.
pub record Watched : Type 0 where
  pub instance' : Instance
  pub failures : Map ℕ ℕ

-- What can happen then_step.
pub data Step (targeted : Bool) (w : Watched) : Watched → Type 0 where
  -- `checkOne`
  checked :
      (o : Outcome)
      → Step targeted w (
          let c = check_one targeted o w.instance' w.failures in
          record { instance' = c.instance'; failures = c.failures })
  -- `checkAll`, with a dead instance
  skipped :
      is_dead w.instance' ≡ true → Step targeted w (record w { instance' = check_dead w.instance' })
  -- `Start` succeeds; `WaitForExit` or `Stop`
  started : Step targeted w (record w { instance' = set_state starting w.instance' })
  exited : Step targeted w (record w { instance' = set_state dead w.instance' })
  -- a connection begins or ends
  conn_began : Step targeted w (record w { instance' = incr_conns w.instance' })
  conn_ended :
      (tx rx : ℤ)
      → Step targeted w (record w { instance' = decr_conns (add_rx rx (add_tx tx w.instance')) })

pub data Reach (targeted : Bool) (w : Watched) : Watched → Type 0 where
  here : Reach targeted w w
  then_step : {u v : Watched} → Reach targeted w u → Step targeted u v → Reach targeted w v

-- A healthy instance has failed fewer than three times in a row, and has a ping.
pub record Inv (w : Watched) : Type 0 where
  pub few_failures :
      w.instance'.state ≡ healthy → failures_of w.instance'.id w.failures < max_consecutive_failures
  pub has_ping : w.instance'.state ≡ healthy → pos 0 <ℤ w.instance'.last_ping_ms

pub failures_of-insert : (id n : ℕ) (m : Map ℕ ℕ) → failures_of id (insert id n m) ≡ n
unfolding failures_of
failures_of-insert id n m = ground (arith, lookup-insert id id n m)

ping_ms_pos : (rtt : ℕ) → 0 < ping_ms rtt
unfolding ping_ms
ping_ms_pos rtt = ground arith

abbrev pub after : Checked → Watched
after c = record { instance' = c.instance'; failures = c.failures }

not_listening-Inv : (i : Instance) (m : Map ℕ ℕ) → Inv (after (not_listening i m))
unfolding not_listening
not_listening-Inv i m = ground arith

probe_failed-Inv :
    (restarts : Bool) (i : Instance) (m : Map ℕ ℕ)
    → Inv (record { instance' = i; failures = m })
    → Inv (after (probe_failed restarts i m))
unfolding probe_failed
probe_failed-Inv restarts i m v = ground (arith, failures_of-insert i.id (failures_of i.id m + 1) m)

all_succeeded-Inv : (rtt : ℕ) (i : Instance) (m : Map ℕ ℕ) → Inv (after (all_succeeded rtt i m))
unfolding all_succeeded
all_succeeded-Inv rtt i m = record {
  few_failures = λ e. rw (failures_of-insert i.id 0 m) (omega arith);
  has_ping = λ e. omega (arith, ping_ms_pos rtt);
}

-- A check ends in one of three ways.
pub check_one-cases :
    (targeted : Bool) (o : Outcome) (i : Instance) (m : Map ℕ ℕ)
    → (check_one targeted o i m ≡ not_listening i m)
      ⊎ ((restarts : Bool) × check_one targeted o i m ≡ probe_failed restarts i m)
      ⊎ ((rtt : ℕ) × check_one targeted o i m ≡ all_succeeded rtt i m)
unfolding check_one
check_one-cases targeted o i m = elim (Bool-cases o.listening) [
  | inr off ↦ inl (rw (off) refl)
  | inl on ↦ (elim (Option-cases o.tunnel) [
    | inl fails ↦ inr (inl (true, rw (on, fails) refl))
    | inr (t, e) ↦ (elim (Bool-cases (targeted && not (is_ssh i))) [
      | inr skip ↦ inr (inr (t, rw (on, e, skip) refl))
      | inl test ↦ (elim (Option-cases o.end_to_end) [
        | inl fails ↦ inr (inl (false, rw (on, e, test, fails) refl))
        | inr (u, f) ↦ inr (inr (max t u, rw (on, e, test, f) refl))
      ])
    ])
  ])
]

check_one-Inv :
    (targeted : Bool) (o : Outcome) (i : Instance) (m : Map ℕ ℕ)
    → Inv (record { instance' = i; failures = m })
    → Inv (after (check_one targeted o i m))
check_one-Inv targeted o i m v = elim (check_one-cases targeted o i m) [
  | inl e ↦ rw (e) (not_listening-Inv i m)
  | inr (inl (r, e)) ↦ rw (e) (probe_failed-Inv r i m v)
  | inr (inr (t, e)) ↦ rw (e) (all_succeeded-Inv t i m)
]

Step-Inv : {targeted : Bool} {w v : Watched} → Inv w → Step targeted w v → Inv v
unfolding check_dead set_state incr_conns decr_conns add_tx add_rx is_dead set_last_ping_ms
Step-Inv {targeted} {w} h (checked o) = check_one-Inv targeted o w.instance' w.failures h
Step-Inv h (skipped e) = record { few_failures = ground (arith, e); has_ping = ground (arith, e) }
Step-Inv h started = record { few_failures = ground arith; has_ping = ground arith }
Step-Inv h exited = record { few_failures = ground arith; has_ping = ground arith }
Step-Inv h conn_began = record { few_failures = h.few_failures; has_ping = h.has_ping }
Step-Inv h (conn_ended tx rx) = record { few_failures = h.few_failures; has_ping = h.has_ping }

abbrev pub fresh : ℕ → Mode → Watched
fresh id mode = record { instance' = new_instance id mode; failures = [] }

-- Whatever checks, restarts, exits and connections an instance goes through, whenever it is healthy it has failed fewer
-- than three times in a row, and its ping is positive.
pub Reach-Inv :
    {targeted : Bool} (id : ℕ) (mode : Mode) {w : Watched}
    → Reach targeted (fresh id mode) w
    → Inv w
unfolding new_instance
Reach-Inv id mode here = record { few_failures = ground arith; has_ping = ground arith }
Reach-Inv id mode (then_step r s) = Step-Inv (Reach-Inv id mode r) s
