-- ===== src/Engine/Manager/Supervisor.antt =====
-- internal/engine/manager.go: an instance's supervisor beside `Shutdown`, or the first half of `Reload`, and beside
-- `RestartInstance`. An event is what one of the goroutines does without being interrupted, and a run is any
-- order of them. A select that is blocked takes what comes first, and a timer that is made after the cancellation
-- has not fired yet.
use slip_stream_plus.Prelude.{
  ℕ, ◌≤◌, ◌<◌, ◌≡◌, ◌⊎◌, refl, inl, inr, Bool, true, false, if◌then◌else◌, Bool-cases, Option, none,
  some, arith,
}

-- Where the supervisor stands: at the head of its loop, in `WaitForExit`, behind it, in the select of a backoff, behind
-- that and in front of `Start`, or returned.
pub data Place : Type 0 where
  head waiting exited backing_off due gone : Place

-- How far `Shutdown` is: not called, behind `cancel`, behind `Stop`, or behind `wg.Wait`.
pub data Stage : Type 0 where
  serving cancelled stopped finished : Stage

-- `process` is that the instance has a process that is alive. `late` notes where the supervisor stood when `Shutdown`
-- stopped the instance: in front of `Start`.
pub record Watch : Type 0 where
  pub stage : Stage
  pub place : Place
  pub process : Bool
  pub late : Bool

-- Behind the `Start` of `StartAll`.
abbrev pub watched : Watch
watched = record { stage = serving; place = head; process = true; late = false }

unfoldable pub is_serving : Stage → Bool
is_serving serving = true
is_serving cancelled = false
is_serving stopped = false
is_serving finished = false

unfoldable pub is_due : Place → Bool
is_due due = true
is_due head = false
is_due waiting = false
is_due exited = false
is_due backing_off = false
is_due gone = false

pub data Event : Type 0 where
  -- the supervisor: a select without waiting, `WaitForExit` returns, a select of the backoff, `Start`
  look wait_over wake give_up start start_fails : Event
  -- the process exits by itself
  exits : Event
  -- `Shutdown` and `RestartInstance`
  cancel stop wait_for_all restart : Event

-- The supervisor looks whether the context is done.
unfoldable pub look_from : Stage → Place → Option Place
unfolding is_serving
look_from stage head = some (if is_serving stage then waiting else gone)
look_from stage exited = some (if is_serving stage then backing_off else gone)
look_from stage waiting = none
look_from stage backing_off = none
look_from stage due = none
look_from stage gone = none

-- An event in a state, or none where it cannot happen.
unfoldable pub step : Event → Watch → Option Watch
unfolding look_from is_serving is_due
step look s = elim (look_from s.stage s.place) [
  | none ↦ none
  | some p ↦ some (record s { place = p })
]
step wait_over s = elim s.place [
  | waiting ↦ if s.process then none else some (record s { place = exited })
  | _ ↦ none
]
step wake s = elim s.place [
  | backing_off ↦ if is_serving s.stage then some (record s { place = due }) else none
  | _ ↦ none
]
step give_up s = elim s.place [
  | backing_off ↦ if is_serving s.stage then none else some (record s { place = gone })
  | _ ↦ none
]
step start s = elim s.place [ due ↦ some (record s { place = head; process = true }) | _ ↦ none ]
step start_fails s = elim s.place [ due ↦ some (record s { place = backing_off }) | _ ↦ none ]
step exits s = if s.process then some (record s { process = false }) else none
step cancel s = elim s.stage [ serving ↦ some (record s { stage = cancelled }) | _ ↦ none ]
step stop s = elim s.stage [
  | cancelled ↦ some (record s { stage = stopped; process = false; late = is_due s.place })
  | _ ↦ none
]
step wait_for_all s = elim s.stage [
  | stopped ↦ elim s.place [ gone ↦ some (record s { stage = finished }) | _ ↦ none ]
  | _ ↦ none
]
step restart s = some (record s { process = false })

-- The states that a run can come to.
pub data Reach : Watch → Type 0 where
  begin : Reach watched
  after : (e : Event) (s t : Watch) → Reach s → step e s ≡ some t → Reach t

-- The instance is stopped for good, if the supervisor was not late.
abbrev Inv : Stage → Place → Bool → Bool → Type 0
Inv serving place process late = late ≡ false
Inv cancelled place process late = late ≡ false
Inv stopped place process late =
    (late ≡ false → (process ≡ false) × is_due place ≡ false)
    × (process ≡ true → (place ≡ head) ⊎ (place ≡ gone))
Inv finished place process late = (place ≡ gone) × (late ≡ false → process ≡ false)

step-Inv :
    (e : Event) (stage : Stage) (place : Place) (process late : Bool) (t : Watch)
    → step e (record { stage = stage; place = place; process = process; late = late }) ≡ some t
    → Inv stage place process late
    → Inv t.stage t.place t.process t.late
unfolding step look_from is_serving is_due
step-Inv ev stage place process late t e h = ground (arith, e, h)

Reach-Inv : (s : Watch) → Reach s → Inv s.stage s.place s.process s.late
Reach-Inv _ begin = refl
Reach-Inv _ (after e s t r h) = step-Inv e s.stage s.place s.process s.late t h (Reach-Inv s r)

-- When `Shutdown` has returned, the supervisor has too; and the instance has no process, unless the supervisor was in
-- front of `Start` when `Shutdown` stopped the instance.
pub Reach-finished :
    (s : Watch)
    → Reach s
    → s.stage ≡ finished
    → (s.place ≡ gone) × ((s.process ≡ false) ⊎ (s.late ≡ true))
Reach-finished s r e = ground (arith, e, Reach-Inv s r)

-- Whenever a supervisor is in front of `Start` while `Shutdown` is called, there is an order of events in which
-- `Shutdown` returns and the instance has a process that nothing watches.
pub Reach-orphan :
    (s : Watch)
    → Reach s
    → s.stage ≡ serving
    → s.place ≡ due
    → (t : Watch) × Reach t × (t.stage ≡ finished) × (t.place ≡ gone) × (t.process ≡ true)
unfolding step look_from is_serving is_due
Reach-orphan s r e f =
    let s1 : Watch = record s { stage = cancelled } in
    let s2 : Watch = record s1 { stage = stopped; process = false; late = true } in
    let s3 : Watch = record s2 { place = head; process = true } in
    let s4 : Watch = record s3 { place = gone } in
    let s5 : Watch = record s4 { stage = finished } in
    let r1 : Reach s1 = after cancel s s1 r (rw (e) refl) in
    let r2 : Reach s2 = after stop s1 s2 r1 (rw (f) refl) in
    let r3 : Reach s3 = after start s2 s3 r2 (rw (f) refl) in
    let r4 : Reach s4 = after look s3 s4 r3 refl in
    (s5, after wait_for_all s4 s5 r4 refl, refl, refl, refl)

-- How many events a supervisor is away from its return, at most, once the context is done.
abbrev pub rank : Place → ℕ
rank gone = 0
rank head = 1
rank exited = 1
rank backing_off = 1
rank waiting = 2
rank due = 2

-- An event that brings the supervisor nearer to its return can happen.
abbrev pub Nearer : Watch → Type 0
Nearer s =
    (ev : Event) × (t : Watch) × (step ev s ≡ some t)
    × (t.stage ≡ stopped)
    × rank t.place < rank s.place

nearer :
    (s : Watch) (p : Place)
    → s.place ≡ p
    → s.stage ≡ stopped
    → (s.process ≡ true → (s.place ≡ head) ⊎ (s.place ≡ gone))
    → (s.place ≡ gone) ⊎ Nearer s
unfolding step look_from is_serving
nearer s gone f e i = inl f
nearer s head f e i = inr (look, record s { place = gone }, rw (f, e) refl, e, ground (arith, f))
nearer s exited f e i = inr (look, record s { place = gone }, rw (f, e) refl, e, ground (arith, f))
nearer s backing_off f e i =
    inr (give_up, record s { place = gone }, rw (f, e) refl, e, ground (arith, f))
nearer s due f e i =
    inr (start, record s { place = head; process = true }, rw (f) refl, e, ground (arith, f))
nearer s waiting f e i = elim (Bool-cases s.process) [
  | inl up ↦ absurd (ground (arith, f, i up))
  | inr down ↦ inr (wait_over, record s { place = exited }, rw (f, down) refl, e, ground (arith, f))
]

-- While `Shutdown` waits for the supervisors, one that has not returned is never stuck: an event can happen that brings
-- it nearer to its return.
pub Reach-Nearer : (s : Watch) → Reach s → s.stage ≡ stopped → (s.place ≡ gone) ⊎ Nearer s
Reach-Nearer s r e = nearer s s.place refl e (ground (arith, e, Reach-Inv s r))

-- And no event takes it further away.
pub Reach-rank :
    (s : Watch) (ev : Event) (t : Watch)
    → Reach s
    → s.stage ≡ stopped
    → step ev s ≡ some t
    → rank t.place ≤ rank s.place
unfolding step look_from is_serving is_due
Reach-rank s ev t r e h = ground (arith, e, h, Reach-Inv s r)
