-- ===== src/Tunnel/Reorder/Gaps.antt =====
-- Missing frames, and frames with nothing in them.
use slip_stream_plus.Prelude.{
  ℕ, suc, ◌+◌, ◌-◌, ◌≤◌, ◌<◌, ◌≡◌, refl, sym, ap, ◌∙◌, ◌⊎◌, inl, inr, [], ◌∷◌, List, ◌%◌, ◌==◌,
  false, length, some, arith,
}
use slip_stream_plus.Prelude.Maps.{lookup, delete, nat_key}
use slip_stream_plus.Prelude.Maps.Laws.{length-delete, lookup-delete}
use slip_stream_plus.Tunnel.Protocol.{Bytes, u32_mod}
use slip_stream_plus.Tunnel.Reorder.{Reorderer, deliver, next, pending, drain_all}
use slip_stream_plus.Tunnel.Reorder.Steps.{
  Inv, Stepped, ready, empty, starts, waits, skips, next-Stepped, next-Inv, next-pending,
  drain_stop, drain_go, next_ready,
}

-- What one call achieves: a frame goes out, or the timer runs since `now` at the latest.
FirstCall : ℕ → Reorderer → Bytes × Reorderer → Type 0
FirstCall now r s =
    (suc (pending s.1) ≡ pending r)
    ⊎ ((pending s.1 ≡ pending r)
        × (s.1.gap_timeout ≡ r.gap_timeout)
        × ((t : ℕ) × (s.1.waiting_since ≡ some t) × (t ≤ now)))

next-FirstCall :
    (now : ℕ) (r : Reorderer)
    → Inv r
    → 0 < pending r
    → ((t : ℕ) → r.waiting_since ≡ some t → t ≤ now)
    → FirstCall now r (next now r)
unfolding FirstCall
next-FirstCall now r v some_left past = go (next now r) (next-Stepped now r v)
  where
    go : (s : Bytes × Reorderer) → Stepped now r s → FirstCall now r s
    go s (ready d e) = inl (unfold pending deliver in sym (length-delete r.next_seq r.buffer e))
    go s (empty e) = absurd (unfold pending in omega (arith, ap length e))
    go s (starts e f) = inr (unfold pending in refl, refl, (now, refl, omega arith))
    go s (waits t e f h) = inr (refl, refl, (t, f, past t f))
    go s (skips t k d e f h found lowest) =
        inl (unfold pending deliver in sym (length-delete k r.buffer found))

-- A call when the timer has run out takes a frame out.
next_after_gap :
    (now t : ℕ) (r : Reorderer)
    → Inv r
    → 0 < pending r
    → r.waiting_since ≡ some t
    → r.gap_timeout ≤ now - t
    → suc (pending (next now r).1) ≡ pending r
next_after_gap now t r v some_left waiting late = go (next now r) (next-Stepped now r v)
  where
    go : (s : Bytes × Reorderer) → Stepped now r s → suc (pending s.1) ≡ pending r
    go s (ready d e) = unfold pending deliver in sym (length-delete r.next_seq r.buffer e)
    go s (empty e) = absurd (unfold pending in omega (arith, ap length e))
    go s (starts e f) = absurd (cc (sym f ∙ waiting))
    go s (waits u e f h) = absurd (ground arith)
    go s (skips u k d e f h found lowest) =
        unfold pending deliver in sym (length-delete k r.buffer found)

-- A missing frame cannot stall the stream: while frames are buffered, of two calls of `Next` that
-- lie the gap timeout or more apart one at least takes a frame out.
pub next-next_progress :
    (now later : ℕ) (r : Reorderer)
    → Inv r
    → 0 < pending r
    → ((t : ℕ) → r.waiting_since ≡ some t → t ≤ now)
    → now + r.gap_timeout ≤ later
    → pending (next later (next now r).1).1 < pending r
unfolding FirstCall
next-next_progress now later r v some_left past late =
    let v' = next-Inv now r v in
    elim (next-FirstCall now r v some_left past) [
      | inl out ↦ ground (arith, next-pending later (next now r).1 v')
      | inr (same, gap, (t, e, h)) ↦ ground (arith, next_after_gap later t (next now r).1 v')
    ]

-- A frame with no payload comes out as nothing: the loop ends at once, and only the number moves on.
drain_all_empty :
    (clock : ℕ → ℕ) (r : Reorderer)
    → lookup r.next_seq r.buffer ≡ some []
    → drain_all clock r ≡ ([], (deliver [] r).1)
unfolding drain_all
drain_all_empty clock r e =
    drain_stop clock (pending r) r (deliver [] r).1
      (next_ready (clock (pending r)) r [] e ∙ unfold deliver in refl)

-- The loop begins with the frame that is next.
drain_all_first :
    (clock : ℕ → ℕ) (r : Reorderer) (x : ℕ) (xs : Bytes)
    → lookup r.next_seq r.buffer ≡ some (x ∷ xs)
    → (rest : List Bytes) × (drain_all clock r).0 ≡ (x ∷ xs) ∷ rest
unfolding drain_all
drain_all_first clock r x xs e = (
  _,
  ap (λ s. s.0)
      (drain_go clock (pending r) x xs r (deliver (x ∷ xs) r).1
        (next_ready (clock (pending r)) r (x ∷ xs) e ∙ unfold deliver in refl)),
)

-- When the next frame has no payload, the draining loop hands out nothing, although the frame behind that one is there
-- and has a payload: this frame stays in the buffer, is the next one now, and is the first that comes out when the
-- loop is run again.
pub drain_all_empty_payload :
    (clock later : ℕ → ℕ) (r : Reorderer) (x : ℕ) (xs : Bytes)
    → Inv r
    → lookup r.next_seq r.buffer ≡ some []
    → lookup ((r.next_seq + 1) % u32_mod) r.buffer ≡ some (x ∷ xs)
    → let d = drain_all clock r in
      (d.0 ≡ [])
      × (lookup (d.1.next_seq) (d.1.buffer) ≡ some (x ∷ xs))
      × (pending r ≡ suc (pending (d.1)))
      × ((rest : List Bytes) × (drain_all later (d.1)).0 ≡ (x ∷ xs) ∷ rest)
drain_all_empty_payload clock later r x xs v e behind =
    let next_one = (r.next_seq + 1) % u32_mod in
    let other : (r.next_seq == next_one) ≡ false = ground (arith, v.fits) in
    let kept : lookup next_one (delete r.next_seq r.buffer) ≡ some (x ∷ xs) =
      lookup-delete r.next_seq next_one r.buffer v.is_map ∙ rw (other) behind in
    let left : pending r ≡ suc (pending (deliver [] r).1) =
      unfold pending deliver in length-delete r.next_seq r.buffer e in
    let there : lookup (deliver [] r).1.next_seq (deliver [] r).1.buffer ≡ some (x ∷ xs) =
      unfold deliver in kept in
    rw (drain_all_empty clock r e)
      (refl, there, left, drain_all_first later (deliver [] r).1 x xs there)
