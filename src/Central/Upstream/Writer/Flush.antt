-- ===== src/Central/Upstream/Writer/Flush.antt =====
-- cmd/centralserver/upstream.go: `upstreamWriter` where the upstream takes all that is written to it.
use slip_stream_plus.Prelude.{
  ℕ, zero, suc, ◌≡◌, refl, sym, ap, ◌∙◌, true, List, [], ◌∷◌, ◌++◌, length, ltb, if_lem, subst, All,
}
use mathlib.Core.List.{append-nil, append_assoc}
use slip_stream_plus.Tunnel.Protocol.{Bytes}
use slip_stream_plus.Central.State.{write_ch_cap}
use slip_stream_plus.Central.Upstream.Writer.{
  serving, flushing, returned, Writer, new_writer, WriterEvent, send, take, cancelled, take_nothing,
  take_slice, take_from, cancel_at, offer, write_step, upstream_writer,
}

-- Nothing is cancelled, and the upstream takes what is written to it.
unfoldable pub GoesWell : WriterEvent → Type 0
GoesWell (send chunk) = Unit
GoesWell (take ok) = ok ≡ true
GoesWell cancelled = ⊥

-- The upstream has all of what the queue accepted, in its order, but for what the queue holds.
unfoldable pub IsWhole : Writer → Type 0
IsWhole w = w.written ++ w.write_ch ≡ w.accepted

-- A slice goes from the queue to the upstream.
pub slice_moves :
    (w : Writer) (c : Bytes) (rest : List Bytes)
    → w.write_ch ≡ c ∷ rest
    → IsWhole w
    → (w.written ++ (c ∷ [])) ++ rest ≡ w.accepted
unfolding IsWhole
slice_moves w c rest q e =
    append_assoc w.written (c ∷ []) rest ∙ subst (λ x. w.written ++ x ≡ w.accepted) q e

pub offer-IsWhole :
    (chunk : Bytes) (w : Writer)
    → w.phase ≡ serving
    → IsWhole w
    → IsWhole (offer chunk w) × ((offer chunk w).phase ≡ serving)
unfolding offer IsWhole
offer-IsWhole chunk w p e =
    if_lem (λ x. IsWhole x × (x.phase ≡ serving)) (ltb (length w.write_ch) write_ch_cap)
      (λ h.
        (sym (append_assoc w.written w.write_ch (chunk ∷ [])) ∙ ap (λ x. x ++ (chunk ∷ [])) e, p))
      (λ h. (e, p))

take_from-IsWhole :
    (w : Writer) (q : List Bytes)
    → w.phase ≡ serving
    → w.write_ch ≡ q
    → IsWhole w
    → IsWhole (take_from q true w) × ((take_from q true w).phase ≡ serving)
unfolding take_from take_slice take_nothing IsWhole
take_from-IsWhole w [] p q e = rw p (e, refl)
take_from-IsWhole w (c ∷ rest) p q e = rw p (slice_moves w c rest q e, refl)

write_step-IsWhole :
    (e : WriterEvent) (w : Writer)
    → GoesWell e
    → w.phase ≡ serving
    → IsWhole w
    → IsWhole (write_step e w) × ((write_step e w).phase ≡ serving)
unfolding write_step GoesWell
write_step-IsWhole (send chunk) w g p e = offer-IsWhole chunk w p e
write_step-IsWhole (take ok) w g p e = rw g (take_from-IsWhole w w.write_ch p refl e)
write_step-IsWhole cancelled w g p e = absurd g

upstream_writer-IsWhole :
    (events : List WriterEvent) (w : Writer)
    → All GoesWell events
    → w.phase ≡ serving
    → IsWhole w
    → IsWhole (upstream_writer events w) × ((upstream_writer events w).phase ≡ serving)
unfolding upstream_writer
upstream_writer-IsWhole [] w g p e = (e, p)
upstream_writer-IsWhole (x ∷ rest) w (g, gs) p e =
    let s = write_step-IsWhole x w g p e in
    upstream_writer-IsWhole rest (write_step x w) gs (s.1) (s.0)

-- So many selects that take from the queue, of which the upstream takes what each writes.
unfoldable pub takes : ℕ → List WriterEvent
takes zero = []
takes (suc n) = take true ∷ takes n

take_slice-flushing :
    (w : Writer) (c : Bytes) (rest : List Bytes)
    → w.phase ≡ flushing
    → w.write_ch ≡ c ∷ rest
    → write_step (take true) w ≡ record w { write_ch = rest; written = w.written ++ (c ∷ []) }
unfolding write_step take_from take_slice
take_slice-flushing w c rest p q =
    ap (λ x. take_from x true w) q ∙ ap (λ x. take_slice x true c rest w) p

upstream_writer-takes :
    (q : List Bytes) (w : Writer)
    → w.phase ≡ flushing
    → w.write_ch ≡ q
    → IsWhole w
    → ((upstream_writer (takes (suc (length q))) w).phase ≡ returned)
      × ((upstream_writer (takes (suc (length q))) w).written ≡ w.accepted)
unfolding upstream_writer takes write_step take_from take_slice take_nothing IsWhole
upstream_writer-takes [] w p q e =
    rw q (rw p refl, sym (append-nil w.written) ∙ subst (λ x. w.written ++ x ≡ w.accepted) q e)
upstream_writer-takes (c ∷ rest) w p q e =
    subst
      (λ (x : Writer).
        let done = upstream_writer (takes (suc (length rest))) x in
        (done.phase ≡ returned) × (done.written ≡ w.accepted))
      (sym (take_slice-flushing w c rest p q))
      (upstream_writer-takes rest (record w { write_ch = rest; written = w.written ++ (c ∷ []) }) p
        refl (slice_moves w c rest q e))

-- As long as nothing is cancelled and the upstream takes what is written to it, it has all slices that
-- the queue accepted, in their order, but for what the queue still holds. Cancelled then, the writer
-- writes the rest: after as many selects as the queue has slices and one more it has returned, and the
-- upstream has all that the queue accepted.
pub upstream_writer_flushes :
    (events : List WriterEvent)
    → All GoesWell events
    → let w = upstream_writer events new_writer in
      let end = upstream_writer (cancelled ∷ takes (suc (length w.write_ch))) w in
      (w.written ++ w.write_ch ≡ w.accepted) × (end.phase ≡ returned) × (end.written ≡ w.accepted)
unfolding upstream_writer new_writer IsWhole write_step cancel_at
upstream_writer_flushes events g =
    let s = upstream_writer-IsWhole events new_writer g refl refl in
    let w = upstream_writer events new_writer in
    let t =
      upstream_writer-takes w.write_ch (record w { phase = cancel_at w.phase }) (ap cancel_at (s.1))
        refl (s.0) in
    (s.0, t.0, t.1)
