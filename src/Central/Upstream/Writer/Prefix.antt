-- ===== src/Central/Upstream/Writer/Prefix.antt =====
-- cmd/centralserver/upstream.go: `upstreamWriter` where writes fail.
use slip_stream_plus.Prelude.{
  ◌≡◌, refl, sym, ap, ◌∙◌, Bool, true, false, List, [], ◌∷◌, ◌++◌, length, ltb, if_lem, All,
}
use mathlib.Core.List.{append_assoc}
use slip_stream_plus.Tunnel.Protocol.{Bytes}
use slip_stream_plus.Central.State.{write_ch_cap}
use slip_stream_plus.Central.Upstream.Writer.{
  Phase, serving, flushing, discarding, returned, Writer, new_writer, WriterEvent, send, take,
  cancelled, take_nothing, take_slice, take_from, offer, write_step, upstream_writer,
}
use slip_stream_plus.Central.Upstream.Writer.Flush.{IsWhole, slice_moves, offer-IsWhole}

-- Nothing is cancelled.
unfoldable pub GoesOn : WriterEvent → Type 0
GoesOn (send chunk) = Unit
GoesOn (take ok) = Unit
GoesOn cancelled = ⊥

pub record IsPrefix (xs ys : List Bytes) : Type 0 where
  pub behind : List Bytes
  pub joined : xs ++ behind ≡ ys

-- What holds where nothing is cancelled.
Ordered : Phase → Writer → Type 0
Ordered serving w = IsWhole w
Ordered flushing w = ⊥
Ordered discarding w = IsPrefix w.written w.accepted
Ordered returned w = IsPrefix w.written w.accepted

IsPrefix-snoc : (xs ys : List Bytes) (c : Bytes) → IsPrefix xs ys → IsPrefix xs (ys ++ (c ∷ []))
IsPrefix-snoc xs ys c h = record {
  behind = h.behind ++ (c ∷ []);
  joined = sym (append_assoc xs h.behind (c ∷ [])) ∙ ap (λ x. x ++ (c ∷ [])) h.joined;
}

offer-Ordered :
    (ph : Phase) (chunk : Bytes) (w : Writer)
    → w.phase ≡ ph
    → Ordered ph w
    → Ordered (offer chunk w).phase (offer chunk w)
unfolding Ordered offer IsWhole
offer-Ordered serving chunk w p e = let o = offer-IsWhole chunk w p e in rw (o.1) (o.0)
offer-Ordered flushing chunk w p e = absurd e
offer-Ordered discarding chunk w p e =
    if_lem (λ x. Ordered x.phase x) (ltb (length w.write_ch) write_ch_cap)
      (λ h. rw p (IsPrefix-snoc w.written w.accepted chunk e)) (λ h. rw p e)
offer-Ordered returned chunk w p e =
    if_lem (λ x. Ordered x.phase x) (ltb (length w.write_ch) write_ch_cap)
      (λ h. rw p (IsPrefix-snoc w.written w.accepted chunk e)) (λ h. rw p e)

take_from-Ordered :
    (ph : Phase) (q : List Bytes) (ok : Bool) (w : Writer)
    → w.phase ≡ ph
    → w.write_ch ≡ q
    → Ordered ph w
    → Ordered (take_from q ok w).phase (take_from q ok w)
unfolding Ordered take_from take_slice take_nothing IsWhole
take_from-Ordered serving [] ok w p q e = rw p e
take_from-Ordered flushing q ok w p r e = absurd e
take_from-Ordered discarding [] ok w p q e = rw p e
take_from-Ordered returned [] ok w p q e = rw p e
take_from-Ordered serving (c ∷ rest) true w p q e = rw p (slice_moves w c rest q e)
take_from-Ordered serving (c ∷ rest) false w p q e =
    rw p (record { behind = w.write_ch; joined = e })
take_from-Ordered discarding (c ∷ rest) ok w p q e = rw p e
take_from-Ordered returned (c ∷ rest) ok w p q e = rw p e

write_step-Ordered :
    (e : WriterEvent) (w : Writer)
    → GoesOn e
    → Ordered w.phase w
    → Ordered (write_step e w).phase (write_step e w)
unfolding write_step GoesOn
write_step-Ordered (send chunk) w g o = offer-Ordered w.phase chunk w refl o
write_step-Ordered (take ok) w g o = take_from-Ordered w.phase w.write_ch ok w refl refl o
write_step-Ordered cancelled w g o = absurd g

upstream_writer-Ordered :
    (events : List WriterEvent) (w : Writer)
    → All GoesOn events
    → Ordered w.phase w
    → Ordered (upstream_writer events w).phase (upstream_writer events w)
unfolding upstream_writer
upstream_writer-Ordered [] w g o = o
upstream_writer-Ordered (e ∷ rest) w (g, gs) o =
    upstream_writer-Ordered rest (write_step e w) gs (write_step-Ordered e w g o)

Ordered-IsPrefix : (ph : Phase) (w : Writer) → Ordered ph w → IsPrefix w.written w.accepted
unfolding Ordered IsWhole
Ordered-IsPrefix serving w o = record { behind = w.write_ch; joined = o }
Ordered-IsPrefix flushing w o = absurd o
Ordered-IsPrefix discarding w o = o
Ordered-IsPrefix returned w o = o

-- While nothing is cancelled, what the upstream took is the first of the slices that the queue accepted,
-- without a gap, whichever writes fail.
pub upstream_writer-IsPrefix :
    (events : List WriterEvent)
    → All GoesOn events
    → IsPrefix
        (upstream_writer events new_writer).written
        (upstream_writer events new_writer).accepted
unfolding new_writer Ordered IsWhole
upstream_writer-IsPrefix events g =
    let w = upstream_writer events new_writer in
    Ordered-IsPrefix w.phase w (upstream_writer-Ordered events new_writer g refl)
