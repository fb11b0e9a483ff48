-- ===== src/Tunnel/Reorder/Order/Held.antt =====
-- Frames that arrive before the reorderer is drained for the first time, and frames after that.
use slip_stream_plus.Prelude.{
  ℕ, suc, ◌+◌, ◌≤◌, ◌<◌, ◌≡◌, ◌≢◌, ap, ◌∙◌, ◌⊎◌, inl, inr, List, [], ◌∷◌, ◌++◌, length, some, arith,
  get_elem?, All,
}
use slip_stream_plus.Prelude.Maps.{nat_key}
use slip_stream_plus.Tunnel.Protocol.{Bytes, u32_mod}
use slip_stream_plus.Tunnel.Reorder.{Reorderer, new_reorderer_at, put, pending, drain_all}
use slip_stream_plus.Tunnel.Reorder.Arrivals.{Arrival, receive_all, put_all, Belongs, Sent}
use slip_stream_plus.Tunnel.Reorder.Order.{
  Sync, Arrived, put-Sync, drain-Sync, receive_all-Sync, new_reorderer_at-Sync, complete,
}

module _ (chunks : List Bytes) (start t0 : ℕ) (small : start + length chunks < u32_mod)
    (full : (i : ℕ) → get_elem? chunks i ≢ some []) where
  put_all-Sync :
      (arrivals : List Arrival) (r : Reorderer) (n : ℕ)
      → All (Belongs chunks start t0) arrivals
      → Sync chunks start t0 r n
      → Sync chunks start t0 (put_all arrivals r) n
        × ((i : ℕ)
            → Arrived chunks start t0 r n i
            → Arrived chunks start t0 (put_all arrivals r) n i)
        × ((i : ℕ) → Sent start arrivals i → Arrived chunks start t0 (put_all arrivals r) n i)
  unfolding put_all
  put_all-Sync [] r n b v = (v, λ i h. h, λ i h. absurd h)
  put_all-Sync (a ∷ rest) r n b v =
      let (v', kept, new) = put-Sync chunks start t0 small full a r n b.0 v in
      let (v'', kept', news) = put_all-Sync rest (put a.seq a.payload r) n b.1 v' in
      (
        v'',
        λ i h. kept' i (kept i h),
        λ i s. elim s [ inl e ↦ kept' i (new i e) | inr s' ↦ news i s' ],
      )

-- Frames of a stream that arrive in any order, some of them (`before`) before the reorderer is first
-- drained and the others (`after`) each with a drain behind it, come out as the stream, in order and
-- complete, if each frame of the stream is among them and all takes place within the gap timeout.
pub held_then_received :
    (chunks : List Bytes) (start t0 : ℕ) (before after : List Arrival) (clock : ℕ → ℕ)
    → start + length chunks < u32_mod
    → ((i : ℕ) → get_elem? chunks i ≢ some [])
    → All (Belongs chunks start t0) before
    → All (Belongs chunks start t0) after
    → ((f : ℕ) → (t0 ≤ clock f) × (clock f < t0 + 2000))
    → ((i : ℕ) → i < length chunks → Sent start before i ⊎ Sent start after i)
    → let d = drain_all clock (put_all before (new_reorderer_at start)) in
      (d.0) ++ (receive_all after (d.1)).0 ≡ chunks
unfolding drain_all
held_then_received chunks start t0 before after clock small full b a window sent =
    let (v, kept, news) =
      put_all-Sync chunks start t0 small full before (new_reorderer_at start) 0 b
        (new_reorderer_at-Sync chunks start t0) in
    let held = put_all before (new_reorderer_at start) in
    let d =
      drain-Sync chunks start t0 small full clock (suc (pending held)) held 0 window (omega arith)
        v in
    let (d', news') =
      receive_all-Sync chunks start t0 small full after (drain_all clock held).1 d.m a d.sync
        d.missing in
    ap (λ front. front ++ (receive_all after (drain_all clock held).1).0) d.out
    ∙ d'.out
    ∙ complete chunks start t0 (receive_all after (drain_all clock held).1).1 d'.m
        (λ i h. elim (sent i h) [
          | inl early ↦ d'.kept i (d.kept i (news i early))
          | inr late ↦ news' i late
        ])
        d'.missing
