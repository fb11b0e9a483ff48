-- ===== src/Tunnel/Reorder/Order.antt =====
-- internal/tunnel/reorder.go: the frames of one stream, in any order.
pub mod Held
use slip_stream_plus.Prelude.{
  ℕ, zero, suc, ◌+◌, ◌-◌, ◌%◌, ◌≤◌, ◌<◌, ◌≡◌, ◌≢◌, refl, sym, ap, ◌∙◌, ◌⊎◌, inl, inr, List, [], ◌∷◌,
  ◌++◌, length, Option, none, some, arith, Bool-cases, dec_lt, Option-cases, get_elem?, take, ltb,
  ◌==◌, true, if◌then◌else◌, All,
}
use mathlib.Core.List.{append_assoc, append-nil}
use slip_stream_plus.Prelude.Maps.{Map, lookup, insert, delete, IsMap, nat_key}
use slip_stream_plus.Prelude.Maps.Laws.{
  lookup-insert, lookup-delete, insert-IsMap, delete-IsMap, length-delete,
}
use slip_stream_plus.Tunnel.Protocol.{Bytes, u32_mod}
use slip_stream_plus.Tunnel.Reorder.Arrivals.{
  Arrival, receive, receive_all, Belongs, Sent, take-suc, get_elem?-lt, take_all,
}
use slip_stream_plus.Tunnel.Reorder.Steps.{drain_stop, drain_go, next_ready, next_missing}
use slip_stream_plus.Tunnel.Reorder.{
  Reorderer, new_reorderer_at, put, deliver, wait, next, pending, drain, drain_all,
}

-- The stream's payloads, the number of the first one, and the instant from which on, for less than
-- the gap timeout, all that follows takes place.
module _ (chunks : List Bytes) (start t0 : ℕ) where
  -- `n` payloads have gone out, and what is buffered are later ones.
  record Sync (r : Reorderer) (n : ℕ) : Type 0 where
    position : r.next_seq ≡ start + n
    is_map : IsMap r.buffer
    stored :
        (k : ℕ) (d : Bytes)
        → lookup k r.buffer ≡ some d
        → (start + n ≤ k) × (get_elem? chunks (k - start) ≡ some d)
    patient : (t : ℕ) → r.waiting_since ≡ some t → t0 ≤ t
    timeout : r.gap_timeout ≡ 2000

  -- The payload `i` has gone out or is buffered.
  abbrev Arrived : Reorderer → ℕ → ℕ → Type 0
  Arrived r n i = lookup (start + i) r.buffer ≡ none → i < n

  module _ (small : start + length chunks < u32_mod) where
    deliver-Sync :
        (r : Reorderer) (n : ℕ) (d : Bytes)
        → lookup r.next_seq r.buffer ≡ some d
        → Sync r n
        → Sync (deliver d r).1 (suc n)
          × (get_elem? chunks n ≡ some d)
          × ((i : ℕ) → Arrived r n i → Arrived (deliver d r).1 (suc n) i)
    unfolding deliver
    deliver-Sync r n d e v =
        let here = v.stored r.next_seq d e in
        let chunk : get_elem? chunks n ≡ some d =
          let same : r.next_seq - start ≡ n = omega (arith, v.position) in rw same at here.1 in
        let bound = get_elem?-lt chunks n d chunk in
        (
          record {
            position = omega (arith, v.position);
            is_map = delete-IsMap r.next_seq r.buffer v.is_map;
            stored = λ k c f.
                ground
                  (arith, v.position, lookup-delete r.next_seq k r.buffer v.is_map, v.stored k c);
            patient = λ t f. absurd (cc);
            timeout = v.timeout;
          },
          chunk,
          λ i a f.
              ground (arith, v.position, lookup-delete r.next_seq (start + i) r.buffer v.is_map),
        )

    -- Before the gap timeout `Next` does not skip.
    wait-Sync :
        (now : ℕ) (r : Reorderer) (n : ℕ)
        → now < t0 + 2000
        → t0 ≤ now
        → Sync r n
        → ((wait now r).0 ≡ []) × Sync (wait now r).1 n × ((wait now r).1.buffer ≡ r.buffer)
    unfolding wait
    wait-Sync now r n hi lo v = elim (Bool-cases (length r.buffer == 0)) [
      | inl none_left ↦
          rw (none_left, wait)
            (
              refl,
              record {
                position = v.position;
                is_map = v.is_map;
                stored = v.stored;
                patient = λ t f. absurd (cc);
                timeout = v.timeout;
              },
              refl,
            )
      | inr some_left ↦ elim (Option-cases r.waiting_since) [
        | inl e ↦
            rw (some_left, e, wait)
              (
                refl,
                record {
                  position = v.position;
                  is_map = v.is_map;
                  stored = v.stored;
                  patient = λ t f. ground arith;
                  timeout = v.timeout;
                },
                refl,
              )
        | inr (t, e) ↦
            let early : ltb (now - t) r.gap_timeout ≡ true =
              ground (arith, v.patient t e, v.timeout) in
            rw (some_left, e, wait, early) (refl, v, refl)
      ]
    ]

    record Drained (r : Reorderer) (n : ℕ) (s : List Bytes × Reorderer) : Type 0 where
      m : ℕ
      out : take n chunks ++ (s.0) ≡ take m chunks
      sync : Sync (s.1) m
      missing : lookup (start + m) (s.1).buffer ≡ none
      kept : (i : ℕ) → Arrived r n i → Arrived (s.1) m i

    module _ (full : (i : ℕ) → get_elem? chunks i ≢ some []) where
      ready_round :
          (clock : ℕ → ℕ) (fuel : ℕ) (r : Reorderer) (n : ℕ) (d : Bytes)
          → next (clock fuel) r ≡ deliver d r
          → get_elem? chunks n ≡ some d
          → Drained (deliver d r).1 (suc n) (drain clock fuel (deliver d r).1)
          → ((i : ℕ) → Arrived r n i → Arrived (deliver d r).1 (suc n) i)
          → Drained r n (drain clock (suc fuel) r)
      ready_round clock fuel r n [] e chunk rest kept = absurd (full n chunk)
      ready_round clock fuel r n (x ∷ xs) e chunk rest kept =
          rw (drain_go clock fuel x xs r (deliver (x ∷ xs) r).1 (e ∙ unfold deliver in refl))
            (record {
              m = rest.m;
              out =
                  sym (append_assoc (take n chunks) ((x ∷ xs) ∷ []) _)
                  ∙ ap (λ front. front ++ (drain clock fuel (deliver (x ∷ xs) r).1).0)
                      (sym (take-suc chunks n (x ∷ xs) chunk))
                  ∙ rest.out;
              sync = rest.sync;
              missing = rest.missing;
              kept = λ i a. rest.kept i (kept i a);
            })

      drain-Sync :
          (clock : ℕ → ℕ) (fuel : ℕ) (r : Reorderer) (n : ℕ)
          → ((f : ℕ) → (t0 ≤ clock f) × (clock f < t0 + 2000))
          → pending r < fuel
          → Sync r n
          → Drained r n (drain clock fuel r)
      drain-Sync clock zero r n window enough v = absurd (omega arith)
      drain-Sync clock (suc fuel) r n window enough v =
          elim (Option-cases (lookup r.next_seq r.buffer)) [
            | inl e ↦
                let (quiet, v', same) =
                  wait-Sync (clock fuel) r n (window fuel).1 (window fuel).0 v in
                rw
                  (drain_stop clock fuel r (wait (clock fuel) r).1
                    (next_missing (clock fuel) r e ∙ ap (λ d. (d, (wait (clock fuel) r).1)) quiet))
                  (record {
                    m = n;
                    out = append-nil (take n chunks);
                    sync = v';
                    missing = rw (same, ← v.position) e;
                    kept = λ i a. rw same a;
                  })
            | inr (d, e) ↦
                let (v', chunk, kept) = deliver-Sync r n d e v in
                let taken : pending r ≡ suc (pending (deliver d r).1) =
                  unfold pending deliver in length-delete r.next_seq r.buffer e in
                ready_round clock fuel r n d (next_ready (clock fuel) r d e) chunk
                  (drain-Sync clock fuel (deliver d r).1 (suc n) window (omega (arith, taken)) v')
                  kept
          ]

      put-Sync :
          (a : Arrival) (r : Reorderer) (n : ℕ)
          → Belongs chunks start t0 a
          → Sync r n
          → Sync (put a.seq a.payload r) n
            × ((i : ℕ) → Arrived r n i → Arrived (put a.seq a.payload r) n i)
            × ((i : ℕ) → a.seq ≡ start + i → Arrived (put a.seq a.payload r) n i)
      unfolding put
      put-Sync a r n ((j, at, chunk), _) v = elim (Bool-cases (ltb a.seq r.next_seq)) [
        | inl old ↦ rw old (v, λ i h. h, λ i e f. ground (arith, v.position))
        | inr new ↦ rw new (
          record {
            position = v.position;
            is_map = insert-IsMap a.seq a.payload r.buffer v.is_map;
            stored = λ k c f.
                let offset : a.seq - start ≡ j = omega (arith, at) in
                ground (
                  arith,
                  v.position,
                  lookup-insert a.seq k a.payload r.buffer,
                  v.stored k c,
                  offset,
                );
            patient = v.patient;
            timeout = v.timeout;
          },
          λ i h f. ground (arith, lookup-insert a.seq (start + i) a.payload r.buffer),
          λ i e f. absurd (ground (arith, lookup-insert a.seq (start + i) a.payload r.buffer)),
        )
      ]

      receive-Sync :
          (a : Arrival) (r : Reorderer) (n : ℕ)
          → Belongs chunks start t0 a
          → Sync r n
          → (d : Drained r n (receive a r)) × ((i : ℕ)
              → a.seq ≡ start + i
              → Arrived (receive a r).1 d.m i)
      unfolding receive drain_all
      receive-Sync a r n b v =
          let r' = put a.seq a.payload r in
          let (v', kept, new) = put-Sync a r n b v in
          let d = drain-Sync a.clock (suc (pending r')) r' n b.1 (omega arith) v' in
          (
            record {
              m = d.m;
              out = d.out;
              sync = d.sync;
              missing = d.missing;
              kept = λ i h. d.kept i (kept i h);
            },
            λ i e. d.kept i (new i e),
          )

      receive_all-Sync :
          (arrivals : List Arrival) (r : Reorderer) (n : ℕ)
          → All (Belongs chunks start t0) arrivals
          → Sync r n
          → lookup (start + n) r.buffer ≡ none
          → (d : Drained r n (receive_all arrivals r)) × ((i : ℕ)
              → Sent start arrivals i
              → Arrived (receive_all arrivals r).1 d.m i)
      unfolding receive_all
      receive_all-Sync [] r n b v e = (
        record { m = n; out = append-nil (take n chunks); sync = v; missing = e; kept = λ i h. h },
        λ i h. absurd h,
      )
      receive_all-Sync (a ∷ rest) r n b v e =
          let (d, new) = receive-Sync a r n b.0 v in
          let (d', news) = receive_all-Sync rest (receive a r).1 d.m b.1 d.sync d.missing in
          (
            record {
              m = d'.m;
              out =
                  sym (append_assoc (take n chunks) (receive a r).0 _)
                  ∙ ap (λ front. front ++ (receive_all rest (receive a r).1).0) d.out
                  ∙ d'.out;
              sync = d'.sync;
              missing = d'.missing;
              kept = λ i h. d'.kept i (d.kept i h);
            },
            λ i s. elim s [ inl e ↦ d'.kept i (new i e) | inr s' ↦ news i s' ],
          )

new_reorderer_at-Sync :
    (chunks : List Bytes) (start t0 : ℕ) → Sync chunks start t0 (new_reorderer_at start) 0
unfolding new_reorderer_at lookup
new_reorderer_at-Sync chunks start t0 = record {
  position = omega arith;
  is_map = tt;
  stored = λ k d e. absurd (cc);
  patient = λ t e. absurd (cc);
  timeout = refl;
}

-- All of the payloads have gone out when each of them has arrived and the next one is missing.
complete :
    (chunks : List Bytes) (start t0 : ℕ) (r : Reorderer) (m : ℕ)
    → ((i : ℕ) → i < length chunks → Arrived chunks start t0 r m i)
    → lookup (start + m) r.buffer ≡ none
    → take m chunks ≡ chunks
complete chunks start t0 r m arrived missing = take_all m chunks (elim (dec_lt m (length chunks)) [
  | yes short ↦ absurd (omega (arith, arrived m short missing))
  | no enough ↦ omega arith
])

-- The frames of a stream of non-empty payloads, numbered from `start` on with no wrap, in any order
-- and any of them perhaps more than once, each of them at least once and all within the gap timeout,
-- come out as the stream: each payload once, in order, and none is left out.
pub receive_all_in_order :
    (chunks : List Bytes) (start t0 : ℕ) (arrivals : List Arrival)
    → start + length chunks < u32_mod
    → ((i : ℕ) → get_elem? chunks i ≢ some [])
    → All (Belongs chunks start t0) arrivals
    → ((i : ℕ) → i < length chunks → Sent start arrivals i)
    → (receive_all arrivals (new_reorderer_at start)).0 ≡ chunks
receive_all_in_order chunks start t0 arrivals small full belong sent =
    let (d, arrived) =
      receive_all-Sync chunks start t0 small full arrivals (new_reorderer_at start) 0 belong
        (new_reorderer_at-Sync chunks start t0) (unfold new_reorderer_at lookup in refl) in
    d.out
    ∙ complete chunks start t0 (receive_all arrivals (new_reorderer_at start)).1 d.m
        (λ i h. arrived i (sent i h)) d.missing
