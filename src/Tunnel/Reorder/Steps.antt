-- ===== src/Tunnel/Reorder/Steps.antt =====
-- One call of `Next`, and the end of the draining loop.
use slip_stream_plus.Prelude.{
  ℕ, zero, suc, ◌+◌, ◌-◌, ◌≤◌, ◌<◌, ◌≡◌, refl, ap, ◌∙◌, ◌⊎◌, inl, inr, true, false, List, [], ◌∷◌,
  ltb, ◌==◌, if◌then◌else◌, length, Option, none, some, arith, Bool-cases, Option-cases,
}
use slip_stream_plus.Prelude.Maps.{Map, lookup, IsMap, nat_key}
use slip_stream_plus.Prelude.Maps.Laws.{
  lookup-insert, lookup-delete, insert-IsMap, delete-IsMap, length-delete,
}
use slip_stream_plus.Tunnel.Protocol.{Bytes, u32_mod}
use slip_stream_plus.Tunnel.Reorder.{
  Reorderer, put, lowest, skip_to_lowest, deliver, deliver_present, skip, wait, next, pending,
  drain, drain_all,
}

-- What holds of a reorderer between calls: its buffer is a map, and everything in it is still to
-- come, under a number that fits.
pub record Inv (r : Reorderer) : Type 0 where
  pub is_map : IsMap r.buffer
  pub fits : r.next_seq < u32_mod
  pub ahead : (k : ℕ) (d : Bytes) → lookup k r.buffer ≡ some d → (r.next_seq ≤ k) × (k < u32_mod)

-- The least of `m` and the keys of a map.
least : Map ℕ Bytes → ℕ → ℕ
least [] m = m
least ((s, _) ∷ b) m = least b (if ltb s m then s else m)

lowest-least : (b : Map ℕ Bytes) (m : ℕ) → lowest b m true ≡ (least b m, true)
unfolding lowest least
lowest-least [] m = refl
lowest-least ((s, d) ∷ b) m = ground (arith, lowest-least b s, lowest-least b m)

least-le : (b : Map ℕ Bytes) (m : ℕ) → least b m ≤ m
unfolding least
least-le [] m = omega arith
least-le ((s, d) ∷ b) m = ground (arith, least-le b s, least-le b m)

least-le-key : (b : Map ℕ Bytes) (m k : ℕ) (d : Bytes) → lookup k b ≡ some d → least b m ≤ k
unfolding least lookup
least-le-key [] m k d e = absurd (cc)
least-le-key ((s, c) ∷ b) m k d e =
    ground (arith, least-le b s, least-le b m, least-le-key b s k d, least-le-key b m k d)

least_found : (b : Map ℕ Bytes) (m : ℕ) → lookup (least b m) b ≡ none → least b m ≡ m
unfolding least lookup
least_found [] m e = refl
least_found ((s, c) ∷ b) m e = ground (arith, least_found b s, least_found b m)

abbrev least_key : Map ℕ Bytes → ℕ → ℕ
least_key [] n = n
least_key ((s, c) ∷ b) n = least b s

least_key_present :
    (s n : ℕ) (c : Bytes) (b : Map ℕ Bytes)
    → (d : Bytes) × (lookup (least_key ((s, c) ∷ b) n) ((s, c) ∷ b) ≡ some d)
unfolding lookup
least_key_present s n c b = elim (Option-cases (lookup (least b s) b)) [
  | inl e ↦ (c, ground (arith, least_found b s e))
  | inr (d, e) ↦ elim (Bool-cases (s == least b s)) [
    | inl same ↦ (c, rw same)
    | inr other ↦ (d, rw other e)
  ]
]

least_key-le : (b : Map ℕ Bytes) (n k : ℕ) (d : Bytes) → lookup k b ≡ some d → least_key b n ≤ k
unfolding lookup
least_key-le [] n k d e = absurd (cc)
least_key-le ((s, c) ∷ b) n k d e = ground (arith, least-le b s, least-le-key b s k d)

abbrev mk : ℕ → Map ℕ Bytes → ℕ → Option ℕ → Reorderer
mk n b g w = record { next_seq = n; buffer = b; gap_timeout = g; waiting_since = w }

-- What `skipToLowest` does to a buffer that lies ahead.
skip_to_lowest_lem :
    (n g : ℕ) (b : Map ℕ Bytes) (w : Option ℕ)
    → n ≤ least_key b n
    → skip_to_lowest (mk n b g w) ≡ mk (least_key b n) b g w
unfolding skip_to_lowest lowest
skip_to_lowest_lem n g [] w h = refl
skip_to_lowest_lem n g ((s, c) ∷ b) w h = ground (arith, lowest-least b s)

-- `Next` as one case distinction. It delivers the frame at `nextSeq` if that is there; past the
-- gap timeout it delivers the least frame of the buffer; and otherwise it delivers nothing.
pub data Stepped (now : ℕ) (r : Reorderer) : Bytes × Reorderer → Type 0 where
  ready : (d : Bytes) → lookup r.next_seq r.buffer ≡ some d → Stepped now r (deliver d r)
  empty : r.buffer ≡ [] → Stepped now r ([], record r { waiting_since = none })
  starts :
      lookup r.next_seq r.buffer ≡ none
      → r.waiting_since ≡ none
      → Stepped now r ([], record r { waiting_since = some now })
  waits :
      (t : ℕ)
      → lookup r.next_seq r.buffer ≡ none
      → r.waiting_since ≡ some t
      → now - t < r.gap_timeout
      → Stepped now r ([], r)
  skips :
      (t k : ℕ) (d : Bytes)
      → lookup r.next_seq r.buffer ≡ none
      → r.waiting_since ≡ some t
      → r.gap_timeout ≤ now - t
      → lookup k r.buffer ≡ some d
      → ((j : ℕ) (c : Bytes) → lookup j r.buffer ≡ some c → k ≤ j)
      → Stepped now r (deliver d (record r { next_seq = k; waiting_since = none }))

skip_lem :
    (n g : ℕ) (b : Map ℕ Bytes) (w : Option ℕ) (d : Bytes)
    → n ≤ least_key b n
    → lookup (least_key b n) b ≡ some d
    → skip (mk n b g w) ≡ deliver d (mk (least_key b n) b g none)
unfolding skip
skip_lem n g b w d h e =
    ap (λ r. deliver_present (record r { waiting_since = none })) (skip_to_lowest_lem n g b w h)
    ∙ rw (deliver_present, e)

suc-ne-zero : (n : ℕ) → (suc n == 0) ≡ false
suc-ne-zero n = ground arith

wait-Stepped :
    (now n g : ℕ) (b : Map ℕ Bytes) (w : Option ℕ)
    → lookup n b ≡ none
    → n ≤ least_key b n
    → Stepped now (mk n b g w) (wait now (mk n b g w))
unfolding wait
wait-Stepped now n g [] w e h = empty refl
wait-Stepped now n g ((s, c) ∷ b) none e h = rw (suc-ne-zero (length b)) (starts e refl)
wait-Stepped now n g ((s, c) ∷ b) (some t) e h =
    rw (suc-ne-zero (length b)) (elim (Bool-cases (ltb (now - t) g)) [
      | inl early ↦ rw early (waits t e refl (ground arith))
      | inr late ↦ rw late (
          let (d, found) = least_key_present s n c b in
          rw (skip_lem n g ((s, c) ∷ b) (some t) d h found) (
            skips t (least_key ((s, c) ∷ b) n) d e refl (ground arith) found
              (least_key-le ((s, c) ∷ b) n)))
    ])

ahead-least_key :
    (n : ℕ) (b : Map ℕ Bytes)
    → ((k : ℕ) (d : Bytes) → lookup k b ≡ some d → n ≤ k)
    → n ≤ least_key b n
ahead-least_key n [] h = omega arith
ahead-least_key n ((s, c) ∷ b) h =
    let (d, found) = least_key_present s n c b in h (least_key ((s, c) ∷ b) n) d found

-- Every call of `Next` on a reorderer in good order is one of the five.
pub next-Stepped : (now : ℕ) (r : Reorderer) → Inv r → Stepped now r (next now r)
unfolding next
next-Stepped now r v = elim (Option-cases (lookup r.next_seq r.buffer)) [
  | inl e ↦
      rw (e, next)
        (wait-Stepped now r.next_seq r.gap_timeout r.buffer r.waiting_since e
          (ahead-least_key r.next_seq r.buffer (λ k d f. (v.ahead k d f).0)))
  | inr (d, e) ↦ rw (e, next) (ready d e)
]

deliver-Inv :
    (n g : ℕ) (b : Map ℕ Bytes) (w : Option ℕ) (d : Bytes)
    → IsMap b
    → n < u32_mod
    → ((k : ℕ) (c : Bytes) → lookup k b ≡ some c → (n ≤ k) × (k < u32_mod))
    → Inv ((deliver d (mk n b g w)).1)
unfolding deliver
deliver-Inv n g b w d m fits ahead = record {
  is_map = delete-IsMap n b m;
  fits = omega arith;
  ahead = λ k c e. ground (arith, lookup-delete n k b m, ahead k c);
}

-- `Next` and `Insert` of a number that fits keep a reorderer in good order.
pub next-Inv : (now : ℕ) (r : Reorderer) → Inv r → Inv ((next now r).1)
next-Inv now r v = go (next now r) (next-Stepped now r v)
  where
    go : (s : Bytes × Reorderer) → Stepped now r s → Inv (s.1)
    go s (ready d e) =
        deliver-Inv r.next_seq r.gap_timeout r.buffer r.waiting_since d v.is_map v.fits v.ahead
    go s (empty e) = record { is_map = v.is_map; fits = v.fits; ahead = v.ahead }
    go s (starts e f) = record { is_map = v.is_map; fits = v.fits; ahead = v.ahead }
    go s (waits t e f h) = v
    go s (skips t k d e f h found lowest) =
        deliver-Inv k r.gap_timeout r.buffer none d v.is_map (v.ahead k d found).1
          (λ j c g. (lowest j c g, (v.ahead j c g).1))

pub put-Inv : (seq : ℕ) (d : Bytes) (r : Reorderer) → seq < u32_mod → Inv r → Inv (put seq d r)
unfolding put
put-Inv seq d r h v = elim (Bool-cases (ltb seq r.next_seq)) [
  | inl old ↦ rw old v
  | inr new ↦ rw new (record {
    is_map = insert-IsMap seq d r.buffer v.is_map;
    fits = v.fits;
    ahead = λ k c e. ground (arith, lookup-insert seq k d r.buffer, v.ahead k c);
  })
]

-- A delivery takes one frame out of the buffer; any other call leaves the count as it is.
pub next-pending :
    (now : ℕ) (r : Reorderer)
    → Inv r
    → (pending r ≡ suc (pending (next now r).1))
      ⊎ (((next now r).0 ≡ []) × (pending (next now r).1 ≡ pending r))
next-pending now r v = go (next now r) (next-Stepped now r v)
  where
    go :
        (s : Bytes × Reorderer)
        → Stepped now r s
        → (pending r ≡ suc (pending s.1)) ⊎ ((s.0 ≡ []) × (pending s.1 ≡ pending r))
    go s (ready d e) = inl (unfold pending deliver in length-delete r.next_seq r.buffer e)
    go s (empty e) = inr (refl, unfold pending in refl)
    go s (starts e f) = inr (refl, unfold pending in refl)
    go s (waits t e f h) = inr (refl, refl)
    go s (skips t k d e f h found lowest) =
        inl (unfold pending deliver in length-delete k r.buffer found)

-- The draining loop ends by itself: it takes out at most as many slices as were pending, which is
-- less than its fuel, and puts none back.
pub length-drain :
    (clock : ℕ → ℕ) (fuel : ℕ) (r : Reorderer)
    → Inv r
    → length (drain clock fuel r).0 + pending (drain clock fuel r).1 ≤ pending r
unfolding drain
length-drain clock zero r v = omega arith
length-drain clock (suc fuel) r v = ground (
  arith,
  next-pending (clock fuel) r v,
  length-drain clock fuel (next (clock fuel) r).1 (next-Inv (clock fuel) r v),
)

-- The two ways in which a round of the draining loop goes.
pub drain_stop :
    (clock : ℕ → ℕ) (fuel : ℕ) (r r' : Reorderer)
    → next (clock fuel) r ≡ ([], r')
    → drain clock (suc fuel) r ≡ ([], r')
unfolding drain
drain_stop clock fuel r r' e = rw (ap (λ s. s.0) e, drain) (ap (λ s. ([], s.1)) e)

pub drain_go :
    (clock : ℕ → ℕ) (fuel x : ℕ) (xs : Bytes) (r r' : Reorderer)
    → next (clock fuel) r ≡ (x ∷ xs, r')
    → drain clock (suc fuel) r ≡ ((x ∷ xs) ∷ (drain clock fuel r').0, (drain clock fuel r').1)
unfolding drain
drain_go clock fuel x xs r r' e =
    rw (ap (λ s. s.0) e, drain)
      (ap (λ s. ((x ∷ xs) ∷ (drain clock fuel (s.1)).0, (drain clock fuel (s.1)).1)) e)

pub next_ready :
    (now : ℕ) (r : Reorderer) (d : Bytes)
    → lookup r.next_seq r.buffer ≡ some d
    → next now r ≡ deliver d r
unfolding next
next_ready now r d e = rw (e, next)

pub next_missing :
    (now : ℕ) (r : Reorderer) → lookup r.next_seq r.buffer ≡ none → next now r ≡ wait now r
unfolding next
next_missing now r e = rw (e, next)

pub drain-Inv : (clock : ℕ → ℕ) (fuel : ℕ) (r : Reorderer) → Inv r → Inv (drain clock fuel r).1
unfolding drain
drain-Inv clock zero r v = v
drain-Inv clock (suc fuel) r v =
    let s = next (clock fuel) r in
    let v' = next-Inv (clock fuel) r v in go (s.0) (drain-Inv clock fuel (s.1) v') v'
  where
    go :
        (d : Bytes)
        → Inv (drain clock fuel (next (clock fuel) r).1).1
        → Inv (next (clock fuel) r).1
        → Inv
            (elim d as (λ _. List Bytes × Reorderer) [
              | [] ↦ ([], (next (clock fuel) r).1)
              | x ∷ xs ↦ (
                (x ∷ xs) ∷ (drain clock fuel (next (clock fuel) r).1).0,
                (drain clock fuel (next (clock fuel) r).1).1,
              )
            ]).1
    go [] more stop = stop
    go (x ∷ xs) more stop = more

pub drain_all-Inv : (clock : ℕ → ℕ) (r : Reorderer) → Inv r → Inv (drain_all clock r).1
unfolding drain_all
drain_all-Inv clock r v = drain-Inv clock (suc (pending r)) r v
