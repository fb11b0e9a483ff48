-- ===== src/Config/Expansion.antt =====
-- internal/config/expand.go: what holds of the instances when a configuration is taken.
use slip_stream_plus.Prelude.{
  ℕ, zero, suc, ◌+◌, ◌-◌, ◌≤◌, ◌≡◌, ◌≢◌, ◌⊎◌, refl, sym, ap, ◌∙◌, true, false, not, ◌||◌, List, [],
  ◌∷◌, ◌++◌, map, length, All, ltb, none, some, arith, Bool-cases, Option-cases, inl, inr,
}
use slip_stream_plus.Prelude.Int.{ℤ, pos, negsuc, ltb_ℤ, pos_part, ◌≤ℤ◌}
use slip_stream_plus.Config.{
  Text, Parsed, failed, parsed, ports_from, port_range, ends, parse_port_range, atoi, trim_space,
  split_dash, InstanceConfig, ExpandedInstance, replicas_of, spread, replicas_from, expand_ports,
  parse_ports, then_append, expand_from, in_set, first_duplicate, check_ports, expand_instances,
}

-- No port stands in the list twice.
abbrev pub AreDistinct : List ℤ → Type 0
AreDistinct [] = Unit
AreDistinct (p ∷ ps) = All (λ q. p ≢ q) ps × AreDistinct ps

-- The replicas of an entry, from number `r` on, and those of all entries, as pairs of their numbers.
abbrev pub replica_numbers : ℕ → ℕ → ℕ → List (ℕ × ℕ)
replica_numbers i r zero = []
replica_numbers i r (suc n) = (i, r) ∷ replica_numbers i (suc r) n

abbrev pub numbers : ℕ → List InstanceConfig → List (ℕ × ℕ)
numbers i [] = []
numbers i (c ∷ rest) = replica_numbers i 0 (replicas_of c) ++ numbers (suc i) rest

abbrev pub origin : ExpandedInstance → ℕ × ℕ
origin e = (e.original_index, e.replica_index)

parsed_inj {ℓ} : {A : Type ℓ} (x y : A) → parsed x ≡ parsed y → x ≡ y
parsed_inj {A} x y e = ap (λ (p : Parsed A). elim p [ failed _ ↦ x | parsed z ↦ z ]) e

replicas_from-origin :
    (i : ℕ) (c : InstanceConfig) (r n : ℕ) (ports : List ℤ)
    → n ≤ length ports
    → map origin (replicas_from i c r n ports) ≡ replica_numbers i r n
unfolding replicas_from
replicas_from-origin i c r zero ports h = refl
replicas_from-origin i c r (suc n) [] h = absurd (omega arith)
replicas_from-origin i c r (suc n) (p ∷ ports) h =
    ap (λ x. (i, r) ∷ x) (replicas_from-origin i c (suc r) n ports (omega arith))

expand_ports-origin :
    (i : ℕ) (c : InstanceConfig) (ports : Parsed (List ℤ)) (out : List ExpandedInstance)
    → expand_ports i c ports ≡ parsed out
    → map origin out ≡ replica_numbers i 0 (replicas_of c)
unfolding expand_ports
expand_ports-origin i c (failed e) out h = absurd (ground (arith, h))
expand_ports-origin i c (parsed ports) out h =
    let n = replicas_of c in
    let all = spread n ports in
    elim (Bool-cases (ltb (length all) n)) [
      | inl few ↦ absurd (ground (arith, h, few))
      | inr enough ↦
          let same = parsed_inj (replicas_from i c 0 n all) out (rw (expand_ports, enough) at h) in
          ap (map origin) (sym same) ∙ replicas_from-origin i c 0 n all (ground (arith, enough))
    ]

map-append :
    (xs ys : List ExpandedInstance) → map origin (xs ++ ys) ≡ map origin xs ++ map origin ys
map-append [] ys = refl
map-append (x ∷ xs) ys = ap (λ k. origin x ∷ k) (map-append xs ys)

expand_from-origin :
    (i : ℕ) (cs : List InstanceConfig) (out : List ExpandedInstance)
    → expand_from i cs ≡ parsed out
    → map origin out ≡ numbers i cs
unfolding expand_from then_append
expand_from-origin i [] out h = ap (map origin) (sym (parsed_inj [] out h))
expand_from-origin i (c ∷ rest) out h =
    go (λ ys m. expand_from-origin (suc i) rest ys m) (expand_ports i c (parse_ports c.port))
      (expand_from (suc i) rest) refl refl h
  where
    go :
        ((ys : List ExpandedInstance)
          → expand_from (suc i) rest ≡ parsed ys
          → map origin ys ≡ numbers (suc i) rest)
        → (first : Parsed (List ExpandedInstance)) → (more : Parsed (List ExpandedInstance))
        → expand_ports i c (parse_ports c.port) ≡ first
        → expand_from (suc i) rest ≡ more
        → (elim first as (λ _. Parsed (List ExpandedInstance)) [
          | failed e ↦ failed e
          | parsed xs ↦ then_append xs more
        ])
          ≡ parsed out
        → map origin out ≡ numbers i (c ∷ rest)
    go more_origin (failed e) more f m k = absurd (ground (arith, k))
    go more_origin (parsed xs) (failed e) f m k = absurd (ground (arith, k))
    go more_origin (parsed xs) (parsed ys) f m k =
        ap (map origin) (sym (parsed_inj (xs ++ ys) out k))
        ∙ map-append xs ys
        ∙ rw (expand_ports-origin i c _ xs f, more_origin ys m) refl

below : (p q : ℤ) → ltb_ℤ p q ≡ true → q ≢ p
below (pos m) (pos n) h = ground (arith, h)
below (pos m) (negsuc n) h = ground (arith, h)
below (negsuc m) (pos n) h = ground (arith, h)
below (negsuc m) (negsuc n) h = ground (arith, h)

in_set-false : (p : ℤ) (seen : List ℤ) → in_set p seen ≡ false → All (λ q. q ≢ p) seen
unfolding in_set
in_set-false p [] h = tt
in_set-false p (q ∷ seen) h = elim (Bool-cases (ltb_ℤ p q)) [
  | inl less ↦ (below p q less, in_set-false p seen (rw (in_set, less) at h))
  | inr not_less ↦ (elim (Bool-cases (ltb_ℤ q p)) [
    | inl more ↦
        (λ e. below q p more (sym e), in_set-false p seen (rw (in_set, not_less, more) at h))
    | inr same ↦ absurd (ground (arith, rw (in_set, not_less, same) at h))
  ])
]

-- No port of the second list is in the first.
abbrev AreApart : List ℤ → List ℤ → Type 0
AreApart seen [] = Unit
AreApart seen (p ∷ ps) = All (λ q. q ≢ p) seen × AreApart seen ps

AreApart-All :
    (p : ℤ) (seen ps : List ℤ) → AreApart (p ∷ seen) ps → All (λ q. p ≢ q) ps × AreApart seen ps
AreApart-All p seen [] h = (tt, tt)
AreApart-All p seen (q ∷ ps) ((pq, sq), h) =
    let (a, b) = AreApart-All p seen ps h in ((pq, a), (sq, b))

first_duplicate-none :
    (seen : List ℤ) (out : List ExpandedInstance)
    → first_duplicate seen out ≡ none
    → AreDistinct (map (λ e. e.port) out) × AreApart seen (map (λ e. e.port) out)
unfolding first_duplicate
first_duplicate-none seen [] h = (tt, tt)
first_duplicate-none seen (e ∷ rest) h = elim (Bool-cases (in_set e.port seen)) [
  | inl there ↦ absurd (ground (arith, rw (first_duplicate, there) at h))
  | inr fresh ↦
      let (d, a) = first_duplicate-none (e.port ∷ seen) rest (rw (first_duplicate, fresh) at h) in
      let (x, y) = AreApart-All e.port seen (map (λ k. k.port) rest) a in
      ((x, d), (in_set-false e.port seen fresh, y))
]

-- When a configuration is taken, no two of its instances have the same port, and each of its entries stands for as
-- many instances as it has replicas, one if it gives none, in order.
pub expand_instances-AreDistinct :
    (configs : List InstanceConfig) (out : List ExpandedInstance)
    → expand_instances configs ≡ parsed out
    → AreDistinct (map (λ e. e.port) out) × (map origin out ≡ numbers 0 configs)
unfolding expand_instances check_ports
expand_instances-AreDistinct configs out h = go (expand_from 0 configs) refl h
  where
    go :
        (all : Parsed (List ExpandedInstance))
        → expand_from 0 configs ≡ all
        → (elim all as (λ _. Parsed (List ExpandedInstance)) [
          | failed e ↦ failed e
          | parsed xs ↦ check_ports xs
        ])
          ≡ parsed out
        → AreDistinct (map (λ e. e.port) out) × (map origin out ≡ numbers 0 configs)
    go (failed e) f k = absurd (ground (arith, k))
    go (parsed xs) f k = elim (Option-cases (first_duplicate [] xs)) [
      | inr (p, twice) ↦ absurd (ground (arith, rw (check_ports, twice) at k))
      | inl unique ↦
          let same = parsed_inj xs out (rw (check_ports, unique) at k) in
          rw (← same) ((first_duplicate-none [] xs unique).0, expand_from-origin 0 configs xs f)
    ]

abbrev pub IsPort : ℤ → Type 0
IsPort p = (pos 1 ≤ℤ p) × (p ≤ℤ pos 65535)

ports_from-IsPort : (start n : ℕ) → 1 ≤ start → start + n ≤ 65536 → All IsPort (ports_from start n)
unfolding ports_from
ports_from-IsPort start zero h k = tt
ports_from-IsPort start (suc n) h k =
    ((omega arith, omega arith), ports_from-IsPort (suc start) n (omega arith) (omega arith))

port_range-IsPort :
    (start end : ℤ) (ports : List ℤ) → port_range start end ≡ parsed ports → All IsPort ports
unfolding port_range
port_range-IsPort start end ports h = elim (Bool-cases (ltb_ℤ end start)) [
  | inl empty ↦ absurd (ground (arith, rw (port_range, empty) at h))
  | inr fine ↦ (elim (Bool-cases (not (ltb_ℤ (pos 0) start) || ltb_ℤ (pos 65535) end)) [
    | inl out ↦ absurd (ground (arith, rw (port_range, fine, out) at h))
    | inr inside ↦
        let n = suc (pos_part end - pos_part start) in
        let same =
          parsed_inj (ports_from (pos_part start) n) ports (rw (port_range, fine, inside) at h) in
        rw (← same) (
          ports_from-IsPort (pos_part start) n (ground (arith, inside))
            (ground (arith, inside, fine)))
  ])
]

-- A text that is taken as ports is one whole number, or all of its ports are from 1 to 65535.
pub parse_port_range-IsPort :
    (s : Text) (ports : List ℤ)
    → parse_port_range s ≡ parsed ports
    → ((p : ℤ) × (atoi (trim_space s) ≡ some p) × (ports ≡ p ∷ [])) ⊎ All IsPort ports
unfolding parse_port_range ends
parse_port_range-IsPort s ports h = elim (Option-cases (atoi (trim_space s))) [
  | inr (p, one) ↦ inl (p, one, sym (parsed_inj (p ∷ []) ports (rw (parse_port_range, one) at h)))
  | inl range ↦ (elim (Option-cases (split_dash (trim_space s))) [
    | inl no_dash ↦ absurd (ground (arith, rw (parse_port_range, range, no_dash) at h))
    | inr (parts, dash) ↦ (elim (Option-cases (atoi (trim_space (parts.0)))) [
      | inl bad ↦ absurd (ground (arith, rw (parse_port_range, range, dash, ends, bad) at h))
      | inr (start, first) ↦ (elim (Option-cases (atoi (trim_space (parts.1)))) [
        | inl bad ↦
            absurd (ground (arith, rw (parse_port_range, range, dash, ends, first, bad) at h))
        | inr (end, last) ↦ inr (
            port_range-IsPort start end ports
              (rw (parse_port_range, range, dash, ends, first, last) at h))
      ])
    ])
  ])
]
