-- ===== src/Config/Defaults.antt =====
-- internal/config/config.go: a configuration that `Validate` has filled in.
use Prim.Native.String.{String}
use text.Mathlib.Text.{◌==◌ as str_eq}
use slip_stream_plus.Prelude.{
  ℕ, suc, ◌≡◌, ◌⊎◌, refl, sym, ap, subst, ◌∙◌, false, ◌&&◌, List, [], ◌∷◌, length, ◌==◌, Option,
  none, some, arith, Bool-cases, Option-cases, inl, inr,
}
use slip_stream_plus.Prelude.Int.{ℤ, pos}
use slip_stream_plus.Config.{
  Port, InstanceConfig, Parsed, failed, parsed, expand_instances, ExpandedInstance,
}
use slip_stream_plus.Config as Expand
use slip_stream_plus.Config.Validation.{
  Problem, Config, Checked, refused, taken, or_text, or_positive, strategy_or_default, is_strategy,
  mode_problem, instance_problem, fill_instance, validate_instance, then_cons, validate_from,
  validate_rest, validate_instances, with_numbers, validate_strategy, validate,
}

or_text_twice : (d s : String) → str_eq d "" ≡ false → or_text d (or_text d s) ≡ or_text d s
unfolding or_text
or_text_twice d s e = elim (Bool-cases (str_eq s "")) [
  | inl empty ↦ rw (empty, e) refl
  | inr full ↦ rw (full, full) refl
]

or_positive_twice :
    (n : ℕ) (z : ℤ)
    → or_positive (pos (suc n)) (or_positive (pos (suc n)) z) ≡ or_positive (pos (suc n)) z
unfolding or_positive
or_positive_twice n z = ground arith

taken_inj {ℓ} : {A : Type ℓ} (x y : A) → taken x ≡ taken y → x ≡ y
taken_inj {A} x y e = ap (λ (p : Checked A). elim p [ refused _ ↦ x | taken z ↦ z ]) e

some_inj {ℓ} : {A : Type ℓ} (x y : A) → some x ≡ some y → x ≡ y
some_inj {A} x y e = ap (λ (p : Option A). elim p [ none ↦ x | some z ↦ z ]) e

strategy_twice : (s t : String) → strategy_or_default s ≡ some t → strategy_or_default t ≡ some t
unfolding strategy_or_default
strategy_twice s t h = elim (Bool-cases (is_strategy s)) [
  | inl known ↦ rw (← some_inj s t (rw (strategy_or_default, known) at h)) (rw (known) refl)
  | inr unknown ↦ (elim (Bool-cases (str_eq s "")) [
    | inl empty ↦
        rw (← some_inj "round_robin" t (rw (strategy_or_default, unknown, empty) at h))
          (unfold is_strategy in refl)
    | inr bad ↦ absurd (ground (arith, rw (strategy_or_default, unknown, bad) at h))
  ])
]

fill_instance_twice : (c : InstanceConfig) → fill_instance (fill_instance c) ≡ fill_instance c
unfolding fill_instance
fill_instance_twice c = elim (Bool-cases (str_eq c.mode "ssh")) [
  | inl on ↦ rw (on, or_positive_twice 21 c.ssh_port) refl
  | inr off ↦ rw (off) refl
]

instance_problem-fill_instance :
    (i : ℕ) (c : InstanceConfig) → instance_problem i (fill_instance c) ≡ instance_problem i c
unfolding instance_problem fill_instance mode_problem
instance_problem-fill_instance i c = refl

validate_instance_twice :
    (i : ℕ) (c d : InstanceConfig)
    → validate_instance i c ≡ taken d
    → validate_instance i d ≡ taken d
unfolding validate_instance
validate_instance_twice i c d h = elim (Option-cases (instance_problem i c)) [
  | inr (p, bad) ↦ absurd (ground (arith, rw (validate_instance, bad) at h))
  | inl good ↦
      let same = taken_inj (fill_instance c) d (rw (validate_instance, good) at h) in
      rw (← same) (
        rw (validate_instance, instance_problem-fill_instance i c, good)
          (ap taken (fill_instance_twice c)))
]

-- The first entry, as it is left, and the others.
first_and_rest :
    (i : ℕ) (c : InstanceConfig) (rest out : List InstanceConfig)
    → validate_from i (c ∷ rest) ≡ taken out
    → (d : InstanceConfig) × (ds : List InstanceConfig) × (validate_instance i c ≡ taken d)
      × (validate_from (suc i) rest ≡ taken ds)
      × (out ≡ d ∷ ds)
unfolding validate_from then_cons
first_and_rest i c rest out h = go (validate_instance i c) (validate_from (suc i) rest) refl refl h
  where
    go :
        (first : Checked InstanceConfig) (more : Checked (List InstanceConfig))
        → validate_instance i c ≡ first
        → validate_from (suc i) rest ≡ more
        → (elim first as (λ _. Checked (List InstanceConfig)) [
          | refused p ↦ refused p
          | taken d ↦ then_cons d more
        ])
          ≡ taken out
        → (d : InstanceConfig) × (ds : List InstanceConfig) × (validate_instance i c ≡ taken d)
          × (validate_from (suc i) rest ≡ taken ds)
          × (out ≡ d ∷ ds)
    go (refused p) more f m k = absurd (ground (arith, k))
    go (taken d) (refused p) f m k = absurd (ground (arith, k))
    go (taken d) (taken ds) f m k = (d, ds, f, m, sym (taken_inj (d ∷ ds) out k))

validate_from_twice :
    (i : ℕ) (cs out : List InstanceConfig)
    → validate_from i cs ≡ taken out
    → validate_from i out ≡ taken out
unfolding validate_from then_cons
validate_from_twice i [] out h = rw (← taken_inj [] out h) refl
validate_from_twice i (c ∷ rest) out h =
    let (d, ds, f, m, e) = first_and_rest i c rest out h in
    rw (e) (
      rw (validate_from, validate_instance_twice i c d f, validate_from_twice (suc i) rest ds m)
        refl)

validate_from-length :
    (i : ℕ) (cs out : List InstanceConfig) → validate_from i cs ≡ taken out → length out ≡ length cs
unfolding validate_from
validate_from-length i [] out h = rw (← taken_inj [] out h) refl
validate_from-length i (c ∷ rest) out h =
    let (d, ds, f, m, e) = first_and_rest i c rest out h in
    let more = validate_from-length (suc i) rest ds m in rw (e) (omega (arith, more))

with_numbers_twice : (c : Config) → with_numbers (with_numbers c) ≡ with_numbers c
unfolding with_numbers
with_numbers_twice c = elim (Bool-cases (str_eq c.strategy "packet_split")) [
  | inl on ↦
      rw
        (
          on,
          or_positive_twice 8191 c.chunk_size,
          or_positive_twice 65535 c.buffer_size,
          or_positive_twice 9999 c.max_connections,
        )
        refl
  | inr off ↦
      rw (off, or_positive_twice 65535 c.buffer_size, or_positive_twice 9999 c.max_connections) refl
]

Parsed-cases {ℓ} :
    {A : Type ℓ} (p : Parsed A) → ((e : Expand.Error) × (p ≡ failed e)) ⊎ ((x : A) × (p ≡ parsed x))
Parsed-cases (failed e) = inl (e, refl)
Parsed-cases (parsed x) = inr (x, refl)

Checked-cases {ℓ} :
    {A : Type ℓ} (p : Checked A) → ((e : Problem) × (p ≡ refused e)) ⊎ ((x : A) × (p ≡ taken x))
Checked-cases (refused e) = inl (e, refl)
Checked-cases (taken x) = inr (x, refl)

-- The last part of a configuration that is taken.
abbrev filled : Config → List InstanceConfig → Config
filled c instances = record c {
  instances = instances;
  interval = or_text "10s" c.interval;
  target = or_text "google.com" c.target;
  timeout = or_text "5s" c.timeout;
  gui_listen = or_text "127.0.0.1:8384" c.gui_listen;
}

validate_rest-filled :
    (c d : Config) (instances : List InstanceConfig)
    → validate_rest c instances ≡ taken d
    → (d ≡ filled c instances)
      × (validate_rest (filled c instances) instances ≡ taken (filled c instances))
unfolding validate_rest
validate_rest-filled c d instances h = elim (Parsed-cases (expand_instances instances)) [
  | inl (e, bad) ↦ absurd (ground (arith, rw (validate_rest, bad) at h))
  | inr (out, good) ↦ (
    sym (taken_inj (filled c instances) d (rw (validate_rest, good) at h)),
    rw
        (
          validate_rest,
          good,
          or_text_twice "10s" c.interval refl,
          or_text_twice "google.com" c.target refl,
          or_text_twice "5s" c.timeout refl,
          or_text_twice "127.0.0.1:8384" c.gui_listen refl,
        )
        refl,
  )
]

filled_again :
    (w : Config) (is : List InstanceConfig)
    → str_eq w.listen "" ≡ false
    → (length is == 0) ≡ false
    → strategy_or_default w.strategy ≡ some w.strategy
    → (str_eq w.strategy "packet_split" && str_eq w.address "") ≡ false
    → with_numbers w ≡ w
    → validate_from 0 is ≡ taken is
    → validate_rest (filled w is) is ≡ taken (filled w is)
    → validate (filled w is) ≡ taken (filled w is)
unfolding validate validate_strategy validate_instances
filled_again w is listen any strategy address numbers entries rest =
    let numbers' : with_numbers (filled w is) ≡ filled w is =
      unfold with_numbers in ap (λ k. filled k is) numbers in
    rw (validate, listen, any, strategy, validate_strategy, address)
      (ap validate_instances numbers' ∙ rw (validate_instances, entries) rest)

-- `Validate` changes nothing in a configuration that it has taken before, and takes it again.
pub validate_twice : (c d : Config) → validate c ≡ taken d → validate d ≡ taken d
unfolding validate validate_strategy validate_instances
validate_twice c d h = elim (Bool-cases (str_eq c.listen "")) [
  | inl bad ↦ absurd (ground (arith, rw (validate, bad) at h))
  | inr listen ↦ (elim (Bool-cases (length c.instances == 0)) [
    | inl bad ↦ absurd (ground (arith, rw (validate, listen, bad) at h))
    | inr any ↦ (elim (Option-cases (strategy_or_default c.strategy)) [
      | inl bad ↦ absurd (ground (arith, rw (validate, listen, any, bad) at h))
      | inr (s, strategy) ↦ (elim (Bool-cases (str_eq s "packet_split" && str_eq c.address "")) [
        | inl bad ↦
            absurd
              (ground (arith, rw (validate, listen, any, strategy, validate_strategy, bad) at h))
        | inr address ↦ (elim (Checked-cases (validate_from 0 c.instances)) [
          | inl (e, bad) ↦ absurd (
              ground (
                arith,
                rw
                    (
                      validate, listen, any, strategy, validate_strategy, address,
                      validate_instances, bad,
                    )
                    at h,
              ))
          | inr (is, good) ↦
              let w = with_numbers (record c { strategy = s }) in
              let (e, rest) = validate_rest-filled w d is (
                rw
                  (
                    validate, listen, any, strategy, validate_strategy, address, validate_instances,
                    good,
                  )
                  at h) in
              subst (λ k. validate k ≡ taken k) (sym e)
                (filled_again w is listen
                  (ap (λ n. n == 0) (validate_from-length 0 c.instances is good) ∙ any)
                  (strategy_twice c.strategy s strategy) address
                  (with_numbers_twice (record c { strategy = s }))
                  (validate_from_twice 0 c.instances is good) rest)
        ])
      ])
    ])
  ])
]
