-- ===== src/Tunnel/Pool/Refresh.antt =====
-- internal/tunnel/pool.go: what refreshConnections leaves in the pool.
use slip_stream_plus.Prelude.{
  ℕ, zero, suc, ◌+◌, ◌-◌, ◌≤◌, ◌≡◌, refl, ap, ◌∙◌, subst, Bool, true, false, not, ◌||◌, List, [],
  ◌∷◌, ◌++◌, ◌==◌, ==_iff, length, length-append, Option, none, some, arith, if_lem, Option_lem,
  Bool-cases, inl, inr, All,
}
use slip_stream_plus.Prelude.Maps.{Map, lookup, insert, nat_key}
use slip_stream_plus.Engine.Instance.{Instance, Mode, socks, ssh}
use slip_stream_plus.Tunnel.Pool.{
  TunnelConn, TunnelPool, conns_of, conns_per_instance, should_remove, alive, is_active, sweep,
  new_conn, replenish, replenish_all, refresh_connections,
}

module _ {A : Type 0} (P : ℕ × A → Type 0) where
  -- What holds of every entry holds of the one that is found.
  pub lookup-All : (m : Map ℕ A) (k : ℕ) (v : A) → All P m → lookup k m ≡ some v → P (k, v)
  unfolding lookup
  lookup-All [] k v h e = absurd (cc)
  lookup-All ((j, w) ∷ m) k v h e = elim (Bool-cases (j == k)) [
    | inl its ↦
        subst P
          (ap (λ i. (i, w)) ((==_iff j k).0 its)
            ∙ ap (λ x. (k, x)) (some_inv (rw (lookup, its) at e)))
          (h.0)
    | inr other ↦ lookup-All m k v (h.1) (rw (lookup, other) at e)
  ]
    where
      some_inv : some w ≡ some v → w ≡ v
      some_inv p = ap (λ o. elim o [ none ↦ w | some x ↦ x ]) p

  pub insert-All : (k : ℕ) (v : A) (m : Map ℕ A) → P (k, v) → All P m → All P (insert k v m)
  unfolding insert
  insert-All k v [] p h = (p, tt)
  insert-All k v ((j, w) ∷ m) p h =
      if_lem (All P) (j == k) (λ _. (p, h.1)) (λ _. (h.0, insert-All k v m p (h.1)))

abbrev IsOpen : TunnelConn → Type 0
IsOpen tc = tc.closed ≡ false

-- An instance's connections are no more than eight.
abbrev pub IsSmall : ℕ × List TunnelConn → Type 0
IsSmall e = length (e.1) ≤ conns_per_instance

-- And they are open, and the instance is among the healthy ones.
abbrev pub IsFresh : List Instance → ℕ × List TunnelConn → Type 0
IsFresh healthy e = IsSmall e × All IsOpen (e.1) × is_active (e.0) healthy ≡ true

length-alive : (now : ℕ) (conns : List TunnelConn) → length (alive now conns) ≤ length conns
unfolding alive
length-alive now [] = omega arith
length-alive now (tc ∷ conns) = ground (arith, length-alive now conns)

should_remove-IsOpen : (now : ℕ) (tc : TunnelConn) → should_remove now tc ≡ false → IsOpen tc
unfolding should_remove
should_remove-IsOpen now tc h = ground (arith, h)

alive-IsOpen : (now : ℕ) (conns : List TunnelConn) → All IsOpen (alive now conns)
unfolding alive
alive-IsOpen now [] = tt
alive-IsOpen now (tc ∷ conns) =
    let rest = alive-IsOpen now conns in
    if_lem (All IsOpen) (should_remove now tc) (λ _. rest)
      (λ kept. (should_remove-IsOpen now tc kept, rest))

sweep-IsFresh :
    (now : ℕ) (healthy : List Instance) (m : Map ℕ (List TunnelConn))
    → All IsSmall m
    → All (IsFresh healthy) (sweep now healthy m)
unfolding sweep
sweep-IsFresh now healthy [] h = tt
sweep-IsFresh now healthy ((id, conns) ∷ m) h =
    let rest = sweep-IsFresh now healthy m (h.1) in
    if_lem (All (IsFresh healthy)) (not (is_active id healthy) || (length (alive now conns) == 0))
      (λ _. rest)
      (λ kept. (
        (omega (arith, length-alive now conns, h.0), alive-IsOpen now conns, ground (arith, kept)),
        rest,
      ))

module _ (dial : ℕ → Option ℕ) (now : ℕ) where
  length-replenish :
      (need i : ℕ) (conns : List TunnelConn)
      → length (replenish dial now need i conns) ≤ length conns + need
  unfolding replenish
  length-replenish zero i conns = omega arith
  length-replenish (suc need) i conns =
      Option_lem (λ (l : List TunnelConn). length l ≤ length conns + suc need) (dial i)
        (λ _. omega arith)
        (λ conn _.
          let more = conns ++ (new_conn now conn ∷ []) in
          omega (
            arith,
            length-replenish need (i + 1) more,
            length-append conns (new_conn now conn ∷ []),
          ))

  All-append :
      (xs : List TunnelConn) (x : TunnelConn)
      → All IsOpen xs
      → IsOpen x
      → All IsOpen (xs ++ (x ∷ []))
  All-append [] x h o = (o, tt)
  All-append (y ∷ xs) x h o = (h.0, All-append xs x (h.1) o)

  replenish-IsOpen :
      (need i : ℕ) (conns : List TunnelConn)
      → All IsOpen conns
      → All IsOpen (replenish dial now need i conns)
  unfolding replenish new_conn
  replenish-IsOpen zero i conns h = h
  replenish-IsOpen (suc need) i conns h =
      Option_lem (All IsOpen) (dial i) (λ _. h)
        (λ conn _. replenish-IsOpen need (i + 1) _ (All-append conns (new_conn now conn) h refl))

module _ (dial : ℕ → ℕ → Option ℕ) (now : ℕ) (healthy : List Instance) where
  -- An entry of the pool, or none.
  conns_of-IsFresh :
      (id : ℕ) (p : TunnelPool)
      → All (IsFresh healthy) p.conns
      → IsSmall (id, conns_of id p) × All IsOpen (conns_of id p)
  unfolding conns_of
  conns_of-IsFresh id p h =
      Option_lem (λ (l : List TunnelConn). IsSmall (id, l) × All IsOpen l) (lookup id p.conns)
        (λ _. (omega arith, tt))
        (λ conns e. let f = lookup-All (IsFresh healthy) p.conns id conns h e in (f.0, f.1))

  replenish-IsFresh :
      (id : ℕ) (p : TunnelPool)
      → is_active id healthy ≡ true
      → All (IsFresh healthy) p.conns
      → IsFresh healthy (
        id,
        replenish (dial id) now (conns_per_instance - length (conns_of id p)) 0 (conns_of id p),
      )
  replenish-IsFresh id p active h =
      let current = conns_of id p in
      let c = conns_of-IsFresh id p h in
      let need = conns_per_instance - length current in
      (
        omega (arith, c.0, length-replenish (dial id) now need 0 current),
        replenish-IsOpen (dial id) now need 0 current (c.1),
        active,
      )

  by_mode :
      (m : Mode) (p q : TunnelPool)
      → All (IsFresh healthy) p.conns
      → All (IsFresh healthy) q.conns
      → All (IsFresh healthy) (elim m as (λ _. TunnelPool) [ ssh ↦ p | socks ↦ q ]).conns
  by_mode ssh p q hp hq = hp
  by_mode socks p q hp hq = hq

  replenish_all-IsFresh :
      (insts : List Instance) (p : TunnelPool)
      → All (λ i. is_active i.id healthy ≡ true) insts
      → All (IsFresh healthy) p.conns
      → All (IsFresh healthy) (replenish_all dial now insts p).conns
  unfolding replenish_all
  replenish_all-IsFresh [] p a h = h
  replenish_all-IsFresh (i ∷ insts) p a h =
      let f = replenish-IsFresh i.id p (a.0) h in
      replenish_all-IsFresh insts _ (a.1) (
        by_mode i.mode p _ h (
          if_lem (λ (q : TunnelPool). All (IsFresh healthy) q.conns)
            (length (
                replenish (dial i.id) now (conns_per_instance - length (conns_of i.id p)) 0
                  (conns_of i.id p))
              == 0)
            (λ _. h) (λ _. insert-All (IsFresh healthy) i.id _ p.conns f h)))

active_more :
    (j : Instance) (l insts : List Instance)
    → All (λ i. is_active i.id l ≡ true) insts
    → All (λ i. is_active i.id (j ∷ l) ≡ true) insts
unfolding is_active
active_more j l [] h = tt
active_more j l (i ∷ insts) h = (
  if_lem (λ (b : Bool). b ≡ true) (j.id == i.id) (λ _. refl) (λ _. h.0),
  active_more j l insts (h.1),
)

active_self : (l : List Instance) → All (λ i. is_active i.id l ≡ true) l
unfolding is_active
active_self [] = tt
active_self (i ∷ l) = (ground arith, active_more i l l (active_self l))

-- However its dials go, a refresh of a pool that has no more than eight connections for an instance leaves such a pool,
-- in which every connection is open and belongs to a healthy instance.
pub refresh_connections-IsFresh :
    (dial : ℕ → ℕ → Option ℕ) (now : ℕ) (healthy : List Instance) (p : TunnelPool)
    → All IsSmall p.conns
    → All (IsFresh healthy) (refresh_connections dial now healthy p).conns
unfolding refresh_connections
refresh_connections-IsFresh dial now healthy p h =
    replenish_all-IsFresh dial now healthy healthy _ (active_self healthy)
      (sweep-IsFresh now healthy p.conns h)
