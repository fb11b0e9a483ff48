-- ===== src/Users/Limits.antt =====
-- internal/users/user.go: the limit on a user's addresses, and the cooldown of one that has left.
use Prim.Native.String.{String}
use slip_stream_plus.Prelude.{
  ℕ, suc, ◌+◌, ◌-◌, ◌≤◌, ◌≡◌, refl, sym, ap, ◌∙◌, Bool, true, false, [], ◌∷◌, if◌then◌else◌, length,
  Option, none, some, arith, Bool-cases, Option-cases, lt→ltb, ltb→lt, subst, ◌⊎◌, inl, inr,
}
use slip_stream_plus.Prelude.Int.{ℤ, pos, ◌+ℤ◌, ◌≤ℤ◌, ◌<ℤ◌, ltb_ℤ, wrap64}
use slip_stream_plus.Prelude.Maps.{Map, IsMap, eqb_refl, lookup, insert, delete, string_key}
use slip_stream_plus.Prelude.Maps.Laws.{
  lookup-insert, lookup-delete, insert-IsMap, length-insert_old, length-delete, length-insert_new,
}
use slip_stream_plus.Users.{
  User, Refusal, ip_limit_reached, ip_cooldown, cooldown, expire, count, over_quota, check_ip,
  check_connect, mark_connect, mark_disconnect,
}

count-lookup :
    (ip : String) (m : Map String ℤ)
    → ltb_ℤ (pos 0) (count ip m) ≡ true
    → (n : ℤ) × (lookup ip m ≡ some n)
unfolding count
count-lookup ip m h = elim (Option-cases (lookup ip m)) [
  | inl e ↦ ground (arith, e)
  | inr (n, e) ↦ (n, e)
]

length-insert_le :
    (ip : String) (n : ℤ) (m : Map String ℤ) → length (insert ip n m) ≤ suc (length m)
length-insert_le ip n m = elim (Option-cases (lookup ip m)) [
  | inl e ↦ omega (arith, length-insert_new ip n m e)
  | inr (k, e) ↦ omega (arith, length-insert_old ip n m e)
]

admitted :
    (active room : Bool) (since : Option ℕ) (now : ℕ)
    → (if active then none else (elim since as (λ _. Option Refusal) [
      | some t ↦ some (ip_cooldown (t + cooldown - now))
      | none ↦ if room then none else some ip_limit_reached
    ]))
      ≡ none
    → (active ≡ true) ⊎ (room ≡ true)
admitted true room since now e = inl refl
admitted false true since now e = inr refl
admitted false false none now e = cc
admitted false false (some t) now e = cc

check_ip-within :
    (ip : String) (now : ℕ) (u : User)
    → pos (length u.active_ips) ≤ℤ u.ip_limit
    → check_ip ip now u ≡ none
    → pos (length (mark_connect ip u).active_ips) ≤ℤ u.ip_limit
unfolding check_ip mark_connect
check_ip-within ip now u h e =
    let n = wrap64 (count ip u.active_ips +ℤ pos 1) in
    elim (admitted (ltb_ℤ (pos 0) (count ip u.active_ips))
      (ltb_ℤ (pos (length u.active_ips)) u.ip_limit) (lookup ip u.cooldown_ips) now e) [
        | inl b ↦
            let (k, f) = count-lookup ip u.active_ips b in
            rw (length-insert_old ip n u.active_ips f) h
        | inr b ↦ omega (arith, length-insert_le ip n u.active_ips, ltb→lt _ _ b)
      ]

-- An address that `CheckConnect` lets in leaves a user with a limit within it.
pub check_connect-within :
    (ip : String) (now : ℕ) (u u' : User)
    → pos 0 <ℤ u.ip_limit
    → pos (length u.active_ips) ≤ℤ u.ip_limit
    → check_connect ip now u ≡ (none, u')
    → pos (length (mark_connect ip u').active_ips) ≤ℤ u.ip_limit
unfolding check_connect
check_connect-within ip now u u' limited h e = elim (Bool-cases (over_quota u)) [
  | inl over ↦ absurd (refused over)
  | inr quiet ↦
      let limit : ltb_ℤ (pos 0) u.ip_limit ≡ true = lt→ltb _ _ limited in
      let v = record u { cooldown_ips = expire now u.cooldown_ips } in
      let same : (check_ip ip now v, v) ≡ (none, u') = rw (quiet, limit) at e in
      subst (λ (w : User). pos (length (mark_connect ip w).active_ips) ≤ℤ u.ip_limit)
        (ap (λ (q : Option Refusal × User). q.1) same)
        (check_ip-within ip now v h (ap (λ (q : Option Refusal × User). q.0) same))
]
  where
    refused : over_quota u ≡ true → ⊥
    refused over = ground (arith, over)

lookup-expire :
    (ip : String) (now since : ℕ) (m : Map String ℕ)
    → lookup ip m ≡ some since
    → now ≤ since + cooldown
    → lookup ip (expire now m) ≡ some since
unfolding expire lookup
lookup-expire ip now since [] e h = cc
lookup-expire ip now since ((j, t) ∷ rest) e h = ground (arith, lookup-expire ip now since rest)

last_gone :
    (ip : String) (now : ℕ) (u : User)
    → count ip u.active_ips ≡ pos 1
    → pos 0 <ℤ u.ip_limit
    → mark_disconnect ip now u ≡ record u {
      active_ips = delete ip (insert ip (pos 0) u.active_ips);
      cooldown_ips = insert ip now u.cooldown_ips;
    }
unfolding mark_disconnect ◌+ℤ◌ wrap64
last_gone ip now u one limited =
    let limit : ltb_ℤ (pos 0) u.ip_limit ≡ true = lt→ltb _ _ limited in rw (one, limit)

lookup-delete_self : (ip : String) (m : Map String ℤ) → IsMap m → lookup ip (delete ip m) ≡ none
lookup-delete_self ip m h =
    lookup-delete ip ip m h ∙ ap (λ (b : Bool). if b then none else lookup ip m) (eqb_refl ip)

lookup-insert_self {ℓ} :
    {V : Type ℓ} (ip : String) (v : V) (m : Map String V) → lookup ip (insert ip v m) ≡ some v
lookup-insert_self ip v m =
    lookup-insert ip ip v m ∙ ap (λ (b : Bool). if b then some v else lookup ip m) (eqb_refl ip)

count-none : (ip : String) (m : Map String ℤ) → lookup ip m ≡ none → count ip m ≡ pos 0
unfolding count
count-none ip m e = rw (e, count)

check_ip_cooling :
    (ip : String) (now since : ℕ) (u : User)
    → count ip u.active_ips ≡ pos 0
    → lookup ip u.cooldown_ips ≡ some since
    → check_ip ip now u ≡ some (ip_cooldown (since + cooldown - now))
unfolding check_ip
check_ip_cooling ip now since u e f =
    let full : Option Refusal =
      if ltb_ℤ (pos (length u.active_ips)) u.ip_limit then none else some ip_limit_reached in
    let answer : Option ℕ → Option Refusal = λ o. elim o as (λ _. Option Refusal) [
      | some t ↦ some (ip_cooldown (t + cooldown - now))
      | none ↦ full
    ] in
    ap (λ (c : ℤ). if ltb_ℤ (pos 0) c then none else answer (lookup ip u.cooldown_ips)) e
    ∙ ap answer f

check_connect_cooling :
    (ip : String) (now since : ℕ) (u : User)
    → over_quota u ≡ false
    → pos 0 <ℤ u.ip_limit
    → count ip u.active_ips ≡ pos 0
    → lookup ip u.cooldown_ips ≡ some since
    → now ≤ since + cooldown
    → (check_connect ip now u).0 ≡ some (ip_cooldown (since + cooldown - now))
unfolding check_connect
check_connect_cooling ip now since u quiet limited e f soon =
    let limit : ltb_ℤ (pos 0) u.ip_limit ≡ true = lt→ltb _ _ limited in
    let v = record u { cooldown_ips = expire now u.cooldown_ips } in
    rw (quiet, limit) (check_ip_cooling ip now since v e (lookup-expire ip now since _ f soon))

-- When a user's last connection from an address ends, that address is refused for ten seconds, and
-- told how long it has to wait; the other addresses are counted without it.
pub mark_disconnect-cooldown :
    (ip : String) (now later : ℕ) (u : User)
    → IsMap u.active_ips
    → count ip u.active_ips ≡ pos 1
    → pos 0 <ℤ u.ip_limit
    → over_quota u ≡ false
    → later ≤ now + cooldown
    → ((check_connect ip later (mark_disconnect ip now u)).0
        ≡ some (ip_cooldown (now + cooldown - later)))
      × (count ip (mark_disconnect ip now u).active_ips ≡ pos 0)
      × (length u.active_ips ≡ suc (length (mark_disconnect ip now u).active_ips))
mark_disconnect-cooldown ip now later u unique one limited quiet soon =
    let ips = insert ip (pos 0) u.active_ips in
    let v = record u { active_ips = delete ip ips; cooldown_ips = insert ip now u.cooldown_ips } in
    let none_left =
      count-none ip (delete ip ips)
        (lookup-delete_self ip ips (insert-IsMap ip (pos 0) u.active_ips unique)) in
    let (k, there) = count-lookup ip u.active_ips (rw one) in
    let fewer = length-delete ip ips (lookup-insert_self ip (pos 0) u.active_ips) in
    rw (last_gone ip now u one limited) (
      check_connect_cooling ip later now v (unfold over_quota in quiet) limited none_left
          (lookup-insert_self ip now u.cooldown_ips) soon,
      none_left,
      sym (length-insert_old ip (pos 0) u.active_ips there) ∙ fewer,
    )
