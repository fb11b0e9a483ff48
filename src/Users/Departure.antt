-- ===== src/Users/Departure.antt =====
-- internal/users/user.go: MarkConnect, and MarkDisconnect when that connection ends.
use Prim.Native.String.{String}
use slip_stream_plus.Prelude.{
  ℕ, zero, suc, ◌+◌, ◌^◌, ◌<◌, ◌≡◌, ◌⊎◌, refl, sym, ap, ◌∙◌, true, false, if◌then◌else◌, lt→ltb,
  arith, Bool-cases, inl, inr,
}
use slip_stream_plus.Prelude.Int.{ℤ, pos, negsuc, ◌+ℤ◌, wrap64, ltb_ℤ}
use slip_stream_plus.Prelude.Maps.{Map, IsMap, insert, delete, eqb, eqb-true, eqb_refl, string_key}
use slip_stream_plus.Prelude.Maps.Laws.{lookup-insert, lookup-delete, insert-IsMap}
use slip_stream_plus.Users.{User, count, mark_connect, mark_disconnect}

count-insert :
    (ip x : String) (n : ℤ) (m : Map String ℤ)
    → count x (insert ip n m) ≡ (if eqb ip x then n else count x m)
unfolding count
count-insert ip x n m = ground (arith, lookup-insert ip x n m)

count-delete :
    (ip x : String) (m : Map String ℤ)
    → IsMap m
    → count x (delete ip m) ≡ (if eqb ip x then pos 0 else count x m)
unfolding count
count-delete ip x m h = ground (arith, lookup-delete ip x m h)

-- How many connections a user has from an address.
abbrev pub tally : String → User → ℤ
tally ip u = count ip u.active_ips

mark_connect-tally :
    (ip x : String) (u : User) (k : ℕ)
    → tally ip u ≡ pos k
    → k + 1 < 2 ^ 63
    → tally x (mark_connect ip u) ≡ (if eqb ip x then pos (k + 1) else tally x u)
unfolding mark_connect wrap64 ◌+ℤ◌
mark_connect-tally ip x u k e h =
    let more : wrap64 (pos k +ℤ pos 1) ≡ pos (k + 1) = ground arith in
    count-insert ip x (wrap64 (tally ip u +ℤ pos 1)) u.active_ips
    ∙ ap (λ v. if eqb ip x then v else tally x u) (ap (λ z. wrap64 (z +ℤ pos 1)) e ∙ more)

mark_disconnect-tally :
    (ip x : String) (now : ℕ) (u : User) (k : ℕ)
    → IsMap u.active_ips
    → tally ip u ≡ pos (k + 1)
    → k + 1 < 2 ^ 63
    → tally x (mark_disconnect ip now u) ≡ (if eqb ip x then pos k else tally x u)
unfolding mark_disconnect wrap64 ◌+ℤ◌
mark_disconnect-tally ip x now u k v e h =
    let less : wrap64 (tally ip u +ℤ negsuc 0) ≡ pos k =
      ap (λ z. wrap64 (z +ℤ negsuc 0)) e ∙ ground arith in
    go k less
  where
    go :
        (n : ℕ)
        → wrap64 (tally ip u +ℤ negsuc 0) ≡ pos n
        → tally x (mark_disconnect ip now u) ≡ (if eqb ip x then pos n else tally x u)
    go (suc n) d =
        let test : ltb_ℤ (pos 0) (pos (suc n)) ≡ true = lt→ltb _ _ (omega arith) in
        rw (mark_disconnect, d, test) (count-insert ip x (pos (suc n)) u.active_ips)
    go zero d =
        let m = insert ip (pos 0) u.active_ips in
        rw (mark_disconnect, d)
          (count-delete ip x m (insert-IsMap ip (pos 0) u.active_ips v)
            ∙ ground (arith, count-insert ip x (pos 0) u.active_ips))

-- The map of a user's addresses stays one.
mark_connect-IsMap :
    (ip : String) (u : User) → IsMap u.active_ips → IsMap (mark_connect ip u).active_ips
unfolding mark_connect
mark_connect-IsMap ip u v = insert-IsMap ip _ u.active_ips v

-- When a connection that MarkConnect counted ends, the user has as many from every address as before it.
pub mark_disconnect-mark_connect :
    (ip x : String) (now : ℕ) (u : User) (k : ℕ)
    → IsMap u.active_ips
    → tally ip u ≡ pos k
    → k + 1 < 2 ^ 63
    → tally x (mark_disconnect ip now (mark_connect ip u)) ≡ tally x u
mark_disconnect-mark_connect ip x now u k v e h =
    let own =
      mark_connect-tally ip ip u k e h
      ∙ ap (λ b. if b then pos (k + 1) else tally ip u) (eqb_refl ip) in
    let left =
      mark_disconnect-tally ip x now (mark_connect ip u) k (mark_connect-IsMap ip u v) own h in
    left
    ∙ ap (λ z. if eqb ip x then pos k else z) (mark_connect-tally ip x u k e h)
    ∙ go (Bool-cases (eqb ip x))
  where
    go :
        (eqb ip x ≡ true) ⊎ (eqb ip x ≡ false)
        → (if eqb ip x then pos k else (if eqb ip x then pos (k + 1) else tally x u)) ≡ tally x u
    go (inl same) = rw (same) (sym e ∙ ap (λ y. tally y u) (eqb-true ip x same))
    go (inr other) = rw (other) refl
