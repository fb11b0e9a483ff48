-- ===== src/Users/Race.antt =====
-- internal/users/user.go: CheckConnect and MarkConnect are two calls, and another connection can come in between.
use Prim.Native.String.{String}
use slip_stream_plus.Prelude.{ℕ, suc, ◌≡◌, refl, sym, ap, ◌∙◌, true, false, [], length, none, arith}
use slip_stream_plus.Prelude.Int.{pos, ltb_ℤ, ◌+ℤ◌, wrap64}
use slip_stream_plus.Prelude.Maps.{eqb, lookup, insert, string_key}
use slip_stream_plus.Prelude.Maps.Laws.{lookup-insert, length-insert_new}
use slip_stream_plus.Users.{User, expire, count, over_quota, check_ip, check_connect, mark_connect}

-- A user with room for one more address, who has not been cut off and has no address that is cooling down.
abbrev pub HasRoomForOne : User → Type 0
HasRoomForOne u =
    (u.ip_limit ≡ pos (suc (length u.active_ips))) × (u.cooldown_ips ≡ []) × (over_quota u ≡ false)

check_ip-room :
    (now : ℕ) (u : User) (ip : String)
    → lookup ip u.active_ips ≡ none
    → u.cooldown_ips ≡ []
    → ltb_ℤ (pos (length u.active_ips)) u.ip_limit ≡ true
    → check_ip ip now u ≡ none
unfolding check_ip lookup
check_ip-room now u ip e calm room =
    let counted : ltb_ℤ (pos 0) (count ip u.active_ips) ≡ false = rw (count, e) refl in
    let quiet : lookup ip u.cooldown_ips ≡ none = ap (lookup ip) calm in
    rw (check_ip, counted, quiet, room) refl

-- Such a user lets a new address in, and has room for one still.
check_connect-HasRoomForOne :
    (now : ℕ) (u : User) (ip : String)
    → HasRoomForOne u
    → lookup ip u.active_ips ≡ none
    → let out = check_connect ip now u in
      (out.0 ≡ none) × (out.1.active_ips ≡ u.active_ips) × HasRoomForOne out.1
unfolding check_connect
check_connect-HasRoomForOne now u ip (limit, calm, quota) e =
    let limited : ltb_ℤ (pos 0) u.ip_limit ≡ true = rw (limit) (ground arith) in
    let room : ltb_ℤ (pos (length u.active_ips)) u.ip_limit ≡ true = rw (limit) (ground arith) in
    let quiet : expire now u.cooldown_ips ≡ [] = rw (calm) (unfold expire in refl) in
    rw (check_connect, quota, limited)
      (
        check_ip-room now (record u { cooldown_ips = expire now u.cooldown_ips }) ip e quiet room,
        refl,
        (limit, quiet, unfold over_quota in quota),
      )

one_more : (n : ℕ) → pos (suc (suc n)) ≡ pos (suc n) +ℤ pos 1
unfolding ◌+ℤ◌
one_more n = ground arith

-- Two new addresses that are both checked before either is marked are both let in, and the user has one address more
-- than the limit.
pub check_connect-race :
    (a b : String) (now : ℕ) (u : User)
    → HasRoomForOne u
    → lookup a u.active_ips ≡ none
    → lookup b u.active_ips ≡ none
    → eqb a b ≡ false
    → let first = check_connect a now u in
      let second = check_connect b now (first.1) in
      (first.0 ≡ none)
      × (second.0 ≡ none)
      × (pos (length (mark_connect b (mark_connect a (second.1))).active_ips) ≡ u.ip_limit +ℤ pos 1)
unfolding mark_connect
check_connect-race a b now u room ea eb other =
    let (first, same_a, room_a) = check_connect-HasRoomForOne now u a room ea in
    let v = (check_connect a now u).1 in
    let (second, same_b, room_b) =
      check_connect-HasRoomForOne now v b room_a (ap (lookup b) same_a ∙ eb) in
    let w = (check_connect b now v).1 in
    let same : w.active_ips ≡ u.active_ips = same_b ∙ same_a in
    let n = wrap64 (count a w.active_ips +ℤ pos 1) in
    let fresh_a : lookup a w.active_ips ≡ none = ap (lookup a) same ∙ ea in
    let fresh_b : lookup b (insert a n w.active_ips) ≡ none =
      lookup-insert a b n w.active_ips ∙ rw (other) (ap (lookup b) same ∙ eb) in
    (
      first,
      second,
      ap pos (
            omega (
              arith,
              length-insert_new b (wrap64 (count b (insert a n w.active_ips) +ℤ pos 1))
                  (insert a n w.active_ips) fresh_b,
              length-insert_new a n w.active_ips fresh_a,
              ap length same,
            ))
          ∙ one_more (length u.active_ips)
          ∙ ap (λ z. z +ℤ pos 1) (sym (room.0)),
    )
