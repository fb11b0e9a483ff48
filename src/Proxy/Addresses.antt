-- ===== src/Proxy/Addresses.antt =====
-- internal/proxy/socks5.go: what the deferred MarkDisconnect does to the addresses of the users.
use Prim.Native.String.{String}
use slip_stream_plus.Prelude.{
  ℕ, ◌≡◌, refl, sym, ap, ◌∙◌, Bool, if◌then◌else◌, Option, none, some, Bool-cases, Option-cases,
  inl, inr,
}
use slip_stream_plus.Prelude.Int.{ℤ, pos, negsuc, ◌+ℤ◌, wrap64, ltb_ℤ}
use slip_stream_plus.Prelude.Maps.{Map, lookup, insert, delete, eqb, string_key}
use slip_stream_plus.Prelude.Maps.Laws.{lookup-insert}
use slip_stream_plus.Users.{User, Manager, count, mark_disconnect}
use slip_stream_plus.Users.Departure.{tally}
use slip_stream_plus.Proxy.{put_user, leave}

-- How many connections a name's user has from an address.
unfoldable pub connections : String → String → Manager → ℤ
connections name ip m = elim (lookup name m.users) [ none ↦ pos 0 | some u ↦ tally ip u ]

-- The addresses that a name's user has connections from.
unfoldable pub addresses : String → Manager → Option (Map String ℤ)
addresses name m = elim (lookup name m.users) [ none ↦ none | some u ↦ some u.active_ips ]

-- The counts of addresses when a connection from one has ended.
unfoldable gone : String → Map String ℤ → Map String ℤ
gone ip a =
    let n = wrap64 (count ip a +ℤ negsuc 0) in
    if ltb_ℤ (pos 0) n then insert ip n a else delete ip (insert ip n a)

mark_disconnect-gone :
    (ip : String) (now : ℕ) (u : User)
    → (mark_disconnect ip now u).active_ips ≡ gone ip u.active_ips
unfolding mark_disconnect gone
mark_disconnect-gone ip now u =
    elim (Bool-cases (ltb_ℤ (pos 0) (wrap64 (count ip u.active_ips +ℤ negsuc 0)))) [
      | inl more ↦ rw (mark_disconnect, gone, more) refl
      | inr last ↦ rw (mark_disconnect, gone, last) refl
    ]

addresses-put_user :
    (name n : String) (u : User) (m : Manager)
    → addresses n (put_user name u m) ≡ (if eqb name n then some u.active_ips else addresses n m)
unfolding addresses put_user
addresses-put_user name n u m = elim (Bool-cases (eqb name n)) [
  | inl same ↦ rw (addresses, lookup-insert name n u m.users, same) refl
  | inr other ↦ rw (addresses, lookup-insert name n u m.users, other) refl
]

-- The addresses of a name when one of the user with the counts `a`, the same user or another one, has been left.
abbrev left_of :
    String → Bool → Option (Map String ℤ) → Option (Map String ℤ) → Option (Map String ℤ)
left_of ip same_user here_ none = here_
left_of ip same_user here_ (some a) = if same_user then some (gone ip a) else here_

addresses-leave :
    (ip : String) (later : ℕ) (name n : String) (m : Manager)
    → addresses n (leave ip later (some name) m)
      ≡ left_of ip (eqb name n) (addresses n m) (addresses name m)
unfolding leave addresses
addresses-leave ip later name n m = elim (Option-cases (lookup name m.users)) [
  | inl nobody ↦ rw (leave, addresses, nobody) refl
  | inr (u, there) ↦
      rw (leave, addresses, there)
        (addresses-put_user name n (mark_disconnect ip later u) m
          ∙ ap (λ a. if eqb name n then some a else addresses n m)
              (mark_disconnect-gone ip later u))
]

pub connections-addresses :
    (n x : String) (m : Manager)
    → connections n x m ≡ (elim (addresses n m) as (λ _. ℤ) [ none ↦ pos 0 | some a ↦ count x a ])
unfolding connections addresses
connections-addresses n x m = elim (Option-cases (lookup n m.users)) [
  | inl nobody ↦ rw (connections, addresses, nobody) refl
  | inr (u, there) ↦ rw (connections, addresses, there) refl
]

-- What `leave` makes of the counts depends on nothing else of the users.
pub leave_same :
    (ip : String) (later : ℕ) (who : Option String) (m n : Manager)
    → ((name : String) → addresses name n ≡ addresses name m)
    → (name : String)
    → addresses name (leave ip later who n) ≡ addresses name (leave ip later who m)
unfolding leave
leave_same ip later none m n same name = same name
leave_same ip later (some who) m n same name =
    addresses-leave ip later who name n
    ∙ ap (left_of ip (eqb who name) (addresses name n)) (same who)
    ∙ ap (λ z. left_of ip (eqb who name) z (addresses who m)) (same name)
    ∙ sym (addresses-leave ip later who name m)
