-- ===== src/Proxy/Departure.antt =====
-- internal/proxy/socks5.go: the users' counts of connections, over the whole of a handler.
use Prim.Native.String.{String}
use text.Mathlib.Text.{◌==◌ as str_eq}
use slip_stream_plus.Prelude.{
  ℕ, ◌+◌, ◌^◌, ◌<◌, ◌≡◌, ◌⊎◌, refl, sym, ap, subst, ◌∙◌, true, false, if◌then◌else◌, arith, Option,
  none, some, Bool-cases, Option-cases, inl, inr,
}
use slip_stream_plus.Prelude.Int.{ℤ, pos, ltb_ℤ}
use slip_stream_plus.Prelude.Maps.{IsMap, lookup, eqb, eqb-true, eqb_refl, string_key}
use slip_stream_plus.Prelude.Maps.Laws.{lookup-insert}
use slip_stream_plus.Tunnel.Protocol.{Bytes}
use slip_stream_plus.Users.{
  User, Manager, Refusal, has_users, authenticate, count, check_connect, over_quota, mark_connect,
  mark_disconnect,
}
use slip_stream_plus.Users.Departure.{tally, mark_disconnect-mark_connect}
use slip_stream_plus.Proxy.Sessions.{guest, host}
use slip_stream_plus.Proxy.Addresses.{connections, addresses, connections-addresses, leave_same}
use slip_stream_plus.Proxy.{
  Target, Session, put_user, admit, login, member, open_session, leave, handle_connection,
}

-- The addresses of every user are a map, and their counts have room for one more.
abbrev pub HasRoom : Manager → Type 0
HasRoom m =
    (name ip : String) (u : User)
    → lookup name m.users ≡ some u
    → IsMap u.active_ips × ((k : ℕ) × (tally ip u ≡ pos k) × (k + 1 < 2 ^ 63))

-- No user has more or fewer connections from any address.
abbrev pub AreSame : Manager → Manager → Type 0
AreSame m n = (name ip : String) → connections name ip n ≡ connections name ip m

authenticate-lookup :
    (name password : String) (m : Manager) (u : User)
    → authenticate name password m ≡ some u
    → lookup name m.users ≡ some u
unfolding authenticate
authenticate-lookup name password m u e = elim (Option-cases (lookup name m.users)) [
  | inl nobody ↦ absurd (ground (arith, rw (authenticate, nobody) at e))
  | inr (v, there) ↦ (elim (Bool-cases (str_eq v.config.password password)) [
    | inl right ↦ there ∙ (rw (authenticate, there, right) at e)
    | inr wrong ↦ absurd (ground (arith, rw (authenticate, there, wrong) at e))
  ])
]

check_connect-active_ips :
    (ip : String) (now : ℕ) (u : User) → (check_connect ip now u).1.active_ips ≡ u.active_ips
unfolding check_connect
check_connect-active_ips ip now u = elim (Bool-cases (over_quota u)) [
  | inl over ↦ rw (check_connect, over) refl
  | inr fine ↦ (elim (Bool-cases (ltb_ℤ (pos 0) u.ip_limit)) [
    | inl limited ↦ rw (check_connect, fine, limited) refl
    | inr free ↦ rw (check_connect, fine, free) refl
  ])
]

put_user-connections :
    (name n x : String) (u : User) (m : Manager)
    → connections n x (put_user name u m) ≡ (if eqb name n then tally x u else connections n x m)
unfolding connections put_user
put_user-connections name n x u m = elim (Bool-cases (eqb name n)) [
  | inl same ↦ rw (connections, lookup-insert name n u m.users, same) refl
  | inr other ↦ rw (connections, lookup-insert name n u m.users, other) refl
]

connections-some :
    (n x : String) (u : User) (m : Manager)
    → lookup n m.users ≡ some u
    → connections n x m ≡ tally x u
unfolding connections
connections-some n x u m e = rw (connections, e) refl

-- A user that is stored again with the same counts.
put_user-AreSame :
    (name : String) (u v : User) (m : Manager)
    → lookup name m.users ≡ some u
    → ((x : String) → tally x v ≡ tally x u)
    → AreSame m (put_user name v m)
unfolding connections
put_user-AreSame name u v m there same n x =
    put_user-connections name n x v m ∙ go (Bool-cases (eqb name n))
  where
    go :
        (eqb name n ≡ true) ⊎ (eqb name n ≡ false)
        → (if eqb name n then tally x v else connections n x m) ≡ connections n x m
    go (inl hit) = rw (hit) (
        same x
        ∙ sym (
            connections-some n x u m
              (ap (λ k. lookup k m.users) (sym (eqb-true name n hit)) ∙ there)))
    go (inr miss) = rw (miss) refl

module _ (ip : String) (later : ℕ) (m : Manager) (room : HasRoom m) where
  -- When the handler's deferred calls have run, the counts are as at first.
  abbrev IsBalanced : Session → Type 0
  IsBalanced s = AreSame m (leave ip later s.marked s.users)

  -- A user that was marked, and is unmarked again.
  marked-IsBalanced :
      (name : String) (u v : User)
      → lookup name m.users ≡ some u
      → v.active_ips ≡ u.active_ips
      → AreSame m (leave ip later (some name) (put_user name (mark_connect ip v) m))
  unfolding leave
  marked-IsBalanced name u v there same n x =
      let w = mark_connect ip v in
      let (map_, (k, counted, small)) = room name ip u there in
      let known : lookup name (put_user name w m).users ≡ some w =
        unfold put_user in
        lookup-insert name name w m.users
        ∙ ap (λ b. if b then some w else lookup name m.users) (eqb_refl name) in
      let back : (y : String) → tally y (mark_disconnect ip later w) ≡ tally y u = λ y.
        mark_disconnect-mark_connect ip y later v k (subst (λ a. IsMap a) (sym same) map_)
          (ap (count ip) same ∙ counted) small
        ∙ ap (count y) same in
      rw (leave, known)
        (put_user-connections name n x (mark_disconnect ip later w) (put_user name w m)
          ∙ ap (λ z. if eqb name n then tally x (mark_disconnect ip later w) else z)
              (put_user-connections name n x w m)
          ∙ go n x (mark_disconnect ip later w) w back (Bool-cases (eqb name n)))
    where
      go :
          (n x : String) (z w : User)
          → ((y : String) → tally y z ≡ tally y u)
          → (eqb name n ≡ true) ⊎ (eqb name n ≡ false)
          → (if eqb name n
              then tally x z
              else (if eqb name n then tally x w else connections n x m))
            ≡ connections n x m
      go n x z w back (inl hit) = rw (hit) (
          back x
          ∙ sym (
              connections-some n x u m
                (ap (λ k. lookup k m.users) (sym (eqb-true name n hit)) ∙ there)))
      go n x z w back (inr miss) = rw (miss) refl

  admit-IsBalanced :
      (now : ℕ) (username : String) (input : Bytes) (u : User) (verdict : Option Refusal)
      → lookup username m.users ≡ some u
      → IsBalanced (admit ip m username input verdict ((check_connect ip now u).1))
  unfolding admit leave
  admit-IsBalanced now username input u (some reason) there =
      put_user-AreSame username u ((check_connect ip now u).1) m there
        (λ x. ap (count x) (check_connect-active_ips ip now u))
  admit-IsBalanced now username input u none there =
      marked-IsBalanced username u ((check_connect ip now u).1) there
        (check_connect-active_ips ip now u)

  login-IsBalanced :
      (now : ℕ) (username password : String) (input : Bytes) (who : Option User)
      → authenticate username password m ≡ who
      → IsBalanced (login ip now m username input who)
  unfolding login leave
  login-IsBalanced now username password input none e = λ n x. refl
  login-IsBalanced now username password input (some u) e =
      admit-IsBalanced now username input u _ (authenticate-lookup username password m u e)

  member-IsBalanced :
      (text : Bytes → String) (now : ℕ) (wrote : Bytes) (sent : Option ((Bytes × Bytes) × Bytes))
      → IsBalanced (member text ip now m (record { wrote = wrote; next = sent }))
  unfolding member leave
  member-IsBalanced text now wrote none = λ n x. refl
  member-IsBalanced text now wrote (some ((username, password), input)) =
      login-IsBalanced now (text username) (text password) input _ refl

  open_session-IsBalanced :
      (text : Bytes → String) (now : ℕ) (input : Bytes)
      → IsBalanced (open_session text ip now m input)
  unfolding open_session leave
  open_session-IsBalanced text now input = elim (Bool-cases (has_users m)) [
    | inl on ↦ rw (host text ip now m input on) (member-IsBalanced text now _ _)
    | inr off ↦ rw (guest text ip now m input off) (λ n x. refl)
  ]

  -- A handler that ends, on whatever path, leaves every user with as many connections from every address as before
  -- it, if the users' counts have room for one more and what serves the request leaves the counts of addresses alone,
  -- whatever else it does to the users.
  pub handle_connection-AreSame :
      (text : Bytes → String) (route : Target → Option String → Bytes → Manager → Bytes × Manager)
      (now : ℕ) (input : Bytes)
      → ((t : Target) (who : Option String) (rest : Bytes) (n : Manager) (name : String)
          → addresses name ((route t who rest n).1) ≡ addresses name n)
      → AreSame m ((handle_connection text route ip now later m input).1)
  unfolding handle_connection
  handle_connection-AreSame text route now input quiet n x =
      let s = open_session text ip now m input in
      let balanced = open_session-IsBalanced text now input n x in
      elim (Option-cases s.answer.next) [
        | inl ends ↦ rw (handle_connection, ends) balanced
        | inr ((t, rest), goes) ↦
            rw (handle_connection, goes)
              (connections-addresses n x _
                ∙ ap (λ o. elim o as (λ _. ℤ) [ none ↦ pos 0 | some a ↦ count x a ])
                    (leave_same ip later s.marked s.users _ (quiet t s.marked rest s.users) n)
                ∙ sym (connections-addresses n x (leave ip later s.marked s.users))
                ∙ balanced)
      ]
