-- ===== src/Proxy/Guards.antt =====
-- internal/proxy/socks5.go: what holds of a session that reaches the routing, whatever the client sent.
use Prim.Native.String.{String}
use slip_stream_plus.Prelude.{
  ℕ, ◌≡◌, ◌⊎◌, refl, true, false, ◌∷◌, ◌++◌, length, Option, none, some, arith, Bool-cases, inl,
  inr,
}
use slip_stream_plus.Tunnel.Protocol.{Bytes}
use slip_stream_plus.Users.{
  User, Manager, has_users, authenticate, check_connect, mark_connect, Refusal,
}
use slip_stream_plus.Proxy.{
  greeting, credentials, and_then, Target, request, Session, login, member, admit, open_session,
  put_user, finds_method,
}
use slip_stream_plus.Proxy.Requests.{IsTarget, hello_bytes}
use slip_stream_plus.Proxy.Sessions.{guest, host}
use slip_stream_plus.Proxy.Inputs.{greeting_inv, credentials_inv, request_inv, and_then_next}

-- A CONNECT request, whose version and reserved byte are not looked at, and what follows.
abbrev pub connect_bytes : ℕ → ℕ → Target → Bytes → Bytes
connect_bytes v r t rest = v ∷ 0x01 ∷ r ∷ t.atyp ∷ (t.addr ++ (t.port ++ rest))

-- A name and a password behind a version that is not looked at, and what follows.
abbrev pub login_bytes : ℕ → Bytes → Bytes → Bytes → Bytes
login_bytes w username password rest =
    w ∷ length username ∷ (username ++ (length password ∷ (password ++ rest)))

module _ (text : Bytes → String) (ip : String) (now : ℕ) (m : Manager) where
  -- The name and the password are a user's, who may connect from here and is counted.
  pub record Admitted (username password : Bytes) (s : Session) : Type 0 where
    pub user : User
    pub known : authenticate (text username) (text password) m ≡ some user
    pub allowed : (check_connect ip now user).0 ≡ none
    pub counted :
        s.users ≡ put_user (text username) (mark_connect ip ((check_connect ip now user).1)) m
    pub marked : s.marked ≡ some (text username)

  admit-Admitted :
      (username password input rest : Bytes) (t : Target) (u : User) (verdict : Option Refusal)
      → authenticate (text username) (text password) m ≡ some u
      → (check_connect ip now u).0 ≡ verdict
      → let s = admit ip m (text username) input verdict ((check_connect ip now u).1) in
        (s.answer.next ≡ some (t, rest))
        → Admitted username password s × (request input).next ≡ some (t, rest)
  unfolding admit
  admit-Admitted username password input rest t u (some reason) k v e = absurd (ground (arith, e))
  admit-Admitted username password input rest t u none k v e =
      (record { user = u; known = k; allowed = v; counted = refl; marked = refl }, e)

  login-Admitted :
      (username password input rest : Bytes) (t : Target) (known_user : Option User)
      → authenticate (text username) (text password) m ≡ known_user
      → let s = login ip now m (text username) input known_user in
        (s.answer.next ≡ some (t, rest))
        → Admitted username password s × (request input).next ≡ some (t, rest)
  unfolding login
  login-Admitted username password input rest t none k e = absurd (ground (arith, e))
  login-Admitted username password input rest t (some u) k e =
      admit-Admitted username password input rest t u _ k refl e

  member-Admitted :
      (sent : Option ((Bytes × Bytes) × Bytes)) (wrote rest : Bytes) (t : Target)
      → let s = member text ip now m (record { wrote = wrote; next = sent }) in
        (s.answer.next ≡ some (t, rest))
        → (username password input : Bytes) × (sent ≡ some ((username, password), input))
          × Admitted username password s
          × (request input).next ≡ some (t, rest)
  unfolding member
  member-Admitted none wrote rest t e = absurd (ground (arith, e))
  member-Admitted (some ((username, password), input)) wrote rest t e =
      let (a, r) = login-Admitted username password input rest t _ refl e in
      (
        username,
        password,
        input,
        refl,
        record {
          user = a.user;
          known = a.known;
          allowed = a.allowed;
          counted = a.counted;
          marked = a.marked;
        },
        r,
      )

  -- A session that reaches the routing has a target whose address is as long as its ATYP says, with a port of two
  -- bytes, and the client has sent a greeting, and at the end the CONNECT request for this target and what is left to
  -- read. Without users nothing has changed. With users the greeting offers method 2, and between the two stand the
  -- name and the password of a user who may connect from this address, and whose connections have gone up by one.
  pub open_session_inv :
      (input rest : Bytes) (t : Target)
      → (open_session text ip now m input).answer.next ≡ some (t, rest)
      → let s = open_session text ip now m input in
        IsTarget t
        × (((has_users m ≡ false)
              × (s.users ≡ m)
              × (s.marked ≡ none)
              × ((methods : Bytes) × (v r : ℕ) × input
                    ≡ hello_bytes methods ++ connect_bytes v r t rest))
            ⊎ ((has_users m ≡ true)
                × ((methods username password : Bytes) × (w v r : ℕ) × (finds_method methods ≡ true)
                    × (input
                        ≡ hello_bytes methods
                          ++ login_bytes w username password (connect_bytes v r t rest))
                    × Admitted username password s)))
  open_session_inv input rest t e = elim (Bool-cases (has_users m)) [
    | inl on ↦
        let h = host text ip now m input on in
        let sent = and_then (greeting true input) (λ _ r. credentials r) in
        let (username, password, input', logged, a, r) =
          member-Admitted sent.next sent.wrote rest t (rw (h) at e) in
        let (methods, r1, hi, creds) =
          and_then_next (greeting true input) (λ _ r. credentials r) ((username, password), input')
            logged in
        let (first, offers) = greeting_inv true input r1 methods hi in
        let (w, second) = credentials_inv r1 input' username password creds in
        let (good, (v, k, third)) = request_inv input' rest t r in
        (
          good,
          inr (
            on,
            (
              methods,
              username,
              password,
              w,
              v,
              k,
              offers refl,
              cc (first, second, third),
              rw (h) a,
            ),
          ),
        )
    | inr off ↦
        let h = guest text ip now m input off in
        let (methods, r, hi, q) =
          and_then_next (greeting false input) (λ _ r. request r) (t, rest) (rw (h) at e) in
        let (first, _) = greeting_inv false input r methods hi in
        let (good, (v, k, second)) = request_inv r rest t q in
        (good, inl (off, rw (h) refl, rw (h) refl, (methods, v, k, cc (first, second))))
  ]
