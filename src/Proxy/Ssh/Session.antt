-- ===== src/Proxy/Ssh/Session.antt =====
-- internal/proxy/ssh.go: the handshake of `handleConnection`, the handler as a whole, and `Close`. The greeting and the
-- credentials are read as in socks5.go.
use Prim.Native.String.{String}
use slip_stream_plus.Prelude.{
  ℕ, ◌≡◌, refl, ap, ◌∙◌, Bool, false, List, [], ◌∷◌, ◌++◌, map, if◌then◌else◌, Option, none, some,
  Bool-cases, Option-cases, inl, inr,
}
use slip_stream_plus.Prelude.Maps.{Map, lookup, string_key}
use slip_stream_plus.Tunnel.Protocol.{Bytes}
use slip_stream_plus.Engine.Instance.{Instance}
use slip_stream_plus.Users.{
  User, Refusal, Manager, has_users, authenticate, check_connect, mark_connect,
}
use slip_stream_plus.Proxy.{
  Answer, refuse, and_then, greeting, credentials, Target, reply, request, Session, put_user, admit,
  login, member, open_session, leave, handle_connection,
}
use slip_stream_plus.Proxy.Relay.{Moved}
use slip_stream_plus.Proxy.Ssh.{ssh_request, handle_ssh, host, hosted, ssh_request-request}

-- What `CheckConnect` finds, and the user as it leaves it.
unfoldable pub ssh_admit : String → Manager → String → Bytes → Option Refusal → User → Session
unfolding put_user ssh_request
ssh_admit ip m username input (some reason) u = record {
  answer = refuse (0x01 ∷ 0x00 ∷ reply 0x02);
  users = put_user username u m;
  marked = none;
}
ssh_admit ip m username input none u =
    let a = ssh_request input in
    record {
      answer = record { wrote = 0x01 ∷ 0x00 ∷ a.wrote; next = a.next };
      users = put_user username (mark_connect ip u) m;
      marked = some username;
    }

-- What `Authenticate` finds.
unfoldable pub ssh_login : String → ℕ → Manager → String → Bytes → Option User → Session
unfolding ssh_admit
ssh_login ip now m username input none = record {
  answer = refuse (0x01 ∷ 0x01 ∷ []);
  users = m;
  marked = none;
}
ssh_login ip now m username input (some u) =
    let c = check_connect ip now u in ssh_admit ip m username input (c.0) (c.1)

-- The greeting and the credentials that a user sent.
unfoldable pub ssh_member :
    (Bytes → String) → String → ℕ → Manager → Answer (Bytes × Bytes) → Session
unfolding ssh_login
ssh_member text ip now m sent = elim sent.next [
  | none ↦ record { answer = refuse sent.wrote; users = m; marked = none }
  | some ((username, password), rest) ↦
      let s =
        ssh_login ip now m (text username) rest (authenticate (text username) (text password) m) in
      record s { answer = record { wrote = sent.wrote ++ s.answer.wrote; next = s.answer.next } }
]

-- `handleConnection` up to the instances.
unfoldable pub ssh_open_session : (Bytes → String) → String → ℕ → Manager → Bytes → Session
unfolding ssh_member ssh_request
ssh_open_session text ip now m input =
    let hello = greeting (has_users m) input in
    if has_users m
    then ssh_member text ip now m (and_then hello (λ _ rest. credentials rest))
    else record { answer = and_then hello (λ _ rest. ssh_request rest); users = m; marked = none }

-- What the rest of the handler needs: the balancer, the SSH library, what a client reaches, and what the relays move.
pub record Backend : Type 0 where
  pub pick : List Instance → Option Instance
  pub keepalive : ℕ → Bool
  pub connect : ℕ → Option ℕ
  pub dial : Target → ℕ → Bool
  pub moved : List Moved

-- The handler's `user`, and the same after the relays.
unfoldable pub marked_user : Option String → Manager → Option User
marked_user none m = none
marked_user (some name) m = lookup name m.users

unfoldable pub put_marked : Option String → Option User → Manager → Manager
unfolding put_user
put_marked none u m = m
put_marked (some name) none m = m
put_marked (some name) (some u) m = put_user name u m

-- The handler behind the request.
unfoldable pub ssh_route :
    Backend
    → List Instance
    → Map ℕ ℕ
    → Target
    → Option String
    → Manager
    → Bytes × List Instance × Manager × Map ℕ ℕ
unfolding handle_ssh marked_user put_marked
ssh_route b instances clients t marked m =
    let out =
      handle_ssh b.pick b.keepalive b.connect (b.dial t) b.moved instances (marked_user marked m)
        clients in
    (out.0, out.1, put_marked marked (out.2) m, out.3)

-- The handler from where it has read the request or has given up.
unfoldable pub ssh_finish :
    Backend
    → String
    → ℕ
    → List Instance
    → Map ℕ ℕ
    → Session
    → Bytes × List Instance × Manager × Map ℕ ℕ
unfolding ssh_route leave
ssh_finish b ip later instances clients s = elim s.answer.next [
  | none ↦ (s.answer.wrote, instances, leave ip later s.marked s.users, clients)
  | some (target, rest) ↦
      let out = ssh_route b instances clients target s.marked s.users in
      (s.answer.wrote ++ out.0, out.1, leave ip later s.marked (out.2), out.3)
]

-- `handleConnection`
unfoldable pub ssh_handle_connection :
    (Bytes → String)
    → Backend
    → String
    → ℕ
    → ℕ
    → List Instance
    → Map ℕ ℕ
    → Manager
    → Bytes
    → Bytes × List Instance × Manager × Map ℕ ℕ
unfolding ssh_open_session ssh_finish
ssh_handle_connection text b ip now later instances clients m input =
    ssh_finish b ip later instances clients (ssh_open_session text ip now m input)

-- `Close`: the clients that it closes, and those that are kept.
unfoldable pub close_clients : Map ℕ ℕ → List ℕ × Map ℕ ℕ
close_clients clients = (map (λ c. c.1) clients, [])

-- A session with the target as the SSH proxy keeps it.
abbrev pub hosted_session : Session → Session
hosted_session s = record s { answer = hosted s.answer }

ssh_admit-admit :
    (ip : String) (m : Manager) (username : String) (input : Bytes) (r : Option Refusal) (u : User)
    → ssh_admit ip m username input r u ≡ hosted_session (admit ip m username input r u)
unfolding ssh_admit admit
ssh_admit-admit ip m username input (some reason) u = refl
ssh_admit-admit ip m username input none u = rw (ssh_request-request input) refl

ssh_login-login :
    (ip : String) (now : ℕ) (m : Manager) (username : String) (input : Bytes) (found : Option User)
    → ssh_login ip now m username input found ≡ hosted_session (login ip now m username input found)
unfolding ssh_login login
ssh_login-login ip now m username input none = refl
ssh_login-login ip now m username input (some u) = ssh_admit-admit ip m username input _ _

ssh_member-member :
    (text : Bytes → String) (ip : String) (now : ℕ) (m : Manager) (sent : Answer (Bytes × Bytes))
    → ssh_member text ip now m sent ≡ hosted_session (member text ip now m sent)
unfolding ssh_member member
ssh_member-member text ip now m sent = elim (Option-cases sent.next) [
  | inl e ↦ rw (ssh_member, member, e) refl
  | inr (((username, password), rest), e) ↦
      rw (ssh_member, member, e)
        (ap
          (λ (s : Session). record s {
            answer = record { wrote = sent.wrote ++ s.answer.wrote; next = s.answer.next };
          })
          (ssh_login-login ip now m (text username) rest _))
]

and_then-hosted :
    (a : Answer Bytes) (j k : Bytes → Answer Target)
    → ((rest : Bytes) → j rest ≡ hosted (k rest))
    → and_then a (λ _ rest. j rest) ≡ hosted (and_then a (λ _ rest. k rest))
unfolding and_then
and_then-hosted a j k same = elim (Option-cases a.next) [
  | inl e ↦ rw (and_then, e) refl
  | inr ((x, rest), e) ↦
      rw (and_then, e)
        (ap (λ (b : Answer Target). record { wrote = a.wrote ++ b.wrote; next = b.next })
          (same rest))
]

-- The SSH proxy and the SOCKS5 proxy treat their clients alike up to the instances, whatever these send: the same
-- answers, the same users let in and counted, the same targets (of a domain, the one keeps the name and the other its
-- length as well), and the same data behind them.
pub ssh_open_session-open_session :
    (text : Bytes → String) (ip : String) (now : ℕ) (m : Manager) (input : Bytes)
    → ssh_open_session text ip now m input ≡ hosted_session (open_session text ip now m input)
unfolding ssh_open_session open_session
ssh_open_session-open_session text ip now m input = elim (Bool-cases (has_users m)) [
  | inl on ↦ rw (on) (ssh_member-member text ip now m _)
  | inr off ↦ rw (off) (
      ap (λ (a : Answer Target). record { answer = a; users = m; marked = none })
        (and_then-hosted (greeting false input) ssh_request request ssh_request-request))
]

-- The SSH proxy's handler writes the same and leaves the same users as the SOCKS5 proxy's, with the way over SSH behind
-- the request.
pub ssh_handle_connection-handle_connection :
    (text : Bytes → String) (b : Backend) (ip : String) (now later : ℕ) (instances : List Instance)
    (clients : Map ℕ ℕ) (m : Manager) (input : Bytes)
    → let out = ssh_handle_connection text b ip now later instances clients m input in
      let over_ssh : Target → Option String → Bytes → Manager → Bytes × Manager =
        λ t who rest n. let r = ssh_route b instances clients (host t) who n in (r.0, r.2) in
      (out.0, out.2) ≡ handle_connection text over_ssh ip now later m input
unfolding ssh_handle_connection handle_connection ssh_finish
ssh_handle_connection-handle_connection text b ip now later instances clients m input =
    ap (λ (s : Session). let out = ssh_finish b ip later instances clients s in (out.0, out.2))
      (ssh_open_session-open_session text ip now m input)
    ∙ (elim (Option-cases (open_session text ip now m input).answer.next) [
      | inl e ↦ rw (handle_connection, e) refl
      | inr ((t, rest), e) ↦ rw (handle_connection, e) refl
    ])
