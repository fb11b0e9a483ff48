-- ===== src/Proxy/Sessions.antt =====
-- internal/proxy/socks5.go: whole sessions, from the greeting to the request, and what they do to the users.
use Prim.Native.String.{String}
use slip_stream_plus.Prelude.{ℕ, ◌≡◌, refl, ◌∙◌, true, false, [], ◌∷◌, ◌++◌, none, some}
use slip_stream_plus.Prelude.Maps.{string_key}
use slip_stream_plus.Tunnel.Protocol.{Bytes}
use slip_stream_plus.Users.{User, Manager, has_users, authenticate, check_connect, mark_connect}
use slip_stream_plus.Proxy.{
  accept, and_then, Target, choose, finds_method, greeting, credentials, request, login, member,
  admit, open_session, put_user,
}
use slip_stream_plus.Proxy.Requests.{
  IsTarget, hello_bytes, credentials_bytes, request_bytes, greeting_hello, credentials_sent,
  request_sent,
}

module _ (text : Bytes → String) (ip : String) (now : ℕ) (m : Manager) where
  pub guest :
      (input : Bytes)
      → has_users m ≡ false
      → open_session text ip now m input ≡ record {
        answer = and_then (greeting false input) (λ _ rest. request rest);
        users = m;
        marked = none;
      }
  unfolding open_session
  guest input e = rw (e) refl

  pub host :
      (input : Bytes)
      → has_users m ≡ true
      → open_session text ip now m input
        ≡ member text ip now m (and_then (greeting true input) (λ _ rest. credentials rest))
  unfolding open_session
  host input e = rw (e) refl

  -- Without users, the proxy answers the greeting with method 0, and takes the request exactly as it was sent: the
  -- target, and the client's data behind it.
  pub open_session-request_bytes :
      (methods rest : Bytes) (t : Target)
      → has_users m ≡ false
      → IsTarget t
      → open_session text ip now m (hello_bytes methods ++ (request_bytes t ++ rest))
        ≡ record { answer = accept (0x05 ∷ 0x00 ∷ []) t rest; users = m; marked = none }
  unfolding and_then choose
  open_session-request_bytes methods rest t e v =
      guest (hello_bytes methods ++ (request_bytes t ++ rest)) e
      ∙ rw (greeting_hello false methods (request_bytes t ++ rest))
          (rw (request_sent t rest v) refl)

  -- The greeting is good and offers method 2, the name and the password are a user's, and that user may connect from
  -- here: then the request is taken as it was sent, and the connection is counted for the user.
  pub open_session-login :
      (methods username password rest : Bytes) (t : Target) (u : User)
      → has_users m ≡ true
      → finds_method methods ≡ true
      → authenticate (text username) (text password) m ≡ some u
      → (check_connect ip now u).0 ≡ none
      → IsTarget t
      → open_session text ip now m (
          hello_bytes methods ++ (credentials_bytes username password ++ (request_bytes t ++ rest)))
        ≡ record {
          answer = accept (0x05 ∷ 0x02 ∷ 0x01 ∷ 0x00 ∷ []) t rest;
          users = put_user (text username) (mark_connect ip ((check_connect ip now u).1)) m;
          marked = some (text username);
        }
  unfolding and_then choose member login admit
  open_session-login methods username password rest t u e f a c v =
      let sent = request_bytes t ++ rest in
      let hello = greeting_hello true methods (credentials_bytes username password ++ sent) in
      let whole : and_then
            (greeting true (hello_bytes methods ++ (credentials_bytes username password ++ sent)))
            (λ _ r. credentials r)
          ≡ accept (0x05 ∷ 0x02 ∷ []) (username, password) sent =
        rw (hello) (rw (f) (rw (credentials_sent username password sent) refl)) in
      host (hello_bytes methods ++ (credentials_bytes username password ++ sent)) e
      ∙ rw (whole) (rw (a) (rw (c) (rw (request_sent t rest v) refl)))
