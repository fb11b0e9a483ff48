-- ===== src/Proxy.antt =====
-- internal/proxy/socks5.go: what a client of the proxy says before its data, and the answers. A reader is the bytes
-- that are still to come, and `io.ReadFull` fails when they are too few. `text` is the conversion of bytes to a string.
pub mod Requests
pub mod Sessions
pub mod Inputs
pub mod Guards
pub mod Relay
pub mod Accounting
pub mod Counts
pub mod Chain
pub mod Departure
pub mod Addresses
pub mod Limit
pub mod Ssh
mod Tests
use Prim.Native.String.{String}
use slip_stream_plus.Prelude.{
  ℕ, ◌+◌, Bool, true, false, List, [], ◌∷◌, ◌++◌, ◌==◌, if◌then◌else◌, get_or, Option, none, some,
}
use slip_stream_plus.Prelude.Maps.{lookup, insert, string_key}
use slip_stream_plus.Tunnel.Protocol.{Bytes, ok, err, read_full}
use slip_stream_plus.Users.{
  User, Refusal, Manager, has_users, authenticate, check_connect, mark_connect, mark_disconnect,
}

-- What the handler wrote, and, if it goes on, what it read and the reader behind that.
pub record Answer {ℓ} (A : Type ℓ) : Type ℓ where
  pub wrote : Bytes
  pub next : Option (A × Bytes)

abbrev pub refuse {ℓ} : {A : Type ℓ} → Bytes → Answer A
refuse bs = record { wrote = bs; next = none }

abbrev pub accept {ℓ} : {A : Type ℓ} → Bytes → A → Bytes → Answer A
accept bs x rest = record { wrote = bs; next = some (x, rest) }

unfoldable pub reads {ℓ} : {A : Type ℓ} → ℕ → Bytes → (Bytes → Bytes → Answer A) → Answer A
reads n input k = elim (read_full n input) [ err _ ↦ refuse [] | ok (got, rest) ↦ k got rest ]

unfoldable pub and_then {ℓ κ} :
    {A : Type ℓ} {B : Type κ} → Answer A → (A → Bytes → Answer B) → Answer B
and_then a k = elim a.next [
  | none ↦ refuse a.wrote
  | some (x, rest) ↦ let b = k x rest in record { wrote = a.wrote ++ b.wrote; next = b.next }
]

pub record Target : Type 0 where
  pub atyp : ℕ
  pub addr : Bytes
  pub port : Bytes

abbrev pub reply : ℕ → Bytes
reply status = 0x05 ∷ status ∷ 0x00 ∷ 0x01 ∷ 0 ∷ 0 ∷ 0 ∷ 0 ∷ 0 ∷ 0 ∷ []

-- The loop that looks for method 0x02.
unfoldable pub finds_method : Bytes → Bool
finds_method [] = false
finds_method (m ∷ methods) = if m == 0x02 then true else finds_method methods

unfoldable pub choose : Bool → Bytes → Bytes → Answer Bytes
unfolding finds_method
choose require_auth methods rest =
    if require_auth
    then (if finds_method methods
        then accept (0x05 ∷ 0x02 ∷ []) methods rest
        else refuse (0x05 ∷ 0xFF ∷ []))
    else accept (0x05 ∷ 0x00 ∷ []) methods rest

unfoldable pub greeting : Bool → Bytes → Answer Bytes
greeting require_auth input = reads 2 input (λ buf rest.
    if get_or buf 0 0 == 0x05 then reads (get_or buf 1 0) rest (choose require_auth) else refuse [])

-- RFC 1929: the user's name and the password.
unfoldable pub credentials : Bytes → Answer (Bytes × Bytes)
credentials input = reads 2 input (λ buf r1. reads (get_or buf 1 0) r1 (λ username r2.
    reads 1 r2
      (λ len r3. reads (get_or len 0 0) r3 (λ password r4. accept [] (username, password) r4))))

unfoldable pub with_port : ℕ → Bytes → Bytes → Answer Target
with_port atyp addr input =
    reads 2 input (λ port rest. accept [] (record { atyp = atyp; addr = addr; port = port }) rest)

unfoldable pub socks_address : ℕ → Bytes → Answer Target
socks_address atyp input =
    if atyp == 0x01
    then reads 4 input (with_port atyp)
    else if atyp == 0x03
    then reads 1 input (λ len r1.
      reads (get_or len 0 0) r1 (λ domain r2. with_port atyp (get_or len 0 0 ∷ domain) r2))
    else if atyp == 0x04
    then reads 16 input (with_port atyp)
    else refuse (reply 0x08)

-- The CONNECT request.
unfoldable pub request : Bytes → Answer Target
request input = reads 4 input (λ buf rest.
    if get_or buf 1 0 == 0x01 then socks_address (get_or buf 3 0) rest else refuse (reply 0x07))

-- A handler that has read the request or has given up; `marked` is the user that `MarkConnect` counts.
pub record Session : Type 0 where
  pub answer : Answer Target
  pub users : Manager
  pub marked : Option String

-- `user` is a pointer into the manager's map.
unfoldable pub put_user : String → User → Manager → Manager
put_user name u m = record m { users = insert name u m.users }

-- What `CheckConnect` finds, and the user as it leaves it.
unfoldable pub admit : String → Manager → String → Bytes → Option Refusal → User → Session
unfolding put_user
admit ip m username input (some reason) u = record {
  answer = refuse (0x01 ∷ 0x00 ∷ reply 0x02);
  users = put_user username u m;
  marked = none;
}
admit ip m username input none u =
    let a = request input in
    record {
      answer = record { wrote = 0x01 ∷ 0x00 ∷ a.wrote; next = a.next };
      users = put_user username (mark_connect ip u) m;
      marked = some username;
    }

-- What `Authenticate` finds.
unfoldable pub login : String → ℕ → Manager → String → Bytes → Option User → Session
unfolding admit
login ip now m username input none = record {
  answer = refuse (0x01 ∷ 0x01 ∷ []);
  users = m;
  marked = none;
}
login ip now m username input (some u) =
    let c = check_connect ip now u in admit ip m username input (c.0) (c.1)

-- The greeting and the credentials that a user sent.
unfoldable pub member : (Bytes → String) → String → ℕ → Manager → Answer (Bytes × Bytes) → Session
unfolding login
member text ip now m sent = elim sent.next [
  | none ↦ record { answer = refuse sent.wrote; users = m; marked = none }
  | some ((username, password), rest) ↦
      let s =
        login ip now m (text username) rest (authenticate (text username) (text password) m) in
      record s { answer = record { wrote = sent.wrote ++ s.answer.wrote; next = s.answer.next } }
]

-- `handleConnection` up to the routing. A missing manager is one without users.
unfoldable pub open_session : (Bytes → String) → String → ℕ → Manager → Bytes → Session
unfolding member
open_session text ip now m input =
    let hello = greeting (has_users m) input in
    if has_users m
    then member text ip now m (and_then hello (λ _ rest. credentials rest))
    else record { answer = and_then hello (λ _ rest. request rest); users = m; marked = none }

-- The deferred `MarkDisconnect`.
unfoldable pub leave : String → ℕ → Option String → Manager → Manager
unfolding put_user
leave ip now none m = m
leave ip now (some name) m = elim (lookup name m.users) [
  | none ↦ m
  | some u ↦ put_user name (mark_disconnect ip now u) m
]

-- `handleConnection`; `route` is `handlePacketSplit` or `handleConnectionLevel`, with the reader behind
-- the request, and `later` the time at the end.
unfoldable pub handle_connection :
    (Bytes → String)
    → (Target → Option String → Bytes → Manager → Bytes × Manager)
    → String
    → ℕ
    → ℕ
    → Manager
    → Bytes
    → Bytes × Manager
unfolding open_session leave
handle_connection text route ip now later m input =
    let s = open_session text ip now m input in
    (elim s.answer.next [
      | none ↦ (s.answer.wrote, leave ip later s.marked s.users)
      | some (target, rest) ↦
          let out = route target s.marked rest s.users in
          (s.answer.wrote ++ out.0, leave ip later s.marked (out.1))
    ])
