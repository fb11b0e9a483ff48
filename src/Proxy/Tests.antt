-- ===== src/Proxy/Tests.antt =====
-- internal/proxy: a guest's session, a user's session, and the connections behind them.
use Prim.Native.String.{String}
use slip_stream_plus.Prelude.{
  ℕ, ap, Bool-cases, ◌+◌, ◌*◌, ◌≡◌, ◌⊎◌, refl, inl, inr, true, false, List, [], ◌∷◌, ◌++◌, ◌==◌,
  if◌then◌else◌, get_or, Option, none, some, arith,
}
use slip_stream_plus.Prelude.Int.{pos, ◌+ℤ◌, wrap64}
use slip_stream_plus.Prelude.Maps.{lookup, eqb, string_key, nat_key}
use slip_stream_plus.Engine.Instance.{Instance, healthy, socks, ssh}
use slip_stream_plus.Tunnel.Protocol.{Bytes, ok, read_full, encode_syn_payload, decode_syn_payload}
use slip_stream_plus.Users.{
  UserConfig, User, Manager, count, has_users, authenticate, check_connect, mark_connect,
  over_quota, needs_rate_limit,
}
use slip_stream_plus.Central.Upstream.{connect_request, handshake}
use slip_stream_plus.Proxy.{Target, handle_connection, accept, open_session, put_user, finds_method}
use slip_stream_plus.Proxy.Requests.{IsTarget, hello_bytes, credentials_bytes, request_bytes}
use slip_stream_plus.Proxy.Sessions.{open_session-request_bytes, open_session-login}
use slip_stream_plus.Proxy.Guards.{Admitted, connect_bytes, login_bytes, open_session_inv}
use slip_stream_plus.Proxy.Departure.{HasRoom, AreSame, handle_connection-AreSame}
use slip_stream_plus.Proxy.Relay.{
  Moved, up, down, answers, relay_user, split_user, handle_connection_level, handle_packet_split,
  Split, tx_of, rx_of,
}
use slip_stream_plus.Proxy.Accounting.{charged_bytes}
use slip_stream_plus.Proxy.Counts.{counts, handled_counts}
use slip_stream_plus.Proxy.Chain.{open_session-chain}
use slip_stream_plus.Proxy.Ssh.{host}
use slip_stream_plus.Proxy.Ssh.Session.{
  Backend, ssh_route, ssh_handle_connection, ssh_handle_connection-handle_connection,
}
use slip_stream_plus.Proxy.Limit.{start, then_step, admitted, Bounded, Reach-Bounded, admit_conn}

abbrev text : Bytes → String
text bs = if get_or bs 0 0 == 97 then "ann" else "secret"

abbrev target : Target
target = record { atyp = 0x03; addr = 2 ∷ 104 ∷ 105 ∷ []; port = 1 ∷ 187 ∷ [] }

target-IsTarget : IsTarget target
target-IsTarget = (inr (inl (refl, refl, omega arith)), refl)

abbrev guests : Manager
guests = record { users = []; ordering = [] }

guests-has_users : has_users guests ≡ false
unfolding has_users
guests-has_users = refl

abbrev config : UserConfig
config = record {
  username = "ann";
  password = "secret";
  bandwidth_limit = pos 800;
  bandwidth_unit = "kbit";
  data_limit = pos 0;
  data_unit = "mb";
  ip_limit = pos 2;
}

abbrev ann : User
ann = record {
  config = config;
  limiter = some 65536;
  used_bytes = pos 100;
  data_limit = pos 0;
  active_ips = [];
  cooldown_ips = [];
  ip_limit = pos 2;
}

abbrev members : Manager
members = record { users = ("ann", ann) ∷ []; ordering = "ann" ∷ [] }

members-has_users : has_users members ≡ true
unfolding has_users
members-has_users = refl

ann_known : authenticate "ann" "secret" members ≡ some ann
unfolding authenticate lookup
ann_known = refl

ann_allowed : (check_connect "10.0.0.1" 5 ann).0 ≡ none
unfolding check_connect over_quota lookup
ann_allowed = refl

method_found : finds_method (0 ∷ 2 ∷ []) ≡ true
unfolding finds_method
method_found = refl

abbrev logs_in : Bytes
logs_in =
    hello_bytes (0 ∷ 2 ∷ [])
    ++ (credentials_bytes (97 ∷ 110 ∷ []) (115 ∷ []) ++ (request_bytes target ++ (7 ∷ [])))

open_session-login_example : open_session text "10.0.0.1" 5 members logs_in ≡ record {
  answer = accept (0x05 ∷ 0x02 ∷ 0x01 ∷ 0x00 ∷ []) target (7 ∷ []);
  users = put_user "ann" (mark_connect "10.0.0.1" ((check_connect "10.0.0.1" 5 ann).1)) members;
  marked = some "ann";
}
open_session-login_example =
    open_session-login text "10.0.0.1" 5 members (0 ∷ 2 ∷ []) (97 ∷ 110 ∷ []) (115 ∷ []) (7 ∷ [])
      target ann members-has_users method_found ann_known ann_allowed target-IsTarget

logs_in_goes_on :
    (open_session text "10.0.0.1" 5 members logs_in).answer.next ≡ some (target, 7 ∷ [])
logs_in_goes_on =
    rw
      (open_session-login text "10.0.0.1" 5 members (0 ∷ 2 ∷ []) (97 ∷ 110 ∷ []) (115 ∷ []) (7 ∷ [])
        target ann members-has_users method_found ann_known ann_allowed target-IsTarget)
      refl

abbrev sent : Bytes
sent = hello_bytes (0 ∷ []) ++ (request_bytes target ++ (7 ∷ 8 ∷ []))

sent_goes_on : (open_session text "10.0.0.1" 5 guests sent).answer.next ≡ some (target, 7 ∷ 8 ∷ [])
sent_goes_on =
    rw
      (open_session-request_bytes text "10.0.0.1" 5 guests (0 ∷ []) (7 ∷ 8 ∷ []) target
        guests-has_users target-IsTarget)
      refl

open_session_inv_example :
    let s = open_session text "10.0.0.1" 5 members logs_in in
    IsTarget target
    × (((has_users members ≡ false)
          × (s.users ≡ members)
          × (s.marked ≡ none)
          × ((methods : Bytes) × (v r : ℕ) × logs_in
                ≡ hello_bytes methods ++ connect_bytes v r target (7 ∷ [])))
        ⊎ ((has_users members ≡ true)
            × ((methods username password : Bytes) × (w v r : ℕ) × (finds_method methods ≡ true)
                × (logs_in
                    ≡ hello_bytes methods
                      ++ login_bytes w username password (connect_bytes v r target (7 ∷ [])))
                × Admitted text "10.0.0.1" 5 members username password s)))
open_session_inv_example =
    open_session_inv text "10.0.0.1" 5 members logs_in (7 ∷ []) target logs_in_goes_on

open_session-chain_example :
    (decode_syn_payload (encode_syn_payload target.atyp target.addr target.port)
      ≡ ok (target.atyp, target.addr, target.port))
    × (open_session text "10.0.0.2" 6 guests
          (connect_request target.atyp target.addr target.port ++ (9 ∷ []))
        ≡ record {
          answer = accept (0x05 ∷ 0x00 ∷ []) target (9 ∷ []);
          users = guests;
          marked = none;
        })
open_session-chain_example =
    open_session-chain text "10.0.0.1" "10.0.0.2" 5 6 guests guests sent (7 ∷ 8 ∷ []) (9 ∷ [])
      target sent_goes_on guests-has_users

abbrev granted : Bytes
granted = 5 ∷ 0 ∷ 5 ∷ 0 ∷ 0 ∷ 1 ∷ 127 ∷ 0 ∷ 0 ∷ 1 ∷ 31 ∷ 144 ∷ 60 ∷ 61 ∷ []

granted_rest : handshake granted ≡ some (60 ∷ 61 ∷ [])
unfolding handshake read_full
granted_rest = refl

abbrev moved : List Moved
moved = up 30 ∷ down 500 ∷ up 70 ∷ []

charged_bytes_example :
    ((relay_user moved ann).used_bytes ≡ pos (100 + (tx_of moved + rx_of moved)))
    × ((split_user moved ann).used_bytes
        ≡ pos (100 + (if needs_rate_limit ann then 2 else 1) * (tx_of moved + rx_of moved)))
charged_bytes_example =
    charged_bytes moved ann 100 refl (unfold tx_of in unfold rx_of in omega arith)

abbrev instances : List Instance
instances =
    record {
      id = 3;
      mode = socks;
      state = healthy;
      active_conns = pos 4;
      last_ping_ms = pos 50;
      tx_bytes = pos 0;
      rx_bytes = pos 0;
    }
    ∷ []

abbrev first : List Instance → Option Instance
first [] = none
first (i ∷ _) = some i

abbrev split : Split
split = record {
  pool = record {
    conns = (3, record { conn = 52; closed = false; last_read = 0; last_write = 0 } ∷ []) ∷ [];
    handlers = [];
    ready = true;
    round_robin = 0;
    panicked = false;
  };
  counter = 8;
  instances = instances;
  user = some ann;
}

handled_counts_example :
    (counts (
        (handle_connection_level first
          (λ i bs. answers granted)
          moved
          target
          instances
          (some ann)).1)
      ≡ counts instances)
    × (counts (
          ((handle_packet_split (λ n. true) 500 600 (λ p q. (p, q)) moved target split).1
          ).instances)
        ≡ counts instances)
handled_counts_example =
    handled_counts first (λ i bs. answers granted) (λ n. true) 500 600 (λ p q. (p, q)) moved target
      split ((omega arith, omega arith), tt)

one_admitted : admit_conn (pos 1) (pos 0) ≡ some (pos 1)
unfolding admit_conn ◌+ℤ◌ wrap64
one_admitted = refl

Reach-Bounded_example : Bounded 1 (record { active_conns = pos 1; running = 1 })
Reach-Bounded_example =
    Reach-Bounded 1 (omega arith) (then_step start (admitted (pos 1) one_admitted))

some_inj : (u v : User) → some u ≡ some v → u ≡ v
some_inj u v e = ap (λ (o : Option User). elim o [ none ↦ u | some w ↦ w ]) e

members-lookup : (name : String) (u : User) → lookup name members.users ≡ some u → ann ≡ u
unfolding lookup
members-lookup name u e = elim (Bool-cases (eqb "ann" name)) [
  | inl hit ↦ some_inj ann u (rw (lookup, hit) at e)
  | inr miss ↦ absurd (ground (arith, rw (lookup, miss) at e))
]

members-HasRoom : HasRoom members
unfolding lookup count
members-HasRoom name ip u e = rw (← members-lookup name u e) (tt, (0, refl, omega arith))

abbrev sent_by_ann : Bytes
sent_by_ann =
    hello_bytes (0 ∷ 2 ∷ [])
    ++ (credentials_bytes (97 ∷ 110 ∷ []) (115 ∷ []) ++ (request_bytes target ++ (7 ∷ [])))

handle_connection-AreSame_example :
    AreSame members
      ((handle_connection text (λ t who rest n. (rest, n)) "10.0.0.1" 5 900 members sent_by_ann).1)
handle_connection-AreSame_example =
    handle_connection-AreSame "10.0.0.1" 900 members members-HasRoom text
      (λ t who rest n. (rest, n)) 5 sent_by_ann (λ t who rest n name. refl)

-- One SSH instance, a client that can be made, and a target that it reaches.
abbrev ssh_instance : Instance
ssh_instance = record {
  id = 4;
  mode = ssh;
  state = healthy;
  active_conns = pos 0;
  last_ping_ms = pos 50;
  tx_bytes = pos 0;
  rx_bytes = pos 0;
}

abbrev backend : Backend
backend = record {
  pick = first;
  keepalive = λ c. true;
  connect = λ id. some 70;
  dial = λ t c. true;
  moved = moved;
}

ssh_handle_connection-handle_connection_example :
    let out =
      ssh_handle_connection text backend "10.0.0.1" 5 900
        (ssh_instance ∷ [])
        []
        members
        sent_by_ann in
    (out.0, out.2)
    ≡ handle_connection text
        (λ t who rest n.
          let r = ssh_route backend (ssh_instance ∷ []) [] (host t) who n in (r.0, r.2))
        "10.0.0.1"
        5
        900
        members
        sent_by_ann
ssh_handle_connection-handle_connection_example =
    ssh_handle_connection-handle_connection text backend "10.0.0.1" 5 900 (ssh_instance ∷ []) []
      members sent_by_ann
