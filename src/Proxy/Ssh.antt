-- ===== src/Proxy/Ssh.antt =====
-- internal/proxy/ssh.go: the proxy over SSH. The SSH library is a parameter: `alive` is its keepalive, and `connect`
-- the connection that an instance makes, if it can be made.
pub mod Session
use slip_stream_plus.Prelude.{
  ℕ, ◌≡◌, refl, sym, ap, Bool, List, [], ◌∷◌, ◌==◌, ==_iff, if◌then◌else◌, get_or, drop, length,
  Option, none, some, Bool-cases, Option-cases, inl, inr,
}
use slip_stream_plus.Prelude.Maps.{Map, lookup, insert, delete, nat_key}
use slip_stream_plus.Tunnel.Protocol.{Bytes, ok, err, read_full}
use slip_stream_plus.Engine.Instance.{Instance, socks, ssh, incr_conns, decr_conns, add_tx, add_rx}
use slip_stream_plus.Engine.Manager.{healthy_instances}
use slip_stream_plus.Users.{User}
use slip_stream_plus.Proxy.{
  Answer, refuse, accept, reads, Target, reply, with_port, socks_address, request,
}
use slip_stream_plus.Proxy.Relay.{Moved, update, relayed, relay_user}
use slip_stream_plus.Proxy.Counts.{counts, AreCounts, begin_end, update-IsQuiet}

-- A domain is read without the byte of its length; `addr` is what `targetAddr` is made of.
unfoldable pub ssh_address : ℕ → Bytes → Answer Target
unfolding with_port
ssh_address atyp input =
    if atyp == 0x01
    then reads 4 input (with_port atyp)
    else if atyp == 0x03
    then reads 1 input (λ len r1. reads (get_or len 0 0) r1 (with_port atyp))
    else if atyp == 0x04
    then reads 16 input (with_port atyp)
    else refuse (reply 0x08)

unfoldable pub ssh_request : Bytes → Answer Target
unfolding ssh_address
ssh_request input = reads 4 input (λ buf rest.
    if get_or buf 1 0 == 0x01 then ssh_address (get_or buf 3 0) rest else refuse (reply 0x07))

unfoldable pub ssh_only : List Instance → List Instance
ssh_only [] = []
ssh_only (i ∷ rest) = let more = ssh_only rest in elim i.mode [ ssh ↦ i ∷ more | socks ↦ more ]

-- A new client, which is kept.
unfoldable pub new_client : Option ℕ → ℕ → Map ℕ ℕ → Option ℕ × Map ℕ ℕ
new_client none id clients = (none, clients)
new_client (some c) id clients = (some c, insert id c clients)

-- `getSSHClient`: the client that is kept for the instance while it answers, and else a new one.
unfoldable pub get_ssh_client : (ℕ → Bool) → (ℕ → Option ℕ) → ℕ → Map ℕ ℕ → Option ℕ × Map ℕ ℕ
unfolding new_client
get_ssh_client alive connect id clients = elim (lookup id clients) [
  | none ↦ new_client (connect id) id clients
  | some c ↦ if alive c then (some c, clients) else new_client (connect id) id (delete id clients)
]

-- The rest of `handleConnection`, behind the request: the reply, the instances, the user and the clients.
-- `dial` tells whether a client reaches the target.
unfoldable pub handle_ssh :
    (List Instance → Option Instance)
    → (ℕ → Bool)
    → (ℕ → Option ℕ)
    → (ℕ → Bool)
    → List Moved
    → List Instance
    → Option User
    → Map ℕ ℕ
    → Bytes × List Instance × Option User × Map ℕ ℕ
handle_ssh pick alive connect dial moved instances user clients =
    if length (ssh_only (healthy_instances instances)) == 0
    then (reply 0x01, instances, user, clients)
    else (elim (pick (ssh_only (healthy_instances instances))) [
      | none ↦ (reply 0x01, instances, user, clients)
      | some i ↦
          let c = get_ssh_client alive connect i.id clients in
          (elim (c.0) [
            | none ↦ (reply 0x01, instances, user, c.1)
            | some client ↦
                if dial client
                then (
                  reply 0x00,
                  update i.id decr_conns
                      (update i.id (relayed moved) (update i.id incr_conns instances)),
                  elim user [ none ↦ none | some u ↦ some (relay_user moved u) ],
                  c.1,
                )
                else (reply 0x05, instances, user, c.1)
          ])
    ])

-- What the two proxies differ in: the address of a domain.
abbrev pub host : Target → Target
host t = record t { addr = if t.atyp == 0x03 then drop 1 t.addr else t.addr }

abbrev pub hosted : Answer Target → Answer Target
hosted a = record a {
  next = elim a.next as (λ _. Option (Target × Bytes)) [
    | none ↦ none
    | some (t, rest) ↦ some (host t, rest)
  ];
}

reads-hosted :
    (n : ℕ) (input : Bytes) (j k : Bytes → Bytes → Answer Target)
    → ((got rest : Bytes) → j got rest ≡ hosted (k got rest))
    → reads n input j ≡ hosted (reads n input k)
unfolding reads
reads-hosted n input j k same =
    elim (read_full n input)
      as (λ r.
        (elim r as (λ _. Answer Target) [ err _ ↦ refuse [] | ok (got, rest) ↦ j got rest ])
        ≡ hosted
            (elim r as (λ _. Answer Target) [ err _ ↦ refuse [] | ok (got, rest) ↦ k got rest ])) [
              | err _ ↦ refl
              | ok (got, rest) ↦ same got rest
            ]

with_port-hosted :
    (atyp : ℕ) (addr short input : Bytes)
    → (if atyp == 0x03 then drop 1 addr else addr) ≡ short
    → with_port atyp short input ≡ hosted (with_port atyp addr input)
unfolding with_port
with_port-hosted atyp addr short input e =
    reads-hosted 2 input _ _ (λ port rest.
      ap (λ a. accept [] (record { atyp = atyp; addr = a; port = port }) rest) (sym e))

ssh_address-socks_address :
    (atyp : ℕ) (input : Bytes) → ssh_address atyp input ≡ hosted (socks_address atyp input)
unfolding ssh_address socks_address
ssh_address-socks_address atyp input = elim (Bool-cases (atyp == 0x03)) [
  | inl named ↦ rw ((==_iff atyp 0x03).0 named) (
      reads-hosted 1 input _ _ (λ len r1.
        reads-hosted (get_or len 0 0) r1 _ _
          (λ domain r2. with_port-hosted 0x03 (get_or len 0 0 ∷ domain) domain r2 refl)))
  | inr other ↦
      let fixed : (n : ℕ)
          → reads n input (with_port atyp) ≡ hosted (reads n input (with_port atyp)) =
        λ n. reads-hosted n input (with_port atyp) (with_port atyp) (λ addr rest.
          with_port-hosted atyp addr addr rest (ap (λ b. if b then drop 1 addr else addr) other)) in
      (elim (Bool-cases (atyp == 0x01)) [
        | inl v4 ↦ rw (ssh_address, socks_address, v4) (fixed 4)
        | inr not4 ↦ (elim (Bool-cases (atyp == 0x04)) [
          | inl v6 ↦ rw (ssh_address, socks_address, not4, other, v6) (fixed 16)
          | inr not6 ↦ rw (ssh_address, socks_address, not4, other, not6) refl
        ])
      ])
]

-- The two proxies read the same requests, with the same replies and the same data behind them; of a domain, the SSH
-- proxy keeps the name and the other one its length as well.
pub ssh_request-request : (input : Bytes) → ssh_request input ≡ hosted (request input)
unfolding ssh_request request
ssh_request-request input = reads-hosted 4 input _ _ (λ buf rest.
    elim (Bool-cases (get_or buf 1 0 == 0x01)) [
      | inl connect ↦ rw (connect) (ssh_address-socks_address (get_or buf 3 0) rest)
      | inr other ↦ rw (other) refl
    ])

-- The SSH proxy, too, leaves the instances' counts of connections as they were.
handle_ssh-counts :
    (pick : List Instance → Option Instance) (alive : ℕ → Bool) (connect : ℕ → Option ℕ)
    (dial : ℕ → Bool) (moved : List Moved) (is : List Instance) (user : Option User)
    (clients : Map ℕ ℕ)
    → AreCounts is
    → counts ((handle_ssh pick alive connect dial moved is user clients).1) ≡ counts is
unfolding handle_ssh
handle_ssh-counts pick alive connect dial moved is user clients v =
    elim (Bool-cases (length (ssh_only (healthy_instances is)) == 0)) [
      | inl empty ↦ rw (empty) refl
      | inr healthy ↦ (elim (Option-cases (pick (ssh_only (healthy_instances is)))) [
        | inl nobody ↦ rw (healthy, nobody) refl
        | inr (i, picked) ↦ (elim (Option-cases ((get_ssh_client alive connect i.id clients).0)) [
          | inl gone ↦ rw (healthy, picked, gone) refl
          | inr (client, there) ↦ (elim (Bool-cases (dial client)) [
            | inr refused ↦ rw (healthy, picked, there, refused) refl
            | inl reached ↦
                rw (healthy, picked, there, reached)
                  (begin_end i.id is _ v (
                    update-IsQuiet i.id (relayed moved) _
                      (λ j. unfold relayed in unfold add_tx in unfold add_rx in refl)))
          ])
        ])
      ])
    ]
