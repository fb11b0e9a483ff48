-- ===== src/Proxy/Inputs.antt =====
-- internal/proxy/socks5.go: what a client has sent, where the handler goes on.
use slip_stream_plus.Prelude.{
  ℕ, ◌+◌, ◌≤◌, ◌≡◌, Bool, refl, sym, ap, ◌∙◌, true, false, [], ◌∷◌, ◌++◌, length, get_or, take,
  drop, leb, ◌==◌, ==_iff, some, arith, if◌then◌else◌, Bool-cases, Option-cases, inl, inr,
  take-append-drop, length-take, leb→le,
}
use slip_stream_plus.Tunnel.Protocol.{Bytes, read_full}
use slip_stream_plus.Proxy.{
  Answer, refuse, reads, greeting, credentials, and_then, Target, reply, with_port, socks_address,
  request, choose, finds_method,
}
use slip_stream_plus.Proxy.Requests.{IsTarget, hello_bytes}

module _ {ℓ} {A : Type ℓ} where
  -- A read that the handler goes on from: what it got, and what is left.
  record Got (n : ℕ) (input : Bytes) (k : Bytes → Bytes → Answer A) (out : A × Bytes) : Type ℓ where
    got : Bytes
    rest : Bytes
    whole : input ≡ got ++ rest
    size : length got ≡ n
    goes_on : (k got rest).next ≡ some out

  reads-Got :
      (n : ℕ) (input : Bytes) (k : Bytes → Bytes → Answer A) (out : A × Bytes)
      → (reads n input k).next ≡ some out
      → Got n input k out
  unfolding reads read_full
  reads-Got n input k out e = elim (Bool-cases (leb n (length input))) [
    | inl fits ↦ record {
      got = take n input;
      rest = drop n input;
      whole = sym (take-append-drop n input);
      size = omega (arith, length-take n input, leb→le n (length input) fits);
      goes_on = rw (reads, read_full, fits) at e;
    }
    | inr short ↦ absurd (ground (arith, e, short))
  ]

with_port_inv :
    (atyp : ℕ) (addr input rest : Bytes) (t : Target)
    → (with_port atyp addr input).next ≡ some (t, rest)
    → (t.atyp ≡ atyp) × (t.addr ≡ addr) × (length t.port ≡ 2) × input ≡ t.port ++ rest
unfolding with_port
with_port_inv atyp addr input rest t e =
    let g = reads-Got 2 input _ (t, rest) e in ground (arith, g.whole, g.size, g.goes_on)

-- An address of a fixed length, and a port.
fixed_inv :
    (n atyp : ℕ) (input rest : Bytes) (t : Target)
    → (reads n input (with_port atyp)).next ≡ some (t, rest)
    → (t.atyp ≡ atyp)
      × (length t.addr ≡ n)
      × (length t.port ≡ 2)
      × input ≡ t.addr ++ (t.port ++ rest)
fixed_inv n atyp input rest t e =
    let g = reads-Got n input (with_port atyp) (t, rest) e in
    let (a, b, c, d) = with_port_inv atyp g.got g.rest rest t g.goes_on in
    (a, ap length b ∙ g.size, c, cc (g.whole, b, d))

one_byte : (xs : Bytes) → length xs ≡ 1 → xs ≡ get_or xs 0 0 ∷ []
one_byte [] e = absurd (omega arith)
one_byte (x ∷ []) e = refl
one_byte (x ∷ y ∷ xs) e = absurd (omega arith)

two_bytes : (xs : Bytes) → length xs ≡ 2 → xs ≡ get_or xs 0 0 ∷ get_or xs 1 0 ∷ []
two_bytes [] e = absurd (omega arith)
two_bytes (x ∷ []) e = absurd (omega arith)
two_bytes (x ∷ y ∷ []) e = refl
two_bytes (x ∷ y ∷ z ∷ xs) e = absurd (omega arith)

-- A domain behind its length, and a port.
domain_inv :
    (atyp : ℕ) (input rest : Bytes) (t : Target)
    → (reads 1 input (λ len r1.
        reads (get_or len 0 0) r1 (λ domain r2. with_port atyp (get_or len 0 0 ∷ domain) r2))).next
      ≡ some (t, rest)
    → (t.atyp ≡ atyp)
      × (length t.addr ≡ 1 + get_or t.addr 0 0)
      × (1 ≤ length t.addr)
      × (length t.port ≡ 2)
      × input ≡ t.addr ++ (t.port ++ rest)
domain_inv atyp input rest t e =
    let g = reads-Got 1 input _ (t, rest) e in
    let h = reads-Got (get_or g.got 0 0) g.rest _ (t, rest) g.goes_on in
    let (a, b, c, d) = with_port_inv atyp (get_or g.got 0 0 ∷ h.got) h.rest rest t h.goes_on in
    let len : length t.addr ≡ 1 + get_or t.addr 0 0 = rw (b) (omega (arith, h.size)) in
    let head : input ≡ get_or g.got 0 0 ∷ g.rest =
      g.whole ∙ ap (λ x. x ++ g.rest) (one_byte g.got g.size) in
    let tail : g.rest ≡ h.got ++ (t.port ++ rest) = h.whole ∙ ap (λ x. h.got ++ x) d in
    (
      a,
      len,
      omega (arith, len),
      c,
      head ∙ ap (λ x. get_or g.got 0 0 ∷ x) tail ∙ ap (λ x. x ++ (t.port ++ rest)) (sym b),
    )

address_inv :
    (atyp : ℕ) (input rest : Bytes) (t : Target)
    → (socks_address atyp input).next ≡ some (t, rest)
    → IsTarget t × (t.atyp ≡ atyp) × input ≡ t.addr ++ (t.port ++ rest)
unfolding socks_address
address_inv atyp input rest t e = elim (Bool-cases (atyp == 0x01)) [
  | inl v4 ↦
      let (a, b, c, d) = fixed_inv 4 atyp input rest t (rw (socks_address, v4) at e) in
      ((inl (a ∙ (==_iff atyp 0x01).0 v4, b), c), a, d)
  | inr not4 ↦ (elim (Bool-cases (atyp == 0x03)) [
    | inl named ↦
        let (a, b, one, c, d) =
          domain_inv atyp input rest t (rw (socks_address, not4, named) at e) in
        ((inr (inl (a ∙ (==_iff atyp 0x03).0 named, b, one)), c), a, d)
    | inr not_named ↦ (elim (Bool-cases (atyp == 0x04)) [
      | inl v6 ↦
          let (a, b, c, d) =
            fixed_inv 16 atyp input rest t (rw (socks_address, not4, not_named, v6) at e) in
          ((inr (inr (a ∙ (==_iff atyp 0x04).0 v6, b)), c), a, d)
      | inr other ↦ absurd (ground (arith, rw (socks_address, not4, not_named, other) at e))
    ])
  ])
]

-- The request that a handler goes on from, and the bytes that it was sent as.
pub request_inv :
    (input rest : Bytes) (t : Target)
    → (request input).next ≡ some (t, rest)
    → IsTarget t × ((v r : ℕ) × input ≡ v ∷ 0x01 ∷ r ∷ t.atyp ∷ (t.addr ++ (t.port ++ rest)))
unfolding request
request_inv input rest t e =
    let g = reads-Got 4 input _ (t, rest) e in go g.got g.rest g.whole g.size g.goes_on
  where
    go :
        (got after : Bytes)
        → input ≡ got ++ after
        → length got ≡ 4
        → (if get_or got 1 0 == 0x01
            then socks_address (get_or got 3 0) after
            else refuse (reply 0x07)).next
          ≡ some (t, rest)
        → IsTarget t × ((v r : ℕ) × input ≡ v ∷ 0x01 ∷ r ∷ t.atyp ∷ (t.addr ++ (t.port ++ rest)))
    go (v ∷ cmd ∷ r ∷ atyp ∷ []) after w n e = elim (Bool-cases (cmd == 0x01)) [
      | inl yes_ ↦
          let (a, b, c) = address_inv atyp after rest t (rw (yes_) at e) in
          (a, (v, r, cc (w, (==_iff cmd 0x01).0 yes_, b, c)))
      | inr no_ ↦ absurd (ground (arith, rw (no_) at e))
    ]
    go _ after w n e = absurd (omega arith)

choose_inv :
    (require_auth : Bool) (got after rest methods : Bytes)
    → (choose require_auth got after).next ≡ some (methods, rest)
    → (got ≡ methods) × (after ≡ rest) × (require_auth ≡ true → finds_method methods ≡ true)
unfolding choose
choose_inv false got after rest methods e = ground (arith, e)
choose_inv true got after rest methods e = elim (Bool-cases (finds_method got)) [
  | inl found ↦
      let same : (got ≡ methods) × (after ≡ rest) = ground (arith, rw (found) at e) in
      (same.0, same.1, λ _. ap finds_method (sym (same.0)) ∙ found)
  | inr missing ↦ absurd (ground (arith, rw (missing) at e))
]

-- The greeting that a handler goes on from, and the bytes that it was sent as.
pub greeting_inv :
    (require_auth : Bool) (input rest methods : Bytes)
    → (greeting require_auth input).next ≡ some (methods, rest)
    → (input ≡ hello_bytes methods ++ rest) × (require_auth ≡ true → finds_method methods ≡ true)
unfolding greeting
greeting_inv require_auth input rest methods e =
    let g = reads-Got 2 input _ (methods, rest) e in go g.got g.rest g.whole g.size g.goes_on
  where
    go :
        (got after : Bytes)
        → input ≡ got ++ after
        → length got ≡ 2
        → (if get_or got 0 0 == 0x05
            then reads (get_or got 1 0) after (choose require_auth)
            else refuse []).next
          ≡ some (methods, rest)
        → (input ≡ hello_bytes methods ++ rest)
          × (require_auth ≡ true → finds_method methods ≡ true)
    go (v ∷ n ∷ []) after w size e = elim (Bool-cases (v == 0x05)) [
      | inl five ↦
          let g = reads-Got n after (choose require_auth) (methods, rest) (rw (five) at e) in
          let (a, b, c) = choose_inv require_auth g.got g.rest rest methods g.goes_on in
          let count : n ≡ length methods = sym g.size ∙ ap length a in
          (cc (w, (==_iff v 0x05).0 five, count, g.whole, a, b), c)
      | inr other ↦ absurd (ground (arith, rw (other) at e))
    ]
    go _ after w size e = absurd (omega arith)

-- The name and the password that a handler goes on from, and the bytes that they were sent as.
pub credentials_inv :
    (input rest username password : Bytes)
    → (credentials input).next ≡ some ((username, password), rest)
    → (v : ℕ) × input ≡ v ∷ length username ∷ (username ++ (length password ∷ (password ++ rest)))
unfolding credentials
credentials_inv input rest username password e =
    let out : (Bytes × Bytes) × Bytes = ((username, password), rest) in
    let g = reads-Got 2 input _ out e in
    let h = reads-Got (get_or g.got 1 0) g.rest _ out g.goes_on in
    let k = reads-Got 1 h.rest _ out h.goes_on in
    let l = reads-Got (get_or k.got 0 0) k.rest _ out k.goes_on in
    let same : (h.got ≡ username) × (l.got ≡ password) × (l.rest ≡ rest) =
      ground (arith, l.goes_on) in
    let after : h.rest ≡ length password ∷ (password ++ rest) =
      k.whole
      ∙ ap (λ x. x ++ k.rest) (one_byte k.got k.size)
      ∙ cc (l.whole, l.size, same.1, same.2) in
    (
      get_or g.got 0 0,
      g.whole
          ∙ ap (λ x. x ++ g.rest) (two_bytes g.got g.size)
          ∙ cc (h.whole, h.size, same.0, after),
    )

pub and_then_next :
    {A B : Type 0} (a : Answer A) (k : A → Bytes → Answer B) (out : B × Bytes)
    → (and_then a k).next ≡ some out
    → (x : A) × (r : Bytes) × (a.next ≡ some (x, r)) × (k x r).next ≡ some out
unfolding and_then
and_then_next a k out e = elim (Option-cases a.next) [
  | inl ends ↦ absurd (ground (arith, rw (and_then, ends) at e))
  | inr ((x, r), goes) ↦ (x, r, goes, rw (and_then, goes) at e)
]
