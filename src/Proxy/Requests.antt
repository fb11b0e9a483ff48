-- ===== src/Proxy/Requests.antt =====
-- internal/proxy/socks5.go: the bytes of a client that keeps to RFC 1928 and 1929.
use slip_stream_plus.Prelude.{ℕ, ◌≡◌, refl, ◌∙◌, inl, inr, Bool, [], ◌∷◌, ◌++◌, length, arith}
use mathlib.Core.List.{append_assoc}
use slip_stream_plus.Tunnel.Protocol.{Bytes}
use slip_stream_plus.Tunnel.Protocol.RoundTrip.{read_full_exact}
use slip_stream_plus.Tunnel.Protocol.Syn.{IsAddr}
use slip_stream_plus.Proxy.{
  Answer, accept, reads, Target, choose, greeting, credentials, with_port, socks_address, request,
}

-- The address has the form that its ATYP announces, and the port two bytes.
abbrev pub IsTarget : Target → Type 0
IsTarget t = IsAddr t.atyp t.addr × length t.port ≡ 2

abbrev pub hello_bytes : Bytes → Bytes
hello_bytes methods = 0x05 ∷ length methods ∷ methods

abbrev pub credentials_bytes : Bytes → Bytes → Bytes
credentials_bytes username password =
    0x01 ∷ length username ∷ (username ++ (length password ∷ password))

abbrev pub request_bytes : Target → Bytes
request_bytes t = 0x05 ∷ 0x01 ∷ 0x00 ∷ t.atyp ∷ (t.addr ++ t.port)

module _ {ℓ} {A : Type ℓ} where
  reads_exact :
      (xs ys : Bytes) (k : Bytes → Bytes → Answer A) → reads (length xs) (xs ++ ys) k ≡ k xs ys
  unfolding reads
  reads_exact xs ys k = rw (reads, read_full_exact xs ys) refl

  pub reads_all :
      (n : ℕ) (xs ys : Bytes) (k : Bytes → Bytes → Answer A)
      → length xs ≡ n
      → reads n (xs ++ ys) k ≡ k xs ys
  reads_all n xs ys k e = rw (← e) (reads_exact xs ys k)

pub greeting_hello :
    (require_auth : Bool) (methods rest : Bytes)
    → greeting require_auth (hello_bytes methods ++ rest) ≡ choose require_auth methods rest
unfolding greeting
greeting_hello require_auth methods rest =
    reads_all 2 (0x05 ∷ length methods ∷ []) (methods ++ rest) _ refl
    ∙ reads_exact methods rest (choose require_auth)

pub credentials_sent :
    (username password rest : Bytes)
    → credentials (credentials_bytes username password ++ rest)
      ≡ accept [] (username, password) rest
unfolding credentials
credentials_sent username password rest =
    rw (append_assoc username (length password ∷ password) rest) (
      reads_all 2 (0x01 ∷ length username ∷ []) (username ++ (length password ∷ (password ++ rest)))
        _ refl
      ∙ reads_exact username (length password ∷ (password ++ rest)) _
      ∙ reads_all 1 (length password ∷ []) (password ++ rest) _ refl
      ∙ reads_exact password rest _)

with_port_sent :
    (atyp : ℕ) (addr port rest : Bytes)
    → length port ≡ 2
    → with_port atyp addr (port ++ rest)
      ≡ accept [] (record { atyp = atyp; addr = addr; port = port }) rest
unfolding with_port
with_port_sent atyp addr port rest e = reads_all 2 port rest _ e

socks_address_sent :
    (atyp : ℕ) (addr port rest : Bytes)
    → IsAddr atyp addr
    → length port ≡ 2
    → socks_address atyp (addr ++ (port ++ rest))
      ≡ accept [] (record { atyp = atyp; addr = addr; port = port }) rest
unfolding socks_address
socks_address_sent atyp addr port rest (inl (e, four)) h =
    rw (e) (reads_all 4 addr (port ++ rest) _ four ∙ with_port_sent 0x01 addr port rest h)
socks_address_sent atyp addr port rest (inr (inr (e, sixteen))) h =
    rw (e) (reads_all 16 addr (port ++ rest) _ sixteen ∙ with_port_sent 0x04 addr port rest h)
socks_address_sent atyp [] port rest (inr (inl (e, len, some_byte))) h = absurd (omega arith)
socks_address_sent atyp (n ∷ domain) port rest (inr (inl (e, len, some_byte))) h = rw (e) (
    reads_all 1 (n ∷ []) (domain ++ (port ++ rest)) _ refl
    ∙ reads_all n domain (port ++ rest) _ (omega arith)
    ∙ with_port_sent 0x03 (n ∷ domain) port rest h)

pub request_sent :
    (t : Target) (rest : Bytes) → IsTarget t → request (request_bytes t ++ rest) ≡ accept [] t rest
unfolding request
request_sent t rest (a, p) = rw (append_assoc t.addr t.port rest) (
    reads_all 4 (0x05 ∷ 0x01 ∷ 0x00 ∷ t.atyp ∷ []) (t.addr ++ (t.port ++ rest)) _ refl
    ∙ socks_address_sent t.atyp t.addr t.port rest a p)
