-- ===== src/Proxy/Accounting.antt =====
-- internal/proxy/relay.go: what a connection leaves in the counts of the instances and of the user.
use slip_stream_plus.Prelude.{
  ℕ, ◌+◌, ◌*◌, ◌^◌, ◌<◌, ◌≡◌, ap, ◌∙◌, List, [], ◌∷◌, if◌then◌else◌, arith, Bool-cases, inl, inr,
}
use slip_stream_plus.Prelude.Int.{ℤ, pos, ◌+ℤ◌, wrap64}
use slip_stream_plus.Users.{User, add_used_bytes, needs_rate_limit}
use slip_stream_plus.Users.Writer.{note_used, note_used_lem, add_pos}
use slip_stream_plus.Proxy.Relay.{
  Moved, up, down, tx_of, rx_of, charge, wrapped, relay_user, split_user,
}

charge_lem :
    (moved : List Moved) (u : User) (k : ℕ)
    → u.used_bytes ≡ pos k
    → k + (tx_of moved + rx_of moved) < 2 ^ 63
    → (charge moved u).used_bytes ≡ pos (k + (tx_of moved + rx_of moved))
unfolding charge tx_of rx_of
charge_lem [] u k e h = e ∙ ap pos (omega arith)
charge_lem (up n ∷ rest) u k e h =
    charge_lem rest (note_used n u) (k + n) (note_used_lem n k u e (omega arith)) (omega arith)
    ∙ ap pos (omega arith)
charge_lem (down n ∷ rest) u k e h =
    charge_lem rest (note_used n u) (k + n) (note_used_lem n k u e (omega arith)) (omega arith)
    ∙ ap pos (omega arith)

add_used_bytes_lem :
    (n k : ℕ) (u : User)
    → u.used_bytes ≡ pos k
    → k + n < 2 ^ 63
    → (add_used_bytes (pos n) u).used_bytes ≡ pos (k + n)
unfolding add_used_bytes
add_used_bytes_lem n k u e h = ap (λ (z : ℤ). wrap64 (z +ℤ pos n)) e ∙ add_pos k n h

relay_user-used_bytes :
    (moved : List Moved) (u : User) (k : ℕ)
    → u.used_bytes ≡ pos k
    → k + (tx_of moved + rx_of moved) < 2 ^ 63
    → (relay_user moved u).used_bytes ≡ pos (k + (tx_of moved + rx_of moved))
unfolding relay_user wrapped
relay_user-used_bytes moved u k e h = elim (Bool-cases (needs_rate_limit u)) [
  | inl on ↦ rw (on) (charge_lem moved u k e h)
  | inr off ↦ rw (off) (add_used_bytes_lem (tx_of moved + rx_of moved) k u e h)
]

split_user-used_bytes :
    (moved : List Moved) (u : User) (k : ℕ)
    → u.used_bytes ≡ pos k
    → k + 2 * (tx_of moved + rx_of moved) < 2 ^ 63
    → (split_user moved u).used_bytes
      ≡ pos (k + (if needs_rate_limit u then 2 else 1) * (tx_of moved + rx_of moved))
unfolding split_user wrapped
split_user-used_bytes moved u k e h =
    let n = tx_of moved + rx_of moved in
    elim (Bool-cases (needs_rate_limit u)) [
      | inl on ↦ rw (on) (
          add_used_bytes_lem n (k + n) (charge moved u) (charge_lem moved u k e (omega arith))
            (omega arith)
          ∙ ap pos (omega arith))
      | inr off ↦ rw (off) (add_used_bytes_lem n k u e (omega arith) ∙ ap pos (omega arith))
    ]

-- While the counts fit in an int64: a connection that is not split charges its user each byte once, and a split one
-- charges a user without a rate limit once and a user with one twice.
pub charged_bytes :
    (moved : List Moved) (u : User) (k : ℕ)
    → u.used_bytes ≡ pos k
    → k + 2 * (tx_of moved + rx_of moved) < 2 ^ 63
    → ((relay_user moved u).used_bytes ≡ pos (k + (tx_of moved + rx_of moved)))
      × ((split_user moved u).used_bytes
          ≡ pos (k + (if needs_rate_limit u then 2 else 1) * (tx_of moved + rx_of moved)))
charged_bytes moved u k e h =
    (relay_user-used_bytes moved u k e (omega arith), split_user-used_bytes moved u k e h)
