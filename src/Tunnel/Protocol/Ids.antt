-- ===== src/Tunnel/Protocol/Ids.antt =====
-- Connection numbers: `NewConnIDGenerator` and `Next`.
use Prim.Native.Nat.{bit_and, bit_and-bitwise, digits}
use slip_stream_plus.Prelude.{
  ℕ, zero, suc, ◌+◌, ◌-◌, ◌/◌, ◌%◌, ◌^◌, ◌<◌, ◌≤◌, ◌≡◌, ◌≢◌, Option, none, some, arith, min,
}
use slip_stream_plus.Tunnel.Protocol.{Bytes, u32_mod, uint32, new_conn_id_generator, next_id}

digits-le : (n a b : ℕ) → digits (λ b. zero) min n a b ≤ b
digits-le zero a b = omega arith
digits-le (suc n) zero b = omega arith
digits-le (suc n) (suc a) b = omega (arith, digits-le n (suc a / 2) (b / 2))

bit_and-le : (a b : ℕ) → bit_and a b ≤ b
bit_and-le a b = omega (arith, bit_and-bitwise a b, digits-le a a b)

-- The counter after `n` calls of `Next`; the last of them returned it.
unfoldable pub nth_id : ℕ → ℕ → ℕ
nth_id counter zero = counter
nth_id counter (suc n) = next_id (nth_id counter n)

nth_id_closed : (c n : ℕ) → c < u32_mod → nth_id c n ≡ (c + n) % u32_mod
unfolding nth_id next_id
nth_id_closed c zero h = omega arith
nth_id_closed c (suc n) h = omega (arith, nth_id_closed c n h)

start-le : (buf : Option Bytes) → new_conn_id_generator buf ≤ 0x7FFFFFFF
unfolding new_conn_id_generator
start-le none = omega arith
start-le (some buf) = ground (arith, bit_and-le (uint32 buf 0) 0x7FFFFFFF)

-- Whatever the random bytes, and also without them, the first 2 ^ 31 numbers of a generator are
-- different from one another and from 0, which is reserved for keepalives.
pub nth_id_fresh :
    (buf : Option Bytes) (m n : ℕ)
    → 1 ≤ m
    → m < n
    → n ≤ 2 ^ 31
    → let c = new_conn_id_generator buf in
      (nth_id c m ≢ nth_id c n) × (nth_id c m ≢ 0) × (nth_id c n ≢ 0)
nth_id_fresh buf m n one lt top =
    let c = new_conn_id_generator buf in
    let lo = start-le buf in omega (arith, nth_id_closed c m, nth_id_closed c n)

-- The numbers wrap: the generator that starts at `c` returns the reserved 0 at its call number
-- 2 ^ 32 - c, whatever `c` is.
pub nth_id_wraps : (c : ℕ) → c < u32_mod → nth_id c (u32_mod - c) ≡ 0
nth_id_wraps c h = omega (arith, nth_id_closed c (u32_mod - c) h)
