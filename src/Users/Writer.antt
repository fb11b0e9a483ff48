-- ===== src/Users/Writer.antt =====
-- internal/users/io.go: what a user reads and writes is counted, and a limited user writes in
-- chunks. The connection is a parameter: `write` is its Write, with what it keeps, how many bytes it
-- took and whether it failed. The limiter only makes a chunk wait, so its time is not modelled.
use slip_stream_plus.Prelude.{
  ◌⊎◌, ℕ, zero, suc, ◌+◌, ◌^◌, ◌≤◌, ◌<◌, ◌≡◌, refl, sym, ap, ◌∙◌, Bool, true, false, [], ◌∷◌, ◌++◌,
  ltb, if◌then◌else◌, length, Option, none, some, take, drop, arith, lt→ltb, Bool-cases, inl, inr,
  length-take, length-drop,
}
use mathlib.Core.List.{append-nil, append_assoc}
use slip_stream_plus.Prelude.Int.{ℤ, pos, ◌+ℤ◌, wrap64, wrap64_lem}
use slip_stream_plus.Tunnel.Protocol.{Bytes}
use slip_stream_plus.Users.{User, add_used_bytes}

-- `AddUsedBytes` behind `if n > 0`.
unfoldable pub note_used : ℕ → User → User
unfolding add_used_bytes
note_used n u = if ltb 0 n then add_used_bytes (pos n) u else u

-- How much `rateLimitedReader` asks for.
unfoldable pub read_size : ℕ → ℕ → ℕ
read_size burst want = if ltb 0 burst then (if ltb burst want then burst else want) else want

pub add_pos : (m n : ℕ) → m + n < 2 ^ 63 → wrap64 (pos m +ℤ pos n) ≡ pos (m + n)
unfolding ◌+ℤ◌
add_pos m n h =
    let sum : pos m +ℤ pos n ≡ pos (m + n) = ground arith in
    ap wrap64 sum ∙ wrap64_lem (pos (m + n)) (h, omega arith)

pub note_used_lem :
    (n m : ℕ) (u : User)
    → u.used_bytes ≡ pos m
    → m + n < 2 ^ 63
    → (note_used n u).used_bytes ≡ pos (m + n)
unfolding note_used add_used_bytes
note_used_lem zero m u e h = e ∙ ap pos (omega arith)
note_used_lem (suc n) m u e h =
    let test : ltb 0 (suc n) ≡ true = lt→ltb _ _ (omega arith) in
    ap (λ (b : Bool). (if b then add_used_bytes (pos (suc n)) u else u).used_bytes) test
    ∙ ap (λ (k : ℤ). wrap64 (k +ℤ pos (suc n))) e
    ∙ add_pos m (suc n) h

read_size_pos : (burst n : ℕ) → (1 ≤ read_size burst (suc n)) × (read_size burst (suc n) ≤ suc n)
unfolding read_size
read_size_pos burst n = (ground arith, ground arith)

take-take : (n k : ℕ) (p : Bytes) → n ≤ k → take n (take k p) ≡ take n p
take-take zero k p h = refl
take-take (suc n) zero p h = absurd (omega (arith, h))
take-take (suc n) (suc k) [] h = refl
take-take (suc n) (suc k) (b ∷ p) h = ap (λ q. b ∷ q) (take-take n k p (omega (arith, h)))

take-add : (n k t : ℕ) (p : Bytes) → t ≡ n + k → take n p ++ take k (drop n p) ≡ take t p
take-add zero k t p e = ap (λ i. take i p) (omega (arith, e))
take-add (suc n) k zero p e = absurd (omega (arith, e))
take-add (suc n) zero (suc t) [] e = refl
take-add (suc n) (suc k) (suc t) [] e = refl
take-add (suc n) k (suc t) (b ∷ p) e = ap (λ q. b ∷ q) (take-add n k t p (omega (arith, e)))

module _ {S : Type 0} (write : S → Bytes → S × ℕ × Bool) where
  -- `trackingWriter.Write`
  unfoldable pub tracking_write : S → User → Bytes → S × User × ℕ × Bool
  unfolding note_used
  tracking_write s u p = let w = write s p in (w.0, note_used (w.1) u, w.1, w.2)

  -- `rateLimitedWriter.Write`, behind `total` bytes; `none` is that it has not ended in `fuel` rounds.
  unfoldable pub limited_write : ℕ → ℕ → S → User → ℕ → Bytes → Option (S × User × ℕ × Bool)
  unfolding note_used read_size
  limited_write zero burst s u total p = none
  limited_write (suc fuel) burst s u total [] = some (s, u, total, false)
  limited_write (suc fuel) burst s u total (b ∷ rest) =
      let chunk = read_size burst (length (b ∷ rest)) in
      let w = write s (take chunk (b ∷ rest)) in
      let n = w.1 in
      let u' = note_used n u in
      let more = limited_write fuel burst (w.0) u' (total + n) (drop n (b ∷ rest)) in
      if w.2 then some (w.0, u', total + n, true) else more

  -- A connection keeps what it has taken (`taken`), and one that takes less than it is given fails.
  abbrev pub IsWriter : (S → Bytes) → Type 0
  IsWriter taken =
      (s : S) (p : Bytes)
      → (taken (write s p).0 ≡ taken s ++ take ((write s p).1) p)
        × ((write s p).1 ≤ length p)
        × ((write s p).2 ≡ false → (write s p).1 ≡ length p)

  -- What comes of writing `p` behind `total` bytes for a user who has used `m`: the first `sent`
  -- bytes of it go out, they are counted and charged, and they are all of it or there is an error.
  pub record Wrote (taken : S → Bytes) (s : S) (m total : ℕ) (p : Bytes) (out : S × User × ℕ × Bool)
      : Type 0 where
    pub sent : ℕ
    pub at_most : sent ≤ length p
    pub counted : out.2 ≡ total + sent
    pub kept : taken (out.0) ≡ taken s ++ take sent p
    pub whole : (out.3 ≡ true) ⊎ (sent ≡ length p)
    pub charged : (out.1).used_bytes ≡ pos (m + sent)

  -- Through a connection that fails where it takes less than it is given, a limited user's write ends
  -- within as many rounds as there are bytes and one. What the connection has taken then is a first part
  -- of the bytes, or all of them if there is no error, and the user, whose count does not overflow, is
  -- charged for exactly these.
  pub limited_write_lem :
      (taken : S → Bytes)
      → IsWriter taken
      → (fuel burst : ℕ) (s : S) (u : User) (m total : ℕ) (p : Bytes) → length p < fuel
      → u.used_bytes ≡ pos m
      → m + length p < 2 ^ 63
      → (out : S × User × ℕ × Bool) × (limited_write fuel burst s u total p ≡ some out)
        × Wrote taken s m total p out
  unfolding limited_write
  limited_write_lem taken w zero burst s u m total p h e l = absurd (omega (arith, h))
  limited_write_lem taken w (suc fuel) burst s u m total [] h e l = (
    (s, u, total, false),
    refl,
    record {
      sent = 0;
      at_most = omega arith;
      counted = omega arith;
      kept = sym (append-nil (taken s));
      whole = inr refl;
      charged = e ∙ ap pos (omega arith);
    },
  )
  limited_write_lem taken w (suc fuel) burst s u m total (b ∷ rest) h e l =
      let p = b ∷ rest in
      let chunk = read_size burst (length p) in
      let (some_bytes, fits) = read_size_pos burst (length rest) in
      let (kept1, most1, whole1) = w s (take chunk p) in
      let n = (write s (take chunk p)).1 in
      let len = length-take chunk p in
      let kept1' =
        kept1 ∙ ap (λ q. taken s ++ q) (take-take n chunk p (omega (arith, most1, len))) in
      let charged1 = note_used_lem n m u e (omega (arith, most1, len, fits, l)) in
      elim (Bool-cases (write s (take chunk p)).2) [
        | inl bad ↦ rw bad (
          _,
          refl,
          record {
            sent = n;
            at_most = omega (arith, most1, len, fits);
            counted = refl;
            kept = kept1';
            whole = inl refl;
            charged = charged1;
          },
        )
        | inr good ↦
            let full = whole1 good in
            let left = length-drop n p in
            let (out, ends, more) =
              limited_write_lem taken w fuel burst (write s (take chunk p)).0 (note_used n u)
                (m + n) (total + n) (drop n p) (omega (arith, h, full, len, fits, some_bytes, left))
                charged1 (omega (arith, l, left, most1, len, fits)) in
            rw good (
              out,
              ends,
              record {
                sent = n + more.sent;
                at_most = omega (arith, more.at_most, left, most1, len, fits);
                counted = omega (arith, more.counted);
                kept =
                    more.kept
                    ∙ ap (λ q. q ++ take more.sent (drop n p)) kept1'
                    ∙ append_assoc (taken s) (take n p) (take more.sent (drop n p))
                    ∙ ap (λ q. taken s ++ q) (take-add n more.sent (n + more.sent) p refl);
                whole = elim more.whole [
                  | inl failed ↦ inl failed
                  | inr all ↦ inr (omega (arith, all, left, most1, len, fits))
                ];
                charged = more.charged ∙ ap pos (omega arith);
              },
            )
      ]
