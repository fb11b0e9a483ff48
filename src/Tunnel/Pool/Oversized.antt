-- ===== src/Tunnel/Pool/Oversized.antt =====
-- internal/tunnel/pool.go: SendFrame with a frame that is too large for WriteFrame.
use slip_stream_plus.Prelude.{
  ℕ, zero, suc, ◌+◌, ◌-◌, ◌%◌, ◌^◌, ◌<◌, ◌≡◌, refl, sym, ap, ◌∙◌, Bool, true, false, List, ◌==◌,
  ==_iff, length, get_elem?, set, length-set, get_elem?-set_ne, get_elem?-set_self, ◌⊎◌, none, some,
  arith, dec_lt, Bool-cases, inl, inr,
}
use native.Mathlib.Nat.{mod-lt, mod-eq_of_lt, add-mod_right}
use slip_stream_plus.Prelude.Maps.{eqb_refl, lookup, nat_key}
use slip_stream_plus.Prelude.Maps.Laws.{lookup-insert}
use slip_stream_plus.Tunnel.Protocol.{Frame, frame_bytes, max_payload_size}
use slip_stream_plus.Tunnel.Pool.{TunnelConn, TunnelPool, close, write_frame, send_loop, send_frame}
use slip_stream_plus.Tunnel.Pool.Failover.{
  get_elem?-some, send_loop_round, send_frame_lem, turn_left,
}

write_frame_oversized :
    (accepts : ℕ → Bool) (now : ℕ) (f : Frame) (tc : TunnelConn)
    → max_payload_size < length f.payload
    → (write_frame accepts now f tc).0 ≡ false
unfolding write_frame frame_bytes
write_frame_oversized accepts now f tc h = ground (arith, h)

-- The connection at a place is closed.
abbrev pub IsClosedAt : ℕ → List TunnelConn → Type 0
IsClosedAt k conns = (tc : TunnelConn) × (get_elem? conns k ≡ some tc) × (tc.closed ≡ true)

close_other :
    (conns : List TunnelConn) (at k : ℕ) (x : TunnelConn)
    → at < length conns
    → IsClosedAt k conns
    → IsClosedAt k (set conns at (close x))
unfolding close
close_other conns at k x h (tc, e, c) = elim (Bool-cases (at == k)) [
  | inl its ↦ (
    close x,
    ap (λ i. get_elem? (set conns at (close x)) i) (sym ((==_iff at k).0 its))
        ∙ get_elem?-set_self conns at (close x) h,
    refl,
  )
  | inr other ↦ (tc, get_elem?-set_ne conns (close x) (ground (arith, other)) ∙ e, c)
]

module _ (accepts : ℕ → Bool) (now : ℕ) (f : Frame)
    (large : max_payload_size < length f.payload) where
  -- A place is closed already, or its turn is to come.
  send_loop_closes :
      (rounds start i k : ℕ) (conns : List TunnelConn)
      → k < length conns
      → IsClosedAt k conns ⊎ ((j : ℕ) × (j < rounds) × ((start + i + j) % length conns ≡ k))
      → ((send_loop accepts now f rounds start i conns).0 ≡ none)
        × IsClosedAt k (send_loop accepts now f rounds start i conns).1
  unfolding send_loop
  send_loop_closes zero start i k conns h (inl c) = (refl, c)
  send_loop_closes zero start i k conns h (inr (j, l, m)) = absurd (omega (arith, l))
  send_loop_closes (suc rounds) start i k conns h due =
      let at = (start + i) % length conns in
      let low : at < length conns = mod-lt (start + i) (omega (arith, h)) in
      let (x, there) = get_elem?-some conns at low in
      let n = length-set conns at (close x) in
      rw
        (
          send_loop_round accepts now f rounds start i conns x there,
          write_frame_oversized accepts now f x large,
        )
        (send_loop_closes rounds start (i + 1) k (set conns at (close x)) (omega (arith, h, n))
          (elim due [
            | inl c ↦ inl (close_other conns at k x low c)
            | inr (j, l, m) ↦ (elim (Bool-cases (at == k)) [
              | inl its ↦ inl (
                close x,
                ap (λ i. get_elem? (set conns at (close x)) i) (sym ((==_iff at k).0 its))
                    ∙ get_elem?-set_self conns at (close x) low,
                unfold close in refl,
              )
              | inr other ↦
                  let (j', e', m') =
                    turn_left start i j k (length conns) m (ground (arith, other)) in
                  inr (j', omega (arith, l, e'), ap (λ c. (start + (i + 1) + j') % c) n ∙ m')
            ])
          ]))

  -- The round in which a place has its turn.
  turn : (start k n : ℕ) → start < n → k < n → (j : ℕ) × (j < n) × ((start + 0 + j) % n ≡ k)
  turn start k n low inside = elim (dec_lt k start) [
    | yes before ↦ (
      k + n - start,
      omega (arith, low, before),
      ap (λ a. a % n) (omega (arith, low)) ∙ add-mod_right k n ∙ mod-eq_of_lt inside,
    )
    | no behind ↦ (
      k - start,
      omega (arith, inside),
      ap (λ a. a % n) (omega (arith, behind)) ∙ mod-eq_of_lt inside,
    )
  ]

  -- A frame with more payload than MaxPayloadSize gets through to no instance, and SendFrame closes every one of the
  -- instance's connections over it, working ones too, wherever the round robin stands below 2 ^ 63.
  pub send_frame-IsClosedAt :
      (id k : ℕ) (p : TunnelPool) (conns : List TunnelConn)
      → lookup id p.conns ≡ some conns
      → k < length conns
      → p.round_robin + 1 < 2 ^ 63
      → let out = send_frame accepts now id f p in
        (out.0 ≡ none)
        × ((left : List TunnelConn) × (lookup id (out.1).conns ≡ some left) × IsClosedAt k left)
  send_frame-IsClosedAt id k p conns e h small =
      let n = length conns in
      let start = (p.round_robin + 1) % 2 ^ 64 % n in
      let closes =
        send_loop_closes n start 0 k conns h
          (inr (turn start k n (mod-lt ((p.round_robin + 1) % 2 ^ 64) (omega (arith, h))) h)) in
      rw (send_frame_lem accepts now id f p conns e (omega (arith, h)) small)
        (closes.0, (_, rw (lookup-insert) (rw (eqb_refl id) refl), closes.1))
