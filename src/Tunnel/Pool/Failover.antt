-- ===== src/Tunnel/Pool/Failover.antt =====
-- internal/tunnel/pool.go: SendFrame's way from one connection to the next.
use slip_stream_plus.Prelude.{
  ℕ, zero, suc, ◌+◌, ◌-◌, ◌%◌, ◌^◌, ◌<◌, ◌≡◌, ◌≢◌, refl, sym, ap, ◌∙◌, Bool, true, false, List, [],
  ◌∷◌, ◌==◌, if◌then◌else◌, length, get_elem?, set, length-set, get_elem?-set_ne, Option, none,
  some, arith, dec_lt, ltb, lt→ltb, Bool-cases, inl, inr,
}
use native.Mathlib.Nat.{mod-lt, mod-eq_of_lt, add-mod_right}
use slip_stream_plus.Prelude.Maps.{lookup, insert, nat_key}
use slip_stream_plus.Tunnel.Protocol.{Bytes, Frame, ok, frame_bytes}
use slip_stream_plus.Tunnel.Pool.{
  TunnelConn, TunnelPool, close, conns_of, write_frame, send_loop, send_over, send_frame, start_at,
}

-- A connection that would take a frame.
abbrev pub IsWorking : (ℕ → Bool) → TunnelConn → Type 0
IsWorking accepts tc = (tc.closed ≡ false) × (accepts tc.conn ≡ true)

write_frame_works :
    (accepts : ℕ → Bool) (now : ℕ) (f : Frame) (bytes : Bytes) (tc : TunnelConn)
    → frame_bytes f ≡ ok bytes
    → IsWorking accepts tc
    → (write_frame accepts now f tc).0 ≡ true
unfolding write_frame
write_frame_works accepts now f bytes tc e (up, ready) = rw (up, e, ready, write_frame)

pub get_elem?-some {ℓ} :
    {A : Type ℓ} (xs : List A) (i : ℕ) → i < length xs → (x : A) × (get_elem? xs i ≡ some x)
get_elem?-some [] i h = absurd (omega (arith, h))
get_elem?-some (x ∷ xs) zero h = (x, refl)
get_elem?-some (x ∷ xs) (suc i) h = get_elem?-some xs i (omega (arith, h))

pub get_elem?-lt {ℓ} :
    {A : Type ℓ} (xs : List A) (i : ℕ) (x : A) → get_elem? xs i ≡ some x → i < length xs
get_elem?-lt [] i x h = cc
get_elem?-lt (y ∷ xs) zero x h = omega arith
get_elem?-lt (y ∷ xs) (suc i) x h = omega (arith, get_elem?-lt xs i x h)

pub send_loop_round :
    (accepts : ℕ → Bool) (now : ℕ) (f : Frame) (rounds start i : ℕ) (conns : List TunnelConn)
    (tc : TunnelConn)
    → get_elem? conns ((start + i) % length conns) ≡ some tc
    → send_loop accepts now f (suc rounds) start i conns ≡ (
        let w = write_frame accepts now f tc in
        let at = (start + i) % length conns in
        let more = send_loop accepts now f rounds start (i + 1) (set conns at (close tc)) in
        if w.0 then (some tc.conn, set conns at (w.1)) else more)
unfolding send_loop
send_loop_round accepts now f rounds start i conns tc e = rw (e, send_loop)

pub turn_left :
    (start i j k n : ℕ)
    → (start + i + j) % n ≡ k
    → (start + i) % n ≢ k
    → (j' : ℕ) × (j ≡ suc j') × ((start + (i + 1) + j') % n ≡ k)
turn_left start i zero k n m other = absurd (other (ap (λ a. a % n) (omega arith) ∙ m))
turn_left start i (suc j) k n m other = (j, refl, ap (λ a. a % n) (omega arith) ∙ m)

send_loop_works :
    (accepts : ℕ → Bool) (now : ℕ) (f : Frame) (bytes : Bytes) (rounds start i j k : ℕ)
    (conns : List TunnelConn) (tc : TunnelConn)
    → frame_bytes f ≡ ok bytes
    → get_elem? conns k ≡ some tc
    → IsWorking accepts tc
    → j < rounds
    → (start + i + j) % length conns ≡ k
    → (send_loop accepts now f rounds start i conns).0 ≢ none
send_loop_works accepts now f bytes zero start i j k conns tc b e w l m = absurd (omega (arith, l))
send_loop_works accepts now f bytes (suc rounds) start i j k conns tc b e w l m =
    let at = (start + i) % length conns in
    let inside = get_elem?-lt conns k tc e in
    let (x, there) = get_elem?-some conns at (mod-lt (start + i) (omega (arith, inside))) in
    elim (Bool-cases (write_frame accepts now f x).0) [
      | inl good ↦ rw (send_loop_round accepts now f rounds start i conns x there, good) (λ n. cc)
      | inr bad ↦
          let other : at ≢ k = λ same.
            let own : some x ≡ some tc = sym there ∙ ap (get_elem? conns) same ∙ e in
            let works = write_frame_works accepts now f bytes tc b w in
            let y : x ≡ tc = cc in
            true_false (sym works ∙ ap (λ t. (write_frame accepts now f t).0) (sym y) ∙ bad) in
          let (j', e', m') = turn_left start i j k (length conns) m other in
          rw (send_loop_round accepts now f rounds start i conns x there, bad)
            (send_loop_works accepts now f bytes rounds start (i + 1) j' k (set conns at (close x))
              tc b (get_elem?-set_ne conns (close x) other ∙ e) w (omega (arith, l, e'))
              (ap (λ n. (start + (i + 1) + j') % n) (length-set conns at (close x)) ∙ m'))
    ]
  where
    true_false : true ≡ false → ⊥
    true_false h = cc

-- Below 2 ^ 63 the counter is a start within the connections.
pub start_at-some :
    (rr n : ℕ) → rr + 1 < 2 ^ 63 → start_at ((rr + 1) % 2 ^ 64) n ≡ some ((rr + 1) % 2 ^ 64 % n)
unfolding start_at
start_at-some rr n h =
    let low : ltb ((rr + 1) % 2 ^ 64) (2 ^ 63) ≡ true = lt→ltb _ _ (omega arith) in rw (low) refl

pub send_frame_lem :
    (accepts : ℕ → Bool) (now id : ℕ) (f : Frame) (p : TunnelPool) (conns : List TunnelConn)
    → lookup id p.conns ≡ some conns
    → 0 < length conns
    → p.round_robin + 1 < 2 ^ 63
    → let counter = (p.round_robin + 1) % 2 ^ 64 in
      let s = send_loop accepts now f (length conns) (counter % length conns) 0 conns in
      send_frame accepts now id f p
      ≡ (s.0, record p { conns = insert id (s.1) p.conns; round_robin = counter })
unfolding send_frame send_over conns_of
send_frame_lem accepts now id f p conns e h small =
    let some_conns : (length conns == 0) ≡ false = ground arith in
    let found : conns_of id p ≡ conns = rw (e, conns_of) in
    ap (λ cs. send_over accepts now id f cs p) found
    ∙ rw (send_over, some_conns, start_at-some p.round_robin (length conns) small) refl

-- SendFrame gets a frame that fits through to an instance if any one of its connections works, wherever the
-- round robin stands below 2 ^ 63 and whatever becomes of the other connections.
pub send_frame_works :
    (accepts : ℕ → Bool) (now id k : ℕ) (f : Frame) (bytes : Bytes) (p : TunnelPool)
    (conns : List TunnelConn) (tc : TunnelConn)
    → frame_bytes f ≡ ok bytes
    → lookup id p.conns ≡ some conns
    → get_elem? conns k ≡ some tc
    → IsWorking accepts tc
    → p.round_robin + 1 < 2 ^ 63
    → (send_frame accepts now id f p).0 ≢ none
send_frame_works accepts now id k f bytes p conns tc b e there w small =
    let inside = get_elem?-lt conns k tc there in
    let n = length conns in
    let start = (p.round_robin + 1) % 2 ^ 64 % n in
    let low : start < n = mod-lt ((p.round_robin + 1) % 2 ^ 64) (omega (arith, inside)) in
    rw
      (ap (λ (s : Option ℕ × TunnelPool). s.0)
        (send_frame_lem accepts now id f p conns e (omega (arith, inside)) small))
      (elim (dec_lt k start) [
        | yes before ↦
            send_loop_works accepts now f bytes n start 0 (k + n - start) k conns tc b there w
              (omega (arith, low, before))
              (ap (λ a. a % n) (omega (arith, low)) ∙ add-mod_right k n ∙ mod-eq_of_lt inside)
        | no behind ↦
            send_loop_works accepts now f bytes n start 0 (k - start) k conns tc b there w
              (omega (arith, inside))
              (ap (λ a. a % n) (omega (arith, behind)) ∙ mod-eq_of_lt inside)
      ])
