-- ===== src/Tunnel/Tests.antt =====
-- The theorems on internal/tunnel at concrete inputs.
use slip_stream_plus.Prelude.{
  ℕ, zero, suc, ◌≤◌, ◌<◌, ◌≡◌, ◌≢◌, refl, ◌⊎◌, inl, inr, List, [], ◌∷◌, ◌++◌, none, some, arith,
  get_elem?,
}
use slip_stream_plus.Prelude.Maps.{lookup, nat_key}
use slip_stream_plus.Tunnel.Protocol.{
  Bytes, Frame, u32_mod, ok, frame_bytes, read_frame, read_full, read_after, uint16, read_body,
  frame_of,
}
use slip_stream_plus.Tunnel.Protocol.RoundTrip.{IsFrame, read_frame-frame_bytes}
use slip_stream_plus.Tunnel.Protocol.Inverse.{read_frame_inv}
use slip_stream_plus.Tunnel.Reorder.{Reorderer, new_reorderer_at, next, pending, drain_all}
use slip_stream_plus.Tunnel.Reorder.Steps.{Inv}
use slip_stream_plus.Tunnel.Reorder.Arrivals.{Arrival, Belongs, Sent, receive_all}
use slip_stream_plus.Tunnel.Reorder.Order.{receive_all_in_order}
use slip_stream_plus.Tunnel.Reorder.Gaps.{next-next_progress, drain_all_empty_payload}

abbrev hello : Frame
hello = record { conn_id = 7; seq_num = 300; flags = 0x10; payload = 104 ∷ 105 ∷ [] }

abbrev hello_bytes : Bytes
hello_bytes = 0 ∷ 0 ∷ 0 ∷ 7 ∷ 0 ∷ 0 ∷ 1 ∷ 44 ∷ 0x10 ∷ 0 ∷ 2 ∷ 104 ∷ 105 ∷ []

hello-IsFrame : IsFrame hello
hello-IsFrame = record {
  conn_id_fits = omega arith;
  seq_num_fits = omega arith;
  flags_fits = omega arith;
  payload_fits = omega arith;
}

hello_written : frame_bytes hello ≡ ok hello_bytes
unfolding frame_bytes
hello_written = refl

hello_read : read_frame (hello_bytes ++ (9 ∷ [])) ≡ ok (hello, 9 ∷ [])
unfolding read_frame read_full read_after uint16 read_body frame_of
hello_read = refl

read_frame-frame_bytes_example :
    (bs : Bytes) × (frame_bytes hello ≡ ok bs) × (read_frame (bs ++ (9 ∷ [])) ≡ ok (hello, 9 ∷ []))
read_frame-frame_bytes_example = read_frame-frame_bytes hello (9 ∷ []) hello-IsFrame

read_frame_inv_example :
    IsFrame hello
    × ((bs : Bytes) × (frame_bytes hello ≡ ok bs) × (hello_bytes ++ (9 ∷ []) ≡ bs ++ (9 ∷ [])))
read_frame_inv_example =
    read_frame_inv (hello_bytes ++ (9 ∷ [])) (9 ∷ []) hello
      (
        omega arith,
        (
          omega arith,
          (
            omega arith,
            (
              omega arith,
              (
                omega arith,
                (
                  omega arith,
                  (
                    omega arith,
                    (
                      omega arith,
                      (
                        omega arith,
                        (
                          omega arith,
                          (omega arith, (omega arith, (omega arith, (omega arith, tt)))),
                        ),
                      ),
                    ),
                  ),
                ),
              ),
            ),
          ),
        ),
      )
      hello_read

-- Two payloads that arrive the wrong way round, the second one twice.
abbrev chunks : List Bytes
chunks = (1 ∷ 2 ∷ []) ∷ (3 ∷ []) ∷ []

abbrev arrived : ℕ → Bytes → Arrival
arrived n payload = record { seq = n; payload = payload; clock = λ f. 1000 }

abbrev arrivals : List Arrival
arrivals = arrived 6 (3 ∷ []) ∷ arrived 5 (1 ∷ 2 ∷ []) ∷ arrived 6 (3 ∷ []) ∷ []

chunks_full : (i : ℕ) → get_elem? chunks i ≢ some []
chunks_full zero = λ e. cc
chunks_full (suc zero) = λ e. cc
chunks_full (suc (suc i)) = λ e. cc

second-Belongs : Belongs chunks 5 1000 (arrived 6 (3 ∷ []))
second-Belongs = ((1, refl, refl), λ f. (omega arith, omega arith))

first-Belongs : Belongs chunks 5 1000 (arrived 5 (1 ∷ 2 ∷ []))
first-Belongs = ((0, refl, refl), λ f. (omega arith, omega arith))

arrivals-Sent : (i : ℕ) → i < 2 → Sent 5 arrivals i
arrivals-Sent zero h = inr (inl refl)
arrivals-Sent (suc zero) h = inl refl
arrivals-Sent (suc (suc i)) h = absurd (omega (arith, h))

receive_all_in_order_example : (receive_all arrivals (new_reorderer_at 5)).0 ≡ chunks
receive_all_in_order_example =
    receive_all_in_order chunks 5 1000 arrivals (omega arith) chunks_full
      (second-Belongs, (first-Belongs, (second-Belongs, tt))) arrivals-Sent

held-Sent :
    (i : ℕ) → i < 2 → Sent 5 (arrived 6 (3 ∷ []) ∷ []) i ⊎ Sent 5 (arrived 5 (1 ∷ 2 ∷ []) ∷ []) i
held-Sent zero h = inr (inl refl)
held-Sent (suc zero) h = inl (inl refl)
held-Sent (suc (suc i)) h = absurd (omega (arith, h))

-- A reorderer that misses the number 5.
abbrev gap : Reorderer
gap = record { next_seq = 5; buffer = (6, 3 ∷ []) ∷ []; gap_timeout = 2000; waiting_since = none }

gap_ahead : (k : ℕ) (d : Bytes) → lookup k gap.buffer ≡ some d → (5 ≤ k) × (k < u32_mod)
unfolding lookup
gap_ahead k d e = ground arith

gap-Inv : Inv gap
gap-Inv = record { is_map = (tt, tt); fits = omega arith; ahead = gap_ahead }

next-next_progress_example : pending (next 3000 (next 1000 gap).1).1 < pending gap
next-next_progress_example =
    next-next_progress 1000 3000 gap gap-Inv (unfold pending in omega arith) (λ t e. cc)
      (omega arith)

-- Its next frame has no payload, and the one behind it is there.
abbrev hollow : Reorderer
hollow = record {
  next_seq = 5;
  buffer = (5, []) ∷ (6, 3 ∷ []) ∷ [];
  gap_timeout = 2000;
  waiting_since = none;
}

hollow_ahead : (k : ℕ) (d : Bytes) → lookup k hollow.buffer ≡ some d → (5 ≤ k) × (k < u32_mod)
unfolding lookup
hollow_ahead k d e = ground arith

hollow-Inv : Inv hollow
unfolding lookup
hollow-Inv = record { is_map = ((refl, tt), (tt, tt)); fits = omega arith; ahead = hollow_ahead }

drain_all_empty_payload_example :
    let d = drain_all (λ f. 1000) hollow in
    (d.0 ≡ [])
    × (lookup (d.1.next_seq) (d.1.buffer) ≡ some (3 ∷ []))
    × (pending hollow ≡ suc (pending (d.1)))
    × ((rest : List Bytes) × (drain_all (λ f. 2000) (d.1)).0 ≡ (3 ∷ []) ∷ rest)
drain_all_empty_payload_example =
    drain_all_empty_payload (λ f. 1000) (λ f. 2000) hollow 3 [] hollow-Inv (unfold lookup in refl)
      (unfold lookup in refl)
