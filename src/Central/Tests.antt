-- ===== src/Central/Tests.antt =====
-- The theorems on cmd/centralserver at concrete inputs.
use slip_stream_plus.Prelude.{
  ℕ, zero, suc, ◌<◌, ◌≡◌, ◌≢◌, refl, ◌⊎◌, inl, inr, false, List, [], ◌∷◌, ◌++◌, map, none, some,
  arith, get_elem?, Bool-cases, ◌==◌, subst, true, length,
}
use slip_stream_plus.Prelude.Maps.{lookup, nat_key}
use slip_stream_plus.Tunnel.Protocol.{
  Bytes, Frame, ok, payload_too_large, flag_syn, flag_data, flag_fin, encode_syn_payload, read_full,
  read_frame, read_after, read_body, uint16, frame_of, is_syn, is_fin,
}
use slip_stream_plus.Tunnel.Reorder.Steps.{Inv}
use slip_stream_plus.Tunnel.Reorder.Arrivals.{Sent}
use slip_stream_plus.Central.State.{ConnState, Conns, dial, queued}
use slip_stream_plus.Central.Handlers.{dispatch_frame}
use slip_stream_plus.Central.Handlers.Isolation.{
  IsValid, dispatch_frame_others, dispatch_frame-IsValid,
}
use slip_stream_plus.Central.Handlers.Ends.{ends_lose_data}
use slip_stream_plus.Central.Handlers.Stream.{Incoming, arrival, dispatch_all}
use slip_stream_plus.Central.Handlers.Stream.Delivery.{stream_delivery}
use slip_stream_plus.Central.Upstream.{connected}
use slip_stream_plus.Central.Upstream.Writer.{
  returned, new_writer, WriterEvent, send, take, cancelled, upstream_writer,
}
use slip_stream_plus.Central.Upstream.Writer.Flush.{GoesWell, takes, upstream_writer_flushes}
use slip_stream_plus.Central.State.{has_source, remove_source}
use slip_stream_plus.Central.Cleanup.{cleanup_source}
use slip_stream_plus.Central.Cleanup.Sources.{Loses, without_first, all_ended, cleanup_source_lem}
use slip_stream_plus.Central.Reader.{frames, frame_conn}
use slip_stream_plus.Central.Reader.Agreement.{frame_conn-frames, frame_conn_oversized}

abbrev address : Bytes
address = 10 ∷ 0 ∷ 0 ∷ 1 ∷ []

abbrev port_80 : Bytes
port_80 = 0 ∷ 80 ∷ []

abbrev syn : Frame
syn = record {
  conn_id = 9;
  seq_num = 0;
  flags = flag_syn;
  payload = encode_syn_payload 1 address port_80;
}

abbrev data_frame : ℕ → Bytes → Frame
data_frame n payload = record { conn_id = 9; seq_num = n; flags = flag_data; payload = payload }

abbrev incoming : ℕ → ℕ → Bytes → Incoming
incoming source n payload = record {
  frame = data_frame n payload;
  source = source;
  now = 1000;
  clock = λ f. 1000;
}

abbrev chunks : List Bytes
chunks = (1 ∷ 2 ∷ []) ∷ (3 ∷ []) ∷ []

chunks_full : (i : ℕ) → get_elem? chunks i ≢ some []
chunks_full zero = λ e. cc
chunks_full (suc zero) = λ e. cc
chunks_full (suc (suc i)) = λ e. cc

-- The second payload comes over another source while the upstream is dialled, the first one later.
abbrev early : List Incoming
early = incoming 21 2 (3 ∷ []) ∷ []

abbrev late : List Incoming
late = incoming 20 1 (1 ∷ 2 ∷ []) ∷ []

all-Sent : (i : ℕ) → i < 2 → Sent 1 (map arrival early) i ⊎ Sent 1 (map arrival late) i
all-Sent zero h = inr (inl refl)
all-Sent (suc zero) h = inl (inl refl)
all-Sent (suc (suc i)) h = absurd (omega (arith, h))

stream_delivery_example :
    let opened = dispatch_frame syn 20 1000 (λ f. 1000) [] in
    let held = dispatch_all early (opened.0) in
    let flushed = connected 9 (λ f. 1000) none (held.0) in
    let relayed = dispatch_all late (flushed.0) in
    (opened.1 ≡ dial 9 1 address port_80 ∷ [])
    × (held.1 ++ (flushed.1 ++ relayed.1) ≡ map (queued 9) chunks)
stream_delivery_example =
    stream_delivery syn 20 1000 1000 1 (λ f. 1000) (λ f. 1000) address port_80 chunks early late []
      (unfold lookup in refl) refl refl (inl (refl, refl)) refl (omega arith) (omega arith)
      chunks_full ((refl, refl), tt) ((refl, refl), tt)
      (((1, refl, refl), λ f. (omega arith, omega arith)), tt)
      (((0, refl, refl), λ f. (omega arith, omega arith)), tt) (λ f. (omega arith, omega arith))
      all-Sent

-- A connection whose upstream is not there yet.
abbrev waiting : ConnState
waiting = record {
  target = false;
  reorderer = record { next_seq = 1; buffer = []; gap_timeout = 2000; waiting_since = none };
  tx_seq = 0;
  created = 0;
  last_active = 0;
  sources = 20 ∷ [];
  source_idx = 0;
  write_ch = none;
}

abbrev two_conns : Conns
two_conns = (9, waiting) ∷ (4, waiting) ∷ []

waiting-Inv : Inv waiting.reorderer
waiting-Inv = record { is_map = tt; fits = omega arith; ahead = λ k d e. unfold lookup in cc }

two_ordered : (j : ℕ) (s : ConnState) → lookup j two_conns ≡ some s → Inv s.reorderer
unfolding lookup
two_ordered j s e = elim (Bool-cases (9 == j)) [
  | inl a ↦
      let found : some waiting ≡ some s = rw a at e in
      let same : waiting ≡ s = cc in subst (λ (x : ConnState). Inv x.reorderer) same waiting-Inv
  | inr a ↦ elim (Bool-cases (4 == j)) [
    | inl b ↦
        let found : some waiting ≡ some s = rw (a, b) at e in
        let same : waiting ≡ s = cc in subst (λ (x : ConnState). Inv x.reorderer) same waiting-Inv
    | inr b ↦ absurd (let found : none ≡ some s = rw (a, b) at e in cc)
  ]
]

two-IsValid : IsValid two_conns
two-IsValid = record { is_map = ((refl, tt), (tt, tt)); ordered = two_ordered }

dispatch_frame_others_example :
    lookup 4 (dispatch_frame (data_frame 1 (5 ∷ [])) 20 1000 (λ f. 1000) two_conns).0
    ≡ lookup 4 two_conns
dispatch_frame_others_example =
    dispatch_frame_others (data_frame 1 (5 ∷ [])) 20 1000 4 (λ f. 1000) two_conns (omega arith)
      two-IsValid (omega arith)

dispatch_frame-IsValid_example :
    IsValid (dispatch_frame (data_frame 1 (5 ∷ [])) 20 1000 (λ f. 1000) two_conns).0
dispatch_frame-IsValid_example =
    dispatch_frame-IsValid (data_frame 1 (5 ∷ [])) 20 1000 (λ f. 1000) two_conns (omega arith)
      two-IsValid

abbrev fin : Frame
fin = record { conn_id = 9; seq_num = 3; flags = flag_fin; payload = [] }

ends_lose_data_example :
    let s = dispatch_frame fin 20 1000 (λ f. 1000) two_conns in
    (lookup 9 (s.0) ≡ none)
    × (dispatch_frame (data_frame 2 (7 ∷ [])) 21 1001 (λ f. 1001) (s.0) ≡ (s.0, []))
ends_lose_data_example =
    ends_lose_data fin (data_frame 2 (7 ∷ [])) 20 21 1000 1001 (λ f. 1000) (λ f. 1001) two_conns
      ((refl, tt), (tt, tt)) (unfold is_syn in refl) (inl (unfold is_fin in refl)) refl refl

abbrev stream : Bytes
stream = 0 ∷ 0 ∷ 9 ∷ 0 ∷ 0 ∷ 0 ∷ 1 ∷ 0 ∷ 0 ∷ 1 ∷ 42 ∷ 8 ∷ []

stream_read : read_frame (0 ∷ stream) ≡ ok (data_frame 1 (42 ∷ []), 8 ∷ [])
unfolding read_frame read_full read_after uint16 read_body frame_of
stream_read = refl

frame_conn-frames_example : frame_conn 12 0 stream ≡ frames 13 (0 ∷ stream)
frame_conn-frames_example =
    frame_conn-frames 12 0 stream (8 ∷ []) (data_frame 1 (42 ∷ [])) stream_read

-- A header that announces 65535 bytes.
abbrev huge : Bytes
huge = 0 ∷ 0 ∷ 9 ∷ 0 ∷ 0 ∷ 0 ∷ 1 ∷ 0 ∷ 255 ∷ 255 ∷ []

frame_conn_oversized_example :
    (frame_conn 12 0 (huge ++ (42 ∷ [])) ≡ frames 12 (42 ∷ []))
    × (frames 13 (0 ∷ (huge ++ (42 ∷ []))) ≡ ([], payload_too_large (uint16 (0 ∷ huge) 9)))
frame_conn_oversized_example =
    frame_conn_oversized 12 0 (huge ++ (42 ∷ [])) huge (42 ∷ []) (unfold read_full in refl)
      (unfold uint16 in omega arith)

cleanup_source_lem_example :
    let out = cleanup_source 20 (9 ∷ 4 ∷ []) two_conns in
    (lookup 9 (out.0) ≡ without_first 20 (lookup 9 two_conns))
    × (out.1 ≡ all_ended 20 (9 ∷ 4 ∷ []) two_conns)
    × ((sources : List ℕ) → Loses 20 sources (remove_source 20 sources))
unfolding has_source
cleanup_source_lem_example =
    cleanup_source_lem 20 9 (9 ∷ 4 ∷ []) two_conns ((refl, tt), (tt, tt)) (refl, (refl, tt))

-- Two slices are sent before the first is written.
abbrev two_sends : List WriterEvent
two_sends = send (1 ∷ []) ∷ send (2 ∷ 3 ∷ []) ∷ take true ∷ []

upstream_writer_flushes_example :
    let w = upstream_writer two_sends new_writer in
    let end = upstream_writer (cancelled ∷ takes (suc (length w.write_ch))) w in
    (w.written ++ w.write_ch ≡ w.accepted) × (end.phase ≡ returned) × (end.written ≡ w.accepted)
unfolding GoesWell
upstream_writer_flushes_example = upstream_writer_flushes two_sends (tt, (tt, (refl, tt)))
