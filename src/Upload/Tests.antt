-- ===== src/Upload/Tests.antt =====
-- An upload of two chunks that arrive the wrong way round.
use slip_stream_plus.Prelude.{
  ℕ, zero, suc, ◌<◌, ◌≡◌, ◌≢◌, refl, ◌⊎◌, inl, inr, true, false, List, [], ◌∷◌, ◌++◌, map, none,
  some, All, arith, get_elem?,
}
use slip_stream_plus.Prelude.Int.{pos}
use slip_stream_plus.Prelude.Maps.{lookup, insert, nat_key}
use slip_stream_plus.Engine.Instance.{Instance, healthy, socks}
use slip_stream_plus.Tunnel.Protocol.{Bytes, Frame, flag_data, frame_bytes, encode_syn_payload}
use slip_stream_plus.Tunnel.Pool.{TunnelPool}
use slip_stream_plus.Tunnel.Splitter.{Sending, relay_chunk}
use slip_stream_plus.Tunnel.Splitter.Chunks.{Chunk, relay_chunks, sent_frames, IsSent}
use slip_stream_plus.Central.State.{dial, queued}
use slip_stream_plus.Central.Handlers.{dispatch_frame}
use slip_stream_plus.Central.Handlers.Stream.{Incoming, dispatch_all}
use slip_stream_plus.Central.Upstream.{connected}
use slip_stream_plus.Upload.{Carries, Came, upload, upload_delivery}

abbrev instances : List Instance
instances =
    record {
      id = 3;
      mode = socks;
      state = healthy;
      active_conns = pos 0;
      last_ping_ms = pos 50;
      tx_bytes = pos 0;
      rx_bytes = pos 0;
    }
    ∷ []

abbrev pool : TunnelPool
pool = record {
  conns = (3, record { conn = 52; closed = false; last_read = 0; last_write = 0 } ∷ []) ∷ [];
  handlers = [];
  ready = true;
  round_robin = 0;
  panicked = false;
}

abbrev chunk : Bytes → Chunk
chunk payload = record { payload = payload; instances = instances }

abbrev chunks : List Chunk
chunks = chunk (1 ∷ 2 ∷ []) ∷ chunk (3 ∷ []) ∷ []

abbrev sent_up : Frame × List Sending
sent_up = upload (λ n. true) 500 9 1 (10 ∷ 0 ∷ 0 ∷ 1 ∷ []) (0 ∷ 80 ∷ []) instances chunks pool

abbrev incoming : ℕ → Bytes → Incoming
incoming n payload = record {
  frame = record { conn_id = 9; seq_num = n; flags = flag_data; payload = payload };
  source = 20;
  now = 1000;
  clock = λ f. 1000;
}

sent_up_frames :
    sent_frames (sent_up.1)
    ≡ map (λ i. i.frame) (incoming 1 (1 ∷ 2 ∷ []) ∷ incoming 2 (3 ∷ []) ∷ [])
unfolding upload relay_chunks relay_chunk sent_frames lookup insert frame_bytes encode_syn_payload
sent_up_frames = refl

every_frame_taken : All IsSent (sent_up.1)
unfolding upload relay_chunks relay_chunk sent_frames lookup insert frame_bytes encode_syn_payload
every_frame_taken = (tt, (tt, tt))

chunks_full : (i : ℕ) → get_elem? (map (λ c. c.payload) chunks) i ≢ some []
chunks_full zero = λ e. cc
chunks_full (suc zero) = λ e. cc
chunks_full (suc (suc i)) = λ e. cc

early-Carries : All (Carries (sent_frames (sent_up.1)) 1000) (incoming 2 (3 ∷ []) ∷ [])
early-Carries = rw sent_up_frames (((1, refl), λ f. (omega arith, omega arith)), tt)

late-Carries : All (Carries (sent_frames (sent_up.1)) 1000) (incoming 1 (1 ∷ 2 ∷ []) ∷ [])
late-Carries = rw sent_up_frames (((0, refl), λ f. (omega arith, omega arith)), tt)

all-Came :
    (n : ℕ)
    → n < 2
    → Came (sent_frames (sent_up.1)) n (incoming 2 (3 ∷ []) ∷ [])
      ⊎ Came (sent_frames (sent_up.1)) n (incoming 1 (1 ∷ 2 ∷ []) ∷ [])
all-Came zero h = inr (inl (rw sent_up_frames refl))
all-Came (suc zero) h = inl (inl (rw sent_up_frames refl))
all-Came (suc (suc n)) h = absurd (omega (arith, h))

upload_delivery_example :
    let opened = dispatch_frame (sent_up.0) 20 900 (λ f. 900) [] in
    let held = dispatch_all (incoming 2 (3 ∷ []) ∷ []) (opened.0) in
    let flushed = connected 9 (λ f. 1000) none (held.0) in
    let relayed = dispatch_all (incoming 1 (1 ∷ 2 ∷ []) ∷ []) (flushed.0) in
    (opened.1 ≡ dial 9 1 (10 ∷ 0 ∷ 0 ∷ 1 ∷ []) (0 ∷ 80 ∷ []) ∷ [])
    × (held.1 ++ (flushed.1 ++ relayed.1) ≡ map (queued 9) (map (λ c. c.payload) chunks))
upload_delivery_example =
    upload_delivery (λ n. true) 500 9 1 (10 ∷ 0 ∷ 0 ∷ 1 ∷ []) (0 ∷ 80 ∷ []) instances chunks pool 20
      900 1000 (λ f. 900) (λ f. 1000) (incoming 2 (3 ∷ []) ∷ []) (incoming 1 (1 ∷ 2 ∷ []) ∷ []) []
      (inl (refl, refl)) refl (omega arith) chunks_full every_frame_taken (unfold lookup in refl)
      early-Carries late-Carries all-Came (λ f. (omega arith, omega arith))
