-- ===== src/Upload.antt =====
-- The way of an upload: from what a client writes (internal/tunnel/splitter.go) over the frames of the
-- tunnels to the upstream's write queue (cmd/centralserver).
mod Tests
use slip_stream_plus.Prelude.{
  ℕ, zero, suc, ◌+◌, ◌%◌, ◌≤◌, ◌<◌, ◌≡◌, ◌≢◌, refl, sym, ap, subst, ◌∙◌, ◌⊎◌, inl, inr, Bool, List,
  [], ◌∷◌, ◌++◌, map, length, length-map, some, none, All, get_elem?, arith,
}
use slip_stream_plus.Prelude.Maps.{lookup, nat_key}
use slip_stream_plus.Engine.Instance.{Instance}
use slip_stream_plus.Tunnel.Protocol.{
  Bytes, Frame, u32_mod, flag_syn, flag_data, encode_syn_payload,
}
use slip_stream_plus.Tunnel.Protocol.Syn.{IsAddr}
use slip_stream_plus.Tunnel.Reorder.Arrivals.{Belongs, Sent}
use slip_stream_plus.Tunnel.Pool.{TunnelPool}
use slip_stream_plus.Tunnel.Splitter.{
  PacketSplitter, Sending, new_packet_splitter, next_frame, send_syn,
}
use slip_stream_plus.Tunnel.Splitter.Chunks.{
  Chunk, relay_chunks, sent_frames, data_frames, IsSent, relay_chunks-data_frames,
}
use slip_stream_plus.Central.State.{Conns, dial, queued, write_ch_cap}
use slip_stream_plus.Central.Handlers.{dispatch_frame}
use slip_stream_plus.Central.Handlers.Stream.{Incoming, arrival, dispatch_all, IsDataOf}
use slip_stream_plus.Central.Handlers.Stream.Delivery.{stream_delivery}
use slip_stream_plus.Central.Upstream.{connected}

-- A frame of `frames` comes in, while the clock has run for less than the gap timeout since `t0`.
abbrev pub Carries : List Frame → ℕ → Incoming → Type 0
Carries frames t0 i =
    ((n : ℕ) × (get_elem? frames n ≡ some i.frame))
    × ((f : ℕ) → (t0 ≤ i.clock f) × (i.clock f < t0 + 2000))

-- The frame number `n` of `frames` is among those that come in.
abbrev pub Came : List Frame → ℕ → List Incoming → Type 0
Came frames n [] = ⊥
Came frames n (i ∷ rest) = (get_elem? frames n ≡ some i.frame) ⊎ Came frames n rest

-- A data frame, with the payload number `n` of a stream that is numbered from `start` on.
record IsDataAt (id start n : ℕ) (chunks : List Bytes) (f : Frame) : Type 0 where
  same_id : f.conn_id ≡ id
  is_data : f.flags ≡ flag_data
  at : f.seq_num ≡ start + n
  there : get_elem? chunks n ≡ some f.payload

data_frames-IsDataAt :
    (id start n : ℕ) (chunks : List Bytes) (f : Frame)
    → start + length chunks < u32_mod
    → get_elem? (data_frames id start chunks) n ≡ some f
    → IsDataAt id start n chunks f
unfolding data_frames
data_frames-IsDataAt id start n [] f h e = absurd (cc)
data_frames-IsDataAt id start zero (c ∷ rest) f h e =
    let same : record { conn_id = id; seq_num = start; flags = flag_data; payload = c } ≡ f = cc in
    subst (IsDataAt id start 0 (c ∷ rest)) same
      (record { same_id = refl; is_data = refl; at = omega arith; there = refl })
data_frames-IsDataAt id start (suc n) (c ∷ rest) f h e =
    let wrap : (start + 1) % u32_mod ≡ start + 1 = omega (arith, h) in
    let d =
      data_frames-IsDataAt id (start + 1) n rest f (omega (arith, h))
        (subst (λ k. get_elem? (data_frames id k rest) n ≡ some f) wrap e) in
    record { same_id = d.same_id; is_data = d.is_data; at = omega (arith, d.at); there = d.there }

module _ (id start t0 : ℕ) (chunks : List Bytes) (small : start + length chunks < u32_mod) where
  Carries-IsDataOf :
      (xs : List Incoming)
      → All (Carries (data_frames id start chunks) t0) xs
      → All (IsDataOf id) xs
  Carries-IsDataOf [] h = tt
  Carries-IsDataOf (i ∷ rest) (((n, e), _), h) =
      let d = data_frames-IsDataAt id start n chunks i.frame small e in
      ((d.same_id, d.is_data), Carries-IsDataOf rest h)

  Carries-Belongs :
      (xs : List Incoming)
      → All (Carries (data_frames id start chunks) t0) xs
      → All (Belongs chunks start t0) (map arrival xs)
  Carries-Belongs [] h = tt
  Carries-Belongs (i ∷ rest) (((n, e), window), h) =
      let d = data_frames-IsDataAt id start n chunks i.frame small e in
      (((n, d.at, d.there), window), Carries-Belongs rest h)

  Came-Sent :
      (n : ℕ) (xs : List Incoming)
      → Came (data_frames id start chunks) n xs
      → Sent start (map arrival xs) n
  Came-Sent n [] h = elim h [ ]
  Came-Sent n (i ∷ rest) (inl e) = inl (data_frames-IsDataAt id start n chunks i.frame small e).at
  Came-Sent n (i ∷ rest) (inr h) = inr (Came-Sent n rest h)

  Came-Sent_either :
      (n : ℕ) (before after : List Incoming)
      → Came (data_frames id start chunks) n before ⊎ Came (data_frames id start chunks) n after
      → Sent start (map arrival before) n ⊎ Sent start (map arrival after) n
  Came-Sent_either n before after (inl h) = inl (Came-Sent n before h)
  Came-Sent_either n before after (inr h) = inr (Came-Sent n after h)

-- What a client's splitter makes of a connection: the SYN that it sends to every instance, and what
-- becomes of its chunks.
unfoldable pub upload :
    (ℕ → Bool)
    → ℕ
    → ℕ
    → ℕ
    → Bytes
    → Bytes
    → List Instance
    → List Chunk
    → TunnelPool
    → Frame × List Sending
unfolding new_packet_splitter next_frame send_syn
upload accepts now id atyp addr port instances chunks pool =
    let new = new_packet_splitter id instances pool in
    let opened = send_syn accepts now atyp addr port instances (new.0) (new.1) in
    (
      (next_frame flag_syn (encode_syn_payload atyp addr port) (new.0)).0,
      (relay_chunks accepts now chunks (opened.1) (opened.2)).0,
    )

upload-data_frames :
    (accepts : ℕ → Bool) (now id atyp : ℕ) (addr port : Bytes) (instances : List Instance)
    (chunks : List Chunk) (pool : TunnelPool)
    → All IsSent (upload accepts now id atyp addr port instances chunks pool).1
    → sent_frames (upload accepts now id atyp addr port instances chunks pool).1
      ≡ data_frames id 1 (map (λ c. c.payload) chunks)
unfolding upload
upload-data_frames accepts now id atyp addr port instances chunks pool h =
    let new = new_packet_splitter id instances pool in
    let opened = send_syn accepts now atyp addr port instances (new.0) (new.1) in
    relay_chunks-data_frames accepts now chunks (opened.1) (opened.2) h

-- An upload arrives: when a tunnel connection has taken a frame for each of the client's chunks, the
-- server, once it has the client's SYN, dials the client's target and hands the upstream's write queue
-- exactly the client's chunks, each once and in order. Between them the frames may travel over any
-- tunnels, overtake one another, be repeated and come before the upstream is there, as long as each one
-- comes, within the gap timeout, and they are no more than the queue holds.
pub upload_delivery :
    (accepts : ℕ → Bool) (now id atyp : ℕ) (addr port : Bytes) (instances : List Instance)
    (chunks : List Chunk) (pool : TunnelPool) (source now' t0 : ℕ) (clock clock' : ℕ → ℕ)
    (before after : List Incoming) (conns : Conns)
    → IsAddr atyp addr
    → length port ≡ 2
    → length chunks ≤ write_ch_cap
    → ((i : ℕ) → get_elem? (map (λ c. c.payload) chunks) i ≢ some [])
    → All IsSent (upload accepts now id atyp addr port instances chunks pool).1
    → lookup id conns ≡ none
    → All
        (Carries (sent_frames (upload accepts now id atyp addr port instances chunks pool).1) t0)
        before
    → All
        (Carries (sent_frames (upload accepts now id atyp addr port instances chunks pool).1) t0)
        after
    → ((n : ℕ)
        → n < length chunks
        → Came (sent_frames (upload accepts now id atyp addr port instances chunks pool).1) n before
          ⊎ Came
              (sent_frames (upload accepts now id atyp addr port instances chunks pool).1)
              n
              after)
    → ((f : ℕ) → (t0 ≤ clock' f) × (clock' f < t0 + 2000))
    → let opened =
        dispatch_frame
          (upload accepts now id atyp addr port instances chunks pool).0
          source
          now'
          clock
          conns in
      let held = dispatch_all before (opened.0) in
      let flushed = connected id clock' none (held.0) in
      let relayed = dispatch_all after (flushed.0) in
      (opened.1 ≡ dial id atyp addr port ∷ [])
      × (held.1 ++ (flushed.1 ++ relayed.1) ≡ map (queued id) (map (λ c. c.payload) chunks))
unfolding upload
upload_delivery accepts now id atyp addr port instances chunks pool source now' t0 clock clock'
      before after conns form two room full taken fresh b a all_came window =
    let payloads = map (λ (c : Chunk). c.payload) chunks in
    let made = upload-data_frames accepts now id atyp addr port instances chunks pool taken in
    let many : length payloads ≡ length chunks = length-map chunks (λ c. c.payload) in
    let small : 1 + length payloads < u32_mod = omega (arith, many, room) in
    let b' = subst (λ fs. All (Carries fs t0) before) made b in
    let a' = subst (λ fs. All (Carries fs t0) after) made a in
    stream_delivery (upload accepts now id atyp addr port instances chunks pool).0 source now' t0
      atyp clock clock' addr port payloads before after conns fresh refl refl form two
      (omega (arith, small)) (omega (arith, many, room)) full
      (Carries-IsDataOf id 1 t0 payloads small before b')
      (Carries-IsDataOf id 1 t0 payloads small after a')
      (Carries-Belongs id 1 t0 payloads small before b')
      (Carries-Belongs id 1 t0 payloads small after a') window
      (λ n h. Came-Sent_either id 1 t0 payloads small n before after (
        subst (λ fs. Came fs n before ⊎ Came fs n after) made
          (all_came n (omega (arith, h, many)))))
