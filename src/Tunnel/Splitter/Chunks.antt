-- ===== src/Tunnel/Splitter/Chunks.antt =====
-- internal/tunnel/splitter.go: the frames that RelayClientToUpstream makes of what it reads.
use slip_stream_plus.Prelude.{
  ℕ, ◌+◌, ◌%◌, ◌≡◌, refl, ap, ◌∙◌, Bool, List, [], ◌∷◌, map, Option, none, some, All,
}
use slip_stream_plus.Engine.Instance.{Instance}
use slip_stream_plus.Tunnel.Protocol.{Bytes, Frame, u32_mod, flag_data}
use slip_stream_plus.Tunnel.Pool.{TunnelPool}
use slip_stream_plus.Tunnel.Splitter.{
  PacketSplitter, Sending, no_instance, sent, lost, sending, next_frame, pick_instance,
  send_or_other, relay_chunk,
}

-- A chunk that is read, with the instances as they are then.
pub record Chunk : Type 0 where
  pub payload : Bytes
  pub instances : List Instance

-- The rest of the loop of `RelayClientToUpstream`, which returns when no instance is healthy.
unfoldable pub go_on :
    Sending
    → PacketSplitter
    → TunnelPool
    → List Sending × PacketSplitter × TunnelPool
    → List Sending × PacketSplitter × TunnelPool
go_on no_instance ps pool more = (no_instance ∷ [], ps, pool)
go_on (sent conn f) ps pool more = (sent conn f ∷ more.0, more.1, more.2)
go_on (lost f) ps pool more = (lost f ∷ more.0, more.1, more.2)

unfoldable pub relay_chunks :
    (ℕ → Bool)
    → ℕ
    → List Chunk
    → PacketSplitter
    → TunnelPool
    → List Sending × PacketSplitter × TunnelPool
unfolding go_on
relay_chunks accepts now [] ps pool = ([], ps, pool)
relay_chunks accepts now (c ∷ rest) ps pool =
    let s = relay_chunk accepts now c.payload c.instances ps pool in
    go_on (s.0) (s.1) (s.2) (relay_chunks accepts now rest (s.1) (s.2))

-- A connection took the frame.
abbrev pub IsSent : Sending → Type 0
IsSent no_instance = ⊥
IsSent (sent conn f) = Unit
IsSent (lost f) = ⊥

unfoldable pub sent_frames : List Sending → List Frame
sent_frames [] = []
sent_frames (no_instance ∷ rest) = sent_frames rest
sent_frames (sent conn f ∷ rest) = f ∷ sent_frames rest
sent_frames (lost f ∷ rest) = sent_frames rest

-- The data frames of a stream, numbered from `n` on.
unfoldable pub data_frames : ℕ → ℕ → List Bytes → List Frame
data_frames id n [] = []
data_frames id n (payload ∷ rest) =
    record { conn_id = id; seq_num = n; flags = flag_data; payload = payload }
    ∷ data_frames id ((n + 1) % u32_mod) rest

-- What a round makes, when a connection takes the frame.
record Numbered (c : Chunk) (ps : PacketSplitter) (out : Sending × PacketSplitter × TunnelPool)
    : Type 0 where
  conn : ℕ
  made :
      out.0
      ≡ sent conn (record {
        conn_id = ps.conn_id;
        seq_num = ps.tx_seq;
        flags = flag_data;
        payload = c.payload;
      })
  same_id : (out.1).conn_id ≡ ps.conn_id
  next_seq : (out.1).tx_seq ≡ (ps.tx_seq + 1) % u32_mod

-- A round, for the instance that is picked and what becomes of sending to it.
abbrev round :
    Frame
    → PacketSplitter
    → PacketSplitter
    → TunnelPool
    → (Instance → Option ℕ × TunnelPool)
    → Option Instance
    → Sending × PacketSplitter × TunnelPool
round f ps ps' pool send o = elim o [
  | none ↦ (no_instance, ps, pool)
  | some inst ↦ (sending f (send inst).0, ps', (send inst).1)
]

sending-IsSent :
    (f : Frame) (o : Option ℕ) → IsSent (sending f o) → (conn : ℕ) × (sending f o ≡ sent conn f)
unfolding sending
sending-IsSent f none h = elim h [ ]
sending-IsSent f (some conn) h = (conn, refl)

round-IsSent :
    (f : Frame) (ps ps' : PacketSplitter) (pool : TunnelPool)
    (send : Instance → Option ℕ × TunnelPool) (o : Option Instance)
    → IsSent (round f ps ps' pool send o).0
    → (conn : ℕ) × ((round f ps ps' pool send o).0 ≡ sent conn f)
      × ((round f ps ps' pool send o).1 ≡ ps')
round-IsSent f ps ps' pool send none h = elim h [ ]
round-IsSent f ps ps' pool send (some inst) h =
    let (conn, e) = sending-IsSent f (send inst).0 h in (conn, e, refl)

relay_chunk-Numbered :
    (accepts : ℕ → Bool) (now : ℕ) (c : Chunk) (ps : PacketSplitter) (pool : TunnelPool)
    → IsSent (relay_chunk accepts now c.payload c.instances ps pool).0
    → Numbered c ps (relay_chunk accepts now c.payload c.instances ps pool)
unfolding relay_chunk next_frame pick_instance
relay_chunk-Numbered accepts now c ps pool h =
    let p = pick_instance c.instances ps in
    let n = next_frame flag_data c.payload (p.1) in
    let (conn, made, after) =
      round-IsSent (n.0) (p.1) (n.1) pool
        (λ inst. send_or_other accepts now (n.0) c.instances inst pool) (p.0) h in
    record {
      conn = conn;
      made = made;
      same_id = ap (λ (q : PacketSplitter). q.conn_id) after;
      next_seq = ap (λ (q : PacketSplitter). q.tx_seq) after;
    }

go_on-IsSent :
    (x : Sending) (ps : PacketSplitter) (pool : TunnelPool)
    (more : List Sending × PacketSplitter × TunnelPool)
    → All IsSent (go_on x ps pool more).0
    → IsSent x × All IsSent (more.0)
unfolding go_on
go_on-IsSent no_instance ps pool more (h, _) = elim h [ ]
go_on-IsSent (sent conn f) ps pool more h = h
go_on-IsSent (lost f) ps pool more (h, _) = elim h [ ]

sent_frames-go_on :
    (f : Frame) (x : Sending) (conn : ℕ) (ps : PacketSplitter) (pool : TunnelPool)
    (more : List Sending × PacketSplitter × TunnelPool)
    → x ≡ sent conn f
    → sent_frames (go_on x ps pool more).0 ≡ f ∷ sent_frames (more.0)
unfolding go_on sent_frames
sent_frames-go_on f x conn ps pool more e = rw e

-- The frames that the tunnel connections take, if they take one for each chunk, are the client's
-- chunks, each once and in order, numbered on from the splitter's counter.
pub relay_chunks-data_frames :
    (accepts : ℕ → Bool) (now : ℕ) (chunks : List Chunk) (ps : PacketSplitter) (pool : TunnelPool)
    → All IsSent (relay_chunks accepts now chunks ps pool).0
    → sent_frames (relay_chunks accepts now chunks ps pool).0
      ≡ data_frames ps.conn_id ps.tx_seq (map (λ c. c.payload) chunks)
unfolding relay_chunks sent_frames data_frames
relay_chunks-data_frames accepts now [] ps pool h = refl
relay_chunks-data_frames accepts now (c ∷ rest) ps pool h =
    let s = relay_chunk accepts now c.payload c.instances ps pool in
    let more = relay_chunks accepts now rest (s.1) (s.2) in
    let (first, others) = go_on-IsSent (s.0) (s.1) (s.2) more h in
    let n = relay_chunk-Numbered accepts now c ps pool first in
    let f : Frame = record {
      conn_id = ps.conn_id;
      seq_num = ps.tx_seq;
      flags = flag_data;
      payload = c.payload;
    } in
    sent_frames-go_on f (s.0) n.conn (s.1) (s.2) more n.made
    ∙ ap (λ fs. f ∷ fs) (relay_chunks-data_frames accepts now rest (s.1) (s.2) others)
    ∙ ap (λ i. f ∷ data_frames i (s.1).tx_seq (map (λ c. c.payload) rest)) n.same_id
    ∙ ap (λ k. f ∷ data_frames ps.conn_id k (map (λ c. c.payload) rest)) n.next_seq
