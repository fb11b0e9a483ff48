-- ===== src/Tunnel/Pool/Dispatch.antt =====
-- internal/tunnel/pool.go: which frames come out of a channel.
use slip_stream_plus.Prelude.{
  ℕ, ◌+◌, ◌≤◌, ◌<◌, ◌≡◌, ◌≢◌, sym, ap, ◌∙◌, true, false, List, [], ◌∷◌, ◌++◌, ltb, ◌==◌,
  if◌then◌else◌, length, length-append, lt→ltb, Bool-cases, inl, inr, some, arith,
}
use mathlib.Core.List.{append-nil, append_assoc}
use slip_stream_plus.Prelude.Maps.{Map, lookup, insert, nat_key}
use slip_stream_plus.Prelude.Maps.Laws.{lookup-insert}
use slip_stream_plus.Tunnel.Protocol.{Frame}
use slip_stream_plus.Tunnel.Pool.{TunnelPool, channel_cap, dispatch}

-- The frames that the read loops of all the connections dispatch, in that order.
unfoldable pub dispatch_all : List Frame → TunnelPool → TunnelPool
unfolding dispatch
dispatch_all [] p = p
dispatch_all (f ∷ rest) p = dispatch_all rest (dispatch f p)

-- The frames of a connection among them.
unfoldable pub frames_of : ℕ → List Frame → List Frame
frames_of id [] = []
frames_of id (f ∷ rest) = if f.conn_id == id then f ∷ frames_of id rest else frames_of id rest

dispatch_own :
    (f : Frame) (p : TunnelPool) (channel : List Frame)
    → 0 < f.conn_id
    → lookup f.conn_id p.handlers ≡ some channel
    → length channel < channel_cap
    → dispatch f p ≡ record p { handlers = insert f.conn_id (channel ++ (f ∷ [])) p.handlers }
unfolding dispatch
dispatch_own f p channel h e room =
    let real : (f.conn_id == 0) ≡ false = ground arith in
    let fits : ltb (length channel) channel_cap ≡ true = lt→ltb _ _ room in
    rw (real, e, fits, dispatch)

dispatch_other :
    (f : Frame) (p : TunnelPool) (id : ℕ)
    → f.conn_id ≢ id
    → lookup id (dispatch f p).handlers ≡ lookup id p.handlers
unfolding dispatch
dispatch_other f p id other = grind (arith, lookup-insert)

lookup-insert_self :
    (id : ℕ) (c : List Frame) (m : Map ℕ (List Frame)) → lookup id (insert id c m) ≡ some c
lookup-insert_self id c m = ground (arith, lookup-insert id id c m)

dispatch_lem :
    (f : Frame) (p : TunnelPool) (id : ℕ) (channel : List Frame)
    → 0 < id
    → lookup id p.handlers ≡ some channel
    → length channel + length (frames_of id (f ∷ [])) ≤ channel_cap
    → lookup id (dispatch f p).handlers ≡ some (channel ++ frames_of id (f ∷ []))
unfolding frames_of
dispatch_lem f p id channel h e room = elim (Bool-cases (f.conn_id == id)) [
  | inl s ↦
      let same : f.conn_id ≡ id = ground arith in
      let one : length channel + 1 ≤ channel_cap = rw s at room in
      rw s (
        ap (λ (q : TunnelPool). lookup id q.handlers)
          (dispatch_own f p channel (omega (arith, h, same))
            (ap (λ k. lookup k p.handlers) same ∙ e) (omega (arith, one)))
        ∙ ap (λ k. lookup id (insert k (channel ++ (f ∷ [])) p.handlers)) same
        ∙ lookup-insert_self id (channel ++ (f ∷ [])) p.handlers)
  | inr s ↦
      let other : f.conn_id ≢ id = ground arith in
      rw s (dispatch_other f p id other ∙ e ∙ ap some (sym (append-nil channel)))
]

frames_of-cons :
    (id : ℕ) (f : Frame) (rest : List Frame)
    → frames_of id (f ∷ rest) ≡ frames_of id (f ∷ []) ++ frames_of id rest
unfolding frames_of
frames_of-cons id f rest = elim (Bool-cases (f.conn_id == id)) [ inl s ↦ rw s | inr s ↦ rw s ]

-- A channel gets exactly the frames of its connection, in the order in which the read loops dispatch
-- them, as long as they are no more than it holds.
pub dispatch_all-frames_of :
    (frames : List Frame) (p : TunnelPool) (id : ℕ) (channel : List Frame)
    → 0 < id
    → lookup id p.handlers ≡ some channel
    → length channel + length (frames_of id frames) ≤ channel_cap
    → lookup id (dispatch_all frames p).handlers ≡ some (channel ++ frames_of id frames)
unfolding dispatch_all frames_of
dispatch_all-frames_of [] p id channel h e room = e ∙ ap some (sym (append-nil channel))
dispatch_all-frames_of (f ∷ rest) p id channel h e room =
    let own = frames_of id (f ∷ []) in
    let split = frames_of-cons id f rest in
    let lens = ap length split ∙ length-append own (frames_of id rest) in
    dispatch_all-frames_of rest (dispatch f p) id (channel ++ own) h
      (dispatch_lem f p id channel h e (omega (arith, room, lens)))
      (omega (arith, room, lens, length-append channel own))
    ∙ ap some (append_assoc channel own (frames_of id rest) ∙ ap (λ q. channel ++ q) (sym split))
