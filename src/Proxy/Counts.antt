-- ===== src/Proxy/Counts.antt =====
-- internal/proxy/relay.go: IncrConns and DecrConns, over the whole of a connection.
use slip_stream_plus.Prelude.{
  ℕ, ◌≡◌, refl, ap, ◌∙◌, Bool, true, false, List, [], ◌∷◌, map, ◌==◌, length, All, Option, arith,
  Bool-cases, Option-cases, inl, inr,
}
use slip_stream_plus.Prelude.Int.{ℤ, pos, negsuc, ◌+ℤ◌, wrap64, IsInt64}
use slip_stream_plus.Engine.Instance.{Instance, incr_conns, decr_conns, add_tx, add_rx}
use slip_stream_plus.Users.{User}
use slip_stream_plus.Tunnel.Protocol.{Bytes, next_id}
use slip_stream_plus.Tunnel.Pool.{TunnelPool, has_tunnels}
use slip_stream_plus.Tunnel.Splitter.{PacketSplitter, new_packet_splitter, send_syn}
use slip_stream_plus.Proxy.{Target}
use slip_stream_plus.Proxy.Relay.{
  Moved, update, share, relayed, handle_connection_level, Upstream, Split, split_over, split_from,
  handle_packet_split, socks_healthy, negotiate, pipelined,
}

-- The instances' numbers, and how many connections each counts.
abbrev pub count_of : Instance → ℕ × ℤ
count_of i = (i.id, i.active_conns)

abbrev pub counts : List Instance → List (ℕ × ℤ)
counts = map count_of

-- The counts are those of int64.
abbrev pub AreCounts : List Instance → Type 0
AreCounts = All (λ i. IsInt64 i.active_conns)

one_more_one_less : (z : ℤ) → IsInt64 z → wrap64 (wrap64 (z +ℤ pos 1) +ℤ negsuc 0) ≡ z
unfolding wrap64 ◌+ℤ◌
one_more_one_less (pos n) v = ground arith
one_more_one_less (negsuc n) v = ground arith

-- A change of other fields leaves the counts.
abbrev pub IsQuiet : (Instance → Instance) → Type 0
IsQuiet f = (j : Instance) → count_of (f j) ≡ count_of j

pub update-IsQuiet :
    (id : ℕ) (f : Instance → Instance) (is : List Instance)
    → IsQuiet f
    → counts (update id f is) ≡ counts is
unfolding update
update-IsQuiet id f [] q = refl
update-IsQuiet id f (i ∷ rest) q = elim (Bool-cases (i.id == id)) [
  | inl hit ↦ rw (hit, q i, update-IsQuiet id f rest q) refl
  | inr miss ↦ rw (miss, update-IsQuiet id f rest q) refl
]

-- What the counts of two lists agree on.
same_head :
    (i j : Instance) (is js : List Instance)
    → counts (i ∷ is) ≡ counts (j ∷ js)
    → (i.id ≡ j.id) × (i.active_conns ≡ j.active_conns) × (counts is ≡ counts js)
same_head i j is js e = ground (arith, e)

-- A connection that ends where it began.
pub begin_end :
    (id : ℕ) (is js : List Instance)
    → AreCounts is
    → counts js ≡ counts (update id incr_conns is)
    → counts (update id decr_conns js) ≡ counts is
unfolding update incr_conns decr_conns
begin_end id [] [] v e = refl
begin_end id [] (j ∷ js) v e = absurd (ground (arith, e))
begin_end id (i ∷ is) [] v e = absurd (ground (arith, e))
begin_end id (i ∷ is) (j ∷ js) (v, vs) e = elim (Bool-cases (i.id == id)) [
  | inl hit ↦
      let (a, b, c) =
        same_head j (incr_conns i) js (update id incr_conns is) (rw (update, hit) at e) in
      let test : (j.id == id) ≡ true = ap (λ k. k == id) a ∙ hit in
      let count : wrap64 (j.active_conns +ℤ negsuc 0) ≡ i.active_conns =
        ap (λ z. wrap64 (z +ℤ negsuc 0)) b ∙ one_more_one_less i.active_conns v in
      rw (test, begin_end id is js vs c, a, count) refl
  | inr miss ↦
      let (a, b, c) = same_head j i js (update id incr_conns is) (rw (update, miss) at e) in
      let test : (j.id == id) ≡ false = ap (λ k. k == id) a ∙ miss in
      rw (test, begin_end id is js vs c, a, b) refl
]

share-counts :
    (tx rx : ℕ) (healthy is : List Instance) → counts (share tx rx healthy is) ≡ counts is
unfolding share add_tx add_rx
share-counts tx rx [] is = refl
share-counts tx rx (i ∷ rest) is = share-counts tx rx rest _ ∙ update-IsQuiet i.id _ is (λ j. refl)

handle_connection_level-counts :
    (pick : List Instance → Option Instance) (dial : Instance → Bytes → Upstream)
    (moved : List Moved) (t : Target) (is : List Instance) (user : Option User)
    → AreCounts is
    → counts ((handle_connection_level pick dial moved t is user).1) ≡ counts is
unfolding handle_connection_level
handle_connection_level-counts pick dial moved t is user v =
    elim (Bool-cases (length (socks_healthy is) == 0)) [
      | inl empty ↦ rw (empty) refl
      | inr some_healthy ↦ (elim (Option-cases (pick (socks_healthy is))) [
        | inl nobody ↦ rw (some_healthy, nobody) refl
        | inr (i, picked) ↦ (elim (Option-cases ((negotiate (dial i (pipelined t))).1)) [
          | inl refused ↦ rw (some_healthy, picked, refused) refl
          | inr (r, started) ↦
              rw (some_healthy, picked, started)
                (begin_end i.id is _ v (
                  update-IsQuiet i.id (relayed moved) _
                    (λ j. unfold relayed in unfold add_tx in unfold add_rx in refl)))
        ])
      ])
    ]

split_over-counts :
    (accepts : ℕ → Bool) (now later : ℕ)
    (relay : PacketSplitter → TunnelPool → PacketSplitter × TunnelPool) (moved : List Moved)
    (t : Target) (healthy : List Instance) (s : Split)
    → counts (((split_over accepts now later relay moved t healthy s).1).instances)
      ≡ counts s.instances
unfolding split_over
split_over-counts accepts now later relay moved t healthy s =
    let p = new_packet_splitter (next_id s.counter) healthy s.pool in
    elim (Bool-cases ((send_syn accepts now t.atyp t.addr t.port healthy (p.0) (p.1)).0)) [
      | inl sent ↦ rw (sent) (share-counts _ _ healthy s.instances)
      | inr lost ↦ rw (lost) refl
    ]

split_from-counts :
    (accepts : ℕ → Bool) (now later : ℕ)
    (relay : PacketSplitter → TunnelPool → PacketSplitter × TunnelPool) (moved : List Moved)
    (t : Target) (healthy : List Instance) (s : Split)
    → AreCounts s.instances
    → counts (((split_from accepts now later relay moved t healthy s).1).instances)
      ≡ counts s.instances
unfolding split_from
split_from-counts accepts now later relay moved t [] s v = refl
split_from-counts accepts now later relay moved t (track ∷ rest) s v =
    begin_end track.id s.instances _ v
      (split_over-counts accepts now later relay moved t (track ∷ rest) _)

handle_packet_split-counts :
    (accepts : ℕ → Bool) (now later : ℕ)
    (relay : PacketSplitter → TunnelPool → PacketSplitter × TunnelPool) (moved : List Moved)
    (t : Target) (s : Split)
    → AreCounts s.instances
    → counts (((handle_packet_split accepts now later relay moved t s).1).instances)
      ≡ counts s.instances
unfolding handle_packet_split
handle_packet_split-counts accepts now later relay moved t s v =
    elim (Bool-cases (has_tunnels s.pool)) [
      | inr down ↦ rw (down) refl
      | inl up ↦
          rw (up)
            (split_from-counts accepts now later relay moved t (socks_healthy s.instances) s v)
    ]

-- However a connection is served, split or not, and wherever it fails, each instance counts as many connections after
-- it as before, if the counts are those of int64.
pub handled_counts :
    (pick : List Instance → Option Instance) (dial : Instance → Bytes → Upstream)
    (accepts : ℕ → Bool) (now later : ℕ)
    (relay : PacketSplitter → TunnelPool → PacketSplitter × TunnelPool) (moved : List Moved)
    (t : Target) (s : Split)
    → AreCounts s.instances
    → (counts ((handle_connection_level pick dial moved t s.instances s.user).1)
        ≡ counts s.instances)
      × (counts (((handle_packet_split accepts now later relay moved t s).1).instances)
          ≡ counts s.instances)
handled_counts pick dial accepts now later relay moved t s v = (
  handle_connection_level-counts pick dial moved t s.instances s.user v,
  handle_packet_split-counts accepts now later relay moved t s v,
)
