-- ===== src/Gui/History.antt =====
-- internal/gui/server.go: what is left of the bandwidth's history.
use mathlib.Core.List.{append_assoc, append-nil}
use slip_stream_plus.Prelude.{
  ℕ, zero, suc, ◌+◌, ◌-◌, ◌≤◌, ◌≡◌, refl, sym, ap, ◌∙◌, List, [], ◌∷◌, ◌++◌, ltb, length, drop,
  arith, if_lem, length-append, length-drop,
}
use slip_stream_plus.Prelude.Int.{ℤ, pos, ◌-ℤ◌, wrap64}
use slip_stream_plus.Engine.Manager.Control as Engine
use slip_stream_plus.Gui.{
  ApiServer, BwPoint, history_size, trim, total_tx, total_rx, tenth, collect_bandwidth,
}

-- Rounds of `collectBandwidth`, each at its time and with the instances as they are then.
abbrev pub collect_all : List (ℤ × Engine.Manager) → ApiServer → ApiServer
collect_all [] s = s
collect_all ((now, m) ∷ rest) s =
    collect_all rest (collect_bandwidth now (record s { manager = m }))

-- The point of a round, behind one that had these totals.
abbrev pub point : ℤ → Engine.Manager → ℤ → ℤ → BwPoint
point now m tx rx = record {
  time = now;
  tx = tenth (wrap64 (total_tx m.instances (pos 0) -ℤ tx));
  rx = tenth (wrap64 (total_rx m.instances (pos 0) -ℤ rx));
}

-- The points of these rounds: a tenth of what each total has grown by since the one before it.
abbrev pub points : List (ℤ × Engine.Manager) → ℤ → ℤ → List BwPoint
points [] tx rx = []
points ((now, m) ∷ rest) tx rx =
    point now m tx rx ∷ points rest (total_tx m.instances (pos 0)) (total_rx m.instances (pos 0))

module _ {ℓ} {A : Type ℓ} where
  -- The last so many elements.
  abbrev pub last : ℕ → List A → List A
  last n xs = drop (length xs - n) xs

  drop-append : (k : ℕ) (xs ys : List A) → k ≤ length xs → drop k (xs ++ ys) ≡ drop k xs ++ ys
  drop-append zero xs ys h = refl
  drop-append (suc k) [] ys h = absurd (omega arith)
  drop-append (suc k) (x ∷ xs) ys h = drop-append k xs ys (omega arith)

  drop_nil : (j : ℕ) → drop {A = A} j [] ≡ []
  drop_nil zero = refl
  drop_nil (suc j) = refl

  drop_twice : (k j : ℕ) (xs : List A) → drop j (drop k xs) ≡ drop (k + j) xs
  drop_twice zero j xs = ap (λ i. drop i xs) (omega arith)
  drop_twice (suc k) j [] = drop_nil j ∙ sym (drop_nil (suc k + j))
  drop_twice (suc k) j (x ∷ xs) =
      drop_twice k j xs ∙ ap (λ i. drop i (x ∷ xs)) {x = suc (k + j)} (omega arith)

  last-append : (n : ℕ) (xs ys : List A) → last n (last n xs ++ ys) ≡ last n (xs ++ ys)
  last-append n xs ys =
      let k = length xs - n in
      let whole = drop-append k xs ys (omega arith) in
      ap (last n) (sym whole)
      ∙ drop_twice k (length (drop k (xs ++ ys)) - n) (xs ++ ys)
      ∙ ap (λ i. drop i (xs ++ ys)) (omega (arith, length-drop k (xs ++ ys), length-append xs ys))

trim-last : (xs : List BwPoint) → trim xs ≡ last history_size xs
unfolding trim
trim-last xs =
    if_lem (λ (t : List BwPoint). t ≡ last history_size xs) (ltb history_size (length xs))
      (λ _. refl) (λ h. ap (λ i. drop i xs) {x = 0} (ground (arith, h)))

collect_from :
    (rounds : List (ℤ × Engine.Manager)) (s : ApiServer) (before : List BwPoint)
    → s.bw_history ≡ last history_size before
    → (collect_all rounds s).bw_history
      ≡ last history_size (before ++ points rounds s.last_tx s.last_rx)
unfolding collect_bandwidth
collect_from [] s before h = h ∙ ap (last history_size) (sym (append-nil before))
collect_from ((now, m) ∷ rest) s before h =
    let p = point now m s.last_tx s.last_rx ∷ [] in
    collect_from rest (collect_bandwidth now (record s { manager = m })) (before ++ p) (
      trim-last (s.bw_history ++ p)
      ∙ ap (λ l. last history_size (l ++ p)) h
      ∙ last-append history_size before p)
    ∙ ap (last history_size) (append_assoc before p _)

-- The history is the last 8640 points of all that were recorded, each of them a tenth of what the totals have grown by
-- since the round before it.
pub collect_all-last :
    (rounds : List (ℤ × Engine.Manager)) (s : ApiServer)
    → length s.bw_history ≤ history_size
    → (collect_all rounds s).bw_history
      ≡ last history_size (s.bw_history ++ points rounds s.last_tx s.last_rx)
collect_all-last rounds s h =
    collect_from rounds s s.bw_history (ap (λ i. drop i s.bw_history) {x = 0} (omega arith))
