-- ===== src/Tunnel/Reorder.antt =====
-- internal/tunnel/reorder.go, and the loop by which its clients take out what is ready. Times are
-- milliseconds and arguments; the zero `time.Time` is `none`. A nil slice is `[]` (see Protocol).
pub mod Steps
pub mod Arrivals
pub mod Order
pub mod Gaps
use slip_stream_plus.Prelude.{
  ℕ, zero, suc, ◌+◌, ◌-◌, ◌%◌, Bool, true, false, not, ◌||◌, List, [], ◌∷◌, ltb, ◌==◌,
  if◌then◌else◌, length, Option, none, some,
}
use slip_stream_plus.Prelude.Maps.{Map, lookup, insert, delete, nat_key}
use slip_stream_plus.Tunnel.Protocol.{Bytes, u32_mod}

pub record Reorderer : Type 0 where
  pub next_seq : ℕ
  pub buffer : Map ℕ Bytes
  pub gap_timeout : ℕ
  pub waiting_since : Option ℕ

unfoldable pub new_reorderer_at : ℕ → Reorderer
new_reorderer_at start_seq = record {
  next_seq = start_seq;
  buffer = [];
  gap_timeout = 2000;
  waiting_since = none;
}

unfoldable pub new_reorderer : Reorderer
unfolding new_reorderer_at
new_reorderer = new_reorderer_at 0

-- `Insert`
unfoldable pub put : ℕ → Bytes → Reorderer → Reorderer
put seq payload r =
    if ltb seq r.next_seq then r else record r { buffer = insert seq payload r.buffer }

-- The loop of `skipToLowest` over the map, from its two variables.
unfoldable pub lowest : Map ℕ Bytes → ℕ → Bool → ℕ × Bool
lowest [] min_seq found = (min_seq, found)
lowest ((seq, _) ∷ rest) min_seq found =
    let hit = not found || ltb seq min_seq in
    lowest rest (if hit then seq else min_seq) (if hit then true else found)

unfoldable pub skip_to_lowest : Reorderer → Reorderer
skip_to_lowest r =
    let (min_seq, found) = lowest r.buffer r.next_seq false in
    if found then (if ltb r.next_seq min_seq then record r { next_seq = min_seq } else r) else r

-- The frame at `nextSeq` goes out and the number moves on.
unfoldable pub deliver : Bytes → Reorderer → Bytes × Reorderer
deliver payload r = (
  payload,
  record r {
    buffer = delete r.next_seq r.buffer;
    next_seq = (r.next_seq + 1) % u32_mod;
    waiting_since = none;
  },
)

unfoldable pub deliver_present : Reorderer → Bytes × Reorderer
unfolding deliver
deliver_present r = elim (lookup r.next_seq r.buffer) [
  | some payload ↦ deliver payload r
  | none ↦ ([], r)
]

-- What `Next` does past the gap timeout.
unfoldable pub skip : Reorderer → Bytes × Reorderer
unfolding deliver_present
skip r = deliver_present (record (skip_to_lowest r) { waiting_since = none })

-- What `Next` does when the frame at `nextSeq` is missing.
unfoldable pub wait : ℕ → Reorderer → Bytes × Reorderer
wait now r =
    if length r.buffer == 0 then ([], record r { waiting_since = none }) else elim r.waiting_since [
      | none ↦ ([], record r { waiting_since = some now })
      | some since ↦ if ltb (now - since) r.gap_timeout then ([], r) else skip r
    ]

unfoldable pub next : ℕ → Reorderer → Bytes × Reorderer
unfolding deliver
next now r = elim (lookup r.next_seq r.buffer) [
  | some payload ↦ deliver payload r
  | none ↦ wait now r
]

unfoldable pub pending : Reorderer → ℕ
pending r = length r.buffer

unfoldable pub skip_gap : Reorderer → Reorderer
skip_gap r = record r { next_seq = (r.next_seq + 1) % u32_mod }

-- `for { data := r.Next(); if data == nil { break }; out = append(out, data) }`, with fuel. The
-- clock is read once in each round at most; `clock f` is what it shows with `f` rounds left.
unfoldable pub drain : (ℕ → ℕ) → ℕ → Reorderer → List Bytes × Reorderer
drain clock zero r = ([], r)
drain clock (suc f) r =
    let s = next (clock f) r in
    let more = drain clock f (s.1) in
    elim (s.0) [ [] ↦ ([], s.1) | x ∷ xs ↦ ((x ∷ xs) ∷ more.0, more.1) ]

-- Each round that goes on takes a frame out: `pending r + 1` rounds are enough (`Steps`).
unfoldable pub drain_all : (ℕ → ℕ) → Reorderer → List Bytes × Reorderer
unfolding drain pending
drain_all clock r = drain clock (suc (pending r)) r
