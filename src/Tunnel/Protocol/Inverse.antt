-- ===== src/Tunnel/Protocol/Inverse.antt =====
-- What ReadFrame accepts: the bytes of one frame, and what follows them.
use slip_stream_plus.Prelude.{
  ℕ, ◌<◌, ◌≤◌, ◌≡◌, ◌≢◌, refl, sym, ap, ◌∙◌, List, [], ◌∷◌, ◌++◌, length, arith, ltb, ◌⊎◌, inl, inr,
  Bool-cases, All, take-append-drop, length-take,
}
use mathlib.Core.List.{append_assoc, append-nil}
use slip_stream_plus.Tunnel.Protocol.{
  Bytes, Frame, Error, Result, ok, err, ◌>>=◌, uint16, frame_bytes, read_full, read_body, frame_of,
  read_after, read_frame, header_size, max_payload_size,
}
use slip_stream_plus.Tunnel.Protocol.RoundTrip.{
  IsFrame, header, frame_bytes-header, read_frame_back,
}

abbrev pub IsByte : ℕ → Type 0
IsByte b = b < 256

pub All-append {ℓ κ} :
    {A : Type ℓ} (P : A → Type κ) (xs ys : List A) → All P (xs ++ ys) → All P xs × All P ys
All-append P [] ys h = (tt, h)
All-append P (x ∷ xs) ys h = let rest = All-append P xs ys h.1 in ((h.0, rest.0), rest.1)

read_full_inv : (n : ℕ) (r a b : Bytes) → read_full n r ≡ ok (a, b) → (r ≡ a ++ b) × (length a ≡ n)
unfolding read_full
read_full_inv n r a b e = ground (arith, take-append-drop n r, length-take n r)

read_body_inv : (n : ℕ) (r a b : Bytes) → read_body n r ≡ ok (a, b) → (r ≡ a ++ b) × (length a ≡ n)
unfolding read_body
read_body_inv n r a b e = ground (arith, take-append-drop n r, length-take n r)

-- Both steps succeed if the two in a row do.
pub both_ok {κ ℓ} :
    {B : Type κ} {A : Type ℓ} {last : B} (first : Result A) (step : A → Result B)
    → first >>= step ≡ ok last
    → (got : A) × (first ≡ ok got) × (step got ≡ ok last)
both_ok {last} (err why) step e = cc
both_ok (ok got) step e = (got, refl, e)

-- What `read_after` has read when it succeeds.
record Taken (hdr r rest : Bytes) (f : Frame) : Type 0 where
  split : r ≡ f.payload ++ rest
  made : f ≡ frame_of hdr f.payload
  counted : length f.payload ≡ uint16 hdr 9
  fits : length f.payload ≤ max_payload_size

read_after_some :
    (hdr r rest : Bytes) (f : Frame)
    → uint16 hdr 9 ≤ max_payload_size
    → ◌>>=◌ {B = Frame × Bytes} (read_body (uint16 hdr 9) r) (λ p. ok (frame_of hdr (p.0), p.1))
      ≡ ok (f, rest)
    → Taken hdr r rest f
read_after_some hdr r rest f h e =
    let ((a, b), m, q) = both_ok (read_body (uint16 hdr 9) r) _ e in
    let got = read_body_inv (uint16 hdr 9) r a b m in
    record {
      split = unfold frame_of in ground arith;
      made = unfold frame_of in ground arith;
      counted = unfold frame_of in ground arith;
      fits = unfold frame_of in ground arith;
    }

read_after_none :
    (hdr r rest : Bytes) (f : Frame)
    → uint16 hdr 9 ≡ 0
    → ◌≡◌ {A = Result (Frame × Bytes)} (ok (frame_of hdr [], r)) (ok (f, rest))
    → Taken hdr r rest f
unfolding frame_of
read_after_none hdr r rest f h e = record {
  split = ground arith;
  made = ground arith;
  counted = ground arith;
  fits = ground arith;
}

read_after_inv :
    (hdr r rest : Bytes) (f : Frame) → read_after hdr r ≡ ok (f, rest) → Taken hdr r rest f
unfolding read_after
read_after_inv hdr r rest f e = elim (Bool-cases (ltb max_payload_size (uint16 hdr 9))) [
  | inl big ↦ absurd (cc (rw big at e))
  | inr small ↦ elim (Bool-cases (ltb 0 (uint16 hdr 9))) [
    | inl any ↦ read_after_some hdr r rest f (ground arith) (rw (small, any) at e)
    | inr empty ↦ read_after_none hdr r rest f (ground arith) (rw (small, empty) at e)
  ]
]

header-frame_of :
    (hdr p : Bytes)
    → length hdr ≡ header_size
    → All IsByte hdr
    → length p ≡ uint16 hdr 9
    → header (frame_of hdr p) ≡ hdr
unfolding header frame_of uint16
header-frame_of (a ∷ b ∷ c ∷ d ∷ i ∷ j ∷ k ∷ l ∷ m ∷ n ∷ o ∷ []) p e h q = ground arith
header-frame_of _ p e h q = absurd (omega arith)

frame_of-IsFrame :
    (hdr p : Bytes)
    → length hdr ≡ header_size
    → All IsByte hdr
    → length p ≤ max_payload_size
    → IsFrame (frame_of hdr p)
unfolding frame_of
frame_of-IsFrame (a ∷ b ∷ c ∷ d ∷ i ∷ j ∷ k ∷ l ∷ m ∷ n ∷ o ∷ []) p e h q = omega arith
frame_of-IsFrame _ p e h q = absurd (omega arith)

-- ReadFrame accepts nothing but frames: on a stream of bytes, whatever it returns is a frame within
-- its widths, and the stream began with exactly the bytes that WriteFrame writes for it.
pub read_frame_inv :
    (r rest : Bytes) (f : Frame)
    → All IsByte r
    → read_frame r ≡ ok (f, rest)
    → IsFrame f × ((bs : Bytes) × (frame_bytes f ≡ ok bs) × (r ≡ bs ++ rest))
unfolding read_frame
read_frame_inv r rest f bytes e =
    let ((hdr, r'), m, q) = both_ok (read_full header_size r) _ e in
    let (split, eleven) = read_full_inv header_size r hdr r' m in
    let t = read_after_inv hdr r' rest f q in
    let hdr_bytes = (All-append IsByte hdr r' (rw split at bytes)).0 in
    let v : IsFrame f = rw t.made (frame_of-IsFrame hdr f.payload eleven hdr_bytes t.fits) in
    let same : header f ≡ hdr =
      ap header t.made ∙ header-frame_of hdr f.payload eleven hdr_bytes t.counted in
    (
      v,
      (
        header f ++ f.payload,
        frame_bytes-header f v,
        split
            ∙ ap (◌++◌ hdr) t.split
            ∙ sym (append_assoc hdr f.payload rest)
            ∙ ap (λ h. (h ++ f.payload) ++ rest) (sym same),
      ),
    )

All-join {ℓ κ} :
    {A : Type ℓ} (P : A → Type κ) (xs ys : List A) → All P xs → All P ys → All P (xs ++ ys)
All-join P [] ys h k = k
All-join P (x ∷ xs) ys h k = (h.0, All-join P xs ys h.1 k)

header-IsByte : (f : Frame) → IsFrame f → All IsByte (header f)
unfolding header
header-IsByte f v = omega arith

append-ne-nil : (xs ys : Bytes) (x : ℕ) → xs ++ (x ∷ ys) ≢ []
append-ne-nil [] ys x e = cc
append-ne-nil (y ∷ xs) ys x e = cc

failed_or_not {ℓ} :
    {A : Type ℓ} (out : Result A) → ((why : Error) × (out ≡ err why)) ⊎ ((got : A) × (out ≡ ok got))
failed_or_not (err why) = inl (why, refl)
failed_or_not (ok got) = inr (got, refl)

-- ReadFrame reads no frame from a stream that ends inside one: on every proper prefix of a frame's
-- bytes it fails.
pub read_frame_truncated :
    (f : Frame) (front back : Bytes) (x : ℕ)
    → IsFrame f
    → All IsByte f.payload
    → frame_bytes f ≡ ok (front ++ (x ∷ back))
    → (e : Error) × (read_frame front ≡ err e)
read_frame_truncated f front back x v h e = elim (failed_or_not (read_frame front)) [
  | inl failed ↦ failed
  | inr ((g, rest), r) ↦ absurd (too_long g rest (read_frame_inv front rest g front_bytes r))
]
  where
    whole : header f ++ f.payload ≡ front ++ (x ∷ back)
    whole = cc (frame_bytes-header f v, e)

    all_bytes : All IsByte (header f ++ f.payload)
    all_bytes = All-join IsByte (header f) f.payload (header-IsByte f v) h

    front_bytes : All IsByte front
    front_bytes = (All-append IsByte front (x ∷ back) (rw whole at all_bytes)).0

    too_long :
        (g : Frame) (rest : Bytes)
        → IsFrame g × ((bs : Bytes) × (frame_bytes g ≡ ok bs) × (front ≡ bs ++ rest))
        → ⊥
    too_long g rest (w, (bs, made, split)) =
        let more = x ∷ back in
        let one : read_frame (front ++ more) ≡ ok (g, rest ++ more) =
          rw (split, append_assoc bs rest more) (read_frame_back g bs (rest ++ more) w made) in
        let two : read_frame (front ++ more) ≡ ok (f, []) =
          rw (append-nil (front ++ more)) at (read_frame_back f (front ++ more) [] v e) in
        append-ne-nil rest back x (cc (one, two))
