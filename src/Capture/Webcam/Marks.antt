-- ===== src/Capture/Webcam/Marks.antt =====
-- crates/xrds-net/src/client/xrds_webrtc/webcam_reader.rs: the marks of a whole JPEG image.
use device_sdk.Base.{
  ℕ, suc, ◌≤◌, List, [], ◌∷◌, ◌++◌, true, ◌≡◌, refl, ap, arith, length, length-append,
}
use device_sdk.Capture.Webcam.Frames.{byte_at, is_complete}

byte_at-suc : (i b : ℕ) (bs : List ℕ) → byte_at (suc i) (b ∷ bs) ≡ byte_at i bs
unfolding byte_at
byte_at-suc i b bs = ground arith

pair_at : (a b : ℕ) → a ∷ b ∷ [] ≡ byte_at 0 (a ∷ b ∷ []) ∷ byte_at 1 (a ∷ b ∷ []) ∷ []
unfolding byte_at
pair_at a b = refl

-- A list of two elements or more ends in the two at its last indices.
last_two :
    (a b : ℕ) (bs : List ℕ)
    → (rest : List ℕ) × (a ∷ b ∷ bs
        ≡ rest ++ byte_at (length bs) (a ∷ b ∷ bs) ∷ byte_at (suc (length bs)) (a ∷ b ∷ bs) ∷ [])
last_two a b [] = ([], pair_at a b)
last_two a b (c ∷ bs) =
    let (rest, e) = last_two b c bs in
    (
      a ∷ rest,
      rw (byte_at-suc (length bs) a (b ∷ c ∷ bs), byte_at-suc (suc (length bs)) a (b ∷ c ∷ bs))
          (ap (λ x. a ∷ x) e),
    )

-- A JPEG image: its two marks, with five bytes or more between them.
pub IsFrame : List ℕ → Type 0
IsFrame f =
    (inner : List ℕ) × ((f ≡ 0xFF ∷ 0xD8 ∷ (inner ++ 0xFF ∷ 0xD9 ∷ [])) × (5 ≤ length inner))

marks_of :
    (a b c d : ℕ) (bs : List ℕ)
    → is_complete (a ∷ b ∷ c ∷ d ∷ bs) ≡ true
    → ((a ≡ 0xFF) × (b ≡ 0xD8))
      × ((byte_at (length bs) (c ∷ d ∷ bs) ≡ 0xFF)
          × ((byte_at (suc (length bs)) (c ∷ d ∷ bs) ≡ 0xD9) × (7 ≤ length (c ∷ d ∷ bs))))
unfolding is_complete
marks_of a b c d bs h = ground arith

pub is_complete-IsFrame : (f : List ℕ) → is_complete f ≡ true → IsFrame f
unfolding is_complete IsFrame
is_complete-IsFrame [] h = ground arith
is_complete-IsFrame (a ∷ []) h = ground arith
is_complete-IsFrame (a ∷ b ∷ []) h = ground arith
is_complete-IsFrame (a ∷ b ∷ c ∷ []) h = ground arith
is_complete-IsFrame (a ∷ b ∷ c ∷ d ∷ bs) h =
    let ((p, q), (r, (t, l))) = marks_of a b c d bs h in
    let (rest, e) = last_two c d bs in
    (
      rest,
      (
        rw (p, q, e, r, t) refl,
        omega (
          arith,
          l,
          ap length e,
          length-append rest
              (byte_at (length bs) (c ∷ d ∷ bs) ∷ byte_at (suc (length bs)) (c ∷ d ∷ bs) ∷ []),
        ),
      ),
    )
