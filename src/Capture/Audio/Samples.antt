-- ===== src/Capture/Audio/Samples.antt =====
-- crates/xrds-net/src/client/xrds_webrtc/media/audio_capturer.rs: `resample_and_convert`.
use native.Mathlib.Nat.{zero-div}
use device_sdk.Base.{
  ℕ, zero, suc, ◌+◌, ◌-◌, ◌*◌, ◌^◌, ◌<◌, List, [], ◌∷◌, Option, none, some, ltb, if◌then◌else◌, ◌≡◌,
  inl, inr, refl, ap, sym, subst, arith, length, All, Has, Bool-cases, ◌==◌,
}
use device_sdk.Capture.Audio.{
  Scaling, sample_at, take_samples, resample_and_convert, min, consed, output_len,
}

sample_at-Has :
    (xs : List ℕ) (i : ℕ) → i < length xs → (x : ℕ) × ((sample_at xs i ≡ some x) × Has x xs)
unfolding sample_at
sample_at-Has [] i l = absurd (omega (arith, l))
sample_at-Has (x ∷ xs) i l = elim (Bool-cases (i == 0)) [
  | inl here ↦ (x, (rw here refl, inl refl))
  | inr later ↦
      let (y, (e, h)) = sample_at-Has xs (i - 1) (ground (arith, l, later)) in
      (y, (rw later e, inr h))
]

module _ (scaling : Scaling) where
  -- A list of the length, with samples of the input only.
  abbrev pub Samples : List ℕ → ℕ → Option (List ℕ) → Type 0
  Samples input n o =
      (out : List ℕ) × ((o ≡ some out) × ((length out ≡ n) × All (λ x. Has x input) out))

  consed-Samples :
      (input : List ℕ) (n : ℕ) (x : ℕ) (o : Option ℕ) (rest : Option (List ℕ))
      → o ≡ some x
      → Has x input
      → Samples input n rest
      → Samples input (suc n) (consed o rest)
  consed-Samples input n x o rest e h (out, (f, (l, a))) =
      (x ∷ out, (rw (e, f) refl, (ap suc l, (h, a))))

  take_samples-Samples :
      (y : ℕ) (ys : List ℕ) (i n : ℕ) → Samples (y ∷ ys) n (take_samples scaling (y ∷ ys) i n)
  unfolding take_samples
  take_samples-Samples y ys i zero = ([], (refl, (refl, tt)))
  take_samples-Samples y ys i (suc n) =
      let (x, (e, h)) =
        sample_at-Has (y ∷ ys) (min (scaling.source i) (length ys)) (ground arith) in
      consed-Samples (y ∷ ys) n x _ _ e h (take_samples-Samples y ys (i + 1) n)

  none_scaled : (ch : ℕ) → scaling.scaled 0 ≡ 0 → output_len scaling [] ch ≡ 0
  none_scaled ch z = rw (z, zero-div) (omega arith)

  in_memory :
      {A : Type 0} (n ch : ℕ) (x y : A)
      → 0 < ch
      → n * 2 < 2 ^ 63
      → (if ch == 0 then y else if ltb (n * 2) (2 ^ 63) then x else y) ≡ x
  in_memory n ch x y l k = ground (arith, l, k)

  -- For whatever the arithmetic of `f32` gives, but that no samples scale to none, at least one output
  -- channel, and a scaled length whose samples fit into a vector, `resample_and_convert` does not panic
  -- and gives as many samples as the scaled length has in whole frames, each of them a sample of the
  -- input.
  pub resample_and_convert-Samples :
      (input : List ℕ) (output_channels : ℕ)
      → scaling.scaled 0 ≡ 0
      → 0 < output_channels
      → output_len scaling input output_channels * 2 < 2 ^ 63
      → Samples input
          (output_len scaling input output_channels)
          (resample_and_convert scaling input output_channels)
  unfolding resample_and_convert take_samples
  resample_and_convert-Samples [] output_channels z l k =
      subst (Samples [] (output_len scaling [] output_channels))
        (sym (in_memory (output_len scaling [] output_channels) output_channels _ none l k))
        (rw (none_scaled output_channels z) ([], (refl, (refl, tt))))
  resample_and_convert-Samples (y ∷ ys) output_channels z l k =
      subst (Samples (y ∷ ys) (output_len scaling (y ∷ ys) output_channels))
        (sym (in_memory (output_len scaling (y ∷ ys) output_channels) output_channels _ none l k))
        (take_samples-Samples y ys 0 (output_len scaling (y ∷ ys) output_channels))
