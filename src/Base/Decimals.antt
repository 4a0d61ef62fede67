-- ===== src/Base/Decimals.antt =====
-- Decimal numbers of 32 bits, printed and read as Rust does.
use Prim.Native.Nat.{ℕ, zero, suc, ◌+◌, ◌-◌, ◌*◌, ◌/◌, ◌%◌, ◌^◌, ◌≤◌, ◌<◌}
use mathlib.Core.Path.{◌≡◌, refl, ap, ◌∙◌}
use mathlib.Core.Logic.{◌≢◌, ◌⊎◌, inl, inr}
use mathlib.Core.Bool.{Bool, ◌&&◌}
use mathlib.Core.Option.{Option, none, some}
use mathlib.Core.List.{[], ◌∷◌, ◌++◌, append_assoc, append-nil}
use native.Mathlib.Omega.{arith}
use native.Mathlib.Nat.{pow-suc}
use device_sdk.Base.Tests.{Bool-cases, ltb, leb, ◌==◌, if◌then◌else◌}
use device_sdk.Base.Lists.{All, All-append}
use device_sdk.Base.Texts.{Text}
use device_sdk.Base.Splits.{Free}

-- `str::parse::<u32>`: an optional `+`, then digits, within 32 bits.
abbrev pub u32_max : ℕ
u32_max = 2 ^ 32 - 1

abbrev pub is_digit : ℕ → Bool
is_digit c = leb b'0' c && leb c b'9'

unfoldable pub scan : Text → ℕ → Option ℕ
scan [] n = some n
scan (c ∷ s) n =
    if is_digit c && leb (n * 10 + (c - b'0')) u32_max then scan s (n * 10 + (c - b'0')) else none

abbrev pub scan_some : Text → Option ℕ
scan_some [] = none
scan_some (c ∷ s) = scan (c ∷ s) 0

unfoldable pub parse_u32 : Text → Option ℕ
unfolding scan
parse_u32 [] = none
parse_u32 (c ∷ s) = if c == b'+' then scan_some s else scan_some (c ∷ s)

-- The decimal digits of a number; ten are enough for 32 bits.
unfoldable pub digits : ℕ → ℕ → Text
digits zero n = []
digits (suc fuel) n =
    let front = digits fuel (n / 10) in
    if ltb n 10 then (b'0' + n) ∷ [] else front ++ (b'0' + n % 10) ∷ []

unfoldable pub to_text : ℕ → Text
to_text n = digits 10 n

tenth : (fuel n : ℕ) → n < 10 ^ suc fuel → n / 10 < 10 ^ fuel
tenth fuel n h = omega (arith, pow-suc 10 fuel)

-- Reading the last digit.
scan_last :
    (n : ℕ) (rest : Text) → n ≤ u32_max → scan ((b'0' + n % 10) ∷ rest) (n / 10) ≡ scan rest n
unfolding scan
scan_last n rest b =
    let whole : n / 10 * 10 + (b'0' + n % 10 - b'0') ≡ n = omega arith in rw whole (ground arith)

scan-digits :
    (fuel n : ℕ) (rest : Text)
    → n < 10 ^ fuel
    → n ≤ u32_max
    → scan (digits fuel n ++ rest) 0 ≡ scan rest n
unfolding scan digits
scan-digits zero n rest h b = ap (scan rest) (omega arith)
scan-digits (suc fuel) n rest h b = elim (Bool-cases (ltb n 10)) [
  | inl e ↦ rw e (ground arith)
  | inr e ↦
      rw (e, append_assoc)
        (scan-digits fuel (n / 10) ((b'0' + n % 10) ∷ rest) (tenth fuel n h) (omega arith)
          ∙ scan_last n rest b)
]

digits-is_digit : (fuel n : ℕ) → All (λ c. (b'0' ≤ c) × (c ≤ b'9')) (digits fuel n)
unfolding digits
digits-is_digit zero n = tt
digits-is_digit (suc fuel) n = elim (Bool-cases (ltb n 10)) [
  | inl e ↦ rw e ((omega arith, ground arith), tt)
  | inr e ↦ rw e (
      All-append (λ c. (b'0' ≤ c) × (c ≤ b'9')) (digits fuel (n / 10)) ((b'0' + n % 10) ∷ [])
        (digits-is_digit fuel (n / 10)) ((omega arith, omega arith), tt))
]

-- What is no digit does not occur in a printed number.
pub to_text-Free : (c n : ℕ) → ((c < b'0') ⊎ (b'9' < c)) → Free c (to_text n)
unfolding to_text
to_text-Free c n h = lacks (digits 10 n) (digits-is_digit 10 n)
  where
    lacks : (s : Text) → All (λ d. (b'0' ≤ d) × (d ≤ b'9')) s → Free c s
    lacks [] _ = tt
    lacks (d ∷ s) (r, k) = (omega arith, lacks s k)

parse_unsigned : (s : Text) → All (λ d. (b'0' ≤ d) × (d ≤ b'9')) s → s ≢ [] → parse_u32 s ≡ scan s 0
unfolding parse_u32
parse_unsigned [] _ h = absurd (h refl)
parse_unsigned (d ∷ s) (r, _) _ = ground arith

append_one-ne-nil : (s : Text) (c : ℕ) → s ++ c ∷ [] ≢ []
append_one-ne-nil [] c h = cc
append_one-ne-nil (d ∷ s) c h = cc

digits-ne-nil : (fuel n : ℕ) → digits (suc fuel) n ≢ []
unfolding digits
digits-ne-nil fuel n = elim (Bool-cases (ltb n 10)) [
  | inl e ↦ rw e (λ h. cc)
  | inr e ↦ rw e (append_one-ne-nil (digits fuel (n / 10)) (b'0' + n % 10))
]

pub to_text-ne-nil : (n : ℕ) → to_text n ≢ []
unfolding to_text
to_text-ne-nil n = digits-ne-nil 9 n

scan_nil : (n : ℕ) → scan [] n ≡ some n
unfolding scan
scan_nil n = refl

-- Reading a printed 32-bit number gives it back.
pub parse_u32-to_text : (n : ℕ) → n ≤ u32_max → parse_u32 (to_text n) ≡ some n
unfolding to_text
parse_u32-to_text n b =
    parse_unsigned (digits 10 n) (digits-is_digit 10 n) (digits-ne-nil 9 n)
    ∙ (rw append-nil at (scan-digits 10 n [] (omega arith) b))
    ∙ scan_nil n
