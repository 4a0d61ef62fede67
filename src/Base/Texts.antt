-- ===== src/Base/Texts.antt =====
-- Texts as lists of code points, with Rust's equality on `str`.
use Prim.Native.Nat.{ℕ}
use Prim.Native.Char.{code}
use Prim.Native.String.{String}
use mathlib.Core.Path.{◌≡◌, refl, sym}
use mathlib.Core.Logic.{◌↔◌, ◌≢◌}
use mathlib.Core.Bool.{Bool, true, false, ◌&&◌, ◌||◌, not}
use mathlib.Core.List.{List, [], ◌∷◌, ◌++◌}
use native.Mathlib.Omega.{arith}
use device_sdk.Base.Tests.{◌==◌, if◌then◌else◌}
use device_sdk.Base.Lists.{All, All-append, All-retain, retain}

abbrev pub Text : Type 0
Text = List ℕ

abbrev pub codes : String → Text
codes String.[] = []
codes (String.◌∷◌ c s) = code c ∷ codes s

unfoldable pub same : Text → Text → Bool
same [] [] = true
same [] (_ ∷ _) = false
same (_ ∷ _) [] = false
same (a ∷ s) (b ∷ t) = a == b && same s t

pub same_iff : (s t : Text) → (same s t ≡ true) ↔ (s ≡ t)
unfolding same
same_iff [] [] = (λ _. refl, λ _. refl)
same_iff [] (b ∷ t) = (λ h. cc, λ h. cc)
same_iff (a ∷ s) [] = (λ h. cc, λ h. cc)
same_iff (a ∷ s) (b ∷ t) = ground (arith, same_iff s t)

pub same_refl : (s : Text) → same s s ≡ true
same_refl s = (same_iff s s).1 refl

-- `Vec<String>::contains`.
unfoldable pub contains : Text → List Text → Bool
contains x [] = false
contains x (y ∷ ys) = same x y || contains x ys

-- No element is `x`.
abbrev pub Lacks : Text → List Text → Type 0
Lacks x = All (λ y. x ≢ y)

-- No text stands twice.
abbrev pub Distinct : List Text → Type 0
Distinct [] = Unit {0}
Distinct (x ∷ xs) = Lacks x xs × Distinct xs

pub retain-Distinct : (p : Text → Bool) (xs : List Text) → Distinct xs → Distinct (retain p xs)
unfolding retain
retain-Distinct p [] h = tt
retain-Distinct p (x ∷ xs) (l, h) =
    ground (arith, retain-Distinct p xs h, All-retain (λ y. x ≢ y) p xs l)

pub append-Distinct :
    (xs : List Text) (x : Text) → Distinct xs → Lacks x xs → Distinct (xs ++ x ∷ [])
append-Distinct [] x h l = (tt, tt)
append-Distinct (y ∷ ys) x (k, h) (n, l) =
    (All-append (λ z. y ≢ z) ys (x ∷ []) k (λ e. n (sym e), tt), append-Distinct ys x h l)

-- `retain(|y| y != x)` leaves no `x`.
pub retain-Lacks : (x : Text) (xs : List Text) → Lacks x (retain (λ y. not (same y x)) xs)
unfolding retain
retain-Lacks x [] = tt
retain-Lacks x (y ∷ ys) = ground (arith, same_iff y x, same_iff x y, retain-Lacks x ys)

-- It changes nothing where there was none.
pub retain_of_Lacks :
    (x : Text) (xs : List Text) → Lacks x xs → retain (λ y. not (same y x)) xs ≡ xs
unfolding retain
retain_of_Lacks x [] l = refl
retain_of_Lacks x (y ∷ ys) (n, l) = ground (arith, same_iff y x, retain_of_Lacks x ys l)

pub Lacks-of_contains : (x : Text) (xs : List Text) → contains x xs ≡ false → Lacks x xs
unfolding contains
Lacks-of_contains x [] h = tt
Lacks-of_contains x (y ∷ ys) h = ground (arith, same_iff x y, Lacks-of_contains x ys)

-- `[String]::join`, and `str::split` by one character.
unfoldable pub join : ℕ → List Text → Text
join sep [] = []
join sep (x ∷ []) = x
join sep (x ∷ y ∷ ys) = x ++ sep ∷ join sep (y ∷ ys)

abbrev pub extend_head : ℕ → List Text → List Text
extend_head c [] = (c ∷ []) ∷ []
extend_head c (part ∷ parts) = (c ∷ part) ∷ parts

unfoldable pub split : ℕ → Text → List Text
split sep [] = [] ∷ []
split sep (c ∷ s) = let rest = split sep s in if c == sep then [] ∷ rest else extend_head c rest
