-- ===== src/Base/Passes.antt =====
-- Loops whose body may stop, go on, or start its next pass early; fuel counts the passes.
use Prim.Native.Nat.{ℕ, zero, suc, ◌<◌}
use mathlib.Core.Option.{Option, none, some}
use mathlib.Core.Bool.{Bool, true, false}
use mathlib.Core.Path.{◌≡◌, refl}
use device_sdk.Base.Tests.{if◌then◌else◌}
use native.Mathlib.Omega.{arith}

-- `stuck`: a loop inside the pass has run out of its fuel. `again` is `continue`.
pub data Pass (R X : Type 0) : Type 0 where
  stuck : Pass R X
  stop : R → X → Pass R X
  again go : X → Pass R X

infixl 5 ◌>>=◌
abbrev pub ◌>>=◌ : {R X : Type 0} → Pass R X → (X → Pass R X) → Pass R X
stuck >>= next = stuck
stop r x >>= next = stop r x
again x >>= next = again x
go x >>= next = next x

-- What an inner loop has ended with.
abbrev pub ended : {R X Q Y : Type 0} → Option (R × X) → (R → X → Pass Q Y) → Pass Q Y
ended none next = stuck
ended (some (r, x)) next = next r x

abbrev pub resume : {R X : Type 0} → Pass R X → (X → Option (R × X)) → Option (R × X)
resume stuck next = none
resume (stop r x) next = some (r, x)
resume (again x) next = next x
resume (go x) next = next x

unfoldable pub repeat : {R X : Type 0} → (X → Pass R X) → ℕ → X → Option (R × X)
repeat body zero x = none
repeat body (suc fuel) x = resume (body x) (repeat body fuel)

-- A pass ends well: `Z` if it is stuck, `Q` if it stops, `A` if it starts again, `G` if it goes on.
module _ {R X : Type 0} (Z : Type 0) (A : X → Type 0) (Q : R → X → Type 0) where
  abbrev pub Ends : (X → Type 0) → Pass R X → Type 0
  Ends G stuck = Z
  Ends G (stop r x) = Q r x
  Ends G (again x) = A x
  Ends G (go x) = G x

  pub bind-Ends :
      (G H : X → Type 0) (m : Pass R X) (f : X → Pass R X)
      → Ends G m
      → ((x : X) → G x → Ends H (f x))
      → Ends H (m >>= f)
  bind-Ends G H stuck f h k = h
  bind-Ends G H (stop r x) f h k = h
  bind-Ends G H (again x) f h k = h
  bind-Ends G H (go x) f h k = k x h

  pub if-Ends :
      (G : X → Type 0) (b : Bool) (m n : Pass R X)
      → (b ≡ true → Ends G m)
      → (b ≡ false → Ends G n)
      → Ends G (if b then m else n)
  if-Ends G true m n h k = h refl
  if-Ends G false m n h k = k refl

-- A loop ends well: `Z` if its fuel runs out, `Q` if it returns.
abbrev pub After : {R X : Type 0} → Type 0 → (R → X → Type 0) → Option (R × X) → Type 0
After Z Q none = Z
After Z Q (some (r, x)) = Q r x

module _ {K Y : Type 0} (Z : Type 0) (A : Y → Type 0) (Q : K → Y → Type 0) where
  pub ended-Ends :
      {R X : Type 0} (P : R → X → Type 0) (G : Y → Type 0) (o : Option (R × X))
      (next : R → X → Pass K Y)
      → After Z P o
      → ((r : R) (x : X) → P r x → Ends Z A Q G (next r x))
      → Ends Z A Q G (ended o next)
  ended-Ends P G none next h k = h
  ended-Ends P G (some (r, x)) next h k = k r x h

module _ {R X : Type 0} (P : X → Type 0) (Q : R → X → Type 0) (body : X → Pass R X) where
  resume-After :
      (Z : Type 0) (N : X → Type 0) (m : Pass R X) (next : X → Option (R × X))
      → Ends Z N Q N m
      → ((y : X) → N y → After Z Q (next y))
      → After Z Q (resume m next)
  resume-After Z N stuck next h k = h
  resume-After Z N (stop r x) next h k = h
  resume-After Z N (again x) next h k = k x h
  resume-After Z N (go x) next h k = k x h

  -- What every pass keeps holds when the loop returns.
  pub repeat-After :
      ((x : X) → P x → Ends Unit P Q P (body x))
      → (fuel : ℕ) (x : X) → P x
      → After Unit Q (repeat body fuel x)
  unfolding repeat
  repeat-After keep zero x h = tt
  repeat-After keep (suc fuel) x h =
      resume-After Unit P (body x) (repeat body fuel) (keep x h) (λ y k. repeat-After keep fuel y k)

  -- A loop whose passes bring a measure down returns.
  pub repeat_total :
      (m : X → ℕ)
      → ((x : X) → P x → Ends ⊥ (λ y. P y × (m y < m x)) Q (λ y. P y × (m y < m x)) (body x))
      → (fuel : ℕ) (x : X) → P x
      → m x < fuel
      → After ⊥ Q (repeat body fuel x)
  unfolding repeat
  repeat_total m keep zero x h l = elim l [ ]
  repeat_total m keep (suc fuel) x h l =
      resume-After ⊥ (λ y. P y × (m y < m x)) (body x) (repeat body fuel) (keep x h)
        (λ y k. repeat_total m keep fuel y k.0 (omega (arith, l, k.1)))

-- Nothing is asked of an inner loop.
pub ended-Ends_any :
    {R X K Y : Type 0} (A G : Y → Type 0) (Q : K → Y → Type 0) (o : Option (R × X))
    (next : R → X → Pass K Y)
    → ((r : R) (x : X) → Ends Unit A Q G (next r x))
    → Ends Unit A Q G (ended o next)
ended-Ends_any A G Q none next k = tt
ended-Ends_any A G Q (some (r, x)) next k = k r x

pub Ends-map :
    {R X : Type 0} (Z : Type 0) (A B : X → Type 0) (Q : R → X → Type 0) (m : Pass R X)
    → ((x : X) → A x → B x)
    → Ends Z A Q A m
    → Ends Z B Q B m
Ends-map Z A B Q stuck k h = h
Ends-map Z A B Q (stop r x) k h = h
Ends-map Z A B Q (again x) k h = k x h
Ends-map Z A B Q (go x) k h = k x h

-- A loop that returns has the property that it has if it returns.
pub After-both :
    {R X : Type 0} (P Q : R → X → Type 0) (o : Option (R × X))
    → After ⊥ P o
    → After Unit Q o
    → (r : R) × ((x : X) × ((o ≡ some (r, x)) × Q r x))
After-both P Q none h k = absurd h
After-both P Q (some (r, x)) h k = (r, (x, (refl, k)))

pub After-some :
    {R X : Type 0} {Q : R → X → Type 0} (o : Option (R × X))
    → After ⊥ Q o
    → (r : R) × ((x : X) × ((o ≡ some (r, x)) × Q r x))
After-some none h = absurd h
After-some (some (r, x)) h = (r, (x, (refl, h)))
