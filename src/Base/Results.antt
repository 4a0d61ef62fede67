-- ===== src/Base/Results.antt =====
-- `Result<A, String>`, with `?` as the bind.
use mathlib.Core.Path.{◌≡◌, refl}
use mathlib.Core.Option.{Option, none, some}
use device_sdk.Base.Texts.{Text}

pub data Result (A : Type 0) : Type 0 where
  err : Text → Result A
  ok : A → Result A

-- `Option::ok_or`.
abbrev pub ok_or : {A : Type 0} → Option A → Text → Result A
ok_or none e = err e
ok_or (some a) e = ok a

infixl 5 ◌>>=◌
abbrev pub ◌>>=◌ : {A B : Type 0} → (tried : Result A) → (A → Result B) → Result B
err reason >>= next = err reason
ok value >>= next = next value

-- Inversion of a successful bind.
pub >>=-eq-ok :
    {A B : Type 0} (tried : Result A) (next : A → Result B) {last : B}
    → (tried >>= next) ≡ ok last
    → (first : A) × (tried ≡ ok first) × (next first ≡ ok last)
>>=-eq-ok (err reason) next e = cc
>>=-eq-ok (ok first) next e = (first, refl, e)

pub ok-injective : {A : Type 0} {a b : A} → ok a ≡ ok b → a ≡ b
ok-injective h = cc

pub bind_ok :
    {A B : Type 0} {m : Result A} {a : A} → m ≡ ok a → (f : A → Result B) → (m >>= f) ≡ f a
bind_ok e f = rw e

infixl 5 ◌>>◌
abbrev pub ◌>>◌ : {B : Type 0} → (first : Result (Unit {0})) (second : Result B) → Result B
first >> second = first >>= (λ done. second)
