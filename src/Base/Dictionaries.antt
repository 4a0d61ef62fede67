-- ===== src/Base/Dictionaries.antt =====
-- `HashMap<String, V>` as an association list with one entry for a key.
use mathlib.Core.Path.{◌≡◌, refl, sym, subst}
use mathlib.Core.Logic.{◌≢◌, inl, inr}
use mathlib.Core.Option.{Option, none, some}
use mathlib.Core.List.{List, [], ◌∷◌}
use native.Mathlib.Omega.{arith}
use device_sdk.Base.Tests.{if◌then◌else◌, Bool-cases}
use device_sdk.Base.Texts.{Text, same, same_iff, same_refl, Lacks, Distinct}

abbrev pub Dict {ℓ} : Type ℓ → Type ℓ
Dict V = List (Text × V)

module _ {ℓ} {V : Type ℓ} where
  unfoldable pub lookup : Text → Dict V → Option V
  lookup k [] = none
  lookup k ((j, v) ∷ m) = if same j k then some v else lookup k m

  unfoldable pub insert : Text → V → Dict V → Dict V
  insert k v [] = (k, v) ∷ []
  insert k v ((j, w) ∷ m) = if same j k then (j, v) ∷ m else (j, w) ∷ insert k v m

  unfoldable pub delete : Text → Dict V → Dict V
  delete k [] = []
  delete k ((j, v) ∷ m) = if same j k then delete k m else (j, v) ∷ delete k m

  unfoldable pub keys : Dict V → List Text
  keys [] = []
  keys ((j, v) ∷ m) = j ∷ keys m

  pub lookup-insert :
      (k j : Text) (v : V) (m : Dict V)
      → lookup j (insert k v m) ≡ (if same k j then some v else lookup j m)
  unfolding lookup insert
  lookup-insert k j v [] = refl
  lookup-insert k j v ((i, w) ∷ m) =
      ground (arith, same_iff k j, same_iff i k, same_iff i j, lookup-insert k j v m)

  pub lookup-insert_self : (k : Text) (v : V) (m : Dict V) → lookup k (insert k v m) ≡ some v
  lookup-insert_self k v m = ground (arith, lookup-insert k k v m, same_refl k)

  pub lookup-insert_other :
      (k j : Text) (v : V) (m : Dict V) → k ≢ j → lookup j (insert k v m) ≡ lookup j m
  lookup-insert_other k j v m n = ground (arith, lookup-insert k j v m, same_iff k j)

  pub lookup-delete :
      (k j : Text) (m : Dict V) → lookup j (delete k m) ≡ (if same k j then none else lookup j m)
  unfolding lookup delete
  lookup-delete k j [] = ground arith
  lookup-delete k j ((i, w) ∷ m) =
      ground (arith, same_iff k j, same_iff i k, same_iff i j, lookup-delete k j m)

  pub lookup-delete_other : (k j : Text) (m : Dict V) → k ≢ j → lookup j (delete k m) ≡ lookup j m
  lookup-delete_other k j m n = ground (arith, lookup-delete k j m, same_iff k j)

  pub lookup-delete_self : (k : Text) (m : Dict V) → lookup k (delete k m) ≡ none
  lookup-delete_self k m = ground (arith, lookup-delete k k m, same_refl k)

  pub insert-insert : (k : Text) (v w : V) (m : Dict V) → insert k w (insert k v m) ≡ insert k w m
  unfolding insert
  insert-insert k v w [] = ground (arith, same_refl k)
  insert-insert k v w ((j, u) ∷ m) = ground (arith, insert-insert k v w m)

  -- Writing back what is there changes nothing.
  pub insert_same : (k : Text) (v : V) (m : Dict V) → lookup k m ≡ some v → insert k v m ≡ m
  unfolding lookup insert
  insert_same k v [] e = cc
  insert_same k v ((j, u) ∷ m) e = ground (arith, insert_same k v m)

-- Every entry satisfies `P`.
module _ {ℓ κ} {V : Type ℓ} (P : Text → V → Type κ) where
  abbrev pub Entries : Dict V → Type κ
  Entries [] = Unit
  Entries ((k, v) ∷ m) = P k v × Entries m

  pub Entries-lookup : (k : Text) (m : Dict V) (v : V) → Entries m → lookup k m ≡ some v → P k v
  unfolding lookup
  Entries-lookup k [] v h e = cc
  Entries-lookup k ((j, w) ∷ m) v (p, h) e = elim (Bool-cases (same j k)) [
    | inl hit ↦
        let found : some w ≡ some v = rw hit at e in
        subst (λ i. P i v) ((same_iff j k).0 hit) (subst (P j) (cc) p)
    | inr miss ↦ Entries-lookup k m v h (rw miss at e)
  ]

  pub Entries-insert : (k : Text) (v : V) (m : Dict V) → P k v → Entries m → Entries (insert k v m)
  unfolding insert
  Entries-insert k v [] p h = (p, tt)
  Entries-insert k v ((j, w) ∷ m) p (q, h) = elim (Bool-cases (same j k)) [
    | inl hit ↦ rw hit (subst (λ i. P i v) (sym ((same_iff j k).0 hit)) p, h)
    | inr miss ↦ rw miss (q, Entries-insert k v m p h)
  ]

  pub Entries-delete : (k : Text) (m : Dict V) → Entries m → Entries (delete k m)
  unfolding delete
  Entries-delete k [] h = tt
  Entries-delete k ((j, w) ∷ m) (q, h) = ground (arith, Entries-delete k m h)

module _ {ℓ} {V : Type ℓ} where
  insert-Lacks :
      (x k : Text) (v : V) (m : Dict V) → x ≢ k → Lacks x (keys m) → Lacks x (keys (insert k v m))
  unfolding insert keys
  insert-Lacks x k v [] n l = (n, tt)
  insert-Lacks x k v ((j, w) ∷ m) n (o, l) = ground (arith, insert-Lacks x k v m n l)

  delete-Lacks : (x k : Text) (m : Dict V) → Lacks x (keys m) → Lacks x (keys (delete k m))
  unfolding delete keys
  delete-Lacks x k [] l = tt
  delete-Lacks x k ((j, w) ∷ m) (o, l) = ground (arith, delete-Lacks x k m l)

  -- The keys stay distinct.
  pub insert-Distinct :
      (k : Text) (v : V) (m : Dict V) → Distinct (keys m) → Distinct (keys (insert k v m))
  unfolding insert keys
  insert-Distinct k v [] h = (tt, tt)
  insert-Distinct k v ((j, w) ∷ m) (l, h) =
      ground (arith, same_iff j k, insert-Lacks j k v m, insert-Distinct k v m h, l)

  pub delete-Distinct : (k : Text) (m : Dict V) → Distinct (keys m) → Distinct (keys (delete k m))
  unfolding delete keys
  delete-Distinct k [] h = tt
  delete-Distinct k ((j, w) ∷ m) (l, h) =
      ground (arith, delete-Lacks j k m l, delete-Distinct k m h)
