-- ===== src/Base/Splits.antt =====
-- Splitting a text at a character or at a word; as Rust's `str` does.
use Prim.Native.Nat.{ℕ, zero, suc, ◌-◌}
use mathlib.Core.Path.{◌≡◌, refl, ap, ◌∙◌}
use mathlib.Core.Logic.{◌≢◌}
use mathlib.Core.Bool.{Bool, true, false, ◌&&◌}
use mathlib.Core.List.{List, [], ◌∷◌, ◌++◌}
use native.Mathlib.Omega.{arith}
use device_sdk.Base.Tests.{◌==◌, if◌then◌else◌}
use device_sdk.Base.Lists.{length, All}
use device_sdk.Base.Texts.{Text, codes, join, split, extend_head}

-- The character does not occur.
abbrev pub Free : ℕ → Text → Type 0
Free c = All (λ d. d ≢ c)

-- The text is put in front of the first part.
abbrev pub extend : Text → List Text → List Text
extend s [] = s ∷ []
extend s (part ∷ parts) = (s ++ part) ∷ parts

pub split-Free : (sep : ℕ) (s : Text) → Free sep s → split sep s ≡ s ∷ []
unfolding split
split-Free sep [] h = refl
split-Free sep (c ∷ s) (n, h) = ground (arith, split-Free sep s h)

pub split-append : (sep : ℕ) (s t : Text) → Free sep s → split sep (s ++ sep ∷ t) ≡ s ∷ split sep t
unfolding split
split-append sep [] t h = ground arith
split-append sep (c ∷ s) t (n, h) = ground (arith, split-append sep s t h)

join-extend_head :
    (sep c : ℕ) (parts : List Text) → join sep (extend_head c parts) ≡ c ∷ join sep parts
unfolding join
join-extend_head sep c [] = refl
join-extend_head sep c (p ∷ []) = refl
join-extend_head sep c (p ∷ q ∷ ps) = refl

pub split-ne-nil : (sep : ℕ) (s : Text) → split sep s ≢ []
unfolding split
split-ne-nil sep [] h = cc
split-ne-nil sep (c ∷ s) h = extend_head-ne-nil _ _ _ _ h
  where
    extend_head-ne-nil :
        (b : Bool) (d : ℕ) (l m : List Text) → (if b then [] ∷ m else extend_head d l) ≢ []
    extend_head-ne-nil true d l m h = cc
    extend_head-ne-nil false d [] m h = cc
    extend_head-ne-nil false d (p ∷ ps) m h = cc

join_one : (sep : ℕ) (p : Text) → join sep (p ∷ []) ≡ p
unfolding join
join_one sep p = refl

join-nil : (sep : ℕ) (l : List Text) → l ≢ [] → join sep ([] ∷ l) ≡ sep ∷ join sep l
unfolding join
join-nil sep [] n = absurd (n refl)
join-nil sep (p ∷ ps) n = refl

-- Joining the parts gives the text back.
pub join-split : (sep : ℕ) (s : Text) → join sep (split sep s) ≡ s
unfolding split
join-split sep [] = join_one sep []
join-split sep (c ∷ s) = ground (
  arith,
  join-split sep s,
  join-nil sep (split sep s) (split-ne-nil sep s),
  join-extend_head sep c (split sep s),
)

-- Splitting what was joined gives the parts back, if none holds the separator and there is one.
pub split-join :
    (sep : ℕ) (p : Text) (ps : List Text)
    → Free sep p
    → All (Free sep) ps
    → split sep (join sep (p ∷ ps)) ≡ p ∷ ps
unfolding join
split-join sep p [] h hs = split-Free sep p h
split-join sep p (q ∷ qs) h (k, ks) =
    split-append sep p (join sep (q ∷ qs)) h ∙ ap (◌∷◌ p) (split-join sep q qs k ks)

-- `str::split` by a word: after a match, `skip` characters of it are still to pass.
unfoldable pub starts_with : Text → Text → Bool
starts_with [] s = true
starts_with (c ∷ p) [] = false
starts_with (c ∷ p) (d ∷ s) = c == d && starts_with p s

split_from : Text → ℕ → Text → List Text
split_from word skip [] = [] ∷ []
split_from word (suc skip) (c ∷ s) = split_from word skip s
split_from word zero (c ∷ s) =
    let matched = [] ∷ split_from word (length word - 1) s in
    let longer = extend_head c (split_from word zero s) in
    if starts_with word (c ∷ s) then matched else longer

unfoldable pub split_str : Text → Text → List Text
unfolding split_from starts_with
split_str word s = split_from word 0 s

abbrev pub mark : Text
mark = codes "://"

-- The scheme mark begins nowhere in the text.
abbrev pub NoMark : Text → Type 0
NoMark [] = Unit
NoMark (c ∷ s) = (starts_with mark (c ∷ s) ≡ false) × NoMark s

pub NoMark-append : (s t : Text) → Free b':' s → NoMark t → NoMark (s ++ t)
unfolding starts_with
NoMark-append [] t _ h = h
NoMark-append (c ∷ s) t (n, f) h = (ground arith, NoMark-append s t f h)

-- A colon that no slash follows begins no mark.
pub NoMark-colon : (s t : Text) → s ≢ [] → Free b'/' s → NoMark (s ++ t) → NoMark (b':' ∷ s ++ t)
unfolding starts_with
NoMark-colon [] t n f h = absurd (n refl)
NoMark-colon (c ∷ s) t n (g, f) h = (ground arith, h)

split_from-NoMark : (s : Text) → NoMark s → split_from mark 0 s ≡ s ∷ []
unfolding split_from
split_from-NoMark [] h = refl
split_from-NoMark (c ∷ s) (n, h) = rw n (ap (extend_head c) (split_from-NoMark s h))

split_from-mark :
    (s t : Text) → Free b':' s → split_from mark 0 (s ++ (mark ++ t)) ≡ s ∷ split_from mark 0 t
unfolding split_from starts_with
split_from-mark [] t f = refl
split_from-mark (c ∷ s) t (n, f) = ground (arith, split_from-mark s t f)

-- A text that holds one mark is split at it.
pub split_str-mark :
    (s t : Text) → Free b':' s → NoMark t → split_str mark (s ++ (mark ++ t)) ≡ s ∷ t ∷ []
unfolding split_str
split_str-mark s t f h = split_from-mark s t f ∙ ap (◌∷◌ s) (split_from-NoMark t h)

-- The end of a line.
abbrev pub crlf : Text
crlf = 13 ∷ 10 ∷ []

split_from-crlf :
    (s t : Text) → Free 13 s → split_from crlf 0 (s ++ (crlf ++ t)) ≡ s ∷ split_from crlf 0 t
unfolding split_from starts_with
split_from-crlf [] t f = refl
split_from-crlf (c ∷ s) t (n, f) = ground (arith, split_from-crlf s t f)

-- A text is split at a line's end.
pub split_str-crlf :
    (s t : Text) → Free 13 s → split_str crlf (s ++ (crlf ++ t)) ≡ s ∷ split_str crlf t
unfolding split_str
split_str-crlf = split_from-crlf
