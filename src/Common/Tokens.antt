-- ===== src/Common/Tokens.antt =====
-- common/mod.rs: `payload_str_to_vector_str`, which takes a list of identifiers apart.
use device_sdk.Base.{
  ℕ, List, [], ◌∷◌, Bool, true, false, ◌&&◌, ◌||◌, not, ◌≡◌, ◌≢◌, refl, ap, ◌∙◌, Text, All, split,
  split-join, join, retain, Free, leb, ◌==◌, if◌then◌else◌,
}

-- `char::is_whitespace`: the code points with Unicode's White_Space property.
abbrev pub is_whitespace : ℕ → Bool
is_whitespace c =
    leb 9 c && leb c 13
    || c == 32
    || c == 133
    || c == 160
    || c == 5760
    || leb 8192 c && leb c 8202
    || leb 8232 c && leb c 8233
    || c == 8239
    || c == 8287
    || c == 12288

trim_start : Text → Text
trim_start [] = []
trim_start (c ∷ s) = if is_whitespace c then trim_start s else c ∷ s

abbrev is_empty : Text → Bool
is_empty [] = true
is_empty (c ∷ s) = false

trim_end : Text → Text
trim_end [] = []
trim_end (c ∷ s) = let t = trim_end s in if is_empty t && is_whitespace c then [] else c ∷ t

abbrev is_bracket : ℕ → Bool
is_bracket c = c == b'"' || c == b'[' || c == b']'

-- One token: trimmed, without quotes and brackets.
unfoldable pub clean_token : Text → Text
unfolding trim_start trim_end
clean_token t = retain (λ c. not (is_bracket c)) (trim_end (trim_start t))

unfoldable pub clean_tokens : List Text → List Text
clean_tokens [] = []
clean_tokens (t ∷ ts) =
    if is_empty (clean_token t) then clean_tokens ts else clean_token t ∷ clean_tokens ts

unfoldable pub payload_str_to_vector_str : Text → List Text
unfolding clean_tokens clean_token
payload_str_to_vector_str payload = clean_tokens (split b',' payload)

-- A text without white space, quotes, brackets and commas.
abbrev pub IsPlain : Text → Type 0
IsPlain = All (λ c. (is_whitespace c ≡ false) × (is_bracket c ≡ false) × (c ≢ b','))

trim_start_plain : (s : Text) → IsPlain s → trim_start s ≡ s
unfolding trim_start
trim_start_plain [] h = refl
trim_start_plain (c ∷ s) ((w, _, _), h) = rw w

trim_end_plain : (s : Text) → IsPlain s → trim_end s ≡ s
unfolding trim_end
trim_end_plain [] h = refl
trim_end_plain (c ∷ s) ((w, _, _), h) = rw (w, trim_end_plain s h) (kept (is_empty s))
  where
    kept : (b : Bool) → (if b && false then [] else c ∷ s) ≡ c ∷ s
    kept true = refl
    kept false = refl

retain_plain : (s : Text) → IsPlain s → retain (λ c. not (is_bracket c)) s ≡ s
unfolding retain
retain_plain [] h = refl
retain_plain (c ∷ s) ((_, b, _), h) = rw (b, retain_plain s h)

clean_token_plain : (s : Text) → IsPlain s → clean_token s ≡ s
unfolding clean_token
clean_token_plain s h = rw (trim_start_plain s h, trim_end_plain s h) (retain_plain s h)

clean_tokens_plain :
    (ids : List Text) → All (λ s. IsPlain s × (s ≢ [])) ids → clean_tokens ids ≡ ids
unfolding clean_tokens
clean_tokens_plain [] h = refl
clean_tokens_plain (s ∷ ids) ((p, n), h) =
    rw (clean_token_plain s p, clean_tokens_plain ids h) (kept s n)
  where
    kept : (t : Text) → t ≢ [] → (if is_empty t then ids else t ∷ ids) ≡ t ∷ ids
    kept [] n = absurd (n refl)
    kept (c ∷ t) n = refl

Free-plain : (s : Text) → IsPlain s → Free b',' s
Free-plain [] h = tt
Free-plain (c ∷ s) ((_, _, n), h) = (n, Free-plain s h)

All-Free : (ids : List Text) → All (λ s. IsPlain s × (s ≢ [])) ids → All (Free b',') ids
All-Free [] h = tt
All-Free (s ∷ ids) ((p, _), h) = (Free-plain s p, All-Free ids h)

no_tokens : payload_str_to_vector_str (join b',' []) ≡ []
unfolding payload_str_to_vector_str join split retain
no_tokens = refl

-- Identifiers that are plain and not empty are read back from the text that joins them with commas.
pub payload_str_to_vector_str-join :
    (ids : List Text)
    → All (λ s. IsPlain s × (s ≢ [])) ids
    → payload_str_to_vector_str (join b',' ids) ≡ ids
unfolding payload_str_to_vector_str
payload_str_to_vector_str-join [] h = no_tokens
payload_str_to_vector_str-join (s ∷ ids) (k, h) =
    ap clean_tokens (split-join b',' s ids (Free-plain s k.0) (All-Free ids h))
    ∙ clean_tokens_plain (s ∷ ids) (k, h)
