-- ===== src/Ffi/Wrapper/Reading.antt =====
-- What a C caller reads through a `CNetResponse`.
use device_sdk.Base.{
  ℕ, zero, suc, ◌^◌, ◌<◌, List, [], ◌∷◌, ◌++◌, Option, none, some, true, false, ◌≡◌, ◌↔◌, inl, inr,
  refl, subst, arith, Text, codes, length, map, All, Bool-cases,
}
use device_sdk.Common.Messages.{NetResponse}
use device_sdk.Ffi.Codes.{ℤ, pos, negsuc, as_c_int}
use device_sdk.Ffi.Wrapper.{
  CString, has_nul, cstring_or, CNetHeader, ClientWrapper, Outside, c_headers, error_bytes,
  error_len_of, store_response, get_c_response,
}

abbrev pub take : {A : Type 0} → ℕ → List A → Option (List A)
take zero xs = some []
take (suc n) [] = none
take (suc n) (x ∷ xs) = elim (take n xs) [ none ↦ none | some ys ↦ some (x ∷ ys) ]

-- The bytes that a caller reads at a pointer to a C string, with its closing zero: nothing, if this
-- leaves the memory of the string.
abbrev pub read : Option CString → ℤ → Option (List ℕ)
read p (negsuc n) = none
read none (pos n) = take n []
read (some s) (pos n) = take n (s ++ 0 ∷ [])

take_all : {A : Type 0} (xs ys : List A) → take (length xs) (xs ++ ys) ≡ some xs
take_all [] ys = refl
take_all (x ∷ xs) ys = rw (take_all xs ys) refl

take_whole : {A : Type 0} (xs : List A) → take (length xs) xs ≡ some xs
take_whole [] = refl
take_whole (x ∷ xs) = rw (take_whole xs) refl

-- A list taken whole, where its length is known.
take-length : {A : Type 0} (n : ℕ) (xs : List A) → length xs ≡ n → take n xs ≡ some xs
take-length n xs e = subst (λ k. take k xs ≡ some xs) e (take_whole xs)

take-none_iff : {A : Type 0} (n : ℕ) (xs : List A) → (take n xs ≡ none) ↔ (length xs < n)
take-none_iff zero xs = (λ e. cc, λ h. absurd (omega (arith, h)))
take-none_iff (suc n) [] = (λ e. omega arith, λ h. refl)
take-none_iff (suc n) (x ∷ xs) = ground (arith, take-none_iff n xs)

as_c_int_small : (n : ℕ) → n < 2 ^ 31 → as_c_int n ≡ pos n
unfolding as_c_int
as_c_int_small n h = ground (arith, h)

read_all : (s : List ℕ) → length s < 2 ^ 31 → read (some s) (as_c_int (length s)) ≡ some s
read_all s h = rw (as_c_int_small (length s) h) (take_all s (0 ∷ []))

cstring_or_free : (t : Text) (s : List ℕ) → has_nul s ≡ false → cstring_or t s ≡ s
unfolding cstring_or
cstring_or_free t s e = rw e refl

instead_of :
    (s : List ℕ)
    → has_nul s ≡ true
    → cstring_or (codes "[Response contains null bytes]") s ≡ codes "[Response contains null bytes]"
unfolding cstring_or
instead_of s e = rw e refl

-- The bytes hold no zero, and their number is a `c_int`.
abbrev pub IsPlain : List ℕ → Type 0
IsPlain s = (has_nul s ≡ false) × (length s < 2 ^ 31)

read_plain :
    (t : Text) (s : List ℕ)
    → IsPlain s
    → read (some (cstring_or t s)) (as_c_int (length s)) ≡ some s
read_plain t s (e, h) = rw (cstring_or_free t s e) (read_all s h)

abbrev pub memory : Option (List CNetHeader) → List CNetHeader
memory none = []
memory (some hs) = hs

abbrev pub read_header : CNetHeader → Option (List ℕ) × Option (List ℕ)
read_header h = (read (some h.name_ptr) h.name_len, read (some h.value_ptr) h.value_len)

abbrev pub read_headers :
    Option (List CNetHeader) → ℤ → Option (List (Option (List ℕ) × Option (List ℕ)))
read_headers p (negsuc n) = none
read_headers p (pos n) = elim (take n (memory p)) [
  | none ↦ none
  | some hs ↦ some (map read_header hs)
]

module _ (out : Outside) where
  abbrev pub IsPlainHeader : Text × Text → Type 0
  IsPlainHeader (name, value) = IsPlain (out.as_bytes name) × IsPlain (out.as_bytes value)

  abbrev pub bytes_of : Text × Text → Option (List ℕ) × Option (List ℕ)
  bytes_of (name, value) = (some (out.as_bytes name), some (out.as_bytes value))

  abbrev pub IsPlainError : Option Text → Type 0
  IsPlainError none = Unit
  IsPlainError (some e) = IsPlain (out.as_bytes e)

  abbrev pub error_of : Option Text → List ℕ
  error_of none = []
  error_of (some e) = out.as_bytes e

  length-c_headers :
      (hs : List (Text × Text)) → All IsPlainHeader hs → length (c_headers out hs) ≡ length hs
  unfolding c_headers
  length-c_headers [] h = refl
  length-c_headers ((n, v) ∷ hs) (((e, l), q), h) = rw (e, length-c_headers hs h) refl

  read_header-c_headers :
      (hs : List (Text × Text))
      → All IsPlainHeader hs
      → map read_header (c_headers out hs) ≡ map bytes_of hs
  unfolding c_headers
  read_header-c_headers [] h = refl
  read_header-c_headers ((n, v) ∷ hs) (((e, l), q), h) =
      rw
        (
          e,
          read_header-c_headers hs h,
          read_all (out.as_bytes n) l,
          read_plain (codes "[Value contains null bytes]") (out.as_bytes v) q,
        )
        refl

  headers-read :
      (hs : List (Text × Text))
      → All IsPlainHeader hs
      → read_headers (some (c_headers out hs)) (pos (length hs)) ≡ some (map bytes_of hs)
  headers-read hs h =
      rw
        (
          read_headers,
          memory,
          take-length (length hs) (c_headers out hs) (length-c_headers hs h),
          read_header-c_headers hs h,
        )
        refl

  error-read :
      (e : Option Text)
      → IsPlainError e
      → read (some (error_bytes out e)) (error_len_of out e) ≡ some (error_of e)
  error-read none h = refl
  error-read (some e) h = read_plain (codes "[Error contains null bytes]") (out.as_bytes e) h

  -- A caller reads in the C response what the last response holds, where no part of it has a zero
  -- byte or is longer than a `c_int` says: the status, the body, every header in order, and the error,
  -- with none an empty one.
  pub get_c_response-store_response :
      (r : NetResponse) (w : ClientWrapper)
      → r.status_code < 2 ^ 31
      → IsPlain r.body
      → length r.headers < 2 ^ 31
      → All IsPlainHeader r.headers
      → IsPlainError r.error
      → let c = get_c_response out (store_response out r w) in
        (c.status_code ≡ pos r.status_code)
        × (read c.body_ptr c.body_len ≡ some r.body)
        × (read_headers c.headers_ptr c.headers_count ≡ some (map bytes_of r.headers))
        × (read c.error_ptr c.error_len ≡ some (error_of r.error))
  unfolding get_c_response store_response
  get_c_response-store_response r w s b n h e = (
    as_c_int_small r.status_code s,
    read_plain (codes "[Response contains null bytes]") r.body b,
    rw (as_c_int_small (length r.headers) n) (headers-read r.headers h),
    error-read r.error e,
  )

  -- Reading as much of the body as the C response says leaves the memory of the string if and only if
  -- the body has a zero byte and more than 31 bytes: its place is then taken by a text of that size.
  -- The length of the body is that of a `c_int`.
  pub get_c_response-body_iff :
      (r : NetResponse) (w : ClientWrapper)
      → length r.body < 2 ^ 31
      → let c = get_c_response out (store_response out r w) in
        (read c.body_ptr c.body_len ≡ none) ↔ ((has_nul r.body ≡ true) × (31 < length r.body))
  unfolding get_c_response store_response
  get_c_response-body_iff r w h = elim (Bool-cases (has_nul r.body)) [
    | inl e ↦
        rw (instead_of r.body e, as_c_int_small (length r.body) h)
          (let t =
              take-none_iff (length r.body) (codes "[Response contains null bytes]" ++ 0 ∷ []) in
            (λ g. (e, t.0 g), λ g. t.1 g.1))
    | inr e ↦
        rw (read_plain (codes "[Response contains null bytes]") r.body (e, h)) (λ g. cc, λ g. cc)
  ]
