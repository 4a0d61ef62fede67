-- ===== src/Common/Url/Bounds.antt =====
-- What every parsed URL satisfies.
use device_sdk.Base.{
  ℕ, ◌≤◌, List, [], ◌∷◌, none, ◌≡◌, refl, subst, arith, Text, codes, split, split_str,
}
use device_sdk.Base.Results.{ok, >>=-eq-ok, ok-injective}
use device_sdk.Common.Messages.{XrUrl}
use device_sdk.Common.Url.{slash, scheme_of, query_of, path_of, port_of, check_range, parse_url}

path_of-slash : (parts : List Text) → (rest : Text) × ((path_of parts).1 ≡ slash ∷ rest)
unfolding path_of
path_of-slash [] = ([], refl)
path_of-slash (host ∷ []) = ([], refl)
path_of-slash (host ∷ part ∷ parts) = (_, refl)

check_range-ok : (port : ℕ) → check_range port ≡ ok tt → (1 ≤ port) × (port ≤ 65535)
unfolding check_range
check_range-ok port h = ground arith

-- The port is from 1 to 65535, the path starts with a slash, the raw form is the given text, and
-- there is no user name or password.
abbrev pub IsParsed : Text → XrUrl → Type 0
IsParsed url u =
    ((1 ≤ u.port) × (u.port ≤ 65535))
    × ((rest : Text) × (u.path ≡ slash ∷ rest))
    × (u.raw_url ≡ url)
    × (u.username ≡ none)
    × (u.password ≡ none)

-- Every URL that parses is well formed: its port is from 1 to 65535, its path starts with a slash,
-- its raw form is the given text, and it has no user name or password.
pub parse_url-IsParsed : (url : Text) (u : XrUrl) → parse_url url ≡ ok u → IsParsed url u
unfolding parse_url
parse_url-IsParsed url u h =
    let ((scheme, after), _, h₁) = >>=-eq-ok (scheme_of (split_str (codes "://") url)) _ h in
    let ((before, query), _, h₂) = >>=-eq-ok (query_of (split b'?' after)) _ h₁ in
    let (authority, path) = path_of (split slash before) in
    let ((host, port), _, h₃) = >>=-eq-ok (port_of (split b':' authority)) _ h₂ in
    let (_, r, h₄) = >>=-eq-ok (check_range port) _ h₃ in
    subst (IsParsed url) (ok-injective h₄)
      (check_range-ok port r, path_of-slash (split slash before), refl, refl, refl)
