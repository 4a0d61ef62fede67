-- ===== src/Common/Url.antt =====
-- common/mod.rs: `parse_url`, stage by stage, and `coap_code_to_decimal`.
pub mod Bounds
pub mod RoundTrip
use device_sdk.Base.{
  ℕ, suc, ◌+◌, ◌*◌, ◌%◌, ◌^◌, List, [], ◌∷◌, ◌++◌, Option, none, some, Bool, true, false, ◌&&◌,
  Text, codes, join, split, split_str, parse_u32, leb, if◌then◌else◌,
}
use device_sdk.Base.Results.{Result, ok, err, ◌>>=◌, ◌>>◌}
use device_sdk.Common.Messages.{XrUrl}

-- 1. The scheme, and what follows it.
unfoldable pub scheme_of : List Text → Result (Text × Text)
scheme_of (rest ∷ []) = ok ([], rest)
scheme_of ([] ∷ rest ∷ []) = err (codes "Invalid scheme")
scheme_of ((c ∷ s) ∷ rest ∷ []) = ok (c ∷ s, rest)
scheme_of _ = err (codes "Invalid scheme structure")

-- 2. What stands before the query, and the query.
unfoldable pub query_of : List Text → Result (Text × Option Text)
query_of (host ∷ []) = ok (host, none)
query_of (host ∷ query ∷ []) = ok (host, some query)
query_of _ = err (codes "Invalid query structure")

abbrev pub slash : ℕ
slash = b'/'

-- 3. The host with its port, and the path, which starts with a slash.
unfoldable pub path_of : List Text → Text × Text
path_of [] = ([], slash ∷ [])
path_of (host ∷ []) = (host, slash ∷ [])
path_of (host ∷ part ∷ parts) = (host, slash ∷ join slash (part ∷ parts))

-- 4. The host and the port, 80 if none is given.
unfoldable pub port_of : List Text → Result (Text × ℕ)
port_of (host ∷ []) = ok (host, 80)
port_of (host ∷ port ∷ []) = elim (parse_u32 port) [
  | none ↦ err (codes "Invalid port")
  | some p ↦ ok (host, p)
]
port_of _ = err (codes "Invalid host structure")

-- 5. The range of the port.
unfoldable pub check_range : ℕ → Result (Unit {0})
check_range port = if leb 1 port && leb port 65535 then ok tt else err (codes "Invalid port range")

unfoldable pub parse_url : Text → Result XrUrl
unfolding scheme_of query_of path_of port_of check_range
parse_url url = do
  (scheme, after) ← scheme_of (split_str (codes "://") url)
  (before, query) ← query_of (split b'?' after)
  let (authority, path) = path_of (split slash before)
  (host, port) ← port_of (split b':' authority)
  check_range port
  ok (record {
    scheme = scheme;
    host = host;
    port = port;
    path = path;
    raw_url = url;
    query = query;
    username = none;
    password = none;
  })

-- `none` is a panic: a part that is missing or no number. The sum wraps in 32 bits, where a debug
-- build panics.
unfoldable pub code_of_tokens : List Text → Option ℕ
code_of_tokens (class ∷ detail ∷ _) = elim (parse_u32 class) [
  | none ↦ none
  | some c ↦ elim (parse_u32 detail) [ none ↦ none | some d ↦ some ((c * 32 + d) % 2 ^ 32) ]
]
code_of_tokens _ = none

unfoldable pub coap_code_to_decimal : Text → Option ℕ
unfolding code_of_tokens
coap_code_to_decimal code = code_of_tokens (split b'.' code)
