-- ===== src/Common/Url/RoundTrip.antt =====
-- Parsing a URL that is put together from its parts.
use device_sdk.Base.{
  ℕ, ◌≤◌, ◌<◌, List, [], ◌∷◌, ◌++◌, none, some, ◌≡◌, ◌≢◌, ◌⊎◌, inl, inr, refl, sym, ap, ◌∙◌, arith,
  Text, join, split, split_str, Free, split-Free, split-append, join-split, to_text,
  parse_u32-to_text, to_text-Free, to_text-ne-nil, split-ne-nil, u32_max, All-append, mark, NoMark,
  NoMark-append, NoMark-colon, split_str-mark, subst,
}
use mathlib.Core.List.{append-nil, append_assoc}
use device_sdk.Base.Results.{ok, bind_ok}
use device_sdk.Common.Url.{slash, scheme_of, query_of, path_of, port_of, check_range, parse_url}

-- The text of a URL with all parts: host and port, those with the path, those with the query, all.
abbrev pub authority_text : Text → ℕ → Text
authority_text host port = host ++ b':' ∷ to_text port

abbrev pub located_text : Text → ℕ → Text → Text
located_text host port path = authority_text host port ++ slash ∷ path

abbrev pub queried_text : Text → ℕ → Text → Text → Text
queried_text host port path query = located_text host port path ++ b'?' ∷ query

abbrev pub render : Text → Text → ℕ → Text → Text → Text
render scheme host port path query = scheme ++ (mark ++ queried_text host port path query)

-- No part holds a separator that would end it early.
pub record IsClean (scheme host path query : Text) : Type 0 where
  pub has_scheme : scheme ≢ []
  pub scheme_colon : Free b':' scheme
  pub host_colon : Free b':' host
  pub host_slash : Free slash host
  pub host_query : Free b'?' host
  pub path_query : Free b'?' path
  pub path_colon : Free b':' path
  pub query_query : Free b'?' query
  pub query_colon : Free b':' query

Free-append : (c : ℕ) (s t : Text) → Free c s → Free c t → Free c (s ++ t)
Free-append c = All-append (λ d. d ≢ c)

NoMark-of_Free : (s : Text) → Free b':' s → NoMark s
NoMark-of_Free s f = subst NoMark (append-nil s) (NoMark-append s [] f tt)

scheme_of_two : (s t : Text) → s ≢ [] → scheme_of (s ∷ t ∷ []) ≡ ok (s, t)
unfolding scheme_of
scheme_of_two [] t n = absurd (n refl)
scheme_of_two (c ∷ s) t n = refl

path_of_cons :
    (host : Text) (parts : List Text)
    → parts ≢ []
    → path_of (host ∷ parts) ≡ (host, slash ∷ join slash parts)
unfolding path_of
path_of_cons host [] n = absurd (n refl)
path_of_cons host (p ∷ ps) n = refl

check_range_in : (port : ℕ) → 1 ≤ port → port ≤ 65535 → check_range port ≡ ok tt
unfolding check_range
check_range_in port low high = ground arith

module _ (scheme host path query : Text) (port : ℕ) (h : IsClean scheme host path query) where
  Free-authority :
      (c : ℕ)
      → c ≢ b':'
      → ((c < b'0') ⊎ (b'9' < c))
      → Free c host
      → Free c (authority_text host port)
  Free-authority c n r f =
      Free-append c host (b':' ∷ to_text port) f (λ e. n (sym e), to_text-Free c port r)

  Free-located : Free b'?' (located_text host port path)
  Free-located =
      Free-append b'?' (authority_text host port) (slash ∷ path)
        (Free-authority b'?' (λ e. omega (arith, e)) (inr (omega arith)) h.host_query)
        (λ e. omega (arith, e), h.path_query)

  NoMark-queried : NoMark (queried_text host port path query)
  NoMark-queried =
      rw (append_assoc, append_assoc)
        (NoMark-append host _ h.host_colon (
          NoMark-colon (to_text port) ((slash ∷ path) ++ b'?' ∷ query) (to_text-ne-nil port)
            (to_text-Free slash port (inl (omega arith)))
            (NoMark-of_Free _ (
              Free-append b':' (to_text port) _ (to_text-Free b':' port (inr (omega arith))) (
                Free-append b':' (slash ∷ path) _ (λ e. omega (arith, e), h.path_colon)
                  (λ e. omega (arith, e), h.query_colon))))))

  scheme_stage :
      scheme_of (split_str mark (render scheme host port path query))
      ≡ ok (scheme, queried_text host port path query)
  scheme_stage =
      ap scheme_of (split_str-mark scheme _ h.scheme_colon NoMark-queried)
      ∙ scheme_of_two scheme (queried_text host port path query) h.has_scheme

  query_stage :
      query_of (split b'?' (queried_text host port path query))
      ≡ ok (located_text host port path, some query)
  unfolding query_of
  query_stage = rw (
    split-append b'?' (located_text host port path) query Free-located,
    split-Free b'?' query h.query_query,
  )

  path_stage :
      path_of (split slash (located_text host port path)) ≡ (authority_text host port, slash ∷ path)
  path_stage =
      ap path_of (
        split-append slash (authority_text host port) path
          (Free-authority slash (λ e. omega (arith, e)) (inl (omega arith)) h.host_slash))
      ∙ path_of_cons (authority_text host port) (split slash path) (split-ne-nil slash path)
      ∙ ap (λ t. (authority_text host port, slash ∷ t)) (join-split slash path)

  port_stage : port ≤ u32_max → port_of (split b':' (authority_text host port)) ≡ ok (host, port)
  unfolding port_of
  port_stage b = rw (
    split-append b':' host (to_text port) h.host_colon,
    split-Free b':' (to_text port) (to_text-Free b':' port (inr (omega arith))),
    parse_u32-to_text port b,
    port_of,
  )

-- A URL put together from a scheme, a host, a port from 1 to 65535, a path and a query, none of
-- which holds a separator that would end it early, parses into these parts.
pub parse_url-render :
    (scheme host path query : Text) (port : ℕ)
    → IsClean scheme host path query
    → 1 ≤ port
    → port ≤ 65535
    → parse_url (render scheme host port path query)
      ≡ ok (record {
        scheme = scheme;
        host = host;
        port = port;
        path = slash ∷ path;
        raw_url = render scheme host port path query;
        query = some query;
        username = none;
        password = none;
      })
unfolding parse_url
parse_url-render scheme host path query port h low high =
    bind_ok (scheme_stage scheme host path query port h) _
    ∙ bind_ok (query_stage scheme host path query port h) _
    ∙ (rw (path_stage scheme host path query port h) (
        bind_ok (port_stage scheme host path query port h (omega arith)) _
        ∙ bind_ok (check_range_in port low high) _))
