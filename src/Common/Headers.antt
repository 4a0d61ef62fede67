-- ===== src/Common/Headers.antt =====
-- common/mod.rs: `fill_mandatory_http_headers`. A header is a pair of its name and its value.
use device_sdk.Base.{
  [], ◌∷◌, ◌++◌, Option, none, some, Bool, false, ◌||◌, ◌≡◌, refl, inl, inr, sym, subst, ◌∙◌, arith,
  Text, codes, same, same_iff, Dict, lookup, to_text, if◌then◌else◌, Bool-cases, Option-cases,
}
use device_sdk.Common.Messages.{XrUrl}

abbrev pub method_name : Text
method_name = codes ":method"

abbrev pub scheme_name : Text
scheme_name = codes ":scheme"

abbrev pub authority_name : Text
authority_name = codes ":authority"

abbrev pub path_name : Text
path_name = codes ":path"

abbrev pub useragent_name : Text
useragent_name = codes "user-agent"

-- The loop that looks for a header with the name.
has_header : Text → Dict Text → Bool
has_header name [] = false
has_header name ((n, v) ∷ hs) = same n name || has_header name hs

abbrev pub method_or_get : Option Text → Text
method_or_get none = codes "GET"
method_or_get (some m) = m

abbrev pub headers_or_empty : Option (Dict Text) → Dict Text
headers_or_empty none = []
headers_or_empty (some hs) = hs

-- `format!("{}:{}", url.host, url.port)`.
unfoldable pub authority : XrUrl → Text
authority url = url.host ++ b':' ∷ to_text url.port

unfoldable pub missing : Text → Text → Dict Text → Dict Text
unfolding has_header
missing name value hs = if has_header name hs then [] else (name, value) ∷ []

unfoldable pub fill_mandatory_http_headers : XrUrl → Option (Dict Text) → Option Text → Dict Text
fill_mandatory_http_headers url headers method =
    let hs = headers_or_empty headers in
    hs
    ++ (missing method_name (method_or_get method) hs
        ++ (missing scheme_name url.scheme hs
            ++ (missing authority_name (authority url) hs
                ++ (missing path_name url.path hs
                    ++ missing useragent_name (codes "xrds/1.0") hs))))

abbrev pub or_else : Option Text → Option Text → Option Text
or_else (some v) o = some v
or_else none o = o

-- The value that a mandatory header gets by default.
abbrev pub default_header : XrUrl → Option Text → Text → Option Text
default_header url method name =
    if same method_name name
    then some (method_or_get method)
    else if same scheme_name name
    then some url.scheme
    else if same authority_name name
    then some (authority url)
    else if same path_name name
    then some url.path
    else if same useragent_name name
    then some (codes "xrds/1.0")
    else none

lookup-append : (k : Text) (a b : Dict Text) → lookup k (a ++ b) ≡ or_else (lookup k a) (lookup k b)
unfolding lookup
lookup-append k [] b = refl
lookup-append k ((j, v) ∷ a) b = ground (arith, lookup-append k a b)

has_header_of_lookup : (k : Text) (hs : Dict Text) → lookup k hs ≡ none → has_header k hs ≡ false
unfolding lookup has_header
has_header_of_lookup k [] e = refl
has_header_of_lookup k ((j, v) ∷ hs) e = ground (arith, has_header_of_lookup k hs)

-- A header that is missing is looked up in what is added for it, if the name is asked for.
lookup-missing :
    (k name value : Text) (hs : Dict Text)
    → lookup k hs ≡ none
    → lookup k (missing name value hs) ≡ (if same name k then some value else none)
unfolding missing lookup
lookup-missing k name value hs e = elim (Bool-cases (same name k)) [
  | inl hit ↦
      let absent =
        has_header_of_lookup name hs
          (subst (λ n. lookup n hs ≡ none) (sym ((same_iff name k).0 hit)) e) in
      rw (hit, absent, missing) (ground arith)
  | inr miss ↦ ground arith
]

lookup-missing_append :
    (k name value : Text) (hs rest : Dict Text)
    → lookup k hs ≡ none
    → lookup k (missing name value hs ++ rest) ≡ (if same name k then some value else lookup k rest)
lookup-missing_append k name value hs rest e =
    lookup-append k (missing name value hs) rest
    ∙ (rw (lookup-missing k name value hs e) (ground arith))

-- With the mandatory headers filled in, each header of the request keeps the value that was given
-- for it, and of the others exactly the five mandatory ones are there, with their defaults.
pub lookup-fill_mandatory_http_headers :
    (url : XrUrl) (headers : Option (Dict Text)) (method : Option Text) (name : Text)
    → lookup name (fill_mandatory_http_headers url headers method)
      ≡ or_else (lookup name (headers_or_empty headers)) (default_header url method name)
unfolding fill_mandatory_http_headers
lookup-fill_mandatory_http_headers url headers method name =
    elim (Option-cases (lookup name (headers_or_empty headers))) [
      | inl e ↦
          let hs = headers_or_empty headers in
          lookup-append name hs _
          ∙ (rw (
            e,
            lookup-missing_append name method_name (method_or_get method) hs _ e,
            lookup-missing_append name scheme_name url.scheme hs _ e,
            lookup-missing_append name authority_name (authority url) hs _ e,
            lookup-missing_append name path_name url.path hs _ e,
            lookup-missing name useragent_name (codes "xrds/1.0") hs e,
          ))
      | inr (v, e) ↦ lookup-append name (headers_or_empty headers) _ ∙ (rw e)
    ]
