-- ===== src/Ffi/Wrapper.antt =====
-- ffi/net.rs: `ClientWrapper`, a client with its last response as C strings, and `CNetResponse`.
pub mod Reading
use device_sdk.Base.{
  ℕ, List, [], ◌∷◌, ◌++◌, Option, none, some, Bool, true, false, ◌==◌, ◌||◌, Text, codes, length,
  if◌then◌else◌, map,
}
use device_sdk.Base.Results.{Result}
use device_sdk.Base.Results
use device_sdk.Common.Messages.{NetResponse}
use device_sdk.Client.Settings.{Client}
use device_sdk.Client.Settings
use device_sdk.Client.Requests.{Network, Answered, response, to_http3, panicked, Handover}
use device_sdk.Client.Requests
use device_sdk.Ffi.Codes.{ℤ, pos, as_c_int}

-- A `CString`: its bytes, of which none is zero. The zero that ends it is not listed.
abbrev pub CString : Type 0
CString = List ℕ

unfoldable pub has_nul : List ℕ → Bool
has_nul [] = false
has_nul (b ∷ bs) = b == 0 || has_nul bs

-- `CString::new`, with a text in place of bytes that hold a zero.
unfoldable pub cstring_or : Text → List ℕ → CString
unfolding has_nul
cstring_or instead bytes = if has_nul bytes then instead else bytes

pub record CNetHeader : Type 0 where
  pub name_ptr : CString
  pub name_len : ℤ
  pub value_ptr : CString
  pub value_len : ℤ

-- A null pointer is `none`.
pub record CNetResponse : Type 0 where
  pub status_code : ℤ
  pub body_ptr : Option CString
  pub body_len : ℤ
  pub headers_ptr : Option (List CNetHeader)
  pub headers_count : ℤ
  pub error_ptr : Option CString
  pub error_len : ℤ

pub record ClientWrapper : Type 0 where
  pub client : Client
  pub last_response : Option NetResponse
  pub response_body : Option CString
  pub response_headers : Option (List CNetHeader)
  pub response_error : Option CString

unfoldable pub new_wrapper : Client → ClientWrapper
new_wrapper client = record {
  client = client;
  last_response = none;
  response_body = none;
  response_headers = none;
  response_error = none;
}

-- What the wrapper's calls take from outside: the UTF-8 bytes of a text and the text of bytes,
-- `str::to_uppercase`, the random identifiers, the network, the HTTP/3 client, which may panic, and
-- the connections of the protocols.
pub record Outside : Type 0 where
  pub as_bytes : Text → List ℕ
  pub to_str : List ℕ → Option Text
  pub upper : Text → Text
  pub id : ℕ → Text
  pub network : Network
  pub request_http3 : Client → Option NetResponse
  pub open_connection : Handover → Result Client

module _ (out : Outside) where
  -- A header whose name holds a zero is left out.
  unfoldable pub c_headers : List (Text × Text) → List CNetHeader
  unfolding cstring_or
  c_headers [] = []
  c_headers ((name, value) ∷ hs) =
      let rest = c_headers hs in
      if has_nul (out.as_bytes name)
      then rest
      else record {
        name_ptr = out.as_bytes name;
        name_len = as_c_int (length (out.as_bytes name));
        value_ptr = cstring_or (codes "[Value contains null bytes]") (out.as_bytes value);
        value_len = as_c_int (length (out.as_bytes value));
      }
        ∷ rest

  abbrev pub error_bytes : Option Text → CString
  error_bytes none = []
  error_bytes (some e) = cstring_or (codes "[Error contains null bytes]") (out.as_bytes e)

  unfoldable pub store_response : NetResponse → ClientWrapper → ClientWrapper
  unfolding c_headers
  store_response r w = record w {
    response_body = some (cstring_or (codes "[Response contains null bytes]") r.body);
    response_error = some (error_bytes r.error);
    response_headers = some (c_headers r.headers);
    last_response = some r;
  }

  abbrev pub error_len_of : Option Text → ℤ
  error_len_of none = pos 0
  error_len_of (some e) = as_c_int (length (out.as_bytes e))

  unfoldable pub get_c_response : ClientWrapper → CNetResponse
  get_c_response w = elim w.last_response [
    | none ↦ record {
      status_code = pos 0;
      body_ptr = none;
      body_len = pos 0;
      headers_ptr = none;
      headers_count = pos 0;
      error_ptr = none;
      error_len = pos 0;
    }
    | some r ↦ record {
      status_code = as_c_int r.status_code;
      body_ptr = w.response_body;
      body_len = as_c_int (length r.body);
      headers_ptr = w.response_headers;
      headers_count = as_c_int (length r.headers);
      error_ptr = w.response_error;
      error_len = error_len_of r.error;
    }
  ]

  unfoldable pub set_url : Text → ClientWrapper → ClientWrapper
  set_url url w = record w { client = Settings.set_url url w.client }

  unfoldable pub set_method : Text → ClientWrapper → ClientWrapper
  set_method method w = record w { client = Settings.set_method out.upper method w.client }

  unfoldable pub set_user : Text → ClientWrapper → ClientWrapper
  set_user user w = record w { client = Settings.set_user user w.client }

  unfoldable pub set_password : Text → ClientWrapper → ClientWrapper
  set_password password w = record w { client = Settings.set_password password w.client }

  unfoldable pub set_req_body : Text → ClientWrapper → ClientWrapper
  set_req_body body w = record w { client = Settings.set_req_body body w.client }

  -- The one header that is given takes the place of all that were set before.
  unfoldable pub set_header : Text → Text → ClientWrapper → ClientWrapper
  set_header key value w = record w {
    client = Settings.set_req_headers ((key, value) ∷ []) w.client;
  }

  unfoldable pub set_timeout : ℕ → ClientWrapper → ClientWrapper
  set_timeout timeout w = record w { client = Settings.set_timeout timeout w.client }

  -- What the client answers, or `none` where it panics.
  abbrev pub answered : Answered → Option NetResponse
  answered (response r) = some r
  answered (to_http3 c) = out.request_http3 c
  answered panicked = none

  -- The error that the response reports.
  abbrev pub outcome : Option Text → Result (Unit {0})
  outcome none = Results.ok tt
  outcome (some e) = Results.err e

  unfoldable pub request : ClientWrapper → Option (Result (Unit {0}) × ClientWrapper)
  unfolding store_response
  request w = elim (answered (Requests.request out.network w.client)) [
    | none ↦ none
    | some r ↦ some (outcome r.error, store_response r w)
  ]

  unfoldable pub get : ClientWrapper → Option (Result (Unit {0}) × ClientWrapper)
  unfolding request set_method
  get w = request (set_method (codes "GET") w)

  unfoldable pub post : ClientWrapper → Option (Result (Unit {0}) × ClientWrapper)
  unfolding request set_method
  post w = request (set_method (codes "POST") w)

  unfoldable pub put : ClientWrapper → Option (Result (Unit {0}) × ClientWrapper)
  unfolding request set_method
  put w = request (set_method (codes "PUT") w)

  unfoldable pub delete : ClientWrapper → Option (Result (Unit {0}) × ClientWrapper)
  unfolding request set_method
  delete w = request (set_method (codes "DELETE") w)

  abbrev pub opened : Result Handover → Result Client
  opened (Results.err e) = Results.err e
  opened (Results.ok h) = out.open_connection h

  -- The connection is waited for, which the types of the source ask for.
  unfoldable pub connect : ClientWrapper → Result (Unit {0}) × ClientWrapper
  connect w = elim (opened (Requests.connect w.client)) [
    | Results.ok c ↦ (Results.ok tt, record w { client = c })
    | Results.err e ↦ (Results.err (codes "Connection failed: " ++ e), w)
  ]
