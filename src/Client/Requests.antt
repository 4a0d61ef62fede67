-- ===== src/Client/Requests.antt =====
-- crates/xrds-net/src/client/client.rs: `connect` up to the protocol's
-- own connection, and `request` over HTTP, files and CoAP. A panic is a result.
pub mod Responses
use device_sdk.Base.{
  ℕ, suc, List, [], ◌∷◌, ◌++◌, Option, none, some, Bool, true, false, map, Text, codes, same, split,
  split_str, crlf, to_text, if◌then◌else◌,
}
use device_sdk.Base.Results.{Result, ok, err, ◌>>=◌}
use device_sdk.Common.Enums.{
  Protocols, http, https, file, coap, mqtt, ftp, sftp, ws, wss, webrtc, http3, quic,
}
use device_sdk.Common.Messages.{XrUrl, NetResponse}
use device_sdk.Common.Url.{parse_url, coap_code_to_decimal}
use device_sdk.Client.Settings.{Client}

-- The path with the query.
abbrev pub target : XrUrl → Text
target u = elim u.query [ none ↦ u.path | some q ↦ u.path ++ (b'?' ∷ q) ]

-- The fields that `connect` and `request` take from the parsed URL.
unfoldable pub locate : XrUrl → Client → Client
locate u c = record c {
  url = some u;
  host = some u.host;
  port = some u.port;
  path = some (target u);
}

-- The connection that `connect` goes on to open.
pub data Handover : Type 0 where
  connect_ws connect_ftp connect_sftp connect_mqtt connect_quic : Client → Handover

unfoldable pub hand_over : Protocols → Client → Result Handover
hand_over ws c = ok (connect_ws c)
hand_over wss c = ok (connect_ws c)
hand_over ftp c = ok (connect_ftp c)
hand_over sftp c = ok (connect_sftp c)
hand_over mqtt c = ok (connect_mqtt c)
hand_over quic c = ok (connect_quic c)
hand_over http c = err (codes "The protocol does not support 'Connect'. Use 'Request' instead.")
hand_over https c = err (codes "The protocol does not support 'Connect'. Use 'Request' instead.")
hand_over file c = err (codes "The protocol does not support 'Connect'. Use 'Request' instead.")
hand_over coap c = err (codes "The protocol does not support 'Connect'. Use 'Request' instead.")
hand_over webrtc c = err (codes "The protocol does not support 'Connect'. Use 'Request' instead.")
hand_over http3 c = err (codes "The protocol does not support 'Connect'. Use 'Request' instead.")

abbrev pub required : Text → Result (Unit {0})
required [] = err (codes "URL is required for connection.")
required (c ∷ cs) = ok tt

unfoldable pub connect : Client → Result Handover
unfolding locate hand_over
connect c = do
  given ← required c.raw_url
  url ← parse_url c.raw_url
  hand_over c.protocol (locate url c)

-- One line of the headers: kept if it has exactly one colon.
unfoldable pub header_of : List Text → List (Text × Text)
header_of (name ∷ value ∷ []) = (name, value) ∷ []
header_of _ = []

unfoldable pub headers_of : List Text → List (Text × Text)
unfolding header_of
headers_of [] = []
headers_of (line ∷ lines) = header_of (split b':' line) ++ headers_of lines

abbrev pub line_end : Text
line_end = crlf

unfoldable pub parse_headers : Text → List (Text × Text)
unfolding headers_of
parse_headers headers = headers_of (split_str line_end headers)

-- What the client asks of curl, and what it gets back.
pub record HttpRequest : Type 0 where
  pub url : Text
  pub follow : Bool
  pub headers : Option (List Text)
  pub post : Bool
  pub post_fields : Option Text

pub record HttpReply : Type 0 where
  pub code : ℕ
  pub headers : List ℕ
  pub body : List ℕ

pub record CoapReply : Type 0 where
  pub code : Text
  pub message_id : ℕ
  pub version : ℕ
  pub payload : List ℕ

-- curl, the CoAP client and `String::from_utf8`.
pub record Network : Type 0 where
  pub perform : HttpRequest → Result HttpReply
  pub coap_get : Text → Result CoapReply
  pub from_utf8 : List ℕ → Option Text

-- A response, the HTTP/3 client, or a panic.
pub data Answered : Type 0 where
  response : NetResponse → Answered
  to_http3 : Client → Answered
  panicked : Answered

abbrev pub failure : Protocols → Text → NetResponse
failure protocol e = record {
  protocol = protocol;
  status_code = 0;
  headers = [];
  body = [];
  error = some e;
}

-- `format!("{}: {}", key, value)`.
abbrev pub header_item : Text × Text → Text
header_item (key, value) = key ++ (b':' ∷ b' ' ∷ value)

abbrev pub is_post : Option Text → Bool
is_post none = false
is_post (some m) = same m (codes "POST")

unfoldable pub http_request : Client → HttpRequest
http_request c = record {
  url = c.raw_url;
  follow = c.redirection;
  headers = elim c.req_headers [ none ↦ none | some hs ↦ some (map header_item hs) ];
  post = is_post c.method;
  post_fields = if is_post c.method then c.req_body else none;
}

unfoldable pub file_request : Client → HttpRequest
file_request c = record {
  url = c.raw_url;
  follow = false;
  headers = none;
  post = false;
  post_fields = none;
}

module _ (net : Network) where
  -- Headers that are not UTF-8 are a panic.
  unfoldable pub http_decoded : Protocols → HttpReply → Option Text → Answered
  http_decoded protocol r none = panicked
  http_decoded protocol r (some text) = response (record {
    protocol = protocol;
    status_code = r.code;
    headers = parse_headers text;
    body = r.body;
    error = none;
  })

  unfoldable pub http_response : Protocols → Result HttpReply → Answered
  unfolding http_decoded
  http_response protocol (err e) = response (failure protocol e)
  http_response protocol (ok r) = http_decoded protocol r (net.from_utf8 r.headers)

  -- The texts have no zero byte: curl refuses one in a URL or a header, and the code unwraps.
  unfoldable pub request_http : Client → Answered
  unfolding http_response http_request
  request_http c = http_response c.protocol (net.perform (http_request c))

  unfoldable pub request_file : Client → Answered
  unfolding http_response file_request
  request_file c = http_response c.protocol (net.perform (file_request c))

  abbrev pub coap_headers : CoapReply → List (Text × Text)
  coap_headers r =
      (codes "Code", r.code)
      ∷ (codes "Message ID", to_text r.message_id)
      ∷ (codes "Version", to_text r.version)
      ∷ []

  -- A code that is no number is a panic.
  unfoldable pub coap_decoded : Protocols → CoapReply → Option ℕ → Option Text → Answered
  coap_decoded protocol r none text = panicked
  coap_decoded protocol r (some status) (some text) = response (record {
    protocol = protocol;
    status_code = status;
    headers = coap_headers r;
    body = r.payload;
    error = none;
  })
  coap_decoded protocol r (some status) none = response (record {
    protocol = protocol;
    status_code = status;
    headers = coap_headers r;
    body = [];
    error = some (codes "Failed to parse CoAP response body as UTF-8 string.");
  })

  unfoldable pub coap_response : Protocols → Result CoapReply → Answered
  unfolding coap_decoded
  coap_response protocol (err e) = response (failure protocol e)
  coap_response protocol (ok r) =
      coap_decoded protocol r (coap_code_to_decimal r.code) (net.from_utf8 r.payload)

  -- `run_coap` puts a text before the error.
  unfoldable pub run_coap : Client → Result CoapReply
  run_coap c = elim (net.coap_get c.raw_url) [
    | ok r ↦ ok r
    | err e ↦ err (codes "Failed to get CoAP response: " ++ e)
  ]

  unfoldable pub request_coap : Client → Answered
  unfolding coap_response run_coap
  request_coap c = coap_response c.protocol (run_coap c)

  abbrev pub unsupported : Client → Answered
  unsupported c =
      response (
        failure c.protocol
          (codes "The protocol does not support 'Request'. Use 'Connect' instead."))

  unfoldable pub request_by : Protocols → Client → Answered
  unfolding request_http request_file request_coap
  request_by http c = request_http c
  request_by https c = request_http c
  request_by http3 c = to_http3 c
  request_by file c = request_file c
  request_by coap c = request_coap c
  request_by mqtt c = unsupported c
  request_by ftp c = unsupported c
  request_by sftp c = unsupported c
  request_by ws c = unsupported c
  request_by wss c = unsupported c
  request_by webrtc c = unsupported c
  request_by quic c = unsupported c

  unfoldable pub request_parsed : Client → Result XrUrl → Answered
  unfolding request_by locate
  request_parsed c (err e) = response (failure c.protocol e)
  request_parsed c (ok url) = request_by c.protocol (locate url c)

  unfoldable pub request : Client → Answered
  unfolding request_parsed
  request c = request_parsed c (parse_url c.raw_url)
