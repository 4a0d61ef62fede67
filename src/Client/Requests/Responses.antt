-- ===== src/Client/Requests/Responses.antt =====
-- The headers that are read back, the client that `connect` hands over, and what `request` answers.
use device_sdk.Base.{
  ℕ, List, [], ◌∷◌, ◌++◌, Option, none, some, ◌≡◌, ◌≢◌, ◌⊎◌, inl, inr, refl, sym, ap, ◌∙◌, subst,
  arith, Text, All, Free, join, split, split-join, split-Free, split_str, crlf, split_str-crlf,
  All-append,
}
use device_sdk.Base.Results.{Result, ok, err, >>=-eq-ok, ok-injective}
use device_sdk.Common.Enums.{
  Protocols, http, https, file, coap, mqtt, ftp, sftp, ws, wss, webrtc, http3, quic,
}
use device_sdk.Common.Messages.{XrUrl}
use device_sdk.Common.Url.{parse_url, coap_code_to_decimal}
use device_sdk.Common.Url.Bounds.{IsParsed, parse_url-IsParsed}
use device_sdk.Client.Settings.{Client}
use device_sdk.Client.Requests.{
  target, locate, Handover, connect_ws, connect_ftp, connect_sftp, connect_mqtt, connect_quic,
  hand_over, required, connect, header_of, headers_of, parse_headers, HttpReply, CoapReply, Network,
  Answered, response, to_http3, panicked, http_decoded, http_response, request_http, request_file,
  coap_decoded, coap_response, request_coap, request_by, request_parsed, request,
}

-- A line of a header, and the headers of a response: a status line, the lines, an empty line.
abbrev pub line_text : Text × Text → Text
line_text (name, value) = name ++ b':' ∷ value

abbrev pub lines_text : List (Text × Text) → Text
lines_text [] = crlf ++ []
lines_text (h ∷ hs) = line_text h ++ (crlf ++ lines_text hs)

abbrev pub headers_text : Text → List (Text × Text) → Text
headers_text status hs = status ++ (crlf ++ lines_text hs)

-- No colon, and no carriage return.
abbrev pub IsPart : Text → Type 0
IsPart s = Free b':' s × Free 13 s

line_text-Free : (n v : Text) → IsPart n → IsPart v → Free 13 (line_text (n, v))
line_text-Free n v (_, f) (_, g) =
    All-append (λ d. d ≢ 13) n (b':' ∷ v) f (λ e. omega (arith, e), g)

header_of-line_text :
    (n v : Text) → IsPart n → IsPart v → header_of (split b':' (line_text (n, v))) ≡ (n, v) ∷ []
unfolding header_of join
header_of-line_text n v (f, _) (g, _) = rw (split-join b':' n (v ∷ []) f (g, tt)) refl

headers_of-cons :
    (line : Text) (lines : List Text)
    → headers_of (line ∷ lines) ≡ header_of (split b':' line) ++ headers_of lines
unfolding headers_of
headers_of-cons line lines = refl

parse_headers-line :
    (line rest : Text)
    → Free 13 line
    → parse_headers (line ++ (crlf ++ rest)) ≡ header_of (split b':' line) ++ parse_headers rest
unfolding parse_headers
parse_headers-line line rest f =
    ap headers_of (split_str-crlf line rest f) ∙ headers_of-cons line (split_str crlf rest)

header_of-plain : (s : Text) → Free b':' s → header_of (split b':' s) ≡ []
unfolding header_of
header_of-plain s f = rw (split-Free b':' s f) refl

parse_headers-lines_text :
    (hs : List (Text × Text))
    → All (λ h. IsPart h.0 × IsPart h.1) hs
    → parse_headers (lines_text hs) ≡ hs
unfolding parse_headers headers_of header_of split_str split
parse_headers-lines_text [] a = refl
parse_headers-lines_text ((n, v) ∷ hs) ((f, g), a) =
    parse_headers-line (line_text (n, v)) (lines_text hs) (line_text-Free n v f g)
    ∙ (rw (header_of-line_text n v f g) (ap (◌∷◌ (n, v)) (parse_headers-lines_text hs a)))

-- The headers of a response are read back, all and in order, and its status line is dropped, if no
-- name or value holds a colon or a carriage return, and the status line neither.
pub parse_headers-headers_text :
    (status : Text) (hs : List (Text × Text))
    → IsPart status
    → All (λ h. IsPart h.0 × IsPart h.1) hs
    → parse_headers (headers_text status hs) ≡ hs
parse_headers-headers_text status hs (f, g) a =
    parse_headers-line status (lines_text hs) g
    ∙ (rw (header_of-plain status f) (parse_headers-lines_text hs a))

-- The client in the state in which its connection is opened.
abbrev pub client_of : Handover → Client
client_of (connect_ws c) = c
client_of (connect_ftp c) = c
client_of (connect_sftp c) = c
client_of (connect_mqtt c) = c
client_of (connect_quic c) = c

hand_over-client :
    (p : Protocols) (c : Client) (h : Handover) → hand_over p c ≡ ok h → client_of h ≡ c
unfolding hand_over
hand_over-client ws c h e = ap client_of (sym (ok-injective e))
hand_over-client wss c h e = ap client_of (sym (ok-injective e))
hand_over-client ftp c h e = ap client_of (sym (ok-injective e))
hand_over-client sftp c h e = ap client_of (sym (ok-injective e))
hand_over-client mqtt c h e = ap client_of (sym (ok-injective e))
hand_over-client quic c h e = ap client_of (sym (ok-injective e))
hand_over-client http c h e = cc
hand_over-client https c h e = cc
hand_over-client file c h e = cc
hand_over-client coap c h e = cc
hand_over-client webrtc c h e = cc
hand_over-client http3 c h e = cc

required-ne-nil : (url : Text) → required url ≡ ok tt → url ≢ []
required-ne-nil [] h = cc
required-ne-nil (c ∷ cs) h = λ e. cc

-- A client that goes on to open a connection has a URL that parses, and is as it was but for the URL,
-- the host, the port and the path with its query, which are those of the parsed URL; so its port is
-- from 1 to 65535, which the MQTT connection takes for granted.
pub connect-located :
    (c : Client) (h : Handover)
    → connect c ≡ ok h
    → (c.raw_url ≢ [])
      × (u : XrUrl) × (parse_url c.raw_url ≡ ok u)
      × IsParsed c.raw_url u
      × (client_of h ≡ record c {
        url = some u;
        host = some u.host;
        port = some u.port;
        path = some (target u);
      })
unfolding connect locate
connect-located c h e =
    let (_, r, h₁) = >>=-eq-ok (required c.raw_url) _ e in
    let (u, p, h₂) = >>=-eq-ok (parse_url c.raw_url) _ h₁ in
    (
      required-ne-nil c.raw_url r,
      u,
      p,
      parse_url-IsParsed c.raw_url u p,
      hand_over-client c.protocol _ h h₂,
    )

-- The response is for the protocol, and an error comes without a body.
abbrev pub IsAnswer : Protocols → Answered → Type 0
IsAnswer p (response r) = (r.protocol ≡ p) × ((r.error ≡ none) ⊎ (r.body ≡ []))
IsAnswer p (to_http3 c) = (p ≡ http3) × (c.protocol ≡ p)
IsAnswer p panicked = Unit

module _ (net : Network) where
  http_decoded-IsAnswer :
      (p : Protocols) (r : HttpReply) (text : Option Text) → IsAnswer p (http_decoded net p r text)
  unfolding http_decoded
  http_decoded-IsAnswer p r none = tt
  http_decoded-IsAnswer p r (some text) = (refl, inl refl)

  http_response-IsAnswer :
      (p : Protocols) (r : Result HttpReply) → IsAnswer p (http_response net p r)
  unfolding http_response
  http_response-IsAnswer p (err e) = (refl, inr refl)
  http_response-IsAnswer p (ok r) = http_decoded-IsAnswer p r (net.from_utf8 r.headers)

  coap_decoded-IsAnswer :
      (p : Protocols) (r : CoapReply) (status : Option ℕ) (text : Option Text)
      → IsAnswer p (coap_decoded net p r status text)
  unfolding coap_decoded
  coap_decoded-IsAnswer p r none text = tt
  coap_decoded-IsAnswer p r (some status) none = (refl, inr refl)
  coap_decoded-IsAnswer p r (some status) (some text) = (refl, inl refl)

  coap_response-IsAnswer :
      (p : Protocols) (r : Result CoapReply) → IsAnswer p (coap_response net p r)
  unfolding coap_response
  coap_response-IsAnswer p (err e) = (refl, inr refl)
  coap_response-IsAnswer p (ok r) =
      coap_decoded-IsAnswer p r (coap_code_to_decimal r.code) (net.from_utf8 r.payload)

  request_by-IsAnswer :
      (p : Protocols) (c : Client) → c.protocol ≡ p → IsAnswer p (request_by net p c)
  unfolding request_by request_http request_file request_coap
  request_by-IsAnswer http c e =
      subst (λ p. IsAnswer p (request_http net c)) e (http_response-IsAnswer c.protocol _)
  request_by-IsAnswer https c e =
      subst (λ p. IsAnswer p (request_http net c)) e (http_response-IsAnswer c.protocol _)
  request_by-IsAnswer file c e =
      subst (λ p. IsAnswer p (request_file net c)) e (http_response-IsAnswer c.protocol _)
  request_by-IsAnswer coap c e =
      subst (λ p. IsAnswer p (request_coap net c)) e (coap_response-IsAnswer c.protocol _)
  request_by-IsAnswer http3 c e = (refl, e)
  request_by-IsAnswer mqtt c e = (e, inr refl)
  request_by-IsAnswer ftp c e = (e, inr refl)
  request_by-IsAnswer sftp c e = (e, inr refl)
  request_by-IsAnswer ws c e = (e, inr refl)
  request_by-IsAnswer wss c e = (e, inr refl)
  request_by-IsAnswer webrtc c e = (e, inr refl)
  request_by-IsAnswer quic c e = (e, inr refl)

  request_parsed-IsAnswer :
      (c : Client) (r : Result XrUrl) → IsAnswer c.protocol (request_parsed net c r)
  unfolding request_parsed locate
  request_parsed-IsAnswer c (err e) = (refl, inr refl)
  request_parsed-IsAnswer c (ok url) = request_by-IsAnswer c.protocol (locate url c) refl

  -- Whatever the network answers, a response is for the client's protocol, and one with an error has
  -- no body; only the HTTP/3 protocol is left to the HTTP/3 client.
  pub request-IsAnswer : (c : Client) → IsAnswer c.protocol (request net c)
  unfolding request
  request-IsAnswer c = request_parsed-IsAnswer c (parse_url c.raw_url)
