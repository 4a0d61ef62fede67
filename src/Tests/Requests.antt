-- ===== src/Tests/Requests.antt =====
-- The client's requests and connections.
use device_sdk.Base.{[], ◌∷◌, none, some, false, ◌≡◌, ◌≢◌, refl, arith, codes}
use device_sdk.Base.Results.{ok, err}
use device_sdk.Common.Enums.{ws}
use device_sdk.Common.Messages.{XrUrl}
use device_sdk.Common.Url.{parse_url}
use device_sdk.Common.Url.Bounds.{IsParsed}
use device_sdk.Client.Settings.{Client}
use device_sdk.Client.Requests.{
  connect_ws, target, hand_over, locate, connect, parse_headers, Network, request,
}
use device_sdk.Client.Requests.Responses.{
  headers_text, IsAnswer, parse_headers-headers_text, connect-located, request-IsAnswer,
}
use device_sdk.Tests.Common.{chat_url, chat_url_parses}

parse_headers-headers_text_example :
    parse_headers (headers_text (codes "OK") ((codes "a", codes "b") ∷ []))
    ≡ (codes "a", codes "b") ∷ []
parse_headers-headers_text_example =
    parse_headers-headers_text (codes "OK") ((codes "a", codes "b") ∷ [])
      (ground arith, ground arith)
      (((ground arith, ground arith), (ground arith, ground arith)), tt)

abbrev client : Client
client = record {
  protocol = ws;
  raw_url = chat_url.raw_url;
  id = codes "x";
  url = none;
  host = none;
  port = none;
  path = none;
  req_headers = none;
  req_body = none;
  timeout = none;
  redirection = false;
  method = none;
  user = none;
  password = none;
}

abbrev located : Client
located = record client {
  url = some chat_url;
  host = some chat_url.host;
  port = some chat_url.port;
  path = some (target chat_url);
}

client_connects : connect client ≡ ok (connect_ws located)
unfolding connect locate hand_over
client_connects = rw chat_url_parses refl

connect-located_example :
    (client.raw_url ≢ [])
    × (u : XrUrl) × (parse_url client.raw_url ≡ ok u)
    × IsParsed client.raw_url u
    × (located ≡ record client {
      url = some u;
      host = some u.host;
      port = some u.port;
      path = some (target u);
    })
connect-located_example = connect-located client (connect_ws located) client_connects

abbrev offline : Network
offline = record {
  perform = λ r. err (codes "offline");
  coap_get = λ u. err (codes "offline");
  from_utf8 = λ bytes. some bytes;
}

request-IsAnswer_example : IsAnswer client.protocol (request offline client)
request-IsAnswer_example = request-IsAnswer offline client
