-- ===== src/Tests/Common.antt =====
-- URLs, lists of identifiers and headers.
use device_sdk.Base.{none, some, ◌≡◌, arith, codes}
use device_sdk.Base.Results.{ok}
use device_sdk.Common.Messages.{XrUrl}
use device_sdk.Common.Url.{parse_url}
use device_sdk.Common.Url.RoundTrip.{IsClean, render, parse_url-render}

abbrev pub chat_url : XrUrl
chat_url = record {
  scheme = codes "ws";
  host = codes "h";
  port = 8080;
  path = codes "/p";
  raw_url = render (codes "ws") (codes "h") 8080 (codes "p") (codes "q");
  query = some (codes "q");
  username = none;
  password = none;
}

chat_url-IsClean : IsClean (codes "ws") (codes "h") (codes "p") (codes "q")
chat_url-IsClean = record {
  has_scheme = λ e. cc;
  scheme_colon = ground arith;
  host_colon = ground arith;
  host_slash = ground arith;
  host_query = ground arith;
  path_query = ground arith;
  path_colon = ground arith;
  query_query = ground arith;
  query_colon = ground arith;
}

parse_url-render_example : parse_url chat_url.raw_url ≡ ok chat_url
parse_url-render_example =
    parse_url-render (codes "ws") (codes "h") (codes "p") (codes "q") 8080 chat_url-IsClean
      (omega arith) (omega arith)

pub chat_url_parses : parse_url chat_url.raw_url ≡ ok chat_url
chat_url_parses =
    parse_url-render (codes "ws") (codes "h") (codes "p") (codes "q") 8080 chat_url-IsClean
      (omega arith) (omega arith)
