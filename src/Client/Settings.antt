-- ===== src/Client/Settings.antt =====
-- crates/xrds-net/src/client/client.rs: `ClientBuilder`, `Client` and its setters. The client's handles of
-- open connections are left out.
use device_sdk.Base.{ℕ, List, [], Option, none, some, Bool, false, Text}
use device_sdk.Common.Enums.{Protocols, http}
use device_sdk.Common.Messages.{XrUrl}

pub record ClientBuilder : Type 0 where
  pub protocol : Protocols
  pub user : Option Text
  pub password : Option Text

pub record Client : Type 0 where
  pub protocol : Protocols
  pub raw_url : Text
  pub id : Text
  pub url : Option XrUrl
  pub host : Option Text
  pub port : Option ℕ
  pub path : Option Text
  pub req_headers : Option (List (Text × Text))
  pub req_body : Option Text
  pub timeout : Option ℕ
  pub redirection : Bool
  pub method : Option Text
  pub user : Option Text
  pub password : Option Text

-- `ClientBuilder::new`.
unfoldable pub new_builder : ClientBuilder
new_builder = record { protocol = http; user = none; password = none }

unfoldable pub set_protocol : Protocols → ClientBuilder → ClientBuilder
set_protocol protocol b = record b { protocol = protocol }

-- `id` is the random identifier.
unfoldable pub build : Text → ClientBuilder → Client
build id b = record {
  protocol = b.protocol;
  raw_url = [];
  id = id;
  url = none;
  host = none;
  port = none;
  path = none;
  req_headers = none;
  req_body = none;
  timeout = none;
  redirection = false;
  method = none;
  user = b.user;
  password = b.password;
}

-- `upper` is `str::to_uppercase`.
unfoldable pub set_method : (Text → Text) → Text → Client → Client
set_method upper method c = record c { method = some (upper method) }

unfoldable pub set_url : Text → Client → Client
set_url url c = record c { raw_url = url }

unfoldable pub set_follow_redirect : Bool → Client → Client
set_follow_redirect follow c = record c { redirection = follow }

unfoldable pub set_req_headers : List (Text × Text) → Client → Client
set_req_headers headers c = record c { req_headers = some headers }

unfoldable pub set_req_body : Text → Client → Client
set_req_body body c = record c { req_body = some body }

unfoldable pub set_timeout : ℕ → Client → Client
set_timeout timeout c = record c { timeout = some timeout }

unfoldable pub set_user : Text → Client → Client
set_user user c = record c { user = some user }

unfoldable pub set_password : Text → Client → Client
set_password password c = record c { password = some password }
