-- ===== src/NetServer.antt =====
-- crates/xrds-net/src/server/server.rs: `XRNetServer`, which checks its configuration and starts one
-- server for each protocol that it implements.
pub mod Start
use device_sdk.Base.{
  ℕ, zero, suc, ◌+◌, List, [], ◌∷◌, ◌++◌, Option, none, some, Bool, true, false, not, Text, codes,
  length, Dict, insert, ◌==◌, if◌then◌else◌,
}
use device_sdk.Base.Results.{Result, ok, err, ok_or, ◌>>=◌, ◌>>◌}
use device_sdk.Common.Enums.{
  Protocols, http, https, file, coap, mqtt, ftp, sftp, ws, wss, webrtc, http3, quic,
}
use device_sdk.WsServer.{WsHandler, WsHandlers, WebSocketServer}
use device_sdk.WsServer

pub record XrNetServer : Type 0 where
  pub protocol : List Protocols
  pub port : List ℕ
  pub greeting : Option Text
  pub root_dir : Option Text
  pub ws_handlers : WsHandlers

unfoldable pub new : List Protocols → List ℕ → XrNetServer
new protocol port = record {
  protocol = protocol;
  port = port;
  greeting = none;
  root_dir = some [];
  ws_handlers = [];
}

unfoldable pub set_greeting : Text → XrNetServer → XrNetServer
set_greeting greeting s = record s { greeting = some greeting }

unfoldable pub set_root_dir : Text → XrNetServer → XrNetServer
set_root_dir dir s = record s { root_dir = some dir }

-- `lower` is `str::to_lowercase`.
unfoldable pub register_handler : (Text → Text) → Text → WsHandler → XrNetServer → XrNetServer
register_handler lower msg_type handler s = record s {
  ws_handlers = insert (lower msg_type) handler s.ws_handlers;
}

-- What the file system says of a path: whether it exists, and whether it is read-only.
pub record FileSystem : Type 0 where
  pub exists : Text → Bool
  pub readonly : Text → Bool

unfoldable pub validate_path : FileSystem → Text → Result (Unit {0})
validate_path fs path = if fs.exists path then ok tt else err (codes "Invalid path")

unfoldable pub validate_path_write_permission : FileSystem → Text → Result (Unit {0})
validate_path_write_permission fs path =
    if fs.readonly path then err (codes "No write permission") else ok tt

-- A server that `start` spawns, with its port.
pub data Service : Type 0 where
  ftp_server ws_server webrtc_server quic_server : ℕ → Service

-- The arms of the match on a protocol; some start nothing yet.
unfoldable pub service_of : Protocols → ℕ → List Service
service_of ftp port = ftp_server port ∷ []
service_of sftp port = ftp_server port ∷ []
service_of ws port = ws_server port ∷ []
service_of wss port = ws_server port ∷ []
service_of webrtc port = webrtc_server port ∷ []
service_of quic port = quic_server port ∷ []
service_of http port = []
service_of https port = []
service_of mqtt port = []
service_of coap port = []
service_of file port = []
service_of http3 port = []

-- The loop over the indices; an index without a port would panic.
unfoldable pub spawn_all : List Protocols → List ℕ → Result (List Service)
unfolding service_of
spawn_all [] ports = ok []
spawn_all (p ∷ ps) [] = err (codes "index out of bounds")
spawn_all (p ∷ ps) (n ∷ ns) = do rest ← spawn_all ps ns; ok (service_of p n ++ rest)

abbrev pub panic_if : Bool → Text → Result (Unit {0})
panic_if true message = err message
panic_if false message = ok tt

abbrev pub is_nil {ℓ} : {A : Type ℓ} → List A → Bool
is_nil [] = true
is_nil (x ∷ xs) = false

-- `result.is_err()`, turned into a panic with a text of its own.
abbrev pub panic_if_err : Result (Unit {0}) → Text → Result (Unit {0})
panic_if_err (ok u) message = ok tt
panic_if_err (err e) message = err message

-- An error is a panic, with its message.
unfoldable pub start : FileSystem → XrNetServer → Result (List Service)
unfolding validate_path validate_path_write_permission
start fs s = do
  panic_if (is_nil s.protocol) (codes "No protocol is specified")
  panic_if (is_nil s.port) (codes "No port is specified")
  panic_if (not (length s.protocol == length s.port)) (codes "Protocol and Port size mismatch")
  dir ← ok_or s.root_dir (codes "called `Option::unwrap()` on a `None` value")
  panic_if_err (validate_path fs dir) (codes "Invalid root directory")
  panic_if_err (validate_path_write_permission fs dir)
      (codes "No write permission to the root directory")
  spawn_all s.protocol s.port

-- The WebSocket server of `run_ws_server`: the user's handlers over the default ones.
unfoldable pub register_all : (Text → Text) → WsHandlers → WebSocketServer → WebSocketServer
register_all lower [] s = s
register_all lower ((t, h) ∷ hs) s = register_all lower hs (WsServer.register_handler lower t h s)

unfoldable pub run_ws_server : (Text → Text) → XrNetServer → WebSocketServer
unfolding register_all
run_ws_server lower s = register_all lower s.ws_handlers (WsServer.new lower)

-- The home directory of `run_ftp_server`; `none` is a panic, where no root directory is set.
unfoldable pub ftp_home : FileSystem → Text → XrNetServer → Option Text
ftp_home fs temp_dir s = elim s.root_dir [
  | none ↦ none
  | some dir ↦ some (if fs.exists dir then dir else temp_dir)
]
