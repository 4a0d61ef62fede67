-- ===== src/Tests/Servers.antt =====
-- The WebSocket server and `XRNetServer`.
use device_sdk.Base.{List, [], ◌∷◌, none, some, true, false, refl, Text, codes}
use device_sdk.Common.Enums.{ws, webrtc}
use device_sdk.WsServer.{WsHandler, Incoming, text, ping, closing}
use device_sdk.WsServer.Handlers.{IsLower}
use device_sdk.NetServer.{XrNetServer, FileSystem, Service, ws_server, webrtc_server}

abbrev pub unchanged : Text → Text
unchanged t = t

pub unchanged-IsLower : IsLower unchanged
unchanged-IsLower = record {
  texts = refl;
  binaries = refl;
  closes = refl;
  pings = refl;
  pongs = refl;
}

abbrev silent : WsHandler
silent bytes = none

abbrev incoming : List Incoming
incoming = text (codes "hello") ∷ ping [] ∷ closing ∷ []

abbrev disk : FileSystem
disk = record { exists = λ path. true; readonly = λ path. false }

abbrev configuration : XrNetServer
configuration = record {
  protocol = ws ∷ webrtc ∷ [];
  port = 8080 ∷ 8081 ∷ [];
  greeting = none;
  root_dir = some (codes "/srv");
  ws_handlers = (codes "text", silent) ∷ [];
}

abbrev spawned : List Service
spawned = ws_server 8080 ∷ webrtc_server 8081 ∷ []
