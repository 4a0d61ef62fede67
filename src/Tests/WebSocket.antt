-- ===== src/Tests/WebSocket.antt =====
-- A client of the WebSocket server.
use device_sdk.Base.{
  ℕ, List, [], ◌∷◌, Option, none, some, ◌≡◌, refl, Text, codes, same, lookup, insert,
}
use device_sdk.Base.Results.{ok}
use device_sdk.WsServer.{Frame, handle_connection, new, answer, default_handler, register_handler}
use device_sdk.Client.WebSocket.{message_of, text_message, send_ws, rcv_ws}
use device_sdk.Client.WebSocket.Echo.{link, rcv_ws-send_ws}
use device_sdk.Tests.Servers.{unchanged, unchanged-IsLower}

abbrev valid : List ℕ → Option Text
valid bytes = none

abbrev waiting : Option (List Frame)
waiting = some (Frame.binary (codes "hi") ∷ [])

sent :
    send_ws (link unchanged) unchanged valid (some (codes "text")) (codes "hi") (some [])
    ≡ (ok tt, waiting)
unfolding send_ws message_of text_message handle_connection new answer default_handler
    register_handler same lookup insert
sent = refl

rcv_ws-send_ws_example : (rcv_ws (link unchanged) unchanged valid waiting).0 ≡ ok (codes "hi")
rcv_ws-send_ws_example =
    rcv_ws-send_ws unchanged valid (some (codes "text")) (codes "hi") waiting unchanged-IsLower sent
