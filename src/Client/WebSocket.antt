-- ===== src/Client/WebSocket.antt =====
-- crates/xrds-net/src/client/xrds_websocket.rs: sending, receiving and closing over a WebSocket, which
-- is a parameter.
pub mod Echo
use device_sdk.Base.{ℕ, List, Option, none, some, Text, codes, same, if◌then◌else◌, ◌++◌}
use device_sdk.Base.Results.{Result, ok, err}

-- tungstenite's messages.
pub data Message : Type 0 where
  text binary : List ℕ → Message
  close other : Message

-- The stream: the result of a send, and the next message, an error or the end.
pub record Socket (S : Type 0) : Type 0 where
  pub send : Message → S → Result (Unit {0}) × S
  pub next : S → Option (Result Message) × S

abbrev pub type_or_binary : Option Text → Text
type_or_binary none = codes "binary"
type_or_binary (some t) = t

-- `lower` is `str::to_lowercase`; `utf8` gives the error of `String::from_utf8`, if it has one.
module _ (lower : Text → Text) (utf8 : List ℕ → Option Text) where
  unfoldable pub text_message : List ℕ → Option Text → Result Message
  text_message message none = ok (text message)
  text_message message (some e) = err (codes "Invalid UTF-8 payload for text message: " ++ e)

  unfoldable pub message_of : Option Text → List ℕ → Result Message
  unfolding text_message
  message_of msg_type message =
      let t = lower (type_or_binary msg_type) in
      if same t (codes "text")
      then text_message message (utf8 message)
      else if same t (codes "binary")
      then ok (binary message)
      else err (codes "Invalid message type")

-- What a received message gives.
unfoldable pub received : Option (Result Message) → Result (List ℕ)
received (some (ok (binary bytes))) = ok bytes
received (some (ok (text bytes))) = ok bytes
received (some (ok close)) = err (codes "The received message is not binary.")
received (some (ok other)) = err (codes "The received message is not binary.")
received (some (err e)) = err e
received none = err (codes "WebSocket stream ended.")

abbrev pub missing_client : Text
missing_client = codes "WebSocket client is not initialized."

module _ {S : Type 0} (socket : Socket S) (lower : Text → Text) (utf8 : List ℕ → Option Text) where
  abbrev pub send_over : Result Message → S → Result (Unit {0}) × Option S
  send_over (err e) s = (err e, some s)
  send_over (ok m) s = let (r, s') = socket.send m s in (r, some s')

  unfoldable pub send_ws : Option Text → List ℕ → Option S → Result (Unit {0}) × Option S
  unfolding message_of
  send_ws msg_type message none = (err missing_client, none)
  send_ws msg_type message (some s) = send_over (message_of lower utf8 msg_type message) s

  unfoldable pub rcv_ws : Option S → Result (List ℕ) × Option S
  unfolding received
  rcv_ws none = (err missing_client, none)
  rcv_ws (some s) = let (m, s') = socket.next s in (received m, some s')

  unfoldable pub close_ws : Option S → Result (Unit {0}) × Option S
  close_ws none = (err missing_client, none)
  close_ws (some s) = let (r, s') = socket.send close s in (r, some s')
