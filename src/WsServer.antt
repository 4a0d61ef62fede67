-- ===== src/WsServer.antt =====
-- crates/xrds-net/src/server/ws_server.rs: the WebSocket server, which calls a handler for each
-- kind of message. A handler is a function from the bytes to what is sent back.
pub mod Handlers
pub mod Replies
use device_sdk.Base.{ℕ, List, [], ◌∷◌, ◌++◌, Option, none, some, Text, codes, Dict, lookup, insert}

abbrev pub WsHandler : Type 0
WsHandler = List ℕ → Option (List ℕ)

abbrev pub WsHandlers : Type 0
WsHandlers = Dict WsHandler

pub record Client : Type 0 where
  pub client_id : Text
  pub peer_addr : Text

pub record WebSocketServer : Type 0 where
  pub handlers : WsHandlers
  pub clients : Dict Client

abbrev pub text_type : Text
text_type = codes "text"

abbrev pub binary_type : Text
binary_type = codes "binary"

abbrev pub close_type : Text
close_type = codes "close"

abbrev pub ping_type : Text
ping_type = codes "ping"

abbrev pub pong_type : Text
pong_type = codes "pong"

unfoldable pub default_handler : WsHandler
default_handler msg = some msg

-- `lower` is `str::to_lowercase`.
module _ (lower : Text → Text) where
  unfoldable pub register_handler : Text → WsHandler → WebSocketServer → WebSocketServer
  register_handler msg_type handler s = record s {
    handlers = insert (lower msg_type) handler s.handlers;
  }

  unfoldable pub register_default_handlers : WebSocketServer → WebSocketServer
  unfolding register_handler
  register_default_handlers s = register_handler pong_type default_handler (
      register_handler ping_type default_handler (
        register_handler close_type default_handler (
          register_handler binary_type default_handler
            (register_handler text_type default_handler s))))

  unfoldable pub new : WebSocketServer
  unfolding register_default_handlers
  new = register_default_handlers (record { handlers = []; clients = [] })

unfoldable pub set_handlers : WsHandlers → WebSocketServer → WebSocketServer
set_handlers handlers s = record s { handlers = handlers }

unfoldable pub add_client : Text → Client → WebSocketServer → WebSocketServer
add_client id client s = record s { clients = insert id client s.clients }

-- `receiver.next()`: a message with its bytes, of a type that has a handler or of another type, a
-- close frame, or an error of the stream.
pub data Incoming : Type 0 where
  binary text ping pong : List ℕ → Incoming
  closing other failed : Incoming

pub data Frame : Type 0 where
  binary : List ℕ → Frame
  close : Frame

-- The frames given to the sender, when the connection's task returns or panics.
pub data Run : Type 0 where
  returned panicked : List Frame → Run

abbrev pub after : List Frame → Run → Run
after front (returned out) = returned (front ++ out)
after front (panicked out) = panicked (front ++ out)

abbrev reply_frames : Option (List ℕ) → List Frame
reply_frames none = []
reply_frames (some r) = Frame.binary r ∷ []

-- One message of a type with a handler, and the rest of the loop. A send that fails is only logged.
unfoldable pub answer : Option WsHandler → List ℕ → Run → Run
answer none data_bytes rest = panicked []
answer (some handler) data_bytes rest = after (reply_frames (handler data_bytes)) rest

-- The loop over the incoming messages.
unfoldable pub handle_connection : WsHandlers → List Incoming → Run
unfolding answer
handle_connection handlers [] = returned []
handle_connection handlers (failed ∷ _) = returned (close ∷ [])
handle_connection handlers (closing ∷ _) = returned []
handle_connection handlers (other ∷ rest) = handle_connection handlers rest
handle_connection handlers (binary b ∷ rest) =
    answer (lookup binary_type handlers) b (handle_connection handlers rest)
handle_connection handlers (text b ∷ rest) =
    answer (lookup text_type handlers) b (handle_connection handlers rest)
handle_connection handlers (ping b ∷ rest) =
    answer (lookup ping_type handlers) b (handle_connection handlers rest)
handle_connection handlers (pong b ∷ rest) =
    answer (lookup pong_type handlers) b (handle_connection handlers rest)
