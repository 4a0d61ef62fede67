-- ===== src/WsServer/Handlers.antt =====
-- Which handlers a server has.
use device_sdk.Base.{
  none, some, ◌≡◌, ◌≢◌, refl, arith, Text, same, lookup, insert, lookup-insert, if◌then◌else◌,
}
use device_sdk.WsServer.{
  WsHandler, WsHandlers, WebSocketServer, text_type, binary_type, close_type, ping_type, pong_type,
  default_handler, register_handler, new,
}

-- Every type of message that the loop looks up has a handler.
pub record IsComplete (handlers : WsHandlers) : Type 0 where
  pub texts : lookup text_type handlers ≢ none
  pub binaries : lookup binary_type handlers ≢ none
  pub pings : lookup ping_type handlers ≢ none
  pub pongs : lookup pong_type handlers ≢ none

lookup-insert_kept :
    (k j : Text) (h : WsHandler) (m : WsHandlers)
    → lookup j m ≢ none
    → lookup j (insert k h m) ≢ none
lookup-insert_kept k j h m n e = ground (arith, lookup-insert k j h m)

-- Registering a handler for any type, known or not, takes no handler away.
pub register_handler-IsComplete :
    (lower : Text → Text) (msg_type : Text) (h : WsHandler) (s : WebSocketServer)
    → IsComplete s.handlers
    → IsComplete (register_handler lower msg_type h s).handlers
unfolding register_handler
register_handler-IsComplete lower t h s c = record {
  texts = lookup-insert_kept (lower t) text_type h s.handlers c.texts;
  binaries = lookup-insert_kept (lower t) binary_type h s.handlers c.binaries;
  pings = lookup-insert_kept (lower t) ping_type h s.handlers c.pings;
  pongs = lookup-insert_kept (lower t) pong_type h s.handlers c.pongs;
}

-- Lower case names stay as they are.
pub record IsLower (lower : Text → Text) : Type 0 where
  pub texts : lower text_type ≡ text_type
  pub binaries : lower binary_type ≡ binary_type
  pub closes : lower close_type ≡ close_type
  pub pings : lower ping_type ≡ ping_type
  pub pongs : lower pong_type ≡ pong_type

pub new-lookup :
    (lower : Text → Text)
    → IsLower lower
    → (t : Text)
    → lookup t (new lower).handlers ≡ (
        if same text_type t
        then some default_handler
        else if same binary_type t
        then some default_handler
        else if same close_type t
        then some default_handler
        else if same ping_type t
        then some default_handler
        else if same pong_type t
        then some default_handler
        else none)
unfolding new register_handler lookup insert same
new-lookup lower l t = rw (l.texts, l.binaries, l.closes, l.pings, l.pongs) refl
