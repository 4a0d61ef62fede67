-- ===== src/WsServer/Replies.antt =====
-- What the loop over a connection's messages answers.
use device_sdk.Base.{
  ℕ, List, [], ◌∷◌, Option, none, some, ◌≡◌, ◌≢◌, refl, Text, same, insert, lookup-insert_other,
}
use device_sdk.WsServer.{
  WsHandler, WsHandlers, text_type, binary_type, close_type, ping_type, pong_type, default_handler,
  new, Incoming, binary, text, ping, pong, closing, other, failed, Frame, close, Run, returned,
  panicked, after, answer, handle_connection,
}
use device_sdk.WsServer.Handlers.{IsComplete, IsLower, new-lookup}

abbrev pub Returns : Run → Type 0
Returns (returned out) = Unit
Returns (panicked out) = ⊥

after-Returns : (front : List Frame) (r : Run) → Returns r → Returns (after front r)
after-Returns front (returned out) h = tt
after-Returns front (panicked out) h = h

answer-Returns :
    (h : Option WsHandler) (b : List ℕ) (r : Run) → h ≢ none → Returns r → Returns (answer h b r)
unfolding answer
answer-Returns none b r n k = absurd (n refl)
answer-Returns (some h) b r n k = after-Returns _ r k

-- With a handler for each type of message that the loop looks up, no message makes the connection's
-- task panic.
pub handle_connection-Returns :
    (handlers : WsHandlers) (incoming : List Incoming)
    → IsComplete handlers
    → Returns (handle_connection handlers incoming)
unfolding handle_connection
handle_connection-Returns hs [] c = tt
handle_connection-Returns hs (failed ∷ _) c = tt
handle_connection-Returns hs (closing ∷ _) c = tt
handle_connection-Returns hs (other ∷ rest) c = handle_connection-Returns hs rest c
handle_connection-Returns hs (binary b ∷ rest) c =
    answer-Returns _ b _ c.binaries (handle_connection-Returns hs rest c)
handle_connection-Returns hs (text b ∷ rest) c =
    answer-Returns _ b _ c.texts (handle_connection-Returns hs rest c)
handle_connection-Returns hs (ping b ∷ rest) c =
    answer-Returns _ b _ c.pings (handle_connection-Returns hs rest c)
handle_connection-Returns hs (pong b ∷ rest) c =
    answer-Returns _ b _ c.pongs (handle_connection-Returns hs rest c)

-- The handler that is registered for close messages is never called: with another one, or with a
-- new one, every connection goes the same way.
pub handle_connection-insert_close :
    (handlers : WsHandlers) (h : WsHandler) (incoming : List Incoming)
    → handle_connection (insert close_type h handlers) incoming
      ≡ handle_connection handlers incoming
unfolding handle_connection
handle_connection-insert_close hs h [] = refl
handle_connection-insert_close hs h (failed ∷ _) = refl
handle_connection-insert_close hs h (closing ∷ _) = refl
handle_connection-insert_close hs h (other ∷ rest) = handle_connection-insert_close hs h rest
handle_connection-insert_close hs h (binary b ∷ rest) = rw (
  lookup-insert_other close_type binary_type h hs (λ e. cc),
  handle_connection-insert_close hs h rest,
)
handle_connection-insert_close hs h (text b ∷ rest) = rw (
  lookup-insert_other close_type text_type h hs (λ e. cc),
  handle_connection-insert_close hs h rest,
)
handle_connection-insert_close hs h (ping b ∷ rest) = rw (
  lookup-insert_other close_type ping_type h hs (λ e. cc),
  handle_connection-insert_close hs h rest,
)
handle_connection-insert_close hs h (pong b ∷ rest) = rw (
  lookup-insert_other close_type pong_type h hs (λ e. cc),
  handle_connection-insert_close hs h rest,
)

-- What an echo server sends: each message's bytes in a binary frame, up to the first close frame or
-- error, and a close frame after an error.
abbrev pub echoes : List Incoming → List Frame
echoes [] = []
echoes (failed ∷ _) = close ∷ []
echoes (closing ∷ _) = []
echoes (other ∷ rest) = echoes rest
echoes (binary b ∷ rest) = Frame.binary b ∷ echoes rest
echoes (text b ∷ rest) = Frame.binary b ∷ echoes rest
echoes (ping b ∷ rest) = Frame.binary b ∷ echoes rest
echoes (pong b ∷ rest) = Frame.binary b ∷ echoes rest

echo-answer :
    (b : List ℕ) (rest : List Incoming) (r : Run)
    → r ≡ returned (echoes rest)
    → answer (some default_handler) b r ≡ returned (Frame.binary b ∷ echoes rest)
unfolding answer default_handler
echo-answer b rest r e = rw e

-- A server with its default handlers echoes every message, in binary frames whatever its type.
pub handle_connection-echoes :
    (lower : Text → Text)
    → IsLower lower
    → (incoming : List Incoming)
    → handle_connection (new lower).handlers incoming ≡ returned (echoes incoming)
unfolding handle_connection same
handle_connection-echoes lower l [] = refl
handle_connection-echoes lower l (failed ∷ _) = refl
handle_connection-echoes lower l (closing ∷ _) = refl
handle_connection-echoes lower l (other ∷ rest) = handle_connection-echoes lower l rest
handle_connection-echoes lower l (binary b ∷ rest) =
    rw (new-lookup lower l binary_type)
      (echo-answer b rest _ (handle_connection-echoes lower l rest))
handle_connection-echoes lower l (text b ∷ rest) =
    rw (new-lookup lower l text_type) (echo-answer b rest _ (handle_connection-echoes lower l rest))
handle_connection-echoes lower l (ping b ∷ rest) =
    rw (new-lookup lower l ping_type) (echo-answer b rest _ (handle_connection-echoes lower l rest))
handle_connection-echoes lower l (pong b ∷ rest) =
    rw (new-lookup lower l pong_type) (echo-answer b rest _ (handle_connection-echoes lower l rest))
