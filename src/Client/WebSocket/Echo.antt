-- ===== src/Client/WebSocket/Echo.antt =====
-- The client against the WebSocket server with its default handlers.
use device_sdk.Base.{
  ℕ, List, [], ◌∷◌, ◌++◌, Option, none, some, ◌≡◌, refl, sym, ◌≢◌, ◌⊎◌, ap, ◌∙◌, inl, inr, Text,
  codes, same, Bool-cases,
}
use device_sdk.Base.Results.{Result, ok, err, ok-injective}
use device_sdk.WsServer.{Incoming, Frame, handle_connection, returned, new}
use device_sdk.WsServer
use device_sdk.WsServer.Handlers.{IsLower}
use device_sdk.WsServer.Replies.{handle_connection-echoes}
use device_sdk.Client.WebSocket.{
  Message, text, binary, close, other, type_or_binary, text_message, message_of, received, Socket,
  send_over, send_ws, rcv_ws,
}

-- A message of the client as the server reads it, and a frame of the server as the client reads it.
abbrev pub arriving : Message → Incoming
arriving (text b) = Incoming.text b
arriving (binary b) = Incoming.binary b
arriving close = Incoming.closing
arriving other = Incoming.other

abbrev pub delivered : Frame → Message
delivered (Frame.binary b) = binary b
delivered Frame.close = close

-- The two ends of a connection to the server: the frames that wait for the client.
abbrev pub answers : WsServer.Run → List Frame
answers (WsServer.returned out) = out
answers (WsServer.panicked out) = out

abbrev pub take : List Frame → Option (Result Message) × List Frame
take [] = (none, [])
take (f ∷ fs) = (some (ok (delivered f)), fs)

abbrev pub link : (Text → Text) → Socket (List Frame)
link lower = record {
  send = λ m waiting.
      (ok tt, waiting ++ answers (handle_connection (new lower).handlers (arriving m ∷ [])));
  next = take;
}

err_ne_ok : {A : Type 0} {e : Text} {a : A} → err e ≢ ok a
err_ne_ok = λ e. cc

module _ (lower : Text → Text) (utf8 : List ℕ → Option Text) (bytes : List ℕ) where
  -- The message that is sent has the bytes.
  abbrev Carries : Message → Type 0
  Carries m = (m ≡ text bytes) ⊎ (m ≡ binary bytes)

  text_message-Carries :
      (e : Option Text) (m : Message) → text_message lower utf8 bytes e ≡ ok m → Carries m
  unfolding text_message
  text_message-Carries none m h = inl (sym (ok-injective h))
  text_message-Carries (some e) m h = cc

  message_of-Carries :
      (t : Option Text) (m : Message) → message_of lower utf8 t bytes ≡ ok m → Carries m
  unfolding message_of
  message_of-Carries t m h = elim (Bool-cases (same (lower (type_or_binary t)) (codes "text"))) [
    | inl e ↦ text_message-Carries (utf8 bytes) m (rw e at h)
    | inr e ↦ elim (Bool-cases (same (lower (type_or_binary t)) (codes "binary"))) [
      | inl f ↦ inr (sym (ok-injective (rw (e, f) at h)))
      | inr f ↦ absurd (err_ne_ok (rw (e, f) at h))
    ]
  ]

  -- The server's answer is one frame with the bytes.
  answers-Carries :
      IsLower lower
      → (m : Message) → Carries m
      → answers (handle_connection (new lower).handlers (arriving m ∷ [])) ≡ Frame.binary bytes ∷ []
  answers-Carries l m c = elim c [
    | inl e ↦ rw e (ap answers (handle_connection-echoes lower l (Incoming.text bytes ∷ [])))
    | inr e ↦ rw e (ap answers (handle_connection-echoes lower l (Incoming.binary bytes ∷ [])))
  ]

  rcv_ws-take :
      (after : Option (List Frame))
      → after ≡ some (Frame.binary bytes ∷ [])
      → (rcv_ws (link lower) lower utf8 after).0 ≡ ok bytes
  unfolding rcv_ws received
  rcv_ws-take after e = rw e refl

  echoed :
      IsLower lower
      → (r : Result Message) → ((m : Message) → r ≡ ok m → Carries m)
      → (after : Option (List Frame)) → send_over (link lower) lower utf8 r [] ≡ (ok tt, after)
      → (rcv_ws (link lower) lower utf8 after).0 ≡ ok bytes
  echoed l (err e) k after h = absurd (err_ne_ok (ap (λ q. q.0) h))
  echoed l (ok m) k after h =
      rcv_ws-take after (ap (λ q. q.1) (sym h) ∙ ap some (answers-Carries l m (k m refl)))

-- Against a server with its default handlers, and with nothing left to read, what `send_ws` has sent,
-- as text or binary, is what the next `rcv_ws` returns, byte by byte.
pub rcv_ws-send_ws :
    (lower : Text → Text) (utf8 : List ℕ → Option Text) (t : Option Text) (bytes : List ℕ)
    (after : Option (List Frame))
    → IsLower lower
    → send_ws (link lower) lower utf8 t bytes (some []) ≡ (ok tt, after)
    → (rcv_ws (link lower) lower utf8 after).0 ≡ ok bytes
unfolding send_ws
rcv_ws-send_ws lower utf8 t bytes after l h =
    echoed lower utf8 bytes l (message_of lower utf8 t bytes)
      (message_of-Carries lower utf8 bytes t) after h
