-- ===== src/RtcClient/Requests.antt =====
-- webrtc_client.rs: the requests to the signalling server, each with its answer, and the socket.
pub mod Waiting
use device_sdk.Base.{List, [], ◌∷◌, ◌++◌, Option, none, some, true, false, Text, codes}
use device_sdk.Common.Messages.{WebRtcMessage}
use device_sdk.Common.Messages
use device_sdk.RtcClient.State.{
  RtcClient, Peer, M, ok, err, ◌>>=◌, ◌>>◌, pure, fail, given, unwrap, ask, modify, message,
  wait_for_message_internal,
}

abbrev pub no_socket : Text
no_socket = codes "WebSocket write stream not initialized"

module _ (peer : Peer) where
  -- A message written to the socket, if it is open and the write does not fail.
  unfoldable pub transmit : WebRtcMessage → M (Unit {0})
  transmit m c = elim c.writable [
    | false ↦ err no_socket c
    | true ↦ elim (peer.socket_error m) [
      | some e ↦ err e c
      | none ↦ ok tt (record c { sent = c.sent ++ (m ∷ []) })
    ]
  ]

  -- The same, where the error of the write is ignored.
  unfoldable pub transmit_anyway : WebRtcMessage → M (Unit {0})
  transmit_anyway m c = elim c.writable [
    | false ↦ err no_socket c
    | true ↦ elim (peer.socket_error m) [
      | some e ↦ ok tt c
      | none ↦ ok tt (record c { sent = c.sent ++ (m ∷ []) })
    ]
  ]

  -- The task that reads the socket is what fills `incoming_rx`; `arriving` is what it will have put
  -- there.
  unfoldable pub connect : Text → List WebRtcMessage → M (Unit {0})
  connect addr arriving c = elim (peer.connect_async addr) [
    | some e ↦ err e c
    | none ↦ ok tt (record c { writable = true; incoming_rx = some arriving })
  ]

  unfoldable pub connect_to_signaling_server : Text → List WebRtcMessage → M (Unit {0})
  unfolding connect
  connect_to_signaling_server addr arriving = do
    connect addr arriving
    m ← wait_for_message_internal Messages.welcome
    pure tt

  unfoldable pub create_session : M Text
  unfolding transmit
  create_session = do
    id ← ask (λ c. c.client_id)
    client ← given (codes "client_id not set") id
    transmit (message client [] Messages.create_session none none)
    response ← wait_for_message_internal Messages.create_session
    modify (λ c. record c { session_id = some response.session_id })
    pure response.session_id

  unfoldable pub list_sessions : M WebRtcMessage
  unfolding transmit
  list_sessions = do
    id ← ask (λ c. c.client_id)
    client ← given (codes "client_id not set") id
    transmit (message client [] Messages.list_sessions none none)
    wait_for_message_internal Messages.list_sessions

  unfoldable pub close_session : Text → M (Unit {0})
  unfolding transmit
  close_session session = do
    id ← ask (λ c. c.client_id)
    client ← given (codes "[close_session]Client ID is not set") id
    transmit (message client session Messages.close_session none none)
    m ← wait_for_message_internal Messages.close_session
    pure tt

  unfoldable pub leave_session : Text → M (Unit {0})
  unfolding transmit
  leave_session session = do
    id ← ask (λ c. c.client_id)
    client ← given (codes "Client ID is not set") id
    transmit (message client session Messages.leave_session none none)
    m ← wait_for_message_internal Messages.leave_session
    pure tt

  unfoldable pub list_participants : Text → M WebRtcMessage
  unfolding transmit
  list_participants session = do
    transmit (message [] session Messages.list_participants none none)
    wait_for_message_internal Messages.list_participants

  -- The frame that closes the socket, and the end of the reading task.
  unfoldable pub close_connection : Option Text → M (Unit {0})
  close_connection refused c = elim c.writable [
    | false ↦ err no_socket c
    | true ↦ elim refused [ some e ↦ err e c | none ↦ ok tt c ]
  ]
