-- ===== src/Signaling/Connection.antt =====
-- webrtc_server.rs: `signaling_handler`, which reads one message and answers it, and
-- `handle_connection`, which serves one client until its stream ends.
use device_sdk.Base.{
  ℕ, List, [], ◌∷◌, ◌++◌, Option, none, some, Bool, true, false, Text, same, lookup, insert, delete,
  if◌then◌else◌,
}
use device_sdk.Common.Messages.{WebRtcMessage}
use device_sdk.Common.Messages
use device_sdk.Signaling.State.{
  Frame, text, close, Env, panicked, M, ◌>>=◌, ◌>>◌, pure, unwrap, reply,
}
use device_sdk.Signaling.Handlers.{
  handle_answer, handle_create_session, handle_list_session, handle_offer, close_session,
  join_session, leave_session, list_participants, handle_ice_candidate, handle_ice_candidate_ack,
}

-- The arms of the match on the message type.
pub data Kind : Type 0 where
  creates lists closes joins leaves participants candidates acks offers answers unknown : Kind

unfoldable pub kind_of : Text → Kind
kind_of t =
    if same t Messages.create_session
    then creates
    else if same t Messages.list_sessions
    then lists
    else if same t Messages.close_session
    then closes
    else if same t Messages.join_session
    then joins
    else if same t Messages.leave_session
    then leaves
    else if same t Messages.list_participants
    then participants
    else if same t Messages.ice_candidate
    then candidates
    else if same t Messages.ice_candidate_ack
    then acks
    else if same t Messages.offer
    then offers
    else if same t Messages.answer
    then answers
    else unknown

-- `receiver.next()`: a message with its bytes, a close frame, or an error of the stream.
pub data Incoming : Type 0 where
  message : Text → Incoming
  closing : Incoming
  failed : Incoming

pub data Served : Type 0 where
  ended welcome_failed : Served

module _ (env : Env) where
  abbrev pub answered : M WebRtcMessage → M (Option Text)
  answered m = m >>= λ r. pure (some (env.encode r))

  unfoldable pub dispatch : Text → WebRtcMessage → Kind → M (Option Text)
  dispatch fresh msg creates = answered (handle_create_session env fresh msg)
  dispatch fresh msg lists = answered (handle_list_session env msg)
  dispatch fresh msg closes = answered (close_session env msg.session_id)
  dispatch fresh msg joins = answered (join_session env msg.session_id msg.client_id)
  dispatch fresh msg leaves = answered (leave_session env msg.session_id msg.client_id)
  dispatch fresh msg participants = answered (list_participants env msg.session_id)
  dispatch fresh msg candidates = answered (handle_ice_candidate env msg)
  dispatch fresh msg acks = answered (handle_ice_candidate_ack env msg)
  dispatch fresh msg offers = answered (handle_offer env msg)
  dispatch fresh msg answers = answered (handle_answer env msg)
  dispatch fresh msg unknown = pure none

  -- `fresh` is what `generate_uuid` gives, if it is called.
  unfoldable pub signaling_handler : Text → Text → M (Option Text)
  unfolding dispatch
  signaling_handler fresh input = do
    msg ← unwrap (env.decode input)
    dispatch fresh msg (kind_of msg.message_type)

  unfoldable pub add_client : Text → Text → ℕ → M (Unit {0})
  add_client id addr sink w = pure tt (record w {
    clients = insert id (record { client_id = id; peer_addr = addr; sender = sink }) w.clients;
  })

  -- tokio's `blocking_lock` panics where it is called from asynchronous code; `blocking` says
  -- whether it returns.
  unfoldable pub remove_client : Bool → Text → M (Unit {0})
  remove_client true id w = pure tt (record w { clients = delete id w.clients })
  remove_client false id w = panicked w

  unfoldable pub push : ℕ → Frame → M (Unit {0})
  push sink f w = pure tt (record w { sent = w.sent ++ (sink, f) ∷ [] })

  abbrev pub respond : ℕ → Option Text → M (Unit {0})
  respond sink none = pure tt
  respond sink (some r) = push sink (text r)

  -- The loop over the incoming frames, each with the identifier that it would draw.
  unfoldable pub serve : Bool → Text → ℕ → List (Incoming × Text) → M Served
  unfolding push remove_client signaling_handler
  serve blocking id sink [] = pure ended
  serve blocking id sink ((failed, _) ∷ _) = do push sink close; pure ended
  serve blocking id sink ((closing, _) ∷ _) = do remove_client blocking id; pure ended
  serve blocking id sink ((message input, fresh) ∷ rest) = do
    r ← signaling_handler fresh input
    respond sink r
    serve blocking id sink rest

  abbrev pub welcome_frame : Text → Frame
  welcome_frame id = text (env.encode (reply id [] Messages.welcome none none))

  -- `delivered` says whether the welcome message could be sent.
  unfoldable pub greet : Bool → Text → List (Incoming × Text) → Bool → ℕ → M Served
  unfolding serve push
  greet blocking id incoming false sink = pure welcome_failed
  greet blocking id incoming true sink = do
    push sink (welcome_frame id)
    serve blocking id sink incoming

  unfoldable pub handle_connection : Bool → Bool → Text → List (Incoming × Text) → M Served
  unfolding greet
  handle_connection blocking delivered id incoming = do
    client ← λ w. unwrap (lookup id w.clients) w
    greet blocking id incoming delivered client.sender
