-- ===== src/Signaling/Handlers.antt =====
-- webrtc_server.rs: one function for each signalling message, in the order of the file, and the
-- router that calls them.
use device_sdk.Base.{
  ℕ, List, [], ◌∷◌, ◌++◌, Option, none, some, not, Text, same, contains, retain, Dict, lookup,
  insert, delete, keys, join, if◌then◌else◌,
}
use device_sdk.Common.Messages.{WebRtcMessage}
use device_sdk.Common.Messages
use device_sdk.Signaling.State.{
  WebRtcClient, Frame, text, World, Env, M, ◌>>=◌, ◌>>◌, pure, unwrap, get_session, put_session,
  reply,
}

abbrev pub comma : ℕ
comma = b','

abbrev pub except : Text → List Text → List Text
except id = retain (λ x. not (same x id))

abbrev pub or_default : Option Text → Text
or_default none = []
or_default (some s) = s

abbrev pub or_empty : {A : Type 0} → Option (List A) → List A
or_empty none = []
or_empty (some l) = l

module _ (env : Env) where
  -- The frames of a broadcast: one for each listed client that is connected, in the list's order.
  unfoldable pub frames_for : Dict WebRtcClient → WebRtcMessage → List Text → List (ℕ × Frame)
  frames_for clients m [] = []
  frames_for clients m (id ∷ ids) = elim (lookup id clients) [
    | none ↦ frames_for clients m ids
    | some c ↦ (c.sender, text (env.encode m)) ∷ frames_for clients m ids
  ]

  unfoldable pub broadcast_message : List Text → WebRtcMessage → M (Unit {0})
  broadcast_message ids m w = pure tt (record w { sent = w.sent ++ frames_for w.clients m ids })

  unfoldable pub send_to : ℕ → WebRtcMessage → M (Unit {0})
  send_to sink m w = pure tt (record w { sent = w.sent ++ (sink, text (env.encode m)) ∷ [] })

  unfoldable pub handle_answer : WebRtcMessage → M WebRtcMessage
  unfolding broadcast_message
  handle_answer request = do
    session ← get_session request.session_id
    let answers = or_empty session.answers
    put_session request.session_id (record session { answers = some answers })
    sdp ← unwrap request.sdp
    put_session request.session_id
        (record session { answers = some (insert request.client_id sdp answers) })
    broadcast_message (session.creator_id ∷ [])
        (reply session.creator_id request.session_id Messages.answer none request.sdp)
    pure (reply request.client_id request.session_id Messages.answer none none)

  -- `id` is the new `generate_uuid()`.
  unfoldable pub handle_create_session : Text → WebRtcMessage → M WebRtcMessage
  handle_create_session id request = do
    put_session id (record {
      session_id = id;
      creator_id = request.client_id;
      participants = request.client_id ∷ [];
      offer = none;
      answers = none;
      publisher_ice_candidates = none;
    })
    pure (reply request.client_id id Messages.create_session none none)

  unfoldable pub session_ids : World → Text
  session_ids w = join comma (env.arrange (keys w.sessions))

  unfoldable pub handle_list_session : WebRtcMessage → M WebRtcMessage
  unfolding session_ids
  handle_list_session request w =
      pure (reply request.client_id (session_ids w) Messages.list_sessions none none) w

  unfoldable pub handle_offer : WebRtcMessage → M WebRtcMessage
  unfolding broadcast_message
  handle_offer request = do
    session ← get_session request.session_id
    sdp ← unwrap request.sdp
    put_session request.session_id (record session { offer = some sdp })
    let m = reply request.client_id request.session_id Messages.offer none (some sdp)
    broadcast_message (except request.client_id session.participants) m
    pure m

  unfoldable pub close_session : Text → M WebRtcMessage
  unfolding session_ids
  close_session id w =
      let w' : World = record w { sessions = delete id w.sessions } in
      pure (reply [] (session_ids w') Messages.close_session none none) w'

  unfoldable pub join_session : Text → Text → M WebRtcMessage
  join_session id client = do
    session ← get_session id
    let others =
        if contains client session.participants
        then except client session.participants
        else session.participants
    put_session id (record session { participants = others ++ client ∷ [] })
    pure (reply client id Messages.join_session none (some (or_default session.offer)))

  unfoldable pub leave_session : Text → Text → M WebRtcMessage
  leave_session id client = do
    session ← get_session id
    put_session id (record session { participants = except client session.participants })
    pure (reply client id Messages.leave_session none none)

  unfoldable pub list_participants : Text → M WebRtcMessage
  list_participants id = do
    session ← get_session id
    pure (reply [] id Messages.list_participants (some (join comma session.participants)) none)

  -- The session is a clone: the candidates written into it go nowhere.
  unfoldable pub handle_ice_candidate : WebRtcMessage → M WebRtcMessage
  unfolding broadcast_message
  handle_ice_candidate message = do
    original ← get_session message.session_id
    let candidates = or_empty (env.decode_list (or_default message.ice_candidates))
    let session = record original { publisher_ice_candidates = some candidates }
    broadcast_message (except message.client_id session.participants) message
    pure (reply message.client_id message.session_id Messages.ice_candidate none none)

  unfoldable pub handle_ice_candidate_ack : WebRtcMessage → M WebRtcMessage
  unfolding send_to
  handle_ice_candidate_ack message = do
    session ← get_session message.session_id
    publisher ← λ w. unwrap (lookup session.creator_id w.clients) w
    let m =
        reply session.creator_id message.session_id Messages.ice_candidate_ack
          message.ice_candidates none
    send_to publisher.sender m
    pure (reply message.client_id message.session_id Messages.ice_candidate_ack none none)
