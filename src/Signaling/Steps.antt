-- ===== src/Signaling/Steps.antt =====
-- Each handler as one step of the server, on each branch: what it answers, writes and sends.
use device_sdk.Base.{
  [], ◌∷◌, ◌++◌, none, some, ◌≡◌, arith, Text, contains, lookup, insert, join, if◌then◌else◌,
}
use device_sdk.Common.Messages.{WebRtcMessage}
use device_sdk.Common.Messages
use device_sdk.Signaling.State.{Session, WebRtcClient, text, World, Env, returned, panicked, reply}
use device_sdk.Signaling.Handlers.{
  comma, except, or_default, or_empty, frames_for, handle_answer, handle_offer, join_session,
  leave_session, list_participants, handle_ice_candidate, handle_ice_candidate_ack,
}

module _ (env : Env) (w : World) where
  module _ (m : WebRtcMessage) where
    module _ (e : lookup m.session_id w.sessions ≡ none) where
      pub handle_offer_unknown : handle_offer env m w ≡ panicked w
      unfolding handle_offer
      handle_offer_unknown = ground arith

      pub handle_answer_unknown : handle_answer env m w ≡ panicked w
      unfolding handle_answer
      handle_answer_unknown = ground arith

      pub handle_ice_candidate_unknown : handle_ice_candidate env m w ≡ panicked w
      unfolding handle_ice_candidate
      handle_ice_candidate_unknown = ground arith

      pub handle_ice_candidate_ack_unknown : handle_ice_candidate_ack env m w ≡ panicked w
      unfolding handle_ice_candidate_ack
      handle_ice_candidate_ack_unknown = ground arith

    module _ (s : Session) (e : lookup m.session_id w.sessions ≡ some s) where
      pub handle_offer_no_sdp : m.sdp ≡ none → handle_offer env m w ≡ panicked w
      unfolding handle_offer
      handle_offer_no_sdp n = ground arith

      abbrev pub offer_message : Text → WebRtcMessage
      offer_message d = reply m.client_id m.session_id Messages.offer none (some d)

      pub handle_offer_step :
          (d : Text)
          → m.sdp ≡ some d
          → handle_offer env m w
            ≡ returned (offer_message d) (record w {
              sessions = insert m.session_id (record s { offer = some d }) w.sessions;
              sent =
                  w.sent
                  ++ frames_for env w.clients (offer_message d) (except m.client_id s.participants);
            })
      unfolding handle_offer
      handle_offer_step d n = ground arith

      pub handle_answer_no_sdp :
          m.sdp ≡ none
          → handle_answer env m w
            ≡ panicked (record w {
              sessions =
                  insert m.session_id (record s { answers = some (or_empty s.answers) }) w.sessions;
            })
      unfolding handle_answer
      handle_answer_no_sdp n = ground arith

      abbrev pub answer_message : WebRtcMessage
      answer_message = reply s.creator_id m.session_id Messages.answer none m.sdp

      pub handle_answer_step :
          (d : Text)
          → m.sdp ≡ some d
          → handle_answer env m w
            ≡ returned (reply m.client_id m.session_id Messages.answer none none) (record w {
              sessions =
                  insert m.session_id
                    (record s { answers = some (insert m.client_id d (or_empty s.answers)) })
                    (insert m.session_id
                      (record s { answers = some (or_empty s.answers) })
                      w.sessions);
              sent = w.sent ++ frames_for env w.clients answer_message (s.creator_id ∷ []);
            })
      unfolding handle_answer
      handle_answer_step d n = ground arith

      pub handle_ice_candidate_step :
          handle_ice_candidate env m w
          ≡ returned (reply m.client_id m.session_id Messages.ice_candidate none none) (record w {
            sent = w.sent ++ frames_for env w.clients m (except m.client_id s.participants);
          })
      unfolding handle_ice_candidate
      handle_ice_candidate_step = ground arith

      pub handle_ice_candidate_ack_gone :
          lookup s.creator_id w.clients ≡ none → handle_ice_candidate_ack env m w ≡ panicked w
      unfolding handle_ice_candidate_ack
      handle_ice_candidate_ack_gone n = ground arith

      pub handle_ice_candidate_ack_step :
          (c : WebRtcClient)
          → lookup s.creator_id w.clients ≡ some c
          → handle_ice_candidate_ack env m w
            ≡ returned
                (reply m.client_id m.session_id Messages.ice_candidate_ack none none)
                (record w {
                  sent =
                      w.sent
                      ++ (
                        c.sender,
                        text (
                            env.encode (
                              reply s.creator_id m.session_id Messages.ice_candidate_ack
                                m.ice_candidates none)),
                      )
                        ∷ [];
                })
      unfolding handle_ice_candidate_ack
      handle_ice_candidate_ack_step c n = ground arith

  module _ (id : Text) where
    module _ (c : Text) (e : lookup id w.sessions ≡ none) where
      pub join_session_unknown : join_session env id c w ≡ panicked w
      unfolding join_session
      join_session_unknown = ground arith

      pub leave_session_unknown : leave_session env id c w ≡ panicked w
      unfolding leave_session
      leave_session_unknown = ground arith

    pub list_participants_unknown :
        lookup id w.sessions ≡ none → list_participants env id w ≡ panicked w
    unfolding list_participants
    list_participants_unknown e = ground arith

    module _ (s : Session) (e : lookup id w.sessions ≡ some s) where
      pub join_session_step :
          (c : Text)
          → join_session env id c w
            ≡ returned
                (reply c id Messages.join_session none (some (or_default s.offer)))
                (record w {
                  sessions =
                      insert id
                        (record s {
                          participants =
                              (if contains c s.participants
                                then except c s.participants
                                else s.participants)
                              ++ c ∷ [];
                        })
                        w.sessions;
                })
      unfolding join_session
      join_session_step c = ground arith

      pub leave_session_step :
          (c : Text)
          → leave_session env id c w
            ≡ returned (reply c id Messages.leave_session none none) (record w {
              sessions = insert id (record s { participants = except c s.participants }) w.sessions;
            })
      unfolding leave_session
      leave_session_step c = ground arith

      pub list_participants_step :
          list_participants env id w
          ≡ returned
              (reply [] id Messages.list_participants (some (join comma s.participants)) none)
              w
      unfolding list_participants
      list_participants_step = ground arith
