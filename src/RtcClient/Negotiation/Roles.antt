-- ===== src/RtcClient/Negotiation/Roles.antt =====
-- The subscriber's `join_session` against the server's, and the publisher's wait for an answer.
use device_sdk.Base.{
  List, [], ◌∷◌, ◌++◌, none, some, ◌≡◌, refl, sym, subst, ap, ◌∙◌, Text, codes, same, All, lookup,
}
use device_sdk.Common.Messages.{WebRtcMessage}
use device_sdk.Common.Messages
use device_sdk.Signaling.State.{Session, World, Env, returned, reply}
use device_sdk.Signaling.Handlers
use device_sdk.Signaling.Steps.{join_session_step}
use device_sdk.RtcClient.State.{
  RtcClient, Peer, err, note, message, wait_for_message_internal, given, pure, ◌>>=◌, ◌>>◌,
}
use device_sdk.RtcClient.Requests.Waiting.{
  IsOther, IsPlain, Sends, online, request_finds, returned_value,
}
use device_sdk.RtcClient.Negotiation.{or_empty_offer, handle_offer, join_session}
use device_sdk.RtcClient.Negotiation.Answering.{Answers, in_session, answering}

server_reply :
    (env : Env) (session id : Text) (w w' : World) (known : Session) (r : WebRtcMessage)
    → lookup session w.sessions ≡ some known
    → Handlers.join_session env session id w ≡ returned r w'
    → reply id session Messages.join_session none (some (Handlers.or_default known.offer)) ≡ r
server_reply env session id w w' known r e h =
    returned_value (sym (join_session_step env w session known e id) ∙ h)

module _ (peer : Peer) (id session sdp : Text) (c : RtcClient)
    (before rest : List WebRtcMessage) where
  abbrev pub join : WebRtcMessage
  join = message id session Messages.join_session none none

  abbrev pub joined : RtcClient
  joined = in_session peer id session sdp [] [] (record c { sent = c.sent ++ (join ∷ []) }) rest

  join_session_offered :
      Sends peer
      → All (λ x. IsOther Messages.join_session x × IsPlain x) before
      → join_session peer session
          (online id (before ++ (reply id session Messages.join_session none (some sdp) ∷ rest)) c)
        ≡ (or_empty_offer peer sdp
              >> (handle_offer peer sdp
                  >> (wait_for_message_internal Messages.answer >>= (λ m. pure tt))))
            joined
  unfolding join_session note same
  join_session_offered s h =
      request_finds peer id join Messages.join_session
        (λ result. given (codes "No SDP offer received from publisher") result.sdp >>= (λ sdp.
          or_empty_offer peer sdp
          >> (handle_offer peer sdp
              >> (wait_for_message_internal Messages.answer >>= (λ m. pure tt)))))
        before (reply id session Messages.join_session none (some sdp)) rest
        (record c { session_id = some session }) s h refl

-- A subscriber cannot join a session that has no offer yet: the server, which knows the session,
-- answers with an empty offer, and `join_session` of a client that is online, and whose writes do not
-- fail, reports the error "SDP offer is empty" and has sent its request alone. No welcome and no new
-- session comes before the server's answer, and no other answer of its type.
pub join_session-no_offer :
    (peer : Peer) (env : Env) (id session : Text) (c : RtcClient)
    (before after : List WebRtcMessage) (w w' : World) (known : Session) (r : WebRtcMessage)
    → Sends peer
    → All (λ x. IsOther Messages.join_session x × IsPlain x) before
    → lookup session w.sessions ≡ some known
    → known.offer ≡ none
    → Handlers.join_session env session id w ≡ returned r w'
    → join_session peer session (online id (before ++ (r ∷ after)) c)
      ≡ err (codes "SDP offer is empty") (record (online id after c) {
        session_id = some session;
        sent = c.sent ++ (message id session Messages.join_session none none ∷ []);
      })
join_session-no_offer peer env id session c before after w w' known r s h e n g =
    subst
      (λ x.
        join_session peer session (online id (before ++ (x ∷ after)) c)
        ≡ err (codes "SDP offer is empty") (joined peer id session [] c before after))
      (ap (λ o. reply id session Messages.join_session none (some (Handlers.or_default o))) (sym n)
        ∙ server_reply env session id w w' known r e g)
      (join_session_offered peer id session [] c before after s h)

module _ (peer : Peer) (id session sdp offer answer : Text) (c : RtcClient)
    (before between after : List WebRtcMessage) (confirmation : WebRtcMessage)
    (a : Answers peer sdp offer answer) where
  abbrev pub asked : RtcClient
  asked = record c { sent = c.sent ++ (message id session Messages.join_session none none ∷ []) }

  abbrev pub served : RtcClient
  served =
      record (answering peer id session sdp offer answer asked (between ++ (confirmation ∷ after))
        a) {
          sent =
              (c.sent ++ (message id session Messages.join_session none none ∷ []))
              ++ (message id session Messages.answer none (some answer) ∷ []);
        }

  abbrev pub finished : RtcClient
  finished = record served { incoming_rx = some after }
