-- ===== src/Signaling/Listing.antt =====
-- What a client learns of the sessions: their list, and the offer that was made before it joined.
use device_sdk.Base.{
  [], ◌≡◌, ◌≢◌, refl, ap, Text, Option, none, some, All, lookup, keys, delete, lookup-delete_self,
  lookup-insert_self,
}
use device_sdk.Common.Messages.{WebRtcMessage}
use device_sdk.Common.Messages
use device_sdk.Common.Tokens.{IsPlain, payload_str_to_vector_str, payload_str_to_vector_str-join}
use device_sdk.Signaling.State.{Session, World, Env, Run, returned, panicked, world_of, reply}
use device_sdk.Signaling.Handlers.{
  session_ids, handle_list_session, close_session, handle_offer, join_session,
}
use device_sdk.Signaling.Steps.{handle_offer_step}
use device_sdk.Signaling.Membership.{join_session-last}

abbrev pub IsName : Text → Type 0
IsName s = IsPlain s × (s ≢ [])

session_ids-split :
    (env : Env) (w : World)
    → All IsName (env.arrange (keys w.sessions))
    → payload_str_to_vector_str (session_ids env w) ≡ env.arrange (keys w.sessions)
unfolding session_ids
session_ids-split env w h = payload_str_to_vector_str-join (env.arrange (keys w.sessions)) h

-- The message that a run answers with.
abbrev pub answer_of : Run WebRtcMessage → Option WebRtcMessage
answer_of (returned m w) = some m
answer_of (panicked w) = none

-- The answer to a listing, taken apart by `payload_str_to_vector_str`, is the identifiers of all
-- sessions, in the order of the map, if they are not empty and hold no white space, quote, bracket
-- or comma.
pub handle_list_session-lists :
    (env : Env) (w : World) (m : WebRtcMessage)
    → All IsName (env.arrange (keys w.sessions))
    → (r : WebRtcMessage) × (answer_of (handle_list_session env m w) ≡ some r)
      × (payload_str_to_vector_str r.session_id ≡ env.arrange (keys w.sessions))
unfolding handle_list_session
handle_list_session-lists env w m h = (_, refl, session_ids-split env w h)

-- After a session has been closed it is not found, and the answer, taken apart, is the identifiers of
-- those that are left, if these are not empty and hold no white space, quote, bracket or comma.
pub close_session-lists :
    (env : Env) (w : World) (id : Text)
    → All IsName (env.arrange (keys (delete id w.sessions)))
    → (lookup id (world_of (close_session env id w)).sessions ≡ none)
      × (r : WebRtcMessage) × (answer_of (close_session env id w) ≡ some r)
      × (payload_str_to_vector_str r.session_id ≡ env.arrange (keys (delete id w.sessions)))
unfolding close_session
close_session-lists env w id h = (
  lookup-delete_self id w.sessions,
  _,
  refl,
  session_ids-split env (record w { sessions = delete id w.sessions }) h,
)

-- A client that joins a session after an offer was made in it gets the offer's SDP in its answer.
pub join_session-handle_offer :
    (env : Env) (w : World) (m : WebRtcMessage) (s : Session) (d c : Text)
    → lookup m.session_id w.sessions ≡ some s
    → m.sdp ≡ some d
    → answer_of (join_session env m.session_id c (world_of (handle_offer env m w)))
      ≡ some (reply c m.session_id Messages.join_session none (some d))
join_session-handle_offer env w m s d c e n = rw (handle_offer_step env w m s e d n) (
    ap answer_of (
      join_session-last env _ m.session_id c (record s { offer = some d })
        (lookup-insert_self m.session_id (record s { offer = some d }) w.sessions)))
