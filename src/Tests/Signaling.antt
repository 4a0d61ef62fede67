-- ===== src/Tests/Signaling.antt =====
-- A server with two clients, `a` and `b`, and a session that `a` has created.
use device_sdk.Base.{
  ℕ, List, [], ◌∷◌, Option, none, some, true, ◌≡◌, ◌≢◌, ◌⊎◌, ◌↔◌, refl, ap, arith, Text, codes,
  same, lookup, keys, Has, if◌then◌else◌,
}
use device_sdk.Common.Messages.{WebRtcMessage}
use device_sdk.Common.Messages
use device_sdk.Signaling.State.{Session, Frame, World, Env, returned, world_of, reply}
use device_sdk.Signaling.Handlers.{
  or_empty, handle_offer, handle_answer, join_session, leave_session,
}
use device_sdk.Signaling.Connection.{
  kind_of, offers, Incoming, message, closing, dispatch, signaling_handler, handle_connection,
}
use device_sdk.Signaling.Validity.{IsValid, signaling_handler-IsValid, handle_connection-IsValid}
use device_sdk.Signaling.Delivery.{Addressed, Relayed, handle_offer-Relayed, handle_answer-kept}
use device_sdk.Signaling.Handlers.{handle_list_session}
use device_sdk.Common.Tokens.{payload_str_to_vector_str}
use device_sdk.Signaling.Listing.{answer_of, handle_list_session-lists}
use device_sdk.Signaling.Membership.{left, with_session, leave_session-join_session}
use device_sdk.Signaling.Isolation.{dispatch-isolated}
use device_sdk.Signaling.Panics.{Needs, Settled, dispatch-Settled}

abbrev a : Text
a = codes "a"

abbrev b : Text
b = codes "b"

abbrev id : Text
id = codes "s"

abbrev request : WebRtcMessage
request = reply b id Messages.offer none (some (codes "sdp"))

abbrev read : Text → Option WebRtcMessage
read [] = none
read (c ∷ cs) = some (reply (c ∷ cs) id Messages.offer none (some (c ∷ cs)))

-- A code in which every text but the empty one stands for an offer from the client of that name.
abbrev env : Env
env = record {
  encode = λ m. m.message_type;
  decode = read;
  decode_list = λ t. none;
  arrange = λ ts. ts;
}

abbrev meeting : Session
meeting = record {
  session_id = id;
  creator_id = a;
  participants = a ∷ b ∷ [];
  offer = none;
  answers = none;
  publisher_ice_candidates = none;
}

abbrev w : World
w = record {
  clients =
      (a, record { client_id = a; peer_addr = []; sender = 1 })
      ∷ (b, record { client_id = b; peer_addr = []; sender = 2 })
      ∷ [];
  sessions = (id, meeting) ∷ [];
  sent = [];
}

head_of : Text → ℕ
head_of [] = 0
head_of (c ∷ cs) = c

a_ne_b : a ≢ b
unfolding head_of
a_ne_b = λ e. omega (arith, ap head_of e)

has_meeting : lookup id w.sessions ≡ some meeting
unfolding lookup same
has_meeting = refl

w-IsValid : IsValid w
unfolding keys
w-IsValid = (
  ((tt, tt), ((refl, ((a_ne_b, tt), (tt, tt)), tt), tt)),
  (((a_ne_b, tt), (tt, tt)), (refl, (refl, tt))),
)

abbrev incoming : List (Incoming × Text)
incoming = (message a, codes "x") ∷ (closing, codes "y") ∷ []

signaling_handler-IsValid_example : IsValid (world_of (signaling_handler env (codes "x") a w))
signaling_handler-IsValid_example = signaling_handler-IsValid env (codes "x") a w w-IsValid

handle_connection-IsValid_example :
    IsValid (world_of (handle_connection env true true a incoming w))
handle_connection-IsValid_example = handle_connection-IsValid env true true a incoming w w-IsValid

abbrev frame : ℕ × Frame
frame = (1, Frame.text Messages.offer)

handle_offer-Relayed_example : Has frame (world_of (handle_offer env request w)).sent ↔ (
    Has frame w.sent
    ⊎ Relayed env w (reply b id Messages.offer none (some (codes "sdp"))) meeting b frame)
handle_offer-Relayed_example =
    handle_offer-Relayed env w request meeting (codes "sdp") frame has_meeting refl

handle_answer-kept_example :
    let w' = world_of (handle_answer env request w) in
    ((f : ℕ × Frame)
      → Has f w'.sent ↔ (
          Has f w.sent
          ⊎ Addressed env w (reply a id Messages.answer none (some (codes "sdp"))) (a ∷ []) f))
    × ((s' : Session) × (lookup id w'.sessions ≡ some s')
        × (s'.participants ≡ meeting.participants)
        × ((j : Text)
            → lookup j (or_empty s'.answers)
              ≡ (if same b j then some (codes "sdp") else lookup j (or_empty meeting.answers))))
handle_answer-kept_example = handle_answer-kept env w request meeting (codes "sdp") has_meeting refl

leave_session-join_session_example :
    leave_session env id b (world_of (join_session env id b w))
    ≡ returned (reply b id Messages.leave_session none none) (with_session w id (left meeting b))
leave_session-join_session_example = leave_session-join_session env w id b meeting has_meeting

abbrev fresh : Text
fresh = 120 ∷ []

abbrev t : Text
t = 116 ∷ []

fresh_ne_id : fresh ≢ id
unfolding head_of
fresh_ne_id = λ e. omega (arith, ap head_of e)

other_ne_id : t ≢ id
unfolding head_of
other_ne_id = λ e. omega (arith, ap head_of e)

abbrev elsewhere : WebRtcMessage
elsewhere = reply b t Messages.close_session none none

dispatch-isolated_example :
    lookup id (world_of (dispatch env fresh elsewhere (kind_of elsewhere.message_type) w)).sessions
    ≡ lookup id w.sessions
dispatch-isolated_example = dispatch-isolated env w fresh id elsewhere fresh_ne_id other_ne_id

dispatch-Settled_example :
    Settled w (Needs w request offers) (dispatch env (codes "x") request offers w)
dispatch-Settled_example = dispatch-Settled env w (codes "x") request offers

handle_list_session-lists_example :
    (r : WebRtcMessage) × (answer_of (handle_list_session env request w) ≡ some r)
    × (payload_str_to_vector_str r.session_id ≡ env.arrange (keys w.sessions))
unfolding keys
handle_list_session-lists_example =
    handle_list_session-lists env w request
      ((((refl, refl, λ e. omega (arith, e)), tt), λ e. cc), tt)
