-- ===== src/Tests/RtcClient.antt =====
-- A publisher `a` and a subscriber `b` of the session `s`.
use device_sdk.Base.{
  ℕ, [], ◌∷◌, ◌++◌, Option, none, some, true, ◌≡◌, ◌≢◌, refl, ap, arith, Text, codes, to_text, same,
  lookup, insert, contains, sym,
}
use device_sdk.Base.Results
use device_sdk.Common.Messages.{WebRtcMessage}
use device_sdk.Common.Messages
use device_sdk.Signaling.State.{Session, World, Env, returned, reply}
use device_sdk.Signaling.Handlers
use device_sdk.RtcClient.State.{RtcClient, Peer, new, message, ◌>>=◌, ok, err}
use device_sdk.RtcClient.State
use device_sdk.RtcClient.Requests.{create_session}
use device_sdk.RtcClient.Requests.Waiting.{
  IsOther, IsPlain, online, create_session-handle_create_session,
}
use device_sdk.RtcClient.Negotiation.{join_session, publish, wait_for_subscriber}
use device_sdk.RtcClient.Negotiation.Answering.{Answers}
use device_sdk.RtcClient.Negotiation.Roles.{join_session-no_offer}
use device_sdk.RtcClient.Negotiation.Publishing.{Offers, publish-wait_for_subscriber}

abbrev a : Text
a = codes "a"

abbrev b : Text
b = codes "b"

abbrev s : Text
s = codes "s"

abbrev pub peer : Peer
peer = record {
  connect_async = λ addr. none;
  socket_error = λ m. none;
  setup = Results.ok tt;
  new_peer_connection = λ c. Results.ok 7;
  add_tracks = λ pc. Results.ok tt;
  create_data_channel = λ pc. Results.ok 8;
  create_offer = λ pc. Results.ok (codes "offered");
  create_answer = λ pc. Results.ok (codes "answered");
  set_local_description = λ pc sdp. Results.ok tt;
  set_remote_description = λ pc sdp. Results.ok tt;
  has_remote_description = λ pc. true;
  parse_offer = λ t. Results.ok t;
  parse_answer = λ t. Results.ok t;
  gathered = λ pc. codes "here" ∷ [];
  gathering_ends = λ pc. true;
  add_ice_candidate = λ pc x. Results.ok tt;
  encode_candidates = λ xs. [];
  decode_candidates = λ t. Results.ok [];
  ice_states = λ pc. State.connected ∷ [];
}

abbrev env : Env
env = record {
  encode = λ m. m.message_type;
  decode = λ t. none;
  decode_list = λ t. none;
  arrange = λ ts. ts;
}

abbrev session : Option Text → Session
session offer = record {
  session_id = s;
  creator_id = a;
  participants = a ∷ [];
  offer = offer;
  answers = none;
  publisher_ice_candidates = none;
}

abbrev world : Option Text → World
world offer = record { clients = []; sessions = (s, session offer) ∷ []; sent = [] }

abbrev joined : Option Text → World
joined offer = record {
  clients = [];
  sessions = (s, record (session offer) { participants = a ∷ b ∷ [] }) ∷ [];
  sent = [];
}

-- The list of sessions, which comes before what is waited for.
abbrev noise : WebRtcMessage
noise = reply b s Messages.list_sessions none none

abbrev first : Text → ℕ
first [] = 0
first (c ∷ cs) = c

noise-IsPlain : IsPlain noise
noise-IsPlain = (λ e. omega (arith, ap first e), λ e. omega (arith, ap first e))

abbrev created : WebRtcMessage
created = reply a (codes "t") Messages.create_session none none

abbrev no_session : World
no_session = record { clients = []; sessions = []; sent = [] }

abbrev new_session : Session
new_session = record {
  session_id = codes "t";
  creator_id = a;
  participants = a ∷ [];
  offer = none;
  answers = none;
  publisher_ice_candidates = none;
}

abbrev one_session : World
one_session = record { clients = []; sessions = (codes "t", new_session) ∷ []; sent = [] }

creates :
    Handlers.handle_create_session env
      (codes "t")
      (message a [] Messages.create_session none none)
      no_session
    ≡ returned created one_session
unfolding Handlers.handle_create_session insert
creates = refl

noise_before : (t : Text) → first t ≢ b'l' → IsOther t noise
noise_before t n e = n (sym (ap first e))

create_session-handle_create_session_example :
    (create_session peer (online a (noise ∷ created ∷ []) new)
      ≡ ok (codes "t") (record (online a [] new) {
        session_id = some (codes "t");
        sent = message a [] Messages.create_session none none ∷ [];
      }))
    × ((x : Session) × (lookup (codes "t") one_session.sessions ≡ some x)
        × (x.creator_id ≡ a)
        × (x.participants ≡ a ∷ []))
unfolding new
create_session-handle_create_session_example =
    create_session-handle_create_session peer env no_session one_session new a (codes "t")
      (noise ∷ []) [] created (λ m. refl)
      ((noise_before Messages.create_session (λ e. omega (arith, e)), noise-IsPlain), tt) creates

joins_empty :
    Handlers.join_session env s b (world none)
    ≡ returned (reply b s Messages.join_session none (some [])) (joined none)
unfolding Handlers.join_session insert lookup same contains
joins_empty = refl

join_session-no_offer_example :
    join_session peer s (online b (noise ∷ reply b s Messages.join_session none (some []) ∷ []) new)
    ≡ err (codes "SDP offer is empty") (record (online b [] new) {
      session_id = some s;
      sent = message b s Messages.join_session none none ∷ [];
    })
unfolding lookup same new
join_session-no_offer_example =
    join_session-no_offer peer env b s new (noise ∷ []) [] (world none) (joined none) (session none)
      (reply b s Messages.join_session none (some [])) (λ m. refl)
      ((noise_before Messages.join_session (λ e. omega (arith, e)), noise-IsPlain), tt) refl refl
      joins_empty

abbrev sdp : Text
sdp = codes "o"

abbrev offers : WebRtcMessage
offers = reply b s Messages.join_session none (some sdp)

abbrev confirmed : WebRtcMessage
confirmed = reply b s Messages.answer none none

answers : Answers peer sdp sdp (codes "answered")
answers = record {
  number = λ c. 7;
  parses = refl;
  sets_up = refl;
  connects = λ c. refl;
  takes = λ pc. refl;
  creates = λ pc. refl;
  keeps = λ pc. refl;
}

peer-Offers : Offers peer (codes "offered") (codes "here") []
peer-Offers = record {
  number = λ c. 7;
  channel = λ pc. 8;
  sets_up = refl;
  connects = λ c. refl;
  streams = λ pc. refl;
  opens = λ pc. refl;
  creates = λ pc. refl;
  keeps = λ pc. refl;
  gathers = λ pc. refl;
}

abbrev early : WebRtcMessage
early = reply a s Messages.answer none (some (codes "answered"))

-- The answer comes before the confirmation of the offer.
publish-wait_for_subscriber_example :
    (d : RtcClient) × ((publish peer s >>= (λ m. wait_for_subscriber peer 30)) (
        online a
          (early ∷ message a s Messages.offer none (some (codes "offered")) ∷ noise ∷ [])
          new)
      ≡ err (codes "Timeout: No subscriber joined within " ++ (to_text 30 ++ codes " seconds")) d)
publish-wait_for_subscriber_example =
    publish-wait_for_subscriber peer a s (codes "offered") (codes "here") [] new peer-Offers
      (early ∷ []) (noise ∷ []) 30 (λ m. refl)
      (
        (
          λ e. omega (arith, ap first e),
          (λ e. omega (arith, ap first e), λ e. omega (arith, ap first e)),
        ),
        tt,
      )
      (noise_before Messages.answer (λ e. omega (arith, e)), tt)
