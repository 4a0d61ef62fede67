-- ===== src/RtcClient/State.antt =====
-- webrtc_client.rs: the state of `WebRTCClient`, its effects, and what it takes from webrtc-rs.
use device_sdk.Base.{
  ℕ, List, [], ◌∷◌, ◌++◌, Option, none, some, Bool, false, Text, codes, same, if◌then◌else◌, ◌≡◌,
  ap,
}
use device_sdk.Base.Results.{Result}
use device_sdk.Base.Results
use device_sdk.Common.Messages.{WebRtcMessage}
use device_sdk.Common.Messages

-- `writable` says whether the socket is open. `incoming_rx` is the channel with what will have
-- arrived in it before a wait times out, `pc` and `data_channel` are named by numbers, and `sent` is
-- what has been written to the socket. `api` and `rtc_config` are set together, as are the tracks.
pub record RtcClient : Type 0 where
  pub client_id : Option Text
  pub writable : Bool
  pub incoming_rx : Option (List WebRtcMessage)
  pub session_id : Option Text
  pub pc : Option ℕ
  pub api : Bool
  pub offer : Option Text
  pub answer : Option Text
  pub tracks : Bool
  pub ice_candidates : Option (List Text)
  pub data_channel : Option ℕ
  pub sent : List WebRtcMessage

unfoldable pub new : RtcClient
new = record {
  client_id = none;
  writable = false;
  incoming_rx = none;
  session_id = none;
  pc = none;
  api = false;
  offer = none;
  answer = none;
  tracks = false;
  ice_candidates = none;
  data_channel = none;
  sent = [];
}

pub data IceState : Type 0 where
  connected failed disconnected closed checking : IceState

-- webrtc-rs, serde and the socket: what each call gives. `gathered` is the candidates that come before
-- the gathering ends or times out, which `gathering_ends` tells apart, and `socket_error` the error of a send, if it fails.
pub record Peer : Type 0 where
  pub connect_async : Text → Option Text
  pub socket_error : WebRtcMessage → Option Text
  pub setup : Result (Unit {0})
  pub new_peer_connection : RtcClient → Result ℕ
  pub add_tracks : ℕ → Result (Unit {0})
  pub create_data_channel : ℕ → Result ℕ
  pub create_offer : ℕ → Result Text
  pub create_answer : ℕ → Result Text
  pub set_local_description : ℕ → Text → Result (Unit {0})
  pub set_remote_description : ℕ → Text → Result (Unit {0})
  pub has_remote_description : ℕ → Bool
  pub parse_offer : Text → Result Text
  pub parse_answer : Text → Result Text
  pub gathered : ℕ → List Text
  pub gathering_ends : ℕ → Bool
  pub add_ice_candidate : ℕ → Text → Result (Unit {0})
  pub encode_candidates : List Text → Text
  pub decode_candidates : Text → Result (List Text)
  pub ice_states : ℕ → List IceState

pub data Run (A : Type 0) : Type 0 where
  ok : A → RtcClient → Run A
  err : Text → RtcClient → Run A
  panicked : RtcClient → Run A

abbrev pub M : Type 0 → Type 0
M A = RtcClient → Run A

abbrev pub pure : {A : Type 0} → A → M A
pure a c = ok a c

abbrev pub fail : {A : Type 0} → Text → M A
fail e c = err e c

infixl 5 ◌>>=◌
abbrev pub ◌>>=◌ : {A B : Type 0} → M A → (A → M B) → M B
◌>>=◌ first next c = elim (first c) [
  | ok a c' ↦ next a c'
  | err e c' ↦ err e c'
  | panicked c' ↦ panicked c'
]

pub bind_ok :
    {A B : Type 0} (first : M A) (next : A → M B) {a : A} {c c' : RtcClient}
    → first c ≡ ok a c'
    → (first >>= next) c ≡ next a c'
bind_ok first next {a} {c} {c'} e =
    ap (λ r. elim r [ ok b d ↦ next b d | err t d ↦ err t d | panicked d ↦ panicked d ]) e

infixl 5 ◌>>◌
abbrev pub ◌>>◌ : {B : Type 0} → (first : M (Unit {0})) (second : M B) → M B
first >> second = first >>= (λ done. second)

-- A result of a library, and `ok_or` and `unwrap` of an option.
abbrev pub lift : {A : Type 0} → Result A → M A
lift (Results.ok a) c = ok a c
lift (Results.err e) c = err e c

abbrev pub given : {A : Type 0} → Text → Option A → M A
given e none c = err e c
given e (some a) c = ok a c

abbrev pub unwrap : {A : Type 0} → Option A → M A
unwrap none c = panicked c
unwrap (some a) c = ok a c

abbrev pub ask : {A : Type 0} → (RtcClient → A) → M A
ask f c = ok (f c) c

abbrev pub modify : (RtcClient → RtcClient) → M (Unit {0})
modify f c = ok tt (f c)

-- The state that a run leaves, whatever its result.
abbrev pub client_of : {A : Type 0} → Run A → RtcClient
client_of (ok a c) = c
client_of (err e c) = c
client_of (panicked c) = c

-- `receive_message`: a welcome and a new session are noted.
unfoldable pub note : WebRtcMessage → RtcClient → RtcClient
note m c =
    if same m.message_type Messages.welcome
    then record c { client_id = some m.client_id }
    else if same m.message_type Messages.create_session
    then record c { session_id = some m.session_id }
    else c

-- `wait_for_message_internal` over what is read before the time-out, to which the sleep of 100 ms after a
-- message of another type counts: every message is received, and those of another type are dropped.
unfoldable pub await : Text → List WebRtcMessage → M WebRtcMessage
unfolding note
await t [] c = err (codes "Timeout waiting for " ++ t) c
await t (m ∷ ms) c =
    let c' = note m (record c { incoming_rx = some ms }) in
    let rest = await t ms c' in if same m.message_type t then ok m c' else rest

abbrev pub arrived : Option (List WebRtcMessage) → List WebRtcMessage
arrived none = []
arrived (some ms) = ms

unfoldable pub wait_for_message_internal : Text → M WebRtcMessage
unfolding await
wait_for_message_internal t c = await t (arrived c.incoming_rx) c

abbrev pub message : Text → Text → Text → Option Text → Option Text → WebRtcMessage
message client session type candidates sdp = record {
  client_id = client;
  session_id = session;
  message_type = type;
  ice_candidates = candidates;
  sdp = sdp;
  error = none;
}
