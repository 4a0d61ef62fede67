-- ===== src/Signaling/State.antt =====
-- webrtc_server.rs: the server's maps, and the effects of a handler. A handler that panics ends its
-- task; what it wrote before that stays, since the maps' locks are released and not poisoned.
use device_sdk.Base.{ℕ, List, [], Option, none, some, Text, Dict, lookup, insert}
use device_sdk.Common.Messages.{WebRtcMessage}

pub record Session : Type 0 where
  pub session_id : Text
  pub creator_id : Text
  pub participants : List Text
  pub offer : Option Text
  pub answers : Option (Dict Text)
  pub publisher_ice_candidates : Option (List Text)

-- `sender` names the sink of the client's stream.
pub record WebRtcClient : Type 0 where
  pub client_id : Text
  pub peer_addr : Text
  pub sender : ℕ

pub data Frame : Type 0 where
  text : Text → Frame
  close : Frame

-- The maps of `WebRTCServer`, and the frames handed to the sinks so far.
pub record World : Type 0 where
  pub clients : Dict WebRtcClient
  pub sessions : Dict Session
  pub sent : List (ℕ × Frame)

-- `WebRTCServer::new`, before any frame.
pub new : World
new = record { clients = []; sessions = []; sent = [] }

-- What the server takes from elsewhere: serde's JSON of a message and of a list of texts, and the
-- order in which a `HashMap` gives its keys.
pub record Env : Type 0 where
  pub encode : WebRtcMessage → Text
  pub decode : Text → Option WebRtcMessage
  pub decode_list : Text → Option (List Text)
  pub arrange : List Text → List Text

pub data Run (A : Type 0) : Type 0 where
  returned : A → World → Run A
  panicked : World → Run A

abbrev pub M : Type 0 → Type 0
M A = World → Run A

infixl 5 ◌>>=◌ ◌>>◌
abbrev pub ◌>>=◌ : {A B : Type 0} → M A → (A → M B) → M B
◌>>=◌ m f w = elim (m w) [ returned a w' ↦ f a w' | panicked w' ↦ panicked w' ]

abbrev pub ◌>>◌ : {B : Type 0} → M (Unit {0}) → M B → M B
m >> k = m >>= λ _. k

abbrev pub pure : {A : Type 0} → A → M A
pure a w = returned a w

-- `Option::unwrap`.
abbrev pub unwrap : {A : Type 0} → Option A → M A
unwrap none w = panicked w
unwrap (some a) w = returned a w

-- `sessions.get_mut(id).unwrap()`, and what is written through the reference.
abbrev pub get_session : Text → M Session
get_session id w = unwrap (lookup id w.sessions) w

abbrev pub put_session : Text → Session → M (Unit {0})
put_session id s w = returned tt (record w { sessions = insert id s w.sessions })

-- The world in which a handler leaves the server, also by a panic.
abbrev pub world_of : {A : Type 0} → Run A → World
world_of (returned a w) = w
world_of (panicked w) = w

abbrev pub empty_text : Text
empty_text = []

abbrev pub reply : Text → Text → Text → Option Text → Option Text → WebRtcMessage
reply client session type candidates sdp = record {
  client_id = client;
  session_id = session;
  message_type = type;
  ice_candidates = candidates;
  sdp = sdp;
  error = none;
}
