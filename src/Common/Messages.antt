-- ===== src/Common/Messages.antt =====
-- crates/xrds-net/src/common/data_structure.rs: what the client and the servers exchange.
use device_sdk.Base.{ℕ, List, Option, Text, codes}
use device_sdk.Common.Enums.{Protocols, FtpCommands}

abbrev pub create_session : Text
create_session = codes "create_session"

abbrev pub list_sessions : Text
list_sessions = codes "list_sessions"

abbrev pub join_session : Text
join_session = codes "join_session"

abbrev pub leave_session : Text
leave_session = codes "leave_session"

abbrev pub close_session : Text
close_session = codes "close_session"

abbrev pub list_participants : Text
list_participants = codes "list_participants"

abbrev pub offer : Text
offer = codes "offer"

abbrev pub answer : Text
answer = codes "answer"

abbrev pub welcome : Text
welcome = codes "welcome"

abbrev pub ice_candidate : Text
ice_candidate = codes "ice_candidate"

abbrev pub ice_candidate_ack : Text
ice_candidate_ack = codes "ice_candidate_ack"

pub record NetResponse : Type 0 where
  pub protocol : Protocols
  pub status_code : ℕ
  pub headers : List (Text × Text)
  pub body : List ℕ
  pub error : Option Text

pub record FtpPayload : Type 0 where
  pub command : FtpCommands
  pub payload_name : Text
  pub payload : Option (List ℕ)

pub record FtpResponse : Type 0 where
  pub payload : Option (List ℕ)
  pub error : Option Text

pub record XrUrl : Type 0 where
  pub scheme : Text
  pub host : Text
  pub port : ℕ
  pub path : Text
  pub raw_url : Text
  pub query : Option Text
  pub username : Option Text
  pub password : Option Text

pub record WebRtcMessage : Type 0 where
  pub client_id : Text
  pub session_id : Text
  pub message_type : Text
  pub ice_candidates : Option Text
  pub sdp : Option Text
  pub error : Option Text
