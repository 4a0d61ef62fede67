-- ===== src/Client/Transport.antt =====
-- crates/xrds-net/src/client/client.rs: `send`, `rcv` and `close` of a connected client, by protocol. The
-- connections are parameters, and a panic is `none`.
use device_sdk.Base.{ℕ, List, ◌++◌, Option, none, some, Bool, Text, codes, if◌then◌else◌}
use device_sdk.Base.Results.{Result, ok, err}
use device_sdk.Common.Enums.{
  Protocols, http, https, file, coap, mqtt, ftp, sftp, ws, wss, webrtc, http3, quic,
}

-- The three kinds of connection of a client. `X` is the state that they share.
pub record Connections (X : Type 0) : Type 0 where
  pub ws_send : Option Text → List ℕ → X → Result (Unit {0}) × X
  pub ws_rcv : X → Result (List ℕ) × X
  pub ws_close : X → Result (Unit {0}) × X
  pub mqtt_publish : Text → List ℕ → X → Result (Unit {0}) × X
  pub mqtt_rcv : X → Result (List ℕ) × X
  pub mqtt_disconnect : X → Result (Unit {0}) × X
  pub quic_send : List ℕ → X → Result (Unit {0}) × X
  pub quic_rcv : X → Result (List ℕ) × X

-- Which connections the client has.
pub record Handles : Type 0 where
  pub ws_client : Bool
  pub mqtt : Bool

abbrev pub missing_mqtt : Text
missing_mqtt = codes "MQTT state is not initialized."

module _ {X : Type 0} (links : Connections X) where
  -- The result of an operation, or a panic, and the state.
  abbrev pub Called : Type 0 → Type 0
  Called A = Option (Result A) × X

  abbrev pub called : {A : Type 0} → Result A × X → Called A
  called (r, x) = (some r, x)

  -- `self.ws_client.as_ref().unwrap()`.
  abbrev pub over_ws : {A : Type 0} → Handles → (X → Result A × X) → X → Called A
  over_ws c operation x = if c.ws_client then called (operation x) else (none, x)

  unfoldable pub send_ws : Handles → Option Text → List ℕ → X → Called (Unit {0})
  send_ws c msg_type message = over_ws c (links.ws_send msg_type message)

  unfoldable pub rcv_ws : Handles → X → Called (List ℕ)
  rcv_ws c = over_ws c links.ws_rcv

  unfoldable pub close_ws : Handles → X → Called (Unit {0})
  close_ws c = over_ws c links.ws_close

  abbrev pub over_mqtt : {A : Type 0} → Handles → (X → Result A × X) → X → Called A
  over_mqtt c operation x = if c.mqtt then called (operation x) else (some (err missing_mqtt), x)

  abbrev pub prefixed : {A : Type 0} → Text → Result A × X → Result A × X
  prefixed before (ok a, x) = (ok a, x)
  prefixed before (err e, x) = (err (before ++ e), x)

  abbrev pub to_topic : Option Text → List ℕ → X → Result (Unit {0}) × X
  to_topic none message x = (err (codes "MQTT topic is required."), x)
  to_topic (some topic) message x =
      prefixed (codes "Failed to publish MQTT message: ") (links.mqtt_publish topic message x)

  unfoldable pub send_mqtt : Handles → Option Text → List ℕ → X → Called (Unit {0})
  send_mqtt c topic message = over_mqtt c (to_topic topic message)

  unfoldable pub close_mqtt : Handles → X → Called (Unit {0})
  close_mqtt c =
      over_mqtt c
        (λ x. prefixed (codes "Failed to disconnect MQTT client: ") (links.mqtt_disconnect x))

  abbrev pub refused : {A : Type 0} → Text → X → Called A
  refused e x = (some (err e), x)

  abbrev pub no_send : Text
  no_send = codes "The protocol does not support 'Send'. Use another method instead."

  unfoldable pub send : Protocols → Handles → List ℕ → Option Text → X → Called (Unit {0})
  unfolding send_ws send_mqtt
  send ws c bytes topic = send_ws c topic bytes
  send wss c bytes topic = send_ws c topic bytes
  send mqtt c bytes topic = send_mqtt c topic bytes
  send quic c bytes topic = λ x. called (links.quic_send bytes x)
  send http c bytes topic = refused no_send
  send https c bytes topic = refused no_send
  send file c bytes topic = refused no_send
  send coap c bytes topic = refused no_send
  send ftp c bytes topic = refused no_send
  send sftp c bytes topic = refused no_send
  send webrtc c bytes topic = refused no_send
  send http3 c bytes topic = refused no_send

  abbrev pub no_rcv : Text
  no_rcv = codes "The protocol does not support 'Receive'. Use another method instead."

  unfoldable pub rcv : Protocols → Handles → X → Called (List ℕ)
  unfolding rcv_ws
  rcv ws c = rcv_ws c
  rcv wss c = rcv_ws c
  rcv mqtt c = over_mqtt c links.mqtt_rcv
  rcv quic c = λ x. called (links.quic_rcv x)
  rcv http c = refused no_rcv
  rcv https c = refused no_rcv
  rcv file c = refused no_rcv
  rcv coap c = refused no_rcv
  rcv ftp c = refused no_rcv
  rcv sftp c = refused no_rcv
  rcv webrtc c = refused no_rcv
  rcv http3 c = refused no_rcv

  abbrev pub no_close : Text
  no_close = codes "The protocol does not support 'Close'. Use another method instead"

  unfoldable pub close : Protocols → Handles → X → Called (Unit {0})
  unfolding close_ws close_mqtt
  close ws c = close_ws c
  close wss c = close_ws c
  close mqtt c = close_mqtt c
  close quic c = refused no_close
  close http c = refused no_close
  close https c = refused no_close
  close file c = refused no_close
  close coap c = refused no_close
  close ftp c = refused no_close
  close sftp c = refused no_close
  close webrtc c = refused no_close
  close http3 c = refused no_close
