-- ===== src/RtcClient/Streaming.antt =====
-- webrtc_client.rs: the wait for the ICE connection, the start of a stream, and the data channel.
use device_sdk.Base.{ℕ, List, [], ◌∷◌, Option, none, some, Text, codes}
use device_sdk.Base.Results.{Result}
use device_sdk.Base.Results
use device_sdk.RtcClient.State.{
  RtcClient, Peer, IceState, connected, disconnected, closed, checking, M, ok, err, ◌>>=◌, ◌>>◌,
  pure, fail, given, ask,
}
use device_sdk.RtcClient.State
use device_sdk.RtcClient.Negotiation.{no_id, guard}

-- What the polls of the state give before the time-out of ten seconds.
unfoldable pub wait_for_ice_connection : List IceState → Result (Unit {0})
wait_for_ice_connection [] = Results.err (codes "ICE connection timeout after 10 seconds")
wait_for_ice_connection (connected ∷ _) = Results.ok tt
wait_for_ice_connection (State.failed ∷ _) = Results.err (codes "ICE connection failed")
wait_for_ice_connection (disconnected ∷ _) = Results.err (codes "ICE connection disconnected")
wait_for_ice_connection (closed ∷ _) = Results.err (codes "ICE connection closed")
wait_for_ice_connection (checking ∷ rest) = wait_for_ice_connection rest

pub data StreamSource : Type 0 where
  from_file : Text → StreamSource
  webcam : ℕ → StreamSource
  media_stream raw_h264 : StreamSource

-- Starting to read a source: the error, if it cannot be opened.
unfoldable pub open_source : (StreamSource → Option Text) → Option StreamSource → M (Unit {0})
open_source opened none = fail (codes "No stream source provided")
open_source opened (some s) = elim (opened s) [ some e ↦ fail e | none ↦ pure tt ]

unfoldable pub start_streaming :
    Peer → (StreamSource → Option Text) → Option StreamSource → M (Unit {0})
unfolding wait_for_ice_connection open_source
start_streaming peer opened source = do
  id ← ask (λ c. c.client_id)
  client ← given no_id id
  tracks ← ask (λ c. c.tracks)
  guard tracks (codes "Video track not set")
  at ← ask (λ c. c.pc)
  pc ← given (codes "PeerConnection is not set") at
  up ← State.lift (wait_for_ice_connection (peer.ice_states pc))
  open_source opened source

-- `refused` is the error of the channel, if it fails.
unfoldable pub send_data_channel_message : (Text → Option Text) → Text → M (Unit {0})
send_data_channel_message refused text = do
  at ← ask (λ c. c.data_channel)
  channel ← given (codes "Data channel not initialized") at
  State.lift (elim (refused text) [ some e ↦ Results.err e | none ↦ Results.ok tt ])
