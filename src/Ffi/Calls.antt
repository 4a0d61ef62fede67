-- ===== src/Ffi/Calls.antt =====
-- ffi/net.rs: all the exported functions that work on the manager, as the calls of a C program.
pub mod Keeps
pub mod Around
pub mod Bodies
pub mod Effects
pub mod Sequences
pub mod Refusals
pub mod Unknown
pub mod Destroyed
use device_sdk.Base.{ℕ, List, [], ◌∷◌, Option, none, some, Bool, true, false}
use device_sdk.Ffi.Codes.{ℤ}
use device_sdk.Ffi.Wrapper.{CNetResponse}
use device_sdk.Ffi.Manager.{NetManager, Call, Run, returned, aborted}
use device_sdk.Ffi.Clients.{
  CText, client_create, client_destroy, client_set_url, client_set_method, client_set_user,
  client_set_password, client_set_req_body, client_set_header, client_set_timeout, client_request,
  client_connect, client_get_request, client_post_request, client_put_request,
  client_delete_request, client_get_response,
}
use device_sdk.Ffi.Sessions.{
  Surroundings, Locks, Written, webrtc_client_create, webrtc_client_destroy,
  webrtc_connect_to_signaling_server, webrtc_create_session, webrtc_join_session,
  webrtc_publish_session, webrtc_start_webcam_stream, webrtc_start_file_stream, webrtc_stop_stream,
  webrtc_wait_for_subscriber, net_init, net_cleanup_with_timeout, net_force_shutdown,
  net_is_shutdown_requested, net_get_active_operations_count,
}

-- The functions that need a handle of a client, under the guard of an operation.
pub data OnClient : Type 0 where
  destroy request : OnClient
  set_url set_method set_user set_password set_req_body connect : CText → OnClient
  set_header : (key value : CText) → OnClient
  set_timeout : ℤ → OnClient

-- Those that need a handle of a client and have no guard.
pub data Unguarded : Type 0 where
  get_request post_request put_request delete_request get_response : Unguarded

pub data OnWebRtc : Type 0 where
  destroy stop_stream : OnWebRtc
  connect_to_signaling_server join_session publish_session start_file_stream : CText → OnWebRtc
  start_webcam_stream wait_for_subscriber : ℤ → OnWebRtc

pub data Exported : Type 0 where
  create : ℤ → Exported
  webrtc_create : Exported
  on_client : ℕ → OnClient → Exported
  unguarded : ℕ → Unguarded → Exported
  on_webrtc : ℕ → OnWebRtc → Exported
  create_session : ℕ → Bool → ℤ → Exported
  init force_shutdown is_shutdown_requested active_operations_count : Exported
  cleanup : Locks → Exported

pub data Answer : Type 0 where
  code : ℤ → Answer
  handle : ℕ → Answer
  response : CNetResponse → Answer
  session : Written → Answer

abbrev pub answers : {A : Type 0} → (A → Answer) → Run A → Run Answer
answers as_answer (returned a m) = returned (as_answer a) m
answers as_answer aborted = aborted

module _ (env : Surroundings) where
  abbrev pub client_call : ℕ → OnClient → Call ℤ
  client_call h OnClient.destroy = client_destroy env.out h
  client_call h request = client_request env.out h
  client_call h (set_url url) = client_set_url env.out h url
  client_call h (set_method method) = client_set_method env.out h method
  client_call h (set_user user) = client_set_user env.out h user
  client_call h (set_password password) = client_set_password env.out h password
  client_call h (set_req_body body) = client_set_req_body env.out h body
  client_call h (connect url) = client_connect env.out h url
  client_call h (set_header key value) = client_set_header env.out h key value
  client_call h (set_timeout seconds) = client_set_timeout env.out h seconds

  abbrev pub unguarded_call : ℕ → Unguarded → Call CNetResponse
  unguarded_call h get_request = client_get_request env.out h
  unguarded_call h post_request = client_post_request env.out h
  unguarded_call h put_request = client_put_request env.out h
  unguarded_call h delete_request = client_delete_request env.out h
  unguarded_call h get_response = client_get_response env.out h

  abbrev pub webrtc_call : ℕ → OnWebRtc → Call ℤ
  webrtc_call h OnWebRtc.destroy = webrtc_client_destroy env h
  webrtc_call h stop_stream = webrtc_stop_stream env h
  webrtc_call h (connect_to_signaling_server url) = webrtc_connect_to_signaling_server env h url
  webrtc_call h (join_session id) = webrtc_join_session env h id
  webrtc_call h (publish_session id) = webrtc_publish_session env h id
  webrtc_call h (start_file_stream path) = webrtc_start_file_stream env h path
  webrtc_call h (start_webcam_stream camera) = webrtc_start_webcam_stream env h camera
  webrtc_call h (wait_for_subscriber seconds) = webrtc_wait_for_subscriber env h seconds

  unfoldable pub perform : Exported → Call Answer
  perform (create protocol) m = answers handle (client_create env.out protocol m)
  perform webrtc_create m = answers handle (webrtc_client_create env m)
  perform (on_client h c) m = answers code (client_call h c m)
  perform (unguarded h c) m = answers response (unguarded_call h c m)
  perform (on_webrtc h c) m = answers code (webrtc_call h c m)
  perform (create_session h out len) m = answers session (webrtc_create_session env h out len m)
  perform init m = answers code (net_init m)
  perform force_shutdown m = answers code (net_force_shutdown m)
  perform is_shutdown_requested m = answers code (net_is_shutdown_requested m)
  perform active_operations_count m = answers code (net_get_active_operations_count m)
  perform (cleanup locks) m = answers code (net_cleanup_with_timeout locks m)
