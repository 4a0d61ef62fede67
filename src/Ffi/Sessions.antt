-- ===== src/Ffi/Sessions.antt =====
-- ffi/net.rs: the exported functions on WebRTC clients, and those on the whole interface.
use device_sdk.Base.{
  ℕ, ◌+◌, List, [], ◌∷◌, ◌++◌, Option, none, some, Bool, true, false, ◌==◌, leb, Text, length,
  if◌then◌else◌,
}
use device_sdk.Base.Results.{Result, ok, err}
use device_sdk.Common.Messages.{WebRtcMessage}
use device_sdk.RtcClient.State.{RtcClient, Peer, M}
use device_sdk.RtcClient.State
use device_sdk.RtcClient.Requests.{connect_to_signaling_server, create_session}
use device_sdk.RtcClient.Negotiation.{join_session, publish, wait_for_subscriber}
use device_sdk.RtcClient.Streaming.{StreamSource, from_file, webcam, start_streaming}
use device_sdk.Ffi.Codes.{
  ℤ, pos, as_u64, as_u32, as_c_int, success, invalid_handle, invalid_param, timeout, session_failed,
  stream_failed,
}
use device_sdk.Ffi.Wrapper.{Outside, has_nul}
use device_sdk.Ffi.Manager.{
  Call, Run, returned, aborted, guarded, create_webrtc_client, destroy_webrtc_client,
  with_webrtc_client,
}
use device_sdk.Ffi.Clients.{CText, with_text, then_code, code_of, or_zero, handle_code}

-- What the WebRTC clients meet: webrtc-rs, the messages that arrive after a connection, and the errors
-- of opening a source.
pub record Surroundings : Type 0 where
  pub out : Outside
  pub peer : Peer
  pub arriving : Text → List WebRtcMessage
  pub opened : StreamSource → Option Text

-- The locks of the two maps that a cleanup gets within five seconds.
pub data Locks : Type 0 where
  both first neither : Locks

-- Where a session's identifier is written: the buffer is null, or what it says of its size.
abbrev pub Written : Type 0
Written = ℤ × List ℕ

-- The identifier as a C string, with its zero, if the buffer is large enough.
unfoldable pub copy_out : ℤ → List ℕ → Written
copy_out capacity id =
    if has_nul id
    then (session_failed, [])
    else if leb (length id + 1) (as_u64 capacity)
    then (success, id ++ 0 ∷ [])
    else (invalid_param, [])

module _ (env : Surroundings) where
  abbrev pub copied : ℤ → Run (Result Text) → Run Written
  copied capacity (returned (ok id) m) = returned (copy_out capacity (env.out.as_bytes id)) m
  copied capacity (returned (err e) m) = returned (invalid_handle, []) m
  copied capacity aborted = aborted

  unfoldable pub webrtc_client_create : Call ℕ
  unfolding guarded create_webrtc_client
  webrtc_client_create = guarded 0 (λ m. or_zero (create_webrtc_client m))

  abbrev pub destroy_by : ℕ → Call ℤ
  destroy_by handle m =
      if handle == 0
      then returned invalid_handle m
      else handle_code env.out (destroy_webrtc_client handle m)

  unfoldable pub webrtc_client_destroy : ℕ → Call ℤ
  unfolding guarded destroy_webrtc_client
  webrtc_client_destroy handle = guarded invalid_handle (destroy_by handle)

  -- The client of the handle runs `f`; every error has the one code.
  abbrev pub run_by : {R : Type 0} → ℤ → ℕ → M R → Call ℤ
  run_by failure handle f m = then_code (code_of failure) (with_webrtc_client handle f m)

  unfoldable pub webrtc_connect_to_signaling_server : ℕ → CText → Call ℤ
  unfolding guarded with_text with_webrtc_client
  webrtc_connect_to_signaling_server handle server_url = guarded invalid_handle (
      with_text env.out.to_str handle server_url (λ url.
        run_by invalid_handle handle (connect_to_signaling_server env.peer url (env.arriving url))))

  abbrev pub create_session_by : ℕ → Bool → ℤ → Call Written
  create_session_by handle false session_id_len m = returned (invalid_param, []) m
  create_session_by handle true session_id_len m =
      if handle == 0
      then returned (invalid_param, []) m
      else copied session_id_len (with_webrtc_client handle (create_session env.peer) m)

  unfoldable pub webrtc_create_session :
      ℕ → (session_id_out : Bool) → (session_id_len : ℤ) → Call Written
  unfolding guarded with_webrtc_client copy_out
  webrtc_create_session handle session_id_out session_id_len =
      guarded (invalid_handle, []) (create_session_by handle session_id_out session_id_len)

  unfoldable pub webrtc_join_session : ℕ → CText → Call ℤ
  unfolding guarded with_text with_webrtc_client
  webrtc_join_session handle session_id = guarded invalid_handle (
      with_text env.out.to_str handle session_id
        (λ session. run_by invalid_handle handle (join_session env.peer session)))

  unfoldable pub webrtc_publish_session : ℕ → CText → Call ℤ
  unfolding guarded with_text with_webrtc_client
  webrtc_publish_session handle session_id = guarded invalid_handle (
      with_text env.out.to_str handle session_id
        (λ session. run_by invalid_handle handle (publish env.peer session)))

  -- A WebRTC function that checks its handle alone.
  unfoldable pub with_handle : ℕ → Call ℤ → Call ℤ
  with_handle handle body m = if handle == 0 then returned invalid_param m else body m

  unfoldable pub webrtc_start_webcam_stream : ℕ → ℤ → Call ℤ
  unfolding guarded with_handle with_webrtc_client
  webrtc_start_webcam_stream handle camera_index = guarded invalid_handle (
      with_handle handle (
        run_by invalid_handle handle
          (start_streaming env.peer env.opened (some (webcam (as_u32 camera_index))))))

  unfoldable pub webrtc_start_file_stream : ℕ → CText → Call ℤ
  unfolding guarded with_text with_webrtc_client
  webrtc_start_file_stream handle file_path = guarded invalid_handle (
      with_text env.out.to_str handle file_path (λ path.
        run_by stream_failed handle (start_streaming env.peer env.opened (some (from_file path)))))

  -- The tasks of the stream, which it stops, are no part of the client here: it returns without error.
  unfoldable pub webrtc_stop_stream : ℕ → Call ℤ
  unfolding guarded with_handle with_webrtc_client
  webrtc_stop_stream handle =
      guarded invalid_handle (with_handle handle (run_by invalid_handle handle (State.ok (tt {0}))))

  unfoldable pub webrtc_wait_for_subscriber : ℕ → ℤ → Call ℤ
  unfolding guarded with_handle with_webrtc_client
  webrtc_wait_for_subscriber handle timeout_seconds = guarded invalid_handle (
      with_handle handle
        (run_by invalid_handle handle (wait_for_subscriber env.peer (as_u64 timeout_seconds))))

unfoldable pub net_init : Call ℤ
net_init m = returned success (record m { shutdown_flag = false })

-- The shutdown is asked for first; whether the operations end in time changes nothing.
unfoldable pub net_cleanup_with_timeout : Locks → Call ℤ
net_cleanup_with_timeout both m =
    returned success
      (record m { shutdown_flag = true; clients = λ h. none; webrtc_clients = λ h. none })
net_cleanup_with_timeout first m =
    returned timeout (record m { shutdown_flag = true; clients = λ h. none })
net_cleanup_with_timeout neither m = returned timeout (record m { shutdown_flag = true })

unfoldable pub net_force_shutdown : Call ℤ
net_force_shutdown m =
    returned success
      (record m { shutdown_flag = true; clients = λ h. none; webrtc_clients = λ h. none })

unfoldable pub net_is_shutdown_requested : Call ℤ
net_is_shutdown_requested m = returned (if m.shutdown_flag then pos 1 else pos 0) m

unfoldable pub net_get_active_operations_count : Call ℤ
net_get_active_operations_count m = returned (as_c_int m.active_operations) m
