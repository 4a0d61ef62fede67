-- ===== src/Ffi/Calls/Bodies.antt =====
-- Each exported function but those that create a client: which part of the manager it keeps.
use device_sdk.Base.{ℕ, ◌^◌, ◌<◌, [], Bool, true, false, refl, ◌==◌, Text}
use device_sdk.Base.Results.{Result, ok, err}
use device_sdk.RtcClient.State.{M}
use device_sdk.Ffi.Codes.{ℤ, pos, negsuc, invalid_handle, stream_failed}
use device_sdk.Ffi.Wrapper.{ClientWrapper}
use device_sdk.Ffi.Manager.{NetManager, Run, returned, aborted, guarded}
use device_sdk.Ffi.Clients
use device_sdk.Ffi.Clients.{
  CText, set_by, with_text, create_matched, or_zero, timeout_set, client_create, client_destroy,
  client_set_url, client_set_method, client_set_user, client_set_password, client_set_req_body,
  client_set_header, client_set_timeout, client_request, client_connect, client_get_request,
  client_post_request, client_put_request, client_delete_request, client_get_response,
}
use device_sdk.Ffi.Sessions.{
  Surroundings, Locks, both, first, neither, copied, run_by, with_handle, webrtc_client_create,
  webrtc_client_destroy, webrtc_connect_to_signaling_server, webrtc_create_session,
  webrtc_join_session, webrtc_publish_session, webrtc_start_webcam_stream, webrtc_start_file_stream,
  webrtc_stop_stream, webrtc_wait_for_subscriber, net_init, net_cleanup_with_timeout,
  net_force_shutdown, net_is_shutdown_requested, net_get_active_operations_count,
}
use device_sdk.Ffi.Sessions
use device_sdk.RtcClient.State
use device_sdk.Ffi.Calls
use device_sdk.Ffi.Calls.{
  Exported, OnClient, Unguarded, OnWebRtc, Answer, answers, perform, client_call, unguarded_call,
  webrtc_call,
}
use device_sdk.Ffi.Calls.Around.{
  Tames, then_code-After, handle_code-After, or_error-After, then_response-Tame, with_text-Tames,
  if-After, guarded-Tame,
}
use device_sdk.Ffi.Calls.Keeps.{
  After, Tame, Tame-refl, with_client-Tame, with_webrtc_client-Tame, destroy_client-Tame,
  destroy_webrtc_client-Tame,
}

module _ (env : Surroundings) (m : NetManager) (a : m.active_operations < 2 ^ 64) where
  set_by-Tames : (h : ℕ) (f : ClientWrapper → ClientWrapper) → Tames (set_by env.out h f)
  set_by-Tames h f d = then_code-After (Tame d) _ _ (with_client-Tame h _ d)

  text-Tame :
      (h : ℕ) (t : CText) (f : Text → ClientWrapper → ClientWrapper)
      → After
          (Tame m)
          (guarded invalid_handle (with_text env.out.to_str h t (λ s. set_by env.out h (f s))) m)
  text-Tame h t f =
      guarded-Tame invalid_handle _
        (with_text-Tames env.out.to_str h t _ (λ s. set_by-Tames h (f s))) m a

  timeout_set-Tames : (h : ℕ) (seconds : ℤ) → Tames (timeout_set env.out h seconds)
  timeout_set-Tames h (negsuc n) d = Tame-refl d
  timeout_set-Tames h (pos n) d = if-After (Tame d) (h == 0) _ _ (Tame-refl d) (set_by-Tames h _ d)

  destroy_by-Tames : (h : ℕ) → Tames (Clients.destroy_by env.out h)
  destroy_by-Tames h d =
      if-After (Tame d) (h == 0) _ _ (Tame-refl d)
        (handle_code-After (Tame d) env.out _ (destroy_client-Tame h d))

  request_by-Tames : (h : ℕ) → Tames (Clients.request_by env.out h)
  request_by-Tames h d =
      if-After (Tame d) (h == 0) _ _ (Tame-refl d)
        (then_code-After (Tame d) _ _ (with_client-Tame h _ d))

  connect_by-Tames : (h : ℕ) (url : Text) → Tames (Clients.connect_by env.out h url)
  connect_by-Tames h url d = then_code-After (Tame d) _ _ (with_client-Tame h _ d)

  pub client_call-Tame : (h : ℕ) (c : OnClient) → After (Tame m) (client_call env h c m)
  unfolding client_destroy client_set_url client_set_method client_set_user client_set_password
      client_set_req_body client_set_header client_set_timeout client_request client_connect
  client_call-Tame h OnClient.destroy = guarded-Tame invalid_handle _ (destroy_by-Tames h) m a
  client_call-Tame h Calls.request = guarded-Tame invalid_handle _ (request_by-Tames h) m a
  client_call-Tame h (Calls.set_url t) = text-Tame h t _
  client_call-Tame h (Calls.set_method t) = text-Tame h t _
  client_call-Tame h (Calls.set_user t) = text-Tame h t _
  client_call-Tame h (Calls.set_password t) = text-Tame h t _
  client_call-Tame h (Calls.set_req_body t) = text-Tame h t _
  client_call-Tame h (Calls.connect t) =
      guarded-Tame invalid_handle _ (with_text-Tames env.out.to_str h t _ (connect_by-Tames h)) m a
  client_call-Tame h (Calls.set_header k v) =
      guarded-Tame invalid_handle _
        (with_text-Tames env.out.to_str h k _
          (λ s. with_text-Tames env.out.to_str h v _ (λ t. set_by-Tames h _)))
        m a
  client_call-Tame h (Calls.set_timeout n) =
      guarded-Tame invalid_handle _ (timeout_set-Tames h n) m a

  pub unguarded_call-Tame : (h : ℕ) (c : Unguarded) → After (Tame m) (unguarded_call env h c m)
  unfolding client_get_request client_post_request client_put_request client_delete_request
      client_get_response
  unguarded_call-Tame h Calls.get_request =
      then_response-Tame env.out h m _ (with_client-Tame h _ m)
  unguarded_call-Tame h Calls.post_request =
      then_response-Tame env.out h m _ (with_client-Tame h _ m)
  unguarded_call-Tame h Calls.put_request =
      then_response-Tame env.out h m _ (with_client-Tame h _ m)
  unguarded_call-Tame h Calls.delete_request =
      then_response-Tame env.out h m _ (with_client-Tame h _ m)
  unguarded_call-Tame h Calls.get_response = if-After (Tame m) (h == 0) _ _ (Tame-refl m) (
      or_error-After (Tame m) env.out invalid_handle _
        (with_client-Tame h (Clients.look env.out) m))

  run_by-Tames : {R : Type 0} (code : ℤ) (h : ℕ) (f : M R) → Tames (run_by env code h f)
  run_by-Tames code h f d = then_code-After (Tame d) _ _ (with_webrtc_client-Tame h f d)

  named-Tame :
      {R : Type 0} (code : ℤ) (h : ℕ) (t : CText) (f : Text → M R)
      → After
          (Tame m)
          (guarded invalid_handle (with_text env.out.to_str h t (λ s. run_by env code h (f s))) m)
  named-Tame code h t f =
      guarded-Tame invalid_handle _
        (with_text-Tames env.out.to_str h t _ (λ s. run_by-Tames code h (f s))) m a

  handled-Tame :
      {R : Type 0} (h : ℕ) (f : M R)
      → After
          (Tame m)
          (guarded invalid_handle (with_handle env h (run_by env invalid_handle h f)) m)
  unfolding with_handle
  handled-Tame h f =
      guarded-Tame invalid_handle _
        (λ d. if-After (Tame d) (h == 0) _ _ (Tame-refl d) (run_by-Tames invalid_handle h f d)) m a

  webrtc_destroy_by-Tames : (h : ℕ) → Tames (Sessions.destroy_by env h)
  webrtc_destroy_by-Tames h d =
      if-After (Tame d) (h == 0) _ _ (Tame-refl d)
        (handle_code-After (Tame d) env.out _ (destroy_webrtc_client-Tame h d))

  pub webrtc_call-Tame : (h : ℕ) (c : OnWebRtc) → After (Tame m) (webrtc_call env h c m)
  unfolding webrtc_client_destroy webrtc_stop_stream webrtc_connect_to_signaling_server
      webrtc_join_session webrtc_publish_session webrtc_start_file_stream webrtc_start_webcam_stream
      webrtc_wait_for_subscriber
  webrtc_call-Tame h OnWebRtc.destroy =
      guarded-Tame invalid_handle _ (webrtc_destroy_by-Tames h) m a
  webrtc_call-Tame h Calls.stop_stream = handled-Tame h (State.ok tt)
  webrtc_call-Tame h (Calls.connect_to_signaling_server t) = named-Tame invalid_handle h t _
  webrtc_call-Tame h (Calls.join_session t) = named-Tame invalid_handle h t _
  webrtc_call-Tame h (Calls.publish_session t) = named-Tame invalid_handle h t _
  webrtc_call-Tame h (Calls.start_file_stream t) = named-Tame stream_failed h t _
  webrtc_call-Tame h (Calls.start_webcam_stream n) = handled-Tame h _
  webrtc_call-Tame h (Calls.wait_for_subscriber n) = handled-Tame h _

  copied-After :
      (P : NetManager → Type 0) (n : ℤ) (r : Run (Result Text))
      → After P r
      → After P (copied env n r)
  copied-After P n (returned (ok id) d) p = p
  copied-After P n (returned (err e) d) p = p
  copied-After P n aborted p = tt

  create_session_by-Tames :
      (h : ℕ) (given : Bool) (n : ℤ) → Tames (Sessions.create_session_by env h given n)
  create_session_by-Tames h false n d = Tame-refl d
  create_session_by-Tames h true n d =
      if-After (Tame d) (h == 0) _ _ (Tame-refl d)
        (copied-After (Tame d) n _ (with_webrtc_client-Tame h _ d))

  pub webrtc_create_session-Tame :
      (h : ℕ) (given : Bool) (n : ℤ) → After (Tame m) (webrtc_create_session env h given n m)
  unfolding webrtc_create_session
  webrtc_create_session-Tame h given n =
      guarded-Tame (invalid_handle, []) _ (create_session_by-Tames h given n) m a

  pub cleanup-Tame : (locks : Locks) → After (Tame m) (net_cleanup_with_timeout locks m)
  unfolding net_cleanup_with_timeout
  cleanup-Tame both = record {
    next = refl;
    active = refl;
    clients = λ h e. refl;
    webrtc_clients = λ h e. refl;
  }
  cleanup-Tame first = record {
    next = refl;
    active = refl;
    clients = λ h e. refl;
    webrtc_clients = λ h e. e;
  }
  cleanup-Tame neither = record {
    next = refl;
    active = refl;
    clients = λ h e. e;
    webrtc_clients = λ h e. e;
  }
