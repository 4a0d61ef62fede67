-- ===== src/Ffi/Calls/Refusals.antt =====
-- Calls that are refused: after a shutdown, and on a handle that names no client.
use device_sdk.Base.{
  ℕ, List, [], ◌∷◌, Option, none, some, Bool, true, false, ◌≡◌, refl, sym, subst, ap, ◌∙◌, ◌==◌,
  All, if◌then◌else◌,
}
use device_sdk.Base.Results.{Result, ok, err}
use device_sdk.Ffi.Codes.{invalid_handle}
use device_sdk.Ffi.Wrapper.{ClientWrapper}
use device_sdk.Ffi.Manager.{NetManager, Run, returned, aborted, guarded, with_client}
use device_sdk.Ffi.Clients.{
  client_create, client_destroy, client_set_url, client_set_method, client_set_user,
  client_set_password, client_set_req_body, client_set_header, client_set_timeout, client_request,
  client_connect, then_response, look, client_get_request, client_post_request, client_put_request,
  client_delete_request, client_get_response,
}
use device_sdk.Ffi.Sessions.{
  Surroundings, both, first, neither, net_force_shutdown, net_cleanup_with_timeout,
  net_is_shutdown_requested, net_get_active_operations_count, webrtc_client_create,
  webrtc_client_destroy, webrtc_connect_to_signaling_server, webrtc_create_session,
  webrtc_join_session, webrtc_publish_session, webrtc_start_webcam_stream, webrtc_start_file_stream,
  webrtc_stop_stream, webrtc_wait_for_subscriber,
}
use device_sdk.Ffi.Calls
use device_sdk.Ffi.Calls.{
  Exported, OnClient, Unguarded, OnWebRtc, Answer, answers, perform, client_call, unguarded_call,
  webrtc_call,
}
use device_sdk.Ffi.Calls.Keeps.{After, with_client-flag}
use device_sdk.Ffi.Calls.Around.{answers-After, or_error-After, if-After}
use device_sdk.Ffi.Calls.Sequences.{perform_all, then_all, After-map}

-- What a guarded function answers after a shutdown; the others have no such answer.
abbrev pub refusal : Exported → Option Answer
refusal (Calls.create p) = some (Calls.handle 0)
refusal Calls.webrtc_create = some (Calls.handle 0)
refusal (Calls.on_client h c) = some (Calls.code invalid_handle)
refusal (Calls.on_webrtc h c) = some (Calls.code invalid_handle)
refusal (Calls.create_session h given n) = some (Calls.session (invalid_handle, []))
refusal _ = none

if_true : {A : Type 0} {x : A} (y : A) (b : Bool) → b ≡ true → (if b then x else y) ≡ x
if_true y true e = refl
if_true y false e = cc

module _ (env : Surroundings) (m : NetManager) (down : m.shutdown_flag ≡ true) where
  client_call_refused : (h : ℕ) (c : OnClient) → client_call env h c m ≡ returned invalid_handle m
  unfolding guarded client_destroy client_set_url client_set_method client_set_user
      client_set_password client_set_req_body client_set_header client_set_timeout client_request
      client_connect
  client_call_refused h OnClient.destroy = if_true _ m.shutdown_flag down
  client_call_refused h Calls.request = if_true _ m.shutdown_flag down
  client_call_refused h (Calls.set_url t) = if_true _ m.shutdown_flag down
  client_call_refused h (Calls.set_method t) = if_true _ m.shutdown_flag down
  client_call_refused h (Calls.set_user t) = if_true _ m.shutdown_flag down
  client_call_refused h (Calls.set_password t) = if_true _ m.shutdown_flag down
  client_call_refused h (Calls.set_req_body t) = if_true _ m.shutdown_flag down
  client_call_refused h (Calls.connect t) = if_true _ m.shutdown_flag down
  client_call_refused h (Calls.set_header k v) = if_true _ m.shutdown_flag down
  client_call_refused h (Calls.set_timeout n) = if_true _ m.shutdown_flag down

  webrtc_call_refused : (h : ℕ) (c : OnWebRtc) → webrtc_call env h c m ≡ returned invalid_handle m
  unfolding guarded webrtc_client_destroy webrtc_stop_stream webrtc_connect_to_signaling_server
      webrtc_join_session webrtc_publish_session webrtc_start_file_stream webrtc_start_webcam_stream
      webrtc_wait_for_subscriber
  webrtc_call_refused h OnWebRtc.destroy = if_true _ m.shutdown_flag down
  webrtc_call_refused h Calls.stop_stream = if_true _ m.shutdown_flag down
  webrtc_call_refused h (Calls.connect_to_signaling_server t) = if_true _ m.shutdown_flag down
  webrtc_call_refused h (Calls.join_session t) = if_true _ m.shutdown_flag down
  webrtc_call_refused h (Calls.publish_session t) = if_true _ m.shutdown_flag down
  webrtc_call_refused h (Calls.start_file_stream t) = if_true _ m.shutdown_flag down
  webrtc_call_refused h (Calls.start_webcam_stream n) = if_true _ m.shutdown_flag down
  webrtc_call_refused h (Calls.wait_for_subscriber n) = if_true _ m.shutdown_flag down

  perform-refusal :
      (c : Exported) (a : Answer) → refusal c ≡ some a → (perform env c m ≡ returned a m)
  unfolding guarded perform client_create webrtc_client_create webrtc_create_session
  perform-refusal (Calls.create p) a e =
      ap (answers Calls.handle) (if_true _ m.shutdown_flag down) ∙ ap (λ x. returned x m) (cc)
  perform-refusal Calls.webrtc_create a e =
      ap (answers Calls.handle) (if_true _ m.shutdown_flag down) ∙ ap (λ x. returned x m) (cc)
  perform-refusal (Calls.on_client h c) a e =
      ap (answers Calls.code) (client_call_refused h c) ∙ ap (λ x. returned x m) (cc)
  perform-refusal (Calls.on_webrtc h c) a e =
      ap (answers Calls.code) (webrtc_call_refused h c) ∙ ap (λ x. returned x m) (cc)
  perform-refusal (Calls.create_session h given n) a e =
      ap (answers Calls.session) (if_true _ m.shutdown_flag down) ∙ ap (λ x. returned x m) (cc)
  perform-refusal (Calls.unguarded h c) a e = cc
  perform-refusal Calls.init a e = cc
  perform-refusal Calls.force_shutdown a e = cc
  perform-refusal Calls.is_shutdown_requested a e = cc
  perform-refusal Calls.active_operations_count a e = cc
  perform-refusal (Calls.cleanup l) a e = cc

-- The shutdown has been asked for, and not been taken back.
pub IsDown : NetManager → Type 0
IsDown m = m.shutdown_flag ≡ true

abbrev pub is_init : Exported → Bool
is_init Calls.init = true
is_init _ = false

-- The functions that ask for the shutdown.
abbrev pub shuts_down : Exported → Bool
shuts_down Calls.force_shutdown = true
shuts_down (Calls.cleanup l) = true
shuts_down _ = false

module _ (env : Surroundings) where
  with_client-IsDown :
      {R : Type 0} (h : ℕ) (f : ClientWrapper → Option (R × ClientWrapper)) (m : NetManager)
      → IsDown m
      → After IsDown (with_client h f m)
  unfolding IsDown
  with_client-IsDown h f m d =
      After-map _ IsDown (with_client h f m) (λ m' e. e ∙ d) (with_client-flag h f m)

  then_response-IsDown :
      (h : ℕ) (r : Run (Result (Result (Unit {0}))))
      → After IsDown r
      → After IsDown (then_response env.out h r)
  then_response-IsDown h (returned (ok (ok x)) d) t =
      or_error-After IsDown env.out _ _ (with_client-IsDown h (look env.out) d t)
  then_response-IsDown h (returned (ok (err e)) d) t =
      or_error-After IsDown env.out _ _ (with_client-IsDown h (look env.out) d t)
  then_response-IsDown h (returned (err e) d) t = t
  then_response-IsDown h aborted t = tt

  unguarded_call-IsDown :
      (h : ℕ) (c : Unguarded) (m : NetManager) → IsDown m → After IsDown (unguarded_call env h c m)
  unfolding client_get_request client_post_request client_put_request client_delete_request
      client_get_response
  unguarded_call-IsDown h Calls.get_request m d =
      then_response-IsDown h _ (with_client-IsDown h _ m d)
  unguarded_call-IsDown h Calls.post_request m d =
      then_response-IsDown h _ (with_client-IsDown h _ m d)
  unguarded_call-IsDown h Calls.put_request m d =
      then_response-IsDown h _ (with_client-IsDown h _ m d)
  unguarded_call-IsDown h Calls.delete_request m d =
      then_response-IsDown h _ (with_client-IsDown h _ m d)
  unguarded_call-IsDown h Calls.get_response m d =
      if-After IsDown (h == 0) _ _ d
        (or_error-After IsDown env.out invalid_handle _ (with_client-IsDown h (look env.out) m d))

  refused-IsDown :
      (c : Exported) (a : Answer) (m : NetManager)
      → refusal c ≡ some a
      → IsDown m
      → After IsDown (perform env c m)
  unfolding IsDown
  refused-IsDown c a m e d = subst (After IsDown) (sym (perform-refusal env m d c a e)) d

  shuts_down-IsDown :
      (c : Exported) (m : NetManager) → shuts_down c ≡ true → After IsDown (perform env c m)
  unfolding IsDown perform net_force_shutdown net_cleanup_with_timeout
  shuts_down-IsDown Calls.force_shutdown m e = refl
  shuts_down-IsDown (Calls.cleanup both) m e = refl
  shuts_down-IsDown (Calls.cleanup first) m e = refl
  shuts_down-IsDown (Calls.cleanup neither) m e = refl
  shuts_down-IsDown (Calls.create p) m e = cc
  shuts_down-IsDown Calls.webrtc_create m e = cc
  shuts_down-IsDown (Calls.on_client h c) m e = cc
  shuts_down-IsDown (Calls.on_webrtc h c) m e = cc
  shuts_down-IsDown (Calls.create_session h given n) m e = cc
  shuts_down-IsDown (Calls.unguarded h c) m e = cc
  shuts_down-IsDown Calls.init m e = cc
  shuts_down-IsDown Calls.is_shutdown_requested m e = cc
  shuts_down-IsDown Calls.active_operations_count m e = cc

  perform-IsDown :
      (c : Exported) (m : NetManager)
      → is_init c ≡ false
      → IsDown m
      → After IsDown (perform env c m)
  unfolding perform net_is_shutdown_requested net_get_active_operations_count
  perform-IsDown (Calls.create p) m n d = refused-IsDown (Calls.create p) _ m refl d
  perform-IsDown Calls.webrtc_create m n d = refused-IsDown Calls.webrtc_create _ m refl d
  perform-IsDown (Calls.on_client h c) m n d = refused-IsDown (Calls.on_client h c) _ m refl d
  perform-IsDown (Calls.on_webrtc h c) m n d = refused-IsDown (Calls.on_webrtc h c) _ m refl d
  perform-IsDown (Calls.create_session h given k) m n d =
      refused-IsDown (Calls.create_session h given k) _ m refl d
  perform-IsDown (Calls.unguarded h c) m n d =
      answers-After IsDown _ _ (unguarded_call-IsDown h c m d)
  perform-IsDown Calls.init m n d = absurd (cc)
  perform-IsDown Calls.force_shutdown m n d = shuts_down-IsDown Calls.force_shutdown m refl
  perform-IsDown Calls.is_shutdown_requested m n d = d
  perform-IsDown Calls.active_operations_count m n d = d
  perform-IsDown (Calls.cleanup l) m n d = shuts_down-IsDown (Calls.cleanup l) m refl

  perform_all-IsDown :
      (cs : List Exported) (m : NetManager)
      → All (λ c. is_init c ≡ false) cs
      → IsDown m
      → After IsDown (perform_all env cs m)
  perform_all-IsDown [] m n d = d
  perform_all-IsDown (c ∷ cs) m n d = then_all _ env cs (perform env c m) (
      After-map IsDown _ (perform env c m) (λ m' d'. perform_all-IsDown cs m' n.1 d')
        (perform-IsDown c m n.0 d))

  -- From a forced shutdown or a cleanup on, and until the next `net_init`, whatever other calls come
  -- between, every guarded function gives its error or the handle zero, whatever its arguments, and
  -- changes nothing.
  pub perform_all-refusal :
      (s : Exported) (cs : List Exported) (m : NetManager)
      → shuts_down s ≡ true
      → All (λ c. is_init c ≡ false) cs
      → After
          (λ d. (c : Exported) (a : Answer) → refusal c ≡ some a → (perform env c d ≡ returned a d))
          (perform_all env (s ∷ cs) m)
  unfolding IsDown
  perform_all-refusal s cs m e n =
      After-map IsDown _ (perform_all env (s ∷ cs) m)
        (λ d down c a r. perform-refusal env d down c a r)
        (then_all IsDown env cs (perform env s m) (
          After-map IsDown _ (perform env s m) (λ d down. perform_all-IsDown cs d n down)
            (shuts_down-IsDown s m e)))
