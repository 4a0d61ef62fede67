-- ===== src/Ffi/Calls/Effects.antt =====
-- What each exported function does to the handles and to the count of the operations.
use device_sdk.Base.{ℕ, ◌^◌, ◌<◌, Option, none, some, ◌≡◌, ◌≢◌, ◌⊎◌, refl, ◌∙◌, arith, inl, inr}
use device_sdk.Base.Results.{Result, ok, err}
use device_sdk.Common.Enums.{
  Protocols, http, https, file, coap, mqtt, ftp, sftp, ws, wss, webrtc, http3, quic,
}
use device_sdk.Ffi.Codes.{match_protocol_enum}
use device_sdk.Ffi.Wrapper.{Outside}
use device_sdk.Ffi.Manager.{
  NetManager, Call, Run, returned, aborted, put, up, guarded, dropped, increment_operations,
  create_client, create_webrtc_client,
}
use device_sdk.Ffi.Clients.{create_matched, or_zero, client_create}
use device_sdk.Ffi.Sessions.{
  Surroundings, webrtc_client_create, net_init, net_force_shutdown, net_is_shutdown_requested,
  net_get_active_operations_count,
}
use device_sdk.Ffi.Calls
use device_sdk.Ffi.Calls.{
  Exported, OnClient, Unguarded, OnWebRtc, Answer, answers, perform, client_call, unguarded_call,
  webrtc_call,
}
use device_sdk.Ffi.Calls.Bodies.{
  client_call-Tame, unguarded_call-Tame, webrtc_call-Tame, webrtc_create_session-Tame, cleanup-Tame,
}
use device_sdk.Ffi.Calls.Around.{answers-After, if-After, down-up_same}
use device_sdk.Ffi.Calls.Keeps.{After, Tame, Tame-refl}

-- A call gives out the next handle, for a client of one kind, or keeps the manager.
pub record Grown (m m' : NetManager) : Type 0 where
  pub next : m'.next_handle_id ≡ up m.next_handle_id
  pub active : m'.active_operations ≡ m.active_operations
  pub clients : (h : ℕ) → h ≢ m.next_handle_id → m.clients h ≡ none → m'.clients h ≡ none
  pub webrtc_clients :
      (h : ℕ) → h ≢ m.next_handle_id → m.webrtc_clients h ≡ none → m'.webrtc_clients h ≡ none
  pub one :
      m.clients m.next_handle_id ≡ none
      → m.webrtc_clients m.next_handle_id ≡ none
      → (m'.clients m.next_handle_id ≡ none) ⊎ (m'.webrtc_clients m.next_handle_id ≡ none)

abbrev pub Effect : NetManager → NetManager → Type 0
Effect m m' = Tame m m' ⊎ Grown m m'

put_other :
    {A : Type 0} (k h : ℕ) (o : Option A) (map : ℕ → Option A) → h ≢ k → put k o map h ≡ map h
put_other k h o map n = ground (arith, n)

create_client-Effect :
    (out : Outside) (p : Protocols) (m : NetManager) → After (Effect m) (create_client out p m)
unfolding create_client
create_client-Effect out p m = if-After (Effect m) m.shutdown_flag _ _ (inl (Tame-refl m)) (
    inr (record {
      next = refl;
      active = refl;
      clients = λ h n e. put_other m.next_handle_id h _ m.clients n ∙ e;
      webrtc_clients = λ h n e. e;
      one = λ e f. inr f;
    }))

create_webrtc_client-Effect : (m : NetManager) → After (Effect m) (create_webrtc_client m)
unfolding create_webrtc_client
create_webrtc_client-Effect m = if-After (Effect m) m.shutdown_flag _ _ (inl (Tame-refl m)) (
    inr (record {
      next = refl;
      active = refl;
      clients = λ h n e. e;
      webrtc_clients = λ h n e. put_other m.next_handle_id h _ m.webrtc_clients n ∙ e;
      one = λ e f. inl e;
    }))

or_zero-After : (P : NetManager → Type 0) (r : Run (Result ℕ)) → After P r → After P (or_zero r)
or_zero-After P (returned (ok h) m) p = p
or_zero-After P (returned (err e) m) p = p
or_zero-After P aborted p = tt

create_matched-Effect :
    (out : Outside) (p : Option Protocols) (m : NetManager)
    → After (Effect m) (create_matched out p m)
create_matched-Effect out none m = inl (Tame-refl m)
create_matched-Effect out (some webrtc) m = inl (Tame-refl m)
create_matched-Effect out (some http) m =
    or_zero-After (Effect m) _ (create_client-Effect out http m)
create_matched-Effect out (some https) m =
    or_zero-After (Effect m) _ (create_client-Effect out https m)
create_matched-Effect out (some file) m =
    or_zero-After (Effect m) _ (create_client-Effect out file m)
create_matched-Effect out (some coap) m =
    or_zero-After (Effect m) _ (create_client-Effect out coap m)
create_matched-Effect out (some mqtt) m =
    or_zero-After (Effect m) _ (create_client-Effect out mqtt m)
create_matched-Effect out (some ftp) m = or_zero-After (Effect m) _ (create_client-Effect out ftp m)
create_matched-Effect out (some sftp) m =
    or_zero-After (Effect m) _ (create_client-Effect out sftp m)
create_matched-Effect out (some ws) m = or_zero-After (Effect m) _ (create_client-Effect out ws m)
create_matched-Effect out (some wss) m = or_zero-After (Effect m) _ (create_client-Effect out wss m)
create_matched-Effect out (some http3) m =
    or_zero-After (Effect m) _ (create_client-Effect out http3 m)
create_matched-Effect out (some quic) m =
    or_zero-After (Effect m) _ (create_client-Effect out quic m)

dropped-Effect :
    {A : Type 0} (m : NetManager) (r : Run A)
    → m.active_operations < 2 ^ 64
    → After (Effect (increment_operations m)) r
    → After (Effect m) (dropped r)
dropped-Effect m (returned a d) h (inl t) = inl (record {
  next = t.next;
  active = down-up_same d.active_operations m.active_operations t.active h;
  clients = t.clients;
  webrtc_clients = t.webrtc_clients;
})
dropped-Effect m (returned a d) h (inr t) = inr (record {
  next = t.next;
  active = down-up_same d.active_operations m.active_operations t.active h;
  clients = t.clients;
  webrtc_clients = t.webrtc_clients;
  one = t.one;
})
dropped-Effect m aborted h e = tt

guarded-Effect :
    {A : Type 0} (refusal : A) (body : Call A)
    → ((d : NetManager) → After (Effect d) (body d))
    → (m : NetManager) → m.active_operations < 2 ^ 64
    → After (Effect m) (guarded refusal body m)
unfolding guarded
guarded-Effect refusal body k m h =
    if-After (Effect m) m.shutdown_flag _ _ (inl (Tame-refl m))
      (dropped-Effect m (body (increment_operations m)) h (k (increment_operations m)))

tame : {A : Type 0} (m : NetManager) (r : Run A) → After (Tame m) r → After (Effect m) r
tame m (returned a d) t = inl t
tame m aborted t = tt

pub perform-Effect :
    (env : Surroundings) (c : Exported) (m : NetManager)
    → m.active_operations < 2 ^ 64
    → After (Effect m) (perform env c m)
unfolding perform client_create webrtc_client_create net_init net_force_shutdown
    net_is_shutdown_requested net_get_active_operations_count
perform-Effect env (Calls.create p) m a =
    answers-After (Effect m) _ _
      (guarded-Effect 0 _ (create_matched-Effect env.out (match_protocol_enum p)) m a)
perform-Effect env Calls.webrtc_create m a =
    answers-After (Effect m) _ _
      (guarded-Effect 0 _ (λ d. or_zero-After (Effect d) _ (create_webrtc_client-Effect d)) m a)
perform-Effect env (Calls.on_client h c) m a =
    answers-After (Effect m) _ _ (tame m _ (client_call-Tame env m a h c))
perform-Effect env (Calls.unguarded h c) m a =
    answers-After (Effect m) _ _ (tame m _ (unguarded_call-Tame env m a h c))
perform-Effect env (Calls.on_webrtc h c) m a =
    answers-After (Effect m) _ _ (tame m _ (webrtc_call-Tame env m a h c))
perform-Effect env (Calls.create_session h given n) m a =
    answers-After (Effect m) _ _ (tame m _ (webrtc_create_session-Tame env m a h given n))
perform-Effect env Calls.init m a =
    inl (record { next = refl; active = refl; clients = λ h e. e; webrtc_clients = λ h e. e })
perform-Effect env Calls.force_shutdown m a =
    inl (record { next = refl; active = refl; clients = λ h e. refl; webrtc_clients = λ h e. refl })
perform-Effect env Calls.is_shutdown_requested m a = inl (Tame-refl m)
perform-Effect env Calls.active_operations_count m a = inl (Tame-refl m)
perform-Effect env (Calls.cleanup locks) m a =
    answers-After (Effect m) _ _ (tame m _ (cleanup-Tame env m a locks))
