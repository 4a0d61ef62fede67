-- ===== src/Ffi/Calls/Unknown.antt =====
-- A handle that names no client: what the functions on it answer.
use device_sdk.Base.{
  ℕ, ◌^◌, ◌<◌, Option, none, some, Bool, true, false, ◌≡◌, refl, ap, ◌∙◌, arith, ◌==◌, Text,
  if◌then◌else◌,
}
use mathlib.Core.Path.{fun_ext}
use device_sdk.Ffi.Codes.{ℤ, pos, negsuc, invalid_handle, invalid_param}
use device_sdk.Ffi.Wrapper.{Outside, ClientWrapper}
use device_sdk.Ffi.Manager.{
  NetManager, Call, Run, returned, put, guarded, dropped, increment_operations,
  decrement_operations, is_some, destroy_client,
}
use device_sdk.Ffi.Clients
use device_sdk.Ffi.Wrapper
use device_sdk.Ffi.Clients.{
  text_of, then_code, nested_code, CText, set_by, with_text, create_matched, or_zero, timeout_set,
  client_create, client_destroy, client_set_url, client_set_method, client_set_user,
  client_set_password, client_set_req_body, client_set_header, client_set_timeout, client_request,
  client_connect, client_get_request, client_post_request, client_put_request,
  client_delete_request, client_get_response,
}
use device_sdk.Ffi.Sessions.{Surroundings}
use device_sdk.Ffi.Calls
use device_sdk.Ffi.Calls.{
  Exported, OnClient, Unguarded, OnWebRtc, Answer, answers, perform, client_call, unguarded_call,
  webrtc_call,
}
use device_sdk.Ffi.Calls.Around.{down-up_same}
use device_sdk.Ffi.Calls.Keeps.{with_client_unknown}

-- The call answers an error, which is negative, and leaves the manager as it was.
abbrev pub Refused : NetManager → Run ℤ → Type 0
Refused m r = (n : ℕ) × (r ≡ returned (negsuc n) m)

if_Refused :
    (m : NetManager) (b : Bool) (r s : Run ℤ)
    → Refused m r
    → Refused m s
    → Refused m (if b then r else s)
if_Refused m true r s p q = p
if_Refused m false r s p q = q

text-Refused :
    (m : NetManager) (t : Option Text) (body : Text → Run ℤ)
    → ((s : Text) → Refused m (body s))
    → Refused m (elim t [ none ↦ returned invalid_param m | some s ↦ body s ])
text-Refused m none body q = (1, refl)
text-Refused m (some s) body q = q s

restored :
    (m : NetManager)
    → m.active_operations < 2 ^ 64
    → decrement_operations (increment_operations m) ≡ m
restored m a =
    ap {B = NetManager} (λ n. record m { active_operations = n })
      (down-up_same _ m.active_operations refl a)

-- Removing what is not there.
put-unknown :
    {A : Type 0} (h : ℕ) (map : ℕ → Option A) → map h ≡ none → (k : ℕ) → put h none map k ≡ map k
put-unknown h map e k = ground (arith, e)

module _ (env : Surroundings) (h : ℕ) where
  abbrev pub Unknown : NetManager → Type 0
  Unknown m = m.clients h ≡ none

  abbrev Refuses : Call ℤ → Type 0
  Refuses body = (m : NetManager) → Unknown m → Refused m (body m)

  with_text-Refuses :
      (t : CText) (body : Text → Call ℤ)
      → ((s : Text) → Refuses (body s))
      → Refuses (with_text env.out.to_str h t body)
  unfolding with_text
  with_text-Refuses t body k m u =
      if_Refused m (h == 0) _ _ (1, refl)
        (text-Refused m (text_of env.out.to_str t) (λ s. body s m) (λ s. k s m u))

  guarded-Refuses :
      (body : Call ℤ)
      → Refuses body
      → (m : NetManager) → m.active_operations < 2 ^ 64
      → Unknown m
      → Refused m (guarded invalid_handle body m)
  unfolding guarded
  guarded-Refuses body k m a u =
      let (n, e) = k (increment_operations m) u in
      if_Refused m m.shutdown_flag _ _ (0, refl)
        (n, ap dropped e ∙ ap (returned (negsuc n)) (restored m a))

  set_by-Refuses : (f : ClientWrapper → ClientWrapper) → Refuses (set_by env.out h f)
  set_by-Refuses f m u = (0, ap (then_code _) (with_client_unknown h _ m u))

  connect_by-Refuses : (url : Text) → Refuses (Clients.connect_by env.out h url)
  connect_by-Refuses url m u = (0, ap (then_code nested_code) (with_client_unknown h _ m u))

  request_by-Refuses : Refuses (Clients.request_by env.out h)
  request_by-Refuses m u =
      if_Refused m (h == 0) _ _ (0, refl)
        (0, ap (then_code nested_code) (with_client_unknown h _ m u))

  timeout_set-Refuses : (n : ℤ) → Refuses (timeout_set env.out h n)
  timeout_set-Refuses (negsuc n) m u = (1, refl)
  timeout_set-Refuses (pos n) m u = if_Refused m (h == 0) _ _ (1, refl) (set_by-Refuses _ m u)

  destroy_by-Unknown :
      (m : NetManager)
      → Unknown m
      → Clients.handle_code env.out (destroy_client h m) ≡ returned invalid_handle m
  unfolding destroy_client
  destroy_by-Unknown m u =
      ap
        (λ o.
          Clients.handle_code env.out
            (returned (is_some o) (record m { clients = put h none m.clients })))
        u
      ∙ ap (λ f. returned invalid_handle (record m { clients = f }))
          (fun_ext (put-unknown h m.clients u))

  destroy_by-Refuses : Refuses (Clients.destroy_by env.out h)
  destroy_by-Refuses m u = if_Refused m (h == 0) _ _ (0, refl) (0, destroy_by-Unknown m u)

  module _ (m : NetManager) (a : m.active_operations < 2 ^ 64) (u : Unknown m) where
    set_text-Refused :
        (t : CText) (f : Text → ClientWrapper → ClientWrapper)
        → Refused m
            (guarded invalid_handle (with_text env.out.to_str h t (λ s. set_by env.out h (f s))) m)
    set_text-Refused t f =
        guarded-Refuses _ (with_text-Refuses t _ (λ s. set_by-Refuses (f s))) m a u

    pub client_call-Refused : (c : OnClient) → Refused m (client_call env h c m)
    unfolding client_destroy client_set_url client_set_method client_set_user client_set_password
        client_set_req_body client_set_header client_set_timeout client_request client_connect
    client_call-Refused OnClient.destroy = guarded-Refuses _ destroy_by-Refuses m a u
    client_call-Refused Calls.request = guarded-Refuses _ request_by-Refuses m a u
    client_call-Refused (Calls.set_url t) = set_text-Refused t _
    client_call-Refused (Calls.set_method t) = set_text-Refused t _
    client_call-Refused (Calls.set_user t) = set_text-Refused t _
    client_call-Refused (Calls.set_password t) = set_text-Refused t _
    client_call-Refused (Calls.set_req_body t) = set_text-Refused t _
    client_call-Refused (Calls.connect t) =
        guarded-Refuses _ (with_text-Refuses t _ connect_by-Refuses) m a u
    client_call-Refused (Calls.set_header k v) =
        guarded-Refuses _
          (with_text-Refuses k _
            (λ s. with_text-Refuses v _ (λ t. set_by-Refuses (Wrapper.set_header env.out s t))))
          m a u
    client_call-Refused (Calls.set_timeout n) = guarded-Refuses _ (timeout_set-Refuses n) m a u
