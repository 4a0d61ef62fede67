-- ===== src/Tests/Ffi.antt =====
-- A C program that makes a client, uses it, and destroys it.
use device_sdk.Base.{
  ℕ, List, [], ◌∷◌, none, some, true, false, ◌≡◌, ◌↔◌, ◌<◌, inr, refl, arith, codes,
}
use device_sdk.Base.Results
use device_sdk.Common.Enums.{http}
use device_sdk.Common.Messages.{NetResponse}
use device_sdk.Client.Settings.{build, new_builder, set_protocol}
use device_sdk.Ffi.Codes.{pos, success}
use device_sdk.Ffi.Wrapper.{
  Outside, ClientWrapper, new_wrapper, has_nul, store_response, get_c_response,
}
use device_sdk.Ffi.Wrapper.Reading.{
  read, read_headers, get_c_response-store_response, get_c_response-body_iff,
}
use device_sdk.Ffi.Manager.{NetManager, new, returned, put}
use device_sdk.Ffi.Clients.{bytes, client_destroy}
use device_sdk.Ffi.Sessions.{Surroundings}
use device_sdk.Ffi.Calls.{
  Exported, OnClient, create, webrtc_create, on_client, unguarded, get_request, set_url,
  force_shutdown, Answer, perform, client_call,
}
use device_sdk.Ffi.Calls.Keeps.{After}
use device_sdk.Ffi.Calls.Sequences.{IsValid, perform_all, perform_all-IsValid}
use device_sdk.Ffi.Calls.Refusals.{refusal, perform_all-refusal}
use device_sdk.Ffi.Calls.Unknown.{Refused}
use device_sdk.Ffi.Calls.Destroyed.{client_destroy-Refused}
use device_sdk.Tests.RtcClient.{peer}

abbrev out : Outside
out = record {
  as_bytes = λ t. t;
  to_str = λ s. some s;
  upper = λ t. t;
  id = λ n. [];
  network = record {
    perform = λ r. Results.err (codes "no route");
    coap_get = λ t. Results.err (codes "no route");
    from_utf8 = λ s. some s;
  };
  request_http3 = λ c. none;
  open_connection = λ h. Results.err (codes "no route");
}

abbrev env : Surroundings
env = record { out = out; peer = peer; arriving = λ url. []; opened = λ s. none }

abbrev program : List Exported
program =
    create (pos 0)
    ∷ webrtc_create
    ∷ on_client 1 (set_url (bytes (codes "http://a/")))
    ∷ unguarded 1 get_request
    ∷ on_client 1 OnClient.destroy
    ∷ force_shutdown
    ∷ []

perform_all-IsValid_example :
    After (λ m. IsValid m × (m.active_operations ≡ 0)) (perform_all env program new)
perform_all-IsValid_example = perform_all-IsValid env program (omega arith)

abbrev wrapper : ClientWrapper
wrapper = new_wrapper (build [] (set_protocol http new_builder))

-- A manager with one client, of handle 1.
abbrev manager : NetManager
manager = record {
  clients = put 1 (some wrapper) (λ h. none);
  webrtc_clients = λ h. none;
  next_handle_id = 2;
  shutdown_flag = false;
  active_operations = 0;
}

manager-IsValid : IsValid manager
manager-IsValid = record {
  positive = omega arith;
  zero_free = (refl, refl);
  fresh = λ h l. (ground (arith, l), refl);
  apart = λ h. inr refl;
}

abbrev emptied : NetManager
emptied = record manager { clients = put 1 none (put 1 (some wrapper) (λ h. none)) }

destroys : client_destroy out 1 manager ≡ returned success emptied
unfolding client_destroy
destroys = refl

client_destroy-Refused_example :
    After
      (λ d. (c : OnClient) → Refused d (client_call env 1 c d))
      (perform_all env program emptied)
client_destroy-Refused_example =
    client_destroy-Refused env 1 manager emptied program manager-IsValid (omega arith) (omega arith)
      destroys

perform_all-refusal_example :
    After
      (λ d. (c : Exported) (a : Answer) → refusal c ≡ some a → (perform env c d ≡ returned a d))
      (perform_all env (force_shutdown ∷ unguarded 1 get_request ∷ webrtc_create ∷ []) manager)
perform_all-refusal_example =
    perform_all-refusal env force_shutdown (unguarded 1 get_request ∷ webrtc_create ∷ []) manager
      refl (refl, (refl, tt))

abbrev answered : List ℕ → NetResponse
answered body = record {
  protocol = http;
  status_code = 200;
  headers = (codes "a", codes "b") ∷ [];
  body = body;
  error = none;
}

get_c_response-store_response_example :
    let c = get_c_response out (store_response out (answered (codes "hello")) wrapper) in
    (c.status_code ≡ pos 200)
    × (read c.body_ptr c.body_len ≡ some (codes "hello"))
    × (read_headers c.headers_ptr c.headers_count
        ≡ some ((some (codes "a"), some (codes "b")) ∷ []))
    × (read c.error_ptr c.error_len ≡ some [])
unfolding has_nul
get_c_response-store_response_example =
    get_c_response-store_response out (answered (codes "hello")) wrapper (omega arith)
      (refl, omega arith) (omega arith) (((refl, omega arith), (refl, omega arith)), tt) tt

-- A body of 41 bytes that starts with a zero.
abbrev long_body : List ℕ
long_body = 0 ∷ codes "0123456789012345678901234567890123456789"

get_c_response-body_iff_example :
    let c = get_c_response out (store_response out (answered long_body) wrapper) in
    (read c.body_ptr c.body_len ≡ none) ↔ ((has_nul long_body ≡ true) × (31 < 41))
get_c_response-body_iff_example =
    get_c_response-body_iff out (answered long_body) wrapper (omega arith)
