-- ===== src/Ffi/Clients.antt =====
-- ffi/net.rs: the exported functions on clients.
use device_sdk.Base.{ℕ, List, Option, none, some, Bool, true, false, ◌==◌, Text, if◌then◌else◌}
use device_sdk.Base.Results.{Result, ok, err}
use device_sdk.Common.Enums.{Protocols, webrtc}
use device_sdk.Ffi.Codes.{
  ℤ, pos, negsuc, as_u64, success, invalid_handle, invalid_param, connection_failed,
  match_protocol_enum,
}
use device_sdk.Ffi.Wrapper.{ClientWrapper, CNetResponse, Outside, get_c_response}
use device_sdk.Ffi.Wrapper
use device_sdk.Ffi.Manager.{
  Call, Run, returned, aborted, guarded, create_client, destroy_client, with_client,
}

-- A C string that is passed in: a null pointer, or the bytes up to the zero.
pub data CText : Type 0 where
  null : CText
  bytes : List ℕ → CText

abbrev pub done : {A : Type 0} → A → Call A
done a m = returned a m

-- What follows a call that returns.
abbrev pub then_code : {R : Type 0} → (Result R → ℤ) → Run (Result R) → Run ℤ
then_code code (returned r m) = returned (code r) m
then_code code aborted = aborted

abbrev pub code_of : {R : Type 0} → ℤ → Result R → ℤ
code_of failure (ok r) = success
code_of failure (err e) = failure

-- The code of a function whose client may itself report an error.
abbrev pub nested_code : Result (Result (Unit {0})) → ℤ
nested_code (ok (ok r)) = success
nested_code (ok (err e)) = connection_failed
nested_code (err e) = invalid_handle

-- `unwrap_or_default` of a handle.
abbrev pub or_zero : Run (Result ℕ) → Run ℕ
or_zero (returned (ok h) m) = returned h m
or_zero (returned (err e) m) = returned 0 m
or_zero aborted = aborted

-- A parameter that must be a text: `none` if it is null or no UTF-8.
abbrev pub text_of : (List ℕ → Option Text) → CText → Option Text
text_of to_str null = none
text_of to_str (bytes s) = to_str s

-- The checks of a handle and a text, which end in the same code.
unfoldable pub with_text : (List ℕ → Option Text) → ℕ → CText → (Text → Call ℤ) → Call ℤ
with_text to_str handle t body m =
    if handle == 0
    then returned invalid_param m
    else elim (text_of to_str t) [ none ↦ returned invalid_param m | some s ↦ body s m ]

unfoldable pub error_response : ℤ → CNetResponse
error_response code = record {
  status_code = code;
  body_ptr = none;
  body_len = pos 0;
  headers_ptr = none;
  headers_count = pos 0;
  error_ptr = none;
  error_len = pos 0;
}

module _ (out : Outside) where
  abbrev pub create_matched : Option Protocols → Call ℕ
  create_matched none m = returned 0 m
  create_matched (some webrtc) m = returned 0 m
  create_matched (some protocol) m = or_zero (create_client out protocol m)

  unfoldable pub client_create : ℤ → Call ℕ
  unfolding guarded create_client
  client_create protocol = guarded 0 (create_matched (match_protocol_enum protocol))

  abbrev pub handle_code : Run Bool → Run ℤ
  handle_code (returned true m) = returned success m
  handle_code (returned false m) = returned invalid_handle m
  handle_code aborted = aborted

  abbrev pub destroy_by : ℕ → Call ℤ
  destroy_by handle m =
      if handle == 0 then returned invalid_handle m else handle_code (destroy_client handle m)

  unfoldable pub client_destroy : ℕ → Call ℤ
  unfolding guarded destroy_client
  client_destroy handle = guarded invalid_handle (destroy_by handle)

  -- The client of the handle, changed by a setter.
  abbrev pub set_by : ℕ → (ClientWrapper → ClientWrapper) → Call ℤ
  set_by handle f m =
      then_code (code_of invalid_handle) (with_client handle (λ w. some (tt {0}, f w)) m)

  unfoldable pub client_set_url : ℕ → CText → Call ℤ
  unfolding guarded with_text with_client
  client_set_url handle url =
      guarded invalid_handle
        (with_text out.to_str handle url (λ s. set_by handle (Wrapper.set_url out s)))

  unfoldable pub client_set_method : ℕ → CText → Call ℤ
  unfolding guarded with_text with_client
  client_set_method handle method =
      guarded invalid_handle
        (with_text out.to_str handle method (λ s. set_by handle (Wrapper.set_method out s)))

  unfoldable pub client_set_user : ℕ → CText → Call ℤ
  unfolding guarded with_text with_client
  client_set_user handle username =
      guarded invalid_handle
        (with_text out.to_str handle username (λ s. set_by handle (Wrapper.set_user out s)))

  unfoldable pub client_set_password : ℕ → CText → Call ℤ
  unfolding guarded with_text with_client
  client_set_password handle password =
      guarded invalid_handle
        (with_text out.to_str handle password (λ s. set_by handle (Wrapper.set_password out s)))

  unfoldable pub client_set_req_body : ℕ → CText → Call ℤ
  unfolding guarded with_text with_client
  client_set_req_body handle body =
      guarded invalid_handle
        (with_text out.to_str handle body (λ s. set_by handle (Wrapper.set_req_body out s)))

  unfoldable pub client_set_header : ℕ → CText → CText → Call ℤ
  unfolding guarded with_text with_client
  client_set_header handle key value = guarded invalid_handle (
      with_text out.to_str handle key
        (λ k. with_text out.to_str handle value (λ v. set_by handle (Wrapper.set_header out k v))))

  abbrev pub timeout_set : ℕ → ℤ → Call ℤ
  timeout_set handle (negsuc n) m = returned invalid_param m
  timeout_set handle (pos n) m =
      if handle == 0
      then returned invalid_param m
      else set_by handle (Wrapper.set_timeout out (as_u64 (pos n))) m

  unfoldable pub client_set_timeout : ℕ → ℤ → Call ℤ
  unfolding guarded with_client
  client_set_timeout handle timeout_seconds =
      guarded invalid_handle (timeout_set handle timeout_seconds)

  abbrev pub request_by : ℕ → Call ℤ
  request_by handle m =
      if handle == 0
      then returned invalid_handle m
      else then_code nested_code (with_client handle (Wrapper.request out) m)

  unfoldable pub client_request : ℕ → Call ℤ
  unfolding guarded with_client
  client_request handle = guarded invalid_handle (request_by handle)

  abbrev pub connect_by : ℕ → Text → Call ℤ
  connect_by handle url m =
      then_code nested_code
        (with_client handle (λ w. some (Wrapper.connect out (Wrapper.set_url out url w))) m)

  unfoldable pub client_connect : ℕ → CText → Call ℤ
  unfolding guarded with_text with_client
  client_connect handle server_url =
      guarded invalid_handle (with_text out.to_str handle server_url (connect_by handle))

  abbrev pub or_error : ℤ → Run (Result CNetResponse) → Run CNetResponse
  or_error code (returned (ok c) m) = returned c m
  or_error code (returned (err e) m) = returned (error_response code) m
  or_error code aborted = aborted

  abbrev pub look : ClientWrapper → Option (CNetResponse × ClientWrapper)
  look w = some (get_c_response out w, w)

  -- The response, read from the client once more.
  abbrev pub then_response : ℕ → Run (Result (Result (Unit {0}))) → Run CNetResponse
  then_response handle (returned (ok (ok r)) m) =
      or_error invalid_handle (with_client handle look m)
  then_response handle (returned (ok (err e)) m) =
      or_error connection_failed (with_client handle look m)
  then_response handle (returned (err e) m) = returned (error_response invalid_handle) m
  then_response handle aborted = aborted

  unfoldable pub client_get_request : ℕ → Call CNetResponse
  unfolding with_client
  client_get_request handle m = then_response handle (with_client handle (Wrapper.get out) m)

  unfoldable pub client_post_request : ℕ → Call CNetResponse
  unfolding with_client
  client_post_request handle m = then_response handle (with_client handle (Wrapper.post out) m)

  unfoldable pub client_put_request : ℕ → Call CNetResponse
  unfolding with_client
  client_put_request handle m = then_response handle (with_client handle (Wrapper.put out) m)

  unfoldable pub client_delete_request : ℕ → Call CNetResponse
  unfolding with_client
  client_delete_request handle m = then_response handle (with_client handle (Wrapper.delete out) m)

  unfoldable pub client_get_response : ℕ → Call CNetResponse
  unfolding with_client
  client_get_response handle m =
      if handle == 0
      then returned (error_response invalid_handle) m
      else or_error invalid_handle (with_client handle look m)
