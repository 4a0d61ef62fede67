-- ===== src/Ffi/Manager.antt =====
-- ffi/net.rs: `NetManager`, the handles it gives out, and the guard of an operation. A call of the
-- interface runs from its start to its end: the counters and maps are not seen half-way.
use device_sdk.Base.{
  ℕ, ◌+◌, ◌-◌, ◌%◌, ◌^◌, Option, none, some, Bool, true, false, ◌==◌, Text, codes, if◌then◌else◌,
}
use device_sdk.Base.Results.{Result, ok, err}
use device_sdk.Common.Enums.{Protocols}
use device_sdk.Client.Settings.{build, set_protocol, new_builder}
use device_sdk.RtcClient.State.{RtcClient}
use device_sdk.RtcClient.State
use device_sdk.Ffi.Wrapper.{ClientWrapper, new_wrapper, Outside}

-- The maps of the clients are functions of the handle.
pub record NetManager : Type 0 where
  pub clients : ℕ → Option ClientWrapper
  pub webrtc_clients : ℕ → Option RtcClient
  pub next_handle_id : ℕ
  pub shutdown_flag : Bool
  pub active_operations : ℕ

unfoldable pub new : NetManager
new = record {
  clients = λ h. none;
  webrtc_clients = λ h. none;
  next_handle_id = 1;
  shutdown_flag = false;
  active_operations = 0;
}

-- A call that returns, or that panics, which aborts the process.
pub data Run (A : Type 0) : Type 0 where
  returned : A → NetManager → Run A
  aborted : Run A

abbrev pub Call : Type 0 → Type 0
Call A = NetManager → Run A

-- `HashMap::insert` and `HashMap::remove`.
abbrev pub put : {A : Type 0} → ℕ → Option A → (ℕ → Option A) → ℕ → Option A
put handle entry map h = if h == handle then entry else map h

-- `fetch_add` and `fetch_sub` of one on a `usize`.
abbrev pub up : ℕ → ℕ
up n = (n + 1) % 2 ^ 64

abbrev pub down : ℕ → ℕ
down n = (n + (2 ^ 64 - 1)) % 2 ^ 64

unfoldable pub create_client : Outside → Protocols → Call (Result ℕ)
create_client out protocol m =
    if m.shutdown_flag
    then returned (err (codes "Shutdown in progress")) m
    else returned (ok m.next_handle_id) (record m {
      next_handle_id = up m.next_handle_id;
      clients =
          put m.next_handle_id
            (some
              (new_wrapper (build (out.id m.next_handle_id) (set_protocol protocol new_builder))))
            m.clients;
    })

unfoldable pub create_webrtc_client : Call (Result ℕ)
create_webrtc_client m =
    if m.shutdown_flag
    then returned (err (codes "Shutdown in progress")) m
    else returned (ok m.next_handle_id) (record m {
      next_handle_id = up m.next_handle_id;
      webrtc_clients = put m.next_handle_id (some State.new) m.webrtc_clients;
    })

abbrev pub is_some : {A : Type 0} → Option A → Bool
is_some none = false
is_some (some a) = true

unfoldable pub destroy_client : ℕ → Call Bool
destroy_client handle m =
    returned (is_some (m.clients handle)) (record m { clients = put handle none m.clients })

unfoldable pub destroy_webrtc_client : ℕ → Call Bool
destroy_webrtc_client handle m =
    returned (is_some (m.webrtc_clients handle))
      (record m { webrtc_clients = put handle none m.webrtc_clients })

abbrev pub no_client : Text
no_client = codes "Invalid handle"

-- `f` gives its result and the client as it leaves it, or `none` where it panics.
unfoldable pub with_client :
    {R : Type 0} → ℕ → (ClientWrapper → Option (R × ClientWrapper)) → Call (Result R)
with_client handle f m = elim (m.clients handle) [
  | none ↦ returned (err no_client) m
  | some w ↦ elim (f w) [
    | none ↦ aborted
    | some (r, w') ↦ returned (ok r) (record m { clients = put handle (some w') m.clients })
  ]
]

abbrev pub kept : {R : Type 0} → NetManager → ℕ → State.Run R → Run (Result R)
kept m handle (State.ok r c) =
    returned (ok r) (record m { webrtc_clients = put handle (some c) m.webrtc_clients })
kept m handle (State.err e c) =
    returned (err e) (record m { webrtc_clients = put handle (some c) m.webrtc_clients })
kept m handle (State.panicked c) = aborted

-- The block of the WebRTC functions: the client of the handle runs `f`.
unfoldable pub with_webrtc_client : {R : Type 0} → ℕ → (RtcClient → State.Run R) → Call (Result R)
with_webrtc_client handle f m = elim (m.webrtc_clients handle) [
  | none ↦ returned (err no_client) m
  | some c ↦ kept m handle (f c)
]

abbrev pub increment_operations : NetManager → NetManager
increment_operations m = record m { active_operations = up m.active_operations }

abbrev pub decrement_operations : NetManager → NetManager
decrement_operations m = record m { active_operations = down m.active_operations }

abbrev pub dropped : {A : Type 0} → Run A → Run A
dropped (returned a m) = returned a (decrement_operations m)
dropped aborted = aborted

-- A body under an `OperationGuard`, which is refused after a shutdown.
unfoldable pub guarded : {A : Type 0} → A → Call A → Call A
guarded refusal body m =
    if m.shutdown_flag then returned refusal m else dropped (body (increment_operations m))
