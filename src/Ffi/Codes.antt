-- ===== src/Ffi/Codes.antt =====
-- ffi/net.rs: C integers, the codes of the interface, and its numbers for protocols.
use device_sdk.Base.{
  ℕ, ◌-◌, ◌%◌, ◌==◌, ◌^◌, Option, none, some, ◌≡◌, refl, ltb, Text, codes, if◌then◌else◌,
}
use device_sdk.Common.Enums.{
  Protocols, http, https, file, coap, mqtt, ftp, sftp, ws, wss, webrtc, http3, quic,
}

-- A `c_int`: `pos n` is n, and `negsuc n` is -1 - n.
pub data ℤ : Type 0 where
  pos negsuc : ℕ → ℤ

-- `as c_int` of an unsigned integer: the lowest 32 bits, in two's complement.
abbrev pub signed : ℕ → ℤ
signed k = if ltb k (2 ^ 31) then pos k else negsuc (2 ^ 32 - 1 - k)

unfoldable pub as_c_int : ℕ → ℤ
as_c_int n = signed (n % 2 ^ 32)

-- `as u64` and `as usize`, and `as u32`, of a `c_int`.
unfoldable pub as_u64 : ℤ → ℕ
as_u64 (pos n) = n
as_u64 (negsuc n) = 2 ^ 64 - 1 - n

unfoldable pub as_u32 : ℤ → ℕ
as_u32 (pos n) = n
as_u32 (negsuc n) = 2 ^ 32 - 1 - n

abbrev pub success : ℤ
success = pos 0

abbrev pub invalid_handle : ℤ
invalid_handle = negsuc 0

abbrev pub invalid_param : ℤ
invalid_param = negsuc 1

abbrev pub connection_failed : ℤ
connection_failed = negsuc 2

abbrev pub timeout : ℤ
timeout = negsuc 3

abbrev pub session_failed : ℤ
session_failed = negsuc 4

abbrev pub stream_failed : ℤ
stream_failed = negsuc 5

unfoldable pub get_error_cstring : ℤ → Text
get_error_cstring (pos n) = if n == 0 then codes "Success" else codes "Unknown error"
get_error_cstring (negsuc n) =
    if n == 0
    then codes "Invalid handle"
    else if n == 1
    then codes "Invalid parameter"
    else if n == 2
    then codes "Connection failed"
    else if n == 3
    then codes "Operation timed out"
    else if n == 4
    then codes "Session operation failed"
    else if n == 5
    then codes "Stream operation failed"
    else codes "Unknown error"

unfoldable pub match_protocol_enum : ℤ → Option Protocols
match_protocol_enum (negsuc n) = none
match_protocol_enum (pos n) =
    if n == 0
    then some http
    else if n == 1
    then some https
    else if n == 2
    then some file
    else if n == 3
    then some coap
    else if n == 4
    then some mqtt
    else if n == 5
    then some ftp
    else if n == 6
    then some sftp
    else if n == 7
    then some ws
    else if n == 8
    then some wss
    else if n == 9
    then some webrtc
    else if n == 10
    then some http3
    else if n == 11
    then some quic
    else none

-- The place of a protocol in the enumeration.
abbrev pub index : Protocols → ℕ
index http = 0
index https = 1
index file = 2
index coap = 3
index mqtt = 4
index ftp = 5
index sftp = 6
index ws = 7
index wss = 8
index webrtc = 9
index http3 = 10
index quic = 11

index_matched : (p : Protocols) → match_protocol_enum (pos (index p)) ≡ some p
unfolding match_protocol_enum
index_matched http = refl
index_matched https = refl
index_matched file = refl
index_matched coap = refl
index_matched mqtt = refl
index_matched ftp = refl
index_matched sftp = refl
index_matched ws = refl
index_matched wss = refl
index_matched webrtc = refl
index_matched http3 = refl
index_matched quic = refl
