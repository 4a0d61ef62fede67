-- ===== src/Client/Http3.antt =====
-- crates/xrds-net/src/client/client.rs: what HTTP/3's events make of the response
-- (`handle_http3_events`). The connection is a parameter.
pub mod Exchange
pub mod Datagrams
pub mod Log
pub mod Telling
pub mod Reporting
pub mod Timing
pub mod Events
pub mod Returns
pub mod Answer
pub mod Sent
use device_sdk.Base.{
  ℕ, suc, ◌+◌, ◌<◌, List, [], ◌∷◌, ◌++◌, Option, none, some, Bool, true, false, not, ◌&&◌, Text,
  codes, same, parse_u32, to_text, leb, ltb, if◌then◌else◌,
}
use device_sdk.Base.Results.{Result, ok, err}
use device_sdk.Base.Passes.{Pass, stuck, stop, again, go, ◌>>=◌, ended, repeat}
use device_sdk.Common.Messages.{NetResponse}

-- `str::parse::<u16>`: the numbers of `u32` that 16 bits hold.
abbrev pub within_u16 : Option ℕ → Option ℕ
within_u16 none = none
within_u16 (some n) = if leb n 65535 then some n else none

unfoldable pub parse_u16 : Text → Option ℕ
parse_u16 s = within_u16 (parse_u32 s)

-- quiche's events; a header is its name and its value, in bytes.
pub data Event : Type 0 where
  headers : List (List ℕ × List ℕ) → Bool → Event
  body finished go_away other : Event
  reset : ℕ → Event

-- What `poll` gives: an event on a stream, `Error::Done`, or another error.
pub data Polled : Type 0 where
  event : ℕ → Event → Polled
  no_event : Polled
  poll_failed : Text → Polled

-- What `recv_body` gives.
pub data Chunk : Type 0 where
  read : List ℕ → Chunk
  no_data : Chunk
  read_failed : Text → Chunk

-- The HTTP/3 connection over its QUIC connection; `unread` bounds the reads of a body that still
-- give bytes, and `lossy` is `String::from_utf8_lossy`.
pub record H3 (S : Type 0) : Type 0 where
  pub poll : S → Polled × S
  pub recv_body : ℕ → S → Chunk × S
  pub unread : S → ℕ
  pub lossy : List ℕ → Text

abbrev pub status_name : Text
status_name = codes ":status"

abbrev pub or_status : Option ℕ → ℕ → ℕ
or_status none status = status
or_status (some n) status = n

unfoldable pub with_status : Text → Text → ℕ → ℕ
unfolding parse_u16
with_status name value status =
    if same name status_name then or_status (parse_u16 value) status else status

abbrev pub more : List ℕ → NetResponse → Option NetResponse
more [] r = none
more (b ∷ bytes) r = some (record r { body = r.body ++ b ∷ bytes })

unfoldable pub with_chunk : Chunk → NetResponse → Option NetResponse
with_chunk (read bytes) r = more bytes r
with_chunk no_data r = none
with_chunk (read_failed e) r = none

abbrev pub max_events_per_iteration : ℕ
max_events_per_iteration = 100

-- The variables of the loop.
pub record Handling (S : Type 0) : Type 0 where
  pub events_processed : ℕ
  pub response : NetResponse
  pub conn : S

module _ {S : Type 0} (h3 : H3 S) where
  unfoldable pub with_headers : List (List ℕ × List ℕ) → NetResponse → NetResponse
  unfolding with_status
  with_headers [] r = r
  with_headers ((n, v) ∷ list) r = with_headers list (record r {
    status_code = with_status (h3.lossy n) (h3.lossy v) r.status_code;
    headers = r.headers ++ (h3.lossy n, h3.lossy v) ∷ [];
  })

  abbrev pub read_pass : Option NetResponse → NetResponse → S → Pass (Unit {0}) (NetResponse × S)
  read_pass none r s = stop tt (r, s)
  read_pass (some r') r s = go (r', s)

  unfoldable pub read_chunk : ℕ → NetResponse × S → Pass (Unit {0}) (NetResponse × S)
  unfolding with_chunk
  read_chunk stream (r, s) =
      let (chunk, s') = h3.recv_body stream s in read_pass (with_chunk chunk r) r s'

  -- `Event::Data`: the body is read until there is none.
  unfoldable pub read_body : ℕ → NetResponse → S → Option (Unit {0} × (NetResponse × S))
  unfolding read_chunk
  read_body stream r s = repeat (read_chunk stream) (suc (h3.unread s)) (r, s)

  abbrev pub Handled : Type 0
  Handled = Pass (Result Bool) (Handling S)

  abbrev pub counted : ℕ → NetResponse → S → Handling S
  counted n r s = record { events_processed = n; response = r; conn = s }

  abbrev pub headers_done : Bool → ℕ → NetResponse → S → Handled
  headers_done more_frames n r s =
      if not more_frames && ltb 0 r.status_code
      then stop (ok true) (counted n r s)
      else go (counted n r s)

  -- `n` counts this event.
  unfoldable pub handle_event : ℕ → Event → ℕ → NetResponse → S → Handled
  unfolding with_headers read_body
  handle_event stream (headers list more_frames) n r s =
      headers_done more_frames n (with_headers list r) s
  handle_event stream body n r s =
      ended (read_body stream r s) (λ done now. go (counted n now.0 now.1))
  handle_event stream finished n r s = stop (ok true) (counted n r s)
  handle_event stream (reset code) n r s =
      stop (err (codes "Stream reset with error: " ++ to_text code)) (counted n r s)
  handle_event stream go_away n r s =
      if ltb 0 r.status_code
      then stop (ok true) (counted n r s)
      else stop (err (codes "Server sent GoAway")) (counted n r s)
  handle_event stream other n r s = go (counted n r s)

  unfoldable pub handle_polled : Polled → ℕ → NetResponse → S → Handled
  unfolding handle_event
  handle_polled (event stream e) n r s = handle_event stream e (suc n) r s
  handle_polled no_event n r s = stop (ok false) (counted n r s)
  handle_polled (poll_failed e) n r s =
      stop (err (codes "HTTP/3 poll failed: " ++ e)) (counted n r s)

  unfoldable pub handle_next : Handling S → Handled
  unfolding handle_polled
  handle_next h =
      let (polled, s) = h3.poll h.conn in
      if ltb h.events_processed max_events_per_iteration
      then handle_polled polled h.events_processed h.response s
      else stop (ok false) h

  unfoldable pub handle_http3_events : NetResponse → S → Option (Result Bool × Handling S)
  unfolding handle_next
  handle_http3_events r s = repeat handle_next (suc max_events_per_iteration) (counted 0 r s)
