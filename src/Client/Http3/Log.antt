-- ===== src/Client/Http3/Log.antt =====
-- crates/xrds-net/src/client/client.rs: what an HTTP/3 connection hands over, and the response that
-- reports it.
use device_sdk.Base.{
  ℕ, List, [], ◌∷◌, ◌++◌, Option, none, some, ◌≡◌, arith, Text, Dict, same, map, if◌then◌else◌,
}
use device_sdk.Common.Messages.{NetResponse}
use device_sdk.Client.Http3.{
  H3, Event, headers, body, finished, go_away, other, reset, Polled, event, no_event, poll_failed,
  Chunk, read, no_data, read_failed, with_status, or_status, parse_u16, status_name,
}

-- The header fields and the bytes of a connection's answer.
pub record Heard : Type 0 where
  pub fields : List (List ℕ × List ℕ)
  pub bytes : List ℕ

abbrev pub event_fields : Event → List (List ℕ × List ℕ)
event_fields (headers list more_frames) = list
event_fields body = []
event_fields finished = []
event_fields go_away = []
event_fields other = []
event_fields (reset code) = []

abbrev pub polled_fields : Polled → List (List ℕ × List ℕ)
polled_fields (event stream e) = event_fields e
polled_fields no_event = []
polled_fields (poll_failed e) = []

abbrev pub chunk_bytes : Chunk → List ℕ
chunk_bytes (read bytes) = bytes
chunk_bytes no_data = []
chunk_bytes (read_failed e) = []

-- The last status of the fields that is a number.
abbrev pub last_status : Dict Text → Option ℕ
last_status [] = none
last_status ((n, v) ∷ hs) = elim (last_status hs) [
  | some status ↦ some status
  | none ↦ if same n status_name then parse_u16 v else none
]

abbrev pub texts : (List ℕ → Text) → List (List ℕ × List ℕ) → Dict Text
texts lossy = map (λ h. (lossy h.0, lossy h.1))

-- The response says what was heard.
pub record Reports (lossy : List ℕ → Text) (h : Heard) (r : NetResponse) : Type 0 where
  pub headers : r.headers ≡ texts lossy h.fields
  pub body : r.body ≡ h.bytes
  pub status : r.status_code ≡ or_status (last_status r.headers) 0

-- The later of two statuses.
abbrev pub later : Option ℕ → Option ℕ → Option ℕ
later (some status) earlier = some status
later none earlier = earlier

abbrev pub status_at : Text → Text → Option ℕ
status_at n v = if same n status_name then parse_u16 v else none

pub last_status-append :
    (hs : Dict Text) (n v : Text)
    → last_status (hs ++ (n, v) ∷ []) ≡ later (status_at n v) (last_status hs)
last_status-append [] n v = ground arith
last_status-append ((m, w) ∷ hs) n v = ground (arith, last_status-append hs n v)

pub or_status-later :
    (n v : Text) (o : Option ℕ)
    → or_status (later (status_at n v) o) 0 ≡ with_status n v (or_status o 0)
unfolding with_status
or_status-later n v o = ground arith

-- A connection with the log of what it has handed over.
pub record Log {S : Type 0} (h3 : H3 S) : Type 0 where
  pub heard : S → Heard
  pub poll_heard :
      (s : S)
      → heard (h3.poll s).1
        ≡ record (heard s) { fields = (heard s).fields ++ polled_fields (h3.poll s).0 }
  pub body_heard :
      (stream : ℕ) (s : S)
      → heard (h3.recv_body stream s).1
        ≡ record (heard s) { bytes = (heard s).bytes ++ chunk_bytes (h3.recv_body stream s).0 }
