-- ===== src/Client/Http3/Exchange.antt =====
-- crates/xrds-net/src/client/client.rs: `request_http3`, from the URL to the response. A panic is a result.
use device_sdk.Base.{
  ℕ, ◌+◌, ◌-◌, ◌*◌, List, [], ◌∷◌, Option, none, some, Bool, true, false, not, ◌&&◌, ◌||◌, Text,
  codes, starts_with, ltb, ◌==◌, if◌then◌else◌,
}
use device_sdk.Base.Results.{Result, ok, err}
use device_sdk.Base.Passes.{Pass, stop, again, go, ◌>>=◌, ended, repeat}
use device_sdk.Common.Enums.{http3}
use device_sdk.Common.Messages.{NetResponse, XrUrl}
use device_sdk.Common.Headers.{fill_mandatory_http_headers}
use device_sdk.Client.Settings.{Client}
use device_sdk.Client.Http3.Datagrams.{Quic, send_packet, receive_packets}
use device_sdk.Client.Http3.{handle_http3_events}

-- `str::contains`.
unfoldable pub mentions : Text → Text → Bool
mentions word [] = starts_with word []
mentions word (c ∷ s) = starts_with word (c ∷ s) || mentions word s

abbrev pub seconds : ℕ → ℕ
seconds n = n * 1_000_000_000

-- A pass for every nanosecond of the 30 seconds, one for the start and one for the end.
abbrev pub passes : ℕ
passes = seconds 30 + 2

-- The variables of `request_http3`'s loop.
pub record Exchange (S : Type 0) : Type 0 where
  pub conn : S
  pub connected : Bool
  pub is_exit : Bool
  pub handshake_completed : Bool
  pub connection_established : Bool
  pub req_sent : Bool
  pub request_sent_time : Option ℕ
  pub response : NetResponse

-- A response or a panic.
pub data Reply : Type 0 where
  replied : NetResponse → Reply
  panicked : Reply

abbrev pub no_response : NetResponse
no_response = record { protocol = http3; status_code = 0; headers = []; body = []; error = none }

module _ {D S : Type 0} (quic : Quic D S) where
  abbrev pub Step : Type 0
  Step = Pass (Unit {0}) (Exchange S)

  abbrev pub fail : Text → Exchange S → Step
  fail e x = stop tt (record x { response = record x.response { error = some e } })

  -- `from.elapsed() > limit`.
  abbrev pub elapsed_over : ℕ → ℕ → S → Bool
  elapsed_over from limit s = ltb limit (quic.now s - from)

  -- The limits at the top of the loop; `start` and `opened` are the times before and after the set-up.
  unfoldable pub check_limits : ℕ → ℕ → Exchange S → Step
  check_limits start opened x =
      if elapsed_over start (seconds 30) x.conn
      then fail (codes "Request timed out after 30 seconds") x
      else if x.is_exit
      then stop tt x
      else if not x.handshake_completed && elapsed_over opened (seconds 20) x.conn
      then fail (codes "QUIC handshake timeout - check server availability") x
      else if x.handshake_completed
          && not x.connection_established
          && elapsed_over opened (seconds 25) x.conn
      then fail (codes "HTTP/3 connection establishment timeout") x
      else go x

  -- Milliseconds.
  abbrev pub is_unsent : Option ℕ → Bool
  is_unsent none = true
  is_unsent (some t) = false

  unfoldable pub poll_timeout : Exchange S → ℕ
  poll_timeout x =
      if not x.handshake_completed
      then 100
      else if not x.connection_established || is_unsent x.request_sent_time
      then 50
      else 500

  unfoldable pub poll_events : Exchange S → Step
  unfolding poll_timeout
  poll_events x =
      let (fine, s) = quic.poll (poll_timeout x) x.conn in
      if fine
      then go (record x { conn = s })
      else fail (codes "Polling error") (record x { conn = s })

  unfoldable pub check_handshake : Exchange S → Step
  check_handshake x =
      if not x.handshake_completed && quic.is_established x.conn
      then go (record x { handshake_completed = true })
      else go x

  -- An error is recorded, unless its text says that it passes.
  abbrev pub unless_passing : Result (Unit {0}) → Exchange S → Step
  unless_passing (ok done) x = go x
  unless_passing (err e) x =
      if not (mentions (codes "would block") e) && not (mentions (codes "Done") e)
      then fail e x
      else go x

  unfoldable pub receive : Exchange S → Step
  unfolding receive_packets mentions
  receive x =
      ended (receive_packets quic x.connected x.conn)
        (λ got now. unless_passing got (record x { connected = now.0; conn = now.1 }))

  -- A request that is refused for now is tried again in the next pass.
  abbrev pub requested : Result (Unit {0}) → Exchange S → Step
  requested (ok done) x =
      go (record x { req_sent = true; request_sent_time = some (quic.now x.conn) })
  requested (err e) x =
      if mentions (codes "stream limit") e || mentions (codes "would block") e
      then again x
      else fail e x

  unfoldable pub send_http3_request : List (Text × Text) → Exchange S → Step
  unfolding mentions
  send_http3_request headers x =
      let (sent, s) = quic.send_request headers x.conn in
      if x.req_sent then go x else requested sent (record x { conn = s })

  abbrev pub late : Option ℕ → S → Bool
  late none s = false
  late (some t) s = elapsed_over t (seconds 30) s

  unfoldable pub check_response : Exchange S → Step
  check_response x =
      if late x.request_sent_time x.conn
      then fail (codes "Response timeout after 30 seconds") x
      else go x

  abbrev pub exiting : Result Bool → Exchange S → Exchange S
  exiting (ok exit) x = record x { is_exit = exit }
  exiting (err e) x = record x { is_exit = true; response = record x.response { error = some e } }

  unfoldable pub take_events : Exchange S → Step
  unfolding handle_http3_events
  take_events x =
      ended (handle_http3_events quic.h3 x.response x.conn)
        (λ got h. go (exiting got (record x { conn = h.conn; response = h.response })))

  -- What the loop does with an HTTP/3 connection.
  unfoldable pub over_http3 : List (Text × Text) → Exchange S → Step
  unfolding send_http3_request check_response take_events
  over_http3 headers x = do
    x ← send_http3_request headers (record x { connection_established = true })
    x ← check_response x
    take_events x

  unfoldable pub respond : List (Text × Text) → Exchange S → Step
  unfolding over_http3
  respond headers x = if x.connected then over_http3 headers x else go x

  unfoldable pub send_packets : Exchange S → Step
  unfolding send_packet mentions
  send_packets x =
      ended (send_packet quic x.conn) (λ sent s. unless_passing sent (record x { conn = s }))

  abbrev pub is_empty : List ℕ → Bool
  is_empty [] = true
  is_empty (b ∷ bytes) = false

  unfoldable pub check_closed : Exchange S → Step
  check_closed x =
      if quic.is_closed x.conn
      then (if x.response.status_code == 0 && is_empty x.response.body
          then fail (codes "Connection closed without receiving response") x
          else stop tt x)
      else if quic.is_draining x.conn && ltb 0 x.response.status_code
      then stop tt x
      else go x

  -- One pass of the loop.
  unfoldable pub exchange_pass : ℕ → ℕ → List (Text × Text) → Exchange S → Step
  unfolding check_limits poll_events check_handshake receive respond send_packets check_closed
  exchange_pass start opened headers x = do
    x ← check_limits start opened x
    x ← poll_events x
    x ← check_handshake x
    x ← receive x
    x ← respond headers x
    x ← send_packets x
    check_closed x

  abbrev pub started : S → Exchange S
  started s = record {
    conn = s;
    connected = false;
    is_exit = false;
    handshake_completed = false;
    connection_established = false;
    req_sent = false;
    request_sent_time = none;
    response = no_response;
  }

  unfoldable pub exchange : ℕ → List (Text × Text) → S → Option (Unit {0} × Exchange S)
  unfolding exchange_pass
  exchange start headers s = repeat (exchange_pass start (quic.now s) headers) passes (started s)

  abbrev pub reply_of : Option (Unit {0} × Exchange S) → Option Reply
  reply_of none = none
  reply_of (some (done, x)) = some (replied x.response)

  -- The set-up's last step.
  abbrev pub first_send : ℕ → List (Text × Text) → Option (Result (Unit {0}) × S) → Option Reply
  first_send start headers none = none
  first_send start headers (some (err e, s)) = some panicked
  first_send start headers (some (ok done, s)) = reply_of (exchange start headers s)

  abbrev pub opened : ℕ → List (Text × Text) → Option S → Option Reply
  opened start headers none = some panicked
  opened start headers (some s) = first_send start headers (send_packet quic s)

  abbrev pub request_url : ℕ → Client → Option XrUrl → Option Reply
  request_url start c none = some panicked
  request_url start c (some url) =
      opened start (fill_mandatory_http_headers url c.req_headers c.method) (quic.open_socket url)

  -- `none`: a loop has run out of its fuel. `start` is the time of the call.
  unfoldable pub request_http3 : ℕ → Client → Option Reply
  unfolding exchange send_packet
  request_http3 start c = request_url start c c.url
