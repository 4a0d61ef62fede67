-- ===== src/Client/Http3/Sent.antt =====
-- crates/xrds-net/src/client/client.rs: what `request_http3` gives before its request is sent.
use device_sdk.Base.{ℕ, List, [], none, Bool, true, false, ◌≡◌, ◌⊎◌, inl, inr, refl, arith, Text}
use device_sdk.Base.Results.{Result, ok, err}
use device_sdk.Base.Passes.{
  Pass, ◌>>=◌, Ends, After, bind-Ends, ended-Ends_any, if-Ends, repeat-After,
}
use device_sdk.Client.Http3.{handle_http3_events}
use device_sdk.Client.Http3.Datagrams.{Quic, receive_packets, send_packet}
use device_sdk.Client.Http3.Exchange.{
  Exchange, exchange, exchange_pass, check_limits, poll_events, check_handshake, receive, respond,
  over_http3, send_http3_request, check_response, take_events, send_packets, check_closed,
  unless_passing, started, requested, exiting,
}

-- The request is sent, or nothing has come of it.
abbrev Waits : {S : Type 0} → Exchange S → Type 0
Waits x =
    (x.req_sent ≡ true)
    ⊎ ((x.response.status_code ≡ 0) × ((x.response.body ≡ []) × (x.is_exit ≡ false)))

abbrev IsSent : {S : Type 0} → Exchange S → Type 0
IsSent x = x.req_sent ≡ true

abbrev Answers : {S : Type 0} → Unit {0} → Exchange S → Type 0
Answers done x = x.response.error ≡ none → x.req_sent ≡ true

abbrev Fine : {S : Type 0} → (Exchange S → Type 0) → Pass (Unit {0}) (Exchange S) → Type 0
Fine G = Ends Unit Waits Answers G

module _ {D S : Type 0} (quic : Quic D S) where
  check_limits-Waits :
      (start opened : ℕ) (x : Exchange S) → Waits x → Fine Waits (check_limits quic start opened x)
  unfolding check_limits
  check_limits-Waits start opened x w = ground arith

  poll_events-Waits : (x : Exchange S) → Waits x → Fine Waits (poll_events quic x)
  unfolding poll_events
  poll_events-Waits x w = ground arith

  check_handshake-Waits : (x : Exchange S) → Waits x → Fine Waits (check_handshake quic x)
  unfolding check_handshake
  check_handshake-Waits x w = ground arith

  unless_passing-Waits :
      (r : Result (Unit {0})) (x : Exchange S) → Waits x → Fine Waits (unless_passing quic r x)
  unless_passing-Waits (ok done) x w = w
  unless_passing-Waits (err e) x w = ground arith

  receive-Waits : (x : Exchange S) → Waits x → Fine Waits (receive quic x)
  unfolding receive
  receive-Waits x w =
      ended-Ends_any Waits Waits Answers (receive_packets quic x.connected x.conn) _
        (λ got now. unless_passing-Waits got _ w)

  send_packets-Waits : (x : Exchange S) → Waits x → Fine Waits (send_packets quic x)
  unfolding send_packets
  send_packets-Waits x w =
      ended-Ends_any Waits Waits Answers (send_packet quic x.conn) _
        (λ sent s. unless_passing-Waits sent _ w)

  requested-IsSent :
      (r : Result (Unit {0})) (x : Exchange S) → Waits x → Fine IsSent (requested quic r x)
  requested-IsSent (ok done) x w = refl
  requested-IsSent (err e) x w = ground arith

  send_http3_request-IsSent :
      (headers : List (Text × Text)) (x : Exchange S)
      → Waits x
      → Fine IsSent (send_http3_request quic headers x)
  unfolding send_http3_request
  send_http3_request-IsSent headers x w =
      if-Ends Unit Waits Answers IsSent x.req_sent _ _ (λ sent. sent)
        (λ unsent. requested-IsSent (quic.send_request headers x.conn).0 _ w)

  check_response-IsSent : (x : Exchange S) → IsSent x → Fine IsSent (check_response quic x)
  unfolding check_response
  check_response-IsSent x sent = ground arith

  exiting-Waits : (r : Result Bool) (x : Exchange S) → IsSent x → Waits (exiting quic r x)
  exiting-Waits (ok exit) x sent = inl sent
  exiting-Waits (err e) x sent = inl sent

  take_events-Waits : (x : Exchange S) → IsSent x → Fine Waits (take_events quic x)
  unfolding take_events
  take_events-Waits x sent =
      ended-Ends_any Waits Waits Answers (handle_http3_events quic.h3 x.response x.conn) _
        (λ got h. exiting-Waits got _ sent)

  respond-Waits :
      (headers : List (Text × Text)) (x : Exchange S)
      → Waits x
      → Fine Waits (respond quic headers x)
  unfolding respond over_http3
  respond-Waits headers x w =
      if-Ends Unit Waits Answers Waits x.connected _ _
        (λ connected.
          bind-Ends Unit Waits Answers IsSent Waits (send_http3_request quic headers _) _
            (send_http3_request-IsSent headers _ w)
            (λ y sent.
              bind-Ends Unit Waits Answers IsSent Waits (check_response quic y) _
                (check_response-IsSent y sent) take_events-Waits))
        (λ unconnected. w)

  check_closed-Waits : (x : Exchange S) → Waits x → Fine Waits (check_closed quic x)
  unfolding check_closed
  check_closed-Waits x w = ground arith

  exchange_pass-Waits :
      (start opened : ℕ) (headers : List (Text × Text)) (x : Exchange S)
      → Waits x
      → Fine Waits (exchange_pass quic start opened headers x)
  unfolding exchange_pass
  exchange_pass-Waits start opened headers x w =
      both (check_limits quic start opened x) _ (check_limits-Waits start opened x w) (λ x w.
        both (poll_events quic x) _ (poll_events-Waits x w) (λ x w.
          both (check_handshake quic x) _ (check_handshake-Waits x w) (λ x w.
            both (receive quic x) _ (receive-Waits x w) (λ x w.
              both (respond quic headers x) _ (respond-Waits headers x w) (λ x w.
                both (send_packets quic x) _ (send_packets-Waits x w) check_closed-Waits)))))
    where
      both :
          (m : Pass (Unit {0}) (Exchange S)) (f : Exchange S → Pass (Unit {0}) (Exchange S))
          → Fine Waits m
          → ((x : Exchange S) → Waits x → Fine Waits (f x))
          → Fine Waits (m >>= f)
      both m f h k = bind-Ends Unit Waits Answers Waits Waits m f h k

  -- Whenever the loop returns without an error, its request has been sent: no response without one.
  pub exchange-Answers :
      (start : ℕ) (headers : List (Text × Text)) (s : S)
      → After Unit Answers (exchange quic start headers s)
  unfolding exchange
  exchange-Answers start headers s =
      repeat-After Waits Answers (exchange_pass quic start (quic.now s) headers)
        (exchange_pass-Waits start (quic.now s) headers) _ (started quic s)
        (inr (refl, (refl, refl)))
