-- ===== src/Client/Http3/Returns.antt =====
-- crates/xrds-net/src/client/client.rs: `request_http3` ends within its limits.
use device_sdk.Base.{ℕ, suc, ◌+◌, ◌-◌, ◌≤◌, ◌<◌, List, Bool, ◌≡◌, arith, Text}
use device_sdk.Base.Results.{Result, ok, err}
use device_sdk.Base.Passes.{
  Pass, ◌>>=◌, Ends, After, bind-Ends, ended-Ends, if-Ends, Ends-map, repeat_total,
}
use device_sdk.Client.Http3.{handle_http3_events}
use device_sdk.Client.Http3.Datagrams.{Quic, receive_packets, send_packet}
use device_sdk.Client.Http3.Exchange.{
  Exchange, exchange, exchange_pass, check_limits, poll_events, check_handshake, receive, respond,
  over_http3, send_http3_request, check_response, take_events, send_packets, check_closed,
  unless_passing, started, requested, exiting, poll_timeout, seconds, passes,
}
use device_sdk.Client.Http3.Timing.{Timely, receive_packets-Since, send_packet-Since}
use device_sdk.Client.Http3.Events.{handle_http3_events-Since}

module _ {D S : Type 0} (quic : Quic D S) (timely : Timely quic) where
  module _ (t : ℕ) where
    -- The clock has reached `t`.
    abbrev Past : Exchange S → Type 0
    Past x = t ≤ quic.now x.conn

    abbrev Ended : Unit {0} → Exchange S → Type 0
    Ended done x = Unit {0}

    abbrev Fine : Pass (Unit {0}) (Exchange S) → Type 0
    Fine = Ends ⊥ Past Ended Past

    check_handshake-Past : (x : Exchange S) → Past x → Fine (check_handshake quic x)
    unfolding check_handshake
    check_handshake-Past x k = ground arith

    unless_passing-Past :
        (r : Result (Unit {0})) (x : Exchange S) → Past x → Fine (unless_passing quic r x)
    unless_passing-Past (ok done) x k = k
    unless_passing-Past (err e) x k = ground arith

    receive-Past : (x : Exchange S) → Past x → Fine (receive quic x)
    unfolding receive
    receive-Past x k =
        ended-Ends ⊥ Past Ended (λ got p. t ≤ quic.now p.1) Past
          (receive_packets quic x.connected x.conn) _
          (receive_packets-Since quic timely t x.connected x.conn k)
          (λ got now l. unless_passing-Past got _ l)

    send_packets-Past : (x : Exchange S) → Past x → Fine (send_packets quic x)
    unfolding send_packets
    send_packets-Past x k =
        ended-Ends ⊥ Past Ended (λ sent s. t ≤ quic.now s) Past (send_packet quic x.conn) _
          (send_packet-Since quic timely t x.conn k) (λ sent s l. unless_passing-Past sent _ l)

    requested-Past : (r : Result (Unit {0})) (x : Exchange S) → Past x → Fine (requested quic r x)
    requested-Past (ok done) x k = k
    requested-Past (err e) x k = ground arith

    send_http3_request-Past :
        (headers : List (Text × Text)) (x : Exchange S)
        → Past x
        → Fine (send_http3_request quic headers x)
    unfolding send_http3_request
    send_http3_request-Past headers x k =
        if-Ends ⊥ Past Ended Past x.req_sent _ _ (λ sent. k)
          (λ unsent.
            requested-Past (quic.send_request headers x.conn).0 _
              (omega (arith, k, timely.send_request_time headers x.conn)))

    check_response-Past : (x : Exchange S) → Past x → Fine (check_response quic x)
    unfolding check_response
    check_response-Past x k = ground arith

    exiting-Past : (r : Result Bool) (x : Exchange S) → Past x → Past (exiting quic r x)
    exiting-Past (ok exit) x k = k
    exiting-Past (err e) x k = k

    take_events-Past : (x : Exchange S) → Past x → Fine (take_events quic x)
    unfolding take_events
    take_events-Past x k =
        ended-Ends ⊥ Past Ended (λ got h. t ≤ quic.now h.conn) Past
          (handle_http3_events quic.h3 x.response x.conn) _
          (handle_http3_events-Since quic timely t x.response x.conn k)
          (λ got h l. exiting-Past got _ l)

    then_Fine :
        (m : Pass (Unit {0}) (Exchange S)) (f : Exchange S → Pass (Unit {0}) (Exchange S))
        → Fine m
        → ((x : Exchange S) → Past x → Fine (f x))
        → Fine (m >>= f)
    then_Fine m f h k = bind-Ends ⊥ Past Ended Past Past m f h k

    respond-Past :
        (headers : List (Text × Text)) (x : Exchange S) → Past x → Fine (respond quic headers x)
    unfolding respond over_http3
    respond-Past headers x k =
        if-Ends ⊥ Past Ended Past x.connected _ _
          (λ connected.
            then_Fine (send_http3_request quic headers _) _ (send_http3_request-Past headers _ k)
              (λ y k.
                then_Fine (check_response quic y) _ (check_response-Past y k) take_events-Past))
          (λ unconnected. k)

    check_closed-Past : (x : Exchange S) → Past x → Fine (check_closed quic x)
    unfolding check_closed
    check_closed-Past x k = ground arith

    -- What follows the wait for events.
    rest-Past :
        (headers : List (Text × Text)) (x : Exchange S)
        → Past x
        → Fine (
            check_handshake quic x >>= (λ x. receive quic x >>= (λ x.
              respond quic headers x >>= (λ x. send_packets quic x >>= check_closed quic))))
    rest-Past headers x k = then_Fine (check_handshake quic x) _ (check_handshake-Past x k) (λ x k.
        then_Fine (receive quic x) _ (receive-Past x k) (λ x k.
          then_Fine (respond quic headers x) _ (respond-Past headers x k)
            (λ x k. then_Fine (send_packets quic x) _ (send_packets-Past x k) check_closed-Past)))

  -- A pass goes on within the limit, and then takes time.
  module _ (start : ℕ) (x : Exchange S) where
    abbrev InTime : Exchange S → Type 0
    InTime y = (quic.now y.conn ≡ quic.now x.conn) × (quic.now x.conn - start ≤ seconds 30)

    abbrev InTimeLater : Exchange S → Type 0
    InTimeLater y =
        (suc (quic.now x.conn) ≤ quic.now y.conn) × (quic.now x.conn - start ≤ seconds 30)

    abbrev Stopped : Unit {0} → Exchange S → Type 0
    Stopped done y = Unit {0}

    check_limits-InTime :
        (opened : ℕ) → Ends ⊥ InTimeLater Stopped InTime (check_limits quic start opened x)
    unfolding check_limits
    check_limits-InTime opened = ground arith

    poll_events-InTimeLater :
        (y : Exchange S) → InTime y → Ends ⊥ InTimeLater Stopped InTimeLater (poll_events quic y)
    unfolding poll_events
    poll_events-InTimeLater y k =
        if-Ends ⊥ InTimeLater Stopped InTimeLater (quic.poll (poll_timeout quic y) y.conn).0 _ _
          (λ fine. (omega (arith, k.0, timely.poll_later (poll_timeout quic y) y.conn), k.1))
          (λ bad. tt)

    exchange_pass-InTimeLater :
        (opened : ℕ) (headers : List (Text × Text))
        → Ends ⊥ InTimeLater Stopped InTimeLater (exchange_pass quic start opened headers x)
    unfolding exchange_pass
    exchange_pass-InTimeLater opened headers =
        bind-Ends ⊥ InTimeLater Stopped InTime InTimeLater (check_limits quic start opened x) _
          (check_limits-InTime opened)
          (λ y k.
            bind-Ends ⊥ InTimeLater Stopped InTimeLater InTimeLater (poll_events quic y) _
              (poll_events-InTimeLater y k)
              (λ z l.
                Ends-map ⊥ (Past (suc (quic.now x.conn))) InTimeLater Stopped _ (λ w m. (m, l.1))
                  (rest-Past (suc (quic.now x.conn)) headers z l.0)))

  -- The time that is left.
  abbrev left : ℕ → Exchange S → ℕ
  left start x = start + seconds 30 + 1 - quic.now x.conn

  pub exchange-Returns :
      (start : ℕ) (headers : List (Text × Text)) (s : S)
      → start ≤ quic.now s
      → After ⊥ (λ done y. Unit {0}) (exchange quic start headers s)
  unfolding exchange
  exchange-Returns start headers s k =
      repeat_total (λ x. Unit {0}) (λ done y. Unit {0})
        (exchange_pass quic start (quic.now s) headers) (left start)
        (λ x u.
          Ends-map ⊥ (InTimeLater start x) (λ y. Unit {0} × (left start y < left start x))
            (Stopped start x) (exchange_pass quic start (quic.now s) headers x)
            (λ y l. (tt, omega (arith, l.0, l.1)))
            (exchange_pass-InTimeLater start x (quic.now s) headers))
        passes (started quic s) tt (omega (arith, k))
