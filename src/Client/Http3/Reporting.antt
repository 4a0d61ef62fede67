-- ===== src/Client/Http3/Reporting.antt =====
-- crates/xrds-net/src/client/client.rs: `request_http3` and what the connection has handed over.
use device_sdk.Base.{ℕ, suc, List, [], Option, none, some, Bool, ◌≡◌, refl, arith, Text}
use device_sdk.Base.Results.{Result, ok, err}
use device_sdk.Base.Passes.{Pass, ◌>>=◌, Ends, After, bind-Ends, ended-Ends, if-Ends, repeat-After}
use device_sdk.Client.Http3.{handle_http3_events}
use device_sdk.Client.Http3.Log.{Log, Heard}
use device_sdk.Client.Http3.Telling.{Told, handle_http3_events-Told}
use device_sdk.Client.Http3.Datagrams.{
  Quic, receive_packets, receive_one, send_packet, send_one, send_pass, sent_pass, datagram_pass,
  recv_pass, transport_pass,
}
use device_sdk.Client.Http3.Exchange.{
  Exchange, exchange, exchange_pass, check_limits, poll_events, check_handshake, receive, respond,
  over_http3, send_http3_request, check_response, take_events, send_packets, check_closed,
  unless_passing, started, requested, exiting, poll_timeout,
}

-- Only the HTTP/3 connection hands over something.
pub record Silent {D S : Type 0} (quic : Quic D S) (log : Log quic.h3) : Type 0 where
  pub poll : (t : ℕ) (s : S) → log.heard (quic.poll t s).1 ≡ log.heard s
  pub recv_from : (s : S) → log.heard (quic.recv_from s).1 ≡ log.heard s
  pub recv : (d : D) (s : S) → log.heard (quic.recv d s).1 ≡ log.heard s
  pub with_transport : (s : S) → log.heard (quic.with_transport s).1 ≡ log.heard s
  pub send_request :
      (hs : List (Text × Text)) (s : S) → log.heard (quic.send_request hs s).1 ≡ log.heard s
  pub send : (s : S) → log.heard (quic.send s).1 ≡ log.heard s
  pub send_to : (d : D) (s : S) → log.heard (quic.send_to d s).1 ≡ log.heard s

module _ {D S : Type 0} (quic : Quic D S) (log : Log quic.h3) (silent : Silent quic log) where
  -- The response of the loop reports what was heard.
  abbrev pub IsTold : Exchange S → Type 0
  IsTold x = Told quic.h3 log x.response x.conn

  abbrev Fine : Pass (Unit {0}) (Exchange S) → Type 0
  Fine = Ends Unit IsTold (λ done. IsTold) IsTold

  module _ (h : Heard) where
    -- Nothing more was heard.
    abbrev Still : S → Type 0
    Still s = log.heard s ≡ h

    abbrev StillPair : Bool × S → Type 0
    StillPair p = Still p.1

    sent_pass-Still :
        (r : Result (Unit {0})) (s : S)
        → Still s
        → Ends Unit Still (λ sent. Still) Still (sent_pass quic r s)
    sent_pass-Still (ok done) s e = e
    sent_pass-Still (err x) s e = e

    send_pass-Still :
        (d : Option D) (s : S)
        → Still s
        → Ends Unit Still (λ sent. Still) Still (send_pass quic d s)
    send_pass-Still none s e = e
    send_pass-Still (some d) s e = sent_pass-Still _ _ (rw (silent.send_to d s) e)

    send_packet-Still : (s : S) → Still s → After Unit (λ sent. Still) (send_packet quic s)
    unfolding send_packet send_one
    send_packet-Still s e =
        repeat-After Still (λ sent. Still) (send_one quic)
          (λ s e. send_pass-Still (quic.send s).0 _ (rw (silent.send s) e)) (suc (quic.unsent s)) s
          e

    abbrev Receives : Pass (Result (Unit {0})) (Bool × S) → Type 0
    Receives = Ends Unit StillPair (λ got. StillPair) StillPair

    transport_pass-Still :
        (r : Result (Unit {0})) (c : Bool) (s : S) → Still s → Receives (transport_pass quic r c s)
    transport_pass-Still (ok done) c s e = e
    transport_pass-Still (err x) c s e = e

    recv_pass-Still :
        (r : Result (Unit {0})) (c : Bool) (s : S) → Still s → Receives (recv_pass quic r c s)
    recv_pass-Still (err x) c s e = e
    recv_pass-Still (ok done) c s e = ground (
      arith,
      transport_pass-Still (quic.with_transport s).0 c (quic.with_transport s).1
          (rw (silent.with_transport s) e),
    )

    datagram_pass-Still :
        (d : Option D) (c : Bool) (s : S) → Still s → Receives (datagram_pass quic d c s)
    datagram_pass-Still none c s e = e
    datagram_pass-Still (some d) c s e = recv_pass-Still _ c _ (rw (silent.recv d s) e)

    receive_packets-Still :
        (c : Bool) (s : S) → Still s → After Unit (λ got. StillPair) (receive_packets quic c s)
    unfolding receive_packets receive_one
    receive_packets-Still c s e =
        repeat-After StillPair (λ got. StillPair) (receive_one quic)
          (λ p e. datagram_pass-Still (quic.recv_from p.1).0 p.0 _ (rw (silent.recv_from p.1) e))
          (suc (quic.waiting s)) (c, s) e

  check_limits-IsTold :
      (start opened : ℕ) (x : Exchange S) → IsTold x → Fine (check_limits quic start opened x)
  unfolding check_limits
  check_limits-IsTold start opened x k = ground arith

  poll_events-IsTold : (x : Exchange S) → IsTold x → Fine (poll_events quic x)
  unfolding poll_events
  poll_events-IsTold x k = ground (arith, silent.poll (poll_timeout quic x) x.conn)

  check_handshake-IsTold : (x : Exchange S) → IsTold x → Fine (check_handshake quic x)
  unfolding check_handshake
  check_handshake-IsTold x k = ground arith

  unless_passing-IsTold :
      (r : Result (Unit {0})) (x : Exchange S) → IsTold x → Fine (unless_passing quic r x)
  unless_passing-IsTold (ok done) x k = k
  unless_passing-IsTold (err e) x k = ground arith

  receive-IsTold : (x : Exchange S) → IsTold x → Fine (receive quic x)
  unfolding receive
  receive-IsTold x k =
      ended-Ends Unit IsTold (λ done. IsTold) (λ got. StillPair (log.heard x.conn)) IsTold
        (receive_packets quic x.connected x.conn) _
        (receive_packets-Still (log.heard x.conn) x.connected x.conn refl)
        (λ got now e. unless_passing-IsTold got _ (rw e k))

  send_packets-IsTold : (x : Exchange S) → IsTold x → Fine (send_packets quic x)
  unfolding send_packets
  send_packets-IsTold x k =
      ended-Ends Unit IsTold (λ done. IsTold) (λ sent. Still (log.heard x.conn)) IsTold
        (send_packet quic x.conn) _ (send_packet-Still (log.heard x.conn) x.conn refl)
        (λ sent s e. unless_passing-IsTold sent _ (rw e k))

  requested-IsTold : (r : Result (Unit {0})) (x : Exchange S) → IsTold x → Fine (requested quic r x)
  requested-IsTold (ok done) x k = k
  requested-IsTold (err e) x k = ground arith

  send_http3_request-IsTold :
      (headers : List (Text × Text)) (x : Exchange S)
      → IsTold x
      → Fine (send_http3_request quic headers x)
  unfolding send_http3_request
  send_http3_request-IsTold headers x k =
      if-Ends Unit IsTold (λ done. IsTold) IsTold x.req_sent _ _ (λ sent. k)
        (λ unsent.
          requested-IsTold (quic.send_request headers x.conn).0 _
            (rw (silent.send_request headers x.conn) k))

  check_response-IsTold : (x : Exchange S) → IsTold x → Fine (check_response quic x)
  unfolding check_response
  check_response-IsTold x k = ground arith

  exiting-IsTold : (r : Result Bool) (x : Exchange S) → IsTold x → IsTold (exiting quic r x)
  exiting-IsTold (ok exit) x k = k
  exiting-IsTold (err e) x k = record { headers = k.headers; body = k.body; status = k.status }

  take_events-IsTold : (x : Exchange S) → IsTold x → Fine (take_events quic x)
  unfolding take_events
  take_events-IsTold x k =
      ended-Ends Unit IsTold (λ done. IsTold) (λ got h. Told quic.h3 log h.response h.conn) IsTold
        (handle_http3_events quic.h3 x.response x.conn) _
        (handle_http3_events-Told quic.h3 log x.response x.conn k)
        (λ got h told. exiting-IsTold got _ told)

  then_Fine :
      (m : Pass (Unit {0}) (Exchange S)) (f : Exchange S → Pass (Unit {0}) (Exchange S))
      → Fine m
      → ((x : Exchange S) → IsTold x → Fine (f x))
      → Fine (m >>= f)
  then_Fine m f h k = bind-Ends Unit IsTold (λ done. IsTold) IsTold IsTold m f h k

  respond-IsTold :
      (headers : List (Text × Text)) (x : Exchange S) → IsTold x → Fine (respond quic headers x)
  unfolding respond over_http3
  respond-IsTold headers x k =
      if-Ends Unit IsTold (λ done. IsTold) IsTold x.connected _ _
        (λ connected.
          then_Fine (send_http3_request quic headers _) _ (send_http3_request-IsTold headers _ k)
            (λ y k.
              then_Fine (check_response quic y) _ (check_response-IsTold y k) take_events-IsTold))
        (λ unconnected. k)

  check_closed-IsTold : (x : Exchange S) → IsTold x → Fine (check_closed quic x)
  unfolding check_closed
  check_closed-IsTold x k = ground arith

  exchange_pass-IsTold :
      (start opened : ℕ) (headers : List (Text × Text)) (x : Exchange S)
      → IsTold x
      → Fine (exchange_pass quic start opened headers x)
  unfolding exchange_pass
  exchange_pass-IsTold start opened headers x k =
      then_Fine (check_limits quic start opened x) _ (check_limits-IsTold start opened x k) (λ x k.
        then_Fine (poll_events quic x) _ (poll_events-IsTold x k) (λ x k.
          then_Fine (check_handshake quic x) _ (check_handshake-IsTold x k) (λ x k.
            then_Fine (receive quic x) _ (receive-IsTold x k) (λ x k.
              then_Fine (respond quic headers x) _ (respond-IsTold headers x k) (λ x k.
                then_Fine (send_packets quic x) _ (send_packets-IsTold x k) check_closed-IsTold)))))

  -- A loop that returns has told what it heard.
  pub exchange-IsTold :
      (start : ℕ) (headers : List (Text × Text)) (s : S)
      → log.heard s ≡ record { fields = []; bytes = [] }
      → After Unit (λ done. IsTold) (exchange quic start headers s)
  unfolding exchange
  exchange-IsTold start headers s fresh =
      repeat-After IsTold (λ done. IsTold) (exchange_pass quic start (quic.now s) headers)
        (exchange_pass-IsTold start (quic.now s) headers) _ (started quic s)
        (rw fresh (record { headers = refl; body = refl; status = refl }))
