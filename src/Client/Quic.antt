-- ===== src/Client/Quic.antt =====
-- crates/xrds-net/src/client/client.rs: the QUIC side of the client. quiche, the socket and mio are
-- parameters; a loop has fuel, and `none` means that it has run out.
pub mod Established
pub mod Payload
use device_sdk.Base.{
  ℕ, zero, suc, ◌-◌, List, [], ◌∷◌, ◌++◌, Option, none, some, Bool, true, false, Text, codes,
  length, ◌==◌, if◌then◌else◌,
}
use device_sdk.Base.Results.{Result, ok, err}
use device_sdk.Base.Passes.{Pass, stuck, stop, again, go, ◌>>=◌, ended, repeat}
use device_sdk.Common.Messages.{XrUrl}
use device_sdk.Client.Settings.{Client}

-- What the socket gives.
pub data Arrived (D : Type 0) : Type 0 where
  datagram : D → Arrived D
  none_waiting : Arrived D
  recv_failed : Text → Arrived D

-- What the connection writes to its buffer.
pub data Produced : Type 0 where
  packet : List ℕ → Produced
  done : Produced
  send_failed : Text → Produced

-- A datagram that is sent, one that would block, or an error.
pub data Sent : Type 0 where
  sent : Sent
  would_block : Sent
  not_sent : Text → Sent

-- What a stream gives.
pub data Streamed : Type 0 where
  read : List ℕ → Streamed
  no_more : Streamed
  stream_failed : Text → Streamed

-- `send` fills a buffer.
pub record Quiche (D S : Type 0) : Type 0 where
  pub resolve : XrUrl → Result S
  pub open_connection : Text → S → Result S
  pub poll : S → Result (Unit {0}) × S
  pub recv_from : S → Arrived D × S
  pub recv : D → S → Result (Unit {0}) × S
  pub send : List ℕ → S → Produced × S
  pub send_to : List ℕ → S → Sent × S
  pub close : S → S
  pub readable : S → List ℕ
  pub stream_recv : ℕ → S → Streamed × S
  pub is_closed : S → Bool
  pub is_established : S → Bool

-- What of a buffer a packet of the length does not overwrite.
unfoldable pub rest_of : ℕ → List ℕ → List ℕ
rest_of n [] = []
rest_of n (b ∷ bs) = if n == 0 then b ∷ bs else rest_of (n - 1) bs

abbrev pub max_datagram_size : ℕ
max_datagram_size = 1350

unfoldable pub zeros : ℕ → List ℕ
zeros zero = []
zeros (suc n) = 0 ∷ zeros n

module _ {D S : Type 0} (quiche : Quiche D S) where
  abbrev pub recv_result : Result (Unit {0}) → Result (Unit {0})
  recv_result (ok u) = ok u
  recv_result (err e) = err (codes "recv failed: " ++ e)

  abbrev pub read_arrived : Arrived D → S → Result (Unit {0}) × S
  read_arrived (datagram d) s = let (got, s') = quiche.recv d s in (recv_result got, s')
  read_arrived none_waiting s = (ok tt, s)
  read_arrived (recv_failed e) s = (err (codes "recv() failed: " ++ e), s)

  -- One datagram at most.
  unfoldable pub handle_read : S → Result (Unit {0}) × S
  handle_read s = let (d, s') = quiche.recv_from s in read_arrived d s'

  -- The buffer and the connection.
  abbrev pub Writing : Type 0
  Writing = Pass (Result (Unit {0})) (List ℕ × S)

  abbrev pub sent_pass : Sent → List ℕ → S → Writing
  sent_pass sent out s = go (out, s)
  sent_pass would_block out s = stop (ok tt) (out, s)
  sent_pass (not_sent e) out s = stop (err (codes "send() failed: " ++ e)) (out, s)

  abbrev pub produced_pass : Produced → List ℕ → S → Writing
  produced_pass done out s = stop (ok tt) (out, s)
  produced_pass (send_failed e) out s =
      stop (err (codes "send failed: " ++ e)) (out, quiche.close s)
  produced_pass (packet d) out s =
      let (delivered, s') = quiche.send_to d s in
      sent_pass delivered (d ++ rest_of (length d) out) s'

  unfoldable pub write_one : List ℕ × S → Writing
  unfolding rest_of
  write_one (out, s) = let (d, s') = quiche.send out s in produced_pass d out s'

  unfoldable pub handle_write : ℕ → List ℕ → S → Option (Result (Unit {0}) × (List ℕ × S))
  unfolding write_one
  handle_write fuel out s = repeat write_one fuel (out, s)

  -- `send_quic` with the client's connection and socket, which `connect_quic` sets together.
  abbrev pub missing_connection : Text
  missing_connection = codes "QUIC connection is not initialized"

  abbrev pub written :
      Option (Result (Unit {0}) × (List ℕ × S)) → Option (Result (Unit {0}) × Option S)
  written none = none
  written (some (r, (out, s))) = some (r, some s)

  unfoldable pub send_quic : ℕ → List ℕ → Option S → Option (Result (Unit {0}) × Option S)
  unfolding handle_write
  send_quic fuel payload none = some (err missing_connection, none)
  send_quic fuel payload (some s) = written (handle_write fuel payload s)

  abbrev pub streamed :
      Streamed → List ℕ → S → (List ℕ → S → Result (List ℕ) × S) → Result (List ℕ) × S
  streamed (read bytes) data_so_far s next = next (data_so_far ++ bytes) s
  streamed no_more data_so_far s next = next data_so_far s
  streamed (stream_failed e) data_so_far s next =
      (err (codes "stream_recv failed: " ++ e), quiche.close s)

  -- The streams in turn, one read of each.
  unfoldable pub read_streams : List ℕ → List ℕ → S → Result (List ℕ) × S
  read_streams [] received_data s = (ok received_data, s)
  read_streams (stream_id ∷ ids) received_data s =
      let (got, s') = quiche.stream_recv stream_id s in
      streamed got received_data s' (read_streams ids)

  abbrev pub after_read : Result (Unit {0}) × S → Result (List ℕ) × S
  after_read (err e, s) = (err e, s)
  after_read (ok u, s) = read_streams (quiche.readable s) [] s

  unfoldable pub rcv_quic : Option S → Result (List ℕ) × Option S
  unfolding handle_read read_streams
  rcv_quic none = (err missing_connection, none)
  rcv_quic (some s) = let (r, s') = after_read (handle_read s) in (r, some s')

  -- One turn of the loop of the handshake.
  abbrev pub Turning : Type 0
  Turning = Pass (Result (Unit {0})) S

  abbrev pub turn_read : ℕ → Result (Unit {0}) × S → Turning
  turn_read fuel (err e, s) = stop (err e) s
  turn_read fuel (ok u, s) =
      ended (handle_write fuel (zeros max_datagram_size) s)
        (λ r p. elim r [ ok u ↦ go p.1 | err e ↦ stop (err e) p.1 ])

  abbrev pub turn_polled : ℕ → Result (Unit {0}) → S → Turning
  turn_polled fuel (err e) s = stop (err e) s
  turn_polled fuel (ok u) s =
      let read = turn_read fuel (handle_read s) in
      if quiche.is_closed s
      then stop (ok tt) s
      else if quiche.is_established s
      then stop (ok tt) s
      else read

  unfoldable pub event_turn : ℕ → S → Turning
  unfolding handle_read handle_write
  event_turn fuel s = let (polled, s') = quiche.poll s in turn_polled fuel polled s'

  unfoldable pub event_loop : ℕ → S → Option (Result (Unit {0}) × S)
  unfolding event_turn
  event_loop fuel s = repeat (event_turn fuel) fuel s

  -- The first packet: a failure of the connection is a panic (`none` here), a send that would block
  -- is tried again.
  abbrev pub first_pass : List ℕ → S → Pass (Result (Unit {0})) S
  first_pass d s =
      let (delivered, s') = quiche.send_to d s in
      elim delivered [
        | sent ↦ stop (ok tt) s'
        | would_block ↦ go s'
        | not_sent e ↦ stop (err (codes "send() failed: " ++ e)) s'
      ]

  unfoldable pub send_initial_packet : ℕ → S → Option (Result (Unit {0}) × S)
  unfolding zeros
  send_initial_packet fuel s =
      let (d, s') = quiche.send (zeros max_datagram_size) s in
      elim d [ packet d ↦ repeat (first_pass d) fuel s' | done ↦ none | send_failed e ↦ none ]

  abbrev pub then_do :
      {A : Type 0} → Option (Result (Unit {0}) × S) → (S → Option (Result A)) → Option (Result A)
  then_do none next = none
  then_do (some (err e, s)) next = some (err e)
  then_do (some (ok u, s)) next = next s

  abbrev pub if_open : S → Option (Result S)
  if_open s = if quiche.is_closed s then some (err (codes "Connection closed.")) else some (ok s)

  abbrev pub on_ok : {A B : Type 0} → Result A → (A → Option (Result B)) → Option (Result B)
  on_ok (err e) next = some (err e)
  on_ok (ok a) next = next a

  abbrev pub given : {A : Type 0} → Option A → Text → Result A
  given none e = err e
  given (some a) e = ok a

  -- The connection that the client keeps.
  unfoldable pub connect_quic : ℕ → Client → Option (Result S)
  unfolding send_initial_packet event_loop
  connect_quic fuel c = on_ok (given c.url (codes "URL not set")) (λ url.
      on_ok (quiche.resolve url) (λ s. on_ok (given c.host (codes "Host not set")) (λ host.
        on_ok (quiche.open_connection host s)
          (λ s. then_do (send_initial_packet fuel s) (λ s. then_do (event_loop fuel s) if_open)))))
