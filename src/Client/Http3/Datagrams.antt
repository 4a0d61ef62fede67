-- ===== src/Client/Http3/Datagrams.antt =====
-- crates/xrds-net/src/client/client.rs: `send_packet` and `receive_packets`, over the socket and the
-- QUIC connection, which are parameters.
use device_sdk.Base.{
  ℕ, suc, List, ◌++◌, Option, none, some, Bool, true, not, ◌&&◌, Text, codes, if◌then◌else◌,
}
use device_sdk.Base.Results.{Result, ok, err}
use device_sdk.Base.Passes.{Pass, stop, go, repeat}
use device_sdk.Common.Messages.{XrUrl}
use device_sdk.Client.Http3.{H3}

-- The socket, the QUIC connection `D` is about, and the clock in nanoseconds. `waiting` and `unsent`
-- bound the datagrams that can be read and written without waiting.
pub record Quic (D S : Type 0) : Type 0 where
  pub h3 : H3 S
  pub now : S → ℕ
  pub open_socket : XrUrl → Option S
  pub poll : ℕ → S → Bool × S
  pub recv_from : S → Option D × S
  pub recv : D → S → Result (Unit {0}) × S
  pub is_established : S → Bool
  pub is_closed : S → Bool
  pub is_draining : S → Bool
  pub with_transport : S → Result (Unit {0}) × S
  pub send_request : List (Text × Text) → S → Result (Unit {0}) × S
  pub send : S → Option D × S
  pub send_to : D → S → Result (Unit {0}) × S
  pub waiting : S → ℕ
  pub unsent : S → ℕ

module _ {D S : Type 0} (quic : Quic D S) where
  abbrev Sending : Type 0
  Sending = Pass (Result (Unit {0})) S

  abbrev pub sent_pass : Result (Unit {0}) → S → Sending
  sent_pass (err e) s = stop (err e) s
  sent_pass (ok done) s = go s

  abbrev pub send_pass : Option D → S → Sending
  send_pass none s = stop (ok tt) s
  send_pass (some d) s = let (sent, s') = quic.send_to d s in sent_pass sent s'

  unfoldable pub send_one : S → Sending
  send_one s = let (d, s') = quic.send s in send_pass d s'

  unfoldable pub send_packet : S → Option (Result (Unit {0}) × S)
  unfolding send_one
  send_packet s = repeat send_one (suc (quic.unsent s)) s

  -- The state with whether there is an HTTP/3 connection.
  abbrev Receiving : Type 0
  Receiving = Pass (Result (Unit {0})) (Bool × S)

  abbrev pub transport_pass : Result (Unit {0}) → Bool → S → Receiving
  transport_pass (err e) connected s =
      stop (err (codes "HTTP3 connection failed: " ++ e)) (connected, s)
  transport_pass (ok done) connected s = go (true, s)

  abbrev pub recv_pass : Result (Unit {0}) → Bool → S → Receiving
  recv_pass (err e) connected s = stop (err (codes "QUIC recv failed: " ++ e)) (connected, s)
  recv_pass (ok done) connected s =
      let (made, s') = quic.with_transport s in
      if quic.is_established s && not connected
      then transport_pass made connected s'
      else go (connected, s)

  abbrev pub datagram_pass : Option D → Bool → S → Receiving
  datagram_pass none connected s = stop (ok tt) (connected, s)
  datagram_pass (some d) connected s = let (got, s') = quic.recv d s in recv_pass got connected s'

  unfoldable pub receive_one : Bool × S → Receiving
  receive_one (connected, s) = let (d, s') = quic.recv_from s in datagram_pass d connected s'

  unfoldable pub receive_packets : Bool → S → Option (Result (Unit {0}) × (Bool × S))
  unfolding receive_one
  receive_packets connected s = repeat receive_one (suc (quic.waiting s)) (connected, s)
