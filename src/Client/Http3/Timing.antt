-- ===== src/Client/Http3/Timing.antt =====
-- crates/xrds-net/src/client/client.rs: the loops inside `request_http3` return.
use device_sdk.Base.{
  ℕ, suc, ◌≤◌, ◌<◌, List, [], ◌∷◌, Option, none, some, Bool, not, ◌&&◌, ◌≡◌, refl, arith, Text,
}
use device_sdk.Base.Results.{Result, ok, err}
use device_sdk.Base.Passes.{Pass, go, Ends, After, if-Ends, repeat_total}
use device_sdk.Client.Http3.{Chunk, read, no_data, read_failed}
use device_sdk.Client.Http3.Datagrams.{
  Quic, receive_packets, receive_one, send_packet, send_one, send_pass, sent_pass, datagram_pass,
  recv_pass, transport_pass,
}

-- A read that gives something.
abbrev pub Gives : Chunk → Type 0
Gives (read []) = ⊥
Gives (read (b ∷ bytes)) = Unit {0}
Gives no_data = ⊥
Gives (read_failed e) = ⊥

-- Waiting for an event takes time, nothing goes back in time, and what can be read or written without
-- waiting is finite.
pub record Timely {D S : Type 0} (quic : Quic D S) : Type 0 where
  pub poll_later : (t : ℕ) (s : S) → quic.now s < quic.now (quic.poll t s).1
  pub recv_from_time : (s : S) → quic.now s ≤ quic.now (quic.recv_from s).1
  pub recv_time : (d : D) (s : S) → quic.now s ≤ quic.now (quic.recv d s).1
  pub with_transport_time : (s : S) → quic.now s ≤ quic.now (quic.with_transport s).1
  pub send_request_time :
      (hs : List (Text × Text)) (s : S) → quic.now s ≤ quic.now (quic.send_request hs s).1
  pub send_time : (s : S) → quic.now s ≤ quic.now (quic.send s).1
  pub send_to_time : (d : D) (s : S) → quic.now s ≤ quic.now (quic.send_to d s).1
  pub h3_poll_time : (s : S) → quic.now s ≤ quic.now (quic.h3.poll s).1
  pub recv_body_time : (n : ℕ) (s : S) → quic.now s ≤ quic.now (quic.h3.recv_body n s).1
  pub recv_from_fewer :
      (d : D) (s : S)
      → (quic.recv_from s).0 ≡ some d
      → quic.waiting (quic.recv_from s).1 < quic.waiting s
  pub recv_waiting : (d : D) (s : S) → quic.waiting (quic.recv d s).1 ≤ quic.waiting s
  pub with_transport_waiting : (s : S) → quic.waiting (quic.with_transport s).1 ≤ quic.waiting s
  pub send_fewer :
      (d : D) (s : S) → (quic.send s).0 ≡ some d → quic.unsent (quic.send s).1 < quic.unsent s
  pub send_to_unsent : (d : D) (s : S) → quic.unsent (quic.send_to d s).1 ≤ quic.unsent s
  pub recv_body_fewer :
      (n : ℕ) (s : S)
      → Gives (quic.h3.recv_body n s).0
      → quic.h3.unread (quic.h3.recv_body n s).1 < quic.h3.unread s

module _ {D S : Type 0} (quic : Quic D S) (timely : Timely quic) (t : ℕ) where
  -- The clock has reached `t`.
  abbrev pub Since : S → Type 0
  Since s = t ≤ quic.now s

  abbrev Less : (S → ℕ) → ℕ → S → Type 0
  Less m n s = (t ≤ quic.now s) × (m s < n)

  abbrev SendsLess : ℕ → Pass (Result (Unit {0})) S → Type 0
  SendsLess n = Ends ⊥ (Less quic.unsent n) (λ sent. Since) (Less quic.unsent n)

  sent_pass-Less :
      (n : ℕ) (r : Result (Unit {0})) (s : S)
      → Less quic.unsent n s
      → SendsLess n (sent_pass quic r s)
  sent_pass-Less n (ok done) s l = l
  sent_pass-Less n (err e) s l = l.0

  send_pass-Less :
      (n : ℕ) (d : Option D) (s : S)
      → Since s
      → ((x : D) → d ≡ some x → quic.unsent s < n)
      → SendsLess n (send_pass quic d s)
  send_pass-Less n none s k l = k
  send_pass-Less n (some d) s k l = sent_pass-Less n (quic.send_to d s).0 _ (
    omega (arith, k, timely.send_to_time d s),
    omega (arith, l d refl, timely.send_to_unsent d s),
  )

  pub send_packet-Since : (s : S) → Since s → After ⊥ (λ sent. Since) (send_packet quic s)
  unfolding send_packet send_one
  send_packet-Since s k =
      repeat_total Since (λ sent. Since) (send_one quic) quic.unsent
        (λ s k.
          send_pass-Less (quic.unsent s) (quic.send s).0 _ (omega (arith, k, timely.send_time s))
            (λ d e. timely.send_fewer d s e))
        (suc (quic.unsent s)) s k (omega arith)

  abbrev SincePair : Bool × S → Type 0
  SincePair p = Since p.1

  abbrev LessPair : ℕ → Bool × S → Type 0
  LessPair n p = SincePair p × (quic.waiting p.1 < n)

  abbrev ReceivesLess : ℕ → Pass (Result (Unit {0})) (Bool × S) → Type 0
  ReceivesLess n = Ends ⊥ (LessPair n) (λ got. SincePair) (LessPair n)

  transport_pass-Less :
      (n : ℕ) (r : Result (Unit {0})) (c : Bool) (s : S)
      → Less quic.waiting n s
      → ReceivesLess n (transport_pass quic r c s)
  transport_pass-Less n (ok done) c s l = l
  transport_pass-Less n (err x) c s l = l.0

  recv_pass-Less :
      (n : ℕ) (r : Result (Unit {0})) (c : Bool) (s : S)
      → Less quic.waiting n s
      → ReceivesLess n (recv_pass quic r c s)
  recv_pass-Less n (err x) c s l = l.0
  recv_pass-Less n (ok done) c s l =
      if-Ends ⊥ (LessPair n) (λ got. SincePair) (LessPair n) (quic.is_established s && not c) _
        (go (c, s))
        (λ fresh. transport_pass-Less n (quic.with_transport s).0 c _ (
          omega (arith, l.0, timely.with_transport_time s),
          omega (arith, l.1, timely.with_transport_waiting s),
        ))
        (λ old. l)

  datagram_pass-Less :
      (n : ℕ) (d : Option D) (c : Bool) (s : S)
      → Since s
      → ((x : D) → d ≡ some x → quic.waiting s < n)
      → ReceivesLess n (datagram_pass quic d c s)
  datagram_pass-Less n none c s k l = k
  datagram_pass-Less n (some d) c s k l =
      recv_pass-Less n (quic.recv d s).0 c _
        (omega (arith, k, timely.recv_time d s), omega (arith, l d refl, timely.recv_waiting d s))

  pub receive_packets-Since :
      (c : Bool) (s : S) → Since s → After ⊥ (λ got. SincePair) (receive_packets quic c s)
  unfolding receive_packets receive_one
  receive_packets-Since c s k =
      repeat_total SincePair (λ got. SincePair) (receive_one quic) (λ p. quic.waiting p.1)
        (λ p k.
          datagram_pass-Less (quic.waiting p.1) (quic.recv_from p.1).0 p.0 _
            (omega (arith, k, timely.recv_from_time p.1)) (λ d e. timely.recv_from_fewer d p.1 e))
        (suc (quic.waiting s)) (c, s) k (omega arith)
