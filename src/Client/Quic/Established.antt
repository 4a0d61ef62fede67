-- ===== src/Client/Quic/Established.antt =====
-- crates/xrds-net/src/client/client.rs: the connection that `connect_quic` gives.
use device_sdk.Base.{ℕ, List, Option, none, some, true, false, ◌≡◌, ◌⊎◌, inl, inr, subst, arith}
use device_sdk.Base.Results.{Result, ok, err}
use device_sdk.Base.Passes.{stop, go, Ends, After, if-Ends, ended-Ends_any, repeat-After}
use device_sdk.Client.Settings.{Client}
use device_sdk.Client.Quic.{
  Quiche, connect_quic, event_loop, event_turn, turn_polled, turn_read, handle_read, handle_write,
  send_initial_packet, then_do, if_open, on_ok, zeros, max_datagram_size,
}

module _ {D S : Type 0} (quiche : Quiche D S) where
  -- The loop of the handshake ends well only with a connection that is closed or established.
  abbrev Left : Result (Unit {0}) → S → Type 0
  Left (err e) s = Unit {0}
  Left (ok u) s = (quiche.is_closed s ≡ true) ⊎ (quiche.is_established s ≡ true)

  abbrev Any : S → Type 0
  Any s = Unit {0}

  wrote-Left :
      (r : Result (Unit {0})) (p : List ℕ × S)
      → Ends Unit Any Left Any (elim r [ ok u ↦ go p.1 | err e ↦ stop (err e) p.1 ])
  wrote-Left (ok u) p = tt
  wrote-Left (err e) p = tt

  turn_read-Left :
      (fuel : ℕ) (r : Result (Unit {0})) (s : S)
      → Ends Unit Any Left Any (turn_read quiche fuel (r, s))
  turn_read-Left fuel (err e) s = tt
  turn_read-Left fuel (ok u) s =
      ended-Ends_any Any Any Left (handle_write quiche fuel (zeros max_datagram_size) s) _
        wrote-Left

  turn_polled-Left :
      (fuel : ℕ) (r : Result (Unit {0})) (s : S)
      → Ends Unit Any Left Any (turn_polled quiche fuel r s)
  turn_polled-Left fuel (err e) s = tt
  turn_polled-Left fuel (ok u) s =
      if-Ends Unit Any Left Any (quiche.is_closed s) _ _ (λ closed. inl closed)
        (λ yet.
          if-Ends Unit Any Left Any (quiche.is_established s) _ _ (λ established. inr established)
            (λ not_yet. turn_read-Left fuel (handle_read quiche s).0 (handle_read quiche s).1))

  event_loop-Left : (fuel : ℕ) (s : S) → After Unit Left (event_loop quiche fuel s)
  unfolding event_loop event_turn
  event_loop-Left fuel s =
      repeat-After Any Left (event_turn quiche fuel)
        (λ s u. turn_polled-Left fuel (quiche.poll s).0 (quiche.poll s).1) fuel s tt

  -- A connection that is open.
  abbrev pub IsOpen : Option (Result S) → Type 0
  IsOpen none = Unit {0}
  IsOpen (some (err e)) = Unit {0}
  IsOpen (some (ok s)) = (quiche.is_closed s ≡ false) × (quiche.is_established s ≡ true)

  if_open-IsOpen :
      (s : S)
      → (quiche.is_closed s ≡ true) ⊎ (quiche.is_established s ≡ true)
      → IsOpen (if_open quiche s)
  if_open-IsOpen s h = ground arith

  looped-IsOpen :
      (o : Option (Result (Unit {0}) × S))
      → After Unit Left o
      → IsOpen (then_do quiche o (if_open quiche))
  looped-IsOpen none h = tt
  looped-IsOpen (some (err e, s)) h = tt
  looped-IsOpen (some (ok u, s)) h = if_open-IsOpen s h

  then_do-IsOpen :
      (o : Option (Result (Unit {0}) × S)) (next : S → Option (Result S))
      → ((s : S) → IsOpen (next s))
      → IsOpen (then_do quiche o next)
  then_do-IsOpen none next h = tt
  then_do-IsOpen (some (err e, s)) next h = tt
  then_do-IsOpen (some (ok u, s)) next h = h s

  on_ok-IsOpen :
      {A : Type 0} (r : Result A) (next : A → Option (Result S))
      → ((a : A) → IsOpen (next a))
      → IsOpen (on_ok quiche r next)
  on_ok-IsOpen (err e) next h = tt
  on_ok-IsOpen (ok a) next h = h a

  connect_quic-IsOpen : (fuel : ℕ) (c : Client) → IsOpen (connect_quic quiche fuel c)
  unfolding connect_quic
  connect_quic-IsOpen fuel c = on_ok-IsOpen _ _ (λ url. on_ok-IsOpen (quiche.resolve url) _ (λ s.
      on_ok-IsOpen _ _ (λ host. on_ok-IsOpen (quiche.open_connection host s) _ (λ s.
        then_do-IsOpen (send_initial_packet quiche fuel s) _
          (λ s. looped-IsOpen (event_loop quiche fuel s) (event_loop-Left fuel s))))))

  -- A connection that `connect_quic` gives is established and not closed, however long its loops run.
  pub connect_quic-established :
      (fuel : ℕ) (c : Client) (s : S)
      → connect_quic quiche fuel c ≡ some (ok s)
      → (quiche.is_closed s ≡ false) × (quiche.is_established s ≡ true)
  connect_quic-established fuel c s e = subst IsOpen e (connect_quic-IsOpen fuel c)
