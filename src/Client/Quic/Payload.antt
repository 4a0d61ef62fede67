-- ===== src/Client/Quic/Payload.antt =====
-- crates/xrds-net/src/client/client.rs: what `send_quic` does with its payload.
use device_sdk.Base.{
  ℕ, zero, suc, ◌-◌, List, [], ◌∷◌, ◌++◌, Option, none, some, ◌≡◌, refl, arith, length,
  length-append,
}
use device_sdk.Base.Results.{Result, ok}
use device_sdk.Base.Passes.{Pass, stop, go, repeat, resume}
use device_sdk.Client.Quic.{
  Quiche, Produced, packet, done, send_failed, Sent, sent, would_block, not_sent, rest_of,
  sent_pass, produced_pass, write_one, handle_write, written, send_quic,
}

length-rest_of : (n : ℕ) (bs : List ℕ) → length (rest_of n bs) ≡ length bs - n
unfolding rest_of
length-rest_of n [] = omega arith
length-rest_of n (b ∷ bs) = ground (arith, length-rest_of (n - 1) bs)

-- Passes that differ in a buffer of the same length only.
data Alike {S : Type 0} : (m n : Pass (Result (Unit {0})) (List ℕ × S)) → Type 0 where
  stops : (r : Result (Unit {0})) (a b : List ℕ) (s : S) → Alike (stop r (a, s)) (stop r (b, s))
  goes : (a b : List ℕ) (s : S) → length a ≡ length b → Alike (go (a, s)) (go (b, s))

module _ {D S : Type 0} (quiche : Quiche D S) where
  -- quiche reads nothing of the buffer that it fills.
  abbrev pub OnlyFills : Type 0
  OnlyFills = (a b : List ℕ) (s : S) → length a ≡ length b → quiche.send a s ≡ quiche.send b s

  overwritten :
      (d a b : List ℕ)
      → length a ≡ length b
      → length (d ++ rest_of (length d) a) ≡ length (d ++ rest_of (length d) b)
  overwritten d a b e = omega (
    arith,
    e,
    length-append d (rest_of (length d) a),
    length-append d (rest_of (length d) b),
    length-rest_of (length d) a,
    length-rest_of (length d) b,
  )

  sent_pass-Alike :
      (o : Sent) (a b : List ℕ) (s : S)
      → length a ≡ length b
      → Alike (sent_pass quiche o a s) (sent_pass quiche o b s)
  sent_pass-Alike sent a b s e = goes a b s e
  sent_pass-Alike would_block a b s e = stops (ok tt) a b s
  sent_pass-Alike (not_sent x) a b s e = stops _ a b s

  produced_pass-Alike :
      (p : Produced) (a b : List ℕ) (s : S)
      → length a ≡ length b
      → Alike (produced_pass quiche p a s) (produced_pass quiche p b s)
  produced_pass-Alike done a b s e = stops (ok tt) a b s
  produced_pass-Alike (send_failed x) a b s e = stops _ a b (quiche.close s)
  produced_pass-Alike (packet d) a b s e =
      sent_pass-Alike (quiche.send_to d s).0 (d ++ rest_of (length d) a) (d ++ rest_of (length d) b)
        (quiche.send_to d s).1 (overwritten d a b e)

  write_one-Alike :
      OnlyFills
      → (a b : List ℕ) (s : S) → length a ≡ length b
      → Alike (write_one quiche (a, s)) (write_one quiche (b, s))
  unfolding write_one
  write_one-Alike fills a b s e =
      rw (fills a b s e) (produced_pass-Alike (quiche.send b s).0 a b (quiche.send b s).1 e)

  resume-written :
      (m n : Pass (Result (Unit {0})) (List ℕ × S))
      (next : List ℕ × S → Option (Result (Unit {0}) × (List ℕ × S)))
      → Alike m n
      → ((a b : List ℕ) (s : S)
          → length a ≡ length b
          → written quiche (next (a, s)) ≡ written quiche (next (b, s)))
      → written quiche (resume m next) ≡ written quiche (resume n next)
  resume-written _ _ next (stops r a b s) k = refl
  resume-written _ _ next (goes a b s e) k = k a b s e

  handle_write-written :
      OnlyFills
      → (fuel : ℕ) (a b : List ℕ) (s : S) → length a ≡ length b
      → written quiche (handle_write quiche fuel a s)
        ≡ written quiche (handle_write quiche fuel b s)
  unfolding handle_write repeat
  handle_write-written fills zero a b s e = refl
  handle_write-written fills (suc fuel) a b s e =
      resume-written (write_one quiche (a, s)) (write_one quiche (b, s))
        (repeat (write_one quiche) fuel) (write_one-Alike fills a b s e)
        (λ a b s e. handle_write-written fills fuel a b s e)

  -- If quiche reads nothing of the buffer that it is given to fill, `send_quic` has the same result, and
  -- leaves the same connection, for any two payloads of one length: it sends none of their bytes.
  pub send_quic-length :
      OnlyFills
      → (fuel : ℕ) (a b : List ℕ) (o : Option S) → length a ≡ length b
      → send_quic quiche fuel a o ≡ send_quic quiche fuel b o
  unfolding send_quic
  send_quic-length fills fuel a b none e = refl
  send_quic-length fills fuel a b (some s) e = handle_write-written fills fuel a b s e
