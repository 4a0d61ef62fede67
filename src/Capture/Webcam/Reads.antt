-- ===== src/Capture/Webcam/Reads.antt =====
-- crates/xrds-net/src/client/xrds_webrtc/webcam_reader.rs: what reads give, in whatever pieces.
use mathlib.Core.List.{append_assoc, append-nil}
use device_sdk.Base.{
  ℕ, ◌-◌, List, [], ◌∷◌, ◌++◌, Option, none, some, ◌≡◌, refl, sym, ap, ◌∙◌, subst, arith,
}
use device_sdk.Capture.Webcam.{
  Channel, WebcamReader, Taken, message, empty, disconnected, Read, bytes, would_block,
  unexpected_eof, front, back, kept, copy_out, read_taken, read_from, read,
}

pub front-back : (n : ℕ) (bs : List ℕ) → front n bs ++ back n bs ≡ bs
unfolding front back
front-back n [] = refl
front-back n (b ∷ bs) = ground (arith, front-back (n - 1) bs)

-- What a reader still holds.
abbrev pub held : Option (List ℕ) → List ℕ
held none = []
held (some bs) = bs

held-kept : (bs : List ℕ) → held (kept bs) ≡ bs
held-kept [] = refl
held-kept (b ∷ bs) = refl

abbrev pub message_bytes : Taken → List ℕ
message_bytes (message bs) = bs
message_bytes empty = []
message_bytes disconnected = []

abbrev pub read_bytes : Read → List ℕ
read_bytes (bytes bs) = bs
read_bytes would_block = []
read_bytes unexpected_eof = []

-- A channel with the log of the bytes that were taken from it.
pub record Log {S : Type 0} (channel : Channel S) : Type 0 where
  pub taken : S → List ℕ
  pub try_recv_taken :
      (s : S) → taken (channel.try_recv s).1 ≡ taken s ++ message_bytes (channel.try_recv s).0
  pub tick_taken : (s : S) → taken (channel.tick s) ≡ taken s
  pub sleep_taken : (s : S) → taken (channel.sleep s) ≡ taken s

module _ {S : Type 0} (channel : Channel S) where
  -- Reads one after the other, into buffers of these lengths: the bytes that they give.
  unfoldable pub reads : List ℕ → WebcamReader S → List ℕ × WebcamReader S
  reads [] r = ([], r)
  reads (cap ∷ caps) r =
      let (got, r') = read channel cap r in
      let (later, r'') = reads caps r' in (read_bytes got ++ later, r'')

module _ {S : Type 0} (channel : Channel S) (log : Log channel) where
  -- What was taken is what was given out, and then what is held.
  abbrev pub Accounts : List ℕ → WebcamReader S → Type 0
  Accounts given r = log.taken r.receiver ≡ given ++ held r.buffer

  copy_out-Accounts :
      (given : List ℕ) (cap : ℕ) (bs : List ℕ) (s : S)
      → log.taken s ≡ given ++ bs
      → Accounts (given ++ read_bytes (copy_out channel cap bs s).0) (copy_out channel cap bs s).1
  unfolding copy_out
  copy_out-Accounts given cap bs s h =
      h
      ∙ ap (λ x. given ++ x) (sym (front-back cap bs))
      ∙ ap (λ x. given ++ (front cap bs ++ x)) (sym (held-kept (back cap bs)))
      ∙ sym (append_assoc given (front cap bs) (held (kept (back cap bs))))

  read_taken-Accounts :
      (given : List ℕ) (cap : ℕ) (t : Taken) (s : S)
      → log.taken s ≡ given ++ message_bytes t
      → Accounts (given ++ read_bytes (read_taken channel cap t s).0) (read_taken channel cap t s).1
  unfolding read_taken
  read_taken-Accounts given cap (message bs) s h = copy_out-Accounts given cap bs s h
  read_taken-Accounts given cap empty s h = rw append-nil h
  read_taken-Accounts given cap disconnected s h = rw append-nil h

  read_from-Accounts :
      (given : List ℕ) (cap : ℕ) (o : Option (List ℕ)) (s : S)
      → log.taken s ≡ given ++ held o
      → Accounts (given ++ read_bytes (read_from channel cap o s).0) (read_from channel cap o s).1
  read_from-Accounts given cap (some bs) s h = copy_out-Accounts given cap bs s h
  read_from-Accounts given cap none s h =
      read_taken-Accounts given cap (channel.try_recv s).0 (channel.try_recv s).1 (
        log.try_recv_taken s
        ∙ ap (λ x. x ++ message_bytes (channel.try_recv s).0) (h ∙ append-nil given))

  pub read-Accounts :
      (given : List ℕ) (cap : ℕ) (r : WebcamReader S)
      → Accounts given r
      → Accounts (given ++ read_bytes (read channel cap r).0) (read channel cap r).1
  unfolding read
  read-Accounts given cap r h = read_from-Accounts given cap r.buffer r.receiver h

  reads-Accounts :
      (caps : List ℕ) (given : List ℕ) (r : WebcamReader S)
      → Accounts given r
      → Accounts (given ++ (reads channel caps r).0) (reads channel caps r).1
  unfolding reads
  reads-Accounts [] given r h = rw (append-nil) h
  reads-Accounts (cap ∷ caps) given r h =
      subst (λ x. Accounts x (reads channel caps (read channel cap r).1).1)
        (append_assoc given (read_bytes (read channel cap r).0)
          (reads channel caps (read channel cap r).1).0)
        (reads-Accounts caps _ _ (read-Accounts given cap r h))

  -- Whatever the lengths of the buffers, reads one after the other from a reader that holds nothing give
  -- the bytes that they take from the channel, but for those that the reader then holds: none is lost,
  -- doubled or out of order.
  pub reads-taken :
      (caps : List ℕ) (r : WebcamReader S)
      → r.buffer ≡ none
      → log.taken (reads channel caps r).1.receiver
        ≡ log.taken r.receiver ++ ((reads channel caps r).0 ++ held (reads channel caps r).1.buffer)
  reads-taken caps r e =
      reads-Accounts caps (log.taken r.receiver) r (rw e (sym (append-nil (log.taken r.receiver))))
      ∙ append_assoc (log.taken r.receiver) (reads channel caps r).0 _
