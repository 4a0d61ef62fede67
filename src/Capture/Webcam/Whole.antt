-- ===== src/Capture/Webcam/Whole.antt =====
-- crates/xrds-net/src/client/xrds_webrtc/webcam_reader.rs: the frame that `read_single_frame` gives.
use mathlib.Core.List.{append_assoc, append-nil}
use device_sdk.Base.{
  ℕ, suc, ◌+◌, ◌-◌, ◌*◌, ◌≤◌, ◌<◌, List, [], ◌∷◌, ◌++◌, Option, none, some, ◌≡◌, refl, ap, ◌∙◌,
  arith, ltb,
}
use device_sdk.Base.Results.{Result, ok, err}
use device_sdk.Base.Passes.{Pass, Ends, if-Ends, Ends-map, After-some, repeat_total}
use device_sdk.Capture.Webcam.{
  Channel, WebcamReader, Read, bytes, would_block, unexpected_eof, read, read_from, read_taken,
  copy_out, Taken, message, empty, disconnected,
}
use device_sdk.Capture.Webcam.Reads.{Log, held, read_bytes, Accounts, read-Accounts}
use device_sdk.Capture.Webcam.Frames.{
  is_complete, Gathering, gather, gather_next, frame_pass, read_single_frame, fresh, checked,
  extended, asleep, ticked,
}
use device_sdk.Capture.Webcam.Marks.{IsFrame, is_complete-IsFrame}

-- A pass and a sleep take time, nothing goes back in time, and none of the three operations of the
-- channel takes longer than `longest` (nanoseconds).
pub record Timely {S : Type 0} (channel : Channel S) : Type 0 where
  pub tick_later : (s : S) → channel.now s < channel.now (channel.tick s)
  pub try_recv_time : (s : S) → channel.now s ≤ channel.now (channel.try_recv s).1
  pub sleep_time : (s : S) → channel.now s ≤ channel.now (channel.sleep s)
  pub longest : ℕ
  pub tick_most : (s : S) → channel.now (channel.tick s) ≤ channel.now s + longest
  pub try_recv_most : (s : S) → channel.now (channel.try_recv s).1 ≤ channel.now s + longest
  pub sleep_most : (s : S) → channel.now (channel.sleep s) ≤ channel.now s + longest

module _ {S : Type 0} (channel : Channel S) (log : Log channel) where
  -- The frame is one, and the reader gave all of it.
  abbrev pub Whole : List ℕ → Result (List ℕ) → Gathering S → Type 0
  Whole before (err e) x = Unit {0}
  Whole before (ok f) x =
      IsFrame f × (log.taken x.reader.receiver ≡ before ++ (f ++ held x.reader.buffer))

module _ {S : Type 0} (channel : Channel S) (log : Log channel) (timely : Timely channel) where
  -- `before` was taken, and then the frame and what the reader holds.
  abbrev Gathers : List ℕ → Gathering S → Type 0
  Gathers before x = Accounts channel log (before ++ x.frame_data) x.reader

  module _ (before : List ℕ) (t u : ℕ) where
    abbrev Since : Gathering S → Type 0
    Since x =
        Gathers before x
        × ((t ≤ channel.now x.reader.receiver) × (channel.now x.reader.receiver ≤ u))

    abbrev InTime : Result (List ℕ) → Gathering S → Type 0
    InTime result x = Whole channel log before result x × (channel.now x.reader.receiver ≤ u)

    abbrev Fine : Pass (Result (List ℕ)) (Gathering S) → Type 0
    Fine = Ends ⊥ Since InTime Since

    checked-Fine : (x : Gathering S) → Since x → Fine (checked channel x)
    checked-Fine x k =
        if-Ends ⊥ Since InTime Since (is_complete x.frame_data) _ _
          (λ whole. (
            (
              is_complete-IsFrame x.frame_data whole,
              k.0 ∙ append_assoc before x.frame_data (held x.reader.buffer),
            ),
            k.1.1,
          ))
          (λ partly. k)

    asleep-Since :
        (x : Gathering S)
        → Accounts channel log ((before ++ x.frame_data) ++ []) x.reader
        → t ≤ channel.now x.reader.receiver
        → channel.now x.reader.receiver + timely.longest ≤ u
        → Since (asleep channel x)
    asleep-Since x k l m = (
      log.sleep_taken x.reader.receiver ∙ rw⁻¹ (append-nil (before ++ x.frame_data)) k,
      (
        omega (arith, l, timely.sleep_time x.reader.receiver),
        omega (arith, m, timely.sleep_most x.reader.receiver),
      ),
    )

    gather-Fine :
        (got : Read) (x : Gathering S)
        → Accounts channel log ((before ++ x.frame_data) ++ read_bytes got) x.reader
        → t ≤ channel.now x.reader.receiver
        → channel.now x.reader.receiver + timely.longest ≤ u
        → Fine (gather channel got x)
    unfolding gather
    gather-Fine (bytes []) x k l m = asleep-Since x k l m
    gather-Fine (bytes (b ∷ bs)) x k l m = checked-Fine (extended channel (b ∷ bs) x) (
      k ∙ ap (λ y. y ++ held x.reader.buffer) (append_assoc before x.frame_data (b ∷ bs)),
      (l, omega (arith, m)),
    )
    gather-Fine would_block x k l m = asleep-Since x k l m
    gather-Fine unexpected_eof x k l m = (tt, omega (arith, m))

    read_taken_time :
        (cap : ℕ) (taken : Taken) (s : S)
        → channel.now (read_taken channel cap taken s).1.receiver ≡ channel.now s
    unfolding read_taken copy_out
    read_taken_time cap (message bs) s = refl
    read_taken_time cap empty s = refl
    read_taken_time cap disconnected s = refl

    read_from_time :
        (cap : ℕ) (o : Option (List ℕ)) (s : S)
        → (channel.now s ≤ channel.now (read_from channel cap o s).1.receiver)
          × (channel.now (read_from channel cap o s).1.receiver ≤ channel.now s + timely.longest)
    unfolding copy_out
    read_from_time cap (some bs) s = (omega arith, omega arith)
    read_from_time cap none s =
        let same = read_taken_time cap (channel.try_recv s).0 (channel.try_recv s).1 in
        (omega (arith, timely.try_recv_time s, same), omega (arith, timely.try_recv_most s, same))

    gather_next-Fine :
        (x : Gathering S)
        → Gathers before x
        → t ≤ channel.now x.reader.receiver
        → channel.now x.reader.receiver + (timely.longest + timely.longest) ≤ u
        → Fine (gather_next channel x)
    unfolding gather_next read
    gather_next-Fine x k l m =
        let time = read_from_time x.cap x.reader.buffer x.reader.receiver in
        gather-Fine (read channel x.cap x.reader).0 _
          (read-Accounts channel log (before ++ x.frame_data) x.cap x.reader k)
          (omega (arith, l, time.0)) (omega (arith, m, time.1))

  -- The time that is left.
  abbrev left : ℕ → ℕ → Gathering S → ℕ
  left start timeout x = start + timeout * 1_000_000_000 + 1 - channel.now x.reader.receiver

  -- The timeout, and a pass that begins before it.
  abbrev pub last_moment : ℕ → ℕ → ℕ
  last_moment start timeout = start + timeout * 1_000_000_000 + timely.longest * 3

  module _ (before : List ℕ) (start timeout : ℕ) where
    abbrev Gathered : Gathering S → Type 0
    Gathered x = Gathers before x × (channel.now x.reader.receiver ≤ last_moment start timeout)

    frame_pass-Fine :
        (x : Gathering S)
        → Gathered x
        → Ends ⊥
            (λ y. Gathered y × (left start timeout y < left start timeout x))
            (InTime before start (last_moment start timeout))
            (λ y. Gathered y × (left start timeout y < left start timeout x))
            (frame_pass channel start timeout x)
    unfolding frame_pass
    frame_pass-Fine x k =
        let now : ℕ = channel.now x.reader.receiver in
        if-Ends ⊥ (λ y. Gathered y × (left start timeout y < left start timeout x))
          (InTime before start (last_moment start timeout))
          (λ y. Gathered y × (left start timeout y < left start timeout x))
          (ltb (timeout * 1_000_000_000) (now - start)) _ _ (λ late. (tt, k.1))
          (λ early.
            Ends-map ⊥ (Since before (suc now) (last_moment start timeout))
              (λ y. Gathered y × (left start timeout y < left start timeout x))
              (InTime before start (last_moment start timeout))
              (gather_next channel (ticked channel x))
              (λ y l. ((l.0, l.1.1), ground (arith, l.1.0, early)))
              (gather_next-Fine before (suc now) (last_moment start timeout) (ticked channel x)
                (log.tick_taken x.reader.receiver ∙ k.0) (timely.tick_later x.reader.receiver)
                (ground (arith, early, timely.tick_most x.reader.receiver))))

  -- If a pass of the loop takes time, nothing goes back in time, and a tick, a receive and a sleep each
  -- take no longer than `longest`, `read_single_frame` returns, at the latest three times `longest` after
  -- its timeout. A frame that it gives has the marks of a JPEG image at its two ends, and is made of all
  -- the bytes that it took from the channel, in order, but for those that the reader then holds.
  pub read_single_frame-Whole :
      (timeout_secs : ℕ) (r : WebcamReader S)
      → (result : Result (List ℕ)) × ((x : Gathering S) × ((read_single_frame channel timeout_secs r
              ≡ some (result, x))
            × (Whole channel log (log.taken r.receiver) result x
                × (channel.now x.reader.receiver
                    ≤ last_moment (channel.now r.receiver) timeout_secs))))
  unfolding read_single_frame
  read_single_frame-Whole timeout_secs r =
      let start : ℕ = channel.now r.receiver in
      After-some (read_single_frame channel timeout_secs r) (
        repeat_total (Gathered (log.taken r.receiver) start timeout_secs)
          (InTime (log.taken r.receiver) start (last_moment start timeout_secs))
          (frame_pass channel start timeout_secs) (left start timeout_secs)
          (frame_pass-Fine (log.taken r.receiver) start timeout_secs)
          (timeout_secs * 1_000_000_000 + 2) (fresh channel r)
          (rw (append-nil, append-nil) refl, omega arith) (omega arith))
