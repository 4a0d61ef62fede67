-- ===== src/Capture/Webcam.antt =====
-- crates/xrds-net/src/client/xrds_webrtc/webcam_reader.rs: the reader of the channel that the camera's
-- thread fills, which is a parameter with its clock.
pub mod Reads
pub mod Frames
pub mod Marks
pub mod Whole
use device_sdk.Base.{
  ℕ, suc, ◌+◌, ◌-◌, ◌*◌, List, [], ◌∷◌, ◌++◌, Option, none, some, Bool, true, false, ◌&&◌, Text,
  codes, length, ltb, ◌==◌, if◌then◌else◌,
}
use device_sdk.Base.Results.{Result, ok, err}
use device_sdk.Base.Passes.{Pass, stuck, stop, again, go, ◌>>=◌, repeat}

-- What `try_recv` gives.
pub data Taken : Type 0 where
  message : List ℕ → Taken
  empty : Taken
  disconnected : Taken

-- The channel; a pass of a loop takes time, in nanoseconds, and so does a sleep.
pub record Channel (S : Type 0) : Type 0 where
  pub try_recv : S → Taken × S
  pub now : S → ℕ
  pub tick : S → S
  pub sleep : S → S

pub record WebcamReader (S : Type 0) : Type 0 where
  pub receiver : S
  pub buffer : Option (List ℕ)

-- The bytes that `read` writes, or its error.
pub data Read : Type 0 where
  bytes : List ℕ → Read
  would_block : Read
  unexpected_eof : Read

-- `data[..len]` and `data[len..]`, with `len` the smaller of the two lengths.
unfoldable pub front : ℕ → List ℕ → List ℕ
front n [] = []
front n (b ∷ bs) = if n == 0 then [] else b ∷ front (n - 1) bs

unfoldable pub back : ℕ → List ℕ → List ℕ
back n [] = []
back n (b ∷ bs) = if n == 0 then b ∷ bs else back (n - 1) bs

-- What does not fit is kept, if there is anything.
abbrev pub kept : List ℕ → Option (List ℕ)
kept [] = none
kept (b ∷ bs) = some (b ∷ bs)

module _ {S : Type 0} (channel : Channel S) where
  unfoldable pub copy_out : ℕ → List ℕ → S → Read × WebcamReader S
  unfolding front back
  copy_out cap bs s = (bytes (front cap bs), record { receiver = s; buffer = kept (back cap bs) })

  unfoldable pub read_taken : ℕ → Taken → S → Read × WebcamReader S
  unfolding copy_out
  read_taken cap (message bs) s = copy_out cap bs s
  read_taken cap empty s = (would_block, record { receiver = s; buffer = none })
  read_taken cap disconnected s = (unexpected_eof, record { receiver = s; buffer = none })

  abbrev pub read_from : ℕ → Option (List ℕ) → S → Read × WebcamReader S
  read_from cap (some bs) s = copy_out cap bs s
  read_from cap none s = let (taken, s') = channel.try_recv s in read_taken cap taken s'

  -- `cap` is the length of the caller's buffer.
  unfoldable pub read : ℕ → WebcamReader S → Read × WebcamReader S
  unfolding read_taken
  read cap r = read_from cap r.buffer r.receiver
