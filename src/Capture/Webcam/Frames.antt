-- ===== src/Capture/Webcam/Frames.antt =====
-- crates/xrds-net/src/client/xrds_webrtc/webcam_reader.rs: `read_single_frame`.
use device_sdk.Base.{
  ℕ, ◌+◌, ◌-◌, ◌*◌, List, [], ◌∷◌, ◌++◌, Option, none, Bool, ◌&&◌, codes, length, ltb, ◌==◌,
  if◌then◌else◌,
}
use device_sdk.Base.Results.{Result, ok, err}
use device_sdk.Base.Passes.{Pass, stop, go, repeat}
use device_sdk.Capture.Webcam.{
  Channel, WebcamReader, Read, bytes, would_block, unexpected_eof, read,
}

-- `data[i]`.
unfoldable pub byte_at : ℕ → List ℕ → ℕ
byte_at i [] = 0
byte_at i (b ∷ bs) = if i == 0 then b else byte_at (i - 1) bs

-- More than eight bytes, from a start-of-image mark to an end-of-image mark.
unfoldable pub is_complete : List ℕ → Bool
unfolding byte_at
is_complete frame =
    ltb 8 (length frame)
    && (byte_at 0 frame == 0xFF
        && (byte_at 1 frame == 0xD8
            && (byte_at (length frame - 2) frame == 0xFF
                && byte_at (length frame - 1) frame == 0xD9)))

-- The variables of the loop; `cap` is the length of the chunk buffer.
pub record Gathering (S : Type 0) : Type 0 where
  pub reader : WebcamReader S
  pub cap : ℕ
  pub frame_data : List ℕ

module _ {S : Type 0} (channel : Channel S) where
  abbrev pub Gathered : Type 0
  Gathered = Pass (Result (List ℕ)) (Gathering S)

  abbrev pub asleep : Gathering S → Gathering S
  asleep x = record x { reader = record x.reader { receiver = channel.sleep x.reader.receiver } }

  -- The chunk buffer is cut to the length of the chunk.
  abbrev pub extended : List ℕ → Gathering S → Gathering S
  extended chunk x = record x { cap = length chunk; frame_data = x.frame_data ++ chunk }

  abbrev pub checked : Gathering S → Gathered
  checked x = if is_complete x.frame_data then stop (ok x.frame_data) x else go x

  unfoldable pub gather : Read → Gathering S → Gathered
  unfolding is_complete
  gather (bytes []) x = go (asleep x)
  gather (bytes (b ∷ bs)) x = checked (extended (b ∷ bs) x)
  gather would_block x = go (asleep x)
  gather unexpected_eof x = stop (err (codes "Read error: Channel disconnected")) x

  unfoldable pub gather_next : Gathering S → Gathered
  unfolding gather read
  gather_next x =
      let (got, reader) = read channel x.cap x.reader in gather got (record x { reader = reader })

  -- A pass takes time.
  abbrev pub ticked : Gathering S → Gathering S
  ticked x = record x { reader = record x.reader { receiver = channel.tick x.reader.receiver } }

  unfoldable pub frame_pass : ℕ → ℕ → Gathering S → Gathered
  unfolding gather_next
  frame_pass start timeout_secs x =
      if ltb (timeout_secs * 1_000_000_000) (channel.now x.reader.receiver - start)
      then stop (err (codes "Timeout waiting for frame")) x
      else gather_next (ticked x)

  -- The buffer is dropped; a chunk buffer of eight megabytes.
  abbrev pub fresh : WebcamReader S → Gathering S
  fresh r = record { reader = record r { buffer = none }; cap = 8 * 1024 * 1024; frame_data = [] }

  -- A pass for every nanosecond of the timeout, one for the start and one for the end.
  unfoldable pub read_single_frame : ℕ → WebcamReader S → Option (Result (List ℕ) × Gathering S)
  unfolding frame_pass
  read_single_frame timeout_secs r =
      repeat (frame_pass (channel.now r.receiver) timeout_secs) (timeout_secs * 1_000_000_000 + 2)
        (fresh r)
