-- ===== src/Capture/Audio.antt =====
-- crates/xrds-net/src/client/xrds_webrtc/media/audio_capturer.rs: the thread that cuts the samples of
-- the microphone into frames and encodes them, and the change of their rate. A sample is a number; opus
-- and the arithmetic of `f32` are parameters.
pub mod Blocks
pub mod Samples
use device_sdk.Base.{
  ℕ, zero, suc, ◌+◌, ◌-◌, ◌*◌, ◌/◌, ◌^◌, List, [], ◌∷◌, ◌++◌, Option, none, some, Bool, true, false,
  ◌&&◌, Text, length, ltb, leb, ◌==◌, if◌then◌else◌,
}
use device_sdk.Base.Passes.{Pass, stuck, stop, go, repeat, ended}

abbrev pub opus_sample_rate : ℕ
opus_sample_rate = 48000

abbrev pub opus_channels : ℕ
opus_channels = 2

abbrev pub opus_frame_ms : ℕ
opus_frame_ms = 20

-- The samples of a frame; `none` is the overflow of `i32`.
unfoldable pub device_frame_total_samples : ℕ → ℕ → Option ℕ
device_frame_total_samples rate channels =
    let total = rate / 1000 * opus_frame_ms * channels in
    if ltb total (2 ^ 31) then some total else none

-- `(n as f32 * ratio) as usize` and `(i as f32 / ratio) as usize`, for the ratio of the two rates.
pub record Scaling : Type 0 where
  pub scaled : ℕ → ℕ
  pub source : ℕ → ℕ

-- `input[i]`; `none` is a panic.
unfoldable pub sample_at : List ℕ → ℕ → Option ℕ
sample_at [] i = none
sample_at (x ∷ xs) i = if i == 0 then some x else sample_at xs (i - 1)

abbrev pub min : ℕ → ℕ → ℕ
min a b = if ltb a b then a else b

-- `input.len() - 1` panics on an empty input.
abbrev pub last_index : List ℕ → Option ℕ
last_index [] = none
last_index (x ∷ xs) = some (length xs)

abbrev pub consed : Option ℕ → Option (List ℕ) → Option (List ℕ)
consed none rest = none
consed (some x) none = none
consed (some x) (some xs) = some (x ∷ xs)

abbrev pub indexed : List ℕ → ℕ → Option ℕ → Option ℕ
indexed input i none = none
indexed input i (some l) = sample_at input (min i l)

module _ (scaling : Scaling) where
  -- The samples from output index `i` on, `n` of them.
  unfoldable pub take_samples : List ℕ → ℕ → ℕ → Option (List ℕ)
  unfolding sample_at
  take_samples input i zero = some []
  take_samples input i (suc n) =
      let rest = take_samples input (i + 1) n in
      consed (indexed input (scaling.source i) (last_index input)) rest

  abbrev pub output_len : List ℕ → ℕ → ℕ
  output_len input output_channels =
      scaling.scaled (length input) / output_channels * output_channels

  -- `none` is a panic: no output channels, or a capacity of more bytes than `isize::MAX`, at two for a
  -- sample. The branch for two and two channels comes after the one for equal channels, which takes it.
  unfoldable pub resample_and_convert : List ℕ → ℕ → Option (List ℕ)
  unfolding take_samples
  resample_and_convert input output_channels =
      let samples = take_samples input 0 (output_len input output_channels) in
      if output_channels == 0
      then none
      else if ltb (output_len input output_channels * 2) (2 ^ 63)
      then samples
      else none

-- The thread's variables: the encoder, the samples that wait, and the frames that were sent.
pub record Thread (E : Type 0) : Type 0 where
  pub encoder : E
  pub acc : List ℕ
  pub sent : List (List ℕ)

-- `resample` is `resample_and_convert` for the device; opus gives no frame on an error. The receiver
-- is there (`connected`) or gone.
pub record Encoding (E : Type 0) : Type 0 where
  pub resample : List ℕ → List ℕ
  pub encode : E → List ℕ → Option (List ℕ) × E
  pub connected : Bool

-- `acc.drain(0..n)`: what is taken, and what stays.
unfoldable pub taken : ℕ → List ℕ → List ℕ
taken n [] = []
taken n (x ∷ xs) = if n == 0 then [] else x ∷ taken (n - 1) xs

unfoldable pub drained : ℕ → List ℕ → List ℕ
drained n [] = []
drained n (x ∷ xs) = if n == 0 then x ∷ xs else drained (n - 1) xs

module _ {E : Type 0} (enc : Encoding E) where
  -- A failed send leaves the inner loop.
  abbrev pub encoded : Option (List ℕ) → Thread E → Pass (Unit {0}) (Thread E)
  encoded none t = go t
  encoded (some opus_frame) t =
      if enc.connected then go (record t { sent = t.sent ++ opus_frame ∷ [] }) else stop tt t

  unfoldable pub frame_of : ℕ → Thread E → Pass (Unit {0}) (Thread E)
  unfolding taken drained
  frame_of total t =
      let (opus, encoder) = enc.encode t.encoder (enc.resample (taken total t.acc)) in
      if leb total (length t.acc)
      then encoded opus (record t { encoder = encoder; acc = drained total t.acc })
      else stop tt t

  -- A chunk from the device; `none`: the fuel, one for every sample, has run out.
  unfoldable pub process_chunk : ℕ → List ℕ → Thread E → Option (Unit {0} × Thread E)
  unfolding frame_of
  process_chunk total chunk t =
      repeat (frame_of total) (suc (length (t.acc ++ chunk))) (record t { acc = t.acc ++ chunk })

  abbrev pub and_then :
      Option (Unit {0} × Thread E) → (Thread E → Option (Thread E)) → Option (Thread E)
  and_then none next = none
  and_then (some (done, t)) next = next t

  -- The chunks that come before the shutdown.
  unfoldable pub process : ℕ → List (List ℕ) → Thread E → Option (Thread E)
  unfolding process_chunk
  process total [] t = some t
  process total (chunk ∷ chunks) t = and_then (process_chunk total chunk t) (process total chunks)
