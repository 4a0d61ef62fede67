-- ===== src/Capture/Transcoder.antt =====
-- crates/xrds-net/src/client/xrds_webrtc/media: the transcoder of `transcoding/jpeg2h264.rs` and the
-- writers of its packets, there and in `streaming_mp4_writer.rs`. ffmpeg is a parameter.
pub mod Numbers
pub mod Writing
use device_sdk.Base.{
  ℕ, zero, suc, ◌+◌, ◌^◌, List, [], ◌∷◌, ◌++◌, Option, none, some, Bool, true, false, not, ◌&&◌,
  ◌||◌, Text, codes, length, ltb, ◌==◌, if◌then◌else◌,
}
use device_sdk.Base.Results.{Result, ok, err, ◌>>=◌}
use device_sdk.Base.Passes.{Pass, stuck, stop, again, go, repeat}

-- `T` is ffmpeg's time stamp.
pub record H264Packet (T : Type 0) : Type 0 where
  pub content : List ℕ
  pub pts : T
  pub dts : T
  pub is_keyframe : Bool

-- A packet of the encoder, with what may be missing.
pub record RawPacket (T : Type 0) : Type 0 where
  pub content : Option (List ℕ)
  pub pts : Option T
  pub dts : Option T
  pub is_key : Bool

-- A frame is numbered when it is sent. `queued` bounds the packets that are ready.
pub record Ffmpeg (T F E : Type 0) : Type 0 where
  pub stamp : ℕ → T
  pub decode : List ℕ → Result F
  pub scale : F → Result F
  pub width : F → ℕ
  pub height : F → ℕ
  pub send_frame : F → ℕ → E → Result (Unit {0}) × E
  pub send_eof : E → Result (Unit {0}) × E
  pub receive_packet : E → Option (RawPacket T) × E
  pub queued : E → ℕ

pub record Jpeg2H264Transcoder (E : Type 0) : Type 0 where
  pub width : ℕ
  pub height : ℕ
  pub encoder : E
  pub frame_count : ℕ

abbrev pub invalid_data : Text
invalid_data = codes "InvalidData"

-- Ten bytes or more that begin with the mark of a JPEG image.
unfoldable pub is_jpeg : List ℕ → Bool
is_jpeg (a ∷ b ∷ bs) = not (ltb (length (a ∷ b ∷ bs)) 10) && (a == 0xFF && b == 0xD8)
is_jpeg _ = false

abbrev pub default_to : {T : Type 0} → Option T → T → T
default_to none d = d
default_to (some t) d = t

module _ {T F E : Type 0} (ffmpeg : Ffmpeg T F E) where
  unfoldable pub decode_jpeg_bytes : List ℕ → Result F
  unfolding is_jpeg
  decode_jpeg_bytes bytes = if is_jpeg bytes then ffmpeg.decode bytes else err invalid_data

  abbrev pub fitting : ℕ → ℕ → F → Result F
  fitting width height f =
      if ffmpeg.width f == width && ffmpeg.height f == height then ok f else err (codes "Bug")

  unfoldable pub convert_frame_format_strict : Jpeg2H264Transcoder E → F → Result F
  convert_frame_format_strict t f = do f ← ffmpeg.scale f; fitting t.width t.height f

  -- What a packet with bytes adds; `n` is the stamp that stands in for a missing one.
  unfoldable pub collected : ℕ → RawPacket T → List (H264Packet T)
  collected n p = elim p.content [
    | none ↦ []
    | some bytes ↦
        record {
          content = bytes;
          pts = default_to p.pts (ffmpeg.stamp n);
          dts = default_to p.dts (ffmpeg.stamp n);
          is_keyframe = p.is_key;
        }
        ∷ []
  ]

  abbrev pub received :
      ℕ → Option (RawPacket T) → List (H264Packet T) → E → Pass (Unit {0}) (List (H264Packet T) × E)
  received n none packets e = stop tt (packets, e)
  received n (some p) packets e = go (packets ++ collected n p, e)

  unfoldable pub receive_one :
      ℕ → List (H264Packet T) × E → Pass (Unit {0}) (List (H264Packet T) × E)
  unfolding collected
  receive_one n (packets, e) = let (p, e') = ffmpeg.receive_packet e in received n p packets e'

  -- The loop on the encoder; `none`: it has run out of its fuel.
  unfoldable pub receive_packets : ℕ → E → Option (Unit {0} × (List (H264Packet T) × E))
  unfolding receive_one
  receive_packets n e = repeat (receive_one n) (suc (ffmpeg.queued e)) ([], e)

  -- The result, and the transcoder after it.
  abbrev pub Transcoded : Type 0
  Transcoded = Option (Result (List (H264Packet T)) × Jpeg2H264Transcoder E)

  abbrev pub drained :
      Jpeg2H264Transcoder E → Option (Unit {0} × (List (H264Packet T) × E)) → Transcoded
  drained t none = none
  drained t (some (done, (packets, e))) = some (ok packets, record t { encoder = e })

  abbrev pub after_send : ℕ → Jpeg2H264Transcoder E → Result (Unit {0}) → Transcoded
  after_send n t (err e) = some (err e, t)
  after_send n t (ok done) = drained t (receive_packets n t.encoder)

  -- The frame gets its number, and the count goes up before the frame is sent; 32 bits that overflow are
  -- a panic, which `none` stands for too.
  abbrev pub send_converted : Jpeg2H264Transcoder E → Result F → Transcoded
  send_converted t (err e) = some (err e, t)
  send_converted t (ok f) =
      let (sent, e) = ffmpeg.send_frame f t.frame_count t.encoder in
      if ltb (t.frame_count + 1) (2 ^ 32)
      then after_send t.frame_count (record t { encoder = e; frame_count = t.frame_count + 1 }) sent
      else none

  unfoldable pub transcode_jpeg_to_h264_packet : List ℕ → Jpeg2H264Transcoder E → Transcoded
  unfolding decode_jpeg_bytes convert_frame_format_strict receive_packets
  transcode_jpeg_to_h264_packet bytes t =
      send_converted t (decode_jpeg_bytes bytes >>= convert_frame_format_strict t)

  unfoldable pub flush_to_packets : Jpeg2H264Transcoder E → Transcoded
  unfolding receive_packets
  flush_to_packets t =
      let (sent, e) = ffmpeg.send_eof t.encoder in
      after_send t.frame_count (record t { encoder = e }) sent

-- What is set of the file's only stream before the header is written. Its time base is `1 / fps`, and
-- the kind, the codec and the pixel format are always the same.
pub record StreamSettings : Type 0 where
  pub width : ℕ
  pub height : ℕ
  pub fps : ℕ
  pub r_frame_rate : ℕ
  pub duration : Option ℕ
  pub avg_frame_rate : Option ℕ

-- The file that is written: its opening, with the stream and the header, a packet, and the end. Its
-- state has the time bases of the encoder and of the stream.
pub record Muxer (T W : Type 0) : Type 0 where
  pub output : StreamSettings → Result W
  pub write_interleaved : H264Packet T → W → Result W
  pub write_trailer : W → Result W

pub record StreamingMp4Writer (W : Type 0) : Type 0 where
  pub octx : W
  pub packet_count : ℕ

abbrev pub is_empty : List ℕ → Bool
is_empty [] = true
is_empty (b ∷ bytes) = false

abbrev pub streaming : (width height fps : ℕ) → StreamSettings
streaming width height fps = record {
  width = width;
  height = height;
  fps = fps;
  r_frame_rate = fps;
  duration = none;
  avg_frame_rate = none;
}

-- `write_h264_packets_to_mp4` also sets the duration, to the number of packets, and a second rate.
abbrev pub counted : (packets width height fps : ℕ) → StreamSettings
counted packets width height fps = record (streaming width height fps) {
  duration = some packets;
  avg_frame_rate = some fps;
}

module _ {T W : Type 0} (muxer : Muxer T W) where
  -- `StreamingMP4Writer::new`.
  unfoldable pub new : (width height fps : ℕ) → Result (StreamingMp4Writer W)
  new width height fps = do
    octx ← muxer.output (streaming width height fps)
    ok (record { octx = octx; packet_count = 0 })

  -- `StreamingMP4Writer::write_packets`; the time stamps are rescaled as the packet is written.
  unfoldable pub write_packets :
      List (H264Packet T) → StreamingMp4Writer W → Result (StreamingMp4Writer W)
  write_packets [] w = ok w
  write_packets (p ∷ ps) w =
      let written = muxer.write_interleaved p w.octx >>= (λ octx.
        write_packets ps (record w { octx = octx; packet_count = w.packet_count + 1 })) in
      let skipped = write_packets ps w in if is_empty p.content then skipped else written

  -- `StreamingMP4Writer::finalize`.
  unfoldable pub finalize : StreamingMp4Writer W → Result W
  finalize w = muxer.write_trailer w.octx

  -- The loop of `write_h264_packets_to_mp4`.
  unfoldable pub write_all : List (H264Packet T) → W → Result W
  write_all [] octx = ok octx
  write_all (p ∷ ps) octx =
      let written = muxer.write_interleaved p octx >>= write_all ps in
      let skipped = write_all ps octx in if is_empty p.content then skipped else written

  unfoldable pub write_h264_packets_to_mp4 : List (H264Packet T) → (width height fps : ℕ) → Result W
  unfolding write_all
  write_h264_packets_to_mp4 ps width height fps = do
    octx ← muxer.output (counted (length ps) width height fps)
    octx ← write_all ps octx
    muxer.write_trailer octx
