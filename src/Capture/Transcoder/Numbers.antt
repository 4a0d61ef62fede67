-- ===== src/Capture/Transcoder/Numbers.antt =====
-- crates/xrds-net/src/client/xrds_webrtc/media/transcoding/jpeg2h264.rs: the numbers of the frames.
use device_sdk.Base.{
  ℕ, suc, ◌+◌, ◌^◌, ◌≤◌, ◌<◌, List, [], ◌∷◌, Option, none, some, ◌≡◌, refl, sym, ap, ◌∙◌, subst,
  arith, length, lt→ltb,
}
use device_sdk.Base.Results.{Result, ok, err, ◌>>=◌}
use device_sdk.Base.Passes.{Ends, After, repeat_total}
use device_sdk.Capture.Transcoder.{
  Ffmpeg, H264Packet, RawPacket, Jpeg2H264Transcoder, transcode_jpeg_to_h264_packet,
  decode_jpeg_bytes, convert_frame_format_strict, receive_packets, receive_one, received,
  after_send, send_converted, drained,
}

-- Each number is smaller than the one before it.
abbrev pub Descends : ℕ → List ℕ → Type 0
Descends n [] = Unit {0}
Descends n (m ∷ ms) = (m < n) × Descends m ms

Descends-le : (m n : ℕ) (ns : List ℕ) → m ≤ n → Descends m ns → Descends n ns
Descends-le m n [] l d = tt
Descends-le m n (k ∷ ks) l (p, d) = (omega (arith, l, p), d)

module _ {T F E : Type 0} (ffmpeg : Ffmpeg T F E) where
  abbrev then_all :
      Option (Result (List (H264Packet T)) × Jpeg2H264Transcoder E)
      → (Jpeg2H264Transcoder E → Option (Jpeg2H264Transcoder E))
      → Option (Jpeg2H264Transcoder E)
  then_all none next = none
  then_all (some (r, t)) next = next t

  -- One image after the other, whatever becomes of each.
  pub transcode_all : List (List ℕ) → Jpeg2H264Transcoder E → Option (Jpeg2H264Transcoder E)
  transcode_all [] t = some t
  transcode_all (image ∷ images) t =
      then_all (transcode_jpeg_to_h264_packet ffmpeg image t) (transcode_all images)

-- An encoder with the numbers of the frames that it took, the last one first; what is queued is finite.
pub record Numbered {T F E : Type 0} (ffmpeg : Ffmpeg T F E) : Type 0 where
  pub numbers : E → List ℕ
  pub taken :
      (f : F) (n : ℕ) (e : E)
      → (ffmpeg.send_frame f n e).0 ≡ ok tt
      → numbers (ffmpeg.send_frame f n e).1 ≡ n ∷ numbers e
  pub refused :
      (f : F) (n : ℕ) (e : E) (x : List ℕ)
      → (ffmpeg.send_frame f n e).0 ≡ err x
      → numbers (ffmpeg.send_frame f n e).1 ≡ numbers e
  pub received_numbers : (e : E) → numbers (ffmpeg.receive_packet e).1 ≡ numbers e
  pub fewer :
      (e : E) (p : RawPacket T)
      → (ffmpeg.receive_packet e).0 ≡ some p
      → ffmpeg.queued (ffmpeg.receive_packet e).1 < ffmpeg.queued e

module _ {T F E : Type 0} (ffmpeg : Ffmpeg T F E) (numbered : Numbered ffmpeg) where
  module _ (ns : List ℕ) where
    abbrev Keeps : List (H264Packet T) × E → Type 0
    Keeps p = numbered.numbers p.1 ≡ ns

    abbrev KeepsFewer : ℕ → List (H264Packet T) × E → Type 0
    KeepsFewer l p = Keeps p × (ffmpeg.queued p.1 < l)

    received-Keeps :
        (n l : ℕ) (o : Option (RawPacket T)) (packets : List (H264Packet T)) (e : E)
        → numbered.numbers e ≡ ns
        → ((p : RawPacket T) → o ≡ some p → ffmpeg.queued e < l)
        → Ends ⊥ (KeepsFewer l) (λ done. Keeps) (KeepsFewer l) (received ffmpeg n o packets e)
    received-Keeps n l none packets e k f = k
    received-Keeps n l (some p) packets e k f = (k, f p refl)

    receive_packets-Keeps :
        (n : ℕ) (e : E)
        → numbered.numbers e ≡ ns
        → After ⊥ (λ done. Keeps) (receive_packets ffmpeg n e)
    unfolding receive_packets receive_one
    receive_packets-Keeps n e k =
        repeat_total Keeps (λ done. Keeps) (receive_one ffmpeg n) (λ p. ffmpeg.queued p.1)
          (λ p k.
            received-Keeps n (ffmpeg.queued p.1) (ffmpeg.receive_packet p.1).0 p.0 _
              (numbered.received_numbers p.1 ∙ k) (numbered.fewer p.1))
          (suc (ffmpeg.queued e)) ([], e) k (omega arith)

  -- The frames that were taken have falling numbers below the count, which is at most `n`.
  abbrev pub Counts : ℕ → Jpeg2H264Transcoder E → Type 0
  Counts n t = Descends t.frame_count (numbered.numbers t.encoder) × (t.frame_count ≤ n)

  abbrev Finishes : ℕ → Option (Result (List (H264Packet T)) × Jpeg2H264Transcoder E) → Type 0
  Finishes n o =
      (r : Result (List (H264Packet T))) × ((t : Jpeg2H264Transcoder E) × ((o ≡ some (r, t))
          × Counts n t))

  drained-Finishes :
      (n : ℕ) (t : Jpeg2H264Transcoder E) (o : Option (Unit {0} × (List (H264Packet T) × E)))
      → Descends t.frame_count (numbered.numbers t.encoder)
      → t.frame_count ≤ n
      → After ⊥ (λ done p. numbered.numbers p.1 ≡ numbered.numbers t.encoder) o
      → Finishes n (drained ffmpeg t o)
  drained-Finishes n t none d l k = absurd k
  drained-Finishes n t (some (done, (packets, e))) d l k = (
    ok packets,
    (record t { encoder = e }, (refl, (subst (Descends t.frame_count) (sym k) d, l))),
  )

  after_send-Finishes :
      (n k : ℕ) (t : Jpeg2H264Transcoder E) (sent : Result (Unit {0}))
      → Descends t.frame_count (numbered.numbers t.encoder)
      → t.frame_count ≤ n
      → Finishes n (after_send ffmpeg k t sent)
  after_send-Finishes n k t (err e) d l = (err e, (t, (refl, (d, l))))
  after_send-Finishes n k t (ok done) d l =
      drained-Finishes n t (receive_packets ffmpeg k t.encoder) d l
        (receive_packets-Keeps (numbered.numbers t.encoder) k t.encoder refl)

  -- A sent frame has the count as its number.
  sent-Descends :
      (f : F) (t : Jpeg2H264Transcoder E) (sent : Result (Unit {0}))
      → (ffmpeg.send_frame f t.frame_count t.encoder).0 ≡ sent
      → Descends t.frame_count (numbered.numbers t.encoder)
      → Descends
          (t.frame_count + 1)
          (numbered.numbers (ffmpeg.send_frame f t.frame_count t.encoder).1)
  sent-Descends f t (ok done) e d =
      subst (Descends (t.frame_count + 1)) (sym (numbered.taken f t.frame_count t.encoder e))
        (omega arith, d)
  sent-Descends f t (err x) e d =
      subst (Descends (t.frame_count + 1)) (sym (numbered.refused f t.frame_count t.encoder x e))
        (Descends-le t.frame_count (t.frame_count + 1) _ (omega arith) d)

  send_converted-Finishes :
      (n : ℕ) (t : Jpeg2H264Transcoder E) (r : Result F)
      → Counts n t
      → n + 1 < 2 ^ 32
      → Finishes (n + 1) (send_converted ffmpeg t r)
  send_converted-Finishes n t (err e) c l = (err e, (t, (refl, (c.0, omega (arith, c.1)))))
  send_converted-Finishes n t (ok f) c l =
      rw (lt→ltb (t.frame_count + 1) (2 ^ 32) (omega (arith, c.1, l))) (
        after_send-Finishes (n + 1) t.frame_count _ _ (sent-Descends f t _ refl c.0)
          (omega (arith, c.1)))

  -- If the packets that wait in an encoder are finitely many, a transcoder whose frames have falling
  -- numbers below its count, the last one first, returns from each of a sequence of images that does not
  -- bring the count to 2 ^ 32, whether they are decoded, converted and taken or not. Its frames then
  -- still have strictly falling numbers below the count: no time stamp is given twice.
  pub transcode_all-Counts :
      (images : List (List ℕ)) (n : ℕ) (t : Jpeg2H264Transcoder E)
      → Counts n t
      → n + length images < 2 ^ 32
      → (last : Jpeg2H264Transcoder E) × ((transcode_all ffmpeg images t ≡ some last)
          × Counts (n + length images) last)
  unfolding transcode_all transcode_jpeg_to_h264_packet
  transcode_all-Counts [] n t c l = (t, (refl, (c.0, omega (arith, c.1))))
  transcode_all-Counts (image ∷ images) n t c l =
      let (r, (t', (e, c'))) =
        send_converted-Finishes n t
          (decode_jpeg_bytes ffmpeg image >>= convert_frame_format_strict ffmpeg t) c
          (omega (arith, l)) in
      let (last, (f, d)) = transcode_all-Counts images (n + 1) t' c' (omega (arith, l)) in
      (
        last,
        (
          ap (λ o. then_all ffmpeg o (transcode_all ffmpeg images)) e ∙ f,
          (d.0, omega (arith, d.1)),
        ),
      )
