-- ===== src/Capture/Transcoder/Writing.antt =====
-- crates/xrds-net/src/client/xrds_webrtc/media: the two writers of packets.
use device_sdk.Base.{
  ℕ, length, List, [], ◌∷◌, ◌++◌, Bool, true, false, ◌≡◌, refl, sym, ap, ◌∙◌, if◌then◌else◌,
}
use device_sdk.Base.Results.{Result, ok, err, ◌>>=◌}
use device_sdk.Capture.Transcoder.{
  H264Packet, Muxer, StreamingMp4Writer, new, streaming, counted, is_empty, write_packets, finalize,
  write_all, write_h264_packets_to_mp4,
}

bind_regroup :
    {A B C : Type 0} (m : Result A) (h : A → Result C) (f : A → Result B) (g : B → Result C)
    → ((x : A) → h x ≡ (f x >>= g))
    → (m >>= h) ≡ ((m >>= f) >>= g)
bind_regroup (err e) h f g k = refl
bind_regroup (ok x) h f g k = k x

bind_same :
    {A B : Type 0} (m : Result A) (f g : A → Result B)
    → ((x : A) → f x ≡ g x)
    → (m >>= f) ≡ (m >>= g)
bind_same (err e) f g k = refl
bind_same (ok x) f g k = k x

if_same :
    {A : Type 0} (b : Bool) (x y x' y' : A)
    → x ≡ x'
    → y ≡ y'
    → (if b then x else y) ≡ (if b then x' else y')
if_same true x y x' y' p q = p
if_same false x y x' y' p q = q

if_regroup :
    {B C : Type 0} (b : Bool) (m m' : Result C) (n n' : Result B) (g : B → Result C)
    → m ≡ (n >>= g)
    → m' ≡ (n' >>= g)
    → (if b then m else m') ≡ ((if b then n else n') >>= g)
if_regroup true m m' n n' g p q = p
if_regroup false m m' n n' g p q = q

module _ {T W : Type 0} (muxer : Muxer T W) where
  write_packets-append :
      (ps qs : List (H264Packet T)) (w : StreamingMp4Writer W)
      → write_packets muxer (ps ++ qs) w ≡ (write_packets muxer ps w >>= write_packets muxer qs)
  unfolding write_packets
  write_packets-append [] qs w = refl
  write_packets-append (p ∷ ps) qs w =
      if_regroup (is_empty p.content) _ _ _ _ (write_packets muxer qs)
        (write_packets-append ps qs w)
        (bind_regroup (muxer.write_interleaved p w.octx) _ _ (write_packets muxer qs)
          (λ octx. write_packets-append ps qs _))

  -- The file of a writer that has written is the file that the other loop writes.
  write_all-write_packets :
      (ps : List (H264Packet T)) (w : StreamingMp4Writer W) (f : W → Result W)
      → (write_all muxer ps w.octx >>= f) ≡ (write_packets muxer ps w >>= (λ v. f v.octx))
  unfolding write_packets write_all
  write_all-write_packets [] w f = refl
  write_all-write_packets (p ∷ ps) w f =
      sym (if_regroup (is_empty p.content) _ _ _ _ f refl refl)
      ∙ if_regroup (is_empty p.content) _ _ _ _ (λ v. f v.octx) (write_all-write_packets ps w f)
          (sym (bind_regroup (muxer.write_interleaved p w.octx) _ _ f (λ octx. refl))
            ∙ bind_regroup (muxer.write_interleaved p w.octx) _ _ (λ v. f v.octx)
                (λ octx. write_all-write_packets ps _ f))

  -- The packets as they arrive, a call for each batch.
  pub write_batches :
      List (List (H264Packet T)) → StreamingMp4Writer W → Result (StreamingMp4Writer W)
  write_batches [] w = ok w
  write_batches (ps ∷ pss) w = write_packets muxer ps w >>= write_batches pss

  pub joined : List (List (H264Packet T)) → List (H264Packet T)
  joined [] = []
  joined (ps ∷ pss) = ps ++ joined pss

  write_batches-joined :
      (pss : List (List (H264Packet T))) (w : StreamingMp4Writer W)
      → write_packets muxer (joined pss) w ≡ write_batches pss w
  unfolding write_batches joined write_packets
  write_batches-joined [] w = refl
  write_batches-joined (ps ∷ pss) w =
      write_packets-append ps (joined pss) w
      ∙ bind_same (write_packets muxer ps w) _ _ (write_batches-joined pss)

  -- The packets that have bytes, one after the other.
  pub written : List (H264Packet T) → W → Result W
  written [] octx = ok octx
  written (p ∷ ps) octx = muxer.write_interleaved p octx >>= written ps

  pub with_bytes : List (H264Packet T) → List (H264Packet T)
  with_bytes [] = []
  with_bytes (p ∷ ps) = if is_empty p.content then with_bytes ps else p ∷ with_bytes ps

  -- What follows the header of a file: the packets that have bytes, in order, and the end.
  abbrev pub contents : List (H264Packet T) → W → Result W
  contents ps octx = written (with_bytes ps) octx >>= muxer.write_trailer

  written-if :
      (b : Bool) (p : H264Packet T) (ps : List (H264Packet T)) (octx : W)
      → (if b then written ps octx else muxer.write_interleaved p octx >>= written ps)
        ≡ written (if b then ps else p ∷ ps) octx
  unfolding written
  written-if true p ps octx = refl
  written-if false p ps octx = refl

  write_all-written :
      (ps : List (H264Packet T)) (octx : W) → write_all muxer ps octx ≡ written (with_bytes ps) octx
  unfolding write_all with_bytes written
  write_all-written [] octx = refl
  write_all-written (p ∷ ps) octx =
      if_same (is_empty p.content) _ _ _ _ (write_all-written ps octx)
        (bind_same (muxer.write_interleaved p octx) _ _ (write_all-written ps))
      ∙ written-if (is_empty p.content) p (with_bytes ps) octx

  write_batches-contents :
      (pss : List (List (H264Packet T))) (w : StreamingMp4Writer W)
      → (write_batches pss w >>= finalize muxer) ≡ contents (joined pss) w.octx
  unfolding finalize
  write_batches-contents pss w =
      ap (λ m. m >>= (λ v. muxer.write_trailer v.octx)) (sym (write_batches-joined pss w))
      ∙ sym (write_all-write_packets (joined pss) w muxer.write_trailer)
      ∙ ap (λ m. m >>= muxer.write_trailer) (write_all-written (joined pss) w.octx)

  -- Writing packets to a streaming file as they arrive, in whatever batches, and finalizing it, and
  -- `write_h264_packets_to_mp4` for all of them at once differ in the settings with which they open the
  -- file, and in nothing else: each then writes the packets that have bytes, in order, and the end, with
  -- the same errors.
  pub write_batches-write_h264_packets_to_mp4 :
      (pss : List (List (H264Packet T))) (width height fps : ℕ)
      → ((new muxer width height fps >>= (λ w. write_batches pss w >>= finalize muxer))
          ≡ (muxer.output (streaming width height fps) >>= contents (joined pss)))
        × (write_h264_packets_to_mp4 muxer (joined pss) width height fps ≡ (
            muxer.output (counted (length (joined pss)) width height fps)
            >>= contents (joined pss)))
  unfolding new write_h264_packets_to_mp4
  write_batches-write_h264_packets_to_mp4 pss width height fps = (
    sym (
        bind_regroup (muxer.output (streaming width height fps)) _ _ _
          (λ octx. sym (write_batches-contents pss (record { octx = octx; packet_count = 0 })))),
    bind_same (muxer.output (counted (length (joined pss)) width height fps)) _ _
        (λ octx. ap (λ m. m >>= muxer.write_trailer) (write_all-written (joined pss) octx)),
  )
