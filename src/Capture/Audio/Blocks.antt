-- ===== src/Capture/Audio/Blocks.antt =====
-- crates/xrds-net/src/client/xrds_webrtc/media/audio_capturer.rs: the frames of the thread.
use mathlib.Core.List.{append_assoc, append-nil}
use device_sdk.Base.{
  ℕ, suc, ◌-◌, ◌≤◌, ◌<◌, List, [], ◌∷◌, ◌++◌, Option, none, some, true, ◌≡◌, refl, sym, ap, ◌∙◌,
  subst, arith, length, All, All-append, leb, leb→le,
}
use device_sdk.Base.Passes.{Ends, After, if-Ends, repeat_total, After-some}
use device_sdk.Capture.Audio.{
  Thread, Encoding, taken, drained, encoded, frame_of, process_chunk, process,
}

pub concat : List (List ℕ) → List ℕ
concat [] = []
concat (xs ∷ xss) = xs ++ concat xss

concat-append : (xss yss : List (List ℕ)) → concat (xss ++ yss) ≡ concat xss ++ concat yss
unfolding concat
concat-append [] yss = refl
concat-append (xs ∷ xss) yss =
    ap (λ x. xs ++ x) (concat-append xss yss) ∙ sym (append_assoc xs (concat xss) (concat yss))

concat_snoc : (xss : List (List ℕ)) (xs : List ℕ) → concat (xss ++ xs ∷ []) ≡ concat xss ++ xs
unfolding concat
concat_snoc xss xs = concat-append xss (xs ∷ []) ∙ ap (λ x. concat xss ++ x) (append-nil xs)

taken-drained : (n : ℕ) (xs : List ℕ) → taken n xs ++ drained n xs ≡ xs
unfolding taken drained
taken-drained n [] = refl
taken-drained n (x ∷ xs) = ground (arith, taken-drained (n - 1) xs)

length-taken : (n : ℕ) (xs : List ℕ) → n ≤ length xs → length (taken n xs) ≡ n
unfolding taken
length-taken n [] l = omega (arith, l)
length-taken n (x ∷ xs) l = ground (arith, length-taken (n - 1) xs)

length-drained : (n : ℕ) (xs : List ℕ) → n ≤ length xs → length (drained n xs) ≡ length xs - n
unfolding drained
length-drained n [] l = omega (arith, l)
length-drained n (x ∷ xs) l = ground (arith, length-drained (n - 1) xs)

module _ {E : Type 0} (enc : Encoding E) where
  abbrev kept : Option (List ℕ) → List (List ℕ)
  kept none = []
  kept (some opus) = opus ∷ []

  -- The encoder on one frame after the other: the opus frames, and the encoder after them.
  pub encode_all : E → List (List ℕ) → List (List ℕ) × E
  encode_all e [] = ([], e)
  encode_all e (f ∷ fs) =
      let (opus, e') = enc.encode e (enc.resample f) in
      let (rest, e'') = encode_all e' fs in (kept opus ++ rest, e'')

  encode_all-append :
      (e : E) (fs : List (List ℕ)) (f : List ℕ)
      → encode_all e (fs ++ f ∷ []) ≡ (
        (encode_all e fs).0 ++ kept (enc.encode (encode_all e fs).1 (enc.resample f)).0,
        (enc.encode (encode_all e fs).1 (enc.resample f)).1,
      )
  unfolding encode_all
  encode_all-append e [] f = rw (append-nil) refl
  encode_all-append e (g ∷ fs) f =
      rw (encode_all-append (enc.encode e (enc.resample g)).1 fs f, append_assoc) refl

  module _ (first : Thread E) (n : ℕ) where
    -- The samples so far are cut into frames of `n`, which are encoded in order, and what waits.
    pub record Cut (stream : List ℕ) (t : Thread E) : Type 0 where
      pub frames : List (List ℕ)
      pub samples : stream ≡ concat frames ++ t.acc
      pub sizes : All (λ f. length f ≡ n) frames
      pub sent : t.sent ≡ first.sent ++ (encode_all first.encoder frames).0
      pub encoder : t.encoder ≡ (encode_all first.encoder frames).1

    abbrev Short : List ℕ → Unit {0} → Thread E → Type 0
    Short stream done t = Cut stream t × (length t.acc < n)

    abbrev Shorter : List ℕ → ℕ → Thread E → Type 0
    Shorter stream l t = Cut stream t × (length t.acc < l)

    encoded-Shorter :
        (stream : List ℕ) (l : ℕ) (opus : Option (List ℕ)) (t : Thread E)
        → enc.connected ≡ true
        → Shorter stream l (record t { sent = t.sent ++ kept opus })
        → Ends ⊥ (Shorter stream l) (Short stream) (Shorter stream l) (encoded enc opus t)
    encoded-Shorter stream l none t c k =
        subst (λ ss. Shorter stream l (record t { sent = ss })) (append-nil t.sent) k
    encoded-Shorter stream l (some opus) t c k =
        if-Ends ⊥ (Shorter stream l) (Short stream) (Shorter stream l) enc.connected _ _ (λ on. k)
          (λ off. absurd (cc (c, off)))

    frame-Cut :
        (stream : List ℕ) (t : Thread E)
        → n ≤ length t.acc
        → Cut stream t
        → Cut stream (record t {
          encoder = (enc.encode t.encoder (enc.resample (taken n t.acc))).1;
          acc = drained n t.acc;
          sent = t.sent ++ kept (enc.encode t.encoder (enc.resample (taken n t.acc))).0;
        })
    frame-Cut stream t l k = record {
      frames = k.frames ++ taken n t.acc ∷ [];
      samples =
          k.samples
          ∙ ap (λ x. concat k.frames ++ x) (sym (taken-drained n t.acc))
          ∙ sym (append_assoc (concat k.frames) (taken n t.acc) (drained n t.acc))
          ∙ ap (λ x. x ++ drained n t.acc) (sym (concat_snoc k.frames (taken n t.acc)));
      sizes = All-append (λ f. length f ≡ n) k.frames _ k.sizes (length-taken n t.acc l, tt);
      sent =
          rw (encode_all-append first.encoder k.frames (taken n t.acc), k.sent, k.encoder)
            (append_assoc first.sent (encode_all first.encoder k.frames).0 _);
      encoder = rw (encode_all-append first.encoder k.frames (taken n t.acc), k.encoder) refl;
    }

    frame_of-Shorter :
        (stream : List ℕ) (t : Thread E)
        → enc.connected ≡ true
        → 0 < n
        → Cut stream t
        → Ends ⊥
            (Shorter stream (length t.acc))
            (Short stream)
            (Shorter stream (length t.acc))
            (frame_of enc n t)
    unfolding frame_of
    frame_of-Shorter stream t c p k =
        if-Ends ⊥ (Shorter stream (length t.acc)) (Short stream) (Shorter stream (length t.acc))
          (leb n (length t.acc)) _ _
          (λ enough.
            encoded-Shorter stream (length t.acc)
              (enc.encode t.encoder (enc.resample (taken n t.acc))).0 _ c
              (
                frame-Cut stream t (leb→le n (length t.acc) enough) k,
                omega (
                  arith,
                  p,
                  leb→le n (length t.acc) enough,
                  length-drained n t.acc (leb→le n (length t.acc) enough),
                ),
              ))
          (λ few. (k, ground (arith, few)))

    process_chunk-Cut :
        (stream chunk : List ℕ) (t : Thread E)
        → enc.connected ≡ true
        → 0 < n
        → Cut stream t
        → After ⊥ (Short (stream ++ chunk)) (process_chunk enc n chunk t)
    unfolding process_chunk
    process_chunk-Cut stream chunk t c p k =
        repeat_total (Cut (stream ++ chunk)) (Short (stream ++ chunk)) (frame_of enc n)
          (λ t. length t.acc) (λ t k. frame_of-Shorter (stream ++ chunk) t c p k)
          (suc (length (t.acc ++ chunk))) (record t { acc = t.acc ++ chunk })
          (record {
            frames = k.frames;
            samples = ap (λ x. x ++ chunk) k.samples ∙ append_assoc (concat k.frames) t.acc chunk;
            sizes = k.sizes;
            sent = k.sent;
            encoder = k.encoder;
          })
          (omega arith)

    process-Cut :
        (stream : List ℕ) (chunks : List (List ℕ)) (t : Thread E)
        → enc.connected ≡ true
        → 0 < n
        → Cut stream t
        → length t.acc < n
        → (last : Thread E) × ((process enc n chunks t ≡ some last)
            × (Cut (stream ++ concat chunks) last × (length last.acc < n)))
    unfolding process concat
    process-Cut stream [] t c p k l =
        (t, (refl, (subst (λ x. Cut x t) (sym (append-nil stream)) k, l)))
    process-Cut stream (chunk ∷ chunks) t c p k l =
        let (done, (t', (e, (k', l')))) =
          After-some (process_chunk enc n chunk t) (process_chunk-Cut stream chunk t c p k) in
        let (last, (f, (m, q))) = process-Cut (stream ++ chunk) chunks t' c p k' l' in
        (last, (rw e f, (subst (λ x. Cut x last) (append_assoc stream chunk (concat chunks)) m, q)))

  -- While the receiver of the frames is there, and for frames of at least one sample, the thread returns
  -- after whatever chunks the device gives. The samples of the chunks, however they are grouped, are
  -- then frames of exactly that many samples, one after the other, and fewer samples than a frame that
  -- wait; what was sent is what the encoder gives for those frames, in order.
  pub process-cuts :
      (n : ℕ) (chunks : List (List ℕ)) (t : Thread E)
      → enc.connected ≡ true
      → 0 < n
      → t.acc ≡ []
      → (last : Thread E) × ((process enc n chunks t ≡ some last)
          × (Cut t n (concat chunks) last × (length last.acc < n)))
  unfolding concat encode_all
  process-cuts n chunks t c p e =
      process-Cut t n [] chunks t c p
        (record {
          frames = [];
          samples = sym e;
          sizes = tt;
          sent = sym (append-nil t.sent);
          encoder = refl;
        })
        (rw e p)
