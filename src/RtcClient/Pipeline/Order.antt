-- ===== src/RtcClient/Pipeline/Order.antt =====
-- webrtc_client.rs: what `stream_from_webcam` puts on the track.
use mathlib.Core.List.{append_assoc}
use device_sdk.Base.{
  ℕ, List, [], ◌∷◌, ◌++◌, Bool, true, false, Option, none, some, ◌≡◌, refl, sym, ap, ◌∙◌,
  if◌then◌else◌,
}
use device_sdk.RtcClient.Pipeline.{
  Transcoding, Pipeline, sent, capture, receive_frame, receive_next, transcode_frame,
  transcode_next, take_packets, take_next, write_packet, write_next, stop, started, Reached, begins,
  captures, receives, transcodes, takes, writes, stops,
}
use device_sdk.RtcClient.Pipeline.Offered.{
  samples, waiting, held, none_offered, offered-Accepted, waiting-sent, produced, produced-snoc,
  IsOrdered,
}

module _ {E : Type 0} (t : Transcoding E) where
  module _ (created : Bool) (e : E) (captured : List (List ℕ)) where
    capture-IsOrdered :
        (p : Pipeline E) (frame : List ℕ)
        → IsOrdered t created e captured p
        → IsOrdered t created e (captured ++ frame ∷ []) (capture t frame p)
    unfolding capture
    capture-IsOrdered p frame o = record {
      taken = o.taken;
      later = o.later ++ frame ∷ [];
      missing = o.missing;
      frames =
          ap (λ x. x ++ frame ∷ []) o.frames
          ∙ append_assoc o.taken (held p.pending ++ o.later) (frame ∷ [])
          ∙ ap (λ x. o.taken ++ x) (append_assoc (held p.pending) o.later (frame ∷ []));
      transcoder = o.transcoder;
      offered = o.offered;
      accepted = o.accepted;
      running = o.running;
      packets_wait = o.packets_wait;
      frames_wait = λ on runs. ap (λ x. x ++ frame ∷ []) (o.frames_wait on runs);
    }

    -- After the flag is set, receiving changes nothing of what is offered.
    stopped-IsOrdered :
        (p q : Pipeline E)
        → IsOrdered t created e captured p
        → q.shutdown ≡ true
        → q.pending ≡ p.pending
        → q.transcoder ≡ p.transcoder
        → q.offered ≡ p.offered
        → q.current ≡ p.current
        → q.track ≡ p.track
        → IsOrdered t created e captured q
    stopped-IsOrdered p q o off same_pending same_transcoder same_offered same_current same_track =
        record {
          taken = o.taken;
          later = o.later;
          missing = o.missing;
          frames = rw (same_pending) o.frames;
          transcoder = o.transcoder ∙ sym same_transcoder;
          offered = rw (same_offered, same_current) o.offered;
          accepted = rw (same_offered, same_track) o.accepted;
          running = λ c on. absurd (cc (on, off));
          packets_wait = λ on. absurd (cc (on, off));
          frames_wait = λ on. absurd (cc (on, off));
        }

    stop-IsOrdered :
        (p : Pipeline E)
        → IsOrdered t created e captured p
        → IsOrdered t created e captured (stop t p)
    unfolding stop
    stop-IsOrdered p o = stopped-IsOrdered p _ o refl refl refl refl refl refl

    receive_frame-IsOrdered :
        (held_frame : Option (List ℕ)) (fs : List (List ℕ)) (p : Pipeline E)
        → p.pending ≡ held_frame
        → p.frames ≡ fs
        → p.transcoding ≡ true
        → IsOrdered t created e captured p
        → IsOrdered t created e captured (receive_frame t held_frame fs p)
    unfolding held
    receive_frame-IsOrdered (some f) fs p h q runs o = o
    receive_frame-IsOrdered none [] p h q runs o = o
    receive_frame-IsOrdered none (f ∷ fs) p h q runs o = received p.shutdown refl
      where
        received :
            (b : Bool)
            → p.shutdown ≡ b
            → IsOrdered t created e captured (
                if b
                then record p {
                  frames = fs;
                  transcoding = false;
                  packets = sent (t.flush p.transcoder) p.packets;
                }
                else record p { frames = fs; pending = some f })
        received true off = stopped-IsOrdered p _ o off refl refl refl refl refl
        received false on = record {
          taken = o.taken;
          later = fs;
          missing = o.missing;
          frames =
              o.frames
              ∙ ap (λ x. o.taken ++ x) (ap (λ x. held x ++ o.later) h ∙ o.frames_wait on runs ∙ q);
          transcoder = o.transcoder;
          offered = o.offered;
          accepted = o.accepted;
          running = o.running;
          packets_wait = o.packets_wait;
          frames_wait = λ still runs. refl;
        }

    transcode_frame-IsOrdered :
        (held_frame : Option (List ℕ)) (p : Pipeline E)
        → p.pending ≡ held_frame
        → IsOrdered t created e captured p
        → IsOrdered t created e captured (transcode_frame t held_frame p)
    unfolding held
    transcode_frame-IsOrdered none p h o = o
    transcode_frame-IsOrdered (some f) p h o = record {
      taken = o.taken ++ f ∷ [];
      later = o.later;
      missing = o.missing ++ samples (t.transcode f p.transcoder).0;
      frames =
          o.frames
          ∙ ap (λ x. o.taken ++ (held x ++ o.later)) h
          ∙ sym (append_assoc o.taken (f ∷ []) o.later);
      transcoder =
          ap (λ x. x.1) (produced-snoc t e o.taken f) ∙ ap (λ x. (t.transcode f x).1) o.transcoder;
      offered =
          ap (λ x. x.0) (produced-snoc t e o.taken f)
          ∙ ap (λ x. x ++ samples (t.transcode f (produced t e o.taken).1).0) o.offered
          ∙ append_assoc p.offered (samples p.current ++ o.missing) _
          ∙ ap (λ x. p.offered ++ x) (append_assoc (samples p.current) o.missing _)
          ∙ ap (λ x. p.offered ++ (samples p.current ++ (o.missing ++ samples (t.transcode f x).0)))
              o.transcoder;
      accepted = o.accepted;
      running = o.running;
      packets_wait = λ on.
          ap (λ x. x ++ samples (t.transcode f p.transcoder).0) (o.packets_wait on)
          ∙ sym (waiting-sent (t.transcode f p.transcoder).0 p.packets);
      frames_wait = o.frames_wait;
    }

    take_packets-IsOrdered :
        (left : List (List ℕ)) (pss : List (List (List ℕ))) (p : Pipeline E)
        → p.current ≡ left
        → p.packets ≡ pss
        → IsOrdered t created e captured p
        → IsOrdered t created e captured (take_packets t left pss p)
    unfolding waiting samples
    take_packets-IsOrdered (c ∷ cs) pss p h q o = o
    take_packets-IsOrdered [] [] p h q o = o
    take_packets-IsOrdered [] (ps ∷ pss) p h q o = received p.shutdown refl
      where
        received :
            (b : Bool)
            → p.shutdown ≡ b
            → IsOrdered t created e captured (
                if b
                then record p { packets = pss; writing = false }
                else record p { packets = pss; current = ps })
        received true off = stopped-IsOrdered p _ o off refl refl refl refl refl
        received false on = record {
          taken = o.taken;
          later = o.later;
          missing = waiting pss;
          frames = o.frames;
          transcoder = o.transcoder;
          offered =
              o.offered
              ∙ ap (λ x. p.offered ++ (samples x ++ o.missing)) h
              ∙ ap (λ x. p.offered ++ x) (o.packets_wait on ∙ ap waiting q);
          accepted = o.accepted;
          running = o.running;
          packets_wait = λ still. refl;
          frames_wait = o.frames_wait;
        }

    write_packet-IsOrdered :
        (ok : Bool) (left : List (List ℕ)) (p : Pipeline E)
        → p.current ≡ left
        → IsOrdered t created e captured p
        → IsOrdered t created e captured (write_packet t ok left p)
    unfolding samples
    write_packet-IsOrdered ok [] p h o = o
    write_packet-IsOrdered ok ([] ∷ ps) p h o = record {
      taken = o.taken;
      later = o.later;
      missing = o.missing;
      frames = o.frames;
      transcoder = o.transcoder;
      offered = o.offered ∙ ap (λ x. p.offered ++ (samples x ++ o.missing)) h;
      accepted = o.accepted;
      running = o.running;
      packets_wait = o.packets_wait;
      frames_wait = o.frames_wait;
    }
    write_packet-IsOrdered ok ((b ∷ bs) ∷ ps) p h o = record {
      taken = o.taken;
      later = o.later;
      missing = o.missing;
      frames = o.frames;
      transcoder = o.transcoder;
      offered =
          o.offered
          ∙ ap (λ x. p.offered ++ (samples x ++ o.missing)) h
          ∙ sym (append_assoc p.offered ((b ∷ bs) ∷ []) (samples ps ++ o.missing));
      accepted = offered-Accepted ok p.offered p.track (b ∷ bs) o.accepted;
      running = o.running;
      packets_wait = o.packets_wait;
      frames_wait = o.frames_wait;
    }

    receive_next-IsOrdered :
        (p : Pipeline E)
        → IsOrdered t created e captured p
        → IsOrdered t created e captured (receive_next t p)
    unfolding receive_next
    receive_next-IsOrdered p o = guarded p.transcoding refl
      where
        guarded :
            (b : Bool)
            → p.transcoding ≡ b
            → IsOrdered t created e captured (if b then receive_frame t p.pending p.frames p else p)
        guarded true runs = receive_frame-IsOrdered p.pending p.frames p refl refl runs o
        guarded false ended = o

    take_next-IsOrdered :
        (p : Pipeline E)
        → IsOrdered t created e captured p
        → IsOrdered t created e captured (take_next t p)
    unfolding take_next
    take_next-IsOrdered p o = guarded p.writing
      where
        guarded :
            (b : Bool)
            → IsOrdered t created e captured (if b then take_packets t p.current p.packets p else p)
        guarded true = take_packets-IsOrdered p.current p.packets p refl refl o
        guarded false = o

  started-IsOrdered : (created : Bool) (e : E) → IsOrdered t created e [] (started t created e)
  unfolding produced waiting held samples started
  started-IsOrdered created e = record {
    taken = [];
    later = [];
    missing = [];
    frames = refl;
    transcoder = refl;
    offered = refl;
    accepted = none_offered;
    running = λ c on. c;
    packets_wait = λ on. refl;
    frames_wait = λ on runs. refl;
  }

  -- However the steps of the capture, the transcode task, the writer and the stop interleave, whether or
  -- not a transcoder can be created: the samples offered to the track, also after the stop, are in order
  -- a front of what transcoding a front of the captured frames one after the other gives, none twice;
  -- the track has, in that order, those that `write_sample` took. While the flag is not set, all that is
  -- not yet offered is in the writer's batch, in the channel of the packets, or, if a transcoder was
  -- created, with the transcode task or in the channel of the frames.
  pub Reached-IsOrdered :
      (created : Bool) (e : E) (captured : List (List ℕ)) (p : Pipeline E)
      → Reached t created e captured p
      → IsOrdered t created e captured p
  unfolding transcode_next write_next
  Reached-IsOrdered c e _ _ begins = started-IsOrdered c e
  Reached-IsOrdered c e _ _ (captures captured p frame r) =
      capture-IsOrdered c e captured p frame (Reached-IsOrdered c e captured p r)
  Reached-IsOrdered c e captured _ (receives _ p r) =
      receive_next-IsOrdered c e captured p (Reached-IsOrdered c e captured p r)
  Reached-IsOrdered c e captured _ (transcodes _ p r) =
      transcode_frame-IsOrdered c e captured p.pending p refl (Reached-IsOrdered c e captured p r)
  Reached-IsOrdered c e captured _ (takes _ p r) =
      take_next-IsOrdered c e captured p (Reached-IsOrdered c e captured p r)
  Reached-IsOrdered c e captured _ (writes _ p ok r) =
      write_packet-IsOrdered c e captured ok p.current p refl (Reached-IsOrdered c e captured p r)
  Reached-IsOrdered c e captured _ (stops _ p r) =
      stop-IsOrdered c e captured p (Reached-IsOrdered c e captured p r)
