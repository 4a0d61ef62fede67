-- ===== src/RtcClient/Pipeline.antt =====
-- webrtc_client.rs: the three tasks of `stream_from_webcam` and the two channels between them, and the
-- flag that `stop_stream` sets. The steps of the tasks interleave in whatever order: a task's receive,
-- with its test of the flag, is one step, and what it does with the frame, or with each packet of a
-- batch, is a later one. What is sent to a task that has ended stays in its channel, and nobody reads it.
pub mod Offered
pub mod Order
use device_sdk.Base.{
  ℕ, List, [], ◌∷◌, ◌++◌, Bool, true, false, Option, none, some, ◌≡◌, not, if◌then◌else◌,
}

-- The transcoder: the contents of the packets of a frame (none, if it fails), and of its flush.
pub record Transcoding (E : Type 0) : Type 0 where
  pub transcode : List ℕ → E → List (List ℕ) × E
  pub flush : E → List (List ℕ)

-- `pending` is the frame that the transcode task has received, `current` what is left of the writer's
-- batch, `offered` the samples given to `write_sample`, and `track` those of them that it has taken.
pub record Pipeline (E : Type 0) : Type 0 where
  pub transcoder : E
  pub frames : List (List ℕ)
  pub pending : Option (List ℕ)
  pub packets : List (List (List ℕ))
  pub current : List (List ℕ)
  pub offered : List (List ℕ)
  pub track : List (List ℕ)
  pub transcoding : Bool
  pub writing : Bool
  pub shutdown : Bool

-- An empty list of packets is not sent.
abbrev pub sent : List (List ℕ) → List (List (List ℕ)) → List (List (List ℕ))
sent [] queue = queue
sent (p ∷ ps) queue = queue ++ (p ∷ ps) ∷ []

module _ {E : Type 0} (t : Transcoding E) where
  -- The capture task sends a frame.
  unfoldable pub capture : List ℕ → Pipeline E → Pipeline E
  capture frame p = record p { frames = p.frames ++ frame ∷ [] }

  -- The transcode task receives a frame; it breaks, and flushes, when the flag is set.
  abbrev pub receive_frame : Option (List ℕ) → List (List ℕ) → Pipeline E → Pipeline E
  receive_frame (some f) fs p = p
  receive_frame none [] p = p
  receive_frame none (f ∷ fs) p =
      if p.shutdown
      then record p {
        frames = fs;
        transcoding = false;
        packets = sent (t.flush p.transcoder) p.packets;
      }
      else record p { frames = fs; pending = some f }

  unfoldable pub receive_next : Pipeline E → Pipeline E
  receive_next p = if p.transcoding then receive_frame p.pending p.frames p else p

  -- It transcodes the frame that it has received.
  abbrev pub transcode_frame : Option (List ℕ) → Pipeline E → Pipeline E
  transcode_frame none p = p
  transcode_frame (some f) p =
      let (packets, e) = t.transcode f p.transcoder in
      record p { pending = none; transcoder = e; packets = sent packets p.packets }

  unfoldable pub transcode_next : Pipeline E → Pipeline E
  transcode_next p = transcode_frame p.pending p

  -- The writer task receives packets, when it is through with those before; it breaks when the flag is
  -- set.
  abbrev pub take_packets : List (List ℕ) → List (List (List ℕ)) → Pipeline E → Pipeline E
  take_packets (c ∷ cs) pss p = p
  take_packets [] [] p = p
  take_packets [] (ps ∷ pss) p =
      if p.shutdown
      then record p { packets = pss; writing = false }
      else record p { packets = pss; current = ps }

  unfoldable pub take_next : Pipeline E → Pipeline E
  take_next p = if p.writing then take_packets p.current p.packets p else p

  -- It gives one packet to the track, unless it has no bytes; a failure of `write_sample` is passed over.
  abbrev pub write_packet : Bool → List (List ℕ) → Pipeline E → Pipeline E
  write_packet ok [] p = p
  write_packet ok ([] ∷ ps) p = record p { current = ps }
  write_packet ok ((b ∷ bs) ∷ ps) p = record p {
    current = ps;
    offered = p.offered ++ (b ∷ bs) ∷ [];
    track = if ok then p.track ++ (b ∷ bs) ∷ [] else p.track;
  }

  unfoldable pub write_next : Bool → Pipeline E → Pipeline E
  write_next ok p = write_packet ok p.current p

  -- `stop_stream` sets the flag.
  unfoldable pub stop : Pipeline E → Pipeline E
  stop p = record p { shutdown = true }

  -- The transcode task ends at once when no transcoder can be created.
  unfoldable pub started : Bool → E → Pipeline E
  started created e = record {
    transcoder = e;
    frames = [];
    pending = none;
    packets = [];
    current = [];
    offered = [];
    track = [];
    transcoding = created;
    writing = true;
    shutdown = false;
  }

  -- The states that steps lead to from the start, with the frames that were captured on the way.
  pub data Reached (created : Bool) (e : E)
      : (captured : List (List ℕ)) (p : Pipeline E) → Type 0 where
    begins : Reached created e [] (started created e)
    captures :
        (captured : List (List ℕ)) (p : Pipeline E) (frame : List ℕ)
        → Reached created e captured p
        → Reached created e (captured ++ frame ∷ []) (capture frame p)
    receives :
        (captured : List (List ℕ)) (p : Pipeline E)
        → Reached created e captured p
        → Reached created e captured (receive_next p)
    transcodes :
        (captured : List (List ℕ)) (p : Pipeline E)
        → Reached created e captured p
        → Reached created e captured (transcode_next p)
    takes :
        (captured : List (List ℕ)) (p : Pipeline E)
        → Reached created e captured p
        → Reached created e captured (take_next p)
    writes :
        (captured : List (List ℕ)) (p : Pipeline E) (ok : Bool)
        → Reached created e captured p
        → Reached created e captured (write_next ok p)
    stops :
        (captured : List (List ℕ)) (p : Pipeline E)
        → Reached created e captured p
        → Reached created e captured (stop p)
