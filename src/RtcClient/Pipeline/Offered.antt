-- ===== src/RtcClient/Pipeline/Offered.antt =====
-- webrtc_client.rs: what `stream_from_webcam` offers to the track, by the frames that it captured.
use mathlib.Core.List.{append_assoc, append-nil}
use device_sdk.Base.{
  ℕ, List, [], ◌∷◌, ◌++◌, Bool, true, false, Option, none, some, ◌≡◌, refl, sym, ap, ◌∙◌,
  if◌then◌else◌,
}
use device_sdk.RtcClient.Pipeline.{Transcoding, Pipeline, sent}

-- Packets without bytes make no sample.
unfoldable pub samples : List (List ℕ) → List (List ℕ)
samples [] = []
samples ([] ∷ ps) = samples ps
samples ((b ∷ bs) ∷ ps) = (b ∷ bs) ∷ samples ps

-- The samples of the packets that wait.
unfoldable pub waiting : List (List (List ℕ)) → List (List ℕ)
waiting [] = []
waiting (ps ∷ pss) = samples ps ++ waiting pss

-- The frame that the transcode task has received.
unfoldable pub held : Option (List ℕ) → List (List ℕ)
held none = []
held (some f) = f ∷ []

-- The track has the samples that `write_sample` took, in the order in which they were offered.
pub data Accepted : (offered track : List (List ℕ)) → Type 0 where
  none_offered : Accepted [] []
  took :
      (offered track : List (List ℕ)) (x : List ℕ)
      → Accepted offered track
      → Accepted (offered ++ x ∷ []) (track ++ x ∷ [])
  failed :
      (offered track : List (List ℕ)) (x : List ℕ)
      → Accepted offered track
      → Accepted (offered ++ x ∷ []) track

pub offered-Accepted :
    (ok : Bool) (offered track : List (List ℕ)) (x : List ℕ)
    → Accepted offered track
    → Accepted (offered ++ x ∷ []) (if ok then track ++ x ∷ [] else track)
offered-Accepted true offered track x a = took offered track x a
offered-Accepted false offered track x a = failed offered track x a

pub waiting-snoc :
    (pss : List (List (List ℕ))) (ps : List (List ℕ))
    → waiting (pss ++ ps ∷ []) ≡ waiting pss ++ samples ps
unfolding waiting
waiting-snoc [] ps = append-nil (samples ps)
waiting-snoc (qs ∷ pss) ps =
    ap (λ x. samples qs ++ x) (waiting-snoc pss ps)
    ∙ sym (append_assoc (samples qs) (waiting pss) (samples ps))

pub waiting-sent :
    (ps : List (List ℕ)) (pss : List (List (List ℕ)))
    → waiting (sent ps pss) ≡ waiting pss ++ samples ps
unfolding samples
waiting-sent [] pss = sym (append-nil (waiting pss))
waiting-sent (p ∷ ps) pss = waiting-snoc pss (p ∷ ps)

module _ {E : Type 0} (t : Transcoding E) where
  -- Transcoding frames one after the other: the samples, and the transcoder after them.
  unfoldable pub produced : E → List (List ℕ) → List (List ℕ) × E
  produced e [] = ([], e)
  produced e (f ∷ fs) =
      let (packets, e') = t.transcode f e in
      let (rest, e'') = produced e' fs in (samples packets ++ rest, e'')

  pub produced-snoc :
      (e : E) (fs : List (List ℕ)) (f : List ℕ)
      → produced e (fs ++ f ∷ []) ≡ (
        (produced e fs).0 ++ samples (t.transcode f (produced e fs).1).0,
        (t.transcode f (produced e fs).1).1,
      )
  unfolding produced
  produced-snoc e [] f = rw (append-nil) refl
  produced-snoc e (g ∷ fs) f = rw (produced-snoc (t.transcode g e).1 fs f, append_assoc) refl

  -- The samples offered to the track are a front of what transcoding a front of the captured frames in
  -- order gives. Before the flag is set, what they lack is the rest of the writer's batch and what waits
  -- in the channel of the packets, and, while the transcode task runs, the frames not transcoded are the
  -- one it has received and those that wait in the channel of the frames.
  pub record IsOrdered (created : Bool) (e : E) (captured : List (List ℕ)) (p : Pipeline E)
      : Type 0 where
    pub taken : List (List ℕ)
    pub later : List (List ℕ)
    pub missing : List (List ℕ)
    pub frames : captured ≡ taken ++ (held p.pending ++ later)
    pub transcoder : (produced e taken).1 ≡ p.transcoder
    pub offered : (produced e taken).0 ≡ p.offered ++ (samples p.current ++ missing)
    pub accepted : Accepted p.offered p.track
    pub running : created ≡ true → p.shutdown ≡ false → p.transcoding ≡ true
    pub packets_wait : p.shutdown ≡ false → missing ≡ waiting p.packets
    pub frames_wait : p.shutdown ≡ false → p.transcoding ≡ true → later ≡ p.frames
