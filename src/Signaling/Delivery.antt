-- ===== src/Signaling/Delivery.antt =====
-- Who receives what: the frames that the handlers of offers, answers and candidates send.
use device_sdk.Base.{
  ℕ, List, [], ◌∷◌, ◌++◌, none, some, ◌≡◌, ◌≢◌, ◌⊎◌, inl, inr, ◌↔◌, refl, sym, subst, arith, Text,
  same, same_iff, retain, lookup, Option-cases, Has, if◌then◌else◌, insert, lookup-insert,
  lookup-insert_self, Has-append,
}
use device_sdk.Common.Messages.{WebRtcMessage}
use device_sdk.Common.Messages
use device_sdk.Signaling.State.{Session, WebRtcClient, Frame, text, World, Env, world_of, reply}
use device_sdk.Signaling.Handlers.{
  except, or_empty, frames_for, handle_answer, handle_offer, handle_ice_candidate,
}
use device_sdk.Signaling.Steps.{handle_offer_step, handle_answer_step, handle_ice_candidate_step}

-- The frame is `m`, addressed to the sink of a connected client that is listed.
abbrev pub Addressed : Env → World → WebRtcMessage → List Text → ℕ × Frame → Type 0
Addressed env w m ids f =
    (id : Text) × (c : WebRtcClient) × Has id ids
    × (lookup id w.clients ≡ some c)
    × (f ≡ (c.sender, text (env.encode m)))

Has-except : (x id : Text) (ids : List Text) → Has x (except id ids) ↔ (Has x ids × (x ≢ id))
unfolding retain
Has-except x id [] = (λ h. absurd h, λ h. h.0)
Has-except x id (y ∷ ys) = grind (arith, same_iff y id, Has-except x id ys)

module _ (env : Env) (w : World) (m : WebRtcMessage) where
  frames_for_absent :
      (id : Text) (ids : List Text)
      → lookup id w.clients ≡ none
      → frames_for env w.clients m (id ∷ ids) ≡ frames_for env w.clients m ids
  unfolding frames_for
  frames_for_absent id ids e = ground arith

  frames_for_present :
      (id : Text) (ids : List Text) (c : WebRtcClient)
      → lookup id w.clients ≡ some c
      → frames_for env w.clients m (id ∷ ids)
        ≡ (c.sender, text (env.encode m)) ∷ frames_for env w.clients m ids
  unfolding frames_for
  frames_for_present id ids c e = ground arith

  Addressed-cons :
      (id : Text) (ids : List Text) (f : ℕ × Frame)
      → Addressed env w m ids f
      → Addressed env w m (id ∷ ids) f
  Addressed-cons id ids f (i, c, k, e, p) = (i, c, inr k, e, p)

  frames_for_sound :
      (ids : List Text) (f : ℕ × Frame)
      → Has f (frames_for env w.clients m ids)
      → Addressed env w m ids f
  unfolding frames_for
  frames_for_sound [] f h = absurd h
  frames_for_sound (id ∷ ids) f h =
      let ih = frames_for_sound ids f in
      elim (Option-cases (lookup id w.clients)) [
        | inl e ↦ Addressed-cons id ids f (ih (subst (Has f) (frames_for_absent id ids e) h))
        | inr (c, e) ↦
            let h' : (f ≡ (c.sender, text (env.encode m)))
                ⊎ Has f (frames_for env w.clients m ids) =
              subst (Has f) (frames_for_present id ids c e) h in
            elim h' [ inl p ↦ (id, c, inl refl, e, p) | inr k ↦ Addressed-cons id ids f (ih k) ]
      ]

  frames_for_complete :
      (ids : List Text) (f : ℕ × Frame)
      → Addressed env w m ids f
      → Has f (frames_for env w.clients m ids)
  frames_for_complete [] f (id, c, h, e, p) = absurd h
  frames_for_complete (i ∷ ids) f (id, c, inl h, e, p) =
      subst (Has f)
        (sym (frames_for_present i ids c (subst (λ j. lookup j w.clients ≡ some c) h e))) (inl p)
  frames_for_complete (i ∷ ids) f (id, c, inr h, e, p) =
      let ih = frames_for_complete ids f (id, c, h, e, p) in
      elim (Option-cases (lookup i w.clients)) [
        | inl n ↦ subst (Has f) (sym (frames_for_absent i ids n)) ih
        | inr (d, n) ↦ subst (Has f) (sym (frames_for_present i ids d n)) (inr ih)
      ]

  sent_iff :
      (ids : List Text) (f : ℕ × Frame)
      → Has f (w.sent ++ frames_for env w.clients m ids) ↔ (Has f w.sent ⊎ Addressed env w m ids f)
  sent_iff ids f =
      let (to, from) = Has-append f w.sent (frames_for env w.clients m ids) in
      (
        (λ h. elim (to h) [ inl a ↦ inl a | inr b ↦ inr (frames_for_sound ids f b) ]),
        (λ h. from (elim h [ inl a ↦ inl a | inr b ↦ inr (frames_for_complete ids f b) ])),
      )

-- What the participants of session `s` but the client `id` receive.
abbrev pub Relayed : Env → World → WebRtcMessage → Session → Text → ℕ × Frame → Type 0
Relayed env w m s id f =
    (to : Text) × (c : WebRtcClient) × Has to s.participants
    × (to ≢ id)
    × (lookup to w.clients ≡ some c)
    × (f ≡ (c.sender, text (env.encode m)))

Relayed-iff :
    (env : Env) (w : World) (m : WebRtcMessage) (s : Session) (id : Text) (f : ℕ × Frame)
    → Addressed env w m (except id s.participants) f ↔ Relayed env w m s id f
Relayed-iff env w m s id f = (
  (λ (i, c, h, e, p). let (h', n) = (Has-except i id s.participants).0 h in (i, c, h', n, e, p)),
  (λ (i, c, h, n, e, p). (i, c, (Has-except i id s.participants).1 (h, n), e, p)),
)

or_iff : {A B C D : Type 0} → A ↔ (B ⊎ C) → C ↔ D → A ↔ (B ⊎ D)
or_iff h k = (
  (λ a. elim (h.0 a) [ inl b ↦ inl b | inr c ↦ inr (k.0 c) ]),
  (λ x. h.1 (elim x [ inl b ↦ inl b | inr d ↦ inr (k.1 d) ])),
)

-- An offer with an SDP for a known session is sent to each connected participant but the sender of
-- the offer, also to the creator of the session if another participant sends it, and to nobody else;
-- the frames sent before stay.
pub handle_offer-Relayed :
    (env : Env) (w : World) (m : WebRtcMessage) (s : Session) (d : Text) (f : ℕ × Frame)
    → lookup m.session_id w.sessions ≡ some s
    → m.sdp ≡ some d
    → Has f (world_of (handle_offer env m w)).sent ↔ (
        Has f w.sent
        ⊎ Relayed env w
            (reply m.client_id m.session_id Messages.offer none (some d))
            s
            m.client_id
            f)
handle_offer-Relayed env w m s d f e n = rw (handle_offer_step env w m s e d n) (
    or_iff (sent_iff env w _ (except m.client_id s.participants) f)
      (Relayed-iff env w _ s m.client_id f))

-- A candidate message for a known session is passed on unchanged to each connected participant but
-- its sender, and to nobody else; no session is changed by it.
pub handle_ice_candidate-Relayed :
    (env : Env) (w : World) (m : WebRtcMessage) (s : Session) (f : ℕ × Frame)
    → lookup m.session_id w.sessions ≡ some s
    → (Has f (world_of (handle_ice_candidate env m w)).sent
        ↔ (Has f w.sent ⊎ Relayed env w m s m.client_id f))
      × ((world_of (handle_ice_candidate env m w)).sessions ≡ w.sessions)
handle_ice_candidate-Relayed env w m s f e = rw (handle_ice_candidate_step env w m s e) (
  or_iff (sent_iff env w m (except m.client_id s.participants) f)
      (Relayed-iff env w m s m.client_id f),
  refl,
)

-- An answer with an SDP for a known session is sent to the session's creator alone, if connected.
-- It is kept as the answer of its sender; the other answers and the participants stay.
pub handle_answer-kept :
    (env : Env) (w : World) (m : WebRtcMessage) (s : Session) (d : Text)
    → lookup m.session_id w.sessions ≡ some s
    → m.sdp ≡ some d
    → let w' = world_of (handle_answer env m w) in
      ((f : ℕ × Frame)
        → Has f w'.sent ↔ (
            Has f w.sent
            ⊎ Addressed env w
                (reply s.creator_id m.session_id Messages.answer none (some d))
                (s.creator_id ∷ [])
                f))
      × ((s' : Session) × (lookup m.session_id w'.sessions ≡ some s')
          × (s'.participants ≡ s.participants)
          × ((j : Text)
              → lookup j (or_empty s'.answers)
                ≡ (if same m.client_id j then some d else lookup j (or_empty s.answers))))
handle_answer-kept env w m s d e n = rw (handle_answer_step env w m s e d n) (
  (λ f. rw n (sent_iff env w _ (s.creator_id ∷ []) f)),
  (
    record s { answers = some (insert m.client_id d (or_empty s.answers)) },
    lookup-insert_self m.session_id _ _,
    refl,
    λ j. lookup-insert m.client_id j d (or_empty s.answers),
  ),
)
