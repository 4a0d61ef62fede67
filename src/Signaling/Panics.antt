-- ===== src/Signaling/Panics.antt =====
-- When the handler of a message panics, and what it leaves behind.
use device_sdk.Base.{Option, none, some, ◌≡◌, ◌≢◌, ◌⊎◌, inl, inr, refl, Text, lookup, Option-cases}
use device_sdk.Common.Messages.{WebRtcMessage}
use device_sdk.Signaling.State.{Session, World, Env, Run, returned, panicked, M}
use device_sdk.Signaling.Steps.{
  handle_offer_unknown, handle_offer_no_sdp, handle_offer_step, handle_answer_unknown,
  handle_answer_no_sdp, handle_answer_step, handle_ice_candidate_unknown, handle_ice_candidate_step,
  handle_ice_candidate_ack_unknown, handle_ice_candidate_ack_gone, handle_ice_candidate_ack_step,
  join_session_unknown, join_session_step, leave_session_unknown, leave_session_step,
  list_participants_unknown, list_participants_step,
}
use device_sdk.Signaling.Handlers.{
  handle_create_session, handle_list_session, close_session, join_session, leave_session,
  list_participants, handle_ice_candidate, handle_ice_candidate_ack, handle_offer, handle_answer,
}
use device_sdk.Signaling.Connection.{
  Kind, creates, lists, closes, joins, leaves, participants, candidates, acks, offers, answers,
  unknown, answered, dispatch,
}

-- What the handler of each kind of message unwraps.
abbrev pub Needs : World → WebRtcMessage → Kind → Type 0
Needs w m creates = Unit
Needs w m lists = Unit
Needs w m closes = Unit
Needs w m unknown = Unit
Needs w m joins = lookup m.session_id w.sessions ≢ none
Needs w m leaves = lookup m.session_id w.sessions ≢ none
Needs w m participants = lookup m.session_id w.sessions ≢ none
Needs w m candidates = lookup m.session_id w.sessions ≢ none
Needs w m acks =
    (s : Session) × (lookup m.session_id w.sessions ≡ some s)
    × (lookup s.creator_id w.clients ≢ none)
Needs w m offers = (lookup m.session_id w.sessions ≢ none) × (m.sdp ≢ none)
Needs w m answers = (lookup m.session_id w.sessions ≢ none) × (m.sdp ≢ none)

abbrev pub Returns : {A : Type 0} → Run A → Type 0
Returns (returned a w) = Unit
Returns (panicked w) = ⊥

abbrev pub PanicsQuietly : {A : Type 0} → World → Run A → Type 0
PanicsQuietly w (returned a w') = ⊥
PanicsQuietly w (panicked w') = (w'.sent ≡ w.sent) × (w'.clients ≡ w.clients)

abbrev pub Settled : {A : Type 0} → World → Type 0 → Run A → Type 0
Settled w N r = (N × Returns r) ⊎ ((¬ N) × PanicsQuietly w r)

module _ (env : Env) (w : World) where
  module _ (id : Text) where
    join_session-Settled :
        (c : Text) → Settled w (lookup id w.sessions ≢ none) (join_session env id c w)
    join_session-Settled c = elim (Option-cases (lookup id w.sessions)) [
      | inl e ↦ rw (join_session_unknown env w id c e) (inr (λ h. h e, (refl, refl)))
      | inr (s, e) ↦ rw (join_session_step env w id s e c) (inl (λ n. cc, tt))
    ]

    leave_session-Settled :
        (c : Text) → Settled w (lookup id w.sessions ≢ none) (leave_session env id c w)
    leave_session-Settled c = elim (Option-cases (lookup id w.sessions)) [
      | inl e ↦ rw (leave_session_unknown env w id c e) (inr (λ h. h e, (refl, refl)))
      | inr (s, e) ↦ rw (leave_session_step env w id s e c) (inl (λ n. cc, tt))
    ]

    list_participants-Settled : Settled w (lookup id w.sessions ≢ none) (list_participants env id w)
    list_participants-Settled = elim (Option-cases (lookup id w.sessions)) [
      | inl e ↦ rw (list_participants_unknown env w id e) (inr (λ h. h e, (refl, refl)))
      | inr (s, e) ↦ rw (list_participants_step env w id s e) (inl (λ n. cc, tt))
    ]

  module _ (m : WebRtcMessage) where
    handle_ice_candidate-Settled :
        Settled w (lookup m.session_id w.sessions ≢ none) (handle_ice_candidate env m w)
    handle_ice_candidate-Settled = elim (Option-cases (lookup m.session_id w.sessions)) [
      | inl e ↦ rw (handle_ice_candidate_unknown env w m e) (inr (λ h. h e, (refl, refl)))
      | inr (s, e) ↦ rw (handle_ice_candidate_step env w m s e) (inl (λ n. cc, tt))
    ]

    same_creator :
        (s t : Session)
        → lookup m.session_id w.sessions ≡ some s
        → lookup m.session_id w.sessions ≡ some t
        → lookup s.creator_id w.clients ≡ none
        → lookup t.creator_id w.clients ≡ none
    same_creator s t e h n = cc

    handle_ice_candidate_ack-Settled : Settled w (Needs w m acks) (handle_ice_candidate_ack env m w)
    handle_ice_candidate_ack-Settled = elim (Option-cases (lookup m.session_id w.sessions)) [
      | inl e ↦
          rw (handle_ice_candidate_ack_unknown env w m e) (inr (λ (s, h, _). cc, (refl, refl)))
      | inr (s, e) ↦ elim (Option-cases (lookup s.creator_id w.clients)) [
        | inl n ↦
            rw (handle_ice_candidate_ack_gone env w m s e n)
              (inr (λ (t, h, gone). gone (same_creator s t e h n), (refl, refl)))
        | inr (c, n) ↦
            rw (handle_ice_candidate_ack_step env w m s e c n) (inl ((s, e, λ g. cc), tt))
      ]
    ]

    handle_offer-Settled : Settled w (Needs w m offers) (handle_offer env m w)
    handle_offer-Settled = elim (Option-cases (lookup m.session_id w.sessions)) [
      | inl e ↦ rw (handle_offer_unknown env w m e) (inr (λ h. h.0 e, (refl, refl)))
      | inr (s, e) ↦ elim (Option-cases m.sdp) [
        | inl n ↦ rw (handle_offer_no_sdp env w m s e n) (inr (λ h. h.1 n, (refl, refl)))
        | inr (d, n) ↦ rw (handle_offer_step env w m s e d n) (inl ((λ g. cc, λ g. cc), tt))
      ]
    ]

    handle_answer-Settled : Settled w (Needs w m answers) (handle_answer env m w)
    handle_answer-Settled = elim (Option-cases (lookup m.session_id w.sessions)) [
      | inl e ↦ rw (handle_answer_unknown env w m e) (inr (λ h. h.0 e, (refl, refl)))
      | inr (s, e) ↦ elim (Option-cases m.sdp) [
        | inl n ↦ rw (handle_answer_no_sdp env w m s e n) (inr (λ h. h.1 n, (refl, refl)))
        | inr (d, n) ↦ rw (handle_answer_step env w m s e d n) (inl ((λ g. cc, λ g. cc), tt))
      ]
    ]

  answered-Settled :
      (N : Type 0) (f : M WebRtcMessage) → Settled w N (f w) → Settled w N (answered env f w)
  answered-Settled N f h = go (f w) h
    where
      go :
          (r : Run WebRtcMessage)
          → Settled w N r
          → Settled {A = Option Text} w N (elim r [
            | returned a w' ↦ returned (some (env.encode a)) w'
            | panicked w' ↦ panicked w'
          ])
      go (returned a w') h = h
      go (panicked w') h = h

  -- The handler of a message returns an answer exactly if what it unwraps is there: the session for
  -- most kinds, also the SDP for offers and answers, also the creator's connection for
  -- acknowledgements. Otherwise it panics, having sent no frame and changed no client.
  pub dispatch-Settled :
      (fresh : Text) (m : WebRtcMessage) (k : Kind)
      → Settled w (Needs w m k) (dispatch env fresh m k w)
  unfolding dispatch handle_create_session handle_list_session close_session
  dispatch-Settled fresh m creates = inl (tt, tt)
  dispatch-Settled fresh m lists = inl (tt, tt)
  dispatch-Settled fresh m closes = inl (tt, tt)
  dispatch-Settled fresh m unknown = inl (tt, tt)
  dispatch-Settled fresh m joins =
      answered-Settled _ (join_session env m.session_id m.client_id)
        (join_session-Settled m.session_id m.client_id)
  dispatch-Settled fresh m leaves =
      answered-Settled _ (leave_session env m.session_id m.client_id)
        (leave_session-Settled m.session_id m.client_id)
  dispatch-Settled fresh m participants =
      answered-Settled _ (list_participants env m.session_id)
        (list_participants-Settled m.session_id)
  dispatch-Settled fresh m candidates =
      answered-Settled _ (handle_ice_candidate env m) (handle_ice_candidate-Settled m)
  dispatch-Settled fresh m acks =
      answered-Settled _ (handle_ice_candidate_ack env m) (handle_ice_candidate_ack-Settled m)
  dispatch-Settled fresh m offers = answered-Settled _ (handle_offer env m) (handle_offer-Settled m)
  dispatch-Settled fresh m answers =
      answered-Settled _ (handle_answer env m) (handle_answer-Settled m)
