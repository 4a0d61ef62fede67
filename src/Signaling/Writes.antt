-- ===== src/Signaling/Writes.antt =====
-- A predicate that survives the writes of a handler, a session stored or dropped under the
-- identifiers that the message names and a longer list of frames, survives the handler.
use device_sdk.Base.{ℕ, List, inl, inr, Text, lookup, insert, delete, Option-cases}
use device_sdk.Common.Messages.{WebRtcMessage}
use device_sdk.Signaling.State.{Session, Frame, World, Env}
use device_sdk.Signaling.Handlers.{
  handle_answer, handle_create_session, handle_list_session, handle_offer, close_session,
  join_session, leave_session, list_participants, handle_ice_candidate, handle_ice_candidate_ack,
}
use device_sdk.Signaling.Steps.{
  handle_offer_unknown, handle_offer_no_sdp, handle_offer_step, handle_answer_unknown,
  handle_answer_no_sdp, handle_answer_step, handle_ice_candidate_unknown, handle_ice_candidate_step,
  handle_ice_candidate_ack_unknown, handle_ice_candidate_ack_gone, handle_ice_candidate_ack_step,
  join_session_unknown, join_session_step, leave_session_unknown, leave_session_step,
  list_participants_unknown, list_participants_step,
}
use device_sdk.Signaling.Connection.{push}
use device_sdk.Signaling.Keeps.{Keeps, Handled}

-- `P` survives writes to the sessions with an identifier in `Free`, and the sending of frames.
pub record Survives (P : World → Type 0) (Free : Text → Type 0) : Type 0 where
  pub put :
      (w : World) (k : Text) (s : Session)
      → Free k
      → P w
      → P (record w { sessions = insert k s w.sessions })
  pub drop : (w : World) (k : Text) → Free k → P w → P (record w { sessions = delete k w.sessions })
  pub send : (w : World) (l : List (ℕ × Frame)) → P w → P (record w { sent = l })

module _ (env : Env) (P : World → Type 0) (Free : Text → Type 0) (h : Survives P Free) where
  module _ (m : WebRtcMessage) (free : Free m.session_id) where
    offer-Keeps : Keeps P (handle_offer env m)
    offer-Keeps w v = elim (Option-cases (lookup m.session_id w.sessions)) [
      | inl e ↦ rw (handle_offer_unknown env w m e) v
      | inr (s, e) ↦ elim (Option-cases m.sdp) [
        | inl n ↦ rw (handle_offer_no_sdp env w m s e n) v
        | inr (d, n) ↦
            rw (handle_offer_step env w m s e d n) (h.send _ _ (h.put w m.session_id _ free v))
      ]
    ]

    answer-Keeps : Keeps P (handle_answer env m)
    answer-Keeps w v = elim (Option-cases (lookup m.session_id w.sessions)) [
      | inl e ↦ rw (handle_answer_unknown env w m e) v
      | inr (s, e) ↦ elim (Option-cases m.sdp) [
        | inl n ↦ rw (handle_answer_no_sdp env w m s e n) (h.put w m.session_id _ free v)
        | inr (d, n) ↦
            rw (handle_answer_step env w m s e d n)
              (h.send _ _ (h.put _ m.session_id _ free (h.put w m.session_id _ free v)))
      ]
    ]

    candidate-Keeps : Keeps P (handle_ice_candidate env m)
    candidate-Keeps w v = elim (Option-cases (lookup m.session_id w.sessions)) [
      | inl e ↦ rw (handle_ice_candidate_unknown env w m e) v
      | inr (s, e) ↦ rw (handle_ice_candidate_step env w m s e) (h.send w _ v)
    ]

    ack-Keeps : Keeps P (handle_ice_candidate_ack env m)
    ack-Keeps w v = elim (Option-cases (lookup m.session_id w.sessions)) [
      | inl e ↦ rw (handle_ice_candidate_ack_unknown env w m e) v
      | inr (s, e) ↦ elim (Option-cases (lookup s.creator_id w.clients)) [
        | inl n ↦ rw (handle_ice_candidate_ack_gone env w m s e n) v
        | inr (c, n) ↦ rw (handle_ice_candidate_ack_step env w m s e c n) (h.send w _ v)
      ]
    ]

  module _ (id : Text) (free : Free id) where
    close-Keeps : Keeps P (close_session env id)
    unfolding close_session
    close-Keeps w v = h.drop w id free v

    join-Keeps : (c : Text) → Keeps P (join_session env id c)
    join-Keeps c w v = elim (Option-cases (lookup id w.sessions)) [
      | inl e ↦ rw (join_session_unknown env w id c e) v
      | inr (s, e) ↦ rw (join_session_step env w id s e c) (h.put w id _ free v)
    ]

    leave-Keeps : (c : Text) → Keeps P (leave_session env id c)
    leave-Keeps c w v = elim (Option-cases (lookup id w.sessions)) [
      | inl e ↦ rw (leave_session_unknown env w id c e) v
      | inr (s, e) ↦ rw (leave_session_step env w id s e c) (h.put w id _ free v)
    ]

    participants-Keeps : Keeps P (list_participants env id)
    participants-Keeps w v = elim (Option-cases (lookup id w.sessions)) [
      | inl e ↦ rw (list_participants_unknown env w id e) v
      | inr (s, e) ↦ rw (list_participants_step env w id s e) v
    ]

  create-Keeps :
      (fresh : Text) (m : WebRtcMessage) → Free fresh → Keeps P (handle_create_session env fresh m)
  unfolding handle_create_session
  create-Keeps fresh m free w v = h.put w fresh _ free v

  list-Keeps : (m : WebRtcMessage) → Keeps P (handle_list_session env m)
  unfolding handle_list_session
  list-Keeps m w v = v

  pub Handled-of_survives :
      (fresh : Text) (m : WebRtcMessage) → Free fresh → Free m.session_id → Handled P env fresh m
  Handled-of_survives fresh m new named = record {
    creates = create-Keeps fresh m new;
    lists = list-Keeps m;
    closes = close-Keeps m.session_id named;
    joins = join-Keeps m.session_id named m.client_id;
    leaves = leave-Keeps m.session_id named m.client_id;
    participants = participants-Keeps m.session_id named;
    candidates = candidate-Keeps m named;
    acks = ack-Keeps m named;
    offers = offer-Keeps m named;
    answers = answer-Keeps m named;
  }

  pub push-Keeps : (sink : ℕ) (f : Frame) → Keeps P (push env sink f)
  unfolding push
  push-Keeps sink f w v = h.send w _ v
