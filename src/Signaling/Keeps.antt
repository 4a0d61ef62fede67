-- ===== src/Signaling/Keeps.antt =====
-- What every handler keeps, the router and the loop over a client's frames keep too.
use device_sdk.Base.{ℕ, List, [], ◌∷◌, Option, none, some, Bool, true, false, Text, lookup}
use device_sdk.Common.Messages.{WebRtcMessage}
use device_sdk.Signaling.State.{
  Frame, text, close, World, Env, Run, returned, panicked, world_of, M, ◌>>=◌, unwrap, pure,
}
use device_sdk.Signaling.Handlers.{
  handle_answer, handle_create_session, handle_list_session, handle_offer, close_session,
  join_session, leave_session, list_participants, handle_ice_candidate, handle_ice_candidate_ack,
}
use device_sdk.Signaling.Connection.{
  Kind, creates, lists, closes, joins, leaves, participants, candidates, acks, offers, answers,
  unknown, kind_of, answered, dispatch, signaling_handler, push, respond, remove_client, Incoming,
  message, closing, failed, ended, serve, welcome_frame, greet, handle_connection,
}

-- The predicate survives the step, whether it returns or panics.
abbrev pub Keeps : {A : Type 0} → (World → Type 0) → (World → Run A) → Type 0
Keeps P f = (w : World) → P w → P (world_of (f w))

module _ (P : World → Type 0) where
  pub bind-Keeps :
      {A B : Type 0} (m : M A) (f : A → M B)
      → Keeps P m
      → ((a : A) → Keeps P (f a))
      → Keeps P (m >>= f)
  bind-Keeps m f k l w v = go (m w) (k w v)
    where
      go :
          (r : Run _)
          → P (world_of r)
          → P (world_of (elim r [ returned a w' ↦ f a w' | panicked w' ↦ panicked w' ]))
      go (returned a w') h = l a w' h
      go (panicked w') h = h

  pub unwrap-Keeps : {A : Type 0} (o : Option A) → Keeps P (unwrap o)
  unwrap-Keeps none w v = v
  unwrap-Keeps (some a) w v = v

  module _ (env : Env) where
    -- Every handler that the message may reach keeps the predicate.
    pub record Handled (fresh : Text) (m : WebRtcMessage) : Type 0 where
      pub creates : Keeps P (handle_create_session env fresh m)
      pub lists : Keeps P (handle_list_session env m)
      pub closes : Keeps P (close_session env m.session_id)
      pub joins : Keeps P (join_session env m.session_id m.client_id)
      pub leaves : Keeps P (leave_session env m.session_id m.client_id)
      pub participants : Keeps P (list_participants env m.session_id)
      pub candidates : Keeps P (handle_ice_candidate env m)
      pub acks : Keeps P (handle_ice_candidate_ack env m)
      pub offers : Keeps P (handle_offer env m)
      pub answers : Keeps P (handle_answer env m)

    answered-Keeps : (m : M WebRtcMessage) → Keeps P m → Keeps P (answered env m)
    answered-Keeps m k = bind-Keeps m _ k (λ r w v. v)

    pub dispatch-Keeps :
        (fresh : Text) (m : WebRtcMessage) (k : Kind)
        → Handled fresh m
        → Keeps P (dispatch env fresh m k)
    unfolding dispatch
    dispatch-Keeps fresh m creates h = answered-Keeps (handle_create_session env fresh m) h.creates
    dispatch-Keeps fresh m lists h = answered-Keeps (handle_list_session env m) h.lists
    dispatch-Keeps fresh m closes h = answered-Keeps (close_session env m.session_id) h.closes
    dispatch-Keeps fresh m joins h =
        answered-Keeps (join_session env m.session_id m.client_id) h.joins
    dispatch-Keeps fresh m leaves h =
        answered-Keeps (leave_session env m.session_id m.client_id) h.leaves
    dispatch-Keeps fresh m participants h =
        answered-Keeps (list_participants env m.session_id) h.participants
    dispatch-Keeps fresh m candidates h = answered-Keeps (handle_ice_candidate env m) h.candidates
    dispatch-Keeps fresh m acks h = answered-Keeps (handle_ice_candidate_ack env m) h.acks
    dispatch-Keeps fresh m offers h = answered-Keeps (handle_offer env m) h.offers
    dispatch-Keeps fresh m answers h = answered-Keeps (handle_answer env m) h.answers
    dispatch-Keeps fresh m unknown h = λ w v. v

    pub signaling_handler-Keeps :
        (fresh input : Text)
        → ((m : WebRtcMessage) → Handled fresh m)
        → Keeps P (signaling_handler env fresh input)
    unfolding signaling_handler
    signaling_handler-Keeps fresh input h =
        bind-Keeps (unwrap (env.decode input)) _ (unwrap-Keeps (env.decode input))
          (λ m. dispatch-Keeps fresh m (kind_of m.message_type) (h m))

    -- What the loop needs besides: sending a frame, and removing a client, keep the predicate.
    pub record Serving (blocking : Bool) : Type 0 where
      pub handled : (fresh : Text) (m : WebRtcMessage) → Handled fresh m
      pub sends : (sink : ℕ) (f : Frame) → Keeps P (push env sink f)
      pub removes : (id : Text) → Keeps P (remove_client env blocking id)

    respond-Keeps :
        (blocking : Bool)
        → Serving blocking
        → (sink : ℕ) (r : Option Text) → Keeps P (respond env sink r)
    respond-Keeps blocking h sink none = λ w v. v
    respond-Keeps blocking h sink (some r) = h.sends sink (text r)

    serve-Keeps :
        (blocking : Bool) (h : Serving blocking) (id : Text) (sink : ℕ)
        (incoming : List (Incoming × Text))
        → Keeps P (serve env blocking id sink incoming)
    unfolding serve
    serve-Keeps blocking h id sink [] = λ w v. v
    serve-Keeps blocking h id sink ((failed, _) ∷ _) =
        bind-Keeps (push env sink close) (λ _. pure ended) (h.sends sink close) (λ _ w v. v)
    serve-Keeps blocking h id sink ((closing, _) ∷ _) =
        bind-Keeps (remove_client env blocking id) (λ _. pure ended) (h.removes id) (λ _ w v. v)
    serve-Keeps blocking h id sink ((message input, fresh) ∷ rest) =
        bind-Keeps (signaling_handler env fresh input) _
          (signaling_handler-Keeps fresh input (h.handled fresh))
          (λ r.
            bind-Keeps (respond env sink r) _ (respond-Keeps blocking h sink r)
              (λ _. serve-Keeps blocking h id sink rest))

    greet-Keeps :
        (blocking : Bool) (h : Serving blocking) (id : Text) (incoming : List (Incoming × Text))
        (delivered : Bool) (sink : ℕ)
        → Keeps P (greet env blocking id incoming delivered sink)
    unfolding greet
    greet-Keeps blocking h id incoming false sink = λ w v. v
    greet-Keeps blocking h id incoming true sink =
        bind-Keeps (push env sink (welcome_frame env id)) (λ _. serve env blocking id sink incoming)
          (h.sends sink (welcome_frame env id)) (λ _. serve-Keeps blocking h id sink incoming)

    pub handle_connection-Keeps :
        (blocking : Bool) (h : Serving blocking) (delivered : Bool) (id : Text)
        (incoming : List (Incoming × Text))
        → Keeps P (handle_connection env blocking delivered id incoming)
    unfolding handle_connection
    handle_connection-Keeps blocking h delivered id incoming =
        bind-Keeps (λ w. unwrap (lookup id w.clients) w) _
          (λ w. unwrap-Keeps (lookup id w.clients) w)
          (λ c. greet-Keeps blocking h id incoming delivered c.sender)
