-- ===== src/Signaling/Validity.antt =====
-- The well-formedness of the server's maps, and that every message keeps it.
use device_sdk.Base.{
  ℕ, List, [], ◌∷◌, ◌++◌, Option, none, some, Bool, true, false, inl, inr, ◌≡◌, refl, Text,
  contains, Dict, lookup, insert, keys, Distinct, Entries, Entries-lookup, Entries-insert,
  Entries-delete, insert-Distinct, delete-Distinct, retain-Distinct, append-Distinct, retain-Lacks,
  Lacks-of_contains, Option-cases, if◌then◌else◌,
}
use device_sdk.Common.Messages.{WebRtcMessage}
use device_sdk.Signaling.State.{Session, WebRtcClient, World, Env, world_of, Frame}
use device_sdk.Signaling.Handlers.{
  except, or_empty, handle_answer, handle_create_session, handle_list_session, handle_offer,
  close_session, join_session, leave_session, list_participants, handle_ice_candidate,
  handle_ice_candidate_ack,
}
use device_sdk.Signaling.Steps.{
  handle_offer_unknown, handle_offer_no_sdp, handle_offer_step, handle_answer_unknown,
  handle_answer_no_sdp, handle_answer_step, handle_ice_candidate_unknown, handle_ice_candidate_step,
  handle_ice_candidate_ack_unknown, handle_ice_candidate_ack_gone, handle_ice_candidate_ack_step,
  join_session_unknown, join_session_step, leave_session_unknown, leave_session_step,
  list_participants_unknown, list_participants_step,
}
use device_sdk.Signaling.Connection.{
  signaling_handler, push, add_client, remove_client, Incoming, handle_connection,
}
use device_sdk.Signaling.Keeps.{Keeps, Handled, signaling_handler-Keeps, handle_connection-Keeps}

abbrev pub answer_keys : Option (Dict Text) → List Text
answer_keys none = []
answer_keys (some m) = keys m

-- A session is stored under its own identifier; no client takes part twice or has two answers.
abbrev pub IsSession : Text → Session → Type 0
IsSession id s = (s.session_id ≡ id) × Distinct s.participants × Distinct (answer_keys s.answers)

abbrev pub IsClient : Text → WebRtcClient → Type 0
IsClient id c = c.client_id ≡ id

-- Both maps have distinct keys and only such entries.
abbrev pub IsValid : World → Type 0
IsValid w =
    (Distinct (keys w.sessions) × Entries IsSession w.sessions)
    × (Distinct (keys w.clients) × Entries IsClient w.clients)

session_of :
    (w : World) (id : Text) (s : Session)
    → IsValid w
    → lookup id w.sessions ≡ some s
    → IsSession id s
session_of w id s v e = Entries-lookup IsSession id w.sessions s v.0.1 e

put_session-IsValid :
    (w : World) (id : Text) (s : Session)
    → IsValid w
    → IsSession id s
    → IsValid (record w { sessions = insert id s w.sessions })
put_session-IsValid w id s v h =
    ((insert-Distinct id s w.sessions v.0.0, Entries-insert IsSession id s w.sessions h v.0.1), v.1)

or_empty-Distinct :
    (a : Option (Dict Text)) → Distinct (answer_keys a) → Distinct (keys (or_empty a))
unfolding keys
or_empty-Distinct none h = tt
or_empty-Distinct (some m) h = h

rejoin-Distinct :
    (c : Text) (ps : List Text)
    → Distinct ps
    → (b : Bool) → contains c ps ≡ b
    → Distinct ((if b then except c ps else ps) ++ c ∷ [])
rejoin-Distinct c ps d true e = append-Distinct _ c (retain-Distinct _ ps d) (retain-Lacks c ps)
rejoin-Distinct c ps d false e = append-Distinct ps c d (Lacks-of_contains c ps e)

module _ (env : Env) where
  handle_offer-IsValid : (m : WebRtcMessage) → Keeps IsValid (handle_offer env m)
  handle_offer-IsValid m w v = elim (Option-cases (lookup m.session_id w.sessions)) [
    | inl e ↦ rw (handle_offer_unknown env w m e) v
    | inr (s, e) ↦ elim (Option-cases m.sdp) [
      | inl n ↦ rw (handle_offer_no_sdp env w m s e n) v
      | inr (d, n) ↦
          rw (handle_offer_step env w m s e d n)
            (put_session-IsValid w m.session_id _ v (session_of w m.session_id s v e))
    ]
  ]

  handle_answer-IsValid : (m : WebRtcMessage) → Keeps IsValid (handle_answer env m)
  handle_answer-IsValid m w v = elim (Option-cases (lookup m.session_id w.sessions)) [
    | inl e ↦ rw (handle_answer_unknown env w m e) v
    | inr (s, e) ↦
        let (same_id, once, answered) = session_of w m.session_id s v e in
        let distinct = or_empty-Distinct s.answers answered in
        let v' =
          put_session-IsValid w m.session_id (record s { answers = some (or_empty s.answers) }) v
            (same_id, once, distinct) in
        elim (Option-cases m.sdp) [
          | inl n ↦ rw (handle_answer_no_sdp env w m s e n) v'
          | inr (d, n) ↦ rw (handle_answer_step env w m s e d n) (
              put_session-IsValid
                (record w {
                  sessions =
                      insert m.session_id (record s { answers = some (or_empty s.answers) })
                        w.sessions;
                })
                m.session_id _ v'
                (same_id, once, insert-Distinct m.client_id d (or_empty s.answers) distinct))
        ]
  ]

  handle_create_session-IsValid :
      (fresh : Text) (m : WebRtcMessage) → Keeps IsValid (handle_create_session env fresh m)
  unfolding handle_create_session
  handle_create_session-IsValid fresh m w v = put_session-IsValid w fresh _ v (refl, (tt, tt), tt)

  close_session-IsValid : (id : Text) → Keeps IsValid (close_session env id)
  unfolding close_session
  close_session-IsValid id w v =
      ((delete-Distinct id w.sessions v.0.0, Entries-delete IsSession id w.sessions v.0.1), v.1)

  handle_list_session-IsValid : (m : WebRtcMessage) → Keeps IsValid (handle_list_session env m)
  unfolding handle_list_session
  handle_list_session-IsValid m w v = v

  join_session-IsValid : (id c : Text) → Keeps IsValid (join_session env id c)
  join_session-IsValid id c w v = elim (Option-cases (lookup id w.sessions)) [
    | inl e ↦ rw (join_session_unknown env w id c e) v
    | inr (s, e) ↦
        let (same_id, once, answered) = session_of w id s v e in
        rw (join_session_step env w id s e c) (
          put_session-IsValid w id _ v
            (same_id, rejoin-Distinct c s.participants once _ refl, answered))
  ]

  leave_session-IsValid : (id c : Text) → Keeps IsValid (leave_session env id c)
  leave_session-IsValid id c w v = elim (Option-cases (lookup id w.sessions)) [
    | inl e ↦ rw (leave_session_unknown env w id c e) v
    | inr (s, e) ↦
        let (same_id, once, answered) = session_of w id s v e in
        rw (leave_session_step env w id s e c)
          (put_session-IsValid w id _ v (same_id, retain-Distinct _ s.participants once, answered))
  ]

  list_participants-IsValid : (id : Text) → Keeps IsValid (list_participants env id)
  list_participants-IsValid id w v = elim (Option-cases (lookup id w.sessions)) [
    | inl e ↦ rw (list_participants_unknown env w id e) v
    | inr (s, e) ↦ rw (list_participants_step env w id s e) v
  ]

  handle_ice_candidate-IsValid : (m : WebRtcMessage) → Keeps IsValid (handle_ice_candidate env m)
  handle_ice_candidate-IsValid m w v = elim (Option-cases (lookup m.session_id w.sessions)) [
    | inl e ↦ rw (handle_ice_candidate_unknown env w m e) v
    | inr (s, e) ↦ rw (handle_ice_candidate_step env w m s e) v
  ]

  handle_ice_candidate_ack-IsValid :
      (m : WebRtcMessage) → Keeps IsValid (handle_ice_candidate_ack env m)
  handle_ice_candidate_ack-IsValid m w v = elim (Option-cases (lookup m.session_id w.sessions)) [
    | inl e ↦ rw (handle_ice_candidate_ack_unknown env w m e) v
    | inr (s, e) ↦ elim (Option-cases (lookup s.creator_id w.clients)) [
      | inl n ↦ rw (handle_ice_candidate_ack_gone env w m s e n) v
      | inr (c, n) ↦ rw (handle_ice_candidate_ack_step env w m s e c n) v
    ]
  ]

  Handled-IsValid : (fresh : Text) (m : WebRtcMessage) → Handled IsValid env fresh m
  Handled-IsValid fresh m = record {
    creates = handle_create_session-IsValid fresh m;
    lists = handle_list_session-IsValid m;
    closes = close_session-IsValid m.session_id;
    joins = join_session-IsValid m.session_id m.client_id;
    leaves = leave_session-IsValid m.session_id m.client_id;
    participants = list_participants-IsValid m.session_id;
    candidates = handle_ice_candidate-IsValid m;
    acks = handle_ice_candidate_ack-IsValid m;
    offers = handle_offer-IsValid m;
    answers = handle_answer-IsValid m;
  }

  remove_client-IsValid :
      (blocking : Bool) (id : Text) → Keeps IsValid (remove_client env blocking id)
  unfolding remove_client
  remove_client-IsValid true id w v =
      (v.0, (delete-Distinct id w.clients v.1.0, Entries-delete IsClient id w.clients v.1.1))
  remove_client-IsValid false id w v = v

  push-IsValid : (sink : ℕ) (f : Frame) → Keeps IsValid (push env sink f)
  unfolding push
  push-IsValid sink f w v = v

  -- Whatever bytes a message has, its handler leaves well-formed maps well formed, also if it
  -- panics.
  pub signaling_handler-IsValid :
      (fresh input : Text) (w : World)
      → IsValid w
      → IsValid (world_of (signaling_handler env fresh input w))
  signaling_handler-IsValid fresh input =
      signaling_handler-Keeps IsValid env fresh input (Handled-IsValid fresh)

  -- Serving a client to the end of its stream leaves well-formed maps well formed, whatever it sends, and
  -- whether or not the welcome message is delivered.
  pub handle_connection-IsValid :
      (blocking delivered : Bool) (id : Text) (incoming : List (Incoming × Text)) (w : World)
      → IsValid w
      → IsValid (world_of (handle_connection env blocking delivered id incoming w))
  handle_connection-IsValid blocking = handle_connection-Keeps IsValid env blocking (record {
    handled = Handled-IsValid;
    sends = push-IsValid;
    removes = remove_client-IsValid blocking;
  })

  pub add_client-IsValid : (id addr : Text) (sink : ℕ) → Keeps IsValid (add_client env id addr sink)
  unfolding add_client
  add_client-IsValid id addr sink w v = (
    v.0,
    (insert-Distinct id _ w.clients v.1.0, Entries-insert IsClient id _ w.clients refl v.1.1),
  )
