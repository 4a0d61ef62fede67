-- ===== src/Signaling/Membership.antt =====
-- Joining and leaving a session.
use device_sdk.Base.{
  List, [], ◌∷◌, ◌++◌, none, some, ◌≡◌, refl, ap, ◌∙◌, arith, Text, same_refl, contains, retain,
  lookup, insert, lookup-insert_self, insert-insert, retain-Lacks, retain_of_Lacks,
  Lacks-of_contains, if◌then◌else◌, Bool-cases, inl, inr,
}
use mathlib.Core.List.{append-nil}
use device_sdk.Common.Messages
use device_sdk.Signaling.State.{Session, World, Env, returned, world_of, reply}
use device_sdk.Signaling.Handlers.{except, or_default, join_session, leave_session}
use device_sdk.Signaling.Steps.{join_session_step, leave_session_step}

except-append : (c : Text) (xs ys : List Text) → except c (xs ++ ys) ≡ except c xs ++ except c ys
unfolding retain
except-append c [] ys = refl
except-append c (x ∷ xs) ys = ground (arith, except-append c xs ys)

except-except : (c : Text) (xs : List Text) → except c (except c xs) ≡ except c xs
except-except c xs = retain_of_Lacks c (except c xs) (retain-Lacks c xs)

except_self : (c : Text) → except c (c ∷ []) ≡ []
unfolding retain
except_self c = ground (arith, same_refl c)

-- The participants after a join, whatever branch is taken.
rejoin :
    (c : Text) (ps : List Text)
    → (if contains c ps then except c ps else ps) ++ c ∷ [] ≡ except c ps ++ c ∷ []
rejoin c ps = elim (Bool-cases (contains c ps)) [
  | inl h ↦ rw h
  | inr h ↦ rw (h, retain_of_Lacks c ps (Lacks-of_contains c ps h))
]

abbrev pub joined : Session → Text → Session
joined s c = record s { participants = except c s.participants ++ c ∷ [] }

abbrev pub left : Session → Text → Session
left s c = record s { participants = except c s.participants }

abbrev pub with_session : World → Text → Session → World
with_session w id s = record w { sessions = insert id s w.sessions }

left-joined : (s : Session) (c : Text) → left (joined s c) c ≡ left s c
left-joined s c =
    ap (λ ps. let s' : Session = record s { participants = ps } in s')
      (except-append c (except c s.participants) (c ∷ [])
        ∙ (rw (except-except c s.participants, except_self c) (append-nil _)))

joined-joined : (s : Session) (c : Text) → joined (joined s c) c ≡ joined s c
joined-joined s c =
    ap
      (λ (t : Session).
        let s' : Session = record t { participants = t.participants ++ c ∷ [] } in s')
      (left-joined s c)

with_session-with_session :
    (w : World) (id : Text) (s t : Session)
    → with_session (with_session w id s) id t ≡ with_session w id t
with_session-with_session w id s t =
    ap (λ m. let w' : World = record w { sessions = m } in w') (insert-insert id s t w.sessions)

-- A join puts the client at the end and keeps the others in their order, also for a client that had
-- joined before; the session's offer, or the empty text, is the answer.
pub join_session-last :
    (env : Env) (w : World) (id c : Text) (s : Session)
    → lookup id w.sessions ≡ some s
    → join_session env id c w
      ≡ returned
          (reply c id Messages.join_session none (some (or_default s.offer)))
          (with_session w id (joined s c))
join_session-last env w id c s e = rw (join_session_step env w id s e c, rejoin c s.participants)

-- Joining a known session twice leaves the server as joining once does.
pub join_session_twice :
    (env : Env) (w : World) (id c : Text) (s : Session)
    → lookup id w.sessions ≡ some s
    → join_session env id c (world_of (join_session env id c w)) ≡ join_session env id c w
join_session_twice env w id c s e = rw (join_session-last env w id c s e) (
    join_session-last env (with_session w id (joined s c)) id c (joined s c)
      (lookup-insert_self id (joined s c) w.sessions)
    ∙ ap (returned (reply c id Messages.join_session none (some (or_default s.offer)))) (
        with_session-with_session w id (joined s c) _ ∙ ap (with_session w id) (joined-joined s c)))

-- Joining a known session and leaving it again leaves the server as leaving alone does: the client
-- is no participant, and the others stand in their order.
pub leave_session-join_session :
    (env : Env) (w : World) (id c : Text) (s : Session)
    → lookup id w.sessions ≡ some s
    → leave_session env id c (world_of (join_session env id c w))
      ≡ returned (reply c id Messages.leave_session none none) (with_session w id (left s c))
leave_session-join_session env w id c s e = rw (join_session-last env w id c s e) (
    leave_session_step env (with_session w id (joined s c)) id (joined s c)
      (lookup-insert_self id (joined s c) w.sessions) c
    ∙ ap (returned (reply c id Messages.leave_session none none))
        (with_session-with_session w id (joined s c) _ ∙ ap (with_session w id) (left-joined s c)))
