-- ===== src/Client/Mqtt/Waiter.antt =====
-- The waiter of a subscription: it is answered once, and not left when the task stops.
use device_sdk.Base.{
  ℕ, List, [], ◌∷◌, none, some, ◌≡◌, ◌≢◌, ◌⊎◌, inl, inr, refl, sym, ap, ◌∙◌, subst, arith, Text,
  codes, leb, Bool-cases,
}
use device_sdk.Base.Results.{Result}
use device_sdk.Client.Mqtt.{
  Polled, timed_out, conn_ack, published, pub_ack, sub_ack, incoming_other, disconnect,
  outgoing_other, failed, MqttTask, stopped, answer_waiter, succeed, push_incoming, fail, wake,
  poll, poll_all, max_errors, occurs_in, saturating_suc, u8_max,
}
use device_sdk.Client.Mqtt.Polling.{task_of, Turn-cases, poll_all-running, poll_all-stopped}

some_ne_none : {w : ℕ} → some w ≢ none
some_ne_none = λ e. cc

-- The waiter `w` is still there, or it has been answered, once.
abbrev pub OnceAnswered : ℕ → MqttTask → MqttTask → Type 0
OnceAnswered w t u =
    ((u.pending_subscribe ≡ some w) × (u.answered ≡ t.answered))
    ⊎ ((u.pending_subscribe ≡ none) × (r : Result (Unit {0})) × (u.answered ≡ (w, r) ∷ t.answered))

answer_waiter-OnceAnswered :
    (w : ℕ) (r : Result (Unit {0})) (t : MqttTask)
    → t.pending_subscribe ≡ some w
    → OnceAnswered w t (answer_waiter r t)
unfolding answer_waiter
answer_waiter-OnceAnswered w r t h = rw h (inr (refl, r, refl))

fail-OnceAnswered :
    (w : ℕ) (e : Text) (t : MqttTask)
    → t.pending_subscribe ≡ some w
    → OnceAnswered w t (task_of (fail e t))
unfolding fail
fail-OnceAnswered w e t h = elim (Bool-cases (occurs_in (codes "os error 10054") e)) [
  | inl closed ↦ rw closed (answer_waiter-OnceAnswered w _ t h)
  | inr unclosed ↦ elim (Bool-cases (leb max_errors (saturating_suc u8_max t.consecutive_errors))) [
    | inl many ↦ rw (unclosed, many) (answer_waiter-OnceAnswered w _ _ h)
    | inr few ↦ rw (unclosed, few) (inl (h, refl))
  ]
]

poll-OnceAnswered :
    (w : ℕ) (p : Polled) (t : MqttTask)
    → t.pending_subscribe ≡ some w
    → OnceAnswered w t (task_of (poll p t))
unfolding poll answer_waiter succeed push_incoming fail wake
poll-OnceAnswered w timed_out t h = inl (h, refl)
poll-OnceAnswered w conn_ack t h = inl (h, refl)
poll-OnceAnswered w (published topic payload) t h = inl (h, refl)
poll-OnceAnswered w pub_ack t h = inl (h, refl)
poll-OnceAnswered w sub_ack t h = rw h (inr (refl, _, refl))
poll-OnceAnswered w incoming_other t h = inl (h, refl)
poll-OnceAnswered w disconnect t h = rw h (inr (refl, _, refl))
poll-OnceAnswered w outgoing_other t h = inl (h, refl)
poll-OnceAnswered w (failed x) t h = fail-OnceAnswered w x (wake t) h

OnceAnswered-trans :
    (w : ℕ) (t u v : MqttTask)
    → u.pending_subscribe ≡ some w
    → u.answered ≡ t.answered
    → OnceAnswered w u v
    → OnceAnswered w t v
OnceAnswered-trans w t u v h a o = elim o [
  | inl (p, e) ↦ inl (p, e ∙ a)
  | inr (p, r, e) ↦ inr (p, r, e ∙ ap (λ l. (w, r) ∷ l) a)
]

answer_waiter-unwaited :
    (r : Result (Unit {0})) (t : MqttTask) → t.pending_subscribe ≡ none → answer_waiter r t ≡ t
unfolding answer_waiter
answer_waiter-unwaited r t h = rw h refl

abbrev Unwaited : MqttTask → MqttTask → Type 0
Unwaited t u = (u.pending_subscribe ≡ none) × (u.answered ≡ t.answered)

answer_waiter-Unwaited :
    (r : Result (Unit {0})) (t : MqttTask)
    → t.pending_subscribe ≡ none
    → Unwaited t (answer_waiter r t)
answer_waiter-Unwaited r t h = rw (answer_waiter-unwaited r t h) (h, refl)

fail-Unwaited :
    (e : Text) (t : MqttTask) → t.pending_subscribe ≡ none → Unwaited t (task_of (fail e t))
unfolding fail
fail-Unwaited e t h = elim (Bool-cases (occurs_in (codes "os error 10054") e)) [
  | inl closed ↦ rw closed (answer_waiter-Unwaited _ t h)
  | inr unclosed ↦ elim (Bool-cases (leb max_errors (saturating_suc u8_max t.consecutive_errors))) [
    | inl many ↦ rw (unclosed, many) (answer_waiter-Unwaited _ _ h)
    | inr few ↦ rw (unclosed, few) (h, refl)
  ]
]

poll-Unwaited :
    (p : Polled) (t : MqttTask) → t.pending_subscribe ≡ none → Unwaited t (task_of (poll p t))
unfolding poll succeed push_incoming wake
poll-Unwaited timed_out t h = (h, refl)
poll-Unwaited conn_ack t h = (h, refl)
poll-Unwaited (published topic payload) t h = (h, refl)
poll-Unwaited pub_ack t h = (h, refl)
poll-Unwaited sub_ack t h = answer_waiter-Unwaited _ _ h
poll-Unwaited incoming_other t h = (h, refl)
poll-Unwaited disconnect t h = answer_waiter-Unwaited _ _ h
poll-Unwaited outgoing_other t h = (h, refl)
poll-Unwaited (failed x) t h = fail-Unwaited x (wake t) h

keeps_OnceAnswered :
    (w : ℕ) (t : MqttTask) (p : Polled) (u : MqttTask)
    → OnceAnswered w t u
    → OnceAnswered w t (task_of (poll p u))
keeps_OnceAnswered w t p u o = elim o [
  | inl (h, a) ↦ OnceAnswered-trans w t u (task_of (poll p u)) h a (poll-OnceAnswered w p u h)
  | inr (h, r, a) ↦ let (h', a') = poll-Unwaited p u h in inr (h', r, a' ∙ a)
]

-- What every poll keeps of the task holds after the loop.
poll_all-keeps :
    (P : MqttTask → Type 0)
    → ((p : Polled) (t : MqttTask) → P t → P (task_of (poll p t)))
    → (ps : List Polled) (t : MqttTask) → P t
    → P (task_of (poll_all ps t))
unfolding poll_all
poll_all-keeps P k [] t h = h
poll_all-keeps P k (p ∷ ps) t h = elim (Turn-cases (poll p t)) [
  | inl (u, e) ↦
      rw (poll_all-running p ps t u e)
        (poll_all-keeps P k ps u (subst (λ o. P (task_of o)) e (k p t h)))
  | inr (u, e) ↦ rw (poll_all-stopped p ps t u e) (subst (λ o. P (task_of o)) e (k p t h))
]

fail-stopped : (e : Text) (t u : MqttTask) → fail e t ≡ stopped u → u.pending_subscribe ≡ none
unfolding fail answer_waiter
fail-stopped e t u h = ground arith

disconnect-stopped : (t u : MqttTask) → poll disconnect t ≡ stopped u → u.pending_subscribe ≡ none
unfolding poll answer_waiter wake
disconnect-stopped t u h = ground arith

-- A poll that stops the loop leaves no waiter.
poll-stopped : (p : Polled) (t u : MqttTask) → poll p t ≡ stopped u → u.pending_subscribe ≡ none
unfolding poll
poll-stopped timed_out t u e = cc
poll-stopped conn_ack t u e = cc
poll-stopped (published topic payload) t u e = cc
poll-stopped pub_ack t u e = cc
poll-stopped sub_ack t u e = cc
poll-stopped incoming_other t u e = cc
poll-stopped disconnect t u e = disconnect-stopped t u e
poll-stopped outgoing_other t u e = cc
poll-stopped (failed x) t u e = fail-stopped x (wake t) u e

poll_all-stopped_waiter :
    (ps : List Polled) (t u : MqttTask) → poll_all ps t ≡ stopped u → u.pending_subscribe ≡ none
unfolding poll_all
poll_all-stopped_waiter [] t u e = cc
poll_all-stopped_waiter (p ∷ ps) t u e = elim (Turn-cases (poll p t)) [
  | inl (v, h) ↦ poll_all-stopped_waiter ps v u (sym (poll_all-running p ps t v h) ∙ e)
  | inr (v, h) ↦ poll-stopped p t u (h ∙ sym (poll_all-stopped p ps t v h) ∙ e)
]

-- When the MQTT task stops, a subscriber that was waiting when it began has been answered, exactly
-- once, and nobody else has: no subscriber is left waiting for a task that is gone.
pub poll_all-answers_once :
    (w : ℕ) (ps : List Polled) (t u : MqttTask)
    → t.pending_subscribe ≡ some w
    → poll_all ps t ≡ stopped u
    → (u.pending_subscribe ≡ none) × (r : Result (Unit {0})) × (u.answered ≡ (w, r) ∷ t.answered)
poll_all-answers_once w ps t u h e =
    let end = poll_all-stopped_waiter ps t u e in
    elim (subst (λ o. OnceAnswered w t (task_of o)) e
      (poll_all-keeps (OnceAnswered w t) (keeps_OnceAnswered w t) ps t (inl (h, refl)))) [
        | inl (p, a) ↦ absurd (some_ne_none (sym p ∙ end))
        | inr q ↦ q
      ]
