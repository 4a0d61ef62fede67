-- ===== src/Client/Mqtt/Polling.antt =====
-- The loop of `connect_mqtt`: its errors, its waiter, and what it forwards to `rcv_mqtt`.
use device_sdk.Base.{
  ◌<◌, List, [], ◌∷◌, Bool, true, false, ◌≡◌, ◌≢◌, ◌⊎◌, inl, inr, refl, sym, ◌∙◌, subst, arith,
}
use device_sdk.Client.Mqtt.{
  Polled, timed_out, conn_ack, published, pub_ack, sub_ack, incoming_other, disconnect,
  outgoing_other, failed, MqttTask, Turn, running, stopped, answer_waiter, succeed, push_incoming,
  fail, wake, poll, poll_all, max_errors,
}

-- The task after a turn, and whether the loop has ended.
abbrev pub task_of : Turn → MqttTask
task_of (running t) = t
task_of (stopped t) = t

abbrev pub is_stopped : Turn → Bool
is_stopped (running t) = false
is_stopped (stopped t) = true

running_ne_stopped : {t u : MqttTask} → running t ≢ stopped u
running_ne_stopped = λ e. cc

pub Turn-cases :
    (o : Turn) → ((u : MqttTask) × (o ≡ running u)) ⊎ ((u : MqttTask) × (o ≡ stopped u))
Turn-cases (running u) = inl (u, refl)
Turn-cases (stopped u) = inr (u, refl)

module _ (p : Polled) (ps : List Polled) (t u : MqttTask) where
  pub poll_all-running : poll p t ≡ running u → poll_all (p ∷ ps) t ≡ poll_all ps u
  unfolding poll_all
  poll_all-running h = ground arith

  pub poll_all-stopped : poll p t ≡ stopped u → poll_all (p ∷ ps) t ≡ stopped u
  unfolding poll_all
  poll_all-stopped h = ground arith

-- The first poll of a loop that goes on has gone on.
pub poll_all-running_split :
    (p : Polled) (ps : List Polled) (t v : MqttTask)
    → poll_all (p ∷ ps) t ≡ running v
    → (u : MqttTask) × (poll p t ≡ running u) × (poll_all ps u ≡ running v)
poll_all-running_split p ps t v e = elim (Turn-cases (poll p t)) [
  | inl (u, h) ↦ (u, h, sym (poll_all-running p ps t u h) ∙ e)
  | inr (u, h) ↦ absurd (running_ne_stopped (sym e ∙ poll_all-stopped p ps t u h))
]

-- A property of the task that every poll which goes on keeps holds after a loop that goes on.
poll_all-invariant :
    (P : MqttTask → Type 0)
    → ((p : Polled) (t u : MqttTask) → poll p t ≡ running u → P t → P u)
    → (ps : List Polled) (t u : MqttTask) → poll_all ps t ≡ running u
    → P t
    → P u
unfolding poll_all
poll_all-invariant P k [] t u e h = subst P (cc) h
poll_all-invariant P k (p ∷ ps) t v e h =
    let (u, e₁, e₂) = poll_all-running_split p ps t v e in
    poll_all-invariant P k ps u v e₂ (k p t u e₁ h)

poll-errors :
    (p : Polled) (t u : MqttTask)
    → poll p t ≡ running u
    → t.consecutive_errors < max_errors
    → u.consecutive_errors < max_errors
unfolding poll answer_waiter succeed push_incoming fail wake
poll-errors timed_out t u e h = ground arith
poll-errors conn_ack t u e h = ground arith
poll-errors (published topic payload) t u e h = ground arith
poll-errors pub_ack t u e h = ground arith
poll-errors sub_ack t u e h = ground arith
poll-errors incoming_other t u e h = ground arith
poll-errors disconnect t u e h = ground arith
poll-errors outgoing_other t u e h = ground arith
poll-errors (failed x) t u e h = ground arith
