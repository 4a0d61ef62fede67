-- ===== src/Client/Mqtt/Slot.antt =====
-- The slot for one pending subscription.
use device_sdk.Base.{
  ℕ, List, [], ◌∷◌, none, some, ◌≡◌, ◌≢◌, inl, inr, refl, sym, ap, ◌∙◌, arith, Text, codes,
  Option-cases,
}
use device_sdk.Base.Results.{ok, err}
use device_sdk.Client.Mqtt.{
  Polled, timed_out, conn_ack, published, pub_ack, sub_ack, incoming_other, disconnect,
  outgoing_other, failed, MqttTask, running, answer_waiter, succeed, push_incoming, fail, wake,
  poll, poll_all, take_slot,
}
use device_sdk.Client.Mqtt.Polling.{poll_all-running_split}
use device_sdk.Client.Mqtt.Forwarding.{running-injective}

err_ne_ok : {e : Text} {a : Unit {0}} → err e ≢ ok a
err_ne_ok = λ e. cc

-- No acknowledgement of a subscription.
abbrev pub Unacknowledged : List Polled → Type 0
Unacknowledged [] = Unit
Unacknowledged (p ∷ ps) = (p ≢ sub_ack) × Unacknowledged ps

poll-waiting :
    (w : ℕ) (p : Polled) (t u : MqttTask)
    → t.pending_subscribe ≡ some w
    → p ≢ sub_ack
    → poll p t ≡ running u
    → u.pending_subscribe ≡ some w
unfolding poll succeed push_incoming wake fail answer_waiter
poll-waiting w timed_out t u h n e = ap (λ v. v.pending_subscribe) (running-injective e) ∙ h
poll-waiting w conn_ack t u h n e = ap (λ v. v.pending_subscribe) (running-injective e) ∙ h
poll-waiting w (published topic payload) t u h n e =
    ap (λ v. v.pending_subscribe) (running-injective e) ∙ h
poll-waiting w pub_ack t u h n e = ap (λ v. v.pending_subscribe) (running-injective e) ∙ h
poll-waiting w sub_ack t u h n e = absurd (n refl)
poll-waiting w incoming_other t u h n e = ap (λ v. v.pending_subscribe) (running-injective e) ∙ h
poll-waiting w disconnect t u h n e = cc
poll-waiting w outgoing_other t u h n e = ap (λ v. v.pending_subscribe) (running-injective e) ∙ h
poll-waiting w (failed x) t u h n e = ground arith

poll_all-waiting :
    (w : ℕ) (ps : List Polled) (t u : MqttTask)
    → t.pending_subscribe ≡ some w
    → Unacknowledged ps
    → poll_all ps t ≡ running u
    → u.pending_subscribe ≡ some w
unfolding poll_all
poll_all-waiting w [] t u h n e = ap (λ v. v.pending_subscribe) (running-injective e) ∙ h
poll_all-waiting w (p ∷ ps) t v h (n, ns) e =
    let (u, e₁, e₂) = poll_all-running_split p ps t v e in
    poll_all-waiting w ps u v (poll-waiting w p t u h n e₁) ns e₂

take_slot-free :
    (w : ℕ) (t : MqttTask)
    → t.pending_subscribe ≡ none
    → take_slot w t ≡ (ok tt, record t { pending_subscribe = some w })
unfolding take_slot
take_slot-free w t h = rw h refl

take_slot-occupied :
    (w v : ℕ) (t : MqttTask)
    → t.pending_subscribe ≡ some v
    → take_slot w t ≡ (err (codes "Another MQTT subscribe operation is already pending."), t)
unfolding take_slot
take_slot-occupied w v t h = rw h refl

take_slot-taken :
    (w : ℕ) (t u : MqttTask) → take_slot w t ≡ (ok tt, u) → u.pending_subscribe ≡ some w
unfolding take_slot
take_slot-taken w t u h = elim (Option-cases t.pending_subscribe) [
  | inl e ↦ ap (λ q. q.1.pending_subscribe) (sym h ∙ take_slot-free w t e)
  | inr (v, e) ↦
      absurd (err_ne_ok (sym (ap (λ q. q.0) (take_slot-occupied w v t e)) ∙ ap (λ q. q.0) h))
]

-- A subscription that has taken the slot keeps it until the broker acknowledges it or the task stops,
-- also when `mqtt_subscribe` has given up waiting: until then every later subscription is refused.
pub take_slot-refused :
    (w v : ℕ) (ps : List Polled) (t t' u : MqttTask)
    → take_slot w t ≡ (ok tt, t')
    → Unacknowledged ps
    → poll_all ps t' ≡ running u
    → take_slot v u ≡ (err (codes "Another MQTT subscribe operation is already pending."), u)
take_slot-refused w v ps t t' u h n e =
    take_slot-occupied v w u (poll_all-waiting w ps t' u (take_slot-taken w t t' h) n e)
