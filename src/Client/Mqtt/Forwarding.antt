-- ===== src/Client/Mqtt/Forwarding.antt =====
-- What the task forwards to `rcv_mqtt`, after how many failures it stops, and the subscribe slot.
use device_sdk.Base.{
  ℕ, zero, suc, List, [], ◌∷◌, ◌++◌, Option, some, ◌≡◌, inl, inr, refl, sym, ap, ◌∙◌, arith, Text,
  length, map, Option-cases,
}
use mathlib.Core.List.{append-nil, append_assoc}
use device_sdk.Base.Results.{Result}
use device_sdk.Client.Mqtt.{
  MqttPollResult, publish, other, Polled, timed_out, conn_ack, published, pub_ack, sub_ack,
  incoming_other, disconnect, outgoing_other, failed, MqttTask, running, answer_waiter, succeed,
  push_incoming, fail, wake, poll, poll_all, rcv_mqtt,
}
use device_sdk.Client.Mqtt.Polling.{poll_all-running_split}

-- The payloads that were published, in order.
abbrev pub payloads : List Polled → List (List ℕ)
payloads [] = []
payloads (published topic payload ∷ ps) = payload ∷ payloads ps
payloads (timed_out ∷ ps) = payloads ps
payloads (conn_ack ∷ ps) = payloads ps
payloads (pub_ack ∷ ps) = payloads ps
payloads (sub_ack ∷ ps) = payloads ps
payloads (incoming_other ∷ ps) = payloads ps
payloads (disconnect ∷ ps) = payloads ps
payloads (outgoing_other ∷ ps) = payloads ps
payloads (failed e ∷ ps) = payloads ps

abbrev contents : List MqttPollResult → List (List ℕ)
contents [] = []
contents (publish topic payload ∷ ms) = payload ∷ contents ms
contents (other ∷ ms) = contents ms

-- What `n` calls of `rcv_mqtt` return, one after the other.
abbrev pub receive : ℕ → List MqttPollResult → List (Option (List ℕ))
receive zero ms = []
receive (suc n) ms = let (payload, rest) = rcv_mqtt ms in payload ∷ receive n rest

contents-append : (ms ns : List MqttPollResult) → contents (ms ++ ns) ≡ contents ms ++ contents ns
contents-append [] ns = refl
contents-append (publish topic payload ∷ ms) ns = ap (λ l. payload ∷ l) (contents-append ms ns)
contents-append (other ∷ ms) ns = contents-append ms ns

rcv_mqtt-next :
    (ms : List MqttPollResult) (p : List ℕ) (l : List (List ℕ))
    → contents ms ≡ p ∷ l
    → (rest : List MqttPollResult) × (rcv_mqtt ms ≡ (some p, rest)) × (contents rest ≡ l)
unfolding rcv_mqtt
rcv_mqtt-next [] p l e = cc
rcv_mqtt-next (publish topic payload ∷ ms) p l e = (ms, ap (λ q. (some q, ms)) (cc), cc)
rcv_mqtt-next (other ∷ ms) p l e = rcv_mqtt-next ms p l e

receive-contents :
    (l : List (List ℕ)) (ms : List MqttPollResult)
    → contents ms ≡ l
    → receive (length l) ms ≡ map some l
receive-contents [] ms e = refl
receive-contents (p ∷ l) ms e =
    let (rest, h, g) = rcv_mqtt-next ms p l e in
    rw h (ap (λ k. some p ∷ k) (receive-contents l rest g))

-- One poll's own contribution.
abbrev payload_of : Polled → List (List ℕ)
payload_of p = payloads (p ∷ [])

payloads-cons : (p : Polled) (ps : List Polled) → payloads (p ∷ ps) ≡ payload_of p ++ payloads ps
payloads-cons timed_out ps = refl
payloads-cons conn_ack ps = refl
payloads-cons (published topic payload) ps = refl
payloads-cons pub_ack ps = refl
payloads-cons sub_ack ps = refl
payloads-cons incoming_other ps = refl
payloads-cons disconnect ps = refl
payloads-cons outgoing_other ps = refl
payloads-cons (failed e) ps = refl

fail-incoming : (e : Text) (t u : MqttTask) → fail e t ≡ running u → u.incoming ≡ t.incoming
unfolding fail answer_waiter
fail-incoming e t u h = ground arith

sub_ack-incoming :
    (r : Result (Unit {0})) (t : MqttTask) → (answer_waiter r t).incoming ≡ t.incoming
unfolding answer_waiter
sub_ack-incoming r t = elim (Option-cases t.pending_subscribe) [
  | inl h ↦ rw h refl
  | inr (w, h) ↦ rw h refl
]

pub running-injective : {t u : MqttTask} → running t ≡ running u → u ≡ t
running-injective e = cc

-- What a poll that leaves the incoming messages as they are leaves of the contents.
unchanged :
    (t u : MqttTask) → u.incoming ≡ t.incoming → contents u.incoming ≡ contents t.incoming ++ []
unchanged t u e = rw e (sym (append-nil (contents t.incoming)))

poll-contents :
    (p : Polled) (t u : MqttTask)
    → poll p t ≡ running u
    → contents u.incoming ≡ contents t.incoming ++ payload_of p
unfolding poll succeed push_incoming wake
poll-contents timed_out t u e = unchanged t u (ap (λ v. v.incoming) (running-injective e))
poll-contents conn_ack t u e = unchanged t u (ap (λ v. v.incoming) (running-injective e))
poll-contents (published topic payload) t u e =
    ap (λ v. contents v.incoming) (running-injective e) ∙ contents-append t.incoming _
poll-contents pub_ack t u e = unchanged t u (ap (λ v. v.incoming) (running-injective e))
poll-contents sub_ack t u e =
    unchanged t u
      (ap (λ v. v.incoming) (running-injective e) ∙ sub_ack-incoming _ (succeed (wake t)))
poll-contents incoming_other t u e =
    ap (λ v. contents v.incoming) (running-injective e) ∙ contents-append t.incoming _
poll-contents disconnect t u e = cc
poll-contents outgoing_other t u e = unchanged t u (ap (λ v. v.incoming) (running-injective e))
poll-contents (failed x) t u e = unchanged t u (fail-incoming x (wake t) u e)

poll_all-contents :
    (ps : List Polled) (t u : MqttTask)
    → poll_all ps t ≡ running u
    → contents u.incoming ≡ contents t.incoming ++ payloads ps
unfolding poll_all
poll_all-contents [] t u e = unchanged t u (ap (λ v. v.incoming) (running-injective e))
poll_all-contents (p ∷ ps) t v e =
    let (u, e₁, e₂) = poll_all-running_split p ps t v e in
    rw (poll_all-contents ps u v e₂, poll-contents p t u e₁, payloads-cons p ps)
      (append_assoc (contents t.incoming) (payload_of p) (payloads ps))

-- While the MQTT task goes on, `rcv_mqtt` returns the payloads of the published messages, every one,
-- in the order in which they came: as many calls as there were messages return exactly them.
pub receive-poll_all :
    (ps : List Polled) (t u : MqttTask)
    → t.incoming ≡ []
    → poll_all ps t ≡ running u
    → receive (length (payloads ps)) u.incoming ≡ map some (payloads ps)
receive-poll_all ps t u empty e =
    receive-contents (payloads ps) u.incoming
      (poll_all-contents ps t u e ∙ ap (λ m. contents m ++ payloads ps) empty)
