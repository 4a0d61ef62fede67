-- ===== src/Client/Mqtt/Failures.antt =====
-- After how many failures the task stops.
use device_sdk.Base.{
  ℕ, suc, ◌+◌, ◌<◌, List, [], ◌∷◌, true, false, ◌≡◌, ◌≢◌, ◌⊎◌, inl, inr, refl, sym, ap, ◌∙◌, arith,
  Text, codes, length, map, leb,
}
use device_sdk.Client.Mqtt.{
  Polled, failed, MqttTask, running, fail, wake, poll, poll_all, max_errors, occurs_in,
}
use device_sdk.Client.Mqtt.Polling.{is_stopped, poll_all-running, poll_all-stopped, Turn-cases}

-- No message says that the broker has closed the connection.
abbrev pub NoneClosed : List Text → Type 0
NoneClosed [] = Unit
NoneClosed (e ∷ es) = (occurs_in (codes "os error 10054") e ≡ false) × NoneClosed es

failed-last :
    (e : Text) (t : MqttTask)
    → occurs_in (codes "os error 10054") e ≡ false
    → suc t.consecutive_errors ≡ max_errors
    → is_stopped (poll (failed e) t) ≡ true
unfolding poll fail wake
failed-last e t n h = ground arith

failed-more :
    (e : Text) (t : MqttTask)
    → occurs_in (codes "os error 10054") e ≡ false
    → suc t.consecutive_errors < max_errors
    → (u : MqttTask) × (poll (failed e) t ≡ running u)
      × (u.consecutive_errors ≡ suc t.consecutive_errors)
unfolding poll fail wake
failed-more e t n h =
    (record (wake t) { consecutive_errors = suc t.consecutive_errors }, ground arith, refl)

false_ne_true : false ≢ true
false_ne_true = λ e. cc

lt-or-last : (n : ℕ) → n < max_errors → (suc n < max_errors) ⊎ (suc n ≡ max_errors)
lt-or-last n h = ground arith

stays : (n : ℕ) → n < max_errors → leb max_errors (n + 0) ≡ false
stays n h = ground arith

full : (n m : ℕ) → suc n ≡ max_errors → leb max_errors (n + suc m) ≡ true
full n m h = ground arith

stopped-is_stopped :
    (p : Polled) (ps : List Polled) (t : MqttTask)
    → is_stopped (poll p t) ≡ true
    → is_stopped (poll_all (p ∷ ps) t) ≡ true
unfolding poll_all
stopped-is_stopped p ps t h = elim (Turn-cases (poll p t)) [
  | inl (u, e) ↦ absurd (false_ne_true (sym (ap is_stopped e) ∙ h))
  | inr (u, e) ↦ ap is_stopped (poll_all-stopped p ps t u e)
]

-- From a state with fewer than five failures in a row, the MQTT task stops in the course of further
-- failures, none of which tells of a connection closed by the broker, exactly when they make the
-- count reach five: it neither retries for ever nor gives up early.
pub poll_all-failures :
    (es : List Text) (t : MqttTask)
    → t.consecutive_errors < max_errors
    → NoneClosed es
    → is_stopped (poll_all (map failed es) t) ≡ leb max_errors (t.consecutive_errors + length es)
unfolding poll_all
poll_all-failures [] t h n = sym (stays t.consecutive_errors h)
poll_all-failures (e ∷ es) t h (n, ns) = elim (lt-or-last t.consecutive_errors h) [
  | inl more ↦
      let (u, d, c) = failed-more e t n more in
      ap is_stopped (poll_all-running (failed e) (map failed es) t u d)
      ∙ poll_all-failures es u (rw c more) ns
      ∙ ap (leb max_errors) (omega (arith, c))
  | inr last ↦
      stopped-is_stopped (failed e) (map failed es) t (failed-last e t n last)
      ∙ sym (full t.consecutive_errors (length es) last)
]
