-- ===== src/Client/Mqtt.antt =====
-- crates/xrds-net/src/client/client.rs, MQTT: the task that polls the event loop (`connect_mqtt`), the
-- waiting side of `mqtt_subscribe`, and `rcv_mqtt`.
pub mod Polling
pub mod Waiter
pub mod Forwarding
pub mod Failures
pub mod Slot
use device_sdk.Base.{
  to_text, ℕ, suc, ◌+◌, List, [], ◌∷◌, ◌++◌, Option, none, some, Bool, true, false, Text, codes,
  ltb, leb, starts_with, ◌||◌, if◌then◌else◌,
}
use device_sdk.Base.Results.{Result, ok, err}

pub data MqttPollResult : Type 0 where
  publish : Text → List ℕ → MqttPollResult
  other : MqttPollResult

-- What one turn of the loop gets from `EventLoop::poll`: the arms of its match, and the end of the
-- two seconds that it waits.
pub data Polled : Type 0 where
  timed_out conn_ack : Polled
  published : Text → List ℕ → Polled
  pub_ack sub_ack incoming_other disconnect outgoing_other : Polled
  failed : Text → Polled

-- The variables of the task and what it shares with the client: `incoming` is the channel's
-- content, `pending_subscribe` the slot with the waiter, named by a number, and `answered` what has
-- been sent to the waiters, the latest first.
pub record MqttTask : Type 0 where
  pub consecutive_errors : ℕ
  pub idle_poll_count : ℕ
  pub incoming : List MqttPollResult
  pub pending_subscribe : Option ℕ
  pub answered : List (ℕ × Result (Unit {0}))

unfoldable pub initial : MqttTask
initial = record {
  consecutive_errors = 0;
  idle_poll_count = 0;
  incoming = [];
  pending_subscribe = none;
  answered = [];
}

abbrev pub u8_max : ℕ
u8_max = 255

abbrev pub u32_max : ℕ
u32_max = 4294967295

abbrev pub saturating_suc : ℕ → ℕ → ℕ
saturating_suc max n = if ltb n max then suc n else max

abbrev pub max_errors : ℕ
max_errors = 5

-- Whether the loop goes on, or `break`s.
pub data Turn : Type 0 where
  running stopped : MqttTask → Turn

-- Takes the waiter, if there is one, and sends it the result.
unfoldable pub answer_waiter : Result (Unit {0}) → MqttTask → MqttTask
answer_waiter r t = elim t.pending_subscribe [
  | none ↦ t
  | some w ↦ record t { pending_subscribe = none; answered = (w, r) ∷ t.answered }
]

unfoldable pub succeed : MqttTask → MqttTask
succeed t = record t { consecutive_errors = 0 }

unfoldable pub push_incoming : MqttPollResult → MqttTask → MqttTask
push_incoming m t = record t { incoming = t.incoming ++ (m ∷ []) }

-- `str::contains`.
abbrev pub occurs_in : Text → Text → Bool
occurs_in pattern [] = starts_with pattern []
occurs_in pattern (c ∷ cs) = starts_with pattern (c ∷ cs) || occurs_in pattern cs

unfoldable pub fail : Text → MqttTask → Turn
unfolding answer_waiter
fail err_text t =
    if occurs_in (codes "os error 10054") err_text
    then stopped (
        answer_waiter
          (err (codes "MQTT broker closed the connection before subscription acknowledgement.")) t)
    else let errors = saturating_suc u8_max t.consecutive_errors in
      let u : MqttTask = record t { consecutive_errors = errors } in
      if leb max_errors errors
      then stopped (
          answer_waiter
            (err (codes "MQTT event loop failed before subscription acknowledgement: " ++ err_text))
            u)
      else running u

-- The idle count is reset by every poll that did not time out.
unfoldable pub wake : MqttTask → MqttTask
wake t = record t { idle_poll_count = 0 }

unfoldable pub poll : Polled → MqttTask → Turn
unfolding answer_waiter succeed push_incoming fail wake
poll timed_out t = running (record t { idle_poll_count = saturating_suc u32_max t.idle_poll_count })
poll conn_ack t = running (succeed (wake t))
poll (published topic payload) t =
    running (push_incoming (publish topic payload) (succeed (wake t)))
poll pub_ack t = running (succeed (wake t))
poll sub_ack t = running (answer_waiter (ok tt) (succeed (wake t)))
poll incoming_other t = running (push_incoming other (succeed (wake t)))
poll disconnect t = stopped (
    answer_waiter (err (codes "MQTT disconnect requested before subscription acknowledgement."))
      (wake t))
poll outgoing_other t = running (succeed (wake t))
poll (failed e) t = fail e (wake t)

-- The loop over what the polls give; a task that has stopped polls no more.
unfoldable pub poll_all : List Polled → MqttTask → Turn
unfolding poll
poll_all [] t = running t
poll_all (p ∷ ps) t = elim (poll p t) [ running u ↦ poll_all ps u | stopped u ↦ stopped u ]

-- `mqtt_subscribe` under the slot's lock: the slot must be empty, and is taken.
unfoldable pub take_slot : ℕ → MqttTask → Result (Unit {0}) × MqttTask
take_slot w t = elim t.pending_subscribe [
  | some v ↦ (err (codes "Another MQTT subscribe operation is already pending."), t)
  | none ↦ (ok tt, record t { pending_subscribe = some w })
]

-- The slot is emptied where the request cannot be queued.
unfoldable pub enqueue : Text → Result (Unit {0}) → MqttTask → Result (Unit {0}) × MqttTask
enqueue topic (ok u) t = (ok tt, t)
enqueue topic (err e) t = (
  err (codes "Failed to enqueue MQTT subscribe for topic '" ++ (topic ++ (codes "': " ++ e))),
  record t { pending_subscribe = none },
)

-- How the wait for the acknowledgement ends.
pub data Waited : Type 0 where
  acknowledged : Result (Unit {0}) → Waited
  dropped expired : Waited

abbrev pub seconds_or : ℕ → Option ℕ → ℕ
seconds_or n none = n
seconds_or n (some s) = s

-- The rest of `mqtt_subscribe`, with the client's timeout: the result, and the subscribed topic that
-- it leaves.
unfoldable pub finish_subscribe :
    Option ℕ → Waited → Text → Option Text → Result (Unit {0}) × Option Text
finish_subscribe timeout (acknowledged (ok u)) topic old = (ok tt, some topic)
finish_subscribe timeout (acknowledged (err e)) topic old = (err e, old)
finish_subscribe timeout dropped topic old =
    (err (codes "MQTT subscribe waiter was dropped before acknowledgement."), old)
finish_subscribe timeout expired topic old = (
  err (
      codes "Timed out waiting for MQTT SubAck after "
      ++ (to_text (seconds_or 10 timeout)
          ++ (codes " seconds for topic '" ++ (topic ++ codes "'.")))),
  old,
)

-- `rcv_mqtt` on what the channel holds: the payload of the first publish, with what is left in the
-- channel; `none` where it would wait, until its time-out, or finds the channel closed.
unfoldable pub rcv_mqtt : List MqttPollResult → Option (List ℕ) × List MqttPollResult
rcv_mqtt [] = (none, [])
rcv_mqtt (publish topic payload ∷ ms) = (some payload, ms)
rcv_mqtt (other ∷ ms) = rcv_mqtt ms
