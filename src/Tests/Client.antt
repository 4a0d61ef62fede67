-- ===== src/Tests/Client.antt =====
-- The MQTT task and the FTP commands.
use device_sdk.Base.{
  ℕ, ◌+◌, List, [], ◌∷◌, Option, none, some, ◌≡◌, refl, arith, Text, codes, length, map, leb,
  lookup, insert, Dict, ap, subst, lookup-insert_self,
}
use device_sdk.Base.{starts_with}
use device_sdk.Base.Results.{Result, ok, err}
use device_sdk.Common.Enums.{stor}
use device_sdk.Client.Mqtt.{
  Polled, conn_ack, published, disconnect, failed, timed_out, MqttTask, running, stopped, initial,
  poll, poll_all, take_slot, max_errors, answer_waiter, succeed, push_incoming, wake,
  MqttPollResult,
}
use device_sdk.Client.Ftp.{FtpStream, run_ftp_command, run_ftp_stor}
use device_sdk.Client.Ftp.Commands.{with_data}
use device_sdk.Client.Mqtt.Polling.{is_stopped}
use device_sdk.Client.Mqtt.Waiter.{poll_all-answers_once}
use device_sdk.Client.Mqtt.Forwarding.{receive, payloads, receive-poll_all}
use device_sdk.Client.Mqtt.Failures.{poll_all-failures}

abbrev polls : List Polled
polls =
    conn_ack
    ∷ published (codes "t") (codes "one")
    ∷ timed_out
    ∷ published (codes "t") (codes "two")
    ∷ []

abbrev served : MqttTask
served = record {
  consecutive_errors = 0;
  idle_poll_count = 0;
  incoming =
      MqttPollResult.publish (codes "t") (codes "one")
      ∷ MqttPollResult.publish (codes "t") (codes "two")
      ∷ [];
  pending_subscribe = none;
  answered = [];
}

served-polls : poll_all polls initial ≡ running served
unfolding poll_all poll initial succeed push_incoming wake
served-polls = refl

receive-poll_all_example :
    receive (length (payloads polls)) served.incoming ≡ map some (payloads polls)
unfolding initial
receive-poll_all_example = receive-poll_all polls initial served refl served-polls

abbrev waiting : MqttTask
waiting = record {
  consecutive_errors = 0;
  idle_poll_count = 0;
  incoming = [];
  pending_subscribe = some 7;
  answered = [];
}

abbrev ended : MqttTask
ended = record {
  consecutive_errors = 0;
  idle_poll_count = 0;
  incoming = [];
  pending_subscribe = none;
  answered = (7, err (codes "MQTT disconnect requested before subscription acknowledgement.")) ∷ [];
}

waiting_ends : poll_all (conn_ack ∷ disconnect ∷ []) waiting ≡ stopped ended
unfolding poll_all poll answer_waiter succeed wake
waiting_ends = refl

poll_all-answers_once_example :
    (ended.pending_subscribe ≡ none)
    × (r : Result (Unit {0})) × (ended.answered ≡ (7, r) ∷ waiting.answered)
poll_all-answers_once_example =
    poll_all-answers_once 7 (conn_ack ∷ disconnect ∷ []) waiting ended refl waiting_ends

abbrev failures : List Text
failures = codes "a" ∷ codes "b" ∷ []

poll_all-failures_example :
    is_stopped (poll_all (map failed failures) waiting)
    ≡ leb max_errors (waiting.consecutive_errors + length failures)
unfolding starts_with
poll_all-failures_example = poll_all-failures failures waiting (omega arith) (refl, (refl, tt))

initial_takes : take_slot 7 initial ≡ (ok tt, waiting)
unfolding take_slot initial
initial_takes = refl

waiting_stays : poll_all (conn_ack ∷ []) waiting ≡ running waiting
unfolding poll_all poll succeed wake
waiting_stays = refl

-- An FTP server that keeps its files in a dictionary, and does nothing else.
abbrev Disk : Type 0
Disk = Dict (List ℕ)

abbrev found : Option (List ℕ) → Result (List ℕ)
found none = err (codes "550")
found (some bytes) = ok bytes

abbrev done : {A : Type 0} → A → Disk → Result A × Disk
done a s = (ok a, s)

abbrev server : FtpStream Disk
server = record {
  cwd = λ name. done tt;
  cdup = done tt;
  quit = done tt;
  retr_as_buffer = λ name s. (found (lookup name s), s);
  put_file = λ name bytes s. (ok (length bytes), insert name bytes s);
  append_file = λ name bytes. done 0;
  rm = λ name. done tt;
  rmdir = λ name. done tt;
  mkdir = λ name. done tt;
  pwd = done [];
  list = λ name. done [];
  noop = done tt;
}

server-keeps :
    (name : Text) (bytes : List ℕ) (n : ℕ) (s s' : Disk)
    → server.put_file name bytes s ≡ (ok n, s')
    → server.retr_as_buffer name s' ≡ (ok bytes, s')
server-keeps name bytes n s s' h =
    subst (λ d. ◌≡◌ {A = Result (List ℕ) × Disk} (found (lookup name d), d) (ok bytes, d))
      (ap (λ q. q.1) h) (rw (lookup-insert_self name bytes s) refl)

abbrev after_store : Option Disk
after_store = some ((codes "f", codes "data") ∷ [])

stored :
    run_ftp_command server (with_data stor (codes "f") (some (codes "data"))) (some [])
    ≡ some (record { payload = none; error = none }, after_store)
unfolding run_ftp_command run_ftp_stor insert
stored = refl
