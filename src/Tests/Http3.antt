-- ===== src/Tests/Http3.antt =====
-- A server that answers from a script, and `request_http3` with it.
use device_sdk.Base.{
  ℕ, zero, suc, ◌≤◌, ◌<◌, List, [], ◌∷◌, ◌++◌, Option, none, some, true, false, ◌≡◌, refl, subst,
  arith, codes, length, same, parse_u32,
}
use mathlib.Core.List.{append-nil}
use device_sdk.Base.Results.{ok}
use device_sdk.Base.Passes.{repeat}
use device_sdk.Common.Enums.{http3}
use device_sdk.Client.Settings.{Client, new_builder, build}
use device_sdk.Client.Http3.{
  H3, Event, headers, body, finished, Polled, event, no_event, Chunk, read, no_data,
}
use device_sdk.Client.Http3.Log.{Heard, Log, Reports, event_fields, polled_fields, chunk_bytes}
use device_sdk.Client.Http3.Datagrams.{Quic}
use device_sdk.Client.Http3.Exchange.{Exchange, Reply, exchange, request_http3}
use device_sdk.Client.Http3.Reporting.{Silent}
use device_sdk.Client.Http3.Timing.{Timely, Gives}
use device_sdk.Tests.Common.{chat_url}
use device_sdk.Client.Http3.Answer.{request_http3-replies, exchange-sends, exchange-Reports}

record Script : Type 0 where
  clock : ℕ
  incoming : ℕ
  outgoing : ℕ
  events : List Event
  chunks : List (List ℕ)
  log : Heard

abbrev heard_fields : Heard → List (List ℕ × List ℕ) → Heard
heard_fields h fs = record h { fields = h.fields ++ fs }

abbrev next_event : List Event → Script → Polled × Script
next_event [] s = (no_event, s)
next_event (e ∷ es) s =
    (event 0 e, record s { events = es; log = heard_fields s.log (event_fields e) })

abbrev next_chunk : List (List ℕ) → Script → Chunk × Script
next_chunk [] s = (no_data, s)
next_chunk (c ∷ cs) s =
    (read c, record s { chunks = cs; log = record s.log { bytes = s.log.bytes ++ c } })

abbrev next_in : ℕ → Script → Option (Unit {0}) × Script
next_in zero s = (none, s)
next_in (suc n) s = (some tt, record s { incoming = n })

abbrev next_out : ℕ → Script → Option (Unit {0}) × Script
next_out zero s = (none, s)
next_out (suc n) s = (some tt, record s { outgoing = n })

abbrev scripted_h3 : H3 Script
scripted_h3 = record {
  poll = λ s. next_event s.events s;
  recv_body = λ stream s. next_chunk s.chunks s;
  unread = λ s. length s.chunks;
  lossy = λ bytes. bytes;
}

-- The answer: a status, a body in two pieces, and the end.
abbrev script : Script
script = record {
  clock = 5;
  incoming = 1;
  outgoing = 1;
  events =
      headers ((codes ":status", codes "200") ∷ (codes "server", codes "xrds") ∷ []) true
      ∷ body
      ∷ finished
      ∷ [];
  chunks = codes "hello, " ∷ codes "world" ∷ [];
  log = record { fields = []; bytes = [] };
}

abbrev scripted : Quic (Unit {0}) Script
scripted = record {
  h3 = scripted_h3;
  now = λ s. s.clock;
  open_socket = λ url. some script;
  poll = λ t s. (true, record s { clock = suc s.clock });
  recv_from = λ s. next_in s.incoming s;
  recv = λ d s. (ok tt, s);
  is_established = λ s. true;
  is_closed = λ s. false;
  is_draining = λ s. false;
  with_transport = λ s. (ok tt, s);
  send_request = λ hs s. (ok tt, record s { outgoing = suc s.outgoing });
  send = λ s. next_out s.outgoing s;
  send_to = λ d s. (ok tt, s);
  waiting = λ s. s.incoming;
  unsent = λ s. s.outgoing;
}

poll_log :
    (es : List Event) (s : Script)
    → (next_event es s).1.log ≡ heard_fields s.log (polled_fields (next_event es s).0)
poll_log [] s = rw (append-nil) refl
poll_log (e ∷ es) s = refl

chunk_log :
    (cs : List (List ℕ)) (s : Script)
    → (next_chunk cs s).1.log
      ≡ record s.log { bytes = s.log.bytes ++ chunk_bytes (next_chunk cs s).0 }
chunk_log [] s = rw (append-nil) refl
chunk_log (c ∷ cs) s = refl

abbrev logged : Log scripted_h3
logged = record {
  heard = λ s. s.log;
  poll_heard = λ s. poll_log s.events s;
  body_heard = λ stream s. chunk_log s.chunks s;
}

in_log : (n : ℕ) (s : Script) → (next_in n s).1.log ≡ s.log
in_log zero s = refl
in_log (suc n) s = refl

out_log : (n : ℕ) (s : Script) → (next_out n s).1.log ≡ s.log
out_log zero s = refl
out_log (suc n) s = refl

silent : Silent scripted logged
silent = record {
  poll = λ t s. refl;
  recv_from = λ s. in_log s.incoming s;
  recv = λ d s. refl;
  with_transport = λ s. refl;
  send_request = λ hs s. refl;
  send = λ s. out_log s.outgoing s;
  send_to = λ d s. refl;
}

in_clock : (n : ℕ) (s : Script) → s.clock ≤ (next_in n s).1.clock
in_clock zero s = omega arith
in_clock (suc n) s = omega arith

out_clock : (n : ℕ) (s : Script) → s.clock ≤ (next_out n s).1.clock
out_clock zero s = omega arith
out_clock (suc n) s = omega arith

event_clock : (es : List Event) (s : Script) → s.clock ≤ (next_event es s).1.clock
event_clock [] s = omega arith
event_clock (e ∷ es) s = omega arith

chunk_clock : (cs : List (List ℕ)) (s : Script) → s.clock ≤ (next_chunk cs s).1.clock
chunk_clock [] s = omega arith
chunk_clock (c ∷ cs) s = omega arith

in_fewer :
    (n : ℕ) (d : Unit {0}) (s : Script) → (next_in n s).0 ≡ some d → (next_in n s).1.incoming < n
in_fewer zero d s e = cc
in_fewer (suc n) d s e = omega arith

out_fewer :
    (n : ℕ) (d : Unit {0}) (s : Script) → (next_out n s).0 ≡ some d → (next_out n s).1.outgoing < n
out_fewer zero d s e = cc
out_fewer (suc n) d s e = omega arith

chunk_fewer :
    (cs : List (List ℕ)) (s : Script)
    → Gives (next_chunk cs s).0
    → length (next_chunk cs s).1.chunks < length cs
chunk_fewer [] s g = elim g [ ]
chunk_fewer (c ∷ cs) s g = omega arith

timely : Timely scripted
timely = record {
  poll_later = λ t s. omega arith;
  recv_from_time = λ s. in_clock s.incoming s;
  recv_time = λ d s. omega arith;
  with_transport_time = λ s. omega arith;
  send_request_time = λ hs s. omega arith;
  send_time = λ s. out_clock s.outgoing s;
  send_to_time = λ d s. omega arith;
  h3_poll_time = λ s. event_clock s.events s;
  recv_body_time = λ n s. chunk_clock s.chunks s;
  recv_from_fewer = λ d s. in_fewer s.incoming d s;
  recv_waiting = λ d s. omega arith;
  with_transport_waiting = λ s. omega arith;
  send_fewer = λ d s. out_fewer s.outgoing d s;
  send_to_unsent = λ d s. omega arith;
  recv_body_fewer = λ n s. chunk_fewer s.chunks s;
}

answer_of : Option (Unit {0} × Exchange Script) → Option (ℕ × List ℕ)
answer_of none = none
answer_of (some (done, x)) = some (x.response.status_code, x.response.body)

-- The response is the whole answer.
exchange_runs : answer_of (exchange scripted 5 [] script) ≡ some (200, codes "hello, world")
unfolding answer_of exchange repeat same parse_u32
exchange_runs = refl

exchange-Reports_example :
    (done : Unit {0}) × ((x : Exchange Script) × ((exchange scripted 5 [] script ≡ some (done, x))
        × Reports (λ bytes. bytes) x.conn.log x.response))
exchange-Reports_example =
    exchange-Reports scripted timely logged silent 5 [] script (omega arith) refl

exchange-sends_example :
    (done : Unit {0}) × ((x : Exchange Script) × ((exchange scripted 5 [] script ≡ some (done, x))
        × (x.response.error ≡ none → x.req_sent ≡ true)))
exchange-sends_example = exchange-sends scripted timely 5 [] script (omega arith)

abbrev client : Client
client = record (build (codes "id") new_builder) { protocol = http3; url = some chat_url }

opened_later : (s : Script) → some script ≡ some s → 5 ≤ s.clock
opened_later s e = subst (λ o. elim o [ none ↦ ⊥ | some x ↦ 5 ≤ x.clock ]) e (omega arith)

request_http3-replies_example : (reply : Reply) × (request_http3 scripted 5 client ≡ some reply)
request_http3-replies_example =
    request_http3-replies scripted timely 5 client (λ url s e. opened_later s e)
