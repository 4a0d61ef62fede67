-- ===== src/Tests/Transport.antt =====
-- A QUIC connection that is established at once, and a client's operations.
use device_sdk.Base.{ℕ, List, [], ◌∷◌, ◌++◌, some, true, false, ◌≡◌, refl, codes}
use device_sdk.Base.Results.{ok}
use device_sdk.Base.Passes.{repeat}
use device_sdk.Common.Enums.{quic}
use device_sdk.Client.Settings.{Client, new_builder, build}
use device_sdk.Client.Quic.{
  Quiche, none_waiting, done, sent, no_more, connect_quic, send_quic, packet, Produced,
}
use device_sdk.Client.Quic.Established.{connect_quic-established}
use device_sdk.Client.Quic.Payload.{send_quic-length}
use device_sdk.Client.Transport.{Connections, Handles}
use device_sdk.Tests.Common.{chat_url}

-- The datagrams that wait, and those that went out.
record Wire : Type 0 where
  waiting : List (List ℕ)
  out : List (List ℕ)

abbrev next_packet : List (List ℕ) → Wire → Produced × Wire
next_packet [] w = (done, w)
next_packet (d ∷ ds) w = (packet d, record w { waiting = ds })

abbrev wired : Quiche (List ℕ) Wire
wired = record {
  resolve = λ url. ok (record { waiting = (1 ∷ 2 ∷ []) ∷ []; out = [] });
  open_connection = λ host w. ok w;
  poll = λ w. (ok tt, w);
  recv_from = λ w. (none_waiting, w);
  recv = λ d w. (ok tt, w);
  send = λ out w. next_packet w.waiting w;
  send_to = λ d w. (sent, record w { out = w.out ++ d ∷ [] });
  close = λ w. w;
  readable = λ w. [];
  stream_recv = λ stream w. (no_more, w);
  is_closed = λ w. false;
  is_established = λ w. true;
}

abbrev client : Client
client = record (build (codes "id") new_builder) {
  protocol = quic;
  url = some chat_url;
  host = some (codes "h");
}

abbrev wire : Wire
wire = record { waiting = []; out = (1 ∷ 2 ∷ []) ∷ [] }

connect_runs : connect_quic wired 3 client ≡ some (ok wire)
unfolding connect_quic repeat
connect_runs = refl

connect_quic-established_example :
    (wired.is_closed wire ≡ false) × (wired.is_established wire ≡ true)
connect_quic-established_example = connect_quic-established wired 3 client wire connect_runs

send_quic-length_example :
    send_quic wired 3 (codes "abc") (some wire) ≡ send_quic wired 3 (codes "xyz") (some wire)
send_quic-length_example =
    send_quic-length wired (λ a b s e. refl) 3 (codes "abc") (codes "xyz") (some wire) refl

abbrev links : Connections (List ℕ)
links = record {
  ws_send = λ topic bytes x. (ok tt, bytes);
  ws_rcv = λ x. (ok x, x);
  ws_close = λ x. (ok tt, x);
  mqtt_publish = λ topic bytes x. (ok tt, bytes);
  mqtt_rcv = λ x. (ok x, x);
  mqtt_disconnect = λ x. (ok tt, x);
  quic_send = λ bytes x. (ok tt, bytes);
  quic_rcv = λ x. (ok x, x);
}

abbrev handles : Handles
handles = record { ws_client = true; mqtt = true }
