-- ===== src/Client/Http3/Answer.antt =====
-- crates/xrds-net/src/client/client.rs: what `request_http3` promises.
use device_sdk.Base.{ℕ, ◌≤◌, [], Option, none, some, true, ◌≡◌, refl, Text, Dict}
use device_sdk.Base.Results.{Result, ok, err}
use device_sdk.Base.Passes.{After, After-both}
use device_sdk.Common.Messages.{XrUrl}
use device_sdk.Client.Settings.{Client}
use device_sdk.Client.Http3.Log.{Log, Reports}
use device_sdk.Client.Http3.Datagrams.{Quic, send_packet}
use device_sdk.Client.Http3.Exchange.{
  Exchange, Reply, replied, panicked, exchange, request_http3, request_url, opened, first_send,
  reply_of,
}
use device_sdk.Client.Http3.Sent.{exchange-Answers}
use device_sdk.Client.Http3.Reporting.{Silent, exchange-IsTold}
use device_sdk.Client.Http3.Timing.{Timely, send_packet-Since}
use device_sdk.Client.Http3.Returns.{exchange-Returns}

module _ {D S : Type 0} (quic : Quic D S) (timely : Timely quic) where
  Replies : Option Reply → Type 0
  Replies o = (reply : Reply) × (o ≡ some reply)

  reply_of-Replies :
      (o : Option (Unit {0} × Exchange S))
      → After ⊥ (λ done x. Unit {0}) o
      → Replies (reply_of quic o)
  unfolding Replies
  reply_of-Replies none h = absurd h
  reply_of-Replies (some (done, x)) h = (replied x.response, refl)

  first_send-Replies :
      (start : ℕ) (headers : Dict Text) (o : Option (Result (Unit {0}) × S))
      → After ⊥ (λ sent s. start ≤ quic.now s) o
      → Replies (first_send quic start headers o)
  unfolding Replies
  first_send-Replies start headers none h = absurd h
  first_send-Replies start headers (some (err e, s)) h = (panicked, refl)
  first_send-Replies start headers (some (ok done, s)) h =
      reply_of-Replies (exchange quic start headers s)
        (exchange-Returns quic timely start headers s h)

  opened-Replies :
      (start : ℕ) (headers : Dict Text) (o : Option S)
      → ((s : S) → o ≡ some s → start ≤ quic.now s)
      → Replies (opened quic start headers o)
  unfolding Replies
  opened-Replies start headers none k = (panicked, refl)
  opened-Replies start headers (some s) k =
      first_send-Replies start headers (send_packet quic s)
        (send_packet-Since quic timely start s (k s refl))

  -- If waiting for events takes time, no operation goes back in time, what can be read or written
  -- without waiting is finite, and the socket is opened after the call, `request_http3` returns: a
  -- response or a panic, whatever the server does.
  pub request_http3-replies :
      (start : ℕ) (c : Client)
      → ((url : XrUrl) (s : S) → quic.open_socket url ≡ some s → start ≤ quic.now s)
      → (reply : Reply) × (request_http3 quic start c ≡ some reply)
  unfolding request_http3 Replies
  request_http3-replies start c later = located c.url
    where
      located : (o : Option XrUrl) → Replies (request_url quic start c o)
      located none = (panicked, refl)
      located (some url) = opened-Replies start _ (quic.open_socket url) (later url)

  -- If waiting for events takes time, no operation goes back in time, what can be read or written
  -- without waiting is finite, and the loop of `request_http3` begins after the call, it ends, and an
  -- ending without an error has sent the request: no answer is made up before it.
  pub exchange-sends :
      (start : ℕ) (headers : Dict Text) (s : S)
      → start ≤ quic.now s
      → (done : Unit {0}) × ((x : Exchange S) × ((exchange quic start headers s ≡ some (done, x))
            × (x.response.error ≡ none → x.req_sent ≡ true)))
  exchange-sends start headers s k =
      After-both _ _ (exchange quic start headers s)
        (exchange-Returns quic timely start headers s k) (exchange-Answers quic start headers s)

  -- If waiting for events takes time, no operation goes back in time, what can be read or written
  -- without waiting is finite, the loop of `request_http3` begins after the call, only the connection's
  -- events and its reads of a body hand something over, and nothing was handed over before, the loop
  -- ends. Its response then has the header fields and the body bytes that were handed over, all of them
  -- and in order, and as its status the last `:status` among the fields that is a number of 16 bits,
  -- or 0 if there is none.
  pub exchange-Reports :
      (log : Log quic.h3) (silent : Silent quic log) (start : ℕ) (headers : Dict Text) (s : S)
      → start ≤ quic.now s
      → log.heard s ≡ record { fields = []; bytes = [] }
      → (done : Unit {0}) × ((x : Exchange S) × ((exchange quic start headers s ≡ some (done, x))
            × Reports quic.h3.lossy (log.heard x.conn) x.response))
  exchange-Reports log silent start headers s k fresh =
      After-both _ _ (exchange quic start headers s)
        (exchange-Returns quic timely start headers s k)
        (exchange-IsTold quic log silent start headers s fresh)
