-- ===== src/Client/Http3/Telling.antt =====
-- crates/xrds-net/src/client/client.rs: `handle_http3_events` and what the connection has handed over.
use device_sdk.Base.{
  ℕ, suc, List, [], ◌∷◌, ◌++◌, Bool, true, false, ltb, not, ◌&&◌, codes, ◌≡◌, ap, sym, subst, ◌∙◌,
  if◌then◌else◌,
}
use mathlib.Core.List.{append_assoc, append-nil, map-append}
use device_sdk.Base.Results.{Result, ok, err}
use device_sdk.Base.Passes.{Pass, stop, go, Ends, After, ended-Ends, if-Ends, repeat-After}
use device_sdk.Common.Messages.{NetResponse}
use device_sdk.Client.Http3.{
  max_events_per_iteration, H3, Event, headers, body, finished, go_away, other, reset, Polled,
  event, no_event, poll_failed, Chunk, read, no_data, read_failed, with_chunk, with_headers,
  with_status, or_status, Handling, counted, read_chunk, read_body, read_pass, handle_event,
  handle_polled, handle_next, handle_http3_events,
}
use device_sdk.Client.Http3.Log.{
  Heard, event_fields, polled_fields, chunk_bytes, last_status, Reports, Log, last_status-append,
  or_status-later,
}

module _ {S : Type 0} (h3 : H3 S) (log : Log h3) where
  -- The response reports what the connection has handed over.
  abbrev pub Told : NetResponse → S → Type 0
  Told r s = Reports h3.lossy (log.heard s) r

  with_header-Reports :
      (n v : List ℕ) (h : Heard) (r : NetResponse)
      → Reports h3.lossy h r
      → Reports h3.lossy
          (record h { fields = h.fields ++ (n, v) ∷ [] })
          (record r {
            status_code = with_status (h3.lossy n) (h3.lossy v) r.status_code;
            headers = r.headers ++ (h3.lossy n, h3.lossy v) ∷ [];
          })
  with_header-Reports n v h r k = record {
    headers =
        ap (λ hs. hs ++ (h3.lossy n, h3.lossy v) ∷ []) k.headers
        ∙ sym (map-append (λ f. (h3.lossy f.0, h3.lossy f.1)) h.fields ((n, v) ∷ []));
    body = k.body;
    status =
        ap (with_status (h3.lossy n) (h3.lossy v)) k.status
        ∙ sym (or_status-later (h3.lossy n) (h3.lossy v) (last_status r.headers))
        ∙ ap (λ o. or_status o 0) (sym (last_status-append r.headers (h3.lossy n) (h3.lossy v)));
  }

  with_headers-Reports :
      (list : List (List ℕ × List ℕ)) (h : Heard) (r : NetResponse)
      → Reports h3.lossy h r
      → Reports h3.lossy (record h { fields = h.fields ++ list }) (with_headers h3 list r)
  unfolding with_headers
  with_headers-Reports [] h r k = rw (append-nil) k
  with_headers-Reports ((n, v) ∷ list) h r k =
      subst (λ fs. Reports h3.lossy (record h { fields = fs }) (with_headers h3 ((n, v) ∷ list) r))
        (append_assoc h.fields ((n, v) ∷ []) list)
        (with_headers-Reports list _ _ (with_header-Reports n v h r k))

  abbrev ToldPair : NetResponse × S → Type 0
  ToldPair p = Told p.0 p.1

  abbrev pub ToldHandling : Handling S → Type 0
  ToldHandling h = Told h.response h.conn

  with_chunk-Told :
      (c : Chunk) (h : Heard) (r : NetResponse) (s : S)
      → Reports h3.lossy h r
      → log.heard s ≡ record h { bytes = h.bytes ++ chunk_bytes c }
      → Ends Unit ToldPair (λ done. ToldPair) ToldPair (read_pass h3 (with_chunk c r) r s)
  unfolding with_chunk
  with_chunk-Told (read []) h r s k e = rw (e, append-nil) k
  with_chunk-Told (read (b ∷ bytes)) h r s k e =
      rw e (record {
        headers = k.headers;
        body = ap (λ bs. bs ++ b ∷ bytes) k.body;
        status = k.status;
      })
  with_chunk-Told no_data h r s k e = rw (e, append-nil) k
  with_chunk-Told (read_failed x) h r s k e = rw (e, append-nil) k

  read_body-Told :
      (stream : ℕ) (r : NetResponse) (s : S)
      → Told r s
      → After Unit (λ done. ToldPair) (read_body h3 stream r s)
  unfolding read_body read_chunk
  read_body-Told stream r s k =
      repeat-After ToldPair (λ done. ToldPair) (read_chunk h3 stream) keep (suc (h3.unread s))
        (r, s) k
    where
      keep :
          (p : NetResponse × S)
          → ToldPair p
          → Ends Unit ToldPair (λ done. ToldPair) ToldPair (read_chunk h3 stream p)
      keep (r, s) k =
          with_chunk-Told (h3.recv_body stream s).0 (log.heard s) r (h3.recv_body stream s).1 k
            (log.body_heard stream s)

  abbrev Goes : Pass (Result Bool) (Handling S) → Type 0
  Goes = Ends Unit ToldHandling (λ verdict. ToldHandling) ToldHandling

  either :
      (b : Bool) (verdict : Result Bool) (h : Handling S) (m : Pass (Result Bool) (Handling S))
      → ToldHandling h
      → Goes m
      → Goes (if b then stop verdict h else m)
  either true verdict h m k l = k
  either false verdict h m k l = l

  handle_event-Told :
      (stream : ℕ) (e : Event) (n : ℕ) (h : Heard) (r : NetResponse) (s : S)
      → Reports h3.lossy h r
      → log.heard s ≡ record h { fields = h.fields ++ event_fields e }
      → Goes (handle_event h3 stream e n r s)
  unfolding handle_event
  handle_event-Told stream (headers list frames) n h r s k e =
      either (not frames && ltb 0 (with_headers h3 list r).status_code) (ok true)
        (counted h3 n (with_headers h3 list r) s) (go (counted h3 n (with_headers h3 list r) s))
        told told
    where
      told : Reports h3.lossy (log.heard s) (with_headers h3 list r)
      told = rw e (with_headers-Reports list h r k)
  handle_event-Told stream body n h r s k e =
      ended-Ends Unit ToldHandling (λ verdict. ToldHandling) (λ done. ToldPair) ToldHandling
        (read_body h3 stream r s) _ (read_body-Told stream r s (rw (e, append-nil) k))
        (λ done now told. told)
  handle_event-Told stream finished n h r s k e = rw (e, append-nil) k
  handle_event-Told stream (reset code) n h r s k e = rw (e, append-nil) k
  handle_event-Told stream go_away n h r s k e =
      either (ltb 0 r.status_code) (ok true) (counted h3 n r s)
        (stop (err (codes "Server sent GoAway")) (counted h3 n r s)) told told
    where
      told : Reports h3.lossy (log.heard s) r
      told = rw (e, append-nil) k
  handle_event-Told stream other n h r s k e = rw (e, append-nil) k

  handle_polled-Told :
      (p : Polled) (n : ℕ) (h : Heard) (r : NetResponse) (s : S)
      → Reports h3.lossy h r
      → log.heard s ≡ record h { fields = h.fields ++ polled_fields p }
      → Goes (handle_polled h3 p n r s)
  unfolding handle_polled
  handle_polled-Told (event stream e) n h r s k l = handle_event-Told stream e (suc n) h r s k l
  handle_polled-Told no_event n h r s k l = rw (l, append-nil) k
  handle_polled-Told (poll_failed e) n h r s k l = rw (l, append-nil) k

  handle_next-Told : (h : Handling S) → ToldHandling h → Goes (handle_next h3 h)
  unfolding handle_next
  handle_next-Told h k =
      if-Ends Unit ToldHandling (λ verdict. ToldHandling) ToldHandling
        (ltb h.events_processed max_events_per_iteration) _ (stop (ok false) h)
        (λ fewer.
          handle_polled-Told (h3.poll h.conn).0 h.events_processed (log.heard h.conn) h.response
            (h3.poll h.conn).1 k (log.poll_heard h.conn))
        (λ all. k)

  -- A response that reports what was heard still does when the events are handled.
  pub handle_http3_events-Told :
      (r : NetResponse) (s : S)
      → Told r s
      → After Unit (λ verdict. ToldHandling) (handle_http3_events h3 r s)
  unfolding handle_http3_events
  handle_http3_events-Told r s k =
      repeat-After ToldHandling (λ verdict. ToldHandling) (handle_next h3) handle_next-Told _
        (counted h3 0 r s) k
