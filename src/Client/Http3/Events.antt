-- ===== src/Client/Http3/Events.antt =====
-- crates/xrds-net/src/client/client.rs: `handle_http3_events` returns.
use device_sdk.Base.{
  ℕ, suc, ◌≤◌, ◌<◌, ◌-◌, [], ◌∷◌, Bool, true, false, not, ◌&&◌, ltb, codes, ◌≡◌, refl, arith,
  if◌then◌else◌,
}
use device_sdk.Base.Results.{Result, ok, err}
use device_sdk.Base.Passes.{
  Pass, stuck, stop, again, go, Ends, After, ended-Ends, if-Ends, repeat_total,
}
use device_sdk.Common.Messages.{NetResponse}
use device_sdk.Client.Http3.{
  Event, headers, body, finished, go_away, other, reset, Polled, event, no_event, poll_failed,
  Chunk, read, no_data, read_failed, with_chunk, with_headers, Handling, counted, read_chunk,
  read_body, read_pass, handle_event, handle_polled, handle_next, handle_http3_events,
  max_events_per_iteration,
}
use device_sdk.Client.Http3.Datagrams.{Quic}
use device_sdk.Client.Http3.Timing.{Timely, Gives}

module _ {D S : Type 0} (quic : Quic D S) (timely : Timely quic) (t : ℕ) where
  abbrev ReadSince : NetResponse × S → Type 0
  ReadSince p = t ≤ quic.now p.1

  abbrev ReadLess : ℕ → NetResponse × S → Type 0
  ReadLess n p = ReadSince p × (quic.h3.unread p.1 < n)

  read_pass-Less :
      (n : ℕ) (c : Chunk) (r : NetResponse) (s : S)
      → t ≤ quic.now s
      → (Gives c → quic.h3.unread s < n)
      → Ends ⊥
          (ReadLess n)
          (λ done. ReadSince)
          (ReadLess n)
          (read_pass quic.h3 (with_chunk c r) r s)
  unfolding with_chunk
  read_pass-Less n (read []) r s k l = k
  read_pass-Less n (read (b ∷ bytes)) r s k l = (k, l tt)
  read_pass-Less n no_data r s k l = k
  read_pass-Less n (read_failed e) r s k l = k

  read_body-Since :
      (stream : ℕ) (r : NetResponse) (s : S)
      → t ≤ quic.now s
      → After ⊥ (λ done. ReadSince) (read_body quic.h3 stream r s)
  unfolding read_body read_chunk
  read_body-Since stream r s k =
      repeat_total ReadSince (λ done. ReadSince) (read_chunk quic.h3 stream)
        (λ p. quic.h3.unread p.1)
        (λ p k.
          read_pass-Less (quic.h3.unread p.1) (quic.h3.recv_body stream p.1).0 p.0 _
            (omega (arith, k, timely.recv_body_time stream p.1))
            (timely.recv_body_fewer stream p.1))
        (suc (quic.h3.unread s)) (r, s) k (omega arith)

  abbrev pub HandledSince : Handling S → Type 0
  HandledSince h = t ≤ quic.now h.conn

  -- The events that `handle_http3_events` may still take.
  abbrev left : Handling S → ℕ
  left h = max_events_per_iteration - h.events_processed

  abbrev Later : ℕ → Handling S → Type 0
  Later n h = HandledSince h × (h.events_processed ≡ n)

  abbrev HandlesLater : ℕ → Pass (Result Bool) (Handling S) → Type 0
  HandlesLater n = Ends ⊥ (Later n) (λ verdict. HandledSince) (Later n)

  either-Later :
      (n : ℕ) (b : Bool) (verdict : Result Bool) (r : NetResponse) (s : S)
      (m : Pass (Result Bool) (Handling S))
      → t ≤ quic.now s
      → HandlesLater n m
      → HandlesLater n (if b then stop verdict (counted quic.h3 n r s) else m)
  either-Later n true verdict r s m k l = k
  either-Later n false verdict r s m k l = l

  handle_event-Later :
      (stream : ℕ) (e : Event) (n : ℕ) (r : NetResponse) (s : S)
      → t ≤ quic.now s
      → HandlesLater n (handle_event quic.h3 stream e n r s)
  unfolding handle_event
  handle_event-Later stream (headers list frames) n r s k =
      either-Later n (not frames && ltb 0 (with_headers quic.h3 list r).status_code) (ok true)
        (with_headers quic.h3 list r) s _ k (k, refl)
  handle_event-Later stream body n r s k =
      ended-Ends ⊥ (Later n) (λ verdict. HandledSince) (λ done. ReadSince) (Later n)
        (read_body quic.h3 stream r s) _ (read_body-Since stream r s k) (λ done now l. (l, refl))
  handle_event-Later stream finished n r s k = k
  handle_event-Later stream (reset code) n r s k = k
  handle_event-Later stream go_away n r s k =
      either-Later n (ltb 0 r.status_code) (ok true) r s
        (stop (err (codes "Server sent GoAway")) (counted quic.h3 n r s)) k k
  handle_event-Later stream other n r s k = (k, refl)

  handle_polled-Later :
      (p : Polled) (n : ℕ) (r : NetResponse) (s : S)
      → t ≤ quic.now s
      → HandlesLater (suc n) (handle_polled quic.h3 p n r s)
  unfolding handle_polled
  handle_polled-Later (event stream e) n r s k = handle_event-Later stream e (suc n) r s k
  handle_polled-Later no_event n r s k = k
  handle_polled-Later (poll_failed e) n r s k = k

  abbrev Fewer : ℕ → Handling S → Type 0
  Fewer n h = HandledSince h × (left h < n)

  -- One event more is one event fewer to take.
  Later-Fewer :
      (n : ℕ) (m : Pass (Result Bool) (Handling S))
      → n < max_events_per_iteration
      → HandlesLater (suc n) m
      → Ends ⊥
          (Fewer (max_events_per_iteration - n))
          (λ verdict. HandledSince)
          (Fewer (max_events_per_iteration - n))
          m
  Later-Fewer n stuck l h = h
  Later-Fewer n (stop verdict h) l k = k
  Later-Fewer n (again h) l k = (k.0, omega (arith, k.1))
  Later-Fewer n (go h) l k = (k.0, omega (arith, k.1))

  handle_next-Fewer :
      (h : Handling S)
      → HandledSince h
      → Ends ⊥ (Fewer (left h)) (λ verdict. HandledSince) (Fewer (left h)) (handle_next quic.h3 h)
  unfolding handle_next
  handle_next-Fewer h k =
      if-Ends ⊥ (Fewer (left h)) (λ verdict. HandledSince) (Fewer (left h))
        (ltb h.events_processed max_events_per_iteration) _ (stop (ok false) h)
        (λ fewer. Later-Fewer h.events_processed _ (ground arith) (
          handle_polled-Later (quic.h3.poll h.conn).0 h.events_processed h.response
            (quic.h3.poll h.conn).1 (omega (arith, k, timely.h3_poll_time h.conn))))
        (λ all. k)

  pub handle_http3_events-Since :
      (r : NetResponse) (s : S)
      → t ≤ quic.now s
      → After ⊥ (λ verdict. HandledSince) (handle_http3_events quic.h3 r s)
  unfolding handle_http3_events
  handle_http3_events-Since r s k =
      repeat_total HandledSince (λ verdict. HandledSince) (handle_next quic.h3) left
        handle_next-Fewer (suc max_events_per_iteration) (counted quic.h3 0 r s) k (omega arith)
