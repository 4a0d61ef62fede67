-- ===== src/RtcClient/Requests/Waiting.antt =====
-- What a wait finds, and the requests against the signalling server.
use device_sdk.Base.{
  List, [], ◌∷◌, ◌++◌, none, some, true, ◌≡◌, ◌≢◌, refl, sym, subst, ap, ◌∙◌, arith, Text, codes,
  same, same_iff, All, lookup, lookup-insert_self,
}
use device_sdk.Common.Messages.{WebRtcMessage}
use device_sdk.Common.Messages
use device_sdk.Signaling.State.{Session, World, Env, returned, reply}
use device_sdk.Signaling.Handlers.{handle_create_session}
use device_sdk.RtcClient.State.{
  RtcClient, Peer, ok, err, note, await, wait_for_message_internal, message, bind_ok, M, ◌>>=◌,
  ◌>>◌, modify, pure,
}
use device_sdk.RtcClient.Requests.{transmit, create_session}

-- A message of another type, and one that is only read: no welcome, and no new session.
abbrev pub IsOther : Text → WebRtcMessage → Type 0
IsOther t m = m.message_type ≢ t

abbrev pub IsPlain : WebRtcMessage → Type 0
IsPlain m = (m.message_type ≢ Messages.welcome) × (m.message_type ≢ Messages.create_session)

pub note-IsPlain : (m : WebRtcMessage) (c : RtcClient) → IsPlain m → note m c ≡ c
unfolding note
note-IsPlain m c (w, k) = ground (
  arith,
  same_iff m.message_type Messages.welcome,
  same_iff m.message_type Messages.create_session,
)

await_other :
    (t : Text) (m : WebRtcMessage) (ms : List WebRtcMessage) (c : RtcClient)
    → IsOther t m
    → await t (m ∷ ms) c ≡ await t ms (note m (record c { incoming_rx = some ms }))
unfolding await
await_other t m ms c n = ground (arith, same_iff m.message_type t)

await_this :
    (t : Text) (m : WebRtcMessage) (ms : List WebRtcMessage) (c : RtcClient)
    → m.message_type ≡ t
    → await t (m ∷ ms) c ≡ ok m (note m (record c { incoming_rx = some ms }))
unfolding await
await_this t m ms c e = ground (arith, same_iff m.message_type t)

pub await-finds :
    (t : Text) (before : List WebRtcMessage) (m : WebRtcMessage) (after : List WebRtcMessage)
    (c : RtcClient)
    → All (λ x. IsOther t x × IsPlain x) before
    → m.message_type ≡ t
    → await t (before ++ (m ∷ after)) c ≡ ok m (note m (record c { incoming_rx = some after }))
await-finds t [] m after c h e = await_this t m after c e
await-finds t (x ∷ xs) m after c ((o, p), h) e =
    await_other t x (xs ++ (m ∷ after)) c o
    ∙ ap (await t (xs ++ (m ∷ after))) (note-IsPlain x _ p)
    ∙ await-finds t xs m after (record c { incoming_rx = some (xs ++ (m ∷ after)) }) h e

-- The client, with its identifier, an open socket, and what will arrive in time.
abbrev pub online : Text → List WebRtcMessage → RtcClient → RtcClient
online id ms c = record c { client_id = some id; writable = true; incoming_rx = some ms }

-- A socket whose writes do not fail.
abbrev pub Sends : Peer → Type 0
Sends peer = (m : WebRtcMessage) → peer.socket_error m ≡ none

pub wait_finds :
    (t : Text) (before : List WebRtcMessage) (m : WebRtcMessage) (after : List WebRtcMessage)
    (c : RtcClient)
    → All (λ x. IsOther t x × IsPlain x) before
    → m.message_type ≡ t
    → wait_for_message_internal t (record c { incoming_rx = some (before ++ (m ∷ after)) })
      ≡ ok m (note m (record c { incoming_rx = some after }))
unfolding wait_for_message_internal
wait_finds t before m after c =
    await-finds t before m after (record c { incoming_rx = some (before ++ (m ∷ after)) })

-- A wait that finds nothing of its type ends in a time-out, and all that has arrived is lost.
pub await-times_out :
    (t : Text) (ms : List WebRtcMessage) (c : RtcClient)
    → All (IsOther t) ms
    → (c' : RtcClient) × (await t ms c ≡ err (codes "Timeout waiting for " ++ t) c')
unfolding await
await-times_out t [] c h = (c, refl)
await-times_out t (x ∷ xs) c (o, h) =
    let (c', e) = await-times_out t xs (note x (record c { incoming_rx = some xs })) h in
    (c', await_other t x xs c o ∙ e)

pub transmit-online :
    (peer : Peer) (id : Text) (ms : List WebRtcMessage) (c : RtcClient) (m : WebRtcMessage)
    → Sends peer
    → transmit peer m (online id ms c)
      ≡ ok tt (record (online id ms c) { sent = c.sent ++ (m ∷ []) })
unfolding transmit
transmit-online peer id ms c m s = rw (s m) refl

pub returned_value : {A : Type 0} {a b : A} {v w : World} → returned a v ≡ returned b w → a ≡ b
returned_value e = cc

pub returned_world : {A : Type 0} {a b : A} {v w : World} → returned a v ≡ returned b w → v ≡ w
returned_world e = cc

-- A request and the wait for its answer, where the answer is the first message of its type.
pub request_finds :
    {B : Type 0} (peer : Peer) (id : Text) (request : WebRtcMessage) (t : Text)
    (next : WebRtcMessage → M B) (before : List WebRtcMessage) (m : WebRtcMessage)
    (after : List WebRtcMessage) (c : RtcClient)
    → Sends peer
    → All (λ x. IsOther t x × IsPlain x) before
    → m.message_type ≡ t
    → (transmit peer request >> (wait_for_message_internal t >>= next))
        (online id (before ++ (m ∷ after)) c)
      ≡ next m (note m (record (online id after c) { sent = c.sent ++ (request ∷ []) }))
request_finds peer id request t next before m after c s h e =
    let d = record (online id (before ++ (m ∷ after)) c) { sent = c.sent ++ (request ∷ []) } in
    bind_ok (transmit peer request) (λ done. wait_for_message_internal t >>= next)
      {c = online id (before ++ (m ∷ after)) c} {c' = d}
      (transmit-online peer id (before ++ (m ∷ after)) c request s)
    ∙ bind_ok (wait_for_message_internal t) next {c = d}
        {c' = note m (record (online id after c) { sent = c.sent ++ (request ∷ []) })}
        (wait_finds t before m after d h e)

create_session_answered :
    (peer : Peer) (c : RtcClient) (id fresh : Text) (before after : List WebRtcMessage)
    → Sends peer
    → All (λ x. IsOther Messages.create_session x × IsPlain x) before
    → create_session peer
        (online id (before ++ (reply id fresh Messages.create_session none none ∷ after)) c)
      ≡ ok fresh (record (online id after c) {
        session_id = some fresh;
        sent = c.sent ++ (message id [] Messages.create_session none none ∷ []);
      })
unfolding create_session note same
create_session_answered peer c id fresh before after s h =
    request_finds peer id (message id [] Messages.create_session none none) Messages.create_session
      (λ response.
        modify (λ c. record c { session_id = some response.session_id })
        >> pure response.session_id)
      before (reply id fresh Messages.create_session none none) after c s h refl

-- The client's request for a new session and the server's handler fit: the client, online under its
-- identifier, whose writes do not fail, learns the identifier that the server has drawn and has sent
-- its request alone, and the server has a session of that identifier, which the client has created
-- and alone takes part in. The server's answer may follow any messages, but a welcome or another new
-- session.
pub create_session-handle_create_session :
    (peer : Peer) (env : Env) (w w' : World) (c : RtcClient) (id fresh : Text)
    (before after : List WebRtcMessage) (r : WebRtcMessage)
    → Sends peer
    → All (λ x. IsOther Messages.create_session x × IsPlain x) before
    → handle_create_session env fresh (message id [] Messages.create_session none none) w
      ≡ returned r w'
    → (create_session peer (online id (before ++ (r ∷ after)) c)
        ≡ ok fresh (record (online id after c) {
          session_id = some fresh;
          sent = c.sent ++ (message id [] Messages.create_session none none ∷ []);
        }))
      × ((s : Session) × (lookup fresh w'.sessions ≡ some s)
          × (s.creator_id ≡ id)
          × (s.participants ≡ id ∷ []))
unfolding handle_create_session
create_session-handle_create_session peer env w w' c id fresh before after r s h e = (
  subst
      (λ x.
        create_session peer (online id (before ++ (x ∷ after)) c)
        ≡ ok fresh (record (online id after c) {
          session_id = some fresh;
          sent = c.sent ++ (message id [] Messages.create_session none none ∷ []);
        }))
      (returned_value e) (create_session_answered peer c id fresh before after s h),
  (
    _,
    ap (λ v. lookup fresh v.sessions) (sym (returned_world e))
        ∙ lookup-insert_self fresh _ w.sessions,
    refl,
    refl,
  ),
)
