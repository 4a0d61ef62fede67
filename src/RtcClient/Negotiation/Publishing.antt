-- ===== src/RtcClient/Negotiation/Publishing.antt =====
-- The publisher's `publish`, followed by its wait for a subscriber.
use device_sdk.Base.{
  ℕ, List, [], ◌∷◌, ◌++◌, none, some, true, ◌≡◌, refl, ◌∙◌, arith, Text, codes, to_text, same, All,
}
use device_sdk.Base.Results
use device_sdk.Common.Messages.{WebRtcMessage}
use device_sdk.Common.Messages
use device_sdk.RtcClient.State.{
  RtcClient, Peer, ok, err, note, message, wait_for_message_internal, bind_ok, ◌>>=◌,
}
use device_sdk.RtcClient.Requests.{transmit_anyway}
use device_sdk.RtcClient.Requests.Waiting.{
  IsOther, IsPlain, Sends, online, wait_finds, await-times_out,
}
use device_sdk.RtcClient.Negotiation.{
  setup_webrtc, create_offer, collect_ice_candidates, create_data_channel, publish,
  wait_for_subscriber,
}

-- webrtc-rs makes this offer, gathers these candidates, and refuses nothing.
pub record Offers (peer : Peer) (offer first : Text) (others : List Text) : Type 0 where
  pub number : RtcClient → ℕ
  pub channel : ℕ → ℕ
  pub sets_up : peer.setup ≡ Results.ok tt
  pub connects : (c : RtcClient) → peer.new_peer_connection c ≡ Results.ok (number c)
  pub streams : (pc : ℕ) → peer.add_tracks pc ≡ Results.ok tt
  pub opens : (pc : ℕ) → peer.create_data_channel pc ≡ Results.ok (channel pc)
  pub creates : (pc : ℕ) → peer.create_offer pc ≡ Results.ok offer
  pub keeps : (pc : ℕ) → peer.set_local_description pc offer ≡ Results.ok tt
  pub gathers : (pc : ℕ) → peer.gathered pc ≡ first ∷ others

module _ (peer : Peer) (offer first : Text) (others : List Text) (c : RtcClient)
    (a : Offers peer offer first others) where
  abbrev pub ready : RtcClient
  ready = record c { api = true }

  abbrev pub connected : RtcClient
  connected = record ready { pc = some (a.number ready) }

  abbrev pub offering : RtcClient
  offering = record connected {
    pc = some (a.number connected);
    tracks = true;
    data_channel = some (a.channel (a.number connected));
    ice_candidates = some (first ∷ others);
    offer = some offer;
  }

  setup_webrtc_ready : setup_webrtc peer c ≡ ok tt connected
  unfolding setup_webrtc
  setup_webrtc_ready = ground (arith, a.sets_up, a.connects ready)

  collect_ice_candidates_all :
      (d : RtcClient) (n : ℕ)
      → d.pc ≡ some n
      → collect_ice_candidates peer 15 d ≡ ok (first ∷ others) d
  unfolding collect_ice_candidates
  collect_ice_candidates_all d n e = ground (arith, a.gathers n)

  create_offer_offering : create_offer peer c ≡ ok tt offering
  unfolding create_offer create_data_channel
  create_offer_offering =
      let n = a.number connected in
      let d : RtcClient = record connected {
        data_channel = some (a.channel n);
        pc = some n;
        tracks = true;
      } in
      ground (
        arith,
        setup_webrtc_ready,
        a.connects connected,
        a.streams n,
        a.opens n,
        a.creates n,
        a.keeps n,
        collect_ice_candidates_all d n refl,
      )

module _ (peer : Peer) (id session offer first : Text) (others : List Text) (c : RtcClient)
    (a : Offers peer offer first others) (before : List WebRtcMessage)
    (after : List WebRtcMessage) where
  abbrev pub proposal : WebRtcMessage
  proposal = message id session Messages.offer none (some offer)

  abbrev pub published : RtcClient
  published =
      record (offering peer offer first others (online id (before ++ (proposal ∷ after)) c) a) {
        incoming_rx = some after;
        sent = c.sent ++ (proposal ∷ []);
      }

  proposal_sent :
      Sends peer
      → transmit_anyway peer proposal
          (offering peer offer first others (online id (before ++ (proposal ∷ after)) c) a)
        ≡ ok tt (record published { incoming_rx = some (before ++ (proposal ∷ after)) })
  unfolding transmit_anyway
  proposal_sent s = ground (arith, s proposal)

  -- `publish` sends the offer that webrtc-rs makes and returns the server's confirmation, the first
  -- message of its type that arrives. What has arrived before it is gone.
  publish-proposal :
      Sends peer
      → All (λ x. IsOther Messages.offer x × IsPlain x) before
      → publish peer session (online id (before ++ (proposal ∷ after)) c) ≡ ok proposal published
  unfolding publish note same
  publish-proposal s h =
      let d = online id (before ++ (proposal ∷ after)) c in
      ground (
        arith,
        create_offer_offering peer offer first others d a,
        proposal_sent s,
        wait_finds Messages.offer before proposal after published h refl,
      )

  -- A publisher that finds no answer after the confirmation of its offer times out, also where an
  -- answer has arrived: `publish`, which waits for the confirmation, drops every message of another
  -- type that comes before it. The client is online, its writes do not fail, and no message before the
  -- confirmation is of the confirmation's type, a welcome or a new session.
  pub publish-wait_for_subscriber :
      (timeout_secs : ℕ)
      → Sends peer
      → All (λ x. IsOther Messages.offer x × IsPlain x) before
      → All (IsOther Messages.answer) after
      → (d : RtcClient) × ((publish peer session >>= (λ m. wait_for_subscriber peer timeout_secs))
            (online id (before ++ (proposal ∷ after)) c)
          ≡ err
              (codes "Timeout: No subscriber joined within "
                ++ (to_text timeout_secs ++ codes " seconds"))
              d)
  unfolding wait_for_subscriber wait_for_message_internal
  publish-wait_for_subscriber timeout_secs s h k =
      let (d, e) = await-times_out Messages.answer after published k in
      (
        d,
        bind_ok (publish peer session) (λ m. wait_for_subscriber peer timeout_secs)
              {c = online id (before ++ (proposal ∷ after)) c} (publish-proposal s h)
            ∙ ground (arith, e),
      )
