-- ===== src/RtcClient/Negotiation/Answering.antt =====
-- The answer that a subscriber makes to an offer.
use device_sdk.Base.{ℕ, List, [], ◌∷◌, ◌++◌, none, some, true, ◌≡◌, arith, Text}
use device_sdk.Base.Results
use device_sdk.Common.Messages.{WebRtcMessage}
use device_sdk.Common.Messages
use device_sdk.RtcClient.State.{RtcClient, Peer, ok, message}
use device_sdk.RtcClient.Requests.Waiting.{Sends, online}
use device_sdk.RtcClient.Negotiation.{
  setup_webrtc, create_answer_for_offer, send_answer_to_server, handle_offer,
}

-- webrtc-rs takes the offer and makes this answer, whatever connection it is asked for.
pub record Answers (peer : Peer) (sdp offer answer : Text) : Type 0 where
  pub number : RtcClient → ℕ
  pub parses : peer.parse_offer sdp ≡ Results.ok offer
  pub sets_up : peer.setup ≡ Results.ok tt
  pub connects : (c : RtcClient) → peer.new_peer_connection c ≡ Results.ok (number c)
  pub takes : (pc : ℕ) → peer.set_remote_description pc offer ≡ Results.ok tt
  pub creates : (pc : ℕ) → peer.create_answer pc ≡ Results.ok answer
  pub keeps : (pc : ℕ) → peer.set_local_description pc answer ≡ Results.ok tt

module _ (peer : Peer) (id session sdp offer answer : Text) (c : RtcClient)
    (ms : List WebRtcMessage) where
  abbrev pub in_session : RtcClient
  in_session = record (online id ms c) { session_id = some session }

  abbrev pub answering : Answers peer sdp offer answer → RtcClient
  answering a =
      let c1 : RtcClient = record in_session { api = true } in
      let c2 : RtcClient = record c1 { pc = some (a.number c1) } in
      record c2 {
        pc = some (a.number c2);
        ice_candidates = some (peer.gathered (a.number c2));
        offer = some offer;
        answer = some answer;
      }

  abbrev pub ready : RtcClient
  ready = record in_session { api = true }

  abbrev pub connected : Answers peer sdp offer answer → RtcClient
  connected a = record ready { pc = some (a.number ready) }

  setup_webrtc-connected :
      (a : Answers peer sdp offer answer) → setup_webrtc peer in_session ≡ ok tt (connected a)
  unfolding setup_webrtc
  setup_webrtc-connected a = ground (arith, a.sets_up, a.connects ready)

  create_answer_for_offer-answering :
      (a : Answers peer sdp offer answer)
      → create_answer_for_offer peer offer (connected a) ≡ ok tt (answering a)
  unfolding create_answer_for_offer
  create_answer_for_offer-answering a =
      let n = a.number (connected a) in
      ground (arith, a.connects (connected a), a.takes n, a.creates n, a.keeps n)

  send_answer_to_server_sent :
      (a : Answers peer sdp offer answer)
      → Sends peer
      → send_answer_to_server peer (answering a)
        ≡ ok tt (record (answering a) {
          sent = c.sent ++ (message id session Messages.answer none (some answer) ∷ []);
        })
  unfolding send_answer_to_server
  send_answer_to_server_sent a s =
      ground (arith, s (message id session Messages.answer none (some answer)))

  pub handle_offer_answers :
      Sends peer
      → (a : Answers peer sdp offer answer)
      → handle_offer peer sdp in_session
        ≡ ok tt (record (answering a) {
          sent = c.sent ++ (message id session Messages.answer none (some answer) ∷ []);
        })
  unfolding handle_offer
  handle_offer_answers s a = ground (
    arith,
    a.parses,
    setup_webrtc-connected a,
    create_answer_for_offer-answering a,
    send_answer_to_server_sent a s,
  )
