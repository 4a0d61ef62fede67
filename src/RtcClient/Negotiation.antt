-- ===== src/RtcClient/Negotiation.antt =====
-- webrtc_client.rs: offers, answers and candidates, between the signalling server and webrtc-rs.
pub mod Answering
pub mod Publishing
pub mod Roles
use device_sdk.Base.{
  ℕ, List, [], ◌∷◌, ◌++◌, Option, none, some, Bool, true, false, ◌&&◌, Text, codes, to_text,
  if◌then◌else◌,
}
use device_sdk.Base.Results
use device_sdk.Common.Messages.{WebRtcMessage}
use device_sdk.Common.Messages
use device_sdk.Common.Tokens.{is_whitespace}
use device_sdk.RtcClient.State.{
  RtcClient, Peer, M, Run, ok, err, panicked, ◌>>=◌, ◌>>◌, pure, fail, lift, given, unwrap, ask,
  modify, message, wait_for_message_internal,
}
use device_sdk.RtcClient.Requests.{transmit, transmit_anyway}

abbrev pub no_id : Text
no_id = codes "Client ID is not set"

abbrev pub no_peer : Text
no_peer = codes "PeerConnection is not set"

-- `text.trim().is_empty()`.
abbrev pub is_blank : Text → Bool
is_blank [] = true
is_blank (c ∷ s) = is_whitespace c && is_blank s

abbrev pub guard : Bool → Text → M (Unit {0})
guard true e c = ok tt c
guard false e c = err e c

module _ (peer : Peer) where
  unfoldable pub setup_webrtc : M (Unit {0})
  setup_webrtc = do
    ready ← lift peer.setup
    modify (λ c. record c { api = true })
    pc ← λ c. lift (peer.new_peer_connection c) c
    modify (λ c. record c { pc = some pc })

  abbrev pub or_no_candidates : ℕ → Bool → List Text → M (List Text)
  or_no_candidates seconds ended (c ∷ cs) = pure (c ∷ cs)
  or_no_candidates seconds true [] = fail (codes "No ICE candidates collected")
  or_no_candidates seconds false [] = fail (
      codes "ICE candidate collection timeout after "
      ++ (to_text seconds ++ codes " seconds with no candidates"))

  -- What has been collected when the gathering ends or times out, unless it is nothing.
  unfoldable pub collect_ice_candidates : ℕ → M (List Text)
  collect_ice_candidates timeout_secs = do
    at ← ask (λ c. c.pc)
    pc ← given (codes "PeerConnection not set") at
    or_no_candidates timeout_secs (peer.gathering_ends pc) (peer.gathered pc)

  -- A data channel that cannot be created is only reported.
  unfoldable pub create_data_channel : ℕ → M (Unit {0})
  create_data_channel pc = elim (peer.create_data_channel pc) [
    | Results.err e ↦ pure tt
    | Results.ok d ↦ modify (λ c. record c { data_channel = some d })
  ]

  unfoldable pub create_offer : M (Unit {0})
  unfolding setup_webrtc collect_ice_candidates create_data_channel
  create_offer = do
    setup_webrtc
    pc ← λ c. lift (peer.new_peer_connection c) c
    tracks ← lift (peer.add_tracks pc)
    create_data_channel pc
    modify (λ c. record c { pc = some pc; tracks = true })
    offer ← lift (peer.create_offer pc)
    here ← lift (peer.set_local_description pc offer)
    candidates ← collect_ice_candidates 15
    modify (λ c. record c { ice_candidates = some candidates; offer = some offer })

  unfoldable pub publish : Text → M WebRtcMessage
  unfolding create_offer transmit_anyway
  publish session = do
    id ← ask (λ c. c.client_id)
    client ← given no_id id
    create_offer
    made ← ask (λ c. c.offer)
    offer ← unwrap made
    transmit_anyway peer (message client session Messages.offer none (some offer))
    wait_for_message_internal Messages.offer

  -- The publisher takes the subscriber's answer.
  unfoldable pub handle_answer : WebRtcMessage → M (Unit {0})
  handle_answer msg = do
    id ← ask (λ c. c.client_id)
    client ← given no_id id
    sdp ← unwrap msg.sdp
    answer ← lift (peer.parse_answer sdp)
    modify (λ c. record c { answer = some answer })
    at ← ask (λ c. c.pc)
    pc ← given no_peer at
    lift (peer.set_remote_description pc answer)

  -- Any error of the wait is reported as a time-out.
  abbrev pub or_timeout : ℕ → M WebRtcMessage → M WebRtcMessage
  or_timeout timeout_secs wait c = elim (wait c) [
    | ok m c' ↦ ok m c'
    | err e c' ↦
        err
          (codes "Timeout: No subscriber joined within "
            ++ (to_text timeout_secs ++ codes " seconds"))
          c'
    | panicked c' ↦ panicked c'
  ]

  unfoldable pub wait_for_subscriber : ℕ → M (Unit {0})
  unfolding handle_answer
  wait_for_subscriber timeout_secs = do
    answer ← or_timeout timeout_secs (wait_for_message_internal Messages.answer)
    handle_answer answer

  -- The list of candidates starts empty and is filled by webrtc-rs: here, with all that it gathers.
  unfoldable pub create_answer_for_offer : Text → M (Unit {0})
  create_answer_for_offer offer = do
    ready ← ask (λ c. c.api)
    guard ready (codes "API is not set")
    pc ← λ c. lift (peer.new_peer_connection c) c
    modify (λ c. record c { ice_candidates = some (peer.gathered pc) })
    there ← lift (peer.set_remote_description pc offer)
    answer ← lift (peer.create_answer pc)
    here ← lift (peer.set_local_description pc answer)
    modify (λ c. record c { pc = some pc; offer = some offer; answer = some answer })

  unfoldable pub send_answer_to_server : M (Unit {0})
  unfolding transmit
  send_answer_to_server = do
    made ← ask (λ c. c.answer)
    answer ← unwrap made
    id ← ask (λ c. c.client_id)
    client ← unwrap id
    joined ← ask (λ c. c.session_id)
    session ← unwrap joined
    transmit peer (message client session Messages.answer none (some answer))

  -- The subscriber answers the publisher's offer.
  unfoldable pub handle_offer : Text → M (Unit {0})
  unfolding setup_webrtc create_answer_for_offer send_answer_to_server
  handle_offer offer_string = do
    offer ← lift (peer.parse_offer offer_string)
    id ← ask (λ c. c.client_id)
    client ← given no_id id
    setup_webrtc
    create_answer_for_offer offer
    send_answer_to_server

  abbrev pub or_empty_offer : Text → M (Unit {0})
  or_empty_offer sdp c = if is_blank sdp then err (codes "SDP offer is empty") c else ok tt c

  unfoldable pub join_session : Text → M (Unit {0})
  unfolding transmit handle_offer
  join_session session = do
    id ← ask (λ c. c.client_id)
    client ← given no_id id
    modify (λ c. record c { session_id = some session })
    transmit peer (message client session Messages.join_session none none)
    result ← wait_for_message_internal Messages.join_session
    sdp ← given (codes "No SDP offer received from publisher") result.sdp
    or_empty_offer sdp
    handle_offer sdp
    m ← wait_for_message_internal Messages.answer
    pure tt

  -- One candidate after the other, up to the first that is refused.
  unfoldable pub add_candidates : ℕ → List Text → M (Unit {0})
  add_candidates pc [] = pure tt
  add_candidates pc (x ∷ xs) = do added ← lift (peer.add_ice_candidate pc x); add_candidates pc xs

  unfoldable pub handle_ice_candidate : WebRtcMessage → M (Unit {0})
  unfolding add_candidates
  handle_ice_candidate msg = do
    id ← ask (λ c. c.client_id)
    client ← given no_id id
    at ← ask (λ c. c.pc)
    pc ← given no_peer at
    guard (peer.has_remote_description pc)
        (codes "Remote description must be set before handling ICE candidates")
    listed ← given (codes "ICE candidates not set") msg.ice_candidates
    candidates ← lift (peer.decode_candidates listed)
    add_candidates pc candidates

  abbrev pub candidate_type : Bool → Text
  candidate_type true = Messages.ice_candidate_ack
  candidate_type false = Messages.ice_candidate

  unfoldable pub send_ice_candidates : Bool → M (Unit {0})
  unfolding transmit_anyway
  send_ice_candidates is_ack = do
    id ← ask (λ c. c.client_id)
    client ← given no_id id
    at ← ask (λ c. c.pc)
    pc ← given no_peer at
    own ← ask (λ c. c.ice_candidates)
    candidates ← given (codes "ICE candidates not set") own
    joined ← ask (λ c. c.session_id)
    session ← unwrap joined
    transmit_anyway peer (
        message client session (candidate_type is_ack) (some (peer.encode_candidates candidates))
          none)

  -- The subscriber's side, and the publisher's.
  unfoldable pub exchange_ice_candidates : Bool → M (Unit {0})
  unfolding handle_ice_candidate send_ice_candidates
  exchange_ice_candidates true = do
    m ← wait_for_message_internal Messages.ice_candidate
    handle_ice_candidate m
    send_ice_candidates true
  exchange_ice_candidates false = do
    send_ice_candidates false
    m ← wait_for_message_internal Messages.ice_candidate_ack
    handle_ice_candidate m
