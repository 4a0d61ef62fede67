-- ===== src/RtcClient.antt =====
-- crates/xrds-net/src/client/xrds_webrtc/webrtc_client.rs: the client of the signalling server. State
-- holds its data, Requests the requests to the server, Negotiation the exchange of descriptions and
-- candidates; the other children prove.
pub mod State
pub mod Requests
pub mod Negotiation
pub mod Streaming
pub mod Pipeline
