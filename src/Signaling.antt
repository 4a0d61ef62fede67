-- ===== src/Signaling.antt =====
-- crates/xrds-net/src/server/webrtc_server.rs: the WebRTC signalling server. State holds its data,
-- Handlers one function for each signalling message, Connection the message router and the loop
-- that serves one client; the other children hold the proofs.
pub mod State
pub mod Handlers
pub mod Connection
pub mod Steps
pub mod Keeps
pub mod Validity
pub mod Delivery
pub mod Membership
pub mod Writes
pub mod Isolation
pub mod Listing
pub mod Panics
