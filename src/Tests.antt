-- ===== src/Tests.antt =====
-- The theorems at concrete inputs.
mod Common
mod Signaling
mod Servers
mod Client
mod RtcClient
mod Ffi
mod OpenXr
mod Requests
mod WebSocket
mod Http3
mod Capture
mod Transport
mod Pipeline
