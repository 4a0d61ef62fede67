-- ===== src/Capture.antt =====
-- crates/xrds-net/src/client/xrds_webrtc: the webcam's frames and their way into packets.
pub mod Webcam
pub mod Audio
pub mod Transcoder
