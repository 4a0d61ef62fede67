-- ===== src/OpenXr.antt =====
-- crates/xrds-openxr/src/openxr: the session and the frames of the OpenXR application.
pub mod Session
pub mod Creation
pub mod Protocol
pub mod Rest
pub mod Events
pub mod Frames
