-- ===== src/Ffi.antt =====
-- crates/xrds-internal/src/api/ffi/net.rs: the C interface of the network client.
pub mod Codes
pub mod Wrapper
pub mod Manager
pub mod Clients
pub mod Sessions
pub mod Calls
