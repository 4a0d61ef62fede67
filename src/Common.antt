-- ===== src/Common.antt =====
-- crates/xrds-net/src/common: the protocol and command names, the messages, the URL parser, the
-- HTTP/3 headers, and the token lists of the signalling protocol.
pub mod Enums
pub mod Messages
pub mod Url
pub mod Tokens
pub mod Headers
