-- ===== src/Client.antt =====
-- crates/xrds-net/src/client: the client of `client.rs`, its settings and requests, its MQTT and FTP
-- sides, and the WebSocket of `xrds_websocket.rs`.
pub mod Mqtt
pub mod Ftp
pub mod WebSocket
pub mod Settings
pub mod Requests
pub mod Http3
pub mod Quic
pub mod Transport
