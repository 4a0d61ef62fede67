-- ===== src/Common/Enums.antt =====
-- crates/xrds-net/src/common/enums.rs.
pub data Protocols : Type 0 where
  http https file coap mqtt ftp sftp ws wss webrtc http3 quic : Protocols

pub data FtpCommands : Type 0 where
  cwd cdup quit retr stor appe dele rmd mkd pwd list noop : FtpCommands
