-- ===== src/Lib.antt =====
-- The device SDK: the servers and the client of crates/xrds-net, the C interface of the client in
-- crates/xrds-internal, and the session and the frames of crates/xrds-openxr.
--
-- Parts and files.
--   Base           names of the libraries passed on; texts as lists of code points, their
--                  splitting and joining, decimals; association lists for `HashMap`; `Result`; loops
--                  whose passes stop, go on or start again (Base.Passes).
--   Common         crates/xrds-net/src/common: `parse_url` and `coap_code_to_decimal`
--                  (Common.Url), the tokens of a payload (Common.Tokens),
--                  `fill_mandatory_http_headers` (Common.Headers), the messages and enumerations
--                  (Common.Messages, Common.Enums).
--   Signaling      crates/xrds-net/src/server/webrtc_server.rs. Signaling.State has the two maps
--                  of `WebRTCServer` and the frames sent so far, and a monad of state and panic;
--                  Signaling.Handlers one function for each message; Signaling.Connection the
--                  router `signaling_handler`, the table of clients and `handle_connection`. The
--                  other children prove.
--   WsServer       crates/xrds-net/src/server/ws_server.rs: handlers, their registration, the loop
--                  of a connection.
--   NetServer      crates/xrds-net/src/server/server.rs: `XRNetServer`, which checks its
--                  configuration and starts the servers; its WebSocket server is that of WsServer.
--   Client         crates/xrds-net/src/client/client.rs: the builder, the client and its setters
--                  (Client.Settings), `connect` and `request` over HTTP, files and CoAP
--                  (Client.Requests), `request_http3` (Client.Http3: its events, and in the
--                  children its datagrams, its loop and what is proved of them), QUIC
--                  (Client.Quic), `send`, `rcv` and `close` by protocol (Client.Transport), the
--                  MQTT poll task, the subscribe slot and `rcv_mqtt` (Client.Mqtt), the FTP
--                  commands (Client.Ftp); and xrds_websocket.rs beside it (Client.WebSocket).
--   Capture        crates/xrds-net/src/client/xrds_webrtc: webcam_reader.rs (Capture.Webcam), the
--                  sound of media/audio_capturer.rs (Capture.Audio), the transcoder and the writers
--                  of media/transcoding/jpeg2h264.rs and media/streaming_mp4_writer.rs
--                  (Capture.Transcoder).
--   RtcClient      crates/xrds-net/src/client/xrds_webrtc/webrtc_client.rs: the client of the
--                  signalling server. RtcClient.State has the fields of `WebRTCClient`, the wait for
--                  a message and what is taken from webrtc-rs; RtcClient.Requests the requests with
--                  their answers, RtcClient.Negotiation offers, answers and candidates,
--                  RtcClient.Streaming the start of a stream, RtcClient.Pipeline the tasks that
--                  stream a webcam, as steps that interleave. Their children prove, some of them
--                  against the handlers of Signaling.
--   Ffi            crates/xrds-internal/src/api/ffi/net.rs: codes and numbers (Ffi.Codes), a client
--                  with its response as C strings (Ffi.Wrapper), `NetManager` and the guard of an
--                  operation (Ffi.Manager), the exported functions (Ffi.Clients, Ffi.Sessions), and
--                  all of them as the calls of a C program (Ffi.Calls). The clients are those of
--                  Client and RtcClient.
--   OpenXr         crates/xrds-openxr/src/openxr: schedule.rs, session.rs, render.rs and the order
--                  of the systems in init.rs (OpenXr.Session), against the order of calls that
--                  OpenXR allows (OpenXr.Protocol, OpenXr.Rest, OpenXr.Events, OpenXr.Frames); and
--                  the systems that create the session, with swapchain.rs and reference_space.rs
--                  (OpenXr.Creation).
--   Tests          each theorem at a concrete input.
--
-- Conventions. A panic is a result: `panicked` in Signaling, WsServer and Client.Requests, `none`
-- in Client.Ftp, OpenXr and `coap_code_to_decimal`, an error in NetServer, `aborted` in Ffi, where
-- it ends the process. The JSON of serde, the order in which a `HashMap` gives its keys,
-- `str::to_lowercase`, fresh identifiers, the file system, curl, the CoAP client, the FTP and the
-- WebSocket connection, quiche, mio, ffmpeg, opus, the camera's channel and the arithmetic of `f32`
-- are parameters. Whether tokio's `blocking_lock` returns is a parameter of
-- the connection loop; the locks are not poisoned by a panic, as tokio's are not. Most loops are
-- recursions over what comes in, without fuel. The loops of Client.Http3, Client.Quic and Capture have
-- fuel: an inner loop one pass more than the datagrams, bytes, packets or samples that are there, which
-- the parameters bound; a loop with a time limit one pass for each nanosecond of the limit and two
-- more, which is enough where a pass takes time. The loop that waits for a QUIC handshake has no limit
-- in the code, and whatever fuel in the model. A loop of the MQTT task is a recursion over
-- what its polls give; the counters saturate at the bounds of `u8` and `u32`, and a CoAP code
-- wraps in 32 bits. A wait of the WebRTC client is a recursion over the messages that arrive before
-- it times out, its sleeps of 100 ms included. A call of the C interface runs from its start to its
-- end; its handles and counters wrap in 64 bits, and a `c_int` is cast as Rust casts it. A frame of
-- the OpenXR application renders after its update. Of the tasks that stream a webcam, each receive,
-- each transcoding and each sample written is a step of its own; what `write_sample` makes of a
-- sample, and whether a transcoder can be created, are parameters of the steps.
--
-- Not modelled: sockets, TLS and the spawning of tasks; the calls of libunftp and rumqttc; the
-- set-up of quiche, cpal, opus and ffmpeg; the panics of curl's options on a zero byte in a text;
-- whether `rcv_mqtt` without a message ran into its time-out or into a closed channel; the thread
-- that captures from the camera, which is calls of nokhwa; the handlers of remote tracks and the
-- debugging loops that record to files; threads that call the C interface at the same time; the
-- instance of OpenXR, its poses and layers, and the graphics backends, which are calls of openxr,
-- wgpu and bevy; the runtime of the application.
mod Base
pub mod Common
pub mod Signaling
pub mod WsServer
pub mod Client
pub mod Capture
pub mod Ffi
pub mod OpenXr
pub mod RtcClient
pub mod Tests
pub mod NetServer
