-- ===== src/Websocket.antt =====
-- websocket/: the frame layer of the WebSocket protocol.
pub mod Endian
pub mod Frame
pub mod Utf8
pub mod Close
pub mod Client
pub mod Cipher
pub mod Process
pub mod Tokens
pub mod Tests
