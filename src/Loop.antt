-- ===== src/Loop.antt =====
-- connection/base.go, connection/conn.go and eventloop/: plain connections and the event loop that
-- owns them.
pub mod State
pub mod Touch
pub mod Send
pub mod Packets
pub mod Read
pub mod Conns
pub mod Cmd
pub mod Turn
pub mod Run
pub mod Wakeup
pub mod Tests
