-- ===== src/Conn.antt =====
-- conn.go: the connection over the record layer: reading, writing and closing.
pub mod State
pub mod Read
pub mod Frames
pub mod Handshake
pub mod Write
pub mod Exchange
pub mod Close
pub mod Interlock
