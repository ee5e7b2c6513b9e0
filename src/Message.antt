-- ===== src/Message.antt =====
-- handshake_messages.go: the handshake messages, how they are written and read. Each child models
-- one group of messages, and the children of a child prove that what is written is read back.
pub mod Post
pub mod Encrypted
pub mod ServerHello
pub mod ClientHello
