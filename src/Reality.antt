-- ===== src/Reality.antt =====
-- tls.go: the REALITY server. Two goroutines share the handshake state under one mutex: one reads
-- and checks the ClientHello, the other follows what the target sends.
pub mod Value
pub mod Auth
pub mod Mirror
pub mod Server
