-- ===== src/Record.antt =====
-- conn.go: the record layer, one direction of a connection.
pub mod Seq
pub mod Padding
pub mod Decrypt
pub mod HalfConn
pub mod Encrypt
pub mod Flight
