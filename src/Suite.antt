-- ===== src/Suite.antt =====
-- cipher_suites.go: the AEADs that the record layer is given.
pub mod Aead
pub mod Nonce
