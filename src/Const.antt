-- ===== src/Const.antt =====
-- common.go: the numbers of the protocol. The children list the families.
pub mod RecordType
pub mod MessageType
pub mod Extension
use electricity.Common.{ℕ, ◌+◌}

abbrev pub version_tls10 : ℕ
version_tls10 = 0x0301

abbrev pub version_tls11 : ℕ
version_tls11 = 0x0302

abbrev pub version_tls12 : ℕ
version_tls12 = 0x0303

abbrev pub version_tls13 : ℕ
version_tls13 = 0x0304

abbrev pub max_plaintext : ℕ
max_plaintext = 16384

abbrev pub max_ciphertext : ℕ
max_ciphertext = 16384 + 2048

abbrev pub max_ciphertext_tls13 : ℕ
max_ciphertext_tls13 = 16384 + 256

abbrev pub record_header_len : ℕ
record_header_len = 5

abbrev pub max_handshake : ℕ
max_handshake = 65536

abbrev pub max_handshake_certificate_msg : ℕ
max_handshake_certificate_msg = 262144

abbrev pub max_useless_records : ℕ
max_useless_records = 16

-- The signalling cipher suite of RFC 5746, and the only status type of RFC 4366.
abbrev pub scsv_renegotiation : ℕ
scsv_renegotiation = 0x00ff

abbrev pub status_type_ocsp : ℕ
status_type_ocsp = 1
