-- ===== src/Const/RecordType.antt =====
-- common.go: the TLS record types.
use electricity.Common.{ℕ}

abbrev pub change_cipher_spec : ℕ
change_cipher_spec = 20

abbrev pub alert : ℕ
alert = 21

abbrev pub handshake : ℕ
handshake = 22

abbrev pub application_data : ℕ
application_data = 23
