-- ===== src/Const/MessageType.antt =====
-- common.go: the TLS handshake message types.
use electricity.Common.{ℕ}

abbrev pub hello_request : ℕ
hello_request = 0

abbrev pub client_hello : ℕ
client_hello = 1

abbrev pub server_hello : ℕ
server_hello = 2

abbrev pub new_session_ticket : ℕ
new_session_ticket = 4

abbrev pub end_of_early_data : ℕ
end_of_early_data = 5

abbrev pub encrypted_extensions : ℕ
encrypted_extensions = 8

abbrev pub certificate : ℕ
certificate = 11

abbrev pub server_key_exchange : ℕ
server_key_exchange = 12

abbrev pub certificate_request : ℕ
certificate_request = 13

abbrev pub server_hello_done : ℕ
server_hello_done = 14

abbrev pub certificate_verify : ℕ
certificate_verify = 15

abbrev pub client_key_exchange : ℕ
client_key_exchange = 16

abbrev pub finished : ℕ
finished = 20

abbrev pub certificate_status : ℕ
certificate_status = 22

abbrev pub key_update : ℕ
key_update = 24
