-- ===== src/Const/Extension.antt =====
-- common.go: the TLS extension numbers.
use electricity.Common.{ℕ}

abbrev pub server_name : ℕ
server_name = 0

abbrev pub status_request : ℕ
status_request = 5

abbrev pub supported_curves : ℕ
supported_curves = 10

abbrev pub supported_points : ℕ
supported_points = 11

abbrev pub signature_algorithms : ℕ
signature_algorithms = 13

abbrev pub alpn : ℕ
alpn = 16

abbrev pub sct : ℕ
sct = 18

abbrev pub extended_master_secret : ℕ
extended_master_secret = 23

abbrev pub session_ticket : ℕ
session_ticket = 35

abbrev pub pre_shared_key : ℕ
pre_shared_key = 41

abbrev pub early_data : ℕ
early_data = 42

abbrev pub supported_versions : ℕ
supported_versions = 43

abbrev pub cookie : ℕ
cookie = 44

abbrev pub psk_modes : ℕ
psk_modes = 45

abbrev pub certificate_authorities : ℕ
certificate_authorities = 47

abbrev pub signature_algorithms_cert : ℕ
signature_algorithms_cert = 50

abbrev pub key_share : ℕ
key_share = 51

abbrev pub quic_transport_parameters : ℕ
quic_transport_parameters = 57

abbrev pub renegotiation_info : ℕ
renegotiation_info = 0xff01

abbrev pub encrypted_client_hello : ℕ
encrypted_client_hello = 0xfe0d
