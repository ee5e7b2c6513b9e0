-- ===== src/Tests/Messages.antt =====
-- handshake_messages.go on concrete messages.
use electricity.Common.{
  ◌⊎◌, false, ℕ, ◌≡◌, refl, true, false, none, some, List, [], ◌∷◌, ◌++◌, replicate, ok, inl, arith,
}
use electricity.Wire.Reference.{cryptobyte}
use electricity.Wire.Build.{build_list}
use electricity.Message.Post.{
  FinishedMsg, KeyUpdateMsg, CertificateVerifyMsg, CertificateStatusMsg, marshal_finished,
  unmarshal_finished, marshal_key_update, unmarshal_key_update, marshal_certificate_verify,
  unmarshal_certificate_verify, marshal_certificate_status, unmarshal_certificate_status,
  unmarshal-marshal_finished, unmarshal-marshal_key_update, unmarshal-marshal_certificate_verify,
  unmarshal-marshal_certificate_status,
}
use electricity.Message.Encrypted.{
  EncryptedExtensionsMsg, marshal_encrypted_extensions, unmarshal_encrypted_extensions,
}
use electricity.Message.Encrypted.RoundTrip.{unmarshal-marshal_encrypted_extensions}
use electricity.Message.ClientHello.{host_name, has_trailing_dot}
use electricity.Message.ClientHello.ServerName.{hosts, host_name-hosts}
use electricity.Message.ServerHello.{
  ServerHelloMsg, IsValid, marshal_server_hello, unmarshal_server_hello,
}
use electricity.Message.ServerHello.RoundTrip.{unmarshal-marshal_server_hello}

abbrev finished : FinishedMsg
finished = record { verify_data = 7 ∷ (8 ∷ (9 ∷ [])) }

abbrev finished_bytes : List ℕ
finished_bytes = 20 ∷ (0 ∷ (0 ∷ (3 ∷ (7 ∷ (8 ∷ (9 ∷ []))))))

marshal_finished_run : marshal_finished cryptobyte finished ≡ some finished_bytes
unfolding marshal_finished electricity.Wire.Build.message electricity.Wire.Reference.put
    electricity.Wire.Reference.put_prefixed
marshal_finished_run = refl

unmarshal-marshal_finished_example : unmarshal_finished cryptobyte finished_bytes ≡ ok finished
unmarshal-marshal_finished_example =
    unmarshal-marshal_finished cryptobyte finished finished_bytes marshal_finished_run

abbrev key_update : KeyUpdateMsg
key_update = record { update_requested = true }

abbrev key_update_bytes : List ℕ
key_update_bytes = 24 ∷ (0 ∷ (0 ∷ (1 ∷ (1 ∷ []))))

marshal_key_update_run : marshal_key_update cryptobyte key_update ≡ some key_update_bytes
unfolding marshal_key_update electricity.Wire.Build.message electricity.Wire.Reference.put
    electricity.Wire.Reference.put_prefixed
marshal_key_update_run = refl

unmarshal-marshal_key_update_example :
    unmarshal_key_update cryptobyte key_update_bytes ≡ ok key_update
unmarshal-marshal_key_update_example =
    unmarshal-marshal_key_update cryptobyte key_update key_update_bytes marshal_key_update_run

abbrev certificate_verify : CertificateVerifyMsg
certificate_verify = record {
  has_signature_algorithm = true;
  signature_algorithm = 0x0807;
  signature = 1 ∷ (2 ∷ []);
}

abbrev certificate_verify_bytes : List ℕ
certificate_verify_bytes = 15 ∷ (0 ∷ (0 ∷ (6 ∷ (8 ∷ (7 ∷ (0 ∷ (2 ∷ (1 ∷ (2 ∷ [])))))))))

marshal_certificate_verify_run :
    marshal_certificate_verify cryptobyte certificate_verify ≡ some certificate_verify_bytes
unfolding marshal_certificate_verify electricity.Wire.Build.message electricity.Wire.Reference.put
    electricity.Wire.Reference.put_prefixed
marshal_certificate_verify_run = refl

unmarshal-marshal_certificate_verify_example :
    unmarshal_certificate_verify cryptobyte true certificate_verify_bytes ≡ ok certificate_verify
unmarshal-marshal_certificate_verify_example =
    unmarshal-marshal_certificate_verify cryptobyte certificate_verify certificate_verify_bytes
      (omega arith) (λ h. cc) marshal_certificate_verify_run

abbrev certificate_status : CertificateStatusMsg
certificate_status = record { response = 5 ∷ [] }

abbrev certificate_status_bytes : List ℕ
certificate_status_bytes = 22 ∷ (0 ∷ (0 ∷ (5 ∷ (1 ∷ (0 ∷ (0 ∷ (1 ∷ (5 ∷ []))))))))

marshal_certificate_status_run :
    marshal_certificate_status cryptobyte certificate_status ≡ some certificate_status_bytes
unfolding marshal_certificate_status electricity.Wire.Build.message electricity.Wire.Reference.put
    electricity.Wire.Reference.put_prefixed
marshal_certificate_status_run = refl

unmarshal-marshal_certificate_status_example :
    unmarshal_certificate_status cryptobyte certificate_status_bytes ≡ ok certificate_status
unmarshal-marshal_certificate_status_example =
    unmarshal-marshal_certificate_status cryptobyte certificate_status certificate_status_bytes
      marshal_certificate_status_run

abbrev encrypted_extensions : EncryptedExtensionsMsg
encrypted_extensions = record {
  alpn_protocol = b'h' ∷ (b'2' ∷ []);
  quic_transport_parameters = none;
  early_data = true;
  ech_retry_configs = [];
}

abbrev encrypted_extensions_bytes : List ℕ
encrypted_extensions_bytes =
    8
    ∷ (0
        ∷ (0
            ∷ (15
                ∷ (0
                    ∷ (13
                        ∷ (0
                            ∷ (16
                                ∷ (0
                                    ∷ (5
                                        ∷ (0
                                            ∷ (3
                                                ∷ (2
                                                    ∷ (104
                                                        ∷ (50
                                                            ∷ (0
                                                            ∷ (42 ∷ (0 ∷ (0 ∷ []))))))))))))))))))

marshal_encrypted_extensions_run :
    marshal_encrypted_extensions cryptobyte encrypted_extensions ≡ some encrypted_extensions_bytes
unfolding marshal_encrypted_extensions electricity.Wire.Build.message electricity.Wire.Reference.put
    electricity.Wire.Reference.put_prefixed
marshal_encrypted_extensions_run = refl

unmarshal-marshal_encrypted_extensions_example :
    unmarshal_encrypted_extensions cryptobyte encrypted_extensions_bytes ≡ ok encrypted_extensions
unmarshal-marshal_encrypted_extensions_example =
    unmarshal-marshal_encrypted_extensions cryptobyte encrypted_extensions
      encrypted_extensions_bytes marshal_encrypted_extensions_run

abbrev server_hello : ServerHelloMsg
server_hello = record {
  original = [];
  vers = 0x0303;
  random = replicate 32 6;
  session_id = [];
  cipher_suite = 0x1301;
  compression_method = 0;
  ocsp_stapling = false;
  ticket_supported = false;
  secure_renegotiation_supported = false;
  secure_renegotiation = [];
  extended_master_secret = false;
  alpn_protocol = [];
  scts = [];
  supported_version = 0x0304;
  server_share = record { group = 29; key_data = replicate 32 9 };
  selected_identity_present = false;
  selected_identity = 0;
  supported_points = [];
  encrypted_client_hello = [];
  server_name_ack = false;
  cookie = [];
  selected_group = 0;
}

abbrev server_hello_front : List ℕ
server_hello_front = 2 ∷ (0 ∷ (0 ∷ (86 ∷ (3 ∷ (3 ∷ [])))))

abbrev server_hello_middle : List ℕ
server_hello_middle =
    0
    ∷ (19
        ∷ (1
            ∷ (0
                ∷ (0
                    ∷ (46
                        ∷ (0
                            ∷ (43
                                ∷ (0
                                    ∷ (2
                                        ∷ (3
                                            ∷ (4
                                                ∷ (0
                                                    ∷ (51
                                                        ∷ (0
                                                            ∷ (36
                                                            ∷ (0
                                                            ∷ (29 ∷ (0 ∷ (32 ∷ [])))))))))))))))))))

abbrev pub server_hello_bytes : List ℕ
server_hello_bytes =
    server_hello_front ++ (replicate 32 6 ++ (server_hello_middle ++ replicate 32 9))

server_hello-IsValid : IsValid server_hello
server_hello-IsValid = record {
  vers_fits = omega arith;
  cipher_suite_fits = omega arith;
  compression_method_fits = omega arith;
  supported_version_fits = omega arith;
  group_fits = omega arith;
  selected_group_fits = omega arith;
  selected_identity_fits = omega arith;
  renegotiation_shown = λ h. refl;
  identity_shown = λ h. refl;
  share_shown = λ h. absurd (omega (arith, h));
  scts_full = tt;
  one_share = inl refl;
}

marshal_server_hello_run : marshal_server_hello cryptobyte server_hello ≡ some server_hello_bytes
unfolding marshal_server_hello electricity.Wire.Build.message electricity.Wire.Reference.put
    electricity.Wire.Reference.put_prefixed
marshal_server_hello_run = refl

unmarshal-marshal_server_hello_example :
    unmarshal_server_hello cryptobyte server_hello_bytes
    ≡ ok (record server_hello { original = server_hello_bytes })
unmarshal-marshal_server_hello_example =
    unmarshal-marshal_server_hello cryptobyte server_hello server_hello_bytes server_hello-IsValid
      marshal_server_hello_run

abbrev example_host : List ℕ
example_host = b'a' ∷ (b'.' ∷ (b'b' ∷ []))

abbrev name_list : List (ℕ × List ℕ)
name_list = (1, 7 ∷ []) ∷ ((0, example_host) ∷ [])

host_name_run : host_name [] name_list ≡ ok example_host
unfolding host_name
host_name_run = refl

host_name-hosts_example :
    ((hosts name_list ≡ []) × (example_host ≡ []))
    ⊎ ((hosts name_list ≡ example_host ∷ []) × (has_trailing_dot example_host ≡ false))
host_name-hosts_example = host_name-hosts name_list example_host (refl, (refl, tt)) host_name_run
