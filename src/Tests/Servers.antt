-- ===== src/Tests/Servers.antt =====
-- tls.go on concrete connections.
use electricity.Common.{ℕ, ◌≡◌, refl, Bool, true, false, none, some, List, [], ◌∷◌, ◌++◌, replicate}
use electricity.Const.{version_tls13}
use electricity.Wire.Reference.{cryptobyte}
use electricity.Message.ServerHello.{KeyShare}
use electricity.Message.ClientHello.{ClientHelloMsg, fixed_fields}
use electricity.Reality.Auth.{
  Config, Crypto, initial, HelloRead, read_ok, client_turn, try_shares, try_share, accepts,
  write_session_id,
}
use electricity.Reality.Auth.Accepted.{Opens, client_turn-conn_is_client}
use electricity.Reality.Server.{
  Server, server_start, hello_turn, target_turn, Step, target_sends, target_finishes, finish,
  leaving, begins, steps, returned, reading,
}
use electricity.Reality.Server.Outcomes.{forwarded-transparent}
use electricity.Tests.Messages.{server_hello_bytes}

abbrev any_suite : ℕ → Bool
any_suite id = true

-- Cryptography that accepts everyone.
abbrev crypto : Crypto
crypto = record {
  x25519 = λ private point. some point;
  hkdf = λ secret salt info. some secret;
  aead_open = λ key nonce sealed ad. some (replicate 16 1);
  since = λ time. 0;
}

abbrev config : Config
config = record {
  private_key = 1 ∷ [];
  server_names = λ name. true;
  min_client_ver = none;
  max_client_ver = none;
  max_time_diff = 0;
  short_ids = λ id. true;
}

abbrev share : KeyShare
share = record { group = 29; key_data = replicate 32 3 }

abbrev hello : ClientHelloMsg
hello =
    record (fixed_fields (replicate 80 5) 0x0303 (replicate 32 4) (replicate 32 5) (0x1301 ∷ [])
      false (0 ∷ [])) { key_shares = share ∷ [] }

abbrev taken : HelloRead
taken = read_ok hello version_tls13

accepted_run : (client_turn crypto config taken initial).conn_is_client ≡ true
unfolding client_turn try_shares try_share accepts write_session_id
accepted_run = refl

client_turn-conn_is_client_example :
    (h : ClientHelloMsg) × (taken ≡ read_ok h version_tls13)
    × (config.server_names h.server_name ≡ true)
    × (initial.copying ≡ false)
    × (front : List KeyShare) × (s : KeyShare) × (back : List KeyShare) × (h.key_shares
        ≡ front ++ (s ∷ back))
    × Opens crypto config h s
client_turn-conn_is_client_example =
    client_turn-conn_is_client crypto config taken initial refl accepted_run

-- The target's ServerHello in its record, its ChangeCipherSpec, and the start of a record of more
-- than 512 bytes.
abbrev hello_record : List ℕ
hello_record = 22 ∷ (3 ∷ (3 ∷ (0 ∷ (90 ∷ server_hello_bytes))))

abbrev flight : List ℕ
flight =
    hello_record
    ++ ((20 ∷ (3 ∷ (3 ∷ (0 ∷ (1 ∷ (1 ∷ [])))))) ++ (23 ∷ (3 ∷ (3 ∷ (4 ∷ (0 ∷ (9 ∷ [])))))))

abbrev answered : Server
answered = hello_turn crypto config taken server_start

abbrev answered_leaving : Server
answered_leaving = target_turn cryptobyte any_suite flight true answered

abbrev served : Server
served = finish answered_leaving

-- The target speaks before the client's hello was read.
abbrev spoken_leaving : Server
spoken_leaving = target_turn cryptobyte any_suite (1 ∷ (2 ∷ [])) true server_start

abbrev spoken_to : Server
spoken_to = finish spoken_leaving

spoken_leaving-leaving : spoken_leaving.turn ≡ leaving
unfolding target_turn
spoken_leaving-leaving = refl

spoken_to-copying_back : (spoken_to.copying_back ≡ true) × (spoken_to.to_client ≡ 1 ∷ (2 ∷ []))
unfolding target_turn finish
spoken_to-copying_back = (refl, refl)

forwarded-transparent_example :
    (spoken_to.copying_back ≡ true
      → (spoken_to.to_client ≡ spoken_to.received)
        × (spoken_to.to_target ≡ spoken_to.from_client)
        × (returned spoken_to ≡ false))
    × (spoken_to.turn ≡ reading → spoken_to.to_client ≡ [])
forwarded-transparent_example = forwarded-transparent cryptobyte any_suite crypto config spoken_to (
    steps spoken_leaving spoken_to
      (steps server_start spoken_leaving begins
        (target_sends server_start (1 ∷ (2 ∷ [])) true refl))
      (target_finishes spoken_leaving spoken_leaving-leaving))
