-- ===== src/Reality/Auth/Accepted.antt =====
-- tls.go: which ClientHellos the server takes over.
use electricity.Common.{
  ℕ, ◌≡◌, refl, true, false, some, List, [], ◌∷◌, ◌++◌, not, ◌||◌, ◌==◌, length, take, drop, ap,
  arith, Bool-cases, Option-cases, inl, inr,
}
use electricity.Const.{version_tls13}
use electricity.Message.ServerHello.{KeyShare}
use electricity.Message.ClientHello.{ClientHelloMsg}
use electricity.Reality.Auth.{
  Config, Crypto, Shared, HelloRead, read_ok, read_failed, copy, zeros, group_x25519, reality_info,
  write_session_id, accepts, plain_ver, plain_time, plain_short_id, try_share, try_shares,
  client_turn,
}

-- A key share by which the session id of the hello opens to an acceptable plain text.
pub record Opens (crypto : Crypto) (config : Config) (hello : ClientHelloMsg) (share : KeyShare)
    : Type 0 where
  pub group : share.group ≡ group_x25519
  pub long : length share.key_data ≡ 32
  pub secret : List ℕ
  pub shared_secret : crypto.x25519 config.private_key share.key_data ≡ some secret
  pub key : List ℕ
  pub derived : crypto.hkdf secret (take 20 hello.random) reality_info ≡ some key
  pub text : List ℕ
  pub authentic :
      crypto.aead_open key
        (drop 20 hello.random)
        (copy zeros hello.session_id)
        (write_session_id hello zeros).original
      ≡ some text
  pub accepted :
      accepts crypto config
        (plain_ver (copy zeros text))
        (plain_time (copy zeros text))
        (plain_short_id (copy zeros text))
      ≡ true

module _ (crypto : Crypto) (config : Config) (hello : ClientHelloMsg) (hs : Shared) where
  try_share_sound :
      (share : KeyShare)
      → share.group ≡ group_x25519
      → length share.key_data ≡ 32
      → hs.conn_is_client ≡ false
      → (try_share crypto config hs hello share).conn_is_client ≡ true
      → Opens crypto config hello share
  unfolding try_share
  try_share_sound share g l z h =
      elim (Option-cases (crypto.x25519 config.private_key share.key_data)) [
        | inl e ↦ absurd (ground arith)
        | inr (secret, e) ↦
            elim (Option-cases (crypto.hkdf secret (take 20 hello.random) reality_info)) [
              | inl e₁ ↦ absurd (ground arith)
              | inr (key, e₁) ↦
                  elim (Option-cases (
                    crypto.aead_open key (drop 20 hello.random) (copy zeros hello.session_id)
                      (write_session_id hello zeros).original)) [
                        | inl e₂ ↦ absurd (ground arith)
                        | inr (text, e₂) ↦ record {
                          group = g;
                          long = l;
                          secret = secret;
                          shared_secret = e;
                          key = key;
                          derived = e₁;
                          text = text;
                          authentic = e₂;
                          accepted = ground arith;
                        }
                      ]
            ]
      ]

  -- The loop takes the first share of the right kind, so it accepts one of the hello's shares.
  try_shares_sound :
      (shares : List KeyShare)
      → hs.conn_is_client ≡ false
      → (try_shares crypto config hs hello shares).conn_is_client ≡ true
      → (front : List KeyShare) × (share : KeyShare) × (back : List KeyShare) × (shares
          ≡ front ++ (share ∷ back))
        × Opens crypto config hello share
  unfolding try_shares
  try_shares_sound [] z h = cc
  try_shares_sound (share ∷ shares) z h =
      elim (Bool-cases (not (share.group == group_x25519) || not (length share.key_data == 32))) [
        | inl skip ↦
            let (front, s, back, e, o) = try_shares_sound shares z (ground arith) in
            (share ∷ front, s, back, ap (◌∷◌ share) e, o)
        | inr take_it ↦ (
          [],
          share,
          shares,
          refl,
          try_share_sound share (ground arith) (ground arith) z (ground arith),
        )
      ]

-- The server takes a connection over only for a hello that it read, whose server name it serves and
-- which negotiated TLS 1.3, before the target sent anything; and one of the hello's X25519 shares
-- opens the session id, authenticated with the whole hello, to an acceptable version, time and
-- short id.
pub client_turn-conn_is_client :
    (crypto : Crypto) (config : Config) (result : HelloRead) (hs : Shared)
    → hs.conn_is_client ≡ false
    → (client_turn crypto config result hs).conn_is_client ≡ true
    → (hello : ClientHelloMsg) × (result ≡ read_ok hello version_tls13)
      × (config.server_names hello.server_name ≡ true)
      × (hs.copying ≡ false)
      × (front : List KeyShare) × (share : KeyShare) × (back : List KeyShare) × (hello.key_shares
          ≡ front ++ (share ∷ back))
      × Opens crypto config hello share
unfolding client_turn
client_turn-conn_is_client crypto config read_failed hs z h = cc
client_turn-conn_is_client crypto config (read_ok hello vers) hs z h =
    elim (Bool-cases (config.server_names hello.server_name)) [
      | inr e ↦ absurd (ground arith)
      | inl e ↦ elim (Bool-cases (hs.copying || not (vers == version_tls13))) [
        | inl e₁ ↦ absurd (ground arith)
        | inr e₁ ↦
            let (front, share, back, p, o) =
              try_shares_sound crypto config hello (record hs { client_hello = some hello })
                hello.key_shares z (rw (e, e₁) at h) in
            (hello, ground arith, e, ground arith, front, share, back, p, o)
      ]
    ]

module _ (crypto : Crypto) (config : Config) (hello : ClientHelloMsg) (hs : Shared) where
  -- The flags that the loop leaves alone.
  abbrev pub Keeps : Shared → Type 0
  Keeps hs' = (hs'.panicked ≡ hs.panicked) × (hs'.copying ≡ hs.copying)

  try_share-Keeps : (share : KeyShare) → Keeps (try_share crypto config hs hello share)
  unfolding try_share
  try_share-Keeps share = elim (Option-cases (crypto.x25519 config.private_key share.key_data)) [
    | inl e ↦ (ground arith, ground arith)
    | inr (secret, e) ↦
        elim (Option-cases (crypto.hkdf secret (take 20 hello.random) reality_info)) [
          | inl e₁ ↦ (ground arith, ground arith)
          | inr (key, e₁) ↦
              elim (Option-cases (
                crypto.aead_open key (drop 20 hello.random) (copy zeros hello.session_id)
                  (write_session_id hello zeros).original)) [
                    | inl e₂ ↦ (ground arith, ground arith)
                    | inr (text, e₂) ↦ (ground arith, ground arith)
                  ]
        ]
  ]

  try_shares-Keeps : (shares : List KeyShare) → Keeps (try_shares crypto config hs hello shares)
  unfolding try_shares
  try_shares-Keeps [] = (refl, refl)
  try_shares-Keeps (share ∷ shares) =
      elim (Bool-cases (not (share.group == group_x25519) || not (length share.key_data == 32))) [
        | inl skip ↦ rw (skip) (try_shares-Keeps shares)
        | inr take_it ↦ rw (take_it) (try_share-Keeps share)
      ]

read_ok-Keeps :
    (crypto : Crypto) (config : Config) (hello : ClientHelloMsg) (vers : ℕ) (hs : Shared)
    → Keeps crypto config hello hs (client_turn crypto config (read_ok hello vers) hs)
unfolding client_turn
read_ok-Keeps crypto config hello vers hs =
    let hs₁ : Shared = record hs { client_hello = some hello } in
    elim (Bool-cases (config.server_names hello.server_name)) [
      | inr e ↦ (ground arith, ground arith)
      | inl e ↦ elim (Bool-cases (hs.copying || not (vers == version_tls13))) [
        | inl e₁ ↦ (ground arith, ground arith)
        | inr e₁ ↦
            let (p, c) = try_shares-Keeps crypto config hello hs₁ hello.key_shares in
            (ground (arith, p), ground (arith, c))
      ]
    ]

pub client_turn-copying :
    (crypto : Crypto) (config : Config) (result : HelloRead) (hs : Shared)
    → (client_turn crypto config result hs).copying ≡ hs.copying
unfolding client_turn
client_turn-copying crypto config read_failed hs = refl
client_turn-copying crypto config (read_ok hello vers) hs =
    let (_, c) = read_ok-Keeps crypto config hello vers hs in c
