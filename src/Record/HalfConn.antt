-- ===== src/Record/HalfConn.antt =====
-- conn.go: `halfConn`, the state of one direction, and the ciphers that it uses.
use electricity.Common.{
  ℕ, ◌+◌, ◌-◌, ◌/◌, ◌%◌, ◌≡◌, Option, none, some, List, [], ◌∷◌, ◌==◌, leb, replicate, length, set,
  if◌then◌else◌,
}
use electricity.Const.{version_tls11, version_tls13}

-- A cipher object of the standard library, by its kind; `S` is the state that its calls change.
pub data Cipher (S : Type 0) : Type 0 where
  stream aead cbc : S → Cipher S

-- The calls of crypto/cipher and hash that the record layer makes. `overhead` and `nonce_len` are
-- `Overhead` and `explicitNonceLen` of an AEAD, and `mac` is the sum of what is written to a hash.
pub record Primitives (S : Type 0) : Type 0 where
  pub xor_key_stream : S → List ℕ → List ℕ × S
  pub seal : S → List ℕ → List ℕ → List ℕ → List ℕ
  pub open_sealed : S → List ℕ → List ℕ → List ℕ → Option (List ℕ)
  pub overhead : S → ℕ
  pub nonce_len : S → ℕ
  pub block_size : S → ℕ
  pub set_iv : S → List ℕ → S
  pub crypt_blocks : S → List ℕ → List ℕ × S
  pub mac : S → List ℕ → List ℕ
  pub mac_size : S → ℕ

-- What is documented of an AEAD: it opens what it sealed, and `Seal` adds `Overhead` bytes.
pub record IsAead {S : Type 0} (p : Primitives S) : Type 0 where
  pub open-seal :
      (s : S) (nonce plain ad : List ℕ)
      → p.open_sealed s nonce (p.seal s nonce plain ad) ad ≡ some plain
  pub length-seal :
      (s : S) (nonce plain ad : List ℕ)
      → length (p.seal s nonce plain ad) ≡ length plain + p.overhead s

-- `halfConn` less its lock; `handshake_len` is REALITY's, with the lengths of the target's records.
pub record HalfConn (S : Type 0) : Type 0 where
  pub handshake_len : List ℕ
  pub handshake_buf : Option (List ℕ)
  pub version : ℕ
  pub cipher : Option (Cipher S)
  pub mac_hash : Option S
  pub seq : List ℕ
  pub next_cipher : Option (Cipher S)
  pub next_mac : Option S
  pub level : ℕ
  pub traffic_secret : List ℕ

-- What `encrypt` and `decrypt` return: a result, an alert as the error, another error, or a panic.
pub data Protected {ℓ} (A : Type ℓ) : Type ℓ where
  done : A → Protected A
  alert : ℕ → Protected A
  failed panics : Protected A

abbrev pub bad_record_mac : ℕ
bad_record_mac = 20

abbrev pub unexpected_message : ℕ
unexpected_message = 10

abbrev pub record_overflow : ℕ
record_overflow = 22

abbrev pub zero_seq : List ℕ
zero_seq = replicate 8 0

module _ {S : Type 0} where
  unfoldable pub prepare_cipher_spec : ℕ → Cipher S → Option S → HalfConn S → HalfConn S
  prepare_cipher_spec version cipher mac hc = record hc {
    version = version;
    next_cipher = some cipher;
    next_mac = mac;
  }

  -- `none` is `alertInternalError`.
  unfoldable pub change_cipher_spec : HalfConn S → Option (HalfConn S)
  change_cipher_spec hc = elim hc.next_cipher [
    | none ↦ none
    | some c ↦
        if hc.version == version_tls13
        then none
        else some (record hc {
          cipher = some c;
          mac_hash = hc.next_mac;
          next_cipher = none;
          next_mac = none;
          seq = zero_seq;
        })
  ]

  -- `aead` is `suite.aead(suite.trafficKey(secret))`.
  unfoldable pub set_traffic_secret : (List ℕ → S) → ℕ → List ℕ → HalfConn S → HalfConn S
  set_traffic_secret suite_aead level secret hc = record hc {
    traffic_secret = secret;
    level = level;
    cipher = some (aead (suite_aead secret));
    seq = zero_seq;
  }

  unfoldable pub explicit_nonce_len : Primitives S → HalfConn S → ℕ
  explicit_nonce_len p hc = elim hc.cipher [
    | none ↦ 0
    | some c ↦ elim c [
      | stream s ↦ 0
      | aead s ↦ p.nonce_len s
      | cbc s ↦ if leb version_tls11 hc.version then p.block_size s else 0
    ]
  ]

  -- `if len(explicitNonce) > 0 { c.SetIV(explicitNonce) }`
  abbrev pub with_iv : Primitives S → S → List ℕ → S
  with_iv p s [] = s
  with_iv p s (b ∷ bs) = p.set_iv s (b ∷ bs)

-- The two bytes of a record's length.
abbrev pub put_length : ℕ → List ℕ → List ℕ
put_length n bytes = set (set bytes 3 (n / 256 % 256)) 4 (n % 256)

abbrev pub round_up : ℕ → ℕ → ℕ
round_up a b = a + (b - a % b) % b
