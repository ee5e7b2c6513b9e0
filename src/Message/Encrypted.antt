-- ===== src/Message/Encrypted.antt =====
-- handshake_messages.go: encryptedExtensionsMsg. An absent ALPN protocol and absent retry configs
-- are empty strings, as in the source; `none` is a nil quicTransportParameters.
use electricity.Common.{
  ℕ, Bool, true, false, Option, none, some, List, [], ◌++◌, not, ◌==◌, length, is_empty,
  if◌then◌else◌, Outcome, ok, ◌>>=◌, ◌>>◌, lift, guard, bind?,
}
use electricity.Wire.{Cryptobyte}
use electricity.Wire.Build.{◌⊕◌, message}
use electricity.Wire.Extensions.{Handler, optional, extension, flag, read_extensions}
use electricity.Const.MessageType
use electricity.Const.Extension
pub mod RoundTrip

pub record EncryptedExtensionsMsg : Type 0 where
  pub alpn_protocol : List ℕ
  pub quic_transport_parameters : Option (List ℕ)
  pub early_data : Bool
  pub ech_retry_configs : List ℕ

abbrev pub zero_encrypted_extensions : EncryptedExtensionsMsg
zero_encrypted_extensions = record {
  alpn_protocol = [];
  quic_transport_parameters = none;
  early_data = false;
  ech_retry_configs = [];
}

-- A nil slice is written as no bytes.
abbrev pub bytes_of : Option (List ℕ) → List ℕ
bytes_of none = []
bytes_of (some bytes) = bytes

abbrev pub is_some {ℓ} : {A : Type ℓ} → Option A → Bool
is_some none = false
is_some (some a) = true

module _ (cb : Cryptobyte) where
  open cb use {put, put_prefixed, skip, read_bytes, read_prefixed}

  -- The protocol list of a server's answer: one name.
  abbrev pub alpn_body : List ℕ → Option (List ℕ)
  alpn_body proto = bind? (put_prefixed 1 proto) (put_prefixed 2)

  abbrev pub encrypted_extensions_parts : EncryptedExtensionsMsg → Option (List ℕ)
  encrypted_extensions_parts m =
      optional (not (is_empty m.alpn_protocol))
        (extension cb Extension.alpn (alpn_body m.alpn_protocol))
      ⊕ optional (is_some m.quic_transport_parameters) (
          extension cb Extension.quic_transport_parameters
            (some (bytes_of m.quic_transport_parameters)))
      ⊕ optional m.early_data (flag cb Extension.early_data)
      ⊕ optional (not (is_empty m.ech_retry_configs))
          (extension cb Extension.encrypted_client_hello (some m.ech_retry_configs))

  unfoldable pub marshal_encrypted_extensions : EncryptedExtensionsMsg → Option (List ℕ)
  marshal_encrypted_extensions m =
      message cb MessageType.encrypted_extensions
        (bind? (encrypted_extensions_parts m) (put_prefixed 2))

  -- The ALPN answer: a list with exactly one name, which is not empty.
  unfoldable pub read_alpn : List ℕ → Outcome (List ℕ × List ℕ)
  read_alpn ext_data = do
    (proto_list, left) ← lift (read_prefixed 2 ext_data)
    guard (not (is_empty proto_list))
    (proto, protos) ← lift (read_prefixed 1 proto_list)
    guard (not (is_empty proto))
    guard (is_empty protos)
    ok (proto, left)

  -- The `switch extension`. An unknown extension is passed over, whatever its data.
  unfoldable pub handle_encrypted_extension : Handler EncryptedExtensionsMsg
  handle_encrypted_extension ext ext_data rest m =
      if ext == Extension.alpn
      then (do (proto, left) ← read_alpn ext_data; ok (record m { alpn_protocol = proto }, left))
      else if ext == Extension.quic_transport_parameters
      then (do
        (params, left) ← lift (read_bytes (length ext_data) ext_data)
        ok (record m { quic_transport_parameters = some params }, left))
      else if ext == Extension.early_data
      then ok (record m { early_data = true }, ext_data)
      else if ext == Extension.encrypted_client_hello
      then (do
        (configs, left) ← lift (read_bytes (length ext_data) ext_data)
        ok (record m { ech_retry_configs = configs }, left))
      else ok (m, [])

  unfoldable pub unmarshal_encrypted_extensions : List ℕ → Outcome EncryptedExtensionsMsg
  unmarshal_encrypted_extensions bytes = do
    s ← lift (skip 4 bytes)
    (extensions, s₁) ← lift (read_prefixed 2 s)
    guard (is_empty s₁)
    read_extensions cb handle_encrypted_extension extensions zero_encrypted_extensions
