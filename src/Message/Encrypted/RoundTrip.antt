-- ===== src/Message/Encrypted/RoundTrip.antt =====
-- What an EncryptedExtensions message was written as is read back.
use electricity.Common.{
  ℕ, ◌≡◌, refl, true, false, some, List, [], not, append-nil, arith, length, is_empty, ok, bind?,
  bind?-eq-some,
}
use electricity.Wire.{Cryptobyte}
use electricity.Wire.Build.{skip-message, read_prefixed_end, put_prefixed-ne-empty}
use electricity.Wire.Adds.{Adds, Adds-optional, Adds-flag, Adds-⊕, read-Adds}
use electricity.Const.MessageType
use electricity.Const.Extension
use electricity.Message.Encrypted.{
  EncryptedExtensionsMsg, zero_encrypted_extensions, bytes_of, is_some, alpn_body,
  encrypted_extensions_parts, marshal_encrypted_extensions, read_alpn, handle_encrypted_extension,
  unmarshal_encrypted_extensions,
}

module _ (cb : Cryptobyte) where
  open cb use {put_prefixed, read_bytes, read_prefixed, read_bytes-append}

  -- One name, written and read.
  pub read_alpn-alpn_body :
      (proto d : List ℕ)
      → not (is_empty proto) ≡ true
      → alpn_body cb proto ≡ some d
      → read_alpn cb d ≡ ok (proto, [])
  unfolding read_alpn
  read_alpn-alpn_body proto d named h =
      let (y, p, q) = bind?-eq-some (put_prefixed 1 proto) (put_prefixed 2) h in
      rw (
        read_prefixed_end cb 2 y d q,
        put_prefixed-ne-empty cb 1 proto y (omega arith) p,
        read_prefixed_end cb 1 proto y p,
        named,
      )

  -- All of the data is read.
  pub read_bytes_whole : (d : List ℕ) → read_bytes (length d) d ≡ some (d, [])
  read_bytes_whole d = rw append-nil at (read_bytes-append (length d) d [] refl)

  -- The message after each written part.
  module _ (m : EncryptedExtensionsMsg) where
    with_alpn : EncryptedExtensionsMsg
    with_alpn = record zero_encrypted_extensions { alpn_protocol = m.alpn_protocol }

    with_quic : EncryptedExtensionsMsg
    with_quic = record m { early_data = false; ech_retry_configs = [] }

    with_early : EncryptedExtensionsMsg
    with_early = record m { ech_retry_configs = [] }

    Adds-parts :
        Adds cb
          (handle_encrypted_extension cb)
          (encrypted_extensions_parts cb m)
          zero_encrypted_extensions
          m
    unfolding handle_encrypted_extension with_alpn with_quic with_early
    Adds-parts =
        let handle = handle_encrypted_extension cb in
        Adds-⊕ cb handle _ _ zero_encrypted_extensions with_alpn m
          (Adds-optional cb handle (not (is_empty m.alpn_protocol)) Extension.alpn
            (alpn_body cb m.alpn_protocol) zero_encrypted_extensions with_alpn (omega arith)
            (λ t d rest e. rw (read_alpn-alpn_body m.alpn_protocol d t e)) (λ t. ground arith))
          (Adds-⊕ cb handle _ _ with_alpn with_quic m
            (Adds-optional cb handle (is_some m.quic_transport_parameters)
              Extension.quic_transport_parameters (some (bytes_of m.quic_transport_parameters))
              with_alpn with_quic (omega arith)
              (λ t d rest e. rw (read_bytes_whole d) (ground arith)) (λ t. ground arith))
            (Adds-⊕ cb handle _ _ with_quic with_early m
              (Adds-flag cb handle m.early_data Extension.early_data with_quic with_early
                (omega arith) (λ t rest. ground arith) (λ t. ground arith))
              (Adds-optional cb handle (not (is_empty m.ech_retry_configs))
                Extension.encrypted_client_hello (some m.ech_retry_configs) with_early m
                (omega arith) (λ t d rest e. rw (read_bytes_whole d) (ground arith))
                (λ t. ground arith))))

    -- An EncryptedExtensions message that was written is read back, with every field.
    pub unmarshal-marshal_encrypted_extensions :
        (bytes : List ℕ)
        → marshal_encrypted_extensions cb m ≡ some bytes
        → unmarshal_encrypted_extensions cb bytes ≡ ok m
    unfolding marshal_encrypted_extensions unmarshal_encrypted_extensions
    unmarshal-marshal_encrypted_extensions bytes h =
        let parts = encrypted_extensions_parts cb m in
        let (bs, b, sk) =
          skip-message cb MessageType.encrypted_extensions (bind? parts (put_prefixed 2)) h in
        let (x, p, q) = bind?-eq-some parts (put_prefixed 2) b in
        let read_back =
          read-Adds cb (handle_encrypted_extension cb) parts zero_encrypted_extensions m Adds-parts
            p in
        rw (sk, read_prefixed_end cb 2 x bs q) read_back
