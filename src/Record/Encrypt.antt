-- ===== src/Record/Encrypt.antt =====
-- conn.go: `encrypt`, with REALITY's padding of the server's flight to the target's record lengths.
use electricity.Common.{
  ℕ, zero, suc, ◌+◌, ◌-◌, ◌/◌, ◌%◌, ◌≡◌, Bool, true, false, Option, none, some, List, [], ◌∷◌, ◌++◌,
  ◌==◌, leb, ltb, ◌&&◌, not, replicate, length, set, get_or, take, drop, if◌then◌else◌,
}
use electricity.Const.{version_tls13, record_header_len}
use electricity.Const.RecordType
use electricity.Const.MessageType
use electricity.Record.Seq.{inc_seq}
use electricity.Record.HalfConn.{
  Cipher, stream, aead, cbc, Primitives, HalfConn, Protected, done, alert, failed, panics,
  explicit_nonce_len, put_length, with_iv,
}
use electricity.Reality.Mirror.{size}
pub mod Mirrored
pub mod Sent

-- `switch payload[0]`: the place in `handshakeLen` of a message's type.
abbrev pub mirror_slot : ℕ → Option ℕ
mirror_slot typ =
    if typ == MessageType.encrypted_extensions
    then some 2
    else if typ == MessageType.certificate
    then some 3
    else if typ == MessageType.certificate_verify
    then some 4
    else if typ == MessageType.finished
    then some 5
    else if typ == MessageType.new_session_ticket
    then some 6
    else none

module _ {S : Type 0} (p : Primitives S) where
  -- A session ticket goes out as an empty record of application data: its first two bytes are
  -- overwritten.
  abbrev pub disguise : ℕ → List ℕ → List ℕ
  disguise typ bytes =
      if typ == MessageType.new_session_ticket
      then set (set bytes 5 RecordType.application_data) 6 0
      else bytes

  -- The padding proper: `padding` is what `handshakeLen` holds, less what the record takes anyway.
  -- `empty[:padding]` is at most `size` long.
  unfoldable pub pad : S → ℕ → List ℕ → Protected (List ℕ)
  pad s target bytes =
      let least = length bytes + p.overhead s in
      if ltb target least
      then failed
      else if ltb size (target - least)
      then panics
      else done (bytes ++ replicate (target - least) 0)

  -- `if recordType(record[0]) == recordTypeHandshake && hc.handshakeLen[1] != 0 { … }`
  unfoldable pub mirror_length : S → HalfConn S → List ℕ → List ℕ → HalfConn S × Protected (List ℕ)
  unfolding pad
  mirror_length s hc bytes [] =
      if (get_or bytes 0 0 == RecordType.handshake) && not (get_or hc.handshake_len 1 0 == 0)
      then (hc, panics)
      else (hc, done bytes)
  mirror_length s hc bytes (typ ∷ body) =
      if (get_or bytes 0 0 == RecordType.handshake) && not (get_or hc.handshake_len 1 0 == 0)
      then elim (mirror_slot typ) [
        | none ↦ (hc, pad s 0 bytes)
        | some i ↦ (
          record hc { handshake_len = set hc.handshake_len i 0 },
          pad s (get_or hc.handshake_len i 0) (disguise typ bytes),
        )
      ]
      else (hc, done bytes)

  -- The nonce of the record: the explicit one, or the sequence number.
  abbrev pub nonce_of : List ℕ → HalfConn S → List ℕ
  nonce_of [] hc = hc.seq
  nonce_of (b ∷ bs) hc = b ∷ bs

  -- The end of `encrypt`: the length field again, and `incSeq`.
  unfoldable pub close_record : HalfConn S → List ℕ → HalfConn S × Protected (List ℕ)
  close_record hc bytes = elim (inc_seq hc.seq) [
    | none ↦ (hc, panics)
    | some seq ↦
        (record hc { seq = seq }, done (put_length (length bytes - record_header_len) bytes))
  ]

  -- The bytes under protection in TLS 1.3, with the outer type and length in place.
  abbrev pub inner_record : S → List ℕ → List ℕ
  inner_record s bytes =
      put_length (length bytes + p.overhead s - record_header_len)
        (set bytes 0 RecordType.application_data)

  -- From the padded record on; an error of the padding is returned.
  unfoldable pub seal_padded :
      S → List ℕ → HalfConn S × Protected (List ℕ) → HalfConn S × Protected (List ℕ)
  unfolding close_record
  seal_padded s nonce (hc, done bytes) =
      let inner = inner_record s bytes in
      close_record hc (
        take record_header_len inner
        ++ p.seal s nonce (drop record_header_len inner) (take record_header_len inner))
  seal_padded s nonce (hc, alert a) = (hc, alert a)
  seal_padded s nonce (hc, failed) = (hc, failed)
  seal_padded s nonce (hc, panics) = (hc, panics)

  unfoldable pub seal_tls13 :
      S → HalfConn S → List ℕ → List ℕ → List ℕ → HalfConn S × Protected (List ℕ)
  unfolding mirror_length seal_padded
  seal_tls13 s hc nonce header payload =
      seal_padded s nonce
        (mirror_length s hc (header ++ payload ++ (get_or header 0 0 ∷ [])) payload)

  abbrev pub seal_tls12 :
      S → HalfConn S → List ℕ → List ℕ → List ℕ → List ℕ → HalfConn S × Protected (List ℕ)
  seal_tls12 s hc nonce header explicit payload =
      let bytes = header ++ explicit in
      close_record hc (bytes ++ p.seal s nonce payload (hc.seq ++ take record_header_len bytes))

  -- `tls10MAC`: the sequence number, the header and the data.
  abbrev pub tls10_mac : HalfConn S → List ℕ → List ℕ → List ℕ
  tls10_mac hc header content = elim hc.mac_hash [
    | none ↦ []
    | some h ↦ p.mac h (hc.seq ++ (header ++ content))
  ]

  -- The explicit nonce: none, the sequence number, or random bytes, `none` for their error.
  abbrev pub explicit_nonce : (ℕ → Option (List ℕ)) → HalfConn S → Bool → Option (List ℕ)
  explicit_nonce random hc is_cbc =
      let n = explicit_nonce_len p hc in
      if n == 0
      then some []
      else if not is_cbc && ltb n 16
      then some (take n (hc.seq ++ replicate n 0))
      else random n

  unfoldable pub encrypt :
      (ℕ → Option (List ℕ)) → HalfConn S → List ℕ → List ℕ → HalfConn S × Protected (List ℕ)
  unfolding seal_tls13 close_record explicit_nonce_len
  encrypt random hc header payload = elim hc.cipher [
    | none ↦ (hc, done (header ++ payload))
    | some c ↦ elim c [
      | stream s ↦
          let (data_, s₁) = p.xor_key_stream s payload in
          let (mac_, s₂) =
            p.xor_key_stream s₁ (tls10_mac hc (take record_header_len header) payload) in
          close_record (record hc { cipher = some (stream s₂) }) (header ++ (data_ ++ mac_))
      | aead s ↦ elim (explicit_nonce random hc false) [
        | none ↦ (hc, failed)
        | some explicit ↦
            if hc.version == version_tls13
            then seal_tls13 s hc (nonce_of explicit hc) (header ++ explicit) payload
            else seal_tls12 s hc (nonce_of explicit hc) header explicit payload
      ]
      | cbc s ↦ elim (explicit_nonce random hc true) [
        | none ↦ (hc, failed)
        | some explicit ↦
            let bytes = header ++ explicit in
            let plain = payload ++ tls10_mac hc (take record_header_len bytes) payload in
            let padding_len = p.block_size s - length plain % p.block_size s in
            let s₁ = with_iv p s explicit in
            let (sealed, s₂) =
              p.crypt_blocks s₁ (plain ++ replicate padding_len (padding_len - 1)) in
            close_record (record hc { cipher = some (cbc s₂) }) (bytes ++ sealed)
      ]
    ]
  ]
