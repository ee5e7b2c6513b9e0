-- ===== src/Record/Decrypt.antt =====
-- conn.go: `decrypt`.
use electricity.Common.{
  ℕ, zero, suc, ◌+◌, ◌-◌, ◌/◌, ◌%◌, ◌≡◌, Bool, true, false, Option, none, some, List, [], ◌∷◌, ◌++◌,
  ◌==◌, leb, ltb, ◌&&◌, ◌||◌, not, replicate, is_empty, length, set, get_or, take, drop,
  if◌then◌else◌,
}
use electricity.Const.{version_tls13, record_header_len, max_plaintext}
use electricity.Const.RecordType
use electricity.Record.Seq.{inc_seq}
use electricity.Record.HalfConn.{
  Cipher, stream, aead, cbc, Primitives, HalfConn, Protected, done, alert, failed, panics,
  bad_record_mac, unexpected_message, record_overflow, explicit_nonce_len, put_length, round_up,
  with_iv,
}
use electricity.Record.Padding.{extract_padding}
pub mod RoundTrip
pub mod Fatal

-- The content without its trailing zeros and type; `none` where all is zero.
unfoldable pub strip : List ℕ → Option (List ℕ × ℕ)
strip [] = none
strip (b ∷ bs) = elim (strip bs) [
  | some r ↦ let (content, typ) = r in some (b ∷ content, typ)
  | none ↦ if b == 0 then none else some ([], b)
]

unfoldable pub unwrap_tls13 : ℕ → List ℕ → Protected (List ℕ × ℕ)
unfolding strip
unwrap_tls13 typ plaintext =
    if not (typ == RecordType.application_data)
    then alert unexpected_message
    else if ltb (max_plaintext + 1) (length plaintext)
    then alert record_overflow
    else if is_empty plaintext
    then done ([], typ)
    else elim (strip plaintext) [ none ↦ alert unexpected_message | some r ↦ done r ]

-- `subtle.ConstantTimeCompare(x, y)`
abbrev pub same : List ℕ → List ℕ → Bool
same [] [] = true
same [] (y ∷ ys) = false
same (x ∷ xs) [] = false
same (x ∷ xs) (y ∷ ys) = (x == y) && same xs ys

module _ {S : Type 0} (p : Primitives S) where
  -- `hc.incSeq()` and the return.
  unfoldable pub accept : HalfConn S → List ℕ × ℕ → HalfConn S × Protected (List ℕ × ℕ)
  accept hc result = elim (inc_seq hc.seq) [
    | none ↦ (hc, panics)
    | some seq ↦ (record hc { seq = seq }, done result)
  ]

  -- `if hc.mac != nil { … }`: the MAC and the padding are judged together.
  unfoldable pub check_mac :
      HalfConn S → List ℕ → List ℕ → ℕ → ℕ → List ℕ → ℕ → HalfConn S × Protected (List ℕ × ℕ)
  unfolding accept
  check_mac hc header payload padding_len padding_good plaintext typ = elim hc.mac_hash [
    | none ↦ accept hc (plaintext, typ)
    | some h ↦
        let mac_size = p.mac_size h in
        let n = length payload - mac_size - padding_len in
        let remote = take mac_size (drop n payload) in
        let local = p.mac h (hc.seq ++ (put_length n header ++ take n payload)) in
        if ltb (length payload) mac_size
        then (hc, alert bad_record_mac)
        else if same local remote && (padding_good == 255)
        then accept hc (take n payload, typ)
        else (hc, alert bad_record_mac)
  ]

  -- What follows the cipher's own part, `if hc.version == VersionTLS13 { … }` first.
  unfoldable pub after_cipher :
      HalfConn S → List ℕ → List ℕ → ℕ → ℕ → List ℕ → ℕ → HalfConn S × Protected (List ℕ × ℕ)
  unfolding check_mac unwrap_tls13
  after_cipher hc header payload padding_len padding_good plaintext typ =
      if hc.version == version_tls13
      then elim (unwrap_tls13 typ plaintext) [
        | done r ↦
            let (content, typ') = r in
            check_mac hc header payload padding_len padding_good content typ'
        | alert a ↦ (hc, alert a)
        | failed ↦ (hc, failed)
        | panics ↦ (hc, panics)
      ]
      else check_mac hc header payload padding_len padding_good plaintext typ

  -- The additional data of an AEAD record. `n` may be negative, and its two low bytes wrap.
  abbrev pub additional_data : S → HalfConn S → List ℕ → List ℕ → List ℕ
  additional_data s hc header payload =
      if hc.version == version_tls13
      then header
      else let n = (length payload + 65536 - p.overhead s % 65536) % 65536 in
        hc.seq ++ (take 3 header ++ (n / 256 ∷ (n % 256 ∷ [])))

  abbrev pub record_nonce : HalfConn S → List ℕ → List ℕ
  record_nonce hc [] = hc.seq
  record_nonce hc (b ∷ bs) = b ∷ bs

  -- The AEAD's case.
  unfoldable pub open_aead :
      S → HalfConn S → List ℕ → List ℕ → ℕ → HalfConn S × Protected (List ℕ × ℕ)
  unfolding after_cipher explicit_nonce_len
  open_aead s hc header payload typ =
      let n = explicit_nonce_len p hc in
      let body = drop n payload in
      if ltb (length payload) n
      then (hc, alert bad_record_mac)
      else elim (p.open_sealed s (record_nonce hc (take n payload)) body
          (additional_data s hc header body)) [
            | none ↦ (hc, alert bad_record_mac)
            | some plaintext ↦ after_cipher hc header body 0 255 plaintext typ
          ]

  abbrev pub mac_size_of : HalfConn S → ℕ
  mac_size_of hc = elim hc.mac_hash [ none ↦ 0 | some h ↦ p.mac_size h ]

  -- The case of CBC, whose cipher never comes without a hash.
  unfoldable pub open_cbc :
      S → HalfConn S → List ℕ → List ℕ → ℕ → HalfConn S × Protected (List ℕ × ℕ)
  unfolding extract_padding after_cipher explicit_nonce_len
  open_cbc s hc header payload typ =
      let n = explicit_nonce_len p hc in
      let block_size = p.block_size s in
      let min_payload = n + round_up (mac_size_of hc + 1) block_size in
      let s₁ = with_iv p s (take n payload) in
      let (decrypted, s₂) = p.crypt_blocks s₁ (drop n payload) in
      let (padding_len, padding_good) = extract_padding decrypted in
      if not (length payload % block_size == 0) || ltb (length payload) min_payload
      then (hc, alert bad_record_mac)
      else after_cipher (record hc { cipher = some (cbc s₂) }) header decrypted padding_len
          padding_good [] typ

  -- With no cipher the plaintext is the payload. A stream cipher's or CBC's is nil until the MAC check
  -- sets it.
  unfoldable pub decrypt : HalfConn S → List ℕ → HalfConn S × Protected (List ℕ × ℕ)
  unfolding open_aead open_cbc after_cipher check_mac
  decrypt hc bytes =
      let typ = get_or bytes 0 0 in
      let header = take record_header_len bytes in
      let payload = drop record_header_len bytes in
      if (hc.version == version_tls13) && (typ == RecordType.change_cipher_spec)
      then (hc, done (payload, typ))
      else elim hc.cipher [
        | none ↦ check_mac hc header payload 0 255 payload typ
        | some c ↦ elim c [
          | stream s ↦
              let (decrypted, s₁) = p.xor_key_stream s payload in
              after_cipher (record hc { cipher = some (stream s₁) }) header decrypted 0 255 [] typ
          | aead s ↦ open_aead s hc header payload typ
          | cbc s ↦ open_cbc s hc header payload typ
        ]
      ]
