-- ===== src/Record/Decrypt/Fatal.antt =====
-- conn.go: where `decrypt` panics.
use electricity.Common.{
  ℕ, ◌≡◌, ◌⊎◌, inl, inr, Bool, true, false, none, some, List, [], ◌==◌, ◌&&◌, take, drop, get_or,
  Bool-cases, Option-cases, arith, ap,
}
use electricity.Const.{version_tls13, record_header_len}
use electricity.Const.RecordType
use electricity.Record.Seq.{inc_seq}
use electricity.Record.Padding.{extract_padding}
use electricity.Record.HalfConn.{
  stream, aead, cbc, Primitives, HalfConn, Protected, done, alert, failed, panics,
  explicit_nonce_len, with_iv,
}
use electricity.Record.Decrypt.{
  unwrap_tls13, accept, check_mac, after_cipher, open_aead, open_cbc, decrypt,
}

-- No record and no alert came out.
abbrev pub is_fatal {ℓ} : {A : Type ℓ} → Protected A → Bool
is_fatal (done a) = false
is_fatal (alert a) = false
is_fatal failed = true
is_fatal panics = true

unwrap_tls13-fatal : (typ : ℕ) (plaintext : List ℕ) → is_fatal (unwrap_tls13 typ plaintext) ≡ false
unfolding unwrap_tls13
unwrap_tls13-fatal typ plaintext = ground arith

module _ {S : Type 0} (p : Primitives S) where
  accept-fatal :
      (hc : HalfConn S) (result : List ℕ × ℕ)
      → is_fatal (accept p hc result).1 ≡ true
      → inc_seq hc.seq ≡ none
  unfolding accept
  accept-fatal hc result h = ground arith

  check_mac-fatal :
      (hc : HalfConn S) (header payload : List ℕ) (n good : ℕ) (plaintext : List ℕ) (typ : ℕ)
      → is_fatal (check_mac p hc header payload n good plaintext typ).1 ≡ true
      → inc_seq hc.seq ≡ none
  unfolding check_mac accept
  check_mac-fatal hc header payload n good plaintext typ h = ground arith

  unwrapped-fatal :
      (hc : HalfConn S) (header payload : List ℕ) (n good : ℕ) (r : Protected (List ℕ × ℕ))
      → is_fatal r ≡ false
      → is_fatal
          (elim r as (λ _. HalfConn S × Protected (List ℕ × ℕ)) [
            | done (content, typ) ↦ check_mac p hc header payload n good content typ
            | alert a ↦ (hc, alert a)
            | failed ↦ (hc, failed)
            | panics ↦ (hc, panics)
          ]).1
        ≡ true
      → inc_seq hc.seq ≡ none
  unwrapped-fatal hc header payload n good (done (content, typ)) _ h =
      check_mac-fatal hc header payload n good content typ h
  unwrapped-fatal hc header payload n good (alert a) _ h = cc
  unwrapped-fatal hc header payload n good failed e h = cc
  unwrapped-fatal hc header payload n good panics e h = cc

  after_cipher-fatal :
      (hc : HalfConn S) (header payload : List ℕ) (n good : ℕ) (plaintext : List ℕ) (typ : ℕ)
      → is_fatal (after_cipher p hc header payload n good plaintext typ).1 ≡ true
      → inc_seq hc.seq ≡ none
  unfolding after_cipher
  after_cipher-fatal hc header payload n good plaintext typ =
      elim (Bool-cases (hc.version == version_tls13)) [
        | inr e ↦ λ h. check_mac-fatal hc header payload n good plaintext typ (ground arith)
        | inl e ↦ λ h.
            unwrapped-fatal hc header payload n good (unwrap_tls13 typ plaintext)
              (unwrap_tls13-fatal typ plaintext) (ground arith)
      ]

  open_aead-fatal :
      (s : S) (hc : HalfConn S) (header payload : List ℕ) (typ : ℕ)
      → is_fatal (open_aead p s hc header payload typ).1 ≡ true
      → inc_seq hc.seq ≡ none
  unfolding open_aead
  open_aead-fatal s hc header payload typ h =
      let body = drop (explicit_nonce_len p hc) payload in
      ground (arith, after_cipher-fatal hc header body 0 255)

  open_cbc-fatal :
      (s : S) (hc : HalfConn S) (header payload : List ℕ) (typ : ℕ)
      → is_fatal (open_cbc p s hc header payload typ).1 ≡ true
      → inc_seq hc.seq ≡ none
  unfolding open_cbc
  open_cbc-fatal s hc header payload typ h =
      let n = explicit_nonce_len p hc in
      let (decrypted, s₂) = p.crypt_blocks (with_iv p s (take n payload)) (drop n payload) in
      let (padding_len, good) = extract_padding decrypted in
      ground (
        arith,
        after_cipher-fatal (record hc { cipher = some (cbc s₂) }) header decrypted padding_len good
            [] typ,
      )

  fatal :
      (hc : HalfConn S) (bytes : List ℕ)
      → is_fatal (decrypt p hc bytes).1 ≡ true
      → inc_seq hc.seq ≡ none
  unfolding decrypt
  fatal hc bytes h =
      let typ = get_or bytes 0 0 in
      let header = take record_header_len bytes in
      let payload = drop record_header_len bytes in
      elim (Bool-cases ((hc.version == version_tls13) && (typ == RecordType.change_cipher_spec))) [
        | inl e ↦ absurd (ground arith)
        | inr e ↦ elim (Option-cases hc.cipher) [
          | inl e₁ ↦ check_mac-fatal hc header payload 0 255 payload typ (ground arith)
          | inr (stream s, e₁) ↦
              let (decrypted, s₁) = p.xor_key_stream s payload in
              after_cipher-fatal (record hc { cipher = some (stream s₁) }) header decrypted 0 255 []
                typ (ground arith)
          | inr (aead s, e₁) ↦ open_aead-fatal s hc header payload typ (ground arith)
          | inr (cbc s, e₁) ↦ open_cbc-fatal s hc header payload typ (ground arith)
        ]
      ]

  -- A record makes `decrypt` panic only where the sequence number is used up, and an error that is no
  -- alert never comes.
  pub decrypt-fatal :
      (hc : HalfConn S) (bytes : List ℕ)
      → (((decrypt p hc bytes).1 ≡ failed) ⊎ ((decrypt p hc bytes).1 ≡ panics))
      → inc_seq hc.seq ≡ none
  decrypt-fatal hc bytes (inl e) = fatal hc bytes (ap is_fatal e)
  decrypt-fatal hc bytes (inr e) = fatal hc bytes (ap is_fatal e)
