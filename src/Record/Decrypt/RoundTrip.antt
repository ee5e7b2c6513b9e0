-- ===== src/Record/Decrypt/RoundTrip.antt =====
-- conn.go: a record that `encrypt` made under TLS 1.3 is read back by `decrypt`.
use electricity.Common.{
  true, ℕ, zero, suc, ◌+◌, ◌-◌, ◌/◌, ◌%◌, ◌≡◌, ◌≢◌, ◌≤◌, refl, ap, sym, ◌∙◌, false, Option, none,
  some, List, [], ◌∷◌, ◌++◌, ◌==◌, ltb, ◌&&◌, not, is_empty, replicate, length, set, get_or,
  append-nil, append_assoc, Bool-cases, Option-cases, inl, inr, arith,
}
use electricity.Const.{record_header_len, max_plaintext}
use electricity.Const.RecordType
use electricity.Const.MessageType
use electricity.Record.Seq.{inc_seq}
use electricity.Record.HalfConn.{Primitives, IsAead, HalfConn, done, explicit_nonce_len, put_length}
use electricity.Record.Encrypt.{
  mirror_slot, pad, mirror_length, close_record, seal_padded, seal_tls13, encrypt,
}
use electricity.Record.Encrypt.Mirrored.{IsTls13, encrypt-seal_tls13, length-seal_padded}
use electricity.Reality.Mirror.{size}
use electricity.Record.Decrypt.{
  strip, unwrap_tls13, accept, check_mac, after_cipher, open_aead, decrypt,
}

strip-zeros : (n : ℕ) → strip (replicate n 0) ≡ none
unfolding strip
strip-zeros zero = refl
strip-zeros (suc n) = ground (arith, strip-zeros n)

-- The type stands before the padding's zeros.
strip-padded :
    (content : List ℕ) (typ n : ℕ)
    → typ ≢ 0
    → strip (content ++ (typ ∷ replicate n 0)) ≡ some (content, typ)
unfolding strip
strip-padded [] typ n h = ground (arith, strip-zeros n)
strip-padded (b ∷ content) typ n h = ground (arith, strip-padded content typ n h)

module _ {S : Type 0} (p : Primitives S) where
  -- The receiver opens what was sealed under its sequence number.
  decrypt-sealed :
      (hc : HalfConn S) (s : S) (v w x y : ℕ) (plain content : List ℕ) (typ : ℕ)
      → IsAead p
      → IsTls13 p hc s
      → hc.mac_hash ≡ none
      → is_empty plain ≡ false
      → length plain ≤ max_plaintext + 1
      → strip plain ≡ some (content, typ)
      → decrypt p hc (
          RecordType.application_data
          ∷ (v
              ∷ (w
                  ∷ (x
                      ∷ (y
                          ∷ p.seal s hc.seq plain
                              (RecordType.application_data ∷ (v ∷ (w ∷ (x ∷ (y ∷ []))))))))))
        ≡ accept p hc (content, typ)
  unfolding decrypt open_aead after_cipher check_mac unwrap_tls13 explicit_nonce_len
  decrypt-sealed hc s v w x y plain content typ law t no_mac some_plain fits stripped =
      let header : List ℕ = RecordType.application_data ∷ (v ∷ (w ∷ (x ∷ (y ∷ [])))) in
      let opens : p.open_sealed s hc.seq (p.seal s hc.seq plain header) header ≡ some plain =
        law.open-seal s hc.seq plain header in
      let short : ltb (max_plaintext + 1) (length plain) ≡ false = ground arith in
      ground (arith, t.cipher, t.version, t.no_explicit, opens, short)

  pad-zeros :
      (s : S) (target : ℕ) (bytes padded : List ℕ)
      → pad p s target bytes ≡ done padded
      → (n : ℕ) × (padded ≡ bytes ++ replicate n 0)
  unfolding pad
  pad-zeros s target bytes padded h =
      let least = length bytes + p.overhead s in
      elim (Bool-cases (ltb target least)) [
        | inl e ↦ absurd (ground arith)
        | inr e ↦ elim (Bool-cases (ltb size (target - least))) [
          | inl e₁ ↦ absurd (ground arith)
          | inr e₁ ↦ (target - least, ground arith)
        ]
      ]

  -- The padding appends zeros and changes nothing that the nonce comes from.
  mirror_length-zeros :
      (s : S) (hc hc' : HalfConn S) (typ first : ℕ) (rest body padded : List ℕ)
      → (typ ≡ RecordType.handshake
          → not (get_or hc.handshake_len 1 0 == 0) ≡ true
          → first ≢ MessageType.new_session_ticket)
      → mirror_length p s hc (typ ∷ rest) (first ∷ body) ≡ (hc', done padded)
      → (n : ℕ) × (padded ≡ (typ ∷ rest) ++ replicate n 0) × (hc'.seq ≡ hc.seq)
  unfolding mirror_length
  mirror_length-zeros s hc hc' typ first rest body padded no_ticket h =
      elim (Bool-cases ((typ == RecordType.handshake) && not (get_or hc.handshake_len 1 0 == 0))) [
        | inr off ↦
            let same : padded ≡ typ ∷ rest = ground arith in
            let kept : hc' ≡ hc = ground arith in
            (0, same ∙ sym (append-nil (typ ∷ rest)), rw (kept) refl)
        | inl on ↦ elim (Option-cases (mirror_slot first)) [
          | inl e ↦ absurd (ground arith)
          | inr (i, e) ↦
              let is_handshake : typ ≡ RecordType.handshake = ground arith in
              let other : (first == MessageType.new_session_ticket) ≡ false =
                ground (arith, no_ticket is_handshake (ground arith)) in
              let filled : pad p s (get_or hc.handshake_len i 0) (typ ∷ rest) ≡ done padded =
                ground arith in
              let (n, same) =
                pad-zeros s (get_or hc.handshake_len i 0) (typ ∷ rest) padded filled in
              let kept : hc' ≡ record hc { handshake_len = set hc.handshake_len i 0 } =
                ground arith in
              (n, same, rw (kept) refl)
        ]
      ]

  close_record-seq :
      (hc hc' : HalfConn S) (bytes result : List ℕ)
      → close_record p hc bytes ≡ (hc', done result)
      → (inc_seq hc.seq ≡ some hc'.seq)
        × (result ≡ put_length (length bytes - record_header_len) bytes)
  unfolding close_record
  close_record-seq hc hc' bytes result h = elim (Option-cases (inc_seq hc.seq)) [
    | inl e ↦ absurd (ground arith)
    | inr (seq, e) ↦
        let kept : hc' ≡ record hc { seq = seq } = ground arith in (rw (kept) e, ground arith)
  ]

  -- What `encrypt` sends once the padded record is known.
  seal_padded-bytes :
      (s : S) (hc hc' : HalfConn S) (nonce plain bytes : List ℕ) (typ v w x y : ℕ)
      → IsAead p
      → seal_padded p s nonce (hc, done (typ ∷ (v ∷ (w ∷ (x ∷ (y ∷ plain)))))) ≡ (hc', done bytes)
      → (inc_seq hc.seq ≡ some hc'.seq)
        × (x' : ℕ) × (y' : ℕ) × (bytes
            ≡ RecordType.application_data
              ∷ (v
                  ∷ (w
                      ∷ (x'
                          ∷ (y'
                              ∷ p.seal s nonce plain
                                  (RecordType.application_data ∷ (v ∷ (w ∷ (x' ∷ (y' ∷ []))))))))))
        × (length bytes ≡ 5 + length plain + p.overhead s)
  unfolding seal_padded
  seal_padded-bytes s hc hc' nonce plain bytes typ v w x y law h =
      let n = length (typ ∷ (v ∷ (w ∷ (x ∷ (y ∷ plain))))) + p.overhead s - record_header_len in
      let header : List ℕ =
        RecordType.application_data ∷ (v ∷ (w ∷ (n / 256 % 256 ∷ (n % 256 ∷ [])))) in
      let sealed : List ℕ = p.seal s nonce plain header in
      let long : length sealed ≡ length plain + p.overhead s =
        law.length-seal s nonce plain header in
      let m = length (header ++ sealed) - record_header_len in
      let as_before : m ≡ n = omega (arith, long) in
      let (counted, closed) = close_record-seq hc hc' (header ++ sealed) bytes h in
      let same : bytes ≡ header ++ sealed =
        closed ∙ ap (λ k. put_length k (header ++ sealed)) as_before in
      (counted, n / 256 % 256, n % 256, same, rw (same) (omega (arith, long)))

-- A TLS 1.3 record that `encrypt` made of a payload, padded or not, `decrypt` reads back under the same
-- key and sequence number: the payload and its type come out, and both ends count the record. The
-- payload is not empty, its type is not 0, and the record's inner plaintext has the length that TLS 1.3
-- allows. Excepted are NewSessionTicket messages while lengths are mirrored, whose payload `encrypt`
-- replaces by an empty one of the type application_data.
pub decrypt-encrypt :
    {S : Type 0} (p : Primitives S) (random : ℕ → Option (List ℕ)) (hc hc' receiver : HalfConn S)
    (s : S) (typ v w x y first : ℕ) (body bytes : List ℕ)
    → IsAead p
    → IsTls13 p hc s
    → IsTls13 p receiver s
    → receiver.mac_hash ≡ none
    → receiver.seq ≡ hc.seq
    → typ ≢ 0
    → (typ ≡ RecordType.handshake
        → not (get_or hc.handshake_len 1 0 == 0) ≡ true
        → first ≢ MessageType.new_session_ticket)
    → length bytes ≤ record_header_len + (max_plaintext + 1) + p.overhead s
    → encrypt p random hc (typ ∷ (v ∷ (w ∷ (x ∷ (y ∷ []))))) (first ∷ body) ≡ (hc', done bytes)
    → decrypt p receiver bytes ≡ (record receiver { seq = hc'.seq }, done (first ∷ body, typ))
unfolding seal_tls13 accept
decrypt-encrypt p random hc hc' receiver s typ v w x y first body bytes law t t' no_mac in_step
      some_type no_ticket fits h =
    let content : List ℕ = first ∷ body in
    let header : List ℕ = typ ∷ (v ∷ (w ∷ (x ∷ (y ∷ [])))) in
    let rest : List ℕ = v ∷ (w ∷ (x ∷ (y ∷ (content ++ (typ ∷ []))))) in
    let sealed = sym (encrypt-seal_tls13 p random hc s header content t) ∙ h in
    let (hc₁, padded, e, _, _) =
      length-seal_padded p law s hc.seq (mirror_length p s hc (typ ∷ rest) content) hc' bytes
        sealed in
    let (n, zeros, kept) = mirror_length-zeros p s hc hc₁ typ first rest body padded no_ticket e in
    let plain : List ℕ = (content ++ (typ ∷ [])) ++ replicate n 0 in
    let closed =
      ap (λ q. seal_padded p s hc.seq (hc₁, done q)) (sym zeros)
      ∙ (ap (seal_padded p s hc.seq) (sym e) ∙ sealed) in
    let (counted, x', y', sent, long) =
      seal_padded-bytes p s hc₁ hc' hc.seq plain bytes typ v w x y law closed in
    let stripped : strip plain ≡ some (content, typ) =
      ap strip (append_assoc content (typ ∷ []) (replicate n 0))
      ∙ strip-padded content typ n some_type in
    let opened =
      decrypt-sealed p receiver s v w x' y' plain content typ law t' no_mac refl
        (omega (arith, fits, long)) stripped in
    let next : inc_seq receiver.seq ≡ some hc'.seq = ap inc_seq (in_step ∙ sym kept) ∙ counted in
    let accepted : accept p receiver (content, typ)
        ≡ (record receiver { seq = hc'.seq }, done (content, typ)) =
      ground (arith, next) in
    let frame : List ℕ → List ℕ = λ nonce.
      RecordType.application_data
      ∷ (v
          ∷ (w
              ∷ (x'
                  ∷ (y'
                      ∷ p.seal s nonce plain
                          (RecordType.application_data ∷ (v ∷ (w ∷ (x' ∷ (y' ∷ []))))))))) in
    ap (decrypt p receiver) (sent ∙ ap frame (sym in_step)) ∙ (opened ∙ accepted)
