-- ===== src/Record/Encrypt/Mirrored.antt =====
-- conn.go: the length of an encrypted record of REALITY's flight.
use electricity.Common.{
  ℕ, suc, ◌+◌, ◌-◌, ◌/◌, ◌%◌, ◌≡◌, ◌≢◌, ◌≤◌, refl, ap, ◌∙◌, true, false, Option, none, some, List,
  [], ◌∷◌, ◌++◌, ◌==◌, ltb, replicate, length, length-append, length-take, length-drop, sym,
  length-set, length-replicate, set, get_or, take, drop, Bool-cases, Option-cases, inl, inr, arith,
}
use electricity.Const.{version_tls13, record_header_len}
use electricity.Const.RecordType
use electricity.Const.MessageType
use electricity.Record.Seq.{inc_seq}
use electricity.Record.HalfConn.{
  aead, Primitives, IsAead, HalfConn, Protected, done, alert, failed, panics, explicit_nonce_len,
  put_length,
}
use electricity.Record.Encrypt.{
  mirror_slot, disguise, pad, mirror_length, close_record, inner_record, seal_padded, seal_tls13,
  encrypt,
}
use electricity.Reality.Mirror.{size}

-- A direction that protects with an AEAD of TLS 1.3, which has no explicit nonce.
pub record IsTls13 {S : Type 0} (p : Primitives S) (hc : HalfConn S) (s : S) : Type 0 where
  pub cipher : hc.cipher ≡ some (aead s)
  pub version : hc.version ≡ version_tls13
  pub no_explicit : p.nonce_len s ≡ 0

module _ {S : Type 0} (p : Primitives S) where
  -- In TLS 1.3 `encrypt` is its AEAD case, with the sequence number as the nonce.
  pub encrypt-seal_tls13 :
      (random : ℕ → Option (List ℕ)) (hc : HalfConn S) (s : S) (header payload : List ℕ)
      → IsTls13 p hc s
      → encrypt p random hc header payload ≡ seal_tls13 p s hc hc.seq (header ++ []) payload
  unfolding encrypt explicit_nonce_len
  encrypt-seal_tls13 random hc s header payload t =
      ground (arith, t.cipher, t.version, t.no_explicit)

  length-close_record :
      (hc hc' : HalfConn S) (bytes result : List ℕ)
      → close_record p hc bytes ≡ (hc', done result)
      → (length result ≡ length bytes) × (hc'.handshake_len ≡ hc.handshake_len)
  unfolding close_record
  length-close_record hc hc' bytes result h = elim (Option-cases (inc_seq hc.seq)) [
    | inl e ↦ absurd (ground arith)
    | inr (seq, e) ↦
        let n = length bytes - record_header_len in
        let same : result ≡ put_length n bytes = ground arith in
        let kept : hc' ≡ record hc { seq = seq } = ground arith in
        (
          rw (same) (
              length-set (set bytes 3 (n / 256 % 256)) 4 (n % 256)
              ∙ length-set bytes 3 (n / 256 % 256)),
          rw (kept) refl,
        )
  ]

  length-pad :
      (s : S) (target : ℕ) (bytes padded : List ℕ)
      → pad p s target bytes ≡ done padded
      → (length padded + p.overhead s ≡ target) × (length bytes ≤ length padded)
  unfolding pad
  length-pad s target bytes padded h =
      elim (Bool-cases (ltb target (length bytes + p.overhead s))) [
        | inl e ↦ absurd (ground arith)
        | inr e ↦ elim (Bool-cases (ltb size (target - (length bytes + p.overhead s)))) [
          | inl e₁ ↦ absurd (ground arith)
          | inr e₁ ↦
              let z : List ℕ = replicate (target - (length bytes + p.overhead s)) 0 in
              let same : padded ≡ bytes ++ z = ground arith in
              let long : length z ≡ target - (length bytes + p.overhead s) =
                length-replicate (target - (length bytes + p.overhead s)) 0 in
              rw (same, length-append bytes z) (ground (arith, long), ground arith)
        ]
      ]

  pub length-disguise : (typ : ℕ) (bytes : List ℕ) → length (disguise p typ bytes) ≡ length bytes
  length-disguise typ bytes = elim (Bool-cases (typ == MessageType.new_session_ticket)) [
    | inr e ↦ rw (e) refl
    | inl e ↦ rw (e) (
        length-set (set bytes 5 RecordType.application_data) 6 0
        ∙ length-set bytes 5 RecordType.application_data)
  ]

  -- The sealed record is as long as the padded one and the overhead.
  pub length-seal_padded :
      IsAead p
      → (s : S) (nonce : List ℕ) (r : HalfConn S × Protected (List ℕ)) (hc' : HalfConn S)
        (bytes : List ℕ)
      → seal_padded p s nonce r ≡ (hc', done bytes)
      → (hc : HalfConn S) × (padded : List ℕ) × (r ≡ (hc, done padded))
        × (hc'.handshake_len ≡ hc.handshake_len)
        × (5 ≤ length padded → length bytes ≡ length padded + p.overhead s)
  unfolding seal_padded
  length-seal_padded law s nonce (hc, done padded) hc' bytes h =
      let n = length padded + p.overhead s - record_header_len in
      let typed : List ℕ = set padded 0 RecordType.application_data in
      let inner : List ℕ = inner_record p s padded in
      let head : List ℕ = take record_header_len inner in
      let sealed : List ℕ = p.seal s nonce (drop record_header_len inner) head in
      let (long, kept) = length-close_record hc hc' (head ++ sealed) bytes h in
      let same : length inner ≡ length padded =
        length-set (set typed 3 (n / 256 % 256)) 4 (n % 256)
        ∙ (length-set typed 3 (n / 256 % 256) ∙ length-set padded 0 RecordType.application_data) in
      (
        hc,
        padded,
        refl,
        kept,
        λ five. omega (
          arith,
          long,
          length-append head sealed,
          law.length-seal s nonce (drop record_header_len inner) head,
          length-take record_header_len inner,
          length-drop record_header_len inner,
          same,
        ),
      )
  length-seal_padded law s nonce (hc, alert a) hc' bytes h = absurd (ground arith)
  length-seal_padded law s nonce (hc, failed) hc' bytes h = absurd (ground arith)
  length-seal_padded law s nonce (hc, panics) hc' bytes h = absurd (ground arith)

module _ {S : Type 0} (p : Primitives S) where
  pub mirror_length-slot :
      (s : S) (hc : HalfConn S) (rest : List ℕ) (typ i : ℕ) (body : List ℕ)
      → get_or hc.handshake_len 1 0 ≢ 0
      → mirror_slot typ ≡ some i
      → mirror_length p s hc (RecordType.handshake ∷ rest) (typ ∷ body) ≡ (
        record hc { handshake_len = set hc.handshake_len i 0 },
        pad p s (get_or hc.handshake_len i 0) (disguise p typ (RecordType.handshake ∷ rest)),
      )
  unfolding mirror_length
  mirror_length-slot s hc rest typ i body mirrored slot =
      let on : (get_or hc.handshake_len 1 0 == 0) ≡ false = ground arith in rw (on, slot) refl

  mirror_length-none :
      (s : S) (hc : HalfConn S) (rest : List ℕ) (typ : ℕ) (body : List ℕ)
      → get_or hc.handshake_len 1 0 ≢ 0
      → mirror_slot typ ≡ none
      → mirror_length p s hc (RecordType.handshake ∷ rest) (typ ∷ body) ≡ (hc, failed)
  unfolding mirror_length pad
  mirror_length-none s hc rest typ body mirrored slot =
      let on : (get_or hc.handshake_len 1 0 == 0) ≡ false = ground arith in
      let short : ltb 0 (suc (length rest) + p.overhead s) ≡ true = ground arith in
      rw (on, slot, short) refl

-- A handshake message of REALITY's flight goes out, sealed, in a record that is exactly as long as
-- the target's for the same message, and the target's length is used up.
pub length-encrypt_mirrored :
    {S : Type 0} (p : Primitives S) (random : ℕ → Option (List ℕ)) (hc hc' : HalfConn S) (s : S)
    (v w x y typ i : ℕ) (body bytes : List ℕ)
    → IsAead p
    → IsTls13 p hc s
    → get_or hc.handshake_len 1 0 ≢ 0
    → mirror_slot typ ≡ some i
    → encrypt p random hc (RecordType.handshake ∷ (v ∷ (w ∷ (x ∷ (y ∷ []))))) (typ ∷ body)
      ≡ (hc', done bytes)
    → (length bytes ≡ get_or hc.handshake_len i 0) × (hc'.handshake_len ≡ set hc.handshake_len i 0)
unfolding seal_tls13
length-encrypt_mirrored p random hc hc' s v w x y typ i body bytes law t mirrored slot h =
    let header : List ℕ = RecordType.handshake ∷ (v ∷ (w ∷ (x ∷ (y ∷ [])))) in
    let plain : List ℕ = header ++ (typ ∷ body) ++ (RecordType.handshake ∷ []) in
    let dressed : List ℕ = disguise p typ plain in
    let (hc₁, padded, e, kept, long) =
      length-seal_padded p law s hc.seq (mirror_length p s hc plain (typ ∷ body)) hc' bytes
        (sym (encrypt-seal_tls13 p random hc s header (typ ∷ body) t) ∙ h) in
    let both = sym (mirror_length-slot p s hc (drop 1 plain) typ i body mirrored slot) ∙ e in
    let used : hc₁ ≡ record hc { handshake_len = set hc.handshake_len i 0 } = ground arith in
    let filled : pad p s (get_or hc.handshake_len i 0) dressed ≡ done padded = ground arith in
    let (total, room) = length-pad p s (get_or hc.handshake_len i 0) dressed padded filled in
    let same : length dressed ≡ length plain = length-disguise p typ plain in
    (omega (arith, total, long (omega (arith, room, same))), kept ∙ rw (used) refl)

-- Under TLS 1.3, with the lengths of the target's flight at hand, a handshake message of a type that
-- has no place among them is not sent: `encrypt` fails, and changes nothing.
pub encrypt-failed :
    {S : Type 0} (p : Primitives S) (random : ℕ → Option (List ℕ)) (hc : HalfConn S) (s : S)
    (v w x y typ : ℕ) (body : List ℕ)
    → IsTls13 p hc s
    → get_or hc.handshake_len 1 0 ≢ 0
    → mirror_slot typ ≡ none
    → encrypt p random hc (RecordType.handshake ∷ (v ∷ (w ∷ (x ∷ (y ∷ []))))) (typ ∷ body)
      ≡ (hc, failed)
unfolding seal_tls13 seal_padded
encrypt-failed p random hc s v w x y typ body t mirrored slot =
    let header : List ℕ = RecordType.handshake ∷ (v ∷ (w ∷ (x ∷ (y ∷ [])))) in
    let plain : List ℕ = header ++ (typ ∷ body) ++ (RecordType.handshake ∷ []) in
    encrypt-seal_tls13 p random hc s header (typ ∷ body) t
    ∙ ap (seal_padded p s hc.seq) (mirror_length-none p s hc (drop 1 plain) typ body mirrored slot)
