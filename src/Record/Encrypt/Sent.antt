-- ===== src/Record/Encrypt/Sent.antt =====
-- conn.go: when a record of REALITY's flight is sent.
use electricity.Common.{
  ℕ, ◌+◌, ◌-◌, ◌≡◌, ◌≢◌, ◌≤◌, refl, ap, ◌∙◌, false, Option, some, List, [], ◌∷◌, ◌++◌, ltb,
  replicate, length, length-append, set, get_or, take, drop, arith,
}
use electricity.Const.{record_header_len}
use electricity.Const.RecordType
use electricity.Record.Seq.{inc_seq}
use electricity.Record.HalfConn.{Primitives, HalfConn, done, put_length}
use electricity.Record.Encrypt.{
  mirror_slot, disguise, pad, close_record, inner_record, seal_padded, seal_tls13, encrypt,
}
use electricity.Reality.Mirror.{size}
use electricity.Record.Encrypt.Mirrored.{
  IsTls13, encrypt-seal_tls13, length-disguise, mirror_length-slot,
}

module _ {S : Type 0} (p : Primitives S) where
  pad-done :
      (s : S) (target : ℕ) (bytes : List ℕ)
      → length bytes + p.overhead s ≤ target
      → target ≤ size
      → (padded : List ℕ) × (pad p s target bytes ≡ done padded)
  unfolding pad
  pad-done s target bytes room small =
      let least = length bytes + p.overhead s in
      let a : ltb target least ≡ false = ground arith in
      let b : ltb size (target - least) ≡ false = ground arith in
      (bytes ++ replicate (target - least) 0, rw (a, b) refl)

  close_record-done :
      (hc : HalfConn S) (bytes seq : List ℕ)
      → inc_seq hc.seq ≡ some seq
      → close_record p hc bytes
        ≡ (record hc { seq = seq }, done (put_length (length bytes - record_header_len) bytes))
  unfolding close_record
  close_record-done hc bytes seq h = ground (arith, h)

  seal_padded-done :
      (s : S) (nonce bytes seq : List ℕ) (hc : HalfConn S)
      → inc_seq hc.seq ≡ some seq
      → (hc' : HalfConn S) × (sealed : List ℕ) × (seal_padded p s nonce (hc, done bytes)
          ≡ (hc', done sealed))
  unfolding seal_padded
  seal_padded-done s nonce bytes seq hc h =
      let inner : List ℕ = inner_record p s bytes in
      let head : List ℕ = take record_header_len inner in
      let sent : List ℕ = head ++ p.seal s nonce (drop record_header_len inner) head in
      (
        record hc { seq = seq },
        put_length (length sent - record_header_len) sent,
        close_record-done hc sent seq h,
      )

-- Where the target's record has room for the message and fits the buffer, and the sequence number is
-- not the last, `encrypt` sends the message under TLS 1.3: no error and no panic.
pub encrypt-done :
    {S : Type 0} (p : Primitives S) (random : ℕ → Option (List ℕ)) (hc : HalfConn S) (s : S)
    (v w x y typ i : ℕ) (body seq : List ℕ)
    → IsTls13 p hc s
    → get_or hc.handshake_len 1 0 ≢ 0
    → mirror_slot typ ≡ some i
    → length body + 7 + p.overhead s ≤ get_or hc.handshake_len i 0
    → get_or hc.handshake_len i 0 ≤ size
    → inc_seq hc.seq ≡ some seq
    → (hc' : HalfConn S) × (bytes : List ℕ) × (encrypt p random hc
          (RecordType.handshake ∷ (v ∷ (w ∷ (x ∷ (y ∷ [])))))
          (typ ∷ body)
        ≡ (hc', done bytes))
unfolding seal_tls13
encrypt-done {S = S} p random hc s v w x y typ i body seq t mirrored slot room small counts =
    let header : List ℕ = RecordType.handshake ∷ (v ∷ (w ∷ (x ∷ (y ∷ [])))) in
    let plain : List ℕ = header ++ (typ ∷ body) ++ (RecordType.handshake ∷ []) in
    let dressed : List ℕ = disguise p typ plain in
    let target = get_or hc.handshake_len i 0 in
    let used : HalfConn S = record hc { handshake_len = set hc.handshake_len i 0 } in
    let same : length dressed ≡ length plain = length-disguise p typ plain in
    let long : length plain ≡ length body + 7 =
      omega (arith, length-append body (RecordType.handshake ∷ [])) in
    let (padded, filled) = pad-done p s target dressed (omega (arith, same, long, room)) small in
    let (hc', bytes, sealed) = seal_padded-done p s hc.seq padded seq used counts in
    (
      hc',
      bytes,
      encrypt-seal_tls13 p random hc s header (typ ∷ body) t
          ∙ (ap (seal_padded p s hc.seq)
                (mirror_length-slot p s hc (drop 1 plain) typ i body mirrored slot)
              ∙ (ap (λ r. seal_padded p s hc.seq (used, r)) filled ∙ sealed)),
    )
