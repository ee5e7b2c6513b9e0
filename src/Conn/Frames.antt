-- ===== src/Conn/Frames.antt =====
-- conn.go: unprotected handshake records, as they stand on the wire and as they are read.
use electricity.Common.{
  ℕ, ◌+◌, ◌*◌, ◌/◌, ◌%◌, ◌≤◌, ◌<◌, ◌≡◌, refl, ap, ◌∙◌, Bool, true, false, none, some, List, [], ◌∷◌,
  ◌++◌, ◌==◌, ltb, length, is_empty, take, drop, if◌then◌else◌, arith, take-append, drop-append,
  length-append,
}
use electricity.Const.{version_tls12, version_tls13, max_plaintext, record_header_len}
use electricity.Const.RecordType
use electricity.Record.Seq.{inc_seq}
use electricity.Record.HalfConn.{Primitives, HalfConn, done}
use electricity.Record.Decrypt.{decrypt, check_mac, accept}
use electricity.Conn.State.{Conn, advanced}
use electricity.Conn.Read.{
  handle_handshake, dispatch, handle_content, handle_decrypted, take_record, read_header, read_one,
}

-- A record with a handshake fragment.
abbrev pub frame : ℕ → List ℕ → List ℕ
frame v fragment =
    RecordType.handshake
    ∷ (v / 256 ∷ (v % 256 ∷ (length fragment / 256 ∷ (length fragment % 256 ∷ fragment))))

-- A fragment that a record may have.
pub record IsFragment (fragment : List ℕ) : Type 0 where
  pub some_bytes : is_empty fragment ≡ false
  pub fits : length fragment ≤ max_plaintext

-- A connection that reads unprotected records with version `v` in their headers.
pub record IsPlain {S : Type 0} (v : ℕ) (c : Conn S) : Type 0 where
  pub no_cipher : c.half.cipher ≡ none
  pub no_mac : c.half.mac_hash ≡ none
  pub no_err : c.in_err ≡ none
  pub no_input : c.input ≡ []
  pub small : v < 0x1000
  pub same_vers :
      c.have_vers ≡ true → v ≡ (if c.vers == version_tls13 then version_tls12 else c.vers)

module _ {S : Type 0} where
  -- After a fragment was read.
  abbrev pub after_frame : List ℕ → List ℕ → List ℕ → Conn S → Conn S
  after_frame fragment rest seq c = record c {
    half = record (c.half) { seq = seq };
    raw_input = rest;
    hand = c.hand ++ fragment;
    retry_count = 0;
  }

module _ {S : Type 0} (p : Primitives S) where
  decrypt-plain :
      (half : HalfConn S) (v : ℕ) (fragment seq : List ℕ)
      → half.cipher ≡ none
      → half.mac_hash ≡ none
      → inc_seq half.seq ≡ some seq
      → decrypt p half (frame v fragment)
        ≡ (record half { seq = seq }, done (fragment, RecordType.handshake))
  unfolding decrypt check_mac accept
  decrypt-plain half v fragment seq no_cipher no_mac counts =
      ground (arith, no_cipher, no_mac, counts)

  handle_content-fragment :
      (complete : Bool) (fragment : List ℕ) (c : Conn S)
      → IsFragment fragment
      → handle_content complete false fragment RecordType.handshake c
        ≡ advanced (record c { hand = c.hand ++ fragment; retry_count = 0 })
  unfolding handle_content dispatch handle_handshake
  handle_content-fragment complete fragment c f =
      let short : ltb max_plaintext (length fragment) ≡ false = ground (arith, f.fits) in
      ground (arith, f.some_bytes, short)

  take_record-frame :
      (complete : Bool) (c : Conn S) (v n : ℕ) (fragment rest seq : List ℕ)
      → IsPlain v c
      → IsFragment fragment
      → n ≡ length fragment
      → c.raw_input ≡ frame v fragment ++ rest
      → inc_seq c.half.seq ≡ some seq
      → take_record p complete false n c ≡ advanced (after_frame fragment rest seq c)
  unfolding take_record handle_decrypted
  take_record-frame complete c v n fragment rest seq plain f long raw counts =
      let size : length (frame v fragment) ≡ record_header_len + n = omega (arith, long) in
      let front : take (record_header_len + n) c.raw_input ≡ frame v fragment =
        ap (take (record_header_len + n)) raw
        ∙ take-append (record_header_len + n) (frame v fragment) rest size in
      let back : drop (record_header_len + n) c.raw_input ≡ rest =
        ap (drop (record_header_len + n)) raw
        ∙ drop-append (record_header_len + n) (frame v fragment) rest size in
      let clear = decrypt-plain c.half v fragment seq plain.no_cipher plain.no_mac counts in
      let handled =
        handle_content-fragment complete fragment
          (record c { half = record (c.half) { seq = seq }; raw_input = rest }) f in
      rw (front, back, clear) handled

  read_header-frame :
      (c : Conn S) (v : ℕ) (fragment rest seq : List ℕ)
      → IsPlain v c
      → IsFragment fragment
      → c.raw_input ≡ frame v fragment ++ rest
      → inc_seq c.half.seq ≡ some seq
      → read_header p false c ≡ advanced (after_frame fragment rest seq c)
  unfolding read_header
  read_header-frame c v fragment rest seq plain f raw counts =
      let m = length fragment in
      let hdr : take record_header_len c.raw_input
          ≡ RecordType.handshake ∷ (v / 256 ∷ (v % 256 ∷ (m / 256 ∷ (m % 256 ∷ [])))) =
        ap (take record_header_len) raw in
      let n : m / 256 * 256 + m % 256 ≡ m = omega arith in
      let vers : v / 256 * 256 + v % 256 ≡ v = omega arith in
      let long : length c.raw_input ≡ 5 + m + length rest =
        ap length raw ∙ omega (arith, length-append fragment rest) in
      let took : take_record p c.handshake_complete false m c
          ≡ advanced (after_frame fragment rest seq c) =
        take_record-frame c.handshake_complete c v m fragment rest seq plain f refl raw counts in
      ground (arith, hdr, n, vers, long, took, plain.same_vers, plain.small, f.fits)

  pub read_one-frame :
      (c : Conn S) (v : ℕ) (fragment rest seq : List ℕ)
      → IsPlain v c
      → IsFragment fragment
      → c.raw_input ≡ frame v fragment ++ rest
      → inc_seq c.half.seq ≡ some seq
      → read_one p false c ≡ advanced (after_frame fragment rest seq c)
  unfolding read_one
  read_one-frame c v fragment rest seq plain f raw counts =
      let long : length c.raw_input ≡ 5 + length fragment + length rest =
        ap length raw ∙ omega (arith, length-append fragment rest) in
      let there : is_empty c.raw_input ≡ false = ap is_empty raw in
      let header = read_header-frame c v fragment rest seq plain f raw counts in
      ground (arith, long, there, header, plain.no_err, plain.no_input)
