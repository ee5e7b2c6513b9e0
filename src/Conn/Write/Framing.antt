-- ===== src/Conn/Write/Framing.antt =====
-- conn.go: the records that `writeRecordLocked` makes of a handshake message without a cipher.
use electricity.Common.{
  drop-length-take, ℕ, zero, suc, ◌+◌, ◌-◌, ◌/◌, ◌%◌, ◌≤◌, ◌<◌, ◌≡◌, inl, inr, refl, ap, sym, ◌∙◌,
  false, none, some, List, [], ◌∷◌, ◌++◌, ltb, length, All, concat, take, drop, arith, Bool-cases,
  length-take, length-drop, append-nil, append_assoc, take_all, subst,
}
use electricity.Const.{max_plaintext}
use electricity.Const.RecordType
use electricity.Record.HalfConn.{Primitives, HalfConn, Protected, done}
use electricity.Record.Encrypt.{encrypt}
use electricity.Conn.Frames.{frame, IsFragment}
use electricity.Conn.Handshake.Reassembly.{frames}
use electricity.Conn.Write.{
  Output, wrote, Network, max_payload_size_for_write, wire_vers, record_header, counted_as,
  to_network, write, write_sealed, write_fragment, write_chunk, continue, write_loop, after_loop,
  write_record_locked,
}

-- What is left after the bytes that were taken.
pub frames-append :
    (v : ℕ) (fragments : List (List ℕ)) (rest : List ℕ)
    → frames v fragments rest ≡ frames v fragments [] ++ rest
frames-append v [] rest = refl
frames-append v (fragment ∷ fragments) rest =
    ap (λ l. frame v fragment ++ l) (frames-append v fragments rest)
    ∙ sym (append_assoc (frame v fragment) (frames v fragments []) rest)

module _ {S : Type 0} where
  -- What the peer gets, once all is flushed.
  abbrev pub wire : Output S → List ℕ
  wire c = c.sent ++ c.send_buf

  -- No cipher, and nothing waits unless records are buffered; the version has two bytes.
  pub record IsClear (c : Output S) : Type 0 where
    pub no_cipher : c.half.cipher ≡ none
    pub flushed : c.buffering ≡ false → c.send_buf ≡ []
    pub small : wire_vers c < 0x10000

  -- Some records were written whole, and nothing else.
  pub record Extends (c : Output S) (added : List ℕ) (c' : Output S) : Type 0 where
    pub clear : IsClear c'
    pub wire : c'.sent ++ c'.send_buf ≡ wire c ++ added
    pub same_vers : wire_vers c' ≡ wire_vers c

  -- Bytes that went out as the records of some fragments.
  pub record IsFramed (c : Output S) (bytes : List ℕ) (c' : Output S) (fragments : List (List ℕ))
      : Type 0 where
    pub whole : All IsFragment fragments
    pub cut : concat fragments ≡ bytes
    pub extends : Extends c (frames (wire_vers c) fragments []) c'

  cons_frame :
      (fragment bytes : List ℕ) (c c₁ c' : Output S) (fragments : List (List ℕ))
      → IsFragment fragment
      → Extends c (frame (wire_vers c) fragment) c₁
      → IsFramed c₁ bytes c' fragments
      → IsFramed c (fragment ++ bytes) c' (fragment ∷ fragments)
  cons_frame fragment bytes c c₁ c' fragments f first rest = record {
    whole = (f, rest.whole);
    cut = ap (λ l. fragment ++ l) rest.cut;
    extends = record {
      clear = rest.extends.clear;
      wire =
          rest.extends.wire
          ∙ ap (λ l. l ++ frames (wire_vers c₁) fragments []) first.wire
          ∙ append_assoc (wire c) (frame (wire_vers c) fragment)
              (frames (wire_vers c₁) fragments [])
          ∙ ap (λ v. wire c ++ (frame (wire_vers c) fragment ++ frames v fragments []))
              first.same_vers;
      same_vers = rest.extends.same_vers ∙ first.same_vers;
    };
  }

module _ {S : Type 0} (p : Primitives S) (net : Network S)
    (works : (sent bytes : List ℕ) → net.fails_after sent bytes ≡ none) where
  write-Extends :
      (bytes : List ℕ) (c : Output S)
      → IsClear c
      → (c' : Output S) × (write net bytes c ≡ wrote c' (length bytes)) × Extends c bytes c'
  unfolding write to_network
  write-Extends bytes c clear = elim (Bool-cases c.buffering) [
    | inl e ↦ (
      record c { send_buf = c.send_buf ++ bytes },
      ground (arith, e),
      record {
        clear = record { no_cipher = clear.no_cipher; flushed = λ h. cc; small = clear.small };
        wire = sym (append_assoc c.sent c.send_buf bytes);
        same_vers = refl;
      },
    )
    | inr e ↦
        let none_waits = clear.flushed e in
        (
          record c { sent = c.sent ++ bytes; bytes_sent = c.bytes_sent + length bytes },
          ground (arith, e, works c.sent bytes),
          record {
            clear = record {
              no_cipher = clear.no_cipher;
              flushed = clear.flushed;
              small = clear.small;
            };
            wire = simp (none_waits, append-nil);
            same_vers = refl;
          },
        )
  ]

  encrypt-frame :
      (fragment : List ℕ) (c : Output S)
      → IsClear c
      → length fragment ≤ max_plaintext
      → encrypt p
          (net.random c)
          c.half
          (record_header RecordType.handshake (length fragment) c)
          fragment
        ≡ (c.half, done (frame (wire_vers c) fragment))
  unfolding encrypt
  encrypt-frame fragment c clear fits =
      let v : wire_vers c / 256 % 256 ≡ wire_vers c / 256 = omega (arith, clear.small) in
      let m : length fragment / 256 % 256 ≡ length fragment / 256 = omega (arith, fits) in
      rw (clear.no_cipher, v, m) refl

  write_sealed-wrote :
      (m : ℕ) (bytes : List ℕ) (c c' : Output S)
      → write net bytes c ≡ wrote c' (length bytes)
      → write_sealed p net m c (done bytes) ≡ wrote c' m
  unfolding write_sealed
  write_sealed-wrote m bytes c c' e = ap (counted_as m) e

  write_fragment-Extends :
      (fragment : List ℕ) (c : Output S)
      → IsClear c
      → length fragment ≤ max_plaintext
      → (c' : Output S) × (write_fragment p net RecordType.handshake fragment c
          ≡ wrote c' (length fragment))
        × Extends c (frame (wire_vers c) fragment) c'
  unfolding write_fragment
  write_fragment-Extends fragment c clear fits =
      let m = length fragment in
      let (c', e, ext) = write-Extends (frame (wire_vers c) fragment) c clear in
      (
        c',
        ap
              (λ (q : HalfConn S × Protected (List ℕ)).
                write_sealed p net m (record c { half = q.0 }) q.1)
              (encrypt-frame fragment c clear fits)
            ∙ write_sealed-wrote m (frame (wire_vers c) fragment) c c' e,
        ext,
      )

  write_chunk-take :
      (typ limit : ℕ) (bytes : List ℕ) (c : Output S)
      → write_chunk p net typ bytes (some limit, c) ≡ write_fragment p net typ (take limit bytes) c
  unfolding write_chunk
  write_chunk-take typ limit bytes c = elim (Bool-cases (ltb limit (length bytes))) [
    | inl e ↦ rw (e) refl
    | inr e ↦ rw (e, take_all limit bytes (ground arith)) refl
  ]

  max_payload-handshake :
      (c : Output S) → max_payload_size_for_write p RecordType.handshake c ≡ (some max_plaintext, c)
  unfolding max_payload_size_for_write
  max_payload-handshake c = elim (Bool-cases c.sizing_disabled) [ inl e ↦ simp e | inr e ↦ simp e ]

  -- A handshake record takes as many bytes as a record may have.
  round_Extends :
      (bytes : List ℕ) (c : Output S)
      → IsClear c
      → (c' : Output S) × (write_chunk p net RecordType.handshake bytes
            (max_payload_size_for_write p RecordType.handshake c)
          ≡ wrote c' (length (take max_plaintext bytes)))
        × Extends c (frame (wire_vers c) (take max_plaintext bytes)) c'
  round_Extends bytes c clear =
      let (c', e, ext) =
        write_fragment-Extends (take max_plaintext bytes) c clear
          (omega (arith, length-take max_plaintext bytes)) in
      (
        c',
        ap (write_chunk p net RecordType.handshake bytes) (max_payload-handshake c)
            ∙ write_chunk-take RecordType.handshake max_plaintext bytes c
            ∙ e,
        ext,
      )

  write_loop-IsFramed :
      (fuel : ℕ) (bytes : List ℕ) (n : ℕ) (c : Output S)
      → length bytes ≤ fuel
      → IsClear c
      → (c' : Output S) × (fragments : List (List ℕ)) × (write_loop p net fuel RecordType.handshake
            bytes n c
          ≡ wrote c' (n + length bytes))
        × IsFramed c bytes c' fragments
  unfolding write_loop continue
  write_loop-IsFramed fuel [] n c enough clear = (
    c,
    [],
    ap (wrote c) (omega arith),
    record {
      whole = tt;
      cut = refl;
      extends = record { clear = clear; wire = sym (append-nil (wire c)); same_vers = refl };
    },
  )
  write_loop-IsFramed zero (b ∷ bytes) n c enough clear = absurd (omega arith)
  write_loop-IsFramed (suc fuel) (b ∷ bytes) n c enough clear =
      let f = take max_plaintext (b ∷ bytes) in
      let left = drop (length f) (b ∷ bytes) in
      let (c₁, e, first) = round_Extends (b ∷ bytes) c clear in
      let fits : length f ≤ max_plaintext = omega (arith, length-take max_plaintext (b ∷ bytes)) in
      let some_bytes : 0 < length f = omega (arith, length-take max_plaintext (b ∷ bytes)) in
      let size : length left ≡ suc (length bytes) - length f = length-drop (length f) (b ∷ bytes) in
      let (c', fragments, step, framed) =
        write_loop-IsFramed fuel left (n + length f) c₁ (omega (arith, size, some_bytes, enough))
          first.clear in
      let all_bytes = drop-length-take max_plaintext (b ∷ bytes) in
      (
        c',
        f ∷ fragments,
        rw (e) (step ∙ ap (wrote c') (omega (arith, size, length-take max_plaintext (b ∷ bytes)))),
        subst (λ l. IsFramed c l c' (f ∷ fragments)) all_bytes
            (cons_frame f left c c₁ c' fragments (record { some_bytes = refl; fits = fits }) first
              framed),
      )

  pub write_record_locked-IsFramed :
      (bytes : List ℕ) (c : Output S)
      → IsClear c
      → (c' : Output S) × (fragments : List (List ℕ)) × (write_record_locked p net
            RecordType.handshake bytes c
          ≡ wrote c' (length bytes))
        × IsFramed c bytes c' fragments
  unfolding write_record_locked after_loop
  write_record_locked-IsFramed bytes c clear =
      let (c', fragments, e, framed) =
        write_loop-IsFramed (length bytes) bytes 0 c (omega arith) clear in
      (
        c',
        fragments,
        ap (after_loop p net RecordType.handshake) e ∙ ap (wrote c') (omega arith),
        framed,
      )
