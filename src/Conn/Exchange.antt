-- ===== src/Conn/Exchange.antt =====
-- conn.go: a handshake message that one end writes and the other end reads, before there are keys.
use electricity.Common.{
  ℕ, ◌+◌, ◌*◌, ◌^◌, ◌≤◌, ◌<◌, ◌≡◌, refl, ap, sym, ◌∙◌, none, List, [], ◌∷◌, ◌++◌, length, All,
  concat, drop, drop-append, append-nil, arith, length-append,
}
use electricity.Const.RecordType
use electricity.Record.HalfConn.{Primitives}
use electricity.Reality.Value.{IsByte, big_endian}
use electricity.Conn.State.{Conn}
use electricity.Conn.Frames.{IsFragment, IsPlain}
use electricity.Conn.Handshake.{message, max_handshake_size, read_handshake}
use electricity.Conn.Handshake.Total.{grown}
use electricity.Conn.Handshake.Reassembly.{frames, IsArriving, stream, read_handshake-stream}
use electricity.Conn.Write.{
  Output, Written, wrote, broken, write_panics, unfinished, Network, wire_vers, write_record_locked,
}
use electricity.Conn.Write.Framing.{IsClear, wire, frames-append, write_record_locked-IsFramed}

module _ {S : Type 0} where
  abbrev pub output_of : Written S → Output S
  output_of (wrote c n) = c
  output_of (broken c n e) = c
  output_of (write_panics c) = c
  output_of (unfinished c) = c

-- Each fragment has some bytes.
length-concat_le :
    (fragments : List (List ℕ))
    → All IsFragment fragments
    → length fragments ≤ length (concat fragments)
length-concat_le [] whole = omega arith
length-concat_le (fragment ∷ fragments) (f, whole) = omega (
  arith,
  length-append fragment (concat fragments),
  length-concat_le fragments whole,
  grown fragment f.some_bytes,
)

none_come :
    (v : ℕ) (fragments : List (List ℕ)) (rest : List ℕ)
    → All IsFragment fragments
    → length (concat fragments) ≡ 0
    → frames v fragments rest ≡ rest
none_come v [] rest whole h = refl
none_come v (fragment ∷ fragments) rest (f, whole) h =
    absurd
      (omega (arith, length-append fragment (concat fragments), grown fragment f.some_bytes, h))

empty_of_length : (l : List ℕ) → length l ≡ 0 → l ≡ []
empty_of_length [] h = refl
empty_of_length (x ∷ l) h = absurd (omega arith)

module _ {S : Type 0} (p : Primitives S) (net : Network S)
    (works : (sent bytes : List ℕ) → net.fails_after sent bytes ≡ none) where
  -- The bytes that a write of a message adds to what was sent or is waiting to be sent.
  abbrev pub added : List ℕ → Output S → List ℕ
  added bytes c =
      drop (length (wire c))
        (wire (output_of (write_record_locked p net RecordType.handshake bytes c)))

  -- A handshake message that one end writes while it has no cipher, on a network that works, the other
  -- end reads, if it expects unprotected records of that version, has no handshake bytes waiting, can
  -- count the records and accepts the message's length: from the records that were added, whatever
  -- follows them, `readHandshake` takes this message and no more.
  pub read_handshake-write :
      (typ b₂ b₁ b₀ : ℕ) (body rest : List ℕ) (c : Output S) (d : Conn S)
      → IsClear c
      → IsPlain (wire_vers c) d
      → d.hand ≡ []
      → d.raw_input ≡ added (typ ∷ (b₂ ∷ (b₁ ∷ (b₀ ∷ body)))) c ++ rest
      → All IsByte d.half.seq
      → length d.half.seq ≡ 8
      → big_endian d.half.seq + (4 + length body) < 2 ^ 64
      → length body ≡ b₂ * 65536 + b₁ * 256 + b₀
      → length body ≤ max_handshake_size d typ
      → (d' : Conn S) × (read_handshake p d ≡ message d' (typ ∷ (b₂ ∷ (b₁ ∷ (b₀ ∷ body)))))
        × (d'.hand ≡ [])
        × (d'.raw_input ≡ rest)
  read_handshake-write typ b₂ b₁ b₀ body rest c d clear plain no_hand raw bytes eight room size
        fits =
      let m = typ ∷ (b₂ ∷ (b₁ ∷ (b₀ ∷ body))) in
      let v = wire_vers c in
      let (c', fragments, e, framed) = write_record_locked-IsFramed p net works m c clear in
      let new : added m c ≡ frames v fragments [] =
        ap (λ r. drop (length (wire c)) (wire (output_of r))) e
        ∙ ap (drop (length (wire c))) framed.extends.wire
        ∙ drop-append (length (wire c)) (wire c) (frames v fragments []) refl in
      let count = length-concat_le fragments framed.whole in
      let arriving : IsArriving v fragments rest d = record {
        plain = plain;
        whole = framed.whole;
        raw = raw ∙ ap (λ l. l ++ rest) new ∙ sym (frames-append v fragments rest);
        bytes = bytes;
        eight = eight;
        room = omega (arith, count, ap length framed.cut, room);
      } in
      let same : stream d fragments ≡ m ++ [] =
        ap (λ l. l ++ concat fragments) no_hand ∙ framed.cut ∙ sym (append-nil m) in
      let (d', come, r, a, none_left) =
        read_handshake-stream p v rest typ b₂ b₁ b₀ body [] d fragments arriving same size fits in
      let nothing = ap length none_left ∙ refl in
      let sizes = length-append d'.hand (concat come) in
      (
        d',
        r,
        empty_of_length d'.hand (omega (arith, nothing, sizes)),
        a.raw ∙ none_come v come rest a.whole (omega (arith, nothing, sizes)),
      )
