-- ===== src/Conn/Handshake/Reassembly.antt =====
-- conn.go: handshake messages are read from the stream of the fragments, however they were cut.
use electricity.Common.{
  ℕ, zero, suc, ◌+◌, ◌-◌, ◌*◌, ◌^◌, ◌≤◌, ◌<◌, ◌≡◌, inl, inr, refl, ap, sym, ◌∙◌, Bool, false, List,
  [], ◌∷◌, ◌++◌, ltb, length, All, concat, arith, Bool-cases, length-append, append-nil,
  append_assoc, take, drop, take-append, drop-append, Option-cases, get_or, take-append_long,
  drop-append_long, get_or-append,
}
use electricity.Record.HalfConn.{Primitives}
use electricity.Record.Seq.{inc_seq, inc_seq-big_endian}
use electricity.Reality.Value.{IsByte, big_endian}
use electricity.Conn.State.{Conn, advanced}
use electricity.Conn.Read.{retry, read_record_or_ccs, read_record}
use electricity.Conn.Frames.{frame, IsFragment, IsPlain, after_frame, read_one-frame}
use electricity.Conn.Handshake.{
  message, message_length, max_handshake_size, more, after_bytes, read_handshake_loop,
  read_handshake_bytes, read_body, read_handshake,
}
use electricity.Conn.Handshake.Total.{grown}

-- The records of the fragments, and what comes after them.
abbrev pub frames : ℕ → List (List ℕ) → List ℕ → List ℕ
frames v [] rest = rest
frames v (fragment ∷ fragments) rest = frame v fragment ++ frames v fragments rest

module _ {S : Type 0} where
  -- The fragments come next on a connection that reads unprotected records, and can all be counted.
  pub record IsArriving (v : ℕ) (fragments : List (List ℕ)) (rest : List ℕ) (c : Conn S)
      : Type 0 where
    pub plain : IsPlain v c
    pub whole : All IsFragment fragments
    pub raw : c.raw_input ≡ frames v fragments rest
    pub bytes : All IsByte c.half.seq
    pub eight : length c.half.seq ≡ 8
    pub room : big_endian c.half.seq + length fragments < 2 ^ 64

  -- The handshake bytes that the connection carries from here on.
  abbrev pub stream : Conn S → List (List ℕ) → List ℕ
  stream c fragments = c.hand ++ concat fragments

  -- `n` bytes of what was carried are in `c.hand`, and the others are still to come.
  pub record IsGathered (v n : ℕ) (rest carried : List ℕ) (have_vers : Bool) (c : Conn S)
      (fragments : List (List ℕ)) : Type 0 where
    pub arriving : IsArriving v fragments rest c
    pub kept : stream c fragments ≡ carried
    pub enough : n ≤ length c.hand
    pub same_vers : c.have_vers ≡ have_vers

module _ {S : Type 0} (p : Primitives S) (v : ℕ) (rest : List ℕ) where
  -- The next fragment is read.
  read_record-fragment :
      (fragment : List ℕ) (fragments : List (List ℕ)) (c : Conn S)
      → IsArriving v (fragment ∷ fragments) rest c
      → (seq : List ℕ) × (read_record p c
          ≡ advanced (after_frame fragment (frames v fragments rest) seq c))
        × IsArriving v fragments rest (after_frame fragment (frames v fragments rest) seq c)
  unfolding read_record read_record_or_ccs retry
  read_record-fragment fragment fragments c a =
      let (none_iff, counts) = inc_seq-big_endian c.half.seq a.bytes a.eight in
      elim (Option-cases (inc_seq c.half.seq)) [
        | inl e ↦ absurd (omega (arith, none_iff.0 e, a.room))
        | inr (seq, e) ↦
            let (up, eight, bytes) = counts seq e in
            let one =
              read_one-frame p c v fragment (frames v fragments rest) seq a.plain (a.whole.0) a.raw
                e in
            (
              seq,
              rw (one) refl,
              record {
                plain = record {
                  no_cipher = a.plain.no_cipher;
                  no_mac = a.plain.no_mac;
                  no_err = a.plain.no_err;
                  no_input = a.plain.no_input;
                  small = a.plain.small;
                  same_vers = a.plain.same_vers;
                };
                whole = a.whole.1;
                raw = refl;
                bytes = bytes;
                eight = eight;
                room = omega (arith, up, a.room);
              },
            )
      ]

  read_handshake_loop-IsGathered :
      (fuel n : ℕ) (fragments : List (List ℕ)) (c : Conn S)
      → IsArriving v fragments rest c
      → n ≤ length (stream c fragments)
      → n - length c.hand < fuel
      → (c' : Conn S) × (left : List (List ℕ)) × (read_handshake_loop p fuel n c ≡ advanced c')
        × IsGathered v n rest (stream c fragments) c.have_vers c' left
  unfolding read_handshake_loop more
  read_handshake_loop-IsGathered zero n fragments c a long fuel_left = absurd (omega arith)
  read_handshake_loop-IsGathered (suc fuel) n [] c a long fuel_left =
      let same : c.hand ++ [] ≡ c.hand = append-nil c.hand in
      let there : ltb (length c.hand) n ≡ false = ground (arith, ap length same) in
      (
        c,
        [],
        rw (there) refl,
        record { arriving = a; kept = refl; enough = ground arith; same_vers = refl },
      )
  read_handshake_loop-IsGathered (suc fuel) n (fragment ∷ fragments) c a long fuel_left =
      elim (Bool-cases (ltb (length c.hand) n)) [
        | inr e ↦ (
          c,
          fragment ∷ fragments,
          rw (e) refl,
          record { arriving = a; kept = refl; enough = ground arith; same_vers = refl },
        )
        | inl e ↦
            let (seq, step, next) = read_record-fragment fragment fragments c a in
            let c₁ : Conn S = after_frame fragment (frames v fragments rest) seq c in
            let same : stream c₁ fragments ≡ stream c (fragment ∷ fragments) =
              append_assoc c.hand fragment (concat fragments) in
            let less : length c.hand < n = ground arith in
            let longer : length c.hand < length c₁.hand =
              omega (arith, length-append c.hand fragment, grown fragment (a.whole.0.some_bytes)) in
            let (c', left, r, g) =
              read_handshake_loop-IsGathered fuel n fragments c₁ next
                (omega (arith, long, ap length same)) (omega (arith, longer, fuel_left, less)) in
            (
              c',
              left,
              rw (e, step) r,
              record {
                arriving = g.arriving;
                kept = g.kept ∙ same;
                enough = g.enough;
                same_vers = g.same_vers;
              },
            )
      ]

  -- The header's bytes, once four bytes are in `c.hand`.
  header_bytes :
      (n : ℕ) (hand come carried : List ℕ)
      → hand ++ come ≡ carried
      → n ≤ length hand
      → (i : ℕ) → i < n
      → get_or hand i 0 ≡ get_or carried i 0
  header_bytes n hand come carried same long i small =
      sym (get_or-append hand come i 0 (omega (arith, long, small))) ∙ ap (λ l. get_or l i 0) same

  take_message-stream :
      (c : Conn S) (fragments : List (List ℕ)) (n : ℕ) (data_ left : List ℕ)
      → stream c fragments ≡ data_ ++ left
      → length data_ ≡ n
      → n ≤ length c.hand
      → (take n c.hand ≡ data_) × (drop n c.hand ++ concat fragments ≡ left)
  take_message-stream c fragments n data_ left same long there = (
    sym (take-append_long n c.hand (concat fragments) there)
        ∙ ap (take n) same
        ∙ take-append n data_ left long,
    sym (drop-append_long n c.hand (concat fragments) there)
        ∙ ap (drop n) same
        ∙ drop-append n data_ left long,
  )

  IsArriving-hand :
      (c : Conn S) (fragments : List (List ℕ)) (hand : List ℕ)
      → IsArriving v fragments rest c
      → IsArriving v fragments rest (record c { hand = hand })
  IsArriving-hand c fragments hand a = record {
    plain = record {
      no_cipher = a.plain.no_cipher;
      no_mac = a.plain.no_mac;
      no_err = a.plain.no_err;
      no_input = a.plain.no_input;
      small = a.plain.small;
      same_vers = a.plain.same_vers;
    };
    whole = a.whole;
    raw = a.raw;
    bytes = a.bytes;
    eight = a.eight;
    room = a.room;
  }

  module _ (typ b₂ b₁ b₀ : ℕ) (body left : List ℕ) where
    abbrev pub message_bytes : List ℕ
    message_bytes = typ ∷ (b₂ ∷ (b₁ ∷ (b₀ ∷ body)))

    read_body-stream :
        (c : Conn S) (fragments : List (List ℕ))
        → IsArriving v fragments rest c
        → stream c fragments ≡ message_bytes ++ left
        → 4 ≤ length c.hand
        → length body ≡ b₂ * 65536 + b₁ * 256 + b₀
        → length body ≤ max_handshake_size c typ
        → (c' : Conn S) × (come : List (List ℕ)) × (read_body p c ≡ message c' message_bytes)
          × IsArriving v come rest c'
          × (stream c' come ≡ left)
    unfolding read_body after_bytes read_handshake_bytes
    read_body-stream c fragments a same there size fits =
        let at = header_bytes 4 c.hand (concat fragments) (message_bytes ++ left) same there in
        let n : message_length c.hand ≡ length body =
          omega (arith, at 1 (omega arith), at 2 (omega arith), at 3 (omega arith), size) in
        let typ_ : get_or c.hand 0 0 ≡ typ = at 0 (omega arith) in
        let fits_ : ltb (max_handshake_size c typ) (length body) ≡ false = ground (arith, fits) in
        let long : length (stream c fragments) ≡ 4 + length body + length left =
          ap length same ∙ omega (arith, length-append body left) in
        let (c', come, r, g) =
          read_handshake_loop-IsGathered (4 + length body + 2) (4 + length body) fragments c a
            (omega (arith, long)) (omega arith) in
        let (front, back) =
          take_message-stream c' come (4 + length body) message_bytes left (g.kept ∙ same)
            (omega arith) g.enough in
        (
          record c' { hand = drop (4 + length body) c'.hand },
          come,
          rw (n, typ_, fits_, r)
              (ap (message (record c' { hand = drop (4 + length body) c'.hand })) front),
          IsArriving-hand c' come (drop (4 + length body) c'.hand) g.arriving,
          back,
        )

    -- On a connection that reads unprotected records, however the peer cut its messages into records of
    -- at most 2 ^ 14 bytes: `readHandshake` returns the first message of the stream, if it is not longer
    -- than its kind may be and the sequence number counts all the records, and the others stay on it.
    pub read_handshake-stream :
        (c : Conn S) (fragments : List (List ℕ))
        → IsArriving v fragments rest c
        → stream c fragments ≡ message_bytes ++ left
        → length body ≡ b₂ * 65536 + b₁ * 256 + b₀
        → length body ≤ max_handshake_size c typ
        → (c' : Conn S) × (come : List (List ℕ)) × (read_handshake p c ≡ message c' message_bytes)
          × IsArriving v come rest c'
          × (stream c' come ≡ left)
    unfolding read_handshake after_bytes read_handshake_bytes
    read_handshake-stream c fragments a same size fits =
        let long : length (stream c fragments) ≡ 4 + length body + length left =
          ap length same ∙ omega (arith, length-append body left) in
        let (c₁, come₁, r₁, g) =
          read_handshake_loop-IsGathered 6 4 fragments c a (omega (arith, long)) (omega arith) in
        let fits_ : length body ≤ max_handshake_size c₁ typ = rw (g.same_vers) fits in
        let (c', come, r, a', same') =
          read_body-stream c₁ come₁ g.arriving (g.kept ∙ same) g.enough size fits_ in
        (c', come, rw (r₁) r, a', same')
