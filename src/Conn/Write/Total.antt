-- ===== src/Conn/Write/Total.antt =====
-- conn.go: the loop of `writeRecordLocked` ends, and what it sends and counts.
use electricity.Common.{
  drop-length-take, append-drop, ◌++◌, ap, ℕ, zero, suc, ◌+◌, ◌≤◌, ◌<◌, ◌≡◌, inl, inr, refl, sym,
  false, Option, some, List, [], ◌∷◌, ◌==◌, ltb, length, take, drop, arith, Bool-cases,
  Option-cases, length-take, length-drop, subst,
}
use electricity.Const.{max_plaintext}
use electricity.Const.RecordType
use electricity.Record.HalfConn.{Primitives, HalfConn, Protected, done, alert, failed, panics}
use electricity.Conn.Write.{
  network, Output, Written, wrote, broken, write_panics, unfinished, Network, to_network, write,
  write_sealed, write_fragment, write_chunk, continue, write_loop, after_loop, write_record_locked,
}
use electricity.Conn.Write.Sizes.{IsSmall, max_payload-some}
use electricity.Conn.Write.Trail.{
  Puts, buffered, delivered, Breaks, refused, unsealed, cut, Writes, written_all, written_one,
  broke, stopped, seal_fragment, Accounts, Writes-Accounts,
}

module _ {S : Type 0} (p : Primitives S) (net : Network S) (typ : ℕ) where
  -- How the round of a fragment ends.
  abbrev WritesOne : Output S → List ℕ → Written S → Type 0
  WritesOne c fragment (wrote c' m) = (m ≡ length fragment) × Puts p net typ c fragment c'
  WritesOne c fragment (broken c' m e) = Breaks p net typ c fragment c' e
  WritesOne c fragment (write_panics c') =
      (random : ℕ → Option (List ℕ)) × ((seal_fragment p net typ random c fragment).1 ≡ panics)
  WritesOne c fragment (unfinished c') = ⊥

  write_sealed-WritesOne :
      (c : Output S) (packets : ℕ) (fragment : List ℕ) (random : ℕ → Option (List ℕ))
      (half : HalfConn S) (result : Protected (List ℕ))
      → seal_fragment p net typ random c fragment ≡ (half, result)
      → WritesOne c fragment (
          write_sealed p net
            (length fragment)
            (record c { packets_sent = packets; half = half })
            result)
  unfolding write_sealed write to_network
  write_sealed-WritesOne c packets fragment random half (done bytes) e =
      let m = length fragment in
      let d : Output S = record c { packets_sent = packets; half = half } in
      let d₁ : Output S = record d { send_buf = c.send_buf ++ bytes } in
      let d₂ : Output S = record d {
        sent = c.sent ++ bytes;
        bytes_sent = c.bytes_sent + length bytes;
      } in
      elim (Bool-cases c.buffering) [
        | inl b ↦
            let same : write_sealed p net m d (done bytes) ≡ wrote d₁ m = ground (arith, b) in
            subst (WritesOne c fragment) (sym same) (refl, buffered random bytes e b refl refl refl)
        | inr b ↦ elim (Option-cases (net.fails_after c.sent bytes)) [
          | inl f ↦
              let same : write_sealed p net m d (done bytes) ≡ wrote d₂ m = ground (arith, b, f) in
              subst (WritesOne c fragment) (sym same)
                (refl, delivered random bytes e b f refl refl refl)
          | inr (n, f) ↦
              let d₃ : Output S = record d {
                sent = c.sent ++ take n bytes;
                bytes_sent = c.bytes_sent + n;
              } in
              let same : write_sealed p net m d (done bytes) ≡ broken d₃ 0 network =
                ground (arith, b, f) in
              subst (WritesOne c fragment) (sym same) (cut random bytes n e f refl refl)
        ]
      ]
  write_sealed-WritesOne c packets fragment random half (alert a) e =
      refused random a (ap (λ t. t.1) e) refl refl
  write_sealed-WritesOne c packets fragment random half failed e =
      unsealed random (ap (λ t. t.1) e) refl refl
  write_sealed-WritesOne c packets fragment random half panics e = (random, ap (λ t. t.1) e)

  write_fragment-WritesOne :
      (c : Output S) (packets : ℕ) (fragment : List ℕ)
      → WritesOne c fragment
          (write_fragment p net typ fragment (record c { packets_sent = packets }))
  unfolding write_fragment
  write_fragment-WritesOne c packets fragment =
      let random = net.random (record c { packets_sent = packets }) in
      let (half, result) = seal_fragment p net typ random c fragment in
      write_sealed-WritesOne c packets fragment random half result refl

  -- A round takes some of the bytes, as many as were given to it.
  write_chunk-WritesOne :
      (limit packets : ℕ) (bytes : List ℕ) (c : Output S)
      → 0 < limit
      → limit ≤ max_plaintext
      → 0 < length bytes
      → (fragment : List ℕ) × (0 < length fragment)
        × (length fragment ≤ max_plaintext)
        × (fragment ++ drop (length fragment) bytes ≡ bytes)
        × WritesOne c fragment
            (write_chunk p net typ bytes (some limit, record c { packets_sent = packets }))
  unfolding write_chunk
  write_chunk-WritesOne limit packets bytes c pos most long =
      elim (Bool-cases (ltb limit (length bytes))) [
        | inl less ↦ (
          take limit bytes,
          omega (arith, length-take limit bytes),
          omega (arith, length-take limit bytes),
          drop-length-take limit bytes,
          rw (less) (write_fragment-WritesOne c packets (take limit bytes)),
        )
        | inr more ↦ (
          bytes,
          long,
          ground (arith, most),
          append-drop bytes,
          rw (more) (write_fragment-WritesOne c packets bytes),
        )
      ]

  continue-Writes :
      (next : ℕ → Output S → Written S) (n : ℕ) (c : Output S) (fragment bytes : List ℕ)
      (r : Written S)
      → 0 < length fragment
      → length fragment ≤ max_plaintext
      → fragment ++ drop (length fragment) bytes ≡ bytes
      → WritesOne c fragment r
      → ((c₁ : Output S)
          → Writes p net typ c₁
              (drop (length fragment) bytes)
              (n + length fragment)
              (next (length fragment) c₁))
      → Writes p net typ c bytes n (continue p net next n r)
  unfolding continue
  continue-Writes next n c fragment bytes (wrote c₁ m) pos most same (all_, puts) rest =
      let left = drop (length fragment) bytes in
      subst (λ l. Writes p net typ c l n (next m c₁)) same
        (written_one c c₁ fragment left n (next m c₁) pos most puts (
          subst (λ k. Writes p net typ c₁ left (n + length fragment) (next k c₁)) (sym all_)
            (rest c₁)))
  continue-Writes next n c fragment bytes (broken c' m e) pos most same breaks rest =
      subst (λ l. Writes p net typ c l n (broken c' n e)) same
        (broke c c' fragment (drop (length fragment) bytes) n e pos breaks)
  continue-Writes next n c fragment bytes (write_panics c') pos most same (random, h) rest =
      subst (λ l. Writes p net typ c l n (write_panics c')) same
        (stopped c c' fragment (drop (length fragment) bytes) n random pos h)
  continue-Writes next n c fragment bytes (unfinished c') pos most same h rest = elim h [ ]

  module _ (small : IsSmall p) where
    write_loop-Writes :
        (fuel : ℕ) (bytes : List ℕ) (n : ℕ) (c : Output S)
        → length bytes ≤ fuel
        → Writes p net typ c bytes n (write_loop p net fuel typ bytes n c)
    unfolding write_loop
    write_loop-Writes fuel [] n c enough = written_all c n
    write_loop-Writes zero (b ∷ bytes) n c enough = absurd (omega arith)
    write_loop-Writes (suc fuel) (b ∷ bytes) n c enough =
        let (limit, packets, size, pos, most) = max_payload-some p small typ c in
        let (fragment, some_bytes, fits, same, one) =
          write_chunk-WritesOne limit packets (b ∷ bytes) c pos most (omega arith) in
        let next : ℕ → Output S → Written S =
          λ m c'. write_loop p net fuel typ (drop m (b ∷ bytes)) (n + m) c' in
        rw (size) (
          continue-Writes next n c fragment (b ∷ bytes)
            (write_chunk p net typ (b ∷ bytes) (some limit, record c { packets_sent = packets }))
            some_bytes fits same one
            (λ c'.
              write_loop-Writes fuel (drop (length fragment) (b ∷ bytes)) (n + length fragment) c'
                (omega (arith, length-drop (length fragment) (b ∷ bytes), some_bytes, enough))))

    after_loop-same :
        (r : Written S)
        → (typ == RecordType.change_cipher_spec) ≡ false
        → after_loop p net typ r ≡ r
    unfolding after_loop
    after_loop-same (wrote c n) e = rw (e) refl
    after_loop-same (broken c n e) h = refl
    after_loop-same (write_panics c) h = refl
    after_loop-same (unfinished c) h = refl

    -- Writing a record of another type than ChangeCipherSpec ends on every network, with ciphers of the
    -- usual sizes. The bytes are cut into fragments of at most 2 ^ 14 bytes, and one record after the
    -- other, as `encrypt` makes it of the fragment, is added to the buffer or taken by the network. With
    -- nil that is all of them, and they are all counted. It stops with an error where `encrypt` refuses
    -- a record or the network took only a part of one, and counts the bytes of the records before, which
    -- are fewer than all; it panics only where `encrypt` panics.
    pub write_record_locked-Writes :
        (bytes : List ℕ) (c : Output S)
        → (typ == RecordType.change_cipher_spec) ≡ false
        → Writes p net typ c bytes 0 (write_record_locked p net typ bytes c)
          × Accounts 0 (length bytes) (write_record_locked p net typ bytes c)
    unfolding write_record_locked
    write_record_locked-Writes bytes c other =
        let w = write_loop-Writes (length bytes) bytes 0 c (omega arith) in
        rw (after_loop-same (write_loop p net (length bytes) typ bytes 0 c) other)
          (w, Writes-Accounts p net typ w)

pub write_alert-Accounts :
    {S : Type 0} (p : Primitives S) (net : Network S) (small : IsSmall p) (a b : ℕ) (c : Output S)
    → Accounts 0 2 (write_loop p net 2 RecordType.alert (a ∷ (b ∷ [])) 0 c)
write_alert-Accounts p net small a b c =
    Writes-Accounts p net RecordType.alert
      (write_loop-Writes p net RecordType.alert small 2 (a ∷ (b ∷ [])) 0 c (omega arith))
