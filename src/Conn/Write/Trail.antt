-- ===== src/Conn/Write/Trail.antt =====
-- conn.go: what `writeRecordLocked` is to do, record by record.
use electricity.Common.{
  append_assoc, true, ◌++◌, length-append, ℕ, ◌+◌, ◌-◌, ◌≤◌, ◌<◌, ◌≡◌, sym, false, Option, none,
  some, List, [], length, take, arith, subst,
}
use electricity.Const.{max_plaintext}
use electricity.Record.HalfConn.{Primitives, HalfConn, Protected, done, alert, failed, panics}
use electricity.Record.Encrypt.{encrypt}
use electricity.Conn.Write.{
  WriteError, local_error, sealing, network, Output, Written, wrote, broken, write_panics,
  unfinished, Network, record_header,
}

module _ {S : Type 0} where
  -- A result with `k` bytes more counted.
  abbrev pub add_count : ℕ → Written S → Written S
  add_count k (wrote c n) = wrote c (n + k)
  add_count k (broken c n e) = broken c (n + k) e
  add_count k (write_panics c) = write_panics c
  add_count k (unfinished c) = unfinished c

  -- The contract of `io.Writer`, from a count on: nil exactly when all bytes went out.
  abbrev pub Accounts : ℕ → ℕ → Written S → Type 0
  Accounts n total (wrote c m) = m ≡ n + total
  Accounts n total (broken c m e) = (n ≤ m) × (m < n + total)
  Accounts n total (write_panics c) = Unit {0}
  Accounts n total (unfinished c) = ⊥

  Accounts-from :
      (n m total : ℕ) (r : Written S)
      → m ≤ total
      → Accounts (n + m) (total - m) r
      → Accounts n total r
  Accounts-from n m total (wrote c k) le h = omega arith
  Accounts-from n m total (broken c k e) le h = omega arith
  Accounts-from n m total (write_panics c) le h = tt
  Accounts-from n m total (unfinished c) le h = h

module _ {S : Type 0} (p : Primitives S) (net : Network S) (typ : ℕ) where
  -- What `encrypt` makes of a fragment, with some random bytes.
  abbrev pub seal_fragment :
      (ℕ → Option (List ℕ)) → Output S → List ℕ → HalfConn S × Protected (List ℕ)
  seal_fragment random c fragment =
      encrypt p random c.half (record_header typ (length fragment) c) fragment

  -- One record more went out: it was added to what is buffered, or the network took all of it.
  pub data Puts (c : Output S) (fragment : List ℕ) (c' : Output S) : Type 0 where
    buffered :
        (random : ℕ → Option (List ℕ)) (bytes : List ℕ)
        → seal_fragment random c fragment ≡ (c'.half, done bytes)
        → c.buffering ≡ true
        → c'.send_buf ≡ c.send_buf ++ bytes
        → c'.sent ≡ c.sent
        → c'.vers ≡ c.vers
        → Puts c fragment c'
    delivered :
        (random : ℕ → Option (List ℕ)) (bytes : List ℕ)
        → seal_fragment random c fragment ≡ (c'.half, done bytes)
        → c.buffering ≡ false
        → net.fails_after c.sent bytes ≡ none
        → c'.sent ≡ c.sent ++ bytes
        → c'.send_buf ≡ c.send_buf
        → c'.vers ≡ c.vers
        → Puts c fragment c'

  -- How a record fails: `encrypt` refuses it and nothing is sent, or the network took a part of it.
  pub data Breaks (c : Output S) (fragment : List ℕ) (c' : Output S) : WriteError → Type 0 where
    refused :
        (random : ℕ → Option (List ℕ)) (a : ℕ)
        → (seal_fragment random c fragment).1 ≡ alert a
        → c'.sent ≡ c.sent
        → c'.send_buf ≡ c.send_buf
        → Breaks c fragment c' (local_error a)
    unsealed :
        (random : ℕ → Option (List ℕ))
        → (seal_fragment random c fragment).1 ≡ failed
        → c'.sent ≡ c.sent
        → c'.send_buf ≡ c.send_buf
        → Breaks c fragment c' sealing
    cut :
        (random : ℕ → Option (List ℕ)) (bytes : List ℕ) (n : ℕ)
        → seal_fragment random c fragment ≡ (c'.half, done bytes)
        → net.fails_after c.sent bytes ≡ some n
        → c'.sent ≡ c.sent ++ take n bytes
        → c'.send_buf ≡ c.send_buf
        → Breaks c fragment c' network

  -- The bytes are cut into fragments that a record has room for, and each goes out in a record of its
  -- own, from the state that the one before left. The count is that of the records that went out whole.
  pub data Writes : Output S → List ℕ → ℕ → Written S → Type 0 where
    written_all : (c : Output S) (n : ℕ) → Writes c [] n (wrote c n)
    written_one :
        (c c₁ : Output S) (fragment rest : List ℕ) (n : ℕ) (r : Written S)
        → 0 < length fragment
        → length fragment ≤ max_plaintext
        → Puts c fragment c₁
        → Writes c₁ rest (n + length fragment) r
        → Writes c (fragment ++ rest) n r
    broke :
        (c c' : Output S) (fragment rest : List ℕ) (n : ℕ) (e : WriteError)
        → 0 < length fragment
        → Breaks c fragment c' e
        → Writes c (fragment ++ rest) n (broken c' n e)
    stopped :
        (c c' : Output S) (fragment rest : List ℕ) (n : ℕ) (random : ℕ → Option (List ℕ))
        → 0 < length fragment
        → (seal_fragment random c fragment).1 ≡ panics
        → Writes c (fragment ++ rest) n (write_panics c')

  -- The count agrees with what went out.
  pub Writes-Accounts :
      {c : Output S} {bytes : List ℕ} {n : ℕ} {r : Written S}
      → Writes c bytes n r
      → Accounts n (length bytes) r
  Writes-Accounts (written_all c n) = omega arith
  Writes-Accounts (written_one c c₁ fragment rest n r pos most puts w) =
      Accounts-from n (length fragment) (length (fragment ++ rest)) r
        (omega (arith, length-append fragment rest))
        (subst (λ k. Accounts (n + length fragment) k r)
          (let same : length rest ≡ length (fragment ++ rest) - length fragment =
              omega (arith, length-append fragment rest) in
            same)
          (Writes-Accounts w))
  Writes-Accounts (broke c c' fragment rest n e pos breaks) =
      (omega arith, omega (arith, length-append fragment rest))
  Writes-Accounts (stopped c c' fragment rest n random pos h) = tt

  -- A write and the one after it are a write of both.
  pub Writes-append :
      {c : Output S} {bytes : List ℕ} {n : ℕ} {r : Written S}
      → Writes c bytes n r
      → (c₁ : Output S) (m : ℕ) (others : List ℕ) (r' : Written S) → r ≡ wrote c₁ m
      → Writes c₁ others m r'
      → Writes c (bytes ++ others) n r'
  Writes-append (written_all c n) c₁ m others r' e w =
      let state : c ≡ c₁ = cc in
      let count : n ≡ m = cc in
      subst (λ d. Writes d others n r') (sym state)
        (subst (λ k. Writes c₁ others k r') (sym count) w)
  Writes-append (written_one c d fragment rest n r pos most puts v) c₁ m others r' e w =
      subst (λ l. Writes c l n r') (sym (append_assoc fragment rest others))
        (written_one c d fragment (rest ++ others) n r' pos most puts
          (Writes-append v c₁ m others r' e w))
  Writes-append (broke c c' fragment rest n k pos breaks) c₁ m others r' e w = absurd cc
  Writes-append (stopped c c' fragment rest n random pos h) c₁ m others r' e w = absurd cc

  -- A write that stopped would have stopped with more bytes, too.
  abbrev pub Stops : Written S → Type 0
  Stops (wrote c n) = ⊥
  Stops (broken c n e) = Unit {0}
  Stops (write_panics c) = Unit {0}
  Stops (unfinished c) = Unit {0}

  pub Writes-longer :
      {c : Output S} {bytes : List ℕ} {n : ℕ} {r : Written S} (others : List ℕ)
      → Writes c bytes n r
      → Stops r
      → Writes c (bytes ++ others) n r
  Writes-longer others (written_all c n) h = elim h [ ]
  Writes-longer others (written_one c d fragment rest n r pos most puts v) h =
      subst (λ l. Writes c l n r) (sym (append_assoc fragment rest others))
        (written_one c d fragment (rest ++ others) n r pos most puts (Writes-longer others v h))
  Writes-longer others (broke c c' fragment rest n e pos breaks) h =
      subst (λ l. Writes c l n (broken c' n e)) (sym (append_assoc fragment rest others))
        (broke c c' fragment (rest ++ others) n e pos breaks)
  Writes-longer others (stopped c c' fragment rest n random pos h') h =
      subst (λ l. Writes c l n (write_panics c')) (sym (append_assoc fragment rest others))
        (stopped c c' fragment (rest ++ others) n random pos h')

  -- A write after one of `k` bytes.
  pub Writes-add_count :
      {c : Output S} {bytes : List ℕ} {n : ℕ} {r : Written S} (k : ℕ)
      → Writes c bytes n r
      → Writes c bytes (n + k) (add_count k r)
  Writes-add_count k (written_all c n) = written_all c (n + k)
  Writes-add_count k (written_one c d fragment rest n r pos most puts v) =
      let m = length fragment in
      let same : (n + m) + k ≡ (n + k) + m = omega arith in
      written_one c d fragment rest (n + k) (add_count k r) pos most puts
        (subst (λ j. Writes d rest j (add_count k r)) same (Writes-add_count k v))
  Writes-add_count k (broke c c' fragment rest n e pos breaks) =
      broke c c' fragment rest (n + k) e pos breaks
  Writes-add_count k (stopped c c' fragment rest n random pos h) =
      stopped c c' fragment rest (n + k) random pos h
