-- ===== src/Wire/Adds.antt =====
-- A calculus for round trips of extension blocks: each lemma says what reading one written part
-- does to the message, and the parts compose in the order in which they are written.
use electricity.Common.{
  ℕ, ◌<◌, ◌≡◌, Bool, true, false, Option, some, List, [], ◌++◌, append-nil, append_assoc, arith,
  length, ok,
}
use electricity.Wire.{Cryptobyte}
use electricity.Wire.Build.{◌⊕◌, ⊕-eq-some}
use electricity.Wire.Extensions.{
  Handler, optional, extension, flag, read_extensions, Extends, Extends-nil, Extends-optional,
}

module _ {ℓ} (cb : Cryptobyte) {M : Type ℓ} (handle : Handler M) where
  open cb use {put, put_prefixed_fits}

  -- Reading what `part` wrote turns `m` into `m₁`.
  abbrev pub Adds : Option (List ℕ) → M → M → Type ℓ
  Adds part m m₁ =
      (x rest : List ℕ) (m' : M)
      → part ≡ some x
      → Extends cb handle rest m₁ m'
      → Extends cb handle (x ++ rest) m m'

  pub Adds-optional :
      (b : Bool) (ext : ℕ) (body : Option (List ℕ)) (m m₁ : M)
      → ext < 65536
      → (b ≡ true → (d rest : List ℕ) → body ≡ some d → handle ext d rest m ≡ ok (m₁, []))
      → (b ≡ false → m ≡ m₁)
      → Adds (optional b (extension cb ext body)) m m₁
  Adds-optional b ext body m m₁ small h same x rest m' built k =
      Extends-optional cb handle b ext body x rest m m₁ m' small built (λ t d. h t d rest) same k

  pub Adds-flag :
      (b : Bool) (ext : ℕ) (m m₁ : M)
      → ext < 65536
      → (b ≡ true → (rest : List ℕ) → handle ext [] rest m ≡ ok (m₁, []))
      → (b ≡ false → m ≡ m₁)
      → Adds (optional b (flag cb ext)) m m₁
  Adds-flag b ext m m₁ small h same x rest m' built k =
      let read_none : b ≡ true
          → (d r : List ℕ) → some [] ≡ some d
          → handle ext d r m ≡ ok (m₁, []) =
        λ t d r e. let q : [] ≡ d = cc in rw (← q) (h t r) in
      Adds-optional b ext (some []) m m₁ small read_none same x rest m'
        (rw (put_prefixed_fits 2 [] (omega arith), append-nil) built) k

  pub Adds-⊕ :
      (a b : Option (List ℕ)) (m m₁ m₂ : M) → Adds a m m₁ → Adds b m₁ m₂ → Adds (a ⊕ b) m m₂
  Adds-⊕ a b m m₁ m₂ ha hb x rest m' built k =
      let (y, z, p, q, e) = ⊕-eq-some a b built in
      rw (e, append_assoc) (ha y (z ++ rest) m' p (hb z rest m' q k))

  -- A whole block is read to its end.
  pub read-Adds :
      (part : Option (List ℕ)) (m m₁ : M) {out : List ℕ}
      → Adds part m m₁
      → part ≡ some out
      → read_extensions cb handle out m ≡ ok m₁
  read-Adds part m m₁ {out} h built =
      (rw append-nil at (h out [] m₁ built (Extends-nil cb handle m₁))) (length out) (omega arith)
