-- ===== src/Wire/Fresh.antt =====
-- The same calculus for the blocks that refuse an extension that comes twice: each part also says
-- which types it may write.
use electricity.Common.{
  ℕ, ◌<◌, ◌≡◌, refl, sym, ap, ◌∙◌, Bool, true, false, Option, none, some, List, [], ◌∷◌, ◌||◌,
  arith, All, ◌==◌, if◌then◌else◌, ok, fail, ◌>>=◌,
}
use mathlib.Core.Path.{subst₂}
use electricity.Wire.{Cryptobyte}
use electricity.Wire.Build.{◌⊕◌}
use electricity.Wire.Extensions.{Handler, optional, extension, flag, read_extensions}
use electricity.Wire.Adds.{Adds, Adds-optional, Adds-flag, Adds-⊕, read-Adds}

-- `seenExts[ext]`
abbrev pub contains : List ℕ → ℕ → Bool
contains [] k = false
contains (x ∷ xs) k = x == k || contains xs k

-- The duplicate check in front of the switch, over the extensions seen so far.
abbrev pub no_duplicates {ℓ} : {M : Type ℓ} → Handler M → Handler (M × List ℕ)
no_duplicates handle ext d s (m, seen) =
    if contains seen ext
    then fail
    else (handle ext d s m >>= λ (m', left). ok ((m', ext ∷ seen), left))

abbrev pub Absent : List ℕ → List ℕ → Type 0
Absent ids seen = All (λ k. contains seen k ≡ false) ids

-- Reading `part`, which writes types of `ids` alone, turns `m` into `m₁` if none of them was seen.
pub record AddsFresh {ℓ} (cb : Cryptobyte) {M : Type ℓ} (handle : Handler M) (ids : List ℕ)
    (part : Option (List ℕ)) (m m₁ : M) : Type ℓ where
  pub reads :
      (seen : List ℕ)
      → Absent ids seen
      → (seen' : List ℕ) × ((k : ℕ)
          → contains ids k ≡ false
          → contains seen k ≡ false
          → contains seen' k ≡ false)
        × Adds cb (no_duplicates handle) part (m, seen) (m₁, seen')

keep-Absent :
    (ids seen seen' : List ℕ) (ext : ℕ)
    → ((k : ℕ) → contains (ext ∷ []) k ≡ false → contains seen k ≡ false → contains seen' k ≡ false)
    → Absent ids (ext ∷ [])
    → Absent ids seen
    → Absent ids seen'
keep-Absent [] seen seen' ext kept apart old = tt
keep-Absent (k ∷ ids) seen seen' ext kept (a, apart) (o, old) =
    (kept k a o, keep-Absent ids seen seen' ext kept apart old)

join_absent :
    (ids : List ℕ) (ext k : ℕ)
    → contains (ext ∷ ids) k ≡ false
    → (contains (ext ∷ []) k ≡ false) × (contains ids k ≡ false)
join_absent ids ext k h = ground arith

none-Absent : (ids : List ℕ) → Absent ids []
none-Absent [] = tt
none-Absent (k ∷ ids) = (refl, none-Absent ids)

module _ {ℓ} (cb : Cryptobyte) {M : Type ℓ} (handle : Handler M) where
  pub AddsFresh-optional :
      (b : Bool) (ext : ℕ) (body : Option (List ℕ)) (m m₁ : M)
      → ext < 65536
      → (b ≡ true → (d rest : List ℕ) → body ≡ some d → handle ext d rest m ≡ ok (m₁, []))
      → (b ≡ false → m ≡ m₁)
      → AddsFresh cb handle (ext ∷ []) (optional b (extension cb ext body)) m m₁
  AddsFresh-optional true ext body m m₁ small h same = record {
    reads = λ seen (new, _). (
      ext ∷ seen,
      (λ k other old. ground arith),
      Adds-optional cb (no_duplicates handle) true ext body (m, seen) (m₁, ext ∷ seen) small
          (λ t d rest e. rw (new, h refl d rest e)) (λ t. cc),
    );
  }
  AddsFresh-optional false ext body m m₁ small h same = record {
    reads = λ seen (new, _). (
      seen,
      (λ k other old. old),
      Adds-optional cb (no_duplicates handle) false ext body (m, seen) (m₁, seen) small (λ t. cc)
          (λ t. rw (same refl)),
    );
  }

  pub AddsFresh-flag :
      (b : Bool) (ext : ℕ) (m m₁ : M)
      → ext < 65536
      → (b ≡ true → (rest : List ℕ) → handle ext [] rest m ≡ ok (m₁, []))
      → (b ≡ false → m ≡ m₁)
      → AddsFresh cb handle (ext ∷ []) (optional b (flag cb ext)) m m₁
  AddsFresh-flag true ext m m₁ small h same = record {
    reads = λ seen (new, _). (
      ext ∷ seen,
      (λ k other old. ground arith),
      Adds-flag cb (no_duplicates handle) true ext (m, seen) (m₁, ext ∷ seen) small
          (λ t rest. rw (new, h refl rest)) (λ t. cc),
    );
  }
  AddsFresh-flag false ext m m₁ small h same = record {
    reads = λ seen (new, _). (
      seen,
      (λ k other old. old),
      Adds-flag cb (no_duplicates handle) false ext (m, seen) (m₁, seen) small (λ t. cc)
          (λ t. rw (same refl)),
    );
  }

  pub AddsFresh-⊕ :
      {ext : ℕ} {ids : List ℕ} {a b : Option (List ℕ)} {m m₁ m₂ : M}
      → Absent ids (ext ∷ [])
      → AddsFresh cb handle (ext ∷ []) a m m₁
      → AddsFresh cb handle ids b m₁ m₂
      → AddsFresh cb handle (ext ∷ ids) (a ⊕ b) m m₂
  AddsFresh-⊕ {ext} {ids} {a} {b} {m} {m₁} {m₂} apart ha hb = record {
    reads = λ seen (new, old).
        let (seen₁, kept₁, add₁) = ha.reads seen (new, tt) in
        let (seen₂, kept₂, add₂) =
          hb.reads seen₁ (keep-Absent ids seen seen₁ ext kept₁ apart old) in
        (
          seen₂,
          (λ k other was.
              let (o₁, o₂) = join_absent ids ext k other in kept₂ k o₂ (kept₁ k o₁ was)),
          Adds-⊕ cb (no_duplicates handle) a b (m, seen) (m₁, seen₁) (m₂, seen₂) add₁ add₂,
        );
  }

  -- The list of types may be given in another order, or be longer.
  pub AddsFresh-weaken :
      {ids : List ℕ} (ids' : List ℕ) {part : Option (List ℕ)} {m m₁ : M}
      → ((seen : List ℕ) → Absent ids' seen → Absent ids seen)
      → ((k : ℕ) → contains ids' k ≡ false → contains ids k ≡ false)
      → AddsFresh cb handle ids part m m₁
      → AddsFresh cb handle ids' part m m₁
  AddsFresh-weaken ids' less kept h = record {
    reads = λ seen new.
        let (seen', k', add) = h.reads seen (less seen new) in
        (seen', (λ k other old. k' k (kept k other) old), add);
  }

  none-⊕ : (b : Option (List ℕ)) → (some [] ⊕ b) ≡ b
  none-⊕ none = refl
  none-⊕ (some x) = refl

  -- A part that writes nothing may stand in front.
  pub AddsFresh-none :
      {ids : List ℕ} {a b : Option (List ℕ)} {m n m₁ : M}
      → a ≡ some []
      → m ≡ n
      → AddsFresh cb handle ids b n m₁
      → AddsFresh cb handle ids (a ⊕ b) m m₁
  AddsFresh-none {ids} {a} {b} {m} {n} {m₁} e same h =
      subst₂ (λ x y. AddsFresh cb handle ids x y m₁) (sym (ap (λ x. x ⊕ b) e ∙ none-⊕ b)) (sym same)
        h

  -- A whole block is read to its end, from no extension seen.
  pub read-AddsFresh :
      {ids : List ℕ} {part : Option (List ℕ)} {m m₁ : M} {out : List ℕ}
      → AddsFresh cb handle ids part m m₁
      → part ≡ some out
      → (seen : List ℕ) × (read_extensions cb (no_duplicates handle) out (m, []) ≡ ok (m₁, seen))
  read-AddsFresh {ids} {part} {m} {m₁} h built =
      let (seen, _, add) = h.reads [] (none-Absent ids) in
      (seen, read-Adds cb (no_duplicates handle) part (m, []) (m₁, seen) add built)
