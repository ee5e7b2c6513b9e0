-- ===== src/Wire/Parse.antt =====
-- The loops `for !s.Empty() { … }` that read one item after the other off a byte string.
use electricity.Common.{
  ℕ, zero, suc, ◌≤◌, ◌<◌, ◌≡◌, ◌≢◌, inl, inr, Option, some, List, [], ◌∷◌, ◌++◌, arith, length,
  length-append, All, Outcome, ok, stuck, ◌>>=◌, lift, Option-cases,
}
use electricity.Wire.Build.{⊕-eq-some, build_list}

-- One unit of fuel is spent on each item.
unfoldable pub read_list {ℓ} :
    {A : Type ℓ} → ℕ → (List ℕ → Option (A × List ℕ)) → List ℕ → Outcome (List A)
read_list fuel p [] = ok []
read_list zero p (b ∷ s) = stuck
read_list (suc fuel) p (b ∷ s) = do
  (a, s') ← lift (p (b ∷ s))
  rest ← read_list fuel p s'
  ok (a ∷ rest)

-- Each item takes a byte at least, so a unit for each byte is enough.
abbrev pub read_all {ℓ} : {A : Type ℓ} → (List ℕ → Option (A × List ℕ)) → List ℕ → Outcome (List A)
read_all p s = read_list (length s) p s

module _ {ℓ} {A : Type ℓ} (p : List ℕ → Option (A × List ℕ)) where
  pub Shrinks : Type ℓ
  Shrinks = (s rest : List ℕ) (a : A) → p s ≡ some (a, rest) → length rest < length s

  read_list-ne-stuck :
      Shrinks → (fuel : ℕ) (s : List ℕ) → length s ≤ fuel → read_list fuel p s ≢ stuck
  unfolding read_list Shrinks
  read_list-ne-stuck sh fuel [] h = λ e. cc
  read_list-ne-stuck sh zero (b ∷ s) h = absurd (omega arith)
  read_list-ne-stuck sh (suc fuel) (b ∷ s) h = elim (Option-cases (p (b ∷ s))) [
    | inl e ↦ rw e (λ x. cc)
    | inr ((a, rest), e) ↦
        rw e
          (λ x. read_list-ne-stuck sh fuel rest (omega (arith, sh (b ∷ s) rest a e)) (ground arith))
  ]

  pub read_all-ne-stuck : Shrinks → (s : List ℕ) → read_all p s ≢ stuck
  read_all-ne-stuck sh s = read_list-ne-stuck sh (length s) s (omega arith)

module _ {ℓ} {A : Type ℓ} (enc : A → Option (List ℕ)) (p : List ℕ → Option (A × List ℕ)) where
  -- `p` reads back what `enc` writes of `a`, and that is not empty.
  abbrev pub Reads : A → Type ℓ
  Reads a =
      (out rest : List ℕ) → enc a ≡ some out → (p (out ++ rest) ≡ some (a, rest)) × (0 < length out)

  read_list_step :
      (fuel : ℕ) (s rest : List ℕ) {a : A}
      → p s ≡ some (a, rest)
      → 0 < length s
      → read_list (suc fuel) p s ≡ (read_list fuel p rest >>= λ r. ok (a ∷ r))
  unfolding read_list
  read_list_step fuel [] rest e h = absurd (omega arith)
  read_list_step fuel (b ∷ s) rest e h = rw e

  read_list-build_list :
      (l : List A) (fuel : ℕ) {out : List ℕ}
      → All Reads l
      → build_list enc l ≡ some out
      → length out ≤ fuel
      → read_list fuel p out ≡ ok l
  read_list-build_list [] fuel {out} h e n = unfold read_list in ground arith
  read_list-build_list (a ∷ l) fuel {out} (ha, hl) e n =
      let (x, y, ex, ey, eo) = ⊕-eq-some (enc a) (build_list enc l) e in
      let (rd, pos) = ha x y ex in go fuel n x y ey eo rd pos (λ f. read_list-build_list l f hl ey)
    where
      go :
          (fuel : ℕ)
          → length out ≤ fuel
          → (x y : List ℕ) → build_list enc l ≡ some y
          → out ≡ x ++ y
          → p (x ++ y) ≡ some (a, y)
          → 0 < length x
          → ((f : ℕ) → length y ≤ f → read_list f p y ≡ ok l)
          → read_list fuel p out ≡ ok (a ∷ l)
      go zero n x y ey eo rd pos ih = absurd (omega (arith, length-append x y, rw eo at n))
      go (suc f) n x y ey eo rd pos ih =
          let m : length (x ++ y) ≤ suc f = rw eo at n in
          rw (
            eo,
            read_list_step f (x ++ y) y rd (omega (arith, length-append x y)),
            ih f (omega (arith, length-append x y, m)),
          )

  -- A list that was built item by item is read back.
  pub read_all-build_list :
      (l : List A) {out : List ℕ}
      → All Reads l
      → build_list enc l ≡ some out
      → read_all p out ≡ ok l
  read_all-build_list l {out} h e = read_list-build_list l (length out) h e (omega arith)
