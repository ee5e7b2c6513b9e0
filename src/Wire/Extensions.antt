-- ===== src/Wire/Extensions.antt =====
-- The extension blocks of the hello messages: the loop over (type, data) pairs, and how one such
-- pair is written. A handler takes the type, the data, the extensions behind it and the message so
-- far, and returns the message with the data that it left unread.
use electricity.Common.{
  ℕ, zero, suc, ◌≤◌, ◌<◌, ◌≡◌, ◌≢◌, refl, ◌∙◌, Bool, true, false, Option, some, List, [], ◌∷◌, ◌++◌,
  append_assoc, arith, length, length-append, is_empty, if◌then◌else◌, Outcome, ok, stuck, ◌>>=◌,
  ◌>>◌, lift, guard, bind?, bind?-eq-some, Option-cases, >>=-ne-stuck, inl, inr,
}
use electricity.Wire.{Cryptobyte}
use electricity.Wire.Build.{◌⊕◌, ⊕-eq-some, read_prefixed-put_prefixed}

abbrev pub Handler {ℓ} : Type ℓ → Type ℓ
Handler M = ℕ → List ℕ → List ℕ → M → Outcome (M × List ℕ)

-- `if b { … }` around the call that adds an extension.
abbrev pub optional : Bool → Option (List ℕ) → Option (List ℕ)
optional b e = if b then e else some []

module _ (cb : Cryptobyte) where
  open cb use {
    put, put_prefixed, read, read_prefixed, length-put, read-put, read_advances,
    read_prefixed_advances,
  }

  -- `b.AddUint16(ext)` and `b.AddUint16LengthPrefixed(…)` over `body`.
  abbrev pub extension : ℕ → Option (List ℕ) → Option (List ℕ)
  extension ext body = some (put 2 ext) ⊕ bind? body (put_prefixed 2)

  -- `b.AddUint16(ext)` and `b.AddUint16(0)`, an extension with no data.
  abbrev pub flag : ℕ → Option (List ℕ)
  flag ext = some (put 2 ext ++ put 2 0)

  -- `for !extensions.Empty() { … }`; each round reads four bytes at least and costs a unit of fuel.
  unfoldable pub extension_loop {ℓ} : {M : Type ℓ} → ℕ → Handler M → List ℕ → M → Outcome M
  extension_loop fuel handle [] m = ok m
  extension_loop zero handle (b ∷ s) m = stuck
  extension_loop (suc fuel) handle (b ∷ s) m = do
    (ext, s₁) ← lift (read 2 (b ∷ s))
    (ext_data, s₂) ← lift (read_prefixed 2 s₁)
    (m', left) ← handle ext ext_data s₂ m
    guard (is_empty left)
    extension_loop fuel handle s₂ m'

  abbrev pub read_extensions {ℓ} : {M : Type ℓ} → Handler M → List ℕ → M → Outcome M
  read_extensions handle s m = extension_loop (length s) handle s m

  module _ {ℓ} {M : Type ℓ} (handle : Handler M) where
    extension_loop-ne-stuck :
        ((ext : ℕ) (d s : List ℕ) (m : M) → handle ext d s m ≢ stuck)
        → (fuel : ℕ) (s : List ℕ) (m : M) → length s ≤ fuel
        → extension_loop fuel handle s m ≢ stuck
    unfolding extension_loop
    extension_loop-ne-stuck total fuel [] m h = λ e. cc
    extension_loop-ne-stuck total zero (b ∷ s) m h = absurd (omega arith)
    extension_loop-ne-stuck total (suc fuel) (b ∷ s) m h = elim (Option-cases (read 2 (b ∷ s))) [
      | inl e ↦ rw e (λ x. cc)
      | inr ((ext, s₁), e) ↦ rw e (elim (Option-cases (read_prefixed 2 s₁)) [
        | inl e₁ ↦ rw e₁ (λ x. cc)
        | inr ((d, s₂), e₁) ↦ rw e₁ (
            >>=-ne-stuck _ _ (total ext d s₂ m) λ (m', left) _. after left m' s₂ (
              extension_loop-ne-stuck total fuel s₂ m'
                (omega (arith, read_advances 2 _ _ _ e, read_prefixed_advances 2 _ _ _ e₁))))
      ])
    ]
      where
        after :
            (left : List ℕ) (m' : M) (s₂ : List ℕ)
            → extension_loop fuel handle s₂ m' ≢ stuck
            → (guard (is_empty left) >> extension_loop fuel handle s₂ m') ≢ stuck
        after [] m' s₂ n = n
        after (x ∷ xs) m' s₂ n = λ e. cc

    -- The loop ends within its fuel on every block, if the handler returns.
    pub read_extensions-ne-stuck :
        ((ext : ℕ) (d s : List ℕ) (m : M) → handle ext d s m ≢ stuck)
        → (s : List ℕ) (m : M) → read_extensions handle s m ≢ stuck
    read_extensions-ne-stuck total s m = extension_loop-ne-stuck total (length s) s m (omega arith)

  -- With a unit of fuel for each byte, the loop turns `m` into `m'` over the block `s`.
  abbrev pub Extends {ℓ} : {M : Type ℓ} → Handler M → List ℕ → M → M → Type ℓ
  Extends handle s m m' = (fuel : ℕ) → length s ≤ fuel → extension_loop fuel handle s m ≡ ok m'

  module _ {ℓ} {M : Type ℓ} (handle : Handler M) where
    pub Extends-nil : (m : M) → Extends handle [] m m
    unfolding extension_loop
    Extends-nil m zero h = refl
    Extends-nil m (suc fuel) h = refl

    round :
        (fuel ext : ℕ) (b : ℕ) (s s₁ s₂ d : List ℕ) (m m₁ : M)
        → read 2 (b ∷ s) ≡ some (ext, s₁)
        → read_prefixed 2 s₁ ≡ some (d, s₂)
        → handle ext d s₂ m ≡ ok (m₁, [])
        → extension_loop (suc fuel) handle (b ∷ s) m ≡ extension_loop fuel handle s₂ m₁
    unfolding extension_loop
    round fuel ext b s s₁ s₂ d m m₁ e e₁ h = rw (e, e₁, h)

    -- One written extension that its handler takes whole.
    pub Extends-extension :
        (ext : ℕ) (body : Option (List ℕ)) (out rest : List ℕ) (m m₁ m' : M)
        → ext < 65536
        → extension ext body ≡ some out
        → ((d : List ℕ) → body ≡ some d → handle ext d rest m ≡ ok (m₁, []))
        → Extends handle rest m₁ m'
        → Extends handle (out ++ rest) m m'
    Extends-extension ext body out rest m m₁ m' small built h k fuel n =
        let (x, y, p, q, e) = ⊕-eq-some (some (put 2 ext)) (bind? body (put_prefixed 2)) built in
        let (d, b, f) = bind?-eq-some body (put_prefixed 2) q in
        let e' : out ++ rest ≡ put 2 ext ++ (y ++ rest) = rw e (ap_head x y p) in
        start (out ++ rest) fuel d (y ++ rest) (rw e' (read-put 2 ext (y ++ rest) small))
          (read_prefixed-put_prefixed cb 2 d y rest f) (h d b) n
          (omega (
            arith,
            length-append x y,
            length-append out rest,
            ap_len e,
            length-put 2 ext,
            ap_len (some_inj p),
          ))
      where
        some_inj : {a b : List ℕ} → some a ≡ some b → a ≡ b
        some_inj e = cc

        ap_len : {a b : List ℕ} → a ≡ b → length a ≡ length b
        ap_len e = cc

        ap_head :
            (x y : List ℕ) → some (put 2 ext) ≡ some x → (x ++ y) ++ rest ≡ put 2 ext ++ (y ++ rest)
        ap_head x y p = rw (some_inj p) (append_assoc x y rest)

        start :
            (s : List ℕ) (fuel : ℕ) (d s₁ : List ℕ)
            → read 2 s ≡ some (ext, s₁)
            → read_prefixed 2 s₁ ≡ some (d, rest)
            → handle ext d rest m ≡ ok (m₁, [])
            → length s ≤ fuel
            → length rest < length s
            → extension_loop fuel handle s m ≡ ok m'
        start [] fuel d s₁ r r₁ hd n lt = absurd (omega arith)
        start (b ∷ s) zero d s₁ r r₁ hd n lt = absurd (omega arith)
        start (b ∷ s) (suc fuel) d s₁ r r₁ hd n lt =
            round fuel ext b s s₁ rest d m m₁ r r₁ hd ∙ k fuel (omega arith)

    -- An extension under a condition: where it is not written, the message is as if it were read.
    pub Extends-optional :
        (b : Bool) (ext : ℕ) (body : Option (List ℕ)) (out rest : List ℕ) (m m₁ m' : M)
        → ext < 65536
        → optional b (extension ext body) ≡ some out
        → (b ≡ true → (d : List ℕ) → body ≡ some d → handle ext d rest m ≡ ok (m₁, []))
        → (b ≡ false → m ≡ m₁)
        → Extends handle rest m₁ m'
        → Extends handle (out ++ rest) m m'
    Extends-optional true ext body out rest m m₁ m' small built h same k =
        Extends-extension ext body out rest m m₁ m' small built (h refl) k
    Extends-optional false ext body out rest m m₁ m' small built h same k =
        let e : out ≡ [] = cc in rw (e, same refl) k
