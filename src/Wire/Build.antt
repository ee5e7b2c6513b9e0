-- ===== src/Wire/Build.antt =====
-- The way the messages are put together: bytes in sequence, where the first error is kept, and
-- the header of a handshake message.
use electricity.Common.{
  ℕ, ◌+◌, ◌<◌, ◌^◌, ◌≡◌, refl, append-nil, false, Option, none, some, List, [], ◌∷◌, ◌++◌,
  append_assoc, arith, length, length-append, is_empty, bind?, bind?-eq-some,
}
use electricity.Wire.{Cryptobyte}

infixr 60 ◌⊕◌
abbrev pub ◌⊕◌ : Option (List ℕ) → Option (List ℕ) → Option (List ℕ)
a ⊕ b = bind? a λ x. bind? b λ y. some (x ++ y)

pub ⊕-eq-some :
    (a b : Option (List ℕ)) {out : List ℕ}
    → (a ⊕ b) ≡ some out
    → (x : List ℕ) × (y : List ℕ) × (a ≡ some x) × (b ≡ some y) × (out ≡ x ++ y)
⊕-eq-some none b h = cc
⊕-eq-some (some x) none h = cc
⊕-eq-some (some x) (some y) h = (x, y, refl, refl, cc)

-- `for _, a := range as { … }`, each round adding `enc a`.
abbrev pub build_list {ℓ} : {A : Type ℓ} → (A → Option (List ℕ)) → List A → Option (List ℕ)
build_list enc [] = some []
build_list enc (a ∷ as₁) = enc a ⊕ build_list enc as₁

module _ (cb : Cryptobyte) where
  open cb use {
    put, put_prefixed, skip, read_prefixed, length-put, put_prefixed_eq, read_prefixed-put,
    skip-append,
  }

  -- `b.AddUint8(typ)` and `b.AddUint24LengthPrefixed(…)` over `body`.
  abbrev pub message : ℕ → Option (List ℕ) → Option (List ℕ)
  message typ body = some (put 1 typ) ⊕ bind? body (put_prefixed 3)

  -- What `message` returns: the type, the length and the body.
  pub message_eq :
      (typ : ℕ) (body : Option (List ℕ)) {out : List ℕ}
      → message typ body ≡ some out
      → (bs : List ℕ) × (body ≡ some bs)
        × (length bs < 256 ^ 3)
        × (out ≡ put 1 typ ++ (put 3 (length bs) ++ bs))
  message_eq typ body h =
      let (x, y, p, q, e) = ⊕-eq-some (some (put 1 typ)) (bind? body (put_prefixed 3)) h in
      let (bs, b, f) = bind?-eq-some body (put_prefixed 3) q in
      let (lt, g) = put_prefixed_eq 3 bs y f in (bs, b, lt, cc)

  pub skip_header : (typ n : ℕ) (bs : List ℕ) → skip 4 (put 1 typ ++ (put 3 n ++ bs)) ≡ some bs
  skip_header typ n bs = rw (← append_assoc) (
      skip-append 4 (put 1 typ ++ put 3 n) bs
        (omega (arith, length-append (put 1 typ) (put 3 n), length-put 1 typ, length-put 3 n)))

  -- The two together: the body of a built message is what stands behind its first four bytes.
  pub skip-message :
      (typ : ℕ) (body : Option (List ℕ)) {out : List ℕ}
      → message typ body ≡ some out
      → (bs : List ℕ) × (body ≡ some bs) × (skip 4 out ≡ some bs)
  skip-message typ body h =
      let (bs, b, lt, e) = message_eq typ body h in (bs, b, rw e (skip_header typ (length bs) bs))

  -- A built prefix is read back, whatever follows.
  pub read_prefixed-put_prefixed :
      (w : ℕ) (body out rest : List ℕ)
      → put_prefixed w body ≡ some out
      → read_prefixed w (out ++ rest) ≡ some (body, rest)
  read_prefixed-put_prefixed w body out rest h =
      let (lt, e) = put_prefixed_eq w body out h in
      rw (e, append_assoc) (read_prefixed-put w body rest lt)

  pub length-put_prefixed :
      (w : ℕ) (body out : List ℕ) → put_prefixed w body ≡ some out → length out ≡ w + length body
  length-put_prefixed w body out h =
      let (lt, e) = put_prefixed_eq w body out h in
      rw e (omega (arith, length-append (put w (length body)) body, length-put w (length body)))

  -- A prefixed body at the end of a message is read back with nothing left.
  pub read_prefixed_end :
      (w : ℕ) (body out : List ℕ)
      → put_prefixed w body ≡ some out
      → read_prefixed w out ≡ some (body, [])
  read_prefixed_end w body out h = rw append-nil at (read_prefixed-put_prefixed w body out [] h)

  -- What a prefix writes is not empty.
  pub put_prefixed-ne-empty :
      (w : ℕ) (body out : List ℕ) → 0 < w → put_prefixed w body ≡ some out → is_empty out ≡ false
  put_prefixed-ne-empty w body [] pos h = absurd (omega (arith, length-put_prefixed w body [] h))
  put_prefixed-ne-empty w body (b ∷ out) pos h = refl
