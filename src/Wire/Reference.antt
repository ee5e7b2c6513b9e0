-- ===== src/Wire/Reference.antt =====
-- A concrete byte string module with the documented behaviour: the assumptions can be met, and the
-- tests run on it.
use electricity.Common.{
  ℕ, zero, suc, ◌+◌, ◌*◌, ◌/◌, ◌%◌, ◌^◌, ◌<◌, ◌≡◌, refl, ap, Option, none, some, List, [], ◌∷◌,
  ◌++◌, arith, length, ltb, if◌then◌else◌, bind?, inl, inr, Option-cases,
}
use electricity.Wire.{Cryptobyte}
use native.Mathlib.Nat.{div-add-mod, mod-lt, pow-suc, mul_comm}

-- Big-endian digits.
unfoldable pub put : ℕ → ℕ → List ℕ
put zero v = []
put (suc w) v = (v / 256 ^ w) ∷ put w (v % 256 ^ w)

unfoldable pub read : ℕ → List ℕ → Option (ℕ × List ℕ)
read zero s = some (0, s)
read (suc w) [] = none
read (suc w) (b ∷ s) = bind? (read w s) λ (v, rest). some (b * 256 ^ w + v, rest)

unfoldable pub read_bytes : ℕ → List ℕ → Option (List ℕ × List ℕ)
read_bytes zero s = some ([], s)
read_bytes (suc n) [] = none
read_bytes (suc n) (b ∷ s) = bind? (read_bytes n s) λ (a, rest). some (b ∷ a, rest)

unfoldable pub skip : ℕ → List ℕ → Option (List ℕ)
skip n s = bind? (read_bytes n s) λ (_, rest). some rest

unfoldable pub read_prefixed : ℕ → List ℕ → Option (List ℕ × List ℕ)
read_prefixed w s = bind? (read w s) λ (n, rest). read_bytes n rest

unfoldable pub put_prefixed : ℕ → List ℕ → Option (List ℕ)
put_prefixed w body =
    if ltb (length body) (256 ^ w) then some (put w (length body) ++ body) else none

pub length-put : (w v : ℕ) → length (put w v) ≡ w
unfolding put
length-put zero v = refl
length-put (suc w) v = ap suc (length-put w (v % 256 ^ w))

pow_pos : (w : ℕ) → 0 < 256 ^ w
pow_pos zero = omega arith
pow_pos (suc w) = rw (pow-suc 256 w) (omega (arith, pow_pos w))

pub read-put : (w v : ℕ) (rest : List ℕ) → v < 256 ^ w → read w (put w v ++ rest) ≡ some (v, rest)
unfolding read put
read-put zero v rest h = let e : v ≡ 0 = omega arith in rw e
read-put (suc w) v rest h =
    rw (read-put w (v % 256 ^ w) rest (mod-lt _ (pow_pos w)))
      (ground (arith, div-add-mod v (256 ^ w), mul_comm (256 ^ w) (v / 256 ^ w)))

pub read_bytes-append :
    (n : ℕ) (a rest : List ℕ) → length a ≡ n → read_bytes n (a ++ rest) ≡ some (a, rest)
unfolding read_bytes
read_bytes-append zero [] rest h = refl
read_bytes-append zero (x ∷ a) rest h = absurd (omega arith)
read_bytes-append (suc n) [] rest h = absurd (omega arith)
read_bytes-append (suc n) (x ∷ a) rest h = rw (read_bytes-append n a rest (omega arith))

pub read_advances :
    (w : ℕ) (s rest : List ℕ) (v : ℕ) → read w s ≡ some (v, rest) → length rest + w ≡ length s
unfolding read
read_advances zero s rest v h = ground arith
read_advances (suc w) [] rest v h = cc
read_advances (suc w) (b ∷ s) rest v h = grind (arith, read_advances w s)

read_bytes_advances :
    (n : ℕ) (s a rest : List ℕ)
    → read_bytes n s ≡ some (a, rest)
    → (length rest + n ≡ length s) × (length a ≡ n)
unfolding read_bytes
read_bytes_advances zero s a rest h = ground arith
read_bytes_advances (suc n) [] a rest h = cc
read_bytes_advances (suc n) (b ∷ s) a rest h = elim (Option-cases (read_bytes n s)) [
  | inl e ↦ ground arith
  | inr ((a', rest'), e) ↦ ground (arith, read_bytes_advances n s a' rest' e)
]

pub read_prefixed_advances :
    (w : ℕ) (s a rest : List ℕ)
    → read_prefixed w s ≡ some (a, rest)
    → length rest + length a + w ≡ length s
unfolding read_prefixed
read_prefixed_advances w s a rest h = elim (Option-cases (read w s)) [
  | inl e ↦ ground arith
  | inr ((n, rest'), e) ↦
      ground (arith, read_advances w s rest' n e, read_bytes_advances n rest' a rest)
]

pub read_prefixed-put :
    (w : ℕ) (body rest : List ℕ)
    → length body < 256 ^ w
    → read_prefixed w (put w (length body) ++ (body ++ rest)) ≡ some (body, rest)
unfolding read_prefixed
read_prefixed-put w body rest h =
    rw (read-put w (length body) (body ++ rest) h) (read_bytes-append (length body) body rest refl)

pub put_prefixed_eq :
    (w : ℕ) (body out : List ℕ)
    → put_prefixed w body ≡ some out
    → (length body < 256 ^ w) × (out ≡ put w (length body) ++ body)
unfolding put_prefixed
put_prefixed_eq w body out h = ground arith

pub put_prefixed_fits :
    (w : ℕ) (body : List ℕ)
    → length body < 256 ^ w
    → put_prefixed w body ≡ some (put w (length body) ++ body)
unfolding put_prefixed
put_prefixed_fits w body h = ground arith

pub skip-append : (n : ℕ) (a rest : List ℕ) → length a ≡ n → skip n (a ++ rest) ≡ some rest
unfolding skip
skip-append n a rest h = rw (read_bytes-append n a rest h)

abbrev pub cryptobyte : Cryptobyte
cryptobyte = record {
  put = put;
  put_prefixed = put_prefixed;
  skip = skip;
  read = read;
  read_bytes = read_bytes;
  read_prefixed = read_prefixed;
  length-put = length-put;
  read-put = read-put;
  put_prefixed_eq = put_prefixed_eq;
  put_prefixed_fits = put_prefixed_fits;
  read_prefixed-put = read_prefixed-put;
  skip-append = skip-append;
  read_bytes-append = read_bytes-append;
  read_advances = read_advances;
  read_prefixed_advances = read_prefixed_advances;
}
