-- ===== src/Reality/Value.antt =====
-- tls.go: `Value`, the big-endian number of a few bytes, by which versions and record lengths are
-- compared.
use electricity.Common.{
  ℕ, zero, suc, ◌+◌, ◌*◌, ◌%◌, ◌^◌, ◌≤◌, ◌<◌, ◌≡◌, List, [], ◌∷◌, length, All, arith, bit_or, Bool,
  true, false, ltb, leb, if◌then◌else◌, ap, ◌∙◌,
}
use electricity.Common.Bits.{bit_or_disjoint}
use native.Mathlib.Numerals.{towards_suc}
use native.Mathlib.Nat.{pow-suc}

-- `value |= int(val) << ((len(vals) - i - 1) * 8)`, on the 64 bits of an int.
unfoldable pub value_loop : ℕ → List ℕ → ℕ
value_loop acc [] = acc
value_loop acc (b ∷ bs) = value_loop (bit_or acc (b * 2 ^ (length bs * 8) % 2 ^ 64)) bs

unfoldable pub value : List ℕ → ℕ
unfolding value_loop
value vals = value_loop 0 vals

-- `<=` on the ints that two 64-bit words stand for: a word with its top bit set is negative.
abbrev pub int_leb : ℕ → ℕ → Bool
int_leb a b = leb ((a + 2 ^ 63) % 2 ^ 64) ((b + 2 ^ 63) % 2 ^ 64)

abbrev pub IsByte : ℕ → Type 0
IsByte b = b < 256

-- The number that the bytes stand for, most significant first.
abbrev pub big_endian : List ℕ → ℕ
big_endian [] = 0
big_endian (b ∷ bs) = b * 2 ^ (length bs * 8) + big_endian bs

pub pow_byte : (n : ℕ) → 2 ^ (suc n * 8) ≡ 256 * 2 ^ (n * 8)
pow_byte n = let e : suc n * 8 ≡ n * 8 + 8 = omega arith in rw e (simp towards_suc (omega arith))

pow_word : (n : ℕ) → n ≤ 6 → 256 * 2 ^ (n * 8) ≤ 2 ^ 64
pow_word zero h = omega arith
pow_word (suc zero) h = omega arith
pow_word (suc (suc zero)) h = omega arith
pow_word (suc (suc (suc zero))) h = omega arith
pow_word (suc (suc (suc (suc zero)))) h = omega arith
pow_word (suc (suc (suc (suc (suc zero))))) h = omega arith
pow_word (suc (suc (suc (suc (suc (suc zero)))))) h = omega arith
pow_word (suc (suc (suc (suc (suc (suc (suc n))))))) h = absurd (omega arith)

pow_pos : (n : ℕ) → 0 < 2 ^ n
pow_pos zero = omega arith
pow_pos (suc n) = omega (arith, pow-suc 2 n, pow_pos n)

shifted_fits : (b n : ℕ) → b < 256 → b * 2 ^ (n * 8) < 256 * 2 ^ (n * 8)
shifted_fits b n h = grind (arith, pow_pos (n * 8))

value_loop-big_endian :
    (p : ℕ) (bs : List ℕ)
    → All IsByte bs
    → length bs ≤ 7
    → value_loop (p * 2 ^ (length bs * 8)) bs ≡ p * 2 ^ (length bs * 8) + big_endian bs
unfolding value_loop
value_loop-big_endian p [] bytes short = omega arith
value_loop-big_endian p (b ∷ bs) (byte, bytes) short =
    let n = length bs in
    let x = b * 2 ^ (n * 8) in
    let fits : x < 256 * 2 ^ (n * 8) = shifted_fits b n byte in
    let in_word : x % 2 ^ 64 ≡ x = omega (arith, pow_word n (omega arith)) in
    let joined : bit_or (p * 2 ^ (suc n * 8)) x ≡ (p * 256 + b) * 2 ^ (n * 8) =
      bit_or_disjoint (suc n * 8) p x (omega (arith, pow_byte n, fits))
      ∙ omega (arith, ap (λ (t : ℕ). p * t) (pow_byte n)) in
    rw (in_word, joined)
      (value_loop-big_endian (p * 256 + b) bs bytes (omega arith)
        ∙ omega (arith, ap (λ (t : ℕ). p * t) (pow_byte n)))

-- `Value` of up to seven bytes is their big-endian number: no bits meet, and none is lost.
pub value-big_endian :
    (vals : List ℕ) → All IsByte vals → length vals ≤ 7 → value vals ≡ big_endian vals
unfolding value
value-big_endian vals bytes short =
    let none : 0 * 2 ^ (length vals * 8) ≡ 0 = omega arith in
    rw none at (value_loop-big_endian 0 vals bytes short) ∙ omega arith

pub big_endian-lt : (vals : List ℕ) → All IsByte vals → big_endian vals < 2 ^ (length vals * 8)
big_endian-lt [] _ = omega arith
big_endian-lt (b ∷ bs) (byte, bytes) =
    let n = length bs in
    let t = 2 ^ (n * 8) in
    let room : (b + 1) * t ≤ 256 * t = grind arith in
    omega (arith, room, big_endian-lt bs bytes, pow_byte n)

-- The dotted order on versions: the first byte that differs decides.
abbrev pub lex_leb : List ℕ → List ℕ → Bool
lex_leb [] bs = true
lex_leb (a ∷ as₁) [] = false
lex_leb (a ∷ as₁) (b ∷ bs) = if ltb a b then true else if ltb b a then false else lex_leb as₁ bs

digit-lt : (x y r t : ℕ) → x < y → r < t → x * t + r < y * t
digit-lt x y r t h k = let next : (x + 1) * t ≤ y * t = grind arith in omega (arith, next)

leb_digits :
    (x y r s t : ℕ)
    → r < t
    → s < t
    → leb (x * t + r) (y * t + s) ≡ (if ltb x y then true else if ltb y x then false else leb r s)
leb_digits x y r s t hr hs = ground (arith, digit-lt x y r t, digit-lt y x s t)

big_endian-leb :
    (xs ys : List ℕ)
    → All IsByte xs
    → All IsByte ys
    → length xs ≡ length ys
    → leb (big_endian xs) (big_endian ys) ≡ lex_leb xs ys
big_endian-leb [] ys bx by_ same = ground arith
big_endian-leb (x ∷ xs) [] bx by_ same = absurd (omega arith)
big_endian-leb (x ∷ xs) (y ∷ ys) (byte_x, bx) (byte_y, by_) same =
    let e : length ys ≡ length xs = omega arith in
    let small : big_endian ys < 2 ^ (length xs * 8) = rw e at (big_endian-lt ys by_) in
    rw (e, ← big_endian-leb xs ys bx by_ (omega arith))
      (leb_digits x y (big_endian xs) (big_endian ys) (2 ^ (length xs * 8)) (big_endian-lt xs bx)
        small)

-- Comparing two versions of the same number of parts, at most seven, by `Value` is comparing them
-- part by part.
pub leb-value :
    (xs ys : List ℕ)
    → All IsByte xs
    → All IsByte ys
    → length xs ≡ length ys
    → length xs ≤ 7
    → leb (value xs) (value ys) ≡ lex_leb xs ys
leb-value xs ys bx by_ same short =
    rw (value-big_endian xs bx short, value-big_endian ys by_ (omega arith))
      (big_endian-leb xs ys bx by_ same)
