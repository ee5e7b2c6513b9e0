-- ===== src/Common/Bits.antt =====
-- `|` of numbers whose bits do not meet is their sum.
use Prim.Native.Nat.{
  ℕ, zero, suc, ◌+◌, ◌-◌, ◌*◌, ◌/◌, ◌%◌, ◌^◌, ◌≤◌, ◌<◌, max, bit_or, digits, bit_or-bitwise,
}
use mathlib.Core.Path.{◌≡◌, refl, ◌∙◌}
use native.Mathlib.Omega.{arith}
use native.Mathlib.Nat.{pow-suc}

-- What `|` computes, with `fuel` digits of the left number to go.
abbrev join : ℕ → ℕ → ℕ → ℕ
join fuel a b = digits (λ rest. rest) max fuel a b

-- A number below 2 ^ fuel, and so one up to the fuel, leaves fuel over.
join-suc : (fuel a b : ℕ) → a ≤ fuel → join (suc fuel) a b ≡ join fuel a b
join-suc zero a b h = let none : a ≡ 0 = omega arith in rw (none) refl
join-suc (suc fuel) zero b h = refl
join-suc (suc fuel) (suc a) b h =
    let half = suc a / 2 in omega (arith, join-suc fuel half (b / 2) (omega arith))

join_more : (more a b : ℕ) → join (more + a) a b ≡ join a a b
join_more zero a b = let none : 0 + a ≡ a = omega arith in rw (none) refl
join_more (suc more) a b =
    let next : suc more + a ≡ suc (more + a) = omega arith in
    rw (next) (join-suc (more + a) a b (omega arith) ∙ join_more more a b)

-- The lowest binary digit, and the others.
bit_or-suc : (a b : ℕ) → bit_or (suc a) b ≡ bit_or (suc a / 2) (b / 2) * 2 + max (suc a % 2) (b % 2)
bit_or-suc a b =
    let half = suc a / 2 in
    let split : (a - half) + half ≡ a = omega arith in
    let enough : join a half (b / 2) ≡ join half half (b / 2) =
      rw split at (join_more (a - half) half (b / 2)) in
    omega (arith, bit_or-bitwise (suc a) b, bit_or-bitwise half (b / 2), enough)

-- Nothing is joined to 0 from the left.
bit_or-left_zero : (b : ℕ) → bit_or 0 b ≡ b
bit_or-left_zero = bit_or-bitwise 0

split_digit : (a b : ℕ) → bit_or a b ≡ bit_or (a / 2) (b / 2) * 2 + max (a % 2) (b % 2)
split_digit zero b = omega (arith, bit_or-left_zero b, bit_or-left_zero (b / 2))
split_digit (suc a) b = bit_or-suc a b

bit_or-right_zero : (fuel a : ℕ) → a ≤ fuel → bit_or a 0 ≡ a
bit_or-right_zero zero a h = let none : a ≡ 0 = omega arith in rw (none) refl
bit_or-right_zero (suc fuel) a h =
    omega (arith, split_digit a 0, bit_or-right_zero fuel (a / 2) (omega arith))

bit_or_double : (a x : ℕ) → bit_or a (x / 2) ≡ a + x / 2 → bit_or (a * 2) x ≡ a * 2 + x
bit_or_double a x h =
    let half : a * 2 / 2 ≡ a = omega arith in
    let step : bit_or (a * 2) x ≡ bit_or a (x / 2) * 2 + max (a * 2 % 2) (x % 2) =
      rw half at (split_digit (a * 2) x) in
    omega (arith, step, h)

-- The bits of a multiple of 2 ^ n and those of a number below it do not meet.
pub bit_or_disjoint : (n p x : ℕ) → x < 2 ^ n → bit_or (p * 2 ^ n) x ≡ p * 2 ^ n + x
bit_or_disjoint zero p x h =
    let e : x ≡ 0 = omega arith in
    rw e (omega (arith, bit_or-right_zero (p * 2 ^ 0) (p * 2 ^ 0) (omega arith)))
bit_or_disjoint (suc n) p x h =
    let twice : p * 2 ^ suc n ≡ p * 2 ^ n * 2 = rw (pow-suc 2 n) (omega arith) in
    let wide : x < 2 ^ n * 2 = omega (arith, pow-suc 2 n) in
    let small : x / 2 < 2 ^ n = omega arith in
    rw twice (bit_or_double (p * 2 ^ n) x (bit_or_disjoint n p (x / 2) small))
