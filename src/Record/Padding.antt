-- ===== src/Record/Padding.antt =====
-- conn.go: `extractPadding`, which finds a CBC record's padding in constant time.
use electricity.Common.{
  ℕ, zero, suc, ◌+◌, ◌-◌, ◌*◌, ◌%◌, ◌^◌, List, [], ◌∷◌, leb, ltb, bit_and, bit_xor, length, get_or,
  if◌then◌else◌,
}
pub mod Valid

-- `byte(int32(^t) >> 31)` on a 64-bit uint: 255 where bit 31 of `t` is 0.
abbrev pub msb_mask : ℕ → ℕ
msb_mask t = if leb (2 ^ 31) ((2 ^ 64 - 1 - t) % 2 ^ 32) then 255 else 0

-- `uint(a) - uint(b)`
abbrev pub uint_sub : ℕ → ℕ → ℕ
uint_sub a b = (a + (2 ^ 64 - b)) % 2 ^ 64

-- `for i := 0; i < toCheck; i++`, with `n` rounds left, from `i`.
unfoldable pub check_loop : List ℕ → ℕ → ℕ → ℕ → ℕ → ℕ
check_loop payload padding_len zero i good = good
check_loop payload padding_len (suc n) i good =
    let mask = msb_mask (uint_sub padding_len i) in
    let b = get_or payload (length payload - 1 - i) 0 in
    check_loop payload padding_len n (i + 1)
      (bit_and good (255 - bit_xor (bit_and mask padding_len) (bit_and mask b)))

-- The bits of `good` folded into one, and that one repeated: `uint8(int8(good) >> 7)` at the end.
unfoldable pub fold_good : ℕ → ℕ
fold_good good =
    let good₁ = bit_and good (good * 16 % 256) in
    let good₂ = bit_and good₁ (good₁ * 4 % 256) in
    let good₃ = bit_and good₂ (good₂ * 2 % 256) in if leb 128 good₃ then 255 else 0

unfoldable pub extract_padding : List ℕ → ℕ × ℕ
unfolding check_loop fold_good
extract_padding [] = (0, 0)
extract_padding (b ∷ bs) =
    let payload = b ∷ bs in
    let padding_len = get_or payload (length payload - 1) 0 in
    let to_check = if ltb (length payload) 256 then length payload else 256 in
    let good = fold_good (
      check_loop payload padding_len to_check 0
        (msb_mask (uint_sub (length payload - 1) padding_len))) in
    (bit_and padding_len good + 1, good)
