-- ===== src/Record/Padding/Valid.antt =====
-- conn.go: `extractPadding` against a plain description of valid padding.
use electricity.Common.{
  ℕ, zero, suc, ◌+◌, ◌-◌, ◌^◌, ◌≤◌, ◌<◌, ◌≡◌, refl, ap, sym, ◌∙◌, Bool, true, false, ◌&&◌, ◌||◌,
  ◌==◌, ==_iff, List, [], ◌∷◌, ltb, bit_and, bit_xor, length, get_or, if◌then◌else◌, All, arith,
  Bool-cases, inl, inr,
}
use electricity.Common.Tables.{all_below, passes}
use electricity.Reality.Value.{IsByte}
use electricity.Record.Padding.{msb_mask, uint_sub, check_loop, fold_good, extract_padding}

same_test : Bool → Bool → Bool
same_test true b = b
same_test false true = false
same_test false false = true

same_test_eq : (a b : Bool) → same_test a b ≡ true → a ≡ b
unfolding same_test
same_test_eq true b h = sym h
same_test_eq false true h = cc
same_test_eq false false h = refl

and_table :
    all_below 256 (λ g. all_below 256 (λ x.
      ltb (bit_and g (255 - x)) 256
      && same_test (bit_and g (255 - x) == 255) ((g == 255) && (x == 0))))
    ≡ true
unfolding all_below same_test
and_table = refl

xor_table :
    all_below 256
      (λ p. all_below 256 (λ b. ltb (bit_xor p b) 256 && same_test (bit_xor p b == 0) (b == p)))
    ≡ true
unfolding all_below same_test
xor_table = refl

mask_table :
    all_below 256 (λ p.
      (bit_and 255 p == p) && ((bit_and 0 p == 0) && (bit_and p 255 == p) && (bit_and p 0 == 0)))
    ≡ true
unfolding all_below
mask_table = refl

fold_table : all_below 256 (λ g. fold_good g == (if g == 255 then 255 else 0)) ≡ true
unfolding all_below fold_good
fold_table = refl

both : (a b : Bool) → (a && b) ≡ true → (a ≡ true) × (b ≡ true)
both true b h = (refl, h)
both false b h = cc

-- One round keeps `good` a byte, and keeps it 255 if the bytes agree.
and_byte :
    (g x : ℕ)
    → g < 256
    → x < 256
    → (bit_and g (255 - x) < 256) × ((bit_and g (255 - x) == 255) ≡ ((g == 255) && (x == 0)))
and_byte g x small small' =
    let row =
      passes 256
        (λ g. all_below 256 (λ x.
          ltb (bit_and g (255 - x)) 256
          && same_test (bit_and g (255 - x) == 255) ((g == 255) && (x == 0))))
        g and_table small in
    let here =
      passes 256
        (λ x.
          ltb (bit_and g (255 - x)) 256
          && same_test (bit_and g (255 - x) == 255) ((g == 255) && (x == 0)))
        x row small' in
    let (less, eq) =
      both (ltb (bit_and g (255 - x)) 256)
        (same_test (bit_and g (255 - x) == 255) ((g == 255) && (x == 0))) here in
    (ground (arith, less), same_test_eq _ _ eq)

xor_byte : (p b : ℕ) → p < 256 → b < 256 → (bit_xor p b < 256) × ((bit_xor p b == 0) ≡ (b == p))
xor_byte p b small small' =
    let row =
      passes 256
        (λ p. all_below 256 (λ b. ltb (bit_xor p b) 256 && same_test (bit_xor p b == 0) (b == p))) p
        xor_table small in
    let here =
      passes 256 (λ b. ltb (bit_xor p b) 256 && same_test (bit_xor p b == 0) (b == p)) b row
        small' in
    let (less, eq) = both (ltb (bit_xor p b) 256) (same_test (bit_xor p b == 0) (b == p)) here in
    (ground (arith, less), same_test_eq _ _ eq)

mask_byte :
    (p : ℕ)
    → p < 256
    → (bit_and 255 p ≡ p) × (bit_and 0 p ≡ 0) × (bit_and p 255 ≡ p) × (bit_and p 0 ≡ 0)
mask_byte p small =
    let here =
      passes 256
        (λ p.
          (bit_and 255 p == p)
          && ((bit_and 0 p == 0) && (bit_and p 255 == p) && (bit_and p 0 == 0)))
        p mask_table small in
    ground (arith, here)

fold_byte : (g : ℕ) → g < 256 → fold_good g ≡ (if g == 255 then 255 else 0)
fold_byte g small =
    (==_iff _ _).0
      (passes 256 (λ g. fold_good g == (if g == 255 then 255 else 0)) g fold_table small)

mask_of :
    (p i : ℕ) → p < 2 ^ 31 → i < 2 ^ 31 → msb_mask (uint_sub p i) ≡ (if ltb p i then 0 else 255)
mask_of p i small small' = ground arith

-- The bytes from the end of the payload, `n` of them from `i` on, that the padding of length `p` covers
-- are all `p`.
unfoldable pub covered_match : List ℕ → ℕ → ℕ → ℕ → Bool
covered_match payload p zero i = true
covered_match payload p (suc n) i =
    (ltb p i || (get_or payload (length payload - 1 - i) 0 == p))
    && covered_match payload p n (i + 1)

get_byte : (l : List ℕ) (i : ℕ) → All IsByte l → get_or l i 0 < 256
get_byte [] i h = omega arith
get_byte (x ∷ l) zero (h, hs) = h
get_byte (x ∷ l) (suc i) (h, hs) = get_byte l i hs

round_byte :
    (good p b i : ℕ)
    → good < 256
    → p < 256
    → b < 256
    → i < 2 ^ 31
    → (bit_and good (
          255 - bit_xor (bit_and (msb_mask (uint_sub p i)) p) (bit_and (msb_mask (uint_sub p i)) b))
        < 256)
      × ((bit_and good (
              255
              - bit_xor (bit_and (msb_mask (uint_sub p i)) p) (bit_and (msb_mask (uint_sub p i)) b))
            == 255)
          ≡ ((good == 255) && (ltb p i || (b == p))))
round_byte good p b i small_good small_p small_b small_i =
    let mask = mask_of p i (omega (arith, small_p)) small_i in
    let (p_on, p_off, _, _) = mask_byte p small_p in
    let (b_on, b_off, _, _) = mask_byte b small_b in
    elim (Bool-cases (ltb p i)) [
      | inl past ↦
          let (less, eq) = and_byte good 0 small_good (omega arith) in
          rw (mask, past, p_off, b_off) (less, eq)
      | inr inside ↦
          let (small_x, zero_if) = xor_byte p b small_p small_b in
          let (less, eq) = and_byte good (bit_xor p b) small_good small_x in
          rw (mask, inside, p_on, b_on) (less, eq ∙ ap (λ (t : Bool). (good == 255) && t) zero_if)
    ]

and_assoc : (a b c : Bool) → ((a && b) && c) ≡ (a && (b && c))
and_assoc true b c = refl
and_assoc false b c = refl

and_true : (a : Bool) → (a && true) ≡ a
and_true true = refl
and_true false = refl

check_loop-covered_match :
    (payload : List ℕ) (p n i good : ℕ)
    → All IsByte payload
    → p < 256
    → good < 256
    → i + n < 2 ^ 31
    → (check_loop payload p n i good < 256)
      × ((check_loop payload p n i good == 255) ≡ ((good == 255) && covered_match payload p n i))
unfolding check_loop covered_match
check_loop-covered_match payload p zero i good bytes small_p small_good room =
    (small_good, sym (and_true (good == 255)))
check_loop-covered_match payload p (suc n) i good bytes small_p small_good room =
    let b = get_or payload (length payload - 1 - i) 0 in
    let mask = msb_mask (uint_sub p i) in
    let next = bit_and good (255 - bit_xor (bit_and mask p) (bit_and mask b)) in
    let (less, eq) =
      round_byte good p b i small_good small_p (get_byte payload (length payload - 1 - i) bytes)
        (omega (arith, room)) in
    let (small, rest) =
      check_loop-covered_match payload p n (i + 1) next bytes small_p less (omega (arith, room)) in
    (
      small,
      rest
          ∙ ap (λ (t : Bool). t && covered_match payload p n (i + 1)) eq
          ∙ and_assoc (good == 255) (ltb p i || (b == p)) (covered_match payload p n (i + 1)),
    )

-- Rounds behind the padding change nothing.
covered_match-past : (payload : List ℕ) (p n i : ℕ) → p < i → covered_match payload p n i ≡ true
unfolding covered_match
covered_match-past payload p zero i past = refl
covered_match-past payload p (suc n) i past =
    ground (arith, past, covered_match-past payload p n (i + 1) (omega (arith, past)))

-- The last `n` bytes from `i` on are all `p`.
unfoldable pub all_match : List ℕ → ℕ → ℕ → ℕ → Bool
all_match payload p zero i = true
all_match payload p (suc n) i =
    (get_or payload (length payload - 1 - i) 0 == p) && all_match payload p n (i + 1)

covered_match-all_match :
    (payload : List ℕ) (p n more i : ℕ)
    → i + n ≡ p + 1
    → covered_match payload p (n + more) i ≡ all_match payload p n i
unfolding covered_match all_match
covered_match-all_match payload p zero more i top =
    let past : p < i = omega (arith, top) in
    let none_left : zero + more ≡ more = omega arith in
    rw (none_left) (covered_match-past payload p more i past)
covered_match-all_match payload p (suc n) more i top =
    let step : suc n + more ≡ suc (n + more) = omega arith in
    let inside : ltb p i ≡ false = ground (arith, top) in
    rw (step, inside)
      (ap (λ (t : Bool). (get_or payload (length payload - 1 - i) 0 == p) && t)
        (covered_match-all_match payload p n more (i + 1) (omega (arith, top))))

-- Valid padding: the payload has more bytes than its last byte says, and so many before the last are
-- equal to it.
abbrev pub is_padded : List ℕ → Bool
is_padded payload =
    let p = get_or payload (length payload - 1) 0 in
    if ltb p (length payload) then all_match payload p (p + 1) 0 else false

fold_good-check_loop :
    (payload : List ℕ) (p n start : ℕ)
    → All IsByte payload
    → p < 256
    → start < 256
    → n < 2 ^ 31
    → fold_good (check_loop payload p n 0 start)
      ≡ (if (start == 255) && covered_match payload p n 0 then 255 else 0)
fold_good-check_loop payload p n start bytes small small_start few =
    let (less, eq) =
      check_loop-covered_match payload p n 0 start bytes small small_start (omega (arith, few)) in
    fold_byte (check_loop payload p n 0 start) less
    ∙ ap (λ (t : Bool). let r : ℕ = if t then 255 else 0 in r) eq

good_eq :
    (payload : List ℕ) (p n : ℕ)
    → All IsByte payload
    → p < 256
    → 0 < length payload
    → length payload < 2 ^ 31
    → n ≡ (if ltb (length payload) 256 then length payload else 256)
    → fold_good (check_loop payload p n 0 (msb_mask (uint_sub (length payload - 1) p))) ≡ (
        if (if ltb p (length payload) then all_match payload p (p + 1) 0 else false)
        then 255
        else 0)
good_eq payload p n bytes small some_bytes long rounds =
    let first = mask_of (length payload - 1) p (omega (arith, long)) (omega (arith, small)) in
    let few : n < 2 ^ 31 = ground (arith, rounds, long) in
    elim (Bool-cases (ltb p (length payload))) [
      | inl room ↦
          let start : ltb (length payload - 1) p ≡ false = ground (arith, room) in
          let enough : p + 1 ≤ n = ground (arith, rounds, room, small) in
          let more = n - (p + 1) in
          let split : n ≡ (p + 1) + more = omega (arith, enough) in
          let match_ : covered_match payload p n 0 ≡ all_match payload p (p + 1) 0 =
            ap (λ m. covered_match payload p m 0) split
            ∙ covered_match-all_match payload p (p + 1) more 0 (omega arith) in
          rw (first, start, room)
            (fold_good-check_loop payload p n 255 bytes small (omega arith) few
              ∙ ap (λ (t : Bool). let r : ℕ = if t then 255 else 0 in r) match_)
      | inr none_left ↦
          let start : ltb (length payload - 1) p ≡ true = ground (arith, none_left, some_bytes) in
          rw (first, start, none_left)
            (fold_good-check_loop payload p n 0 bytes small (omega arith) few)
    ]

result_eq :
    (p good : ℕ) (valid : Bool)
    → p < 256
    → good ≡ (if valid then 255 else 0)
    → ◌≡◌ {A = ℕ × ℕ} (bit_and p good + 1, good) (if valid then (p + 1, 255) else (1, 0))
result_eq p good true small h = let (_, _, on, off) = mask_byte p small in rw (h, on) refl
result_eq p good false small h = let (_, _, on, off) = mask_byte p small in rw (h, off) refl

-- On a payload of bytes that is not empty, `extractPadding` says 255 exactly where the padding is valid,
-- and then the length of the padding with its length byte; else it says 0, and 1 for the length.
pub extract_padding-is_padded :
    (b : ℕ) (bs : List ℕ)
    → All IsByte (b ∷ bs)
    → length (b ∷ bs) < 2 ^ 31
    → extract_padding (b ∷ bs)
      ≡ (if is_padded (b ∷ bs) then (get_or (b ∷ bs) (length (b ∷ bs) - 1) 0 + 1, 255) else (1, 0))
unfolding extract_padding
extract_padding-is_padded b bs bytes long =
    let payload = b ∷ bs in
    let p = get_or payload (length payload - 1) 0 in
    let small = get_byte payload (length payload - 1) bytes in
    let n = if ltb (length payload) 256 then length payload else 256 in
    result_eq p (fold_good (check_loop payload p n 0 (msb_mask (uint_sub (length payload - 1) p))))
      (is_padded payload) small (good_eq payload p n bytes small (omega arith) long refl)
