-- ===== src/Record/Seq.antt =====
-- conn.go: `incSeq`, the 64-bit sequence number that the AEAD nonces come from.
use electricity.Common.{
  ℕ, zero, suc, ◌+◌, ◌*◌, ◌%◌, ◌^◌, ◌<◌, ◌≡◌, ◌↔◌, inl, inr, refl, ap, ◌∙◌, Option, none, some,
  List, [], ◌∷◌, ◌==◌, not, length, length-replicate, get_or, set, replicate, All, if◌then◌else◌,
  arith, bind?, bind?-eq-some, Bool-cases,
}
use electricity.Reality.Value.{IsByte, big_endian, pow_byte, big_endian-lt}

-- `for i := 7; i >= 0; i--`, from `i - 1` down. Where the loop ends without a return the code
-- panics: `none`.
unfoldable pub inc_from : ℕ → List ℕ → Option (List ℕ)
inc_from zero seq = none
inc_from (suc i) seq =
    let seq' = set seq i ((get_or seq i 0 + 1) % 256) in
    let rest = inc_from i seq' in if not (get_or seq' i 0 == 0) then some seq' else rest

unfoldable pub inc_seq : List ℕ → Option (List ℕ)
unfolding inc_from
inc_seq seq = inc_from 8 seq

-- The bytes as the loop leaves them when every one of them wraps.
bump : ℕ → List ℕ → List ℕ
bump zero seq = seq
bump (suc i) seq = bump i (set seq i ((get_or seq i 0 + 1) % 256))

carry : List ℕ → ℕ → Option (List ℕ) → Option (List ℕ)
carry rest b (some t) = some (b ∷ t)
carry rest b none = inc_from 1 (b ∷ rest)

inc_from-cons :
    (i b : ℕ) (bs : List ℕ) → inc_from (suc i) (b ∷ bs) ≡ carry (bump i bs) b (inc_from i bs)
unfolding inc_from bump carry
inc_from-cons zero b bs = refl
inc_from-cons (suc i) b bs =
    let v : ℕ = (get_or bs i 0 + 1) % 256 in
    elim (Bool-cases (not (get_or (set bs i v) i 0 == 0))) [
      | inl e ↦ rw (e) refl
      | inr e ↦ rw (e) (inc_from-cons i b (set bs i v))
    ]

bump-cons : (i b : ℕ) (bs : List ℕ) → bump (suc i) (b ∷ bs) ≡ bump 1 (b ∷ bump i bs)
unfolding bump
bump-cons zero b bs = refl
bump-cons (suc i) b bs = bump-cons i b (set bs i ((get_or bs i 0 + 1) % 256))

big_endian-zeros : (n : ℕ) → big_endian (replicate n 0) ≡ 0
big_endian-zeros zero = refl
big_endian-zeros (suc n) = omega (arith, big_endian-zeros n)

All-zeros : (n : ℕ) → All IsByte (replicate n 0)
All-zeros zero = tt
All-zeros (suc n) = (omega arith, All-zeros n)

inc_from_less :
    (b n : ℕ) → b < 255 → inc_from 1 (b ∷ replicate n 0) ≡ some ((b + 1) ∷ replicate n 0)
unfolding inc_from
inc_from_less b n h = let small : (b + 1) % 256 ≡ b + 1 = omega arith in rw (small) (ground arith)

-- The number that follows, or the wrap.
data Counted (bs : List ℕ) : Type 0 where
  counted :
      (t : List ℕ)
      → inc_from (length bs) bs ≡ some t
      → big_endian t ≡ big_endian bs + 1
      → length t ≡ length bs
      → All IsByte t
      → Counted bs
  wrapped :
      inc_from (length bs) bs ≡ none
      → big_endian bs + 1 ≡ 2 ^ (length bs * 8)
      → bump (length bs) bs ≡ replicate (length bs) 0
      → Counted bs

inc_from-Counted : (bs : List ℕ) → All IsByte bs → Counted bs
unfolding inc_from bump carry
inc_from-Counted [] bytes = wrapped refl refl refl
inc_from-Counted (b ∷ bs) (byte, bytes) = elim (inc_from-Counted bs bytes) [
  | counted t e next same small ↦
      counted (b ∷ t) (inc_from-cons (length bs) b bs ∙ rw (e) refl)
        (rw (same) (omega (arith, next))) (ap suc same) (byte, small)
  | wrapped e all_ones zeroed ↦
      let n = length bs in
      let turn : inc_from (suc n) (b ∷ bs) ≡ inc_from 1 (b ∷ replicate n 0) =
        inc_from-cons n b bs ∙ rw (e, zeroed) refl in
      let long : length (replicate {A = ℕ} n 0) ≡ n = length-replicate {A = ℕ} n 0 in
      elim (Bool-cases (b == 255)) [
        | inr less ↦
            counted ((b + 1) ∷ replicate n 0) (turn ∙ inc_from_less b n (ground arith))
              (rw (long, big_endian-zeros n) (grind (arith, all_ones))) (ap suc long)
              (ground arith, All-zeros n)
        | inl most ↦
            let top : b ≡ 255 = ground arith in
            wrapped (turn ∙ rw (top) refl) (rw (top) (omega (arith, all_ones, pow_byte n)))
              (bump-cons n b bs ∙ rw (zeroed, top) refl)
      ]
]

-- Below the largest number `incSeq` counts one up, on eight bytes; at the largest it panics, and only
-- there.
pub inc_seq-big_endian :
    (seq : List ℕ)
    → All IsByte seq
    → length seq ≡ 8
    → ((inc_seq seq ≡ none) ↔ (big_endian seq + 1 ≡ 2 ^ 64))
      × ((next : List ℕ)
          → inc_seq seq ≡ some next
          → (big_endian next ≡ big_endian seq + 1) × (length next ≡ 8) × All IsByte next)
unfolding inc_seq
inc_seq-big_endian seq bytes long = elim (inc_from-Counted seq bytes) [
  | counted t e next same small ↦
      let here : inc_from 8 seq ≡ some t = rw long at e in
      (
        (
          (λ h. cc),
          (λ h. absurd (
              let wide : length t ≡ 8 = same ∙ long in
              let room : big_endian t < 2 ^ 64 = rw wide at (big_endian-lt t small) in
              omega (arith, h, next, room))),
        ),
        (λ u h. let same_t : u ≡ t = ground arith in rw (same_t) (next, same ∙ long, small)),
      )
  | wrapped e all_ones zeroed ↦
      let here : inc_from 8 seq ≡ none = rw long at e in
      (((λ _. rw long at all_ones), (λ _. here)), (λ u h. cc))
]

-- The sequence number after `n` records.
unfoldable pub seq_after : ℕ → List ℕ → Option (List ℕ)
seq_after zero seq = some seq
seq_after (suc n) seq = bind? (seq_after n seq) inc_seq

pub seq_after-counts :
    (n : ℕ) (seq : List ℕ)
    → seq_after n (replicate 8 0) ≡ some seq
    → (big_endian seq ≡ n) × (length seq ≡ 8) × All IsByte seq
unfolding seq_after
seq_after-counts zero seq h =
    let here : seq ≡ replicate 8 0 = cc in rw (here) (refl, refl, All-zeros 8)
seq_after-counts (suc n) seq h =
    let (before, e, step) = bind?-eq-some (seq_after n (replicate 8 0)) inc_seq h in
    let (count, long, bytes) = seq_after-counts n before e in
    let (_, next) = inc_seq-big_endian before bytes long in
    let (up, long', bytes') = next seq step in (omega (arith, up, count), long', bytes')

-- After a key change, which sets the number to zero, no sequence number comes twice.
pub seq_after-injective :
    (n m : ℕ) (seq : List ℕ)
    → seq_after n (replicate 8 0) ≡ some seq
    → seq_after m (replicate 8 0) ≡ some seq
    → n ≡ m
seq_after-injective n m seq h k =
    let (count, _, _) = seq_after-counts n seq h in
    let (count', _, _) = seq_after-counts m seq k in omega (arith, count, count')
