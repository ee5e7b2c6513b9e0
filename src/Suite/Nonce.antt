-- ===== src/Suite/Nonce.antt =====
-- cipher_suites.go: the nonces of the AEAD below, and what the wrappers leave in their buffers.
use electricity.Common.{
  ℕ, zero, suc, ◌≤◌, ◌<◌, ◌≡◌, refl, ap, sym, ◌∙◌, true, ◌==◌, ==_iff, some, List, [], ◌∷◌, ◌++◌,
  bit_xor, get_or, set, take, drop, length, All, arith, replicate, append_assoc, take-append-drop,
  length-take, length-drop, take-append, drop-append, take_all, subst, length-append, drop_all,
  append-nil,
}
use electricity.Common.Tables.{all_below, passes}
use electricity.Reality.Value.{IsByte}
use electricity.Record.Seq.{seq_after, seq_after-injective, seq_after-counts}
use electricity.Suite.Aead.{
  IsBelow, XorNonceAead, PrefixNonceAead, xor_from, xor_mask, xor_seal, xor_open, copy_nonce,
  prefix_seal, prefix_open,
}

xor_table : all_below 256 (λ m. all_below 256 (λ b. bit_xor (bit_xor m b) b == m)) ≡ true
unfolding all_below
xor_table = refl

other_table : all_below 256 (λ m. all_below 256 (λ b. bit_xor (bit_xor m b) m == b)) ≡ true
unfolding all_below
other_table = refl

xor_twice : (m b : ℕ) → m < 256 → b < 256 → bit_xor (bit_xor m b) b ≡ m
xor_twice m b small small' = (==_iff _ m).0 (
    passes 256 (λ b. bit_xor (bit_xor m b) b == m) b
      (passes 256 (λ m. all_below 256 (λ b. bit_xor (bit_xor m b) b == m)) m xor_table small)
      small')

xor_back : (m b : ℕ) → m < 256 → b < 256 → bit_xor (bit_xor m b) m ≡ b
xor_back m b small small' = (==_iff _ b).0 (
    passes 256 (λ b. bit_xor (bit_xor m b) m == b) b
      (passes 256 (λ m. all_below 256 (λ b. bit_xor (bit_xor m b) m == b)) m other_table small)
      small')

zip_xor : List ℕ → List ℕ → List ℕ
zip_xor mask [] = mask
zip_xor [] (b ∷ nonce) = []
zip_xor (m ∷ mask) (b ∷ nonce) = bit_xor m b ∷ zip_xor mask nonce

zip_xor-twice :
    (mask nonce : List ℕ)
    → All IsByte mask
    → All IsByte nonce
    → length nonce ≤ length mask
    → zip_xor (zip_xor mask nonce) nonce ≡ mask
unfolding zip_xor
zip_xor-twice mask [] h k le = refl
zip_xor-twice [] (b ∷ nonce) h k le = absurd (omega arith)
zip_xor-twice (m ∷ mask) (b ∷ nonce) (h, hs) (k, ks) le =
    rw (xor_twice m b h k, zip_xor-twice mask nonce hs ks (omega arith)) refl

zip_xor-injective :
    (mask nonce other : List ℕ)
    → All IsByte mask
    → All IsByte nonce
    → All IsByte other
    → length nonce ≤ length mask
    → length nonce ≡ length other
    → zip_xor mask nonce ≡ zip_xor mask other
    → nonce ≡ other
unfolding zip_xor
zip_xor-injective mask [] [] h k l le same e = refl
zip_xor-injective mask [] (c ∷ other) h k l le same e = absurd (omega arith)
zip_xor-injective mask (b ∷ nonce) [] h k l le same e = absurd (omega arith)
zip_xor-injective [] (b ∷ nonce) (c ∷ other) h k l le same e = absurd (omega arith)
zip_xor-injective (m ∷ mask) (b ∷ nonce) (c ∷ other) (h, hs) (k, ks) (l, ls) le same e =
    let first : bit_xor m b ≡ bit_xor m c = ap (λ xs. get_or xs 0 0) e in
    let same_byte : b ≡ c =
      sym (xor_back m b h k) ∙ ap (λ x. bit_xor x m) first ∙ xor_back m c h l in
    let others =
      zip_xor-injective mask nonce other hs ks ls (omega arith) (omega arith) (ap (drop 1) e) in
    cc

length-zip_xor : (mask nonce : List ℕ) → length (zip_xor mask nonce) ≡ length mask
unfolding zip_xor
length-zip_xor mask [] = refl
length-zip_xor [] (b ∷ nonce) = refl
length-zip_xor (m ∷ mask) (b ∷ nonce) = ap suc (length-zip_xor mask nonce)

xor_at :
    (before after : List ℕ) (m v : ℕ)
    → set (before ++ (m ∷ after)) (length before) v ≡ before ++ (v ∷ after)
xor_at [] after m v = refl
xor_at (x ∷ before) after m v = ap (◌∷◌ x) (xor_at before after m v)

get_at : (before after : List ℕ) (m : ℕ) → get_or (before ++ (m ∷ after)) (length before) 0 ≡ m
get_at [] after m = refl
get_at (x ∷ before) after m = get_at before after m

-- The loop changes the bytes behind the fixed ones.
xor_from-zip :
    (before mask nonce : List ℕ)
    → length nonce ≤ length mask
    → xor_from (length before) (before ++ mask) nonce ≡ before ++ zip_xor mask nonce
unfolding xor_from zip_xor
xor_from-zip before mask [] le = refl
xor_from-zip before [] (b ∷ nonce) le = absurd (omega arith)
xor_from-zip before (m ∷ mask) (b ∷ nonce) le =
    let v = bit_xor m b in
    let fixed = before ++ (v ∷ []) in
    let long : length fixed ≡ suc (length before) = length-append before (v ∷ []) ∙ omega arith in
    let apart : fixed ++ mask ≡ before ++ (v ∷ mask) = append_assoc before (v ∷ []) mask in
    rw (get_at before mask m, xor_at before mask m v)
      (subst (λ n. xor_from n (before ++ (v ∷ mask)) nonce ≡ before ++ (v ∷ zip_xor mask nonce))
        long
        (subst (λ l. xor_from (length fixed) l nonce ≡ before ++ (v ∷ zip_xor mask nonce)) apart
          (xor_from-zip fixed mask nonce (omega arith)
            ∙ append_assoc before (v ∷ []) (zip_xor mask nonce))))

All-drop : (n : ℕ) (l : List ℕ) → All IsByte l → All IsByte (drop n l)
All-drop zero l h = h
All-drop (suc n) [] h = h
All-drop (suc n) (x ∷ l) (_, h) = All-drop n l h

-- A mask of twelve bytes and a nonce of eight, as the two AEADs have them.
pub record IsMask (mask : List ℕ) : Type 0 where
  pub twelve : length mask ≡ 12
  pub bytes : All IsByte mask

pub record IsNonce (nonce : List ℕ) : Type 0 where
  pub eight : length nonce ≡ 8
  pub bytes : All IsByte nonce

xor_mask-zip :
    (mask nonce : List ℕ)
    → length mask ≡ 12
    → length nonce ≡ 8
    → xor_mask mask nonce ≡ take 4 mask ++ zip_xor (drop 4 mask) nonce
xor_mask-zip mask nonce twelve eight =
    let four : length (take 4 mask) ≡ 4 = omega (arith, length-take 4 mask) in
    let whole = take-append-drop 4 mask in
    subst (λ l. xor_from 4 l nonce ≡ take 4 mask ++ zip_xor (drop 4 mask) nonce) whole
      (subst
        (λ n.
          xor_from n (take 4 mask ++ drop 4 mask) nonce
          ≡ take 4 mask ++ zip_xor (drop 4 mask) nonce)
        four (xor_from-zip (take 4 mask) (drop 4 mask) nonce (omega (arith, length-drop 4 mask))))

xor_mask-twice :
    (mask nonce : List ℕ)
    → IsMask mask
    → IsNonce nonce
    → xor_mask (xor_mask mask nonce) nonce ≡ mask
xor_mask-twice mask nonce k n =
    let fixed = take 4 mask in
    let mixed = zip_xor (drop 4 mask) nonce in
    let once = xor_mask-zip mask nonce k.twelve n.eight in
    let four : length fixed ≡ 4 = omega (arith, length-take 4 mask, k.twelve) in
    let long : length (fixed ++ mixed) ≡ 12 = omega (
      arith,
      length-append fixed mixed,
      four,
      length-zip_xor (drop 4 mask) nonce,
      length-drop 4 mask,
      k.twelve,
    ) in
    let back =
      zip_xor-twice (drop 4 mask) nonce (All-drop 4 mask k.bytes) n.bytes
        (omega (arith, length-drop 4 mask, k.twelve, n.eight)) in
    ap (λ l. xor_mask l nonce) once
    ∙ xor_mask-zip (fixed ++ mixed) nonce long n.eight
    ∙ ap (λ l. l ++ zip_xor (drop 4 (fixed ++ mixed)) nonce) (take-append 4 fixed mixed four)
    ∙ ap (λ l. fixed ++ zip_xor l nonce) (drop-append 4 fixed mixed four)
    ∙ ap (λ l. fixed ++ l) back
    ∙ take-append-drop 4 mask

-- What an end of the connection sealed the other end opens, under the same mask and sequence number,
-- and both are left as they were, so that the next record finds the same mask.
pub xor_open-xor_seal :
    (f : XorNonceAead) (nonce plain ad : List ℕ)
    → IsBelow f.aead
    → IsMask f.nonce_mask
    → IsNonce nonce
    → ((xor_seal f nonce plain ad).0 ≡ f)
      × (xor_open f nonce (xor_seal f nonce plain ad).1 ad ≡ (f, some plain))
unfolding xor_seal xor_open
xor_open-xor_seal f nonce plain ad below k n =
    let back : xor_mask (xor_mask f.nonce_mask nonce) nonce ≡ f.nonce_mask =
      xor_mask-twice f.nonce_mask nonce k n in
    let restored = ap (λ (l : List ℕ). record f { nonce_mask = l }) back in
    let opened = below.open-seal (xor_mask f.nonce_mask nonce) plain ad in
    (restored, λ i. (restored i, opened i))

xor_mask-injective :
    (mask nonce other : List ℕ)
    → IsMask mask
    → IsNonce nonce
    → IsNonce other
    → xor_mask mask nonce ≡ xor_mask mask other
    → nonce ≡ other
xor_mask-injective mask nonce other k n o e =
    let four : length (take 4 mask) ≡ 4 = omega (arith, length-take 4 mask, k.twelve) in
    let both =
      sym (xor_mask-zip mask nonce k.twelve n.eight)
      ∙ e
      ∙ xor_mask-zip mask other k.twelve o.eight in
    let mixed =
      sym (drop-append 4 (take 4 mask) (zip_xor (drop 4 mask) nonce) four)
      ∙ ap (drop 4) both
      ∙ drop-append 4 (take 4 mask) (zip_xor (drop 4 mask) other) four in
    zip_xor-injective (drop 4 mask) nonce other (All-drop 4 mask k.bytes) n.bytes o.bytes
      (omega (arith, length-drop 4 mask, k.twelve, n.eight)) (omega (arith, n.eight, o.eight)) mixed

-- Under one key no two records are sealed with the same nonce: the AEAD below is given different
-- nonces for the sequence numbers that the counter gives different records.
pub xor_mask-seq_after :
    (mask : List ℕ) (n m : ℕ) (seq other : List ℕ)
    → IsMask mask
    → seq_after n (replicate 8 0) ≡ some seq
    → seq_after m (replicate 8 0) ≡ some other
    → xor_mask mask seq ≡ xor_mask mask other
    → n ≡ m
xor_mask-seq_after mask n m seq other k h h' e =
    let (_, eight, bytes) = seq_after-counts n seq h in
    let (_, eight', bytes') = seq_after-counts m other h' in
    let same : seq ≡ other =
      xor_mask-injective mask seq other k (record { eight = eight; bytes = bytes })
        (record { eight = eight'; bytes = bytes' }) e in
    seq_after-injective n m seq h (subst (λ l. seq_after m (replicate 8 0) ≡ some l) (sym same) h')

copy_nonce_eight :
    (buffer nonce : List ℕ)
    → length buffer ≡ 12
    → length nonce ≡ 8
    → copy_nonce buffer nonce ≡ take 4 buffer ++ nonce
copy_nonce_eight buffer nonce twelve eight =
    let room : length (drop 4 buffer) ≡ 8 = omega (arith, length-drop 4 buffer) in
    let all_of = take_all (length (drop 4 buffer)) nonce (omega (arith, room)) in
    let left : drop (length nonce) (drop 4 buffer) ≡ [] =
      drop_all (length nonce) (drop 4 buffer) (omega (arith, room)) in
    ap (λ l. take 4 buffer ++ (l ++ drop (length nonce) (drop 4 buffer))) all_of
    ∙ ap (λ l. take 4 buffer ++ (nonce ++ l)) left
    ∙ ap (λ l. take 4 buffer ++ l) (append-nil nonce)

-- An AEAD of TLS 1.2 opens what its peer sealed, whatever explicit nonces either had before: only the
-- fixed first four bytes of the buffers have to agree.
pub prefix_open-prefix_seal :
    (f g : PrefixNonceAead) (nonce plain ad : List ℕ)
    → IsBelow f.aead
    → g.aead ≡ f.aead
    → length f.nonce ≡ 12
    → length g.nonce ≡ 12
    → take 4 g.nonce ≡ take 4 f.nonce
    → length nonce ≡ 8
    → ((prefix_open g nonce (prefix_seal f nonce plain ad).1 ad).1 ≡ some plain)
      × (take 4 (prefix_seal f nonce plain ad).0.nonce ≡ take 4 f.nonce)
      × (length (prefix_seal f nonce plain ad).0.nonce ≡ 12)
unfolding prefix_seal prefix_open
prefix_open-prefix_seal f g nonce plain ad below same_key twelve twelve' fixed eight =
    let made = copy_nonce_eight f.nonce nonce twelve eight in
    let four : length (take 4 f.nonce) ≡ 4 = omega (arith, length-take 4 f.nonce) in
    let agree : copy_nonce g.nonce nonce ≡ copy_nonce f.nonce nonce =
      copy_nonce_eight g.nonce nonce twelve' eight ∙ ap (λ l. l ++ nonce) fixed ∙ sym made in
    (
      (λ i. (same_key i).open_sealed (agree i) (f.aead.seal (copy_nonce f.nonce nonce) plain ad) ad)
          ∙ below.open-seal (copy_nonce f.nonce nonce) plain ad,
      ap (take 4) made ∙ take-append 4 (take 4 f.nonce) nonce four,
      ap length made ∙ length-append (take 4 f.nonce) nonce ∙ omega (arith, four, eight),
    )
