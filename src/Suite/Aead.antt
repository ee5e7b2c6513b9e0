-- ===== src/Suite/Aead.antt =====
-- cipher_suites.go: `prefixNonceAEAD` and `xorNonceAEAD`, which make the nonce of the AEAD below from the
-- sequence number, in a buffer of their own.
use electricity.Common.{
  ℕ, suc, Option, some, List, [], ◌∷◌, ◌++◌, bit_xor, get_or, set, take, drop, ◌≡◌, length,
}

-- The `cipher.AEAD` below, under its key: `Seal` and `Open` of nonce, text and additional data.
pub record Below : Type 0 where
  pub seal : List ℕ → List ℕ → List ℕ → List ℕ
  pub open_sealed : List ℕ → List ℕ → List ℕ → Option (List ℕ)

-- What is documented of it: it opens what it sealed under the same nonce.
pub record IsBelow (b : Below) : Type 0 where
  pub open-seal :
      (nonce plain ad : List ℕ) → b.open_sealed nonce (b.seal nonce plain ad) ad ≡ some plain

pub record XorNonceAead : Type 0 where
  pub nonce_mask : List ℕ
  pub aead : Below

pub record PrefixNonceAead : Type 0 where
  pub nonce : List ℕ
  pub aead : Below

-- `for i, b := range nonce { f.nonceMask[4+i] ^= b }`, from `i` on.
unfoldable pub xor_from : ℕ → List ℕ → List ℕ → List ℕ
xor_from i mask [] = mask
xor_from i mask (b ∷ nonce) = xor_from (suc i) (set mask i (bit_xor (get_or mask i 0) b)) nonce

abbrev pub xor_mask : List ℕ → List ℕ → List ℕ
xor_mask mask nonce = xor_from 4 mask nonce

-- The buffer is used masked, and masked again.
unfoldable pub xor_seal : XorNonceAead → List ℕ → List ℕ → List ℕ → XorNonceAead × List ℕ
unfolding xor_from
xor_seal f nonce plain ad =
    let masked = xor_mask f.nonce_mask nonce in
    (record f { nonce_mask = xor_mask masked nonce }, f.aead.seal masked plain ad)

unfoldable pub xor_open : XorNonceAead → List ℕ → List ℕ → List ℕ → XorNonceAead × Option (List ℕ)
unfolding xor_from
xor_open f nonce sealed ad =
    let masked = xor_mask f.nonce_mask nonce in
    (record f { nonce_mask = xor_mask masked nonce }, f.aead.open_sealed masked sealed ad)

-- `copy(f.nonce[4:], nonce)`
abbrev pub copy_nonce : List ℕ → List ℕ → List ℕ
copy_nonce buffer nonce =
    take 4 buffer ++ (take (length (drop 4 buffer)) nonce ++ drop (length nonce) (drop 4 buffer))

unfoldable pub prefix_seal : PrefixNonceAead → List ℕ → List ℕ → List ℕ → PrefixNonceAead × List ℕ
prefix_seal f nonce plain ad =
    let buffer = copy_nonce f.nonce nonce in
    (record f { nonce = buffer }, f.aead.seal buffer plain ad)

unfoldable pub prefix_open :
    PrefixNonceAead → List ℕ → List ℕ → List ℕ → PrefixNonceAead × Option (List ℕ)
prefix_open f nonce sealed ad =
    let buffer = copy_nonce f.nonce nonce in
    (record f { nonce = buffer }, f.aead.open_sealed buffer sealed ad)
