-- ===== src/Conn/Write/Sizes.antt =====
-- conn.go: every call of `maxPayloadSizeForWrite` leaves room for some bytes.
use electricity.Common.{
  ℕ, ◌+◌, ◌-◌, ◌*◌, ◌%◌, ◌≤◌, ◌<◌, ◌≡◌, inl, inr, refl, some, not, ◌||◌, ◌==◌, ltb, leb, arith,
  Bool-cases, Option-cases,
}
use electricity.Const.{version_tls13, max_plaintext}
use electricity.Const.RecordType
use electricity.Record.HalfConn.{stream, aead, cbc, Primitives, HalfConn, explicit_nonce_len}
use electricity.Record.Decrypt.{mac_size_of}
use electricity.Conn.Write.{
  Output, minus, less_cipher, payload_bytes, max_payload_size_for_write,
  record_size_boost_threshold,
}
use native.Mathlib.Nat.{mod-lt}

-- The sizes of the ciphers of TLS: no tag, nonce, block or hash is longer than 64 bytes.
pub record IsSmall {S : Type 0} (p : Primitives S) : Type 0 where
  pub overhead : (s : S) → p.overhead s ≤ 64
  pub nonce_len : (s : S) → p.nonce_len s ≤ 64
  pub block_size : (s : S) → p.block_size s ≤ 64
  pub some_block : (s : S) → 0 < p.block_size s
  pub mac_size : (s : S) → p.mac_size s ≤ 64

minus-some : (a b : ℕ) → b ≤ a → minus a b ≡ some (a - b)
minus-some a b h = ground arith

module _ {S : Type 0} (p : Primitives S) (small : IsSmall p) where
  explicit_nonce_len-le : (half : HalfConn S) → explicit_nonce_len p half ≤ 64
  unfolding explicit_nonce_len
  explicit_nonce_len-le half = elim (Option-cases half.cipher) [
    | inl e ↦ rw (e) (omega arith)
    | inr (stream s, e) ↦ rw (e) (omega arith)
    | inr (aead s, e) ↦ rw (e) (small.nonce_len s)
    | inr (cbc s, e) ↦ rw (e) (ground (arith, small.block_size s))
  ]

  mac_size_of-le : (half : HalfConn S) → mac_size_of p half ≤ 64
  mac_size_of-le half = elim (Option-cases half.mac_hash) [
    | inl e ↦ rw (e) (omega arith)
    | inr (h, e) ↦ rw (e) (small.mac_size h)
  ]

  less_cipher-some :
      (c : Output S) (x : ℕ) → 300 ≤ x → (y : ℕ) × (less_cipher p c x ≡ some y) × (x ≤ y + 129)
  less_cipher-some c x wide = elim (Option-cases c.half.cipher) [
    | inl e ↦ (x, rw (e) refl, omega arith)
    | inr (stream s, e) ↦ (
      x - mac_size_of p c.half,
      rw (e) (minus-some x _ (omega (arith, mac_size_of-le c.half))),
      omega (arith, mac_size_of-le c.half),
    )
    | inr (aead s, e) ↦ (
      x - p.overhead s,
      rw (e) (minus-some x _ (omega (arith, small.overhead s))),
      omega (arith, small.overhead s),
    )
    | inr (cbc s, e) ↦
        let under = mod-lt x (small.some_block s) in
        let low = x - x % p.block_size s in
        (
          low - (1 + mac_size_of p c.half),
          rw (e)
              (minus-some low _ (omega (arith, under, small.block_size s, mac_size_of-le c.half))),
          omega (arith, under, small.block_size s, mac_size_of-le c.half),
        )
  ]

  payload_bytes-some : (c : Output S) → (x : ℕ) × (payload_bytes p c ≡ some x) × (0 < x)
  unfolding payload_bytes
  payload_bytes-some c =
      let first =
        minus-some 1203 (explicit_nonce_len p c.half)
          (omega (arith, explicit_nonce_len-le c.half)) in
      let (y, second, wide) =
        less_cipher-some c (1203 - explicit_nonce_len p c.half)
          (omega (arith, explicit_nonce_len-le c.half)) in
      elim (Bool-cases (c.vers == version_tls13)) [
        | inl e ↦ (
          y - 1,
          rw (first, second, e)
              (minus-some y 1 (omega (arith, wide, explicit_nonce_len-le c.half))),
          omega (arith, wide, explicit_nonce_len-le c.half),
        )
        | inr e ↦ (y, rw (first, second, e) refl, omega (arith, wide, explicit_nonce_len-le c.half))
      ]

  -- Every record gets some bytes, and at most 2 ^ 14.
  pub max_payload-some :
      (typ : ℕ) (c : Output S)
      → (k : ℕ) × (packets : ℕ) × (max_payload_size_for_write p typ c
          ≡ (some k, record c { packets_sent = packets }))
        × (0 < k)
        × (k ≤ max_plaintext)
  unfolding max_payload_size_for_write
  max_payload-some typ c =
      let (x, some_x, pos) = payload_bytes-some c in
      let next = c.packets_sent + 1 in
      let grows : 0 < x * next = grind (arith, pos) in
      elim (Bool-cases (c.sizing_disabled || not (typ == RecordType.application_data))) [
        | inl e ↦ (max_plaintext, c.packets_sent, rw (e) refl, omega arith, omega arith)
        | inr e ↦ elim (Bool-cases (leb record_size_boost_threshold c.bytes_sent)) [
          | inl e₁ ↦ (max_plaintext, c.packets_sent, rw (e, e₁) refl, omega arith, omega arith)
          | inr e₁ ↦ elim (Bool-cases (ltb 1000 c.packets_sent)) [
            | inl e₂ ↦ (max_plaintext, next, rw (e, e₁, e₂) refl, omega arith, omega arith)
            | inr e₂ ↦ elim (Bool-cases (ltb max_plaintext (x * next))) [
              | inl e₃ ↦
                  (max_plaintext, next, rw (e, e₁, e₂, some_x, e₃) refl, omega arith, omega arith)
              | inr e₃ ↦ (x * next, next, rw (e, e₁, e₂, some_x, e₃) refl, grows, ground arith)
            ]
          ]
        ]
      ]
