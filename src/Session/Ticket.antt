-- ===== src/Session/Ticket.antt =====
-- ticket.go: `encryptTicket` and `decryptTicket`.
use electricity.Common.{
  ℕ, zero, suc, ◌+◌, ◌-◌, ◌≤◌, ◌<◌, ◌≡◌, ◌⊎◌, inl, inr, refl, ap, sym, ◌∙◌, Bool, true, false, ◌==◌,
  ltb, Option, none, some, List, [], ◌∷◌, ◌++◌, take, drop, length, if◌then◌else◌, bind?,
  bind?-eq-some, All, arith, Bool-cases, Option-cases,
}
use electricity.Record.Decrypt.{same}
use electricity.Session.Keys.{TicketKey}
pub mod RoundTrip
pub mod Resumed

-- The calls of crypto packages: HMAC-SHA-256, and AES-CTR by key and iv. A key of 16 bytes always makes
-- a cipher.
pub record TicketCrypto : Type 0 where
  pub hmac : List ℕ → List ℕ → List ℕ
  pub ctr : List ℕ → List ℕ → List ℕ → List ℕ

-- What is documented of them: a sum has 32 bytes, and a key stream is xored to the text.
pub record IsTicketCrypto (cr : TicketCrypto) : Type 0 where
  pub length-hmac : (key bytes : List ℕ) → length (cr.hmac key bytes) ≡ 32
  pub length-ctr : (key iv text : List ℕ) → length (cr.ctr key iv text) ≡ length text
  pub ctr-ctr : (key iv text : List ℕ) → cr.ctr key iv (cr.ctr key iv text) ≡ text

abbrev pub aes_block_size : ℕ
aes_block_size = 16

abbrev pub sum_size : ℕ
sum_size = 32

module _ (cr : TicketCrypto) where
  -- `random` is what was read for the iv, or its error.
  unfoldable pub encrypt_ticket : Option (List ℕ) → List ℕ → List TicketKey → Option (List ℕ)
  encrypt_ticket random state [] = none
  encrypt_ticket random state (key ∷ keys) = bind? random λ iv.
      let authenticated = iv ++ cr.ctr key.aes_key iv state in
      some (authenticated ++ cr.hmac key.hmac_key authenticated)

  -- The loop over the keys: the first one whose sum is the ticket's.
  unfoldable pub try_keys : List ℕ → List ℕ → List ℕ → List ℕ → List TicketKey → Option (List ℕ)
  try_keys iv ciphertext authenticated mac_bytes [] = none
  try_keys iv ciphertext authenticated mac_bytes (key ∷ keys) =
      let rest = try_keys iv ciphertext authenticated mac_bytes keys in
      if same mac_bytes (cr.hmac key.hmac_key authenticated)
      then some (cr.ctr key.aes_key iv ciphertext)
      else rest

  unfoldable pub decrypt_ticket : List ℕ → List TicketKey → Option (List ℕ)
  unfolding try_keys
  decrypt_ticket encrypted keys =
      if ltb (length encrypted) (aes_block_size + sum_size)
      then none
      else let authenticated = take (length encrypted - sum_size) encrypted in
        try_keys (take aes_block_size encrypted) (drop aes_block_size authenticated) authenticated
          (drop (length encrypted - sum_size) encrypted) keys
