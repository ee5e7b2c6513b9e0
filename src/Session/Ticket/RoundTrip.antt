-- ===== src/Session/Ticket/RoundTrip.antt =====
-- ticket.go: a ticket that was issued is decrypted, also after the keys were rotated.
use electricity.Common.{
  ℕ, ◌+◌, ◌-◌, ◌≤◌, ◌≡◌, ◌⊎◌, inl, inr, refl, ap, sym, ◌∙◌, true, false, ltb, some, List, [], ◌∷◌,
  ◌++◌, take, drop, length, arith, Bool-cases, take-append, drop-append, length-append, subst,
  length-take, take-append-drop, append_assoc, take-append_long,
}
use electricity.Record.Decrypt.{same}
use electricity.Session.Keys.{TicketKey}
use electricity.Session.Keys.Rotation.{Has}
use electricity.Session.Ticket.{
  TicketCrypto, IsTicketCrypto, sum_size, encrypt_ticket, try_keys, decrypt_ticket,
}

same_self : (l : List ℕ) → same l l ≡ true
same_self [] = refl
same_self (x ∷ l) = ground (arith, same_self l)

eq_of_same : (l k : List ℕ) → same l k ≡ true → l ≡ k
eq_of_same [] [] h = refl
eq_of_same [] (y ∷ k) h = cc
eq_of_same (x ∷ l) [] h = cc
eq_of_same (x ∷ l) (y ∷ k) h =
    let front : x ≡ y = ground (arith, h) in
    let rest : same l k ≡ true = ground (arith, h) in let tail = eq_of_same l k rest in cc

module _ (cr : TicketCrypto) where
  -- A ticket whose sum is right for a key, and that no key opens to anything else, is opened.
  try_keys-Has :
      (iv ciphertext authenticated mac_bytes state : List ℕ) (key : TicketKey)
      (keys : List TicketKey)
      → Has key keys
      → mac_bytes ≡ cr.hmac key.hmac_key authenticated
      → cr.ctr key.aes_key iv ciphertext ≡ state
      → ((j : TicketKey)
          → Has j keys
          → (j ≡ key) ⊎ (same mac_bytes (cr.hmac j.hmac_key authenticated) ≡ false))
      → try_keys cr iv ciphertext authenticated mac_bytes keys ≡ some state
  unfolding try_keys
  try_keys-Has iv ciphertext authenticated mac_bytes state key [] has right opens only =
      elim has [ ]
  try_keys-Has iv ciphertext authenticated mac_bytes state key (k ∷ keys) has right opens only =
      let good : same mac_bytes (cr.hmac key.hmac_key authenticated) ≡ true =
        subst (λ l. same mac_bytes l ≡ true) right (same_self mac_bytes) in
      elim (only k (inl refl)) [
        | inl e ↦
            let here : same mac_bytes (cr.hmac k.hmac_key authenticated) ≡ true =
              subst (λ (j : TicketKey). same mac_bytes (cr.hmac j.hmac_key authenticated) ≡ true)
                (sym e) good in
            rw (here) (ap some (ap (λ (j : TicketKey). cr.ctr j.aes_key iv ciphertext) e ∙ opens))
        | inr wrong ↦ elim has [
          | inl e ↦
              let here : same mac_bytes (cr.hmac k.hmac_key authenticated) ≡ true =
                subst (λ (j : TicketKey). same mac_bytes (cr.hmac j.hmac_key authenticated) ≡ true)
                  (sym e) good in
              cc
          | inr later ↦ rw (wrong) (
              try_keys-Has iv ciphertext authenticated mac_bytes state key keys later right opens
                (λ j h. only j (inr h)))
        ]
      ]

  -- A key that is not the ticket's, by its sum.
  abbrev pub Misses : List ℕ → TicketKey → Type 0
  Misses ticket j =
      same (drop (length ticket - sum_size) ticket)
        (cr.hmac j.hmac_key (take (length ticket - sum_size) ticket))
      ≡ false

  module _ (documented : IsTicketCrypto cr) where
    -- A ticket that was issued is decrypted by keys that still have its own, if no other key of them
    -- has the same sum for it.
    pub decrypt-encrypt_ticket :
        (iv state ticket : List ℕ) (key : TicketKey) (others keys : List TicketKey)
        → length iv ≡ 16
        → encrypt_ticket cr (some iv) state (key ∷ others) ≡ some ticket
        → Has key keys
        → ((j : TicketKey) → Has j keys → (j ≡ key) ⊎ Misses ticket j)
        → decrypt_ticket cr ticket keys ≡ some state
    unfolding encrypt_ticket decrypt_ticket
    decrypt-encrypt_ticket iv state ticket key others keys sixteen issued has only =
        let text = cr.ctr key.aes_key iv state in
        let authenticated = iv ++ text in
        let sum = cr.hmac key.hmac_key authenticated in
        let made : ticket ≡ authenticated ++ sum = cc in
        let long : length ticket ≡ length authenticated + 32 =
          ap length made
          ∙ length-append authenticated sum
          ∙ ap (λ n. length authenticated + n)
              (documented.length-hmac key.hmac_key authenticated) in
        let cut : length ticket - 32 ≡ length authenticated = omega (arith, long) in
        let size : length authenticated ≡ 16 + length text =
          length-append iv text ∙ omega (arith, sixteen) in
        let front : take (length ticket - 32) ticket ≡ authenticated =
          ap (take (length ticket - 32)) made
          ∙ take-append (length ticket - 32) authenticated sum (sym cut) in
        let back : drop (length ticket - 32) ticket ≡ sum =
          ap (drop (length ticket - 32)) made
          ∙ drop-append (length ticket - 32) authenticated sum (sym cut) in
        let start : take 16 ticket ≡ iv =
          ap (take 16) (made ∙ append_assoc iv text sum)
          ∙ take-append 16 iv (text ++ sum) sixteen in
        let middle : drop 16 (take (length ticket - 32) ticket) ≡ text =
          ap (drop 16) front ∙ drop-append 16 iv text sixteen in
        let enough : ltb (length ticket) 48 ≡ false = ground (arith, long, size) in
        let opens : cr.ctr key.aes_key (take 16 ticket) (drop 16 (take (length ticket - 32) ticket))
            ≡ state =
          (λ i. cr.ctr key.aes_key (start i) (middle i))
          ∙ documented.ctr-ctr key.aes_key iv state in
        let right : drop (length ticket - 32) ticket
            ≡ cr.hmac key.hmac_key (take (length ticket - 32) ticket) =
          back ∙ ap (cr.hmac key.hmac_key) (sym front) in
        rw (enough) (
          try_keys-Has (take 16 ticket) (drop 16 (take (length ticket - 32) ticket))
            (take (length ticket - 32) ticket) (drop (length ticket - 32) ticket) state key keys has
            right opens only)

  try_keys-some :
      (iv ciphertext authenticated mac_bytes state : List ℕ) (keys : List TicketKey)
      → try_keys cr iv ciphertext authenticated mac_bytes keys ≡ some state
      → (key : TicketKey) × Has key keys
        × (mac_bytes ≡ cr.hmac key.hmac_key authenticated)
        × (state ≡ cr.ctr key.aes_key iv ciphertext)
  unfolding try_keys
  try_keys-some iv ciphertext authenticated mac_bytes state [] h = cc
  try_keys-some iv ciphertext authenticated mac_bytes state (k ∷ keys) h =
      elim (Bool-cases (same mac_bytes (cr.hmac k.hmac_key authenticated))) [
        | inl e ↦ (
          k,
          inl refl,
          eq_of_same mac_bytes (cr.hmac k.hmac_key authenticated) e,
          ground (arith, h, e),
        )
        | inr e ↦
            let (key, has, right, opened) =
              try_keys-some iv ciphertext authenticated mac_bytes state keys
                (ground (arith, h, e)) in
            (key, inr has, right, opened)
      ]

  -- A ticket is only accepted if it ends with the sum, under one of the keys, of all that stands
  -- before; the state is what that key deciphers.
  pub decrypt_ticket-authentic :
      (ticket state : List ℕ) (keys : List TicketKey)
      → decrypt_ticket cr ticket keys ≡ some state
      → (key : TicketKey) × Has key keys
        × (iv : List ℕ) × (text : List ℕ) × (ticket
            ≡ (iv ++ text) ++ cr.hmac key.hmac_key (iv ++ text))
        × (length iv ≡ 16)
        × (state ≡ cr.ctr key.aes_key iv text)
  unfolding decrypt_ticket
  decrypt_ticket-authentic ticket state keys h = elim (Bool-cases (ltb (length ticket) 48)) [
    | inl e ↦ absurd (ground (arith, h, e))
    | inr e ↦
        let cut = length ticket - 32 in
        let authenticated = take cut ticket in
        let (key, has, right, opened) =
          try_keys-some (take 16 ticket) (drop 16 authenticated) authenticated (drop cut ticket)
            state keys (ground (arith, h, e)) in
        let long : 48 ≤ length ticket = ground (arith, e) in
        let start : take 16 authenticated ≡ take 16 ticket =
          sym (
            take-append_long 16 authenticated (drop cut ticket)
              (omega (arith, length-take cut ticket, long)))
          ∙ ap (take 16) (take-append-drop cut ticket) in
        let whole : take 16 ticket ++ drop 16 authenticated ≡ authenticated =
          ap (λ l. l ++ drop 16 authenticated) (sym start) ∙ take-append-drop 16 authenticated in
        (
          key,
          has,
          take 16 ticket,
          drop 16 authenticated,
          sym (take-append-drop cut ticket)
              ∙ ap (λ l. authenticated ++ l) right
              ∙ ap (λ l. l ++ cr.hmac key.hmac_key l) (sym whole),
          omega (arith, length-take 16 ticket, long),
          opened,
        )
  ]
