-- ===== src/Session/Keys/Rotation.antt =====
-- common.go: the ages of the keys that rotate on their own.
use electricity.Common.{
  ℕ, ◌+◌, ◌-◌, ◌≤◌, ◌<◌, ◌≡◌, ◌⊎◌, inl, inr, ap, sym, true, ltb, Option, some, List, [], ◌∷◌, All,
  arith, Bool-cases, Option-cases, subst, ◌∙◌,
}
use electricity.Session.Keys.{
  TicketKey, TicketConfig, ticket_key_lifetime, ticket_key_rotation, ticket_key_from_bytes,
  is_fresh, unexpired, rotate,
}

-- A key is one of the list.
abbrev pub Has : TicketKey → List TicketKey → Type 0
Has j [] = ⊥
Has j (k ∷ keys) = (k ≡ j) ⊎ Has j keys

-- When the first key was made, the others had not expired.
abbrev pub IsRotated : ℕ → List TicketKey → Type 0
IsRotated now [] = Unit {0}
IsRotated now (k ∷ keys) =
    (k.created ≤ now) × All (λ j. k.created < j.created + ticket_key_lifetime) keys

-- A ticket key of the list is accepted for less than eight days.
abbrev pub IsYoung : ℕ → TicketKey → Type 0
IsYoung now j = now < j.created + ticket_key_lifetime + ticket_key_rotation

All-Kept :
    (first now : ℕ) (keys : List TicketKey)
    → now < first + ticket_key_rotation
    → All (λ j. first < j.created + ticket_key_lifetime) keys
    → All (IsYoung now) keys
All-Kept first now [] h a = tt
All-Kept first now (k ∷ keys) h (a, as_) = (omega (arith, h, a), All-Kept first now keys h as_)

All-unexpired :
    (now : ℕ) (keys : List TicketKey)
    → All (λ j. now < j.created + ticket_key_lifetime) (unexpired now keys)
unfolding unexpired
All-unexpired now [] = tt
All-unexpired now (k ∷ keys) = elim (Bool-cases (ltb (now - k.created) ticket_key_lifetime)) [
  | inl e ↦ rw (e) (ground arith, All-unexpired now keys)
  | inr e ↦ rw (e) (All-unexpired now keys)
]

Has-unexpired :
    (now : ℕ) (j : TicketKey) (keys : List TicketKey)
    → Has j keys
    → now < j.created + ticket_key_lifetime
    → Has j (unexpired now keys)
unfolding unexpired
Has-unexpired now j [] h young = h
Has-unexpired now j (k ∷ keys) (inl same) young =
    let e : ltb (now - k.created) ticket_key_lifetime ≡ true =
      ground (arith, ap (λ (t : TicketKey). t.created) same, young) in
    rw (e) (inl same)
Has-unexpired now j (k ∷ keys) (inr h) young =
    elim (Bool-cases (ltb (now - k.created) ticket_key_lifetime)) [
      | inl e ↦ rw (e) (inr (Has-unexpired now j keys h young))
      | inr e ↦ rw (e) (Has-unexpired now j keys h young)
    ]

ages :
    (now before : ℕ) (keys : List TicketKey)
    → before ≤ now
    → IsRotated before keys
    → is_fresh now keys ≡ true
    → All (IsYoung now) keys × IsRotated now keys
ages now before [] later ordered fresh = absurd (ground arith)
ages now before (k ∷ keys) later (made, kept) fresh =
    let new : now < k.created + ticket_key_rotation = ground (arith, fresh) in
    ((omega (arith, new), All-Kept k.created now keys new kept), (omega (arith, made, later), kept))

module _ (sha512 : List ℕ → List ℕ) (random : TicketConfig → Option (List ℕ)) where
  -- What a call returns: the keys as they were if the first was fresh, or a new one before them.
  data Rotated (now : ℕ) (c c' : TicketConfig) (keys : List TicketKey) : Type 0 where
    same_keys :
        is_fresh now c.auto_session_ticket_keys ≡ true
        → c' ≡ c
        → keys ≡ c.auto_session_ticket_keys
        → Rotated now c c' keys
    new_key :
        (b : List ℕ)
        → keys ≡ ticket_key_from_bytes sha512 now b ∷ unexpired now c.auto_session_ticket_keys
        → c'.auto_session_ticket_keys ≡ keys
        → Rotated now c c' keys

  rotate-Rotated :
      (now : ℕ) (c c' : TicketConfig) (keys : List TicketKey)
      → rotate sha512 random now c ≡ some (c', keys)
      → Rotated now c c' keys
  unfolding rotate
  rotate-Rotated now c c' keys h = elim (Bool-cases (is_fresh now c.auto_session_ticket_keys)) [
    | inl e ↦ same_keys e (ground (arith, h, e)) (ground (arith, h, e))
    | inr e ↦ elim (Option-cases (random c)) [
      | inl r ↦ absurd (ground (arith, h, e, r))
      | inr (b, r) ↦ new_key b (ground (arith, h, e, r)) (ground (arith, h, e, r))
    ]
  ]

  -- A call returns a first key that is less than a day old, for new tickets, and no key that is eight
  -- days old; the keys are those that the Config has then, and stay so ordered.
  pub rotate-IsRotated :
      (now before : ℕ) (c c' : TicketConfig) (keys : List TicketKey)
      → before ≤ now
      → IsRotated before c.auto_session_ticket_keys
      → rotate sha512 random now c ≡ some (c', keys)
      → (is_fresh now keys ≡ true)
        × All (IsYoung now) keys
        × (c'.auto_session_ticket_keys ≡ keys)
        × IsRotated now keys
  rotate-IsRotated now before c c' keys later ordered h = elim (rotate-Rotated now c c' keys h) [
    | same_keys fresh same same_auto ↦
        let auto : c'.auto_session_ticket_keys ≡ keys =
          ap (λ (d : TicketConfig). d.auto_session_ticket_keys) same ∙ sym same_auto in
        let (young, ordered') = ages now before c.auto_session_ticket_keys later ordered fresh in
        (
          subst (λ l. is_fresh now l ≡ true) (sym same_auto) fresh,
          subst (All (IsYoung now)) (sym same_auto) young,
          auto,
          subst (IsRotated now) (sym same_auto) ordered',
        )
    | new_key b made auto ↦
        let k = ticket_key_from_bytes sha512 now b in
        let left = unexpired now c.auto_session_ticket_keys in
        let kept = All-unexpired now c.auto_session_ticket_keys in
        let fresh : is_fresh now (k ∷ left) ≡ true = ground arith in
        let (young, ordered') = ages now now (k ∷ left) (omega arith) (omega arith, kept) fresh in
        (
          subst (λ l. is_fresh now l ≡ true) (sym made) fresh,
          subst (All (IsYoung now)) (sym made) young,
          auto,
          subst (IsRotated now) (sym made) ordered',
        )
  ]

  -- A key stays for the seven days of its lifetime.
  pub rotate-Has :
      (now : ℕ) (c c' : TicketConfig) (keys : List TicketKey) (j : TicketKey)
      → Has j c.auto_session_ticket_keys
      → now < j.created + ticket_key_lifetime
      → rotate sha512 random now c ≡ some (c', keys)
      → Has j keys × Has j c'.auto_session_ticket_keys
  rotate-Has now c c' keys j has young h = elim (rotate-Rotated now c c' keys h) [
    | same_keys fresh same same_auto ↦ (
      subst (Has j) (sym same_auto) has,
      subst (λ (d : TicketConfig). Has j d.auto_session_ticket_keys) (sym same) has,
    )
    | new_key b made auto ↦
        let here : Has j keys =
          subst (Has j) (sym made)
            (inr (Has-unexpired now j c.auto_session_ticket_keys has young)) in
        (here, subst (Has j) (sym auto) here)
  ]
