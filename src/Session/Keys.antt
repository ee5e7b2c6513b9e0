-- ===== src/Session/Keys.antt =====
-- common.go: `Config.ticketKeys`, with the keys that are rotated every day. Times are in seconds; a call
-- reads the clock once.
use electricity.Common.{
  map, ℕ, zero, suc, ◌+◌, ◌-◌, ◌≤◌, ◌<◌, ◌≡◌, ◌⊎◌, inl, inr, refl, Bool, true, false, not, ◌&&◌,
  ◌||◌, ◌==◌, ltb, leb, Option, none, some, List, [], ◌∷◌, ◌++◌, is_empty, take, drop, replicate,
  length, if◌then◌else◌, bind?, All, arith, Bool-cases, Option-cases,
}
use electricity.Record.Decrypt.{same}
pub mod Rotation

pub record TicketKey : Type 0 where
  pub aes_key : List ℕ
  pub hmac_key : List ℕ
  pub created : ℕ

abbrev pub ticket_key_lifetime : ℕ
ticket_key_lifetime = 604800

abbrev pub ticket_key_rotation : ℕ
ticket_key_rotation = 86400

-- The part of `Config` that the keys are in.
pub record TicketConfig : Type 0 where
  pub session_tickets_disabled : Bool
  pub session_ticket_key : List ℕ
  pub session_ticket_keys : List TicketKey
  pub auto_session_ticket_keys : List TicketKey

-- "DEPRECATED"
abbrev pub deprecated_session_ticket_key : List ℕ
deprecated_session_ticket_key =
    68 ∷ (69 ∷ (80 ∷ (82 ∷ (69 ∷ (67 ∷ (65 ∷ (84 ∷ (69 ∷ (68 ∷ [])))))))))

abbrev pub is_deprecated : List ℕ → Bool
is_deprecated key = same (take 10 key) deprecated_session_ticket_key

abbrev pub is_unset : List ℕ → Bool
is_unset key = same key (replicate 32 0)

-- The first key is fresh enough for new tickets.
abbrev pub is_fresh : ℕ → List TicketKey → Bool
is_fresh now [] = false
is_fresh now (k ∷ keys) = ltb (now - k.created) ticket_key_rotation

-- The loop that removes expired keys.
unfoldable pub unexpired : ℕ → List TicketKey → List TicketKey
unexpired now [] = []
unexpired now (k ∷ keys) =
    let rest = unexpired now keys in
    if ltb (now - k.created) ticket_key_lifetime then k ∷ rest else rest

-- The calls into other packages: SHA-512, and random bytes, or their error.
module _ (sha512 : List ℕ → List ℕ) where
  abbrev pub ticket_key_from_bytes : ℕ → List ℕ → TicketKey
  ticket_key_from_bytes now b = record {
    aes_key = take 16 (drop 16 (sha512 b));
    hmac_key = take 16 (drop 32 (sha512 b));
    created = now;
  }

  -- `SetSessionTicketKeys`; `none` is its panic.
  unfoldable pub set_session_ticket_keys : ℕ → List (List ℕ) → TicketConfig → Option TicketConfig
  set_session_ticket_keys now [] c = none
  set_session_ticket_keys now (b ∷ keys) c =
      some (record c { session_ticket_keys = map (ticket_key_from_bytes now) (b ∷ keys) })

  module _ (random : TicketConfig → Option (List ℕ)) where
    -- `initLegacySessionTicketKeyRLocked`, whose two checks are under one lock here; `none` is a panic.
    unfoldable pub init_legacy_session_ticket_key : ℕ → TicketConfig → Option TicketConfig
    init_legacy_session_ticket_key now c =
        if is_unset c.session_ticket_key
        then bind? (random c) (λ b.
          some (record c { session_ticket_key = deprecated_session_ticket_key ++ drop 10 b }))
        else if is_deprecated c.session_ticket_key || not (is_empty c.session_ticket_keys)
        then some c
        else some
            (record c { session_ticket_keys = ticket_key_from_bytes now c.session_ticket_key ∷ [] })

    -- The keys that rotate on their own.
    unfoldable pub rotate : ℕ → TicketConfig → Option (TicketConfig × List TicketKey)
    unfolding unexpired
    rotate now c =
        if is_fresh now c.auto_session_ticket_keys
        then some (c, c.auto_session_ticket_keys)
        else bind? (random c) λ b.
          let valid = ticket_key_from_bytes now b ∷ unexpired now c.auto_session_ticket_keys in
          some (record c { auto_session_ticket_keys = valid }, valid)

    -- `ticketKeys` for the keys of `c` itself.
    unfoldable pub own_keys : ℕ → TicketConfig → Option (TicketConfig × List TicketKey)
    unfolding init_legacy_session_ticket_key rotate
    own_keys now c =
        if c.session_tickets_disabled
        then some (c, [])
        else bind? (init_legacy_session_ticket_key now c) λ c₁.
          if not (is_empty c₁.session_ticket_keys)
          then some (c₁, c₁.session_ticket_keys)
          else rotate now c₁

    -- `ticketKeys`, with the Config that GetConfigForClient returned, if any.
    unfoldable pub ticket_keys :
        ℕ
        → Option TicketConfig
        → TicketConfig
        → Option (Option TicketConfig × (TicketConfig × List TicketKey))
    unfolding own_keys init_legacy_session_ticket_key
    ticket_keys now for_client c = elim for_client [
      | none ↦ bind? (own_keys now c) (λ r. some (none, r))
      | some d ↦
          if d.session_tickets_disabled
          then some (some d, (c, []))
          else bind? (init_legacy_session_ticket_key now d) λ d₁.
            if not (is_empty d₁.session_ticket_keys)
            then some (some d₁, (c, d₁.session_ticket_keys))
            else bind? (own_keys now c) (λ r. some (some d₁, r))
    ]
