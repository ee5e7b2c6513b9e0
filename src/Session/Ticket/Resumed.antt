-- ===== src/Session/Ticket/Resumed.antt =====
-- ticket.go and common.go: a ticket and the keys that rotate on their own, over six days.
use electricity.Common.{
  ℕ, ◌+◌, ◌≤◌, ◌<◌, ◌≡◌, ◌⊎◌, inl, refl, sym, Option, some, List, ◌∷◌, arith, length, subst,
}
use electricity.Session.Keys.{
  TicketKey, TicketConfig, ticket_key_lifetime, ticket_key_rotation, rotate,
}
use electricity.Session.Keys.Rotation.{Has, IsRotated, rotate-Has, rotate-IsRotated}
use electricity.Session.Ticket.{TicketCrypto, IsTicketCrypto, encrypt_ticket, decrypt_ticket}
use electricity.Session.Ticket.RoundTrip.{Misses, decrypt-encrypt_ticket}

module _ (sha512 : List ℕ → List ℕ) (random : TicketConfig → Option (List ℕ)) where
  -- Calls of `ticketKeys`, one after the other, each at no earlier a time.
  pub data Rotations (c : TicketConfig) (t : ℕ) : TicketConfig → ℕ → Type 0 where
    begin : Rotations c t c t
    again :
        {d e : TicketConfig} {u v : ℕ} (keys : List TicketKey)
        → Rotations c t d u
        → u ≤ v
        → rotate sha512 random v d ≡ some (e, keys)
        → Rotations c t e v

  Rotations-Has :
      {c : TicketConfig} {t : ℕ} {d : TicketConfig} {u : ℕ} (j : TicketKey)
      → Has j c.auto_session_ticket_keys
      → Rotations c t d u
      → u < j.created + ticket_key_lifetime
      → Has j d.auto_session_ticket_keys
  Rotations-Has j has begin young = has
  Rotations-Has j has (again {d} {e} {u} {v} keys before later h) young =
      (rotate-Has sha512 random v d e keys j
        (Rotations-Has j has before (omega (arith, later, young))) young h).1

  module _ (cr : TicketCrypto) (documented : IsTicketCrypto cr) where
    -- A ticket that was issued with the keys of the time `t` is decrypted with those of each call in
    -- the following six days, whatever calls came between, if no other key has the same sum for it.
    pub decrypt_ticket-Rotations :
        (before t now u : ℕ) (c₀ c d e : TicketConfig) (key : TicketKey)
        (others keys : List TicketKey) (iv state ticket : List ℕ)
        → before ≤ t
        → IsRotated before c₀.auto_session_ticket_keys
        → rotate sha512 random t c₀ ≡ some (c, key ∷ others)
        → length iv ≡ 16
        → encrypt_ticket cr (some iv) state (key ∷ others) ≡ some ticket
        → Rotations c t d u
        → u ≤ now
        → now + ticket_key_rotation ≤ t + ticket_key_lifetime
        → rotate sha512 random now d ≡ some (e, keys)
        → ((j : TicketKey) → Has j keys → (j ≡ key) ⊎ Misses cr ticket j)
        → decrypt_ticket cr ticket keys ≡ some state
    decrypt_ticket-Rotations before t now u c₀ c d e key others keys iv state ticket earlier ordered
          first sixteen issued between later soon last only =
        let (fresh, young, auto, next) =
          rotate-IsRotated sha512 random t before c₀ c (key ∷ others) earlier ordered first in
        let new : t < key.created + ticket_key_rotation = ground (arith, fresh) in
        let valid : now < key.created + ticket_key_lifetime = omega (arith, new, soon) in
        let here : Has key c.auto_session_ticket_keys = subst (Has key) (sym auto) (inl refl) in
        let then_ = Rotations-Has key here between (omega (arith, later, valid)) in
        let has = (rotate-Has sha512 random now d e keys key then_ valid last).0 in
        decrypt-encrypt_ticket cr documented iv state ticket key others keys sixteen issued has only
