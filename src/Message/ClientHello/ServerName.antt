-- ===== src/Message/ClientHello/ServerName.antt =====
-- handshake_messages.go: the server names of a ClientHello, by which REALITY accepts a client.
use electricity.Common.{
  ℕ, ◌≡◌, ◌⊎◌, inl, inr, refl, false, List, [], ◌∷◌, ◌==◌, is_empty, All, arith, ok, if◌then◌else◌,
  Bool-cases,
}
use electricity.Message.ClientHello.{has_trailing_dot, host_name}

-- The names of type host_name.
abbrev pub hosts : List (ℕ × List ℕ) → List (List ℕ)
hosts [] = []
hosts ((name_type, name) ∷ names) = if name_type == 0 then name ∷ hosts names else hosts names

-- After a host name was found no other is accepted.
host_name-found :
    (found : List ℕ) (names : List (ℕ × List ℕ)) (n : List ℕ)
    → is_empty found ≡ false
    → host_name found names ≡ ok n
    → (hosts names ≡ []) × (n ≡ found)
unfolding host_name
host_name-found found [] n full h = (refl, ground arith)
host_name-found found ((name_type, name) ∷ names) n full h = elim (Bool-cases (name_type == 0)) [
  | inl host ↦ absurd (ground arith)
  | inr other ↦
      let skipped : host_name found names ≡ ok n = ground arith in
      rw (other) (host_name-found found names n full skipped)
]

-- A list of names that is accepted has no host name, or one without a trailing dot, which is the
-- result.
pub host_name-hosts :
    (names : List (ℕ × List ℕ)) (n : List ℕ)
    → All (λ e. is_empty e.1 ≡ false) names
    → host_name [] names ≡ ok n
    → ((hosts names ≡ []) × (n ≡ [])) ⊎ ((hosts names ≡ n ∷ []) × (has_trailing_dot n ≡ false))
unfolding host_name
host_name-hosts [] n full h = inl (refl, ground arith)
host_name-hosts ((name_type, name) ∷ names) n (f, full) h = elim (Bool-cases (name_type == 0)) [
  | inr other ↦
      let skipped : host_name [] names ≡ ok n = ground arith in
      rw (other) (host_name-hosts names n full skipped)
  | inl host ↦ elim (Bool-cases (has_trailing_dot name)) [
    | inl dot ↦ absurd (ground arith)
    | inr plain ↦
        let taken : host_name name names ≡ ok n = ground arith in
        let (none_left, same) = host_name-found name names n f taken in
        rw (host, none_left, same) (inr (refl, plain))
  ]
]
