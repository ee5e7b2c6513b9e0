-- ===== src/Negotiate/Chosen.antt =====
-- common.go and handshake_server.go: which version is chosen.
use electricity.Common.{
  ℕ, ◌≡◌, ◌≤◌, ◌≢◌, inl, inr, refl, ap, Bool, true, false, not, ◌&&◌, ◌==◌, ltb, leb, Option, none,
  some, List, [], ◌∷◌, ◌++◌, is_empty, All, arith, Bool-cases, Option-cases, subst, sym, ◌∙◌,
}
use electricity.Const.{version_tls12, version_tls13}
use electricity.Negotiate.{
  VersionConfig, slices_contains, known_versions, is_skipped, keep_versions, supported_versions,
  supported_versions_from_max, first_contained, mutual_version, client_versions, negotiate_version,
}

-- A version of the list that passes the tests is kept, and no other.
slices_contains-keep_versions :
    (skipped : ℕ → Bool) (v : ℕ) (versions : List ℕ)
    → slices_contains v (keep_versions skipped versions)
      ≡ (slices_contains v versions && not (skipped v))
unfolding keep_versions
slices_contains-keep_versions skipped v [] = refl
slices_contains-keep_versions skipped v (w ∷ versions) = elim (Bool-cases (w == v)) [
  | inl same ↦
      let e : w ≡ v = ground (arith, same) in
      rw (e) (ground (arith, slices_contains-keep_versions skipped v versions))
  | inr other ↦ ground (arith, slices_contains-keep_versions skipped v versions, other)
]

-- The peer's order decides: none of the versions before the chosen one is supported.
pub data Picks (supported peer : List ℕ) (v : ℕ) : Type 0 where
  picks :
      (before after : List ℕ)
      → peer ≡ before ++ (v ∷ after)
      → slices_contains v supported ≡ true
      → All (λ w. slices_contains w supported ≡ false) before
      → Picks supported peer v

first_contained-Picks :
    (supported peer : List ℕ) (v : ℕ)
    → first_contained supported peer ≡ some v
    → Picks supported peer v
unfolding first_contained
first_contained-Picks supported [] v h = cc
first_contained-Picks supported (w ∷ peer) v h = elim (Bool-cases (slices_contains w supported)) [
  | inl e ↦
      let same : w ≡ v = ground (arith, h, e) in
      picks [] peer (ap (λ x. x ∷ peer) same) (rw (← same) e) tt
  | inr e ↦ elim (first_contained-Picks supported peer v (ground (arith, h, e))) [
    | picks before after split good bad ↦ picks (w ∷ before) after (ap (◌∷◌ w) split) good (e, bad)
  ]
]

first_contained-none :
    (supported peer : List ℕ)
    → first_contained supported peer ≡ none
    → All (λ w. slices_contains w supported ≡ false) peer
unfolding first_contained
first_contained-none supported [] h = tt
first_contained-none supported (w ∷ peer) h = elim (Bool-cases (slices_contains w supported)) [
  | inl e ↦ absurd (ground (arith, h, e))
  | inr e ↦ (e, first_contained-none supported peer (ground (arith, h, e)))
]

slices_contains_middle :
    (before after : List ℕ) (v : ℕ) → slices_contains v (before ++ (v ∷ after)) ≡ true
slices_contains_middle [] after v = ground arith
slices_contains_middle (w ∷ before) after v = ground (arith, slices_contains_middle before after v)

Picks-contains :
    (supported peer : List ℕ) (v : ℕ)
    → Picks supported peer v
    → (slices_contains v peer ≡ true) × (slices_contains v supported ≡ true)
Picks-contains supported peer v (picks before after split good bad) =
    (ap (slices_contains v) split ∙ slices_contains_middle before after v, good)

kept_of :
    (skipped : ℕ → Bool) (v : ℕ) (versions : List ℕ)
    → slices_contains v (keep_versions skipped versions) ≡ true
    → (slices_contains v versions ≡ true) × (skipped v ≡ false)
kept_of skipped v versions h = ground (arith, h, slices_contains-keep_versions skipped v versions)

-- A version that a server may choose.
pub record IsNegotiated (fips : Bool) (c : VersionConfig) (vers : ℕ) (offered : List ℕ) (v : ℕ)
    : Type 0 where
  pub is_known : slices_contains v known_versions ≡ true
  pub above : c.min_version ≤ v
  pub above_default : c.min_version ≡ 0 → version_tls12 ≤ v
  pub under : c.max_version ≢ 0 → v ≤ c.max_version
  pub fips_versions : fips ≡ true → version_tls12 ≤ v
  pub without_extension : is_empty offered ≡ true → (v ≤ version_tls12) × (v ≤ vers)
  pub in_order : Picks (supported_versions fips false (some c)) (client_versions vers offered) v

-- What a server does: it chooses such a version, or the client offered none that is supported.
abbrev pub Negotiates : Bool → VersionConfig → ℕ → List ℕ → Option ℕ → Type 0
Negotiates fips c vers offered (some v) = IsNegotiated fips c vers offered v
Negotiates fips c vers offered none =
    All (λ w. slices_contains w (supported_versions fips false (some c)) ≡ false)
      (client_versions vers offered)

skipped_bounds :
    (fips : Bool) (c : VersionConfig) (v : ℕ)
    → is_skipped fips false (some c) v ≡ false
    → (c.min_version ≤ v)
      × (c.min_version ≡ 0 → version_tls12 ≤ v)
      × (c.max_version ≢ 0 → v ≤ c.max_version)
      × (fips ≡ true → version_tls12 ≤ v)
unfolding is_skipped
skipped_bounds fips c v h = (
  ground (arith, h),
  (λ e. ground (arith, h, e)),
  (λ e. ground (arith, h, e)),
  (λ e. ground (arith, h, e)),
)

without_extension_bound :
    (vers v : ℕ) (offered : List ℕ)
    → slices_contains v (client_versions vers offered) ≡ true
    → is_empty offered ≡ true
    → (v ≤ version_tls12) × (v ≤ vers)
unfolding client_versions supported_versions_from_max
without_extension_bound vers v offered h none_offered = elim (Bool-cases (leb version_tls13 vers)) [
  | inl e ↦
      let there : slices_contains v (keep_versions (ltb version_tls12) known_versions) ≡ true =
        ground (arith, h, e, none_offered) in
      let kept = kept_of (ltb version_tls12) v known_versions there in ground (arith, kept.1, e)
  | inr e ↦
      let there : slices_contains v (keep_versions (ltb vers) known_versions) ≡ true =
        ground (arith, h, e, none_offered) in
      let kept = kept_of (ltb vers) v known_versions there in ground (arith, kept.1, e)
]

chosen-IsNegotiated :
    (fips : Bool) (c : VersionConfig) (vers v : ℕ) (offered : List ℕ)
    → Picks (supported_versions fips false (some c)) (client_versions vers offered) v
    → IsNegotiated fips c vers offered v
unfolding supported_versions
chosen-IsNegotiated fips c vers v offered picked =
    let (offered_, good) =
      Picks-contains (supported_versions fips false (some c)) (client_versions vers offered) v
        picked in
    let (known, passed) = kept_of (is_skipped fips false (some c)) v known_versions good in
    let (above, above_default, under, fips_versions) = skipped_bounds fips c v passed in
    record {
      is_known = known;
      above = above;
      above_default = above_default;
      under = under;
      fips_versions = fips_versions;
      without_extension = without_extension_bound vers v offered offered_;
      in_order = picked;
    }

-- A server chooses the first version of the client's list that it supports: one that is known, within
-- the limits of its Config (TLS 1.2 at least where there is no minimum, and under FIPS), and at most
-- TLS 1.2 and the version of the hello if the hello has no supported_versions. It chooses none exactly
-- when it supports none of the list.
pub negotiate_version-Negotiates :
    (fips : Bool) (c : VersionConfig) (vers : ℕ) (offered : List ℕ)
    → Negotiates fips c vers offered (negotiate_version fips c vers offered)
unfolding negotiate_version mutual_version
negotiate_version-Negotiates fips c vers offered =
    let supported = supported_versions fips false (some c) in
    let peer = client_versions vers offered in
    elim (Option-cases (first_contained supported peer)) [
      | inl e ↦
          subst (Negotiates fips c vers offered) (sym e) (first_contained-none supported peer e)
      | inr (v, e) ↦
          subst (Negotiates fips c vers offered) (sym e)
            (chosen-IsNegotiated fips c vers v offered (first_contained-Picks supported peer v e))
    ]
