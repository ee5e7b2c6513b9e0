-- ===== src/Negotiate.antt =====
-- common.go and handshake_server.go: the choice of the protocol version by a server.
use electricity.Common.{
  ℕ, ◌≡◌, Bool, true, false, not, ◌&&◌, ◌||◌, ◌==◌, ltb, leb, Option, none, some, List, [], ◌∷◌,
  is_empty, if◌then◌else◌,
}
use electricity.Const.{version_tls10, version_tls11, version_tls12, version_tls13}
pub mod Chosen

-- The part of `Config` that versions depend on; `has_ech_configs` says that
-- EncryptedClientHelloConfigList is not nil.
pub record VersionConfig : Type 0 where
  pub min_version : ℕ
  pub max_version : ℕ
  pub has_ech_configs : Bool

-- `slices.Contains`
abbrev pub slices_contains : ℕ → List ℕ → Bool
slices_contains v [] = false
slices_contains v (w ∷ versions) = (w == v) || slices_contains v versions

-- `supportedVersions`, the variable.
abbrev pub known_versions : List ℕ
known_versions = version_tls13 ∷ (version_tls12 ∷ (version_tls11 ∷ (version_tls10 ∷ [])))

abbrev pub allowed_supported_versions_fips : List ℕ
allowed_supported_versions_fips = version_tls12 ∷ (version_tls13 ∷ [])

-- What a Config that is not nil leaves out.
abbrev pub outside : VersionConfig → ℕ → Bool
outside c v =
    (not (c.min_version == 0) && ltb v c.min_version)
    || (not (c.max_version == 0) && ltb c.max_version v)

-- The conditions of the loop in the method `supportedVersions`; a nil Config is `none`, and `fips` is
-- `fips140tls.Required()`.
unfoldable pub is_skipped : Bool → Bool → Option VersionConfig → ℕ → Bool
is_skipped fips is_client none v =
    (fips && not (slices_contains v allowed_supported_versions_fips)) || ltb v version_tls12
is_skipped fips is_client (some c) v =
    (fips && not (slices_contains v allowed_supported_versions_fips))
    || (((c.min_version == 0) && ltb v version_tls12)
        || ((is_client && (c.has_ech_configs && ltb v version_tls13)) || outside c v))

unfoldable pub keep_versions : (ℕ → Bool) → List ℕ → List ℕ
keep_versions skipped [] = []
keep_versions skipped (v ∷ versions) =
    let rest = keep_versions skipped versions in if skipped v then rest else v ∷ rest

unfoldable pub supported_versions : Bool → Bool → Option VersionConfig → List ℕ
unfolding keep_versions is_skipped
supported_versions fips is_client c = keep_versions (is_skipped fips is_client c) known_versions

unfoldable pub supported_versions_from_max : ℕ → List ℕ
unfolding keep_versions
supported_versions_from_max max_version = keep_versions (ltb max_version) known_versions

-- The loop of `mutualVersion`: the first version of the peer that is supported.
unfoldable pub first_contained : List ℕ → List ℕ → Option ℕ
first_contained supported [] = none
first_contained supported (v ∷ peer_versions) =
    let rest = first_contained supported peer_versions in
    if slices_contains v supported then some v else rest

unfoldable pub mutual_version : Bool → Bool → Option VersionConfig → List ℕ → Option ℕ
unfolding supported_versions first_contained
mutual_version fips is_client c peer_versions =
    first_contained (supported_versions fips is_client c) peer_versions

-- `clientVersions` of `readClientHello`: from the extension, or from the version of the hello.
unfoldable pub client_versions : ℕ → List ℕ → List ℕ
unfolding supported_versions_from_max
client_versions vers offered =
    if leb version_tls13 vers && is_empty offered
    then supported_versions_from_max version_tls12
    else if is_empty offered
    then supported_versions_from_max vers
    else offered

-- The version that `readClientHello` sets, or `none` for its alert protocol_version.
unfoldable pub negotiate_version : Bool → VersionConfig → ℕ → List ℕ → Option ℕ
unfolding mutual_version client_versions
negotiate_version fips c vers offered =
    mutual_version fips false (some c) (client_versions vers offered)
