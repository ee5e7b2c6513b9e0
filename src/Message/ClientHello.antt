-- ===== src/Message/ClientHello.antt =====
-- handshake_messages.go: clientHelloMsg as the server reads it. Strings and slices that are absent
-- are empty, as in the source; `none` is a nil quicTransportParameters.
use electricity.Common.{
  ℕ, Bool, true, false, Option, none, some, List, [], ◌∷◌, ◌++◌, not, ◌==◌, length, is_empty,
  if◌then◌else◌, Outcome, ok, fail, ◌>>=◌, ◌>>◌, lift, guard, bind?,
}
use electricity.Wire.{Cryptobyte}
use electricity.Wire.Parse.{read_all}
use electricity.Wire.Extensions.{Handler, read_extensions}
use electricity.Wire.Fresh.{contains, no_duplicates}
use electricity.Const.{scsv_renegotiation, status_type_ocsp}
use electricity.Const.Extension
use electricity.Message.ServerHello.{KeyShare}
pub mod ServerName

pub record PskIdentity : Type 0 where
  pub label : List ℕ
  pub obfuscated_ticket_age : ℕ

pub record ClientHelloMsg : Type 0 where
  pub original : List ℕ
  pub vers : ℕ
  pub random : List ℕ
  pub session_id : List ℕ
  pub cipher_suites : List ℕ
  pub compression_methods : List ℕ
  pub server_name : List ℕ
  pub ocsp_stapling : Bool
  pub supported_curves : List ℕ
  pub supported_points : List ℕ
  pub ticket_supported : Bool
  pub session_ticket : List ℕ
  pub supported_signature_algorithms : List ℕ
  pub supported_signature_algorithms_cert : List ℕ
  pub secure_renegotiation_supported : Bool
  pub secure_renegotiation : List ℕ
  pub extended_master_secret : Bool
  pub alpn_protocols : List (List ℕ)
  pub scts : Bool
  pub supported_versions : List ℕ
  pub cookie : List ℕ
  pub key_shares : List KeyShare
  pub early_data : Bool
  pub psk_modes : List ℕ
  pub psk_identities : List PskIdentity
  pub psk_binders : List (List ℕ)
  pub quic_transport_parameters : Option (List ℕ)
  pub encrypted_client_hello : List ℕ
  pub extensions : List ℕ

-- The message before its extensions are read.
abbrev pub fixed_fields : List ℕ → ℕ → List ℕ → List ℕ → List ℕ → Bool → List ℕ → ClientHelloMsg
fixed_fields original vers random session_id cipher_suites renegotiation compression_methods =
    record {
      original = original;
      vers = vers;
      random = random;
      session_id = session_id;
      cipher_suites = cipher_suites;
      compression_methods = compression_methods;
      server_name = [];
      ocsp_stapling = false;
      supported_curves = [];
      supported_points = [];
      ticket_supported = false;
      session_ticket = [];
      supported_signature_algorithms = [];
      supported_signature_algorithms_cert = [];
      secure_renegotiation_supported = renegotiation;
      secure_renegotiation = [];
      extended_master_secret = false;
      alpn_protocols = [];
      scts = false;
      supported_versions = [];
      cookie = [];
      key_shares = [];
      early_data = false;
      psk_modes = [];
      psk_identities = [];
      psk_binders = [];
      quic_transport_parameters = none;
      encrypted_client_hello = [];
      extensions = [];
    }

-- `strings.HasSuffix(name, ".")`
abbrev pub has_trailing_dot : List ℕ → Bool
has_trailing_dot [] = false
has_trailing_dot (c ∷ []) = c == b'.'
has_trailing_dot (c ∷ c' ∷ cs) = has_trailing_dot (c' ∷ cs)

-- The names of a server_name list that is read already, from the one found so far: types other than
-- host_name are passed over, and a second host name or a trailing dot is refused.
unfoldable pub host_name : List ℕ → List (ℕ × List ℕ) → Outcome (List ℕ)
host_name found [] = ok found
host_name found ((name_type, name) ∷ names) =
    let skipped = host_name found names in
    let taken = host_name name names in
    if not (name_type == 0)
    then skipped
    else if not (is_empty found)
    then fail
    else if has_trailing_dot name
    then fail
    else taken

module _ (cb : Cryptobyte) where
  open cb use {skip, read, read_bytes, read_prefixed}

  -- A read of a prefixed string that must not be empty.
  abbrev pub read_full : ℕ → List ℕ → Option (List ℕ × List ℕ)
  read_full w s = bind? (read_prefixed w s) λ (a, rest). if is_empty a then none else some (a, rest)

  -- One entry of a server_name list.
  abbrev pub read_name : List ℕ → Option ((ℕ × List ℕ) × List ℕ)
  read_name s =
      bind? (read 1 s)
        λ (name_type, s₁). bind? (read_full 2 s₁) λ (name, s₂). some ((name_type, name), s₂)

  -- One key share; its data must not be empty.
  abbrev pub read_share : List ℕ → Option (KeyShare × List ℕ)
  read_share s = bind? (read 2 s) λ (group, s₁).
      bind? (read_full 2 s₁)
        λ (key_data, s₂). some (record { group = group; key_data = key_data }, s₂)

  -- One identity of a pre_shared_key extension; its label must not be empty.
  abbrev pub read_identity : List ℕ → Option (PskIdentity × List ℕ)
  read_identity s = bind? (read_prefixed 2 s) λ (label, s₁). bind? (read 4 s₁) λ (age, s₂).
      if is_empty label
      then none
      else some (record { label = label; obfuscated_ticket_age = age }, s₂)

  -- A list under a length prefix of `w` bytes that must not be empty, item by item.
  unfoldable pub read_items {ℓ} :
      {A : Type ℓ} → ℕ → (List ℕ → Option (A × List ℕ)) → List ℕ → Outcome (List A × List ℕ)
  read_items w item ext_data = do
    (bytes, left) ← lift (read_full w ext_data)
    items ← read_all item bytes
    ok (items, left)

  unfoldable pub read_server_name : List ℕ → ClientHelloMsg → Outcome (ClientHelloMsg × List ℕ)
  read_server_name ext_data m = do
    (names, left) ← read_items 2 read_name ext_data
    name ← host_name m.server_name names
    ok (record m { server_name = name }, left)

  unfoldable pub read_status_request : List ℕ → ClientHelloMsg → Outcome (ClientHelloMsg × List ℕ)
  read_status_request ext_data m = do
    (status_type, s₁) ← lift (read 1 ext_data)
    (_, s₂) ← lift (read_prefixed 2 s₁)
    (_, left) ← lift (read_prefixed 2 s₂)
    ok (record m { ocsp_stapling = status_type == status_type_ocsp }, left)

  unfoldable pub read_client_shares : List ℕ → ClientHelloMsg → Outcome (ClientHelloMsg × List ℕ)
  read_client_shares ext_data m = do
    (bytes, left) ← lift (read_prefixed 2 ext_data)
    shares ← read_all read_share bytes
    ok (record m { key_shares = shares }, left)

  -- `rest` are the extensions behind this one: there must be none.
  unfoldable pub read_pre_shared_key :
      List ℕ → List ℕ → ClientHelloMsg → Outcome (ClientHelloMsg × List ℕ)
  read_pre_shared_key ext_data rest m = do
    guard (is_empty rest)
    (identities, s₁) ← read_items 2 read_identity ext_data
    (binders, left) ← read_items 2 (read_full 1) s₁
    ok (record m { psk_identities = identities; psk_binders = binders }, left)

  -- The `switch extension` for the extensions that TLS 1.2 knows.
  unfoldable pub handle_legacy_extension : Handler ClientHelloMsg → Handler ClientHelloMsg
  handle_legacy_extension others ext ext_data rest m =
      if ext == Extension.server_name
      then read_server_name ext_data m
      else if ext == Extension.status_request
      then read_status_request ext_data m
      else if ext == Extension.supported_curves
      then (do
        (curves, left) ← read_items 2 (read 2) ext_data
        ok (record m { supported_curves = curves }, left))
      else if ext == Extension.supported_points
      then (do
        (points, left) ← lift (read_full 1 ext_data)
        ok (record m { supported_points = points }, left))
      else if ext == Extension.session_ticket
      then (do
        (ticket, left) ← lift (read_bytes (length ext_data) ext_data)
        ok (record m { ticket_supported = true; session_ticket = ticket }, left))
      else if ext == Extension.signature_algorithms
      then (do
        (algs, left) ← read_items 2 (read 2) ext_data
        ok (record m { supported_signature_algorithms = algs }, left))
      else if ext == Extension.signature_algorithms_cert
      then (do
        (algs, left) ← read_items 2 (read 2) ext_data
        ok (record m { supported_signature_algorithms_cert = algs }, left))
      else if ext == Extension.renegotiation_info
      then (do
        (info, left) ← lift (read_prefixed 1 ext_data)
        ok (record m { secure_renegotiation = info; secure_renegotiation_supported = true }, left))
      else if ext == Extension.extended_master_secret
      then ok (record m { extended_master_secret = true }, ext_data)
      else if ext == Extension.alpn
      then (do
        (protos, left) ← read_items 2 (read_full 1) ext_data
        ok (record m { alpn_protocols = protos }, left))
      else if ext == Extension.sct
      then ok (record m { scts = true }, ext_data)
      else others ext ext_data rest m

  -- The rest of the switch. An unknown extension is passed over, whatever its data.
  unfoldable pub handle_modern_extension : Handler ClientHelloMsg
  handle_modern_extension ext ext_data rest m =
      if ext == Extension.supported_versions
      then (do
        (versions, left) ← read_items 1 (read 2) ext_data
        ok (record m { supported_versions = versions }, left))
      else if ext == Extension.cookie
      then (do
        (cookie, left) ← lift (read_full 2 ext_data)
        ok (record m { cookie = cookie }, left))
      else if ext == Extension.key_share
      then read_client_shares ext_data m
      else if ext == Extension.early_data
      then ok (record m { early_data = true }, ext_data)
      else if ext == Extension.psk_modes
      then (do
        (modes, left) ← lift (read_prefixed 1 ext_data)
        ok (record m { psk_modes = modes }, left))
      else if ext == Extension.quic_transport_parameters
      then (do
        (params, left) ← lift (read_bytes (length ext_data) ext_data)
        ok (record m { quic_transport_parameters = some params }, left))
      else if ext == Extension.pre_shared_key
      then read_pre_shared_key ext_data rest m
      else if ext == Extension.encrypted_client_hello
      then (do
        (hello, left) ← lift (read_bytes (length ext_data) ext_data)
        ok (record m { encrypted_client_hello = hello }, left))
      else ok (m, [])

  -- `m.extensions = append(m.extensions, extension)`, then the switch.
  unfoldable pub handle_client_extension : Handler ClientHelloMsg
  handle_client_extension ext ext_data rest m =
      handle_legacy_extension handle_modern_extension ext ext_data rest
        (record m { extensions = m.extensions ++ (ext ∷ []) })

  -- What follows the fixed fields: nothing, or a block of extensions up to the end.
  unfoldable pub read_client_block : ClientHelloMsg → List ℕ → Outcome ClientHelloMsg
  read_client_block m [] = ok m
  read_client_block m (b ∷ s) = do
    (extensions, s₁) ← lift (read_prefixed 2 (b ∷ s))
    guard (is_empty s₁)
    (m', _) ← read_extensions cb (no_duplicates handle_client_extension) extensions (m, [])
    ok m'

  unfoldable pub unmarshal_client_hello : List ℕ → Outcome ClientHelloMsg
  unmarshal_client_hello bytes = do
    s ← lift (skip 4 bytes)
    (vers, s₁) ← lift (read 2 s)
    (random, s₂) ← lift (read_bytes 32 s₁)
    (session_id, s₃) ← lift (read_prefixed 1 s₂)
    (suite_bytes, s₄) ← lift (read_prefixed 2 s₃)
    cipher_suites ← read_all (read 2) suite_bytes
    (compression_methods, s₅) ← lift (read_prefixed 1 s₄)
    let renegotiation = contains cipher_suites scsv_renegotiation
    read_client_block
        (fixed_fields bytes vers random session_id cipher_suites renegotiation compression_methods)
        s₅
