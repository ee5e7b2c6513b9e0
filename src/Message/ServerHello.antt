-- ===== src/Message/ServerHello.antt =====
-- handshake_messages.go: serverHelloMsg, which the REALITY server reads from its target and sends
-- on with its own key share. Strings and slices that are absent are empty, as in the source.
use electricity.Common.{
  ℕ, ◌<◌, ◌≡◌, ◌⊎◌, Bool, true, false, Option, none, some, List, [], ◌∷◌, ◌++◌, not, ◌==◌, length,
  is_empty, All, if◌then◌else◌, Outcome, ok, fail, ◌>>=◌, ◌>>◌, lift, guard, bind?,
}
use electricity.Wire.{Cryptobyte}
use electricity.Wire.Build.{◌⊕◌, message, build_list}
use electricity.Wire.Parse.{read_all}
use electricity.Wire.Extensions.{Handler, optional, extension, flag, read_extensions}
use electricity.Wire.Fresh.{no_duplicates}
use electricity.Const.MessageType
use electricity.Const.Extension
use electricity.Message.Encrypted.{alpn_body, read_alpn}
pub mod Parts
pub mod RoundTrip

pub record KeyShare : Type 0 where
  pub group : ℕ
  pub key_data : List ℕ

pub record ServerHelloMsg : Type 0 where
  pub original : List ℕ
  pub vers : ℕ
  pub random : List ℕ
  pub session_id : List ℕ
  pub cipher_suite : ℕ
  pub compression_method : ℕ
  pub ocsp_stapling : Bool
  pub ticket_supported : Bool
  pub secure_renegotiation_supported : Bool
  pub secure_renegotiation : List ℕ
  pub extended_master_secret : Bool
  pub alpn_protocol : List ℕ
  pub scts : List (List ℕ)
  pub supported_version : ℕ
  pub server_share : KeyShare
  pub selected_identity_present : Bool
  pub selected_identity : ℕ
  pub supported_points : List ℕ
  pub encrypted_client_hello : List ℕ
  pub server_name_ack : Bool
  pub cookie : List ℕ
  pub selected_group : ℕ

-- The message before its extensions are read: the fixed fields, and zero values for the others.
abbrev pub fixed_fields : List ℕ → ℕ → List ℕ → List ℕ → ℕ → ℕ → ServerHelloMsg
fixed_fields original vers random session_id cipher_suite compression_method = record {
  original = original;
  vers = vers;
  random = random;
  session_id = session_id;
  cipher_suite = cipher_suite;
  compression_method = compression_method;
  ocsp_stapling = false;
  ticket_supported = false;
  secure_renegotiation_supported = false;
  secure_renegotiation = [];
  extended_master_secret = false;
  alpn_protocol = [];
  scts = [];
  supported_version = 0;
  server_share = record { group = 0; key_data = [] };
  selected_identity_present = false;
  selected_identity = 0;
  supported_points = [];
  encrypted_client_hello = [];
  server_name_ack = false;
  cookie = [];
  selected_group = 0;
}

-- What a message must meet to survive the wire: numbers of their widths, no field set whose
-- extension is not written, no empty SCT, and one key_share extension at most.
pub record IsValid (m : ServerHelloMsg) : Type 0 where
  pub vers_fits : m.vers < 65536
  pub cipher_suite_fits : m.cipher_suite < 65536
  pub compression_method_fits : m.compression_method < 256
  pub supported_version_fits : m.supported_version < 65536
  pub group_fits : m.server_share.group < 65536
  pub selected_group_fits : m.selected_group < 65536
  pub selected_identity_fits : m.selected_identity < 65536
  pub renegotiation_shown : m.secure_renegotiation_supported ≡ false → m.secure_renegotiation ≡ []
  pub identity_shown : m.selected_identity_present ≡ false → m.selected_identity ≡ 0
  pub share_shown : m.server_share.group ≡ 0 → m.server_share.key_data ≡ []
  pub scts_full : All (λ sct. is_empty sct ≡ false) m.scts
  pub one_share : (m.selected_group ≡ 0) ⊎ (m.server_share.group ≡ 0)

-- `addBytesWithLength`: an error if the length is not `n`.
abbrev pub add_bytes_with_length : List ℕ → ℕ → Option (List ℕ)
add_bytes_with_length v n = if length v == n then some v else none

module _ (cb : Cryptobyte) where
  open cb use {put, put_prefixed, skip, read, read_bytes, read_prefixed}

  -- The bodies of the extensions that have one.
  abbrev pub sct_body : List (List ℕ) → Option (List ℕ)
  sct_body scts = bind? (build_list (put_prefixed 2) scts) (put_prefixed 2)

  abbrev pub share_body : KeyShare → Option (List ℕ)
  share_body share = some (put 2 share.group) ⊕ put_prefixed 2 share.key_data

  abbrev pub group_parts : ServerHelloMsg → Option (List ℕ)
  group_parts m =
      optional (not (m.selected_group == 0))
        (extension cb Extension.key_share (some (put 2 m.selected_group)))

  abbrev pub tail_parts : ServerHelloMsg → Option (List ℕ)
  tail_parts m =
      optional (not (is_empty m.supported_points))
        (extension cb Extension.supported_points (put_prefixed 1 m.supported_points))
      ⊕ optional (not (is_empty m.encrypted_client_hello))
          (extension cb Extension.encrypted_client_hello (some m.encrypted_client_hello))
      ⊕ optional m.server_name_ack (flag cb Extension.server_name)

  -- The extensions in the order of the source.
  abbrev pub server_hello_parts : ServerHelloMsg → Option (List ℕ)
  server_hello_parts m =
      optional m.ocsp_stapling (flag cb Extension.status_request)
      ⊕ optional m.ticket_supported (flag cb Extension.session_ticket)
      ⊕ optional m.secure_renegotiation_supported
          (extension cb Extension.renegotiation_info (put_prefixed 1 m.secure_renegotiation))
      ⊕ optional m.extended_master_secret (flag cb Extension.extended_master_secret)
      ⊕ optional (not (is_empty m.alpn_protocol))
          (extension cb Extension.alpn (alpn_body cb m.alpn_protocol))
      ⊕ optional (not (is_empty m.scts)) (extension cb Extension.sct (sct_body m.scts))
      ⊕ optional (not (m.supported_version == 0))
          (extension cb Extension.supported_versions (some (put 2 m.supported_version)))
      ⊕ optional (not (m.server_share.group == 0))
          (extension cb Extension.key_share (share_body m.server_share))
      ⊕ optional m.selected_identity_present
          (extension cb Extension.pre_shared_key (some (put 2 m.selected_identity)))
      ⊕ optional (not (is_empty m.cookie)) (extension cb Extension.cookie (put_prefixed 2 m.cookie))
      ⊕ group_parts m
      ⊕ tail_parts m

  -- The extension block stands only if there is an extension.
  abbrev pub block : List ℕ → Option (List ℕ)
  block ext_bytes = if is_empty ext_bytes then some [] else put_prefixed 2 ext_bytes

  abbrev pub server_hello_body : ServerHelloMsg → List ℕ → Option (List ℕ)
  server_hello_body m ext_bytes =
      some (put 2 m.vers)
      ⊕ add_bytes_with_length m.random 32
      ⊕ put_prefixed 1 m.session_id
      ⊕ some (put 2 m.cipher_suite)
      ⊕ some (put 1 m.compression_method)
      ⊕ block ext_bytes

  unfoldable pub marshal_server_hello : ServerHelloMsg → Option (List ℕ)
  marshal_server_hello m =
      bind? (server_hello_parts m)
        λ ext_bytes. message cb MessageType.server_hello (server_hello_body m ext_bytes)

  -- `readUint16LengthPrefixed(&sctList, &sct) || len(sct) == 0`
  abbrev pub read_sct : List ℕ → Option (List ℕ × List ℕ)
  read_sct s =
      bind? (read_prefixed 2 s) λ (sct, rest). if is_empty sct then none else some (sct, rest)

  unfoldable pub read_scts : List ℕ → Outcome (List (List ℕ) × List ℕ)
  read_scts ext_data = do
    (sct_list, left) ← lift (read_prefixed 2 ext_data)
    guard (not (is_empty sct_list))
    scts ← read_all read_sct sct_list
    ok (scts, left)

  -- A key_share extension of two bytes is that of a HelloRetryRequest.
  unfoldable pub read_key_share : List ℕ → ServerHelloMsg → Outcome (ServerHelloMsg × List ℕ)
  read_key_share ext_data m =
      if length ext_data == 2
      then (do
        (group, left) ← lift (read 2 ext_data)
        ok (record m { selected_group = group }, left))
      else do
        (group, s) ← lift (read 2 ext_data)
        (key_data, left) ← lift (read_prefixed 2 s)
        ok (record m { server_share = record { group = group; key_data = key_data } }, left)

  -- The `switch extension`. An unknown extension is passed over, whatever its data.
  unfoldable pub handle_server_extension : Handler ServerHelloMsg
  handle_server_extension ext ext_data rest m =
      if ext == Extension.status_request
      then ok (record m { ocsp_stapling = true }, ext_data)
      else if ext == Extension.session_ticket
      then ok (record m { ticket_supported = true }, ext_data)
      else if ext == Extension.renegotiation_info
      then (do
        (info, left) ← lift (read_prefixed 1 ext_data)
        ok (record m { secure_renegotiation_supported = true; secure_renegotiation = info }, left))
      else if ext == Extension.extended_master_secret
      then ok (record m { extended_master_secret = true }, ext_data)
      else if ext == Extension.alpn
      then (do (proto, left) ← read_alpn cb ext_data; ok (record m { alpn_protocol = proto }, left))
      else if ext == Extension.sct
      then (do (scts, left) ← read_scts ext_data; ok (record m { scts = scts }, left))
      else if ext == Extension.supported_versions
      then (do
        (version, left) ← lift (read 2 ext_data)
        ok (record m { supported_version = version }, left))
      else if ext == Extension.cookie
      then (do
        (cookie, left) ← lift (read_prefixed 2 ext_data)
        guard (not (is_empty cookie))
        ok (record m { cookie = cookie }, left))
      else if ext == Extension.key_share
      then read_key_share ext_data m
      else if ext == Extension.pre_shared_key
      then (do
        (identity, left) ← lift (read 2 ext_data)
        ok (record m { selected_identity_present = true; selected_identity = identity }, left))
      else if ext == Extension.supported_points
      then (do
        (points, left) ← lift (read_prefixed 1 ext_data)
        guard (not (is_empty points))
        ok (record m { supported_points = points }, left))
      else if ext == Extension.encrypted_client_hello
      then (do
        (hello, left) ← lift (read_bytes (length ext_data) ext_data)
        ok (record m { encrypted_client_hello = hello }, left))
      else if ext == Extension.server_name
      then (do guard (is_empty ext_data); ok (record m { server_name_ack = true }, ext_data))
      else ok (m, [])

  -- What follows the fixed fields: nothing, or a block of extensions up to the end.
  unfoldable pub read_block : ServerHelloMsg → List ℕ → Outcome ServerHelloMsg
  read_block m [] = ok m
  read_block m (b ∷ s) = do
    (extensions, s₁) ← lift (read_prefixed 2 (b ∷ s))
    guard (is_empty s₁)
    (m', _) ← read_extensions cb (no_duplicates handle_server_extension) extensions (m, [])
    ok m'

  unfoldable pub unmarshal_server_hello : List ℕ → Outcome ServerHelloMsg
  unmarshal_server_hello bytes = do
    s ← lift (skip 4 bytes)
    (vers, s₁) ← lift (read 2 s)
    (random, s₂) ← lift (read_bytes 32 s₁)
    (session_id, s₃) ← lift (read_prefixed 1 s₂)
    (cipher_suite, s₄) ← lift (read 2 s₃)
    (compression_method, s₅) ← lift (read 1 s₄)
    read_block (fixed_fields bytes vers random session_id cipher_suite compression_method) s₅
