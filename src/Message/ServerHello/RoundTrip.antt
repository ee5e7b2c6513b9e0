-- ===== src/Message/ServerHello/RoundTrip.antt =====
-- serverHelloMsg: what was written is read back.
use electricity.Common.{
  ℕ, ◌≡◌, refl, ◌∙◌, ◌⊎◌, inl, inr, false, Option, some, List, [], ◌∷◌, ◌++◌, not, arith, ◌==◌,
  length, is_empty, ok, ◌>>=◌, lift, bind?-eq-some,
}
use electricity.Wire.{Cryptobyte}
use electricity.Wire.Build.{
  ◌⊕◌, message, ⊕-eq-some, skip-message, read_prefixed_end, read_prefixed-put_prefixed,
  put_prefixed-ne-empty,
}
use electricity.Wire.Extensions.{optional, extension, extension_loop, read_extensions}
use electricity.Wire.Fresh.{
  no_duplicates, AddsFresh, AddsFresh-⊕, AddsFresh-weaken, AddsFresh-none, read-AddsFresh,
}
use electricity.Const.MessageType
use electricity.Const.Extension
use electricity.Message.Encrypted.{alpn_body}
use electricity.Message.ServerHello.{
  ServerHelloMsg, IsValid, fixed_fields, add_bytes_with_length, sct_body, share_body, group_parts,
  tail_parts, server_hello_parts, block, server_hello_body, marshal_server_hello,
  handle_server_extension, read_block, unmarshal_server_hello,
}
use electricity.Message.ServerHello.Parts.{
  ocsp_part, ticket_part, renegotiation_part, master_secret_part, alpn_part, sct_part, version_part,
  share_part, identity_part, cookie_part, group_part, points_part, hello_part, name_part,
}

-- The message after each part, from the fixed fields on.
module _ (m : ServerHelloMsg) where
  abbrev read₀ : ServerHelloMsg
  read₀ = fixed_fields m.original m.vers m.random m.session_id m.cipher_suite m.compression_method

  abbrev read₄ : ServerHelloMsg
  read₄ = record read₀ {
    ocsp_stapling = m.ocsp_stapling;
    ticket_supported = m.ticket_supported;
    secure_renegotiation_supported = m.secure_renegotiation_supported;
    secure_renegotiation = m.secure_renegotiation;
    extended_master_secret = m.extended_master_secret;
  }

  abbrev read₇ : ServerHelloMsg
  read₇ = record read₄ {
    alpn_protocol = m.alpn_protocol;
    scts = m.scts;
    supported_version = m.supported_version;
  }

  abbrev read₁₀ : ServerHelloMsg
  read₁₀ = record read₇ {
    server_share = m.server_share;
    selected_identity_present = m.selected_identity_present;
    selected_identity = m.selected_identity;
    cookie = m.cookie;
  }

  abbrev read₁₁ : ServerHelloMsg
  read₁₁ = record read₁₀ { selected_group = m.selected_group }

module _ (cb : Cryptobyte) (m : ServerHelloMsg) (v : IsValid m) where
  open cb use {put, put_prefixed}

  abbrev tail_ids : List ℕ
  tail_ids =
      Extension.supported_points ∷ Extension.encrypted_client_hello ∷ Extension.server_name ∷ []

  tail : AddsFresh cb (handle_server_extension cb) tail_ids (tail_parts cb m) (read₁₁ m) m
  tail =
      let handle = handle_server_extension cb in
      let n₁ = record (read₁₁ m) { supported_points = m.supported_points } in
      let n₂ = record n₁ { encrypted_client_hello = m.encrypted_client_hello } in
      AddsFresh-⊕ cb handle (refl, (refl, tt)) (points_part cb m (read₁₁ m) refl)
        (AddsFresh-⊕ cb handle (refl, tt) (hello_part cb m n₁ refl) (name_part cb m n₂ refl))

  abbrev mid_ids : List ℕ
  mid_ids = Extension.key_share ∷ Extension.pre_shared_key ∷ Extension.cookie ∷ tail_ids

  abbrev mid_parts : Option (List ℕ)
  mid_parts =
      optional (not (m.server_share.group == 0))
        (extension cb Extension.key_share (share_body cb m.server_share))
      ⊕ optional m.selected_identity_present
          (extension cb Extension.pre_shared_key (some (put 2 m.selected_identity)))
      ⊕ optional (not (is_empty m.cookie)) (extension cb Extension.cookie (put_prefixed 2 m.cookie))
      ⊕ group_parts cb m
      ⊕ tail_parts cb m

  -- Without a selected group the first key_share part may stand; without a share, the second.
  mid :
      (m.selected_group ≡ 0) ⊎ (m.server_share.group ≡ 0)
      → AddsFresh cb (handle_server_extension cb) mid_ids mid_parts (read₇ m) m
  mid (inl no_group) =
      let handle = handle_server_extension cb in
      let n₁ = record (read₇ m) { server_share = m.server_share } in
      let n₂ = record n₁ {
        selected_identity_present = m.selected_identity_present;
        selected_identity = m.selected_identity;
      } in
      AddsFresh-⊕ cb handle (refl, (refl, (refl, (refl, (refl, tt)))))
        (share_part cb m (read₇ m) v.group_fits v.share_shown refl)
        (AddsFresh-⊕ cb handle (refl, (refl, (refl, (refl, tt))))
          (identity_part cb m n₁ v.selected_identity_fits v.identity_shown refl refl)
          (AddsFresh-⊕ cb handle (refl, (refl, (refl, tt))) (cookie_part cb m n₂ refl)
            (AddsFresh-none cb handle (rw no_group) (ground arith) tail)))
  mid (inr no_share) =
      let handle = handle_server_extension cb in
      let n₁ = record (read₇ m) { server_share = m.server_share } in
      let n₂ = record n₁ {
        selected_identity_present = m.selected_identity_present;
        selected_identity = m.selected_identity;
      } in
      AddsFresh-weaken cb handle mid_ids
        (λ seen (share, (identity, (cookie, rest))). (identity, (cookie, (share, rest))))
        (λ k h. ground arith)
        (AddsFresh-none cb handle (rw no_share) (ground (arith, v.share_shown no_share)) (
          AddsFresh-⊕ cb handle (refl, (refl, (refl, (refl, (refl, tt)))))
            (identity_part cb m n₁ v.selected_identity_fits v.identity_shown refl refl)
            (AddsFresh-⊕ cb handle (refl, (refl, (refl, (refl, tt)))) (cookie_part cb m n₂ refl)
              (AddsFresh-⊕ cb handle (refl, (refl, (refl, tt)))
                (group_part cb m (read₁₀ m) v.selected_group_fits refl) tail))))

  abbrev late_ids : List ℕ
  late_ids = Extension.alpn ∷ Extension.sct ∷ Extension.supported_versions ∷ mid_ids

  abbrev late_parts : Option (List ℕ)
  late_parts =
      optional (not (is_empty m.alpn_protocol))
        (extension cb Extension.alpn (alpn_body cb m.alpn_protocol))
      ⊕ optional (not (is_empty m.scts)) (extension cb Extension.sct (sct_body cb m.scts))
      ⊕ optional (not (m.supported_version == 0))
          (extension cb Extension.supported_versions (some (put 2 m.supported_version)))
      ⊕ mid_parts

  late : AddsFresh cb (handle_server_extension cb) late_ids late_parts (read₄ m) m
  late =
      let handle = handle_server_extension cb in
      let n₁ = record (read₄ m) { alpn_protocol = m.alpn_protocol } in
      let n₂ = record n₁ { scts = m.scts } in
      AddsFresh-⊕ cb handle (refl, (refl, (refl, (refl, (refl, (refl, (refl, (refl, tt))))))))
        (alpn_part cb m (read₄ m) refl)
        (AddsFresh-⊕ cb handle (refl, (refl, (refl, (refl, (refl, (refl, (refl, tt)))))))
          (sct_part cb m n₁ v.scts_full refl)
          (AddsFresh-⊕ cb handle (refl, (refl, (refl, (refl, (refl, (refl, tt))))))
            (version_part cb m n₂ v.supported_version_fits refl) (mid v.one_share)))

  abbrev all_ids : List ℕ
  all_ids =
      Extension.status_request ∷ Extension.session_ticket ∷ Extension.renegotiation_info
      ∷ Extension.extended_master_secret ∷ late_ids

  whole : AddsFresh cb (handle_server_extension cb) all_ids (server_hello_parts cb m) (read₀ m) m
  whole =
      let handle = handle_server_extension cb in
      let n₁ = record (read₀ m) { ocsp_stapling = m.ocsp_stapling } in
      let n₂ = record n₁ { ticket_supported = m.ticket_supported } in
      let n₃ = record n₂ {
        secure_renegotiation_supported = m.secure_renegotiation_supported;
        secure_renegotiation = m.secure_renegotiation;
      } in
      AddsFresh-⊕ cb handle (ground arith) (ocsp_part cb m (read₀ m) refl) (
        AddsFresh-⊕ cb handle (ground arith) (ticket_part cb m n₁ refl) (
          AddsFresh-⊕ cb handle (ground arith)
            (renegotiation_part cb m n₂ v.renegotiation_shown refl refl)
            (AddsFresh-⊕ cb handle (ground arith) (master_secret_part cb m n₃ refl) late)))

  read_block_step :
      (n : ServerHelloMsg) (s extensions : List ℕ) {n' : ServerHelloMsg} {seen : List ℕ}
      → is_empty s ≡ false
      → cb.read_prefixed 2 s ≡ some (extensions, [])
      → read_extensions cb (no_duplicates (handle_server_extension cb)) extensions (n, [])
        ≡ ok (n', seen)
      → read_block cb n s ≡ ok n'
  unfolding read_block
  read_block_step n [] extensions full r e = cc
  read_block_step n (b ∷ s) extensions full r e = rw (r, e)

  -- The block, absent if there is no extension.
  read_block-block :
      (ext_bytes s : List ℕ)
      → server_hello_parts cb m ≡ some ext_bytes
      → block cb ext_bytes ≡ some s
      → read_block cb (read₀ m) s ≡ ok m
  read_block-block [] s p q =
      let (seen, e) = read-AddsFresh cb (handle_server_extension cb) whole p in
      let f : [] ≡ s = cc in rw (← f) (unfold read_block extension_loop in ground arith)
  read_block-block (b ∷ ext_bytes) s p q =
      let (seen, e) = read-AddsFresh cb (handle_server_extension cb) whole p in
      read_block_step (read₀ m) s (b ∷ ext_bytes)
        (put_prefixed-ne-empty cb 2 (b ∷ ext_bytes) s (omega arith) q)
        (read_prefixed_end cb 2 (b ∷ ext_bytes) s q) e

random_length :
    (v out : List ℕ) (n : ℕ) → add_bytes_with_length v n ≡ some out → (length v ≡ n) × (v ≡ out)
random_length v out n h = ground arith

-- The fixed fields, up to the block.
read_fixed :
    (cb : Cryptobyte) (m : ServerHelloMsg) (original ext_bytes body : List ℕ)
    → IsValid m
    → server_hello_body cb m ext_bytes ≡ some body
    → (s : List ℕ) × (block cb ext_bytes ≡ some s)
      × ((do
        (vers, s₁) ← lift (cb.read 2 body)
        (random, s₂) ← lift (cb.read_bytes 32 s₁)
        (session_id, s₃) ← lift (cb.read_prefixed 1 s₂)
        (cipher_suite, s₄) ← lift (cb.read 2 s₃)
        (compression_method, s₅) ← lift (cb.read 1 s₄)
        read_block cb
            (fixed_fields original vers random session_id cipher_suite compression_method)
            s₅)
          ≡ read_block cb (read₀ (record m { original = original })) s)
read_fixed cb m original ext_bytes body v h =
    let (x₁, y₁, p₁, q₁, e₁) = ⊕-eq-some (some (cb.put 2 m.vers)) (after_vers m) h in
    let (x₂, y₂, p₂, q₂, e₂) = ⊕-eq-some (add_bytes_with_length m.random 32) (after_random m) q₁ in
    let (x₃, y₃, p₃, q₃, e₃) = ⊕-eq-some (cb.put_prefixed 1 m.session_id) (after_session m) q₂ in
    let (x₄, y₄, p₄, q₄, e₄) = ⊕-eq-some (some (cb.put 2 m.cipher_suite)) (after_suite m) q₃ in
    let (x₅, y₅, p₅, q₅, e₅) =
      ⊕-eq-some (some (cb.put 1 m.compression_method)) (block cb ext_bytes) q₄ in
    let (len, same) = random_length m.random x₂ 32 p₂ in
    let f₁ : body ≡ cb.put 2 m.vers ++ y₁ = cc in
    let f₂ : y₁ ≡ m.random ++ y₂ = cc in
    let f₄ : y₃ ≡ cb.put 2 m.cipher_suite ++ y₄ = cc in
    let f₅ : y₄ ≡ cb.put 1 m.compression_method ++ y₅ = cc in
    (
      y₅,
      q₅,
      rw (
        f₁,
        cb.read-put 2 m.vers y₁ v.vers_fits,
        f₂,
        cb.read_bytes-append 32 m.random y₂ len,
        e₃,
        read_prefixed-put_prefixed cb 1 m.session_id x₃ y₃ p₃,
        f₄,
        cb.read-put 2 m.cipher_suite y₄ v.cipher_suite_fits,
        f₅,
        cb.read-put 1 m.compression_method y₅ v.compression_method_fits,
      ),
    )
  where
    after_suite : ServerHelloMsg → Option (List ℕ)
    after_suite m = some (cb.put 1 m.compression_method) ⊕ block cb ext_bytes

    after_session : ServerHelloMsg → Option (List ℕ)
    after_session m = some (cb.put 2 m.cipher_suite) ⊕ after_suite m

    after_random : ServerHelloMsg → Option (List ℕ)
    after_random m = cb.put_prefixed 1 m.session_id ⊕ after_session m

    after_vers : ServerHelloMsg → Option (List ℕ)
    after_vers m = add_bytes_with_length m.random 32 ⊕ after_random m

IsValid-with_original :
    (m : ServerHelloMsg) (bytes : List ℕ) → IsValid m → IsValid (record m { original = bytes })
IsValid-with_original m bytes v = record {
  vers_fits = v.vers_fits;
  cipher_suite_fits = v.cipher_suite_fits;
  compression_method_fits = v.compression_method_fits;
  supported_version_fits = v.supported_version_fits;
  group_fits = v.group_fits;
  selected_group_fits = v.selected_group_fits;
  selected_identity_fits = v.selected_identity_fits;
  renegotiation_shown = v.renegotiation_shown;
  identity_shown = v.identity_shown;
  share_shown = v.share_shown;
  scts_full = v.scts_full;
  one_share = v.one_share;
}

-- A ServerHello that was written is read back with every field, and keeps the bytes it came as.
pub unmarshal-marshal_server_hello :
    (cb : Cryptobyte) (m : ServerHelloMsg) (bytes : List ℕ)
    → IsValid m
    → marshal_server_hello cb m ≡ some bytes
    → unmarshal_server_hello cb bytes ≡ ok (record m { original = bytes })
unfolding marshal_server_hello unmarshal_server_hello
unmarshal-marshal_server_hello cb m bytes v h =
    let (ext_bytes, p, q) =
      bind?-eq-some (server_hello_parts cb m)
        (λ ext_bytes. message cb MessageType.server_hello (server_hello_body cb m ext_bytes)) h in
    let (body, b, sk) =
      skip-message cb MessageType.server_hello (server_hello_body cb m ext_bytes) q in
    let (s, r, fixed) = read_fixed cb m bytes ext_bytes body v b in
    rw sk (
      fixed
      ∙ read_block-block cb (record m { original = bytes }) (IsValid-with_original m bytes v)
          ext_bytes s p r)
