-- ===== src/Message/Post.antt =====
-- handshake_messages.go: the messages of a fixed shape that are written with cryptobyte: Finished,
-- KeyUpdate, CertificateVerify and CertificateStatus. A message is the list of its bytes.
use electricity.Common.{
  inl, inr, Bool-cases, ℕ, ◌<◌, ◌≡◌, refl, Bool, true, false, Option, some, List, [], ◌++◌,
  append-nil, arith, ◌==◌, not, is_empty, length, if◌then◌else◌, Outcome, ok, fail, ◌>>=◌, ◌>>◌,
  lift, guard,
}
use electricity.Wire.{Cryptobyte}
use electricity.Wire.Build.{◌⊕◌, ⊕-eq-some, message, message_eq, skip-message, read_prefixed_end}
use electricity.Const.MessageType
use electricity.Const.{status_type_ocsp}

pub record FinishedMsg : Type 0 where
  pub verify_data : List ℕ

pub record KeyUpdateMsg : Type 0 where
  pub update_requested : Bool

-- `has_signature_algorithm` is set by the reader: the format changed in TLS 1.2.
pub record CertificateVerifyMsg : Type 0 where
  pub has_signature_algorithm : Bool
  pub signature_algorithm : ℕ
  pub signature : List ℕ

pub record CertificateStatusMsg : Type 0 where
  pub response : List ℕ

module _ (cb : Cryptobyte) where
  open cb use {
    put, put_prefixed, skip, read, read_prefixed, length-put, read-put, read_prefixed-put,
    skip-append,
  }

  unfoldable pub marshal_finished : FinishedMsg → Option (List ℕ)
  marshal_finished m = message cb MessageType.finished (some m.verify_data)

  unfoldable pub unmarshal_finished : List ℕ → Outcome FinishedMsg
  unmarshal_finished bytes = do
    s ← lift (skip 1 bytes)
    (verify_data, s₁) ← lift (read_prefixed 3 s)
    guard (is_empty s₁)
    ok (record { verify_data = verify_data })

  abbrev requested_byte : Bool → List ℕ
  requested_byte b = if b then put 1 1 else put 1 0

  unfoldable pub marshal_key_update : KeyUpdateMsg → Option (List ℕ)
  marshal_key_update m =
      message cb MessageType.key_update (some (requested_byte m.update_requested))

  -- `switch updateRequested`
  abbrev requested : ℕ → Outcome KeyUpdateMsg
  requested v =
      if v == 0
      then ok (record { update_requested = false })
      else if v == 1
      then ok (record { update_requested = true })
      else fail

  unfoldable pub unmarshal_key_update : List ℕ → Outcome KeyUpdateMsg
  unmarshal_key_update bytes = do
    s ← lift (skip 4 bytes)
    (v, s₁) ← lift (read 1 s)
    guard (is_empty s₁)
    requested v

  abbrev verify_body : Bool → ℕ → List ℕ → Option (List ℕ)
  verify_body has alg signature =
      (if has then some (put 2 alg) else some []) ⊕ put_prefixed 2 signature

  unfoldable pub marshal_certificate_verify : CertificateVerifyMsg → Option (List ℕ)
  marshal_certificate_verify m =
      message cb MessageType.certificate_verify
        (verify_body m.has_signature_algorithm m.signature_algorithm m.signature)

  -- The optional algorithm of a CertificateVerify, 0 where the format has none.
  abbrev read_algorithm : Bool → List ℕ → Outcome (ℕ × List ℕ)
  read_algorithm has s = if has then lift (read 2 s) else ok (0, s)

  unfoldable pub unmarshal_certificate_verify : Bool → List ℕ → Outcome CertificateVerifyMsg
  unmarshal_certificate_verify has bytes = do
    s ← lift (skip 4 bytes)
    (alg, s₁) ← read_algorithm has s
    (signature, s₂) ← lift (read_prefixed 2 s₁)
    guard (is_empty s₂)
    ok (record { has_signature_algorithm = has; signature_algorithm = alg; signature = signature })

  abbrev status_body : List ℕ → Option (List ℕ)
  status_body response = some (put 1 status_type_ocsp) ⊕ put_prefixed 3 response

  unfoldable pub marshal_certificate_status : CertificateStatusMsg → Option (List ℕ)
  marshal_certificate_status m = message cb MessageType.certificate_status (status_body m.response)

  unfoldable pub unmarshal_certificate_status : List ℕ → Outcome CertificateStatusMsg
  unmarshal_certificate_status bytes = do
    s ← lift (skip 4 bytes)
    (status_type, s₁) ← lift (read 1 s)
    guard (status_type == status_type_ocsp)
    (response, s₂) ← lift (read_prefixed 3 s₁)
    guard (not (is_empty response))
    guard (is_empty s₂)
    ok (record { response = response })

  -- A Finished message that was written is read back.
  pub unmarshal-marshal_finished :
      (m : FinishedMsg) (bytes : List ℕ)
      → marshal_finished m ≡ some bytes
      → unmarshal_finished bytes ≡ ok m
  unfolding marshal_finished unmarshal_finished
  unmarshal-marshal_finished m bytes h =
      let typ = MessageType.finished in
      let (bs, b, lt, e) = message_eq cb typ (some m.verify_data) h in
      let sk = skip-append 1 (put 1 typ) (put 3 (length bs) ++ bs) (length-put 1 typ) in
      let rd = read_prefixed-put 3 bs [] lt in rw (e, sk, rw append-nil at rd) (cc)

  read_requested :
      (b : Bool) (bs : List ℕ)
      → bs ≡ requested_byte b
      → (do (v, s₁) ← lift (read 1 bs); guard (is_empty s₁); requested v)
        ≡ ok (record { update_requested = b })
  read_requested true bs e = rw (e, rw append-nil at (read-put 1 1 [] (omega arith)))
  read_requested false bs e = rw (e, rw append-nil at (read-put 1 0 [] (omega arith)))

  -- A KeyUpdate message that was written is read back.
  pub unmarshal-marshal_key_update :
      (m : KeyUpdateMsg) (bytes : List ℕ)
      → marshal_key_update m ≡ some bytes
      → unmarshal_key_update bytes ≡ ok m
  unfolding marshal_key_update unmarshal_key_update
  unmarshal-marshal_key_update m bytes h =
      let (bs, b, sk) =
        skip-message cb MessageType.key_update (some (requested_byte m.update_requested)) h in
      rw sk (read_requested m.update_requested bs (cc))

  read_verify :
      (has : Bool) (alg : ℕ) (signature bs : List ℕ)
      → alg < 65536
      → (has ≡ false → alg ≡ 0)
      → verify_body has alg signature ≡ some bs
      → (s₁ : List ℕ) × (read_algorithm has bs ≡ ok (alg, s₁))
        × (read_prefixed 2 s₁ ≡ some (signature, []))
  read_verify true alg signature bs small old h =
      let (x, y, p, q, e) = ⊕-eq-some (some (put 2 alg)) (put_prefixed 2 signature) h in
      let e' : bs ≡ put 2 alg ++ y = cc in
      (y, rw (e', read-put 2 alg y small), read_prefixed_end cb 2 signature y q)
  read_verify false alg signature bs small old h =
      let (x, y, p, q, e) = ⊕-eq-some (some []) (put_prefixed 2 signature) h in
      let e' : bs ≡ y = cc in (y, rw (e', old refl), read_prefixed_end cb 2 signature y q)

  -- A CertificateVerify message that was written is read back, in either format; without the
  -- algorithm in the format it has to be 0.
  pub unmarshal-marshal_certificate_verify :
      (m : CertificateVerifyMsg) (bytes : List ℕ)
      → m.signature_algorithm < 65536
      → (m.has_signature_algorithm ≡ false → m.signature_algorithm ≡ 0)
      → marshal_certificate_verify m ≡ some bytes
      → unmarshal_certificate_verify m.has_signature_algorithm bytes ≡ ok m
  unfolding marshal_certificate_verify unmarshal_certificate_verify
  unmarshal-marshal_certificate_verify m bytes small old h =
      let body = verify_body m.has_signature_algorithm m.signature_algorithm m.signature in
      let (bs, b, sk) = skip-message cb MessageType.certificate_verify body h in
      let (s₁, p, q) =
        read_verify m.has_signature_algorithm m.signature_algorithm m.signature bs small old b in
      rw (sk, p, q)

  -- A CertificateStatus message that was written is read back if its response is not empty. An empty
  -- response is written all the same, and what was written is refused.
  pub unmarshal-marshal_certificate_status :
      (m : CertificateStatusMsg) (bytes : List ℕ)
      → marshal_certificate_status m ≡ some bytes
      → unmarshal_certificate_status bytes ≡ (if is_empty m.response then fail else ok m)
  unfolding marshal_certificate_status unmarshal_certificate_status
  unmarshal-marshal_certificate_status m bytes h =
      let (bs, b, sk) = skip-message cb MessageType.certificate_status (status_body m.response) h in
      let (x, y, p, q, e) =
        ⊕-eq-some (some (put 1 status_type_ocsp)) (put_prefixed 3 m.response) b in
      let e' : bs ≡ put 1 status_type_ocsp ++ y = cc in
      rw (sk, e', read-put 1 1 y (omega arith), read_prefixed_end cb 3 m.response y q)
        (elim (Bool-cases (is_empty m.response)) [
          | inl none_ ↦ rw (none_) refl
          | inr some_ ↦ rw (some_) refl
        ])
