-- ===== src/Conn/Read/Ends.antt =====
-- conn.go: how each case of `readRecordOrCCS` ends.
use electricity.Common.{
  ◌⊎◌, ℕ, ◌≡◌, subst, inl, inr, refl, sym, Bool, true, false, none, some, List, [], ◌∷◌, ◌++◌, not,
  ◌&&◌, ◌||◌, ◌==◌, ltb, length, is_empty, get_or, arith, Bool-cases, Option-cases,
}
use electricity.Const.{version_tls13, max_plaintext}
use electricity.Const.RecordType
use electricity.Record.HalfConn.{
  HalfConn, Protected, done, alert, failed as unprotected, panics, change_cipher_spec,
}
use electricity.Conn.State.{Conn, Round, failed, advanced, again, panicked, set_error, fail_alert}
use electricity.Conn.Read.{
  handle_alert, handle_change_cipher_spec, handle_application_data, handle_handshake, dispatch,
  is_plain, is_advancing, reset_retries, handle_content, handle_decrypted,
}

empty_of : (l : List ℕ) → not (is_empty l) ≡ false → l ≡ []
empty_of [] h = refl
empty_of (x ∷ l) h = absurd (ground arith)

module _ {S : Type 0} where
  -- The one thing that happened, with a nil error: `c.hand` grew by some bytes, or the cipher was
  -- changed with `c.hand` empty, or `c.input` was set after the handshake. `R` says what else may
  -- have become of the half-connection.
  pub data Progress (R : HalfConn S → Type 0) (expect : Bool) (c : Conn S) (c' : Conn S)
      : Type 0 where
    grew :
        (content : List ℕ)
        → expect ≡ false
        → is_empty content ≡ false
        → c'.hand ≡ c.hand ++ content
        → c'.input ≡ []
        → R c'.half
        → Progress R expect c c'
    changed :
        (half : HalfConn S)
        → expect ≡ true
        → change_cipher_spec half ≡ some c'.half
        → c.hand ≡ []
        → c'.hand ≡ []
        → c'.input ≡ []
        → R half
        → Progress R expect c c'
    filled :
        expect ≡ false
        → c.handshake_complete ≡ true
        → is_empty c'.input ≡ false
        → c'.hand ≡ c.hand
        → R c'.half
        → Progress R expect c c'

  -- How a round ends that started at `c`: an error stays, and a dropped record leaves everything but
  -- the bytes and the cipher's state. `P` is what a panic means.
  abbrev pub Ends : (HalfConn S → Type 0) → Type 0 → Bool → Conn S → Round S → Type 0
  Ends R P expect c (failed c' e) = c'.in_err ≡ some e
  Ends R P expect c (advanced c') = Progress R expect c c' × (c'.in_err ≡ none)
  Ends R P expect c (again c') =
      (c'.hand ≡ c.hand)
      × (c'.input ≡ [])
      × (c'.in_err ≡ none)
      × (c'.handshake_complete ≡ c.handshake_complete)
      × (c'.retry_count ≡ c.retry_count)
      × R c'.half
  Ends R P expect c (panicked c') = P

  -- A dropped record is none that advances the state.
  abbrev pub Drops : List ℕ → ℕ → Round S → Type 0
  Drops content typ (again c) = is_advancing content typ ≡ false
  Drops content typ _ = Unit {0}

  module _ (expect : Bool) (content : List ℕ) (c : Conn S) (no_input : c.input ≡ [])
      (no_err : c.in_err ≡ none) (R : HalfConn S → Type 0) (P : Type 0) (as_read : R c.half) where
    handle_alert-Ends :
        Ends R P expect c (handle_alert content c)
        × Drops content RecordType.alert (handle_alert content c)
    unfolding handle_alert set_error fail_alert
    handle_alert-Ends = ground arith

    handle_change_cipher_spec-Ends :
        (complete : Bool)
        → Ends R P expect c (handle_change_cipher_spec complete expect content c)
          × Drops content RecordType.change_cipher_spec
              (handle_change_cipher_spec complete expect content c)
    unfolding handle_change_cipher_spec set_error fail_alert
    handle_change_cipher_spec-Ends complete =
        elim (Bool-cases (not (length content == 1) || not (get_or content 0 0 == 1))) [
          | inl e ↦ rw (e) (refl, tt)
          | inr e ↦ elim (Bool-cases (not (is_empty c.hand))) [
            | inl e₁ ↦ rw (e, e₁) (refl, tt)
            | inr e₁ ↦ elim (Bool-cases ((c.vers == version_tls13) && not complete)) [
              | inl e₂ ↦ rw (e, e₁, e₂) ((refl, no_input, no_err, refl, refl, as_read), refl)
              | inr e₂ ↦ elim (Bool-cases expect) [
                | inr e₃ ↦ rw (e, e₁, e₂, e₃) (refl, tt)
                | inl e₃ ↦ elim (Option-cases (change_cipher_spec c.half)) [
                  | inl e₄ ↦ rw (e, e₁, e₂, e₃, e₄) (refl, tt)
                  | inr (half, e₄) ↦
                      let nil : c.hand ≡ [] = empty_of c.hand (ground arith) in
                      rw (e, e₁, e₂, e₃, e₄)
                        ((changed c.half refl e₄ nil nil no_input as_read, no_err), tt)
                ]
              ]
            ]
          ]
        ]

    handle_application_data-Ends :
        (complete : Bool)
        → complete ≡ c.handshake_complete
        → Ends R P expect c (handle_application_data complete expect content c)
          × Drops content RecordType.application_data
              (handle_application_data complete expect content c)
    unfolding handle_application_data set_error fail_alert
    handle_application_data-Ends complete here = elim (Bool-cases (not complete || expect)) [
      | inl e ↦ rw (e) (refl, tt)
      | inr e ↦ elim (Bool-cases (is_empty content)) [
        | inl e₁ ↦ rw (e, e₁) ((refl, no_input, no_err, refl, refl, as_read), ground arith)
        | inr e₁ ↦ rw (e, e₁) ((filled (ground arith) (ground arith) e₁ refl as_read, no_err), tt)
      ]
    ]

    handle_handshake-Ends :
        Ends R P expect c (handle_handshake expect content c)
        × Drops content RecordType.handshake (handle_handshake expect content c)
    unfolding handle_handshake set_error fail_alert
    handle_handshake-Ends = elim (Bool-cases (is_empty content || expect)) [
      | inl e ↦ rw (e) (refl, tt)
      | inr e ↦
          rw (e) ((grew content (ground arith) (ground arith) refl no_input as_read, no_err), tt)
    ]

    dispatch-Ends :
        (complete : Bool) (typ : ℕ)
        → complete ≡ c.handshake_complete
        → Ends R P expect c (dispatch complete expect content typ c)
          × Drops content typ (dispatch complete expect content typ c)
    unfolding dispatch set_error fail_alert
    dispatch-Ends complete typ here = elim (Bool-cases (typ == RecordType.alert)) [
      | inl e ↦ let is : typ ≡ RecordType.alert = ground arith in rw (is) handle_alert-Ends
      | inr e ↦ elim (Bool-cases (typ == RecordType.change_cipher_spec)) [
        | inl e₁ ↦
            let is : typ ≡ RecordType.change_cipher_spec = ground arith in
            rw (is) (handle_change_cipher_spec-Ends complete)
        | inr e₁ ↦ elim (Bool-cases (typ == RecordType.application_data)) [
          | inl e₂ ↦
              let is : typ ≡ RecordType.application_data = ground arith in
              rw (is) (handle_application_data-Ends complete here)
          | inr e₂ ↦ elim (Bool-cases (typ == RecordType.handshake)) [
            | inl e₃ ↦
                let is : typ ≡ RecordType.handshake = ground arith in rw (is) handle_handshake-Ends
            | inr e₃ ↦ rw (e, e₁, e₂, e₃) (refl, tt)
          ]
        ]
      ]
    ]

  -- The retry count that a round starts with shows in the rounds that drop their record alone.
  Ends-retries :
      (R : HalfConn S → Type 0) (P : Type 0) (expect : Bool) (content : List ℕ) (typ : ℕ)
      (c : Conn S) (r : Round S)
      → is_advancing content typ ≡ true
      → Ends R P expect (record c { retry_count = 0 }) r × Drops content typ r
      → Ends R P expect c r
  Ends-retries R P expect content typ c (failed c' e) on (h, d) = h
  Ends-retries R P expect content typ c (advanced c') on ((grew bytes a b h i k, n), d) =
      (grew bytes a b h i k, n)
  Ends-retries R P expect content typ c (advanced c') on ((changed half a b h i j k, n), d) =
      (changed half a b h i j k, n)
  Ends-retries R P expect content typ c (advanced c') on ((filled a b h i k, n), d) =
      (filled a b h i k, n)
  Ends-retries R P expect content typ c (again c') on (h, d) = absurd (ground arith)
  Ends-retries R P expect content typ c (panicked c') on (h, d) = h

  handle_content-Ends :
      (R : HalfConn S → Type 0) (P : Type 0) (expect complete : Bool) (content : List ℕ) (typ : ℕ)
      (c : Conn S)
      → c.input ≡ []
      → c.in_err ≡ none
      → complete ≡ c.handshake_complete
      → R c.half
      → Ends R P expect c (handle_content complete expect content typ c)
  unfolding handle_content set_error fail_alert
  handle_content-Ends R P expect complete content typ c no_input no_err here as_read =
      elim (Bool-cases (ltb max_plaintext (length content))) [
        | inl e ↦ rw (e) refl
        | inr e ↦
            elim (Bool-cases (is_plain c.half.cipher && (typ == RecordType.application_data))) [
              | inl e₁ ↦ rw (e, e₁) refl
              | inr e₁ ↦
                  elim (Bool-cases (
                    (c.vers == version_tls13)
                    && (not (typ == RecordType.handshake) && not (is_empty c.hand)))) [
                      | inl e₂ ↦ rw (e, e₁, e₂) refl
                      | inr e₂ ↦
                          rw (e, e₁, e₂)
                            (elim (Bool-cases (is_advancing content typ)) [
                              | inr e₃ ↦
                                  let (ends, _) =
                                    dispatch-Ends expect content c no_input no_err R P as_read
                                      complete typ here in
                                  let same : reset_retries content typ c ≡ c = rw (e₃) refl in
                                  subst
                                    (λ d.
                                      Ends R P expect c (dispatch complete expect content typ d))
                                    (sym same) ends
                              | inl e₃ ↦
                                  let c₁ : Conn S = record c { retry_count = 0 } in
                                  let same : reset_retries content typ c ≡ c₁ = rw (e₃) refl in
                                  subst
                                    (λ d.
                                      Ends R P expect c (dispatch complete expect content typ d))
                                    (sym same)
                                    (Ends-retries R P expect content typ c
                                      (dispatch complete expect content typ c₁) e₃
                                      (dispatch-Ends expect content c₁ no_input no_err R P as_read
                                        complete typ here))
                            ])
                    ]
            ]
      ]

  -- From `c` with the bytes and the cipher's state of `c₁`.
  pub Ends-base :
      (R : HalfConn S → Type 0) (P : Type 0) (expect : Bool) (half : HalfConn S) (raw : List ℕ)
      (c : Conn S) (r : Round S)
      → Ends R P expect (record c { half = half; raw_input = raw }) r
      → Ends R P expect c r
  Ends-base R P expect half raw c (failed c' e) h = h
  Ends-base R P expect half raw c (advanced c') (grew bytes a b h i k, n) =
      (grew bytes a b h i k, n)
  Ends-base R P expect half raw c (advanced c') (changed half' a b h i j k, n) =
      (changed half' a b h i j k, n)
  Ends-base R P expect half raw c (advanced c') (filled a b h i k, n) = (filled a b h i k, n)
  Ends-base R P expect half raw c (again c') h = h
  Ends-base R P expect half raw c (panicked c') h = h

  pub handle_decrypted-Ends :
      (R : HalfConn S → Type 0) (P : Type 0) (expect complete : Bool) (c : Conn S)
      (r : Protected (List ℕ × ℕ))
      → c.input ≡ []
      → c.in_err ≡ none
      → complete ≡ c.handshake_complete
      → R c.half
      → ((r ≡ unprotected) ⊎ (r ≡ panics) → P)
      → Ends R P expect c (handle_decrypted complete expect c r)
  unfolding handle_decrypted set_error fail_alert
  handle_decrypted-Ends R P expect complete c (done (content, typ)) no_input no_err here as_read
        fatal =
      handle_content-Ends R P expect complete content typ c no_input no_err here as_read
  handle_decrypted-Ends R P expect complete c (alert a) no_input no_err here as_read fatal = refl
  handle_decrypted-Ends R P expect complete c unprotected no_input no_err here as_read fatal =
      fatal (inl refl)
  handle_decrypted-Ends R P expect complete c panics no_input no_err here as_read fatal =
      fatal (inr refl)
