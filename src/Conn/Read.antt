-- ===== src/Conn/Read.antt =====
-- conn.go: `readRecordOrCCS` and `retryReadRecord`.
use electricity.Common.{
  ℕ, zero, suc, ◌+◌, ◌*◌, Bool, true, false, Option, none, some, List, [], ◌∷◌, ◌++◌, not, ◌&&◌,
  ◌||◌, ◌==◌, ltb, leb, length, is_empty, take, drop, get_or, if◌then◌else◌,
}
use electricity.Const.{
  version_tls12, version_tls13, max_plaintext, max_ciphertext, max_ciphertext_tls13,
  record_header_len, max_useless_records,
}
use electricity.Const.RecordType
use electricity.Record.HalfConn.{Primitives, HalfConn, Protected, change_cipher_spec}
use electricity.Record.Decrypt.{decrypt}
use electricity.Conn.State.{
  ReadError, eof, unexpected_eof, bad_record_header, too_many_ignored, internal_error, remote_alert,
  Conn, Round, failed, advanced, again, panicked, alert_close_notify, alert_unexpected_message,
  alert_record_overflow, alert_decode_error, alert_protocol_version, alert_internal_error,
  alert_user_canceled, alert_level_warning, alert_level_error, set_error, fail_alert, send_alert,
}
pub mod Ends
pub mod Progress

-- `c.in.cipher == nil`
abbrev pub is_plain {ℓ} : {A : Type ℓ} → Option A → Bool
is_plain none = true
is_plain (some a) = false

-- A record of another type than alert and change_cipher_spec, with content.
abbrev pub is_advancing : List ℕ → ℕ → Bool
is_advancing content typ =
    not (typ == RecordType.alert)
    && (not (typ == RecordType.change_cipher_spec) && not (is_empty content))

module _ {S : Type 0} where
  -- `case recordTypeAlert`
  unfoldable pub handle_alert : List ℕ → Conn S → Round S
  unfolding set_error fail_alert
  handle_alert content c =
      let level = get_or content 0 0 in
      let code = get_or content 1 0 in
      if not (length content == 2)
      then fail_alert alert_unexpected_message c
      else if code == alert_close_notify
      then set_error eof c
      else if c.vers == version_tls13
      then (if code == alert_user_canceled then again c else set_error (remote_alert code) c)
      else if level == alert_level_warning
      then again c
      else if level == alert_level_error
      then set_error (remote_alert code) c
      else fail_alert alert_unexpected_message c

  -- `case recordTypeChangeCipherSpec`. `changeCipherSpec` fails with an internal error.
  unfoldable pub handle_change_cipher_spec : Bool → Bool → List ℕ → Conn S → Round S
  unfolding fail_alert
  handle_change_cipher_spec complete expect content c =
      if not (length content == 1) || not (get_or content 0 0 == 1)
      then fail_alert alert_decode_error c
      else if not (is_empty c.hand)
      then fail_alert alert_unexpected_message c
      else if (c.vers == version_tls13) && not complete
      then again c
      else if not expect
      then fail_alert alert_unexpected_message c
      else elim (change_cipher_spec c.half) [
        | none ↦ fail_alert alert_internal_error c
        | some half ↦ advanced (record c { half = half })
      ]

  -- `case recordTypeApplicationData`
  unfoldable pub handle_application_data : Bool → Bool → List ℕ → Conn S → Round S
  unfolding fail_alert
  handle_application_data complete expect content c =
      if not complete || expect
      then fail_alert alert_unexpected_message c
      else if is_empty content
      then again c
      else advanced (record c { input = content })

  -- `case recordTypeHandshake`
  unfoldable pub handle_handshake : Bool → List ℕ → Conn S → Round S
  unfolding fail_alert
  handle_handshake expect content c =
      if is_empty content || expect
      then fail_alert alert_unexpected_message c
      else advanced (record c { hand = c.hand ++ content })

  -- The `switch typ`.
  unfoldable pub dispatch : Bool → Bool → List ℕ → ℕ → Conn S → Round S
  unfolding handle_alert handle_change_cipher_spec handle_application_data handle_handshake
      fail_alert
  dispatch complete expect content typ c =
      if typ == RecordType.alert
      then handle_alert content c
      else if typ == RecordType.change_cipher_spec
      then handle_change_cipher_spec complete expect content c
      else if typ == RecordType.application_data
      then handle_application_data complete expect content c
      else if typ == RecordType.handshake
      then handle_handshake expect content c
      else fail_alert alert_unexpected_message c

  -- A state-advancing record resets the retry count.
  abbrev pub reset_retries : List ℕ → ℕ → Conn S → Conn S
  reset_retries content typ c = if is_advancing content typ then record c { retry_count = 0 } else c

  -- What is done with a record that was decrypted.
  unfoldable pub handle_content : Bool → Bool → List ℕ → ℕ → Conn S → Round S
  unfolding dispatch fail_alert
  handle_content complete expect content typ c =
      let c₁ = reset_retries content typ c in
      if ltb max_plaintext (length content)
      then fail_alert alert_record_overflow c
      else if is_plain c.half.cipher && (typ == RecordType.application_data)
      then fail_alert alert_unexpected_message c
      else if (c.vers == version_tls13)
          && (not (typ == RecordType.handshake) && not (is_empty c.hand))
      then fail_alert alert_unexpected_message c₁
      else dispatch complete expect content typ c₁

  -- What `decrypt` returned: an alert is sent.
  unfoldable pub handle_decrypted : Bool → Bool → Conn S → Protected (List ℕ × ℕ) → Round S
  unfolding handle_content fail_alert
  handle_decrypted complete expect c (Protected.done (content, typ)) =
      handle_content complete expect content typ c
  handle_decrypted complete expect c (Protected.alert a) = fail_alert a c
  handle_decrypted complete expect c Protected.failed = panicked c
  handle_decrypted complete expect c Protected.panics = panicked c

module _ {S : Type 0} (p : Primitives S) where
  -- The record of `n` bytes that starts `rawInput`, decrypted and handled.
  unfoldable pub take_record : Bool → Bool → ℕ → Conn S → Round S
  unfolding handle_decrypted
  take_record complete expect n c =
      let (half, result) = decrypt p c.half (take (record_header_len + n) c.raw_input) in
      handle_decrypted complete expect
        (record c { half = half; raw_input = drop (record_header_len + n) c.raw_input }) result

  -- The version that a record's header must have.
  abbrev pub expected_vers : Conn S → ℕ
  expected_vers c = if c.vers == version_tls13 then version_tls12 else c.vers

  -- The checks on a header that is there, and then the record.
  unfoldable pub read_header : Bool → Conn S → Round S
  unfolding set_error take_record
  read_header expect c =
      let complete = c.handshake_complete in
      let hdr = take record_header_len c.raw_input in
      let typ = get_or hdr 0 0 in
      let vers = get_or hdr 1 0 * 256 + get_or hdr 2 0 in
      let n = get_or hdr 3 0 * 256 + get_or hdr 4 0 in
      if not complete && (typ == 0x80)
      then set_error bad_record_header (send_alert alert_protocol_version c)
      else if c.have_vers && not (vers == expected_vers c)
      then set_error bad_record_header (send_alert alert_protocol_version c)
      else if not c.have_vers
          && ((not (typ == RecordType.alert) && not (typ == RecordType.handshake))
              || leb 0x1000 vers)
      then set_error bad_record_header c
      else if ((c.vers == version_tls13) && ltb max_ciphertext_tls13 n) || ltb max_ciphertext n
      then set_error bad_record_header (send_alert alert_record_overflow c)
      else if ltb (length c.raw_input) (record_header_len + n)
      then set_error unexpected_eof c
      else take_record complete expect n c

  -- `readRecordOrCCS`, up to where it may call itself again.
  unfoldable pub read_one : Bool → Conn S → Round S
  unfolding set_error read_header
  read_one expect c = elim c.in_err [
    | some e ↦ failed c e
    | none ↦
        if not (is_empty c.input)
        then set_error internal_error c
        else if is_empty c.raw_input
        then set_error eof c
        else if ltb (length c.raw_input) record_header_len
        then set_error unexpected_eof c
        else read_header expect c
  ]

  -- `retryReadRecord` around the next call: a dropped record is counted.
  unfoldable pub retry : (Conn S → Round S) → Round S → Round S
  unfolding set_error
  retry next (failed c e) = failed c e
  retry next (advanced c) = advanced c
  retry next (panicked c) = panicked c
  retry next (again c) =
      let c₁ = record c { retry_count = c.retry_count + 1 } in
      if ltb max_useless_records c₁.retry_count
      then set_error too_many_ignored (send_alert alert_unexpected_message c₁)
      else next c₁

  -- `readRecordOrCCS`, which calls itself to drop a record; `again` is left when the fuel is out.
  unfoldable pub read_record_or_ccs : ℕ → Bool → Conn S → Round S
  unfolding read_one retry
  read_record_or_ccs zero expect c = again c
  read_record_or_ccs (suc fuel) expect c =
      retry (read_record_or_ccs fuel expect) (read_one expect c)

  -- `readRecord`, with fuel for the rounds that drop a record and one more.
  unfoldable pub read_record : Conn S → Round S
  unfolding read_record_or_ccs
  read_record c = read_record_or_ccs (max_useless_records + 1) false c
