-- ===== src/Conn/State.antt =====
-- conn.go: the part of `Conn` that reading uses. The connection below is the list of the bytes that
-- are still to come before its end, those in `rawInput` among them.
use electricity.Common.{ℕ, Bool, Option, some, List, [], ◌∷◌, ◌++◌}
use electricity.Record.HalfConn.{HalfConn}

-- The errors: the end of the stream, at a record's boundary or inside one; a bad header; an alert
-- that this side sent, or that the peer sent; too many ignored records; a handshake
-- message that is too long; an internal error.
pub data ReadError : Type 0 where
  eof unexpected_eof bad_record_header too_many_ignored message_too_long internal_error : ReadError
  local_alert remote_alert : ℕ → ReadError

-- `half` is `c.in` with `in_err` its err, `out_err` is `c.out.err`, and `alerts` are the alerts that
-- were sent. A connection over QUIC is not modelled.
pub record Conn (S : Type 0) : Type 0 where
  pub half : HalfConn S
  pub in_err : Option ReadError
  pub out_err : Option ReadError
  pub vers : ℕ
  pub have_vers : Bool
  pub handshake_complete : Bool
  pub raw_input : List ℕ
  pub input : List ℕ
  pub hand : List ℕ
  pub retry_count : ℕ
  pub alerts : List ℕ

-- How one round of reading a record ends: with an error, with nil, with a panic, or with a record
-- that is dropped, after which the next one is read.
pub data Round (S : Type 0) : Type 0 where
  failed : Conn S → ReadError → Round S
  advanced again panicked : Conn S → Round S

abbrev pub alert_close_notify : ℕ
alert_close_notify = 0

abbrev pub alert_unexpected_message : ℕ
alert_unexpected_message = 10

abbrev pub alert_record_overflow : ℕ
alert_record_overflow = 22

abbrev pub alert_decode_error : ℕ
alert_decode_error = 50

abbrev pub alert_protocol_version : ℕ
alert_protocol_version = 70

abbrev pub alert_internal_error : ℕ
alert_internal_error = 80

abbrev pub alert_user_canceled : ℕ
alert_user_canceled = 90

abbrev pub alert_level_warning : ℕ
alert_level_warning = 1

abbrev pub alert_level_error : ℕ
alert_level_error = 2

module _ {S : Type 0} where
  -- `c.in.setErrorLocked(err)`, which is returned.
  unfoldable pub set_error : ReadError → Conn S → Round S
  set_error e c = failed (record c { in_err = some e }) e

  -- `c.sendAlert(a)`, for an error alert.
  abbrev pub send_alert : ℕ → Conn S → Conn S
  send_alert a c = record c { alerts = c.alerts ++ (a ∷ []); out_err = some (local_alert a) }

  -- `c.in.setErrorLocked(c.sendAlert(a))`
  unfoldable pub fail_alert : ℕ → Conn S → Round S
  unfolding set_error
  fail_alert a c = set_error (local_alert a) (send_alert a c)
