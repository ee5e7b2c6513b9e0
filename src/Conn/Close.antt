-- ===== src/Conn/Close.antt =====
-- conn.go: `Write` and `Close` under the lock of `c.out`: from where `Write` holds it, `closeNotify`
-- and `CloseWrite`. The write deadlines are the network's.
use electricity.Common.{
  ℕ, suc, ◌+◌, Bool, true, false, Option, none, some, List, [], ◌∷◌, not, ◌&&◌, ◌==◌, ltb, length,
  take, drop, if◌then◌else◌,
}
use electricity.Const.{version_tls10}
use electricity.Const.RecordType
use electricity.Record.HalfConn.{Cipher, stream, aead, cbc, Primitives}
use electricity.Conn.State.{alert_close_notify}
use electricity.Conn.Write.{
  WriteError, network, sealing, shutdown, internal, early_close, local_error, Output, Written,
  wrote, broken, write_panics, unfinished, Network, write_record_locked, send_alert_locked,
}
pub mod Silent

abbrev pub is_cbc : {S : Type 0} → Option (Cipher S) → Bool
is_cbc none = false
is_cbc (some (stream s)) = false
is_cbc (some (aead s)) = false
is_cbc (some (cbc s)) = true

module _ {S : Type 0} where
  -- `return n + m, c.out.setErrorLocked(err)`
  unfoldable pub keep_error : ℕ → Written S → Written S
  keep_error m (wrote c n) = wrote (record c { err = none }) (n + m)
  keep_error m (broken c n e) = broken (record c { err = some e }) (n + m) e
  keep_error m (write_panics c) = write_panics c
  keep_error m (unfinished c) = unfinished c

  -- The end of `closeNotify`: the error of the alert is kept.
  unfoldable pub notified : Written S → Written S
  notified (wrote c n) = wrote (record c { close_notify_err = none; close_notify_sent = true }) 0
  notified (broken c n e) =
      broken (record c { close_notify_err = some e; close_notify_sent = true }) 0 e
  notified (write_panics c) = write_panics c
  notified (unfinished c) = unfinished c

  -- `return c.closeNotifyErr`
  unfoldable pub notify_result : Output S → Written S
  notify_result c = elim c.close_notify_err [ none ↦ wrote c 0 | some e ↦ broken c 0 e ]

module _ {S : Type 0} (p : Primitives S) (net : Network S) where
  -- The second part of a write that is split in two records.
  unfoldable pub write_second : List ℕ → Written S → Written S
  unfolding keep_error
  write_second bytes (wrote c n) =
      keep_error 1 (write_record_locked p net RecordType.application_data bytes c)
  write_second bytes (broken c n e) = broken (record c { err = some e }) n e
  write_second bytes (write_panics c) = write_panics c
  write_second bytes (unfinished c) = unfinished c

  -- `Write`, after the handshake.
  unfoldable pub write_data : List ℕ → Output S → Written S
  unfolding write_second keep_error
  write_data bytes c = elim c.err [
    | some e ↦ broken c 0 e
    | none ↦
        if not c.handshake_complete
        then broken c 0 internal
        else if c.close_notify_sent
        then broken c 0 shutdown
        else if ltb 1 (length bytes) && ((c.vers == version_tls10) && is_cbc c.half.cipher)
        then write_second (drop 1 bytes)
            (write_record_locked p net RecordType.application_data (take 1 bytes) c)
        else keep_error 0 (write_record_locked p net RecordType.application_data bytes c)
  ]

  unfoldable pub close_notify : Output S → Written S
  unfolding notified notify_result
  close_notify c =
      if not c.close_notify_sent
      then notified (send_alert_locked p net alert_close_notify c)
      else notify_result c

  unfoldable pub close_write : Output S → Written S
  unfolding close_notify
  close_write c = if not c.handshake_complete then broken c 0 early_close else close_notify c
