-- ===== src/Conn/Handshake.antt =====
-- conn.go: `readHandshakeBytes` and `readHandshake`, up to the bytes of the message.
use electricity.Common.{
  ℕ, zero, suc, ◌+◌, ◌*◌, Bool, true, false, List, [], ◌∷◌, ◌&&◌, ◌==◌, ltb, length, take, drop,
  get_or, if◌then◌else◌,
}
use electricity.Const.{max_handshake, max_handshake_certificate_msg}
use electricity.Const.MessageType
use electricity.Record.HalfConn.{Primitives}
use electricity.Conn.State.{
  ReadError, message_too_long, Conn, Round, failed, advanced, again, panicked, alert_internal_error,
  set_error, send_alert,
}
use electricity.Conn.Read.{read_record}
pub mod Total
pub mod Reassembly

-- The bytes of a message, or how the reading ended without one.
pub data Taken (S : Type 0) : Type 0 where
  message : Conn S → List ℕ → Taken S
  none_taken : Round S → Taken S

-- `int(data[1])<<16 | int(data[2])<<8 | int(data[3])`
abbrev pub message_length : List ℕ → ℕ
message_length hand = get_or hand 1 0 * 65536 + get_or hand 2 0 * 256 + get_or hand 3 0

module _ {S : Type 0} where
  -- `if err := …; err != nil { return err }` before the rest of the loop.
  unfoldable pub more : (Conn S → Round S) → Round S → Round S
  more next (failed c e) = failed c e
  more next (advanced c) = next c
  more next (again c) = again c
  more next (panicked c) = panicked c

  -- The same before the rest of `readHandshake`.
  unfoldable pub after_bytes : (Conn S → Taken S) → Round S → Taken S
  after_bytes next (failed c e) = none_taken (failed c e)
  after_bytes next (advanced c) = next c
  after_bytes next (again c) = none_taken (again c)
  after_bytes next (panicked c) = none_taken (panicked c)

  abbrev pub max_handshake_size : Conn S → ℕ → ℕ
  max_handshake_size c typ =
      if c.have_vers && (typ == MessageType.certificate)
      then max_handshake_certificate_msg
      else max_handshake

  -- `data = c.hand.Next(4 + n)`
  abbrev pub take_message : ℕ → Conn S → Taken S
  take_message n c = message (record c { hand = drop (4 + n) c.hand }) (take (4 + n) c.hand)

module _ {S : Type 0} (p : Primitives S) where
  -- The loop `for c.hand.Len() < n`; `again` is left when the fuel is out.
  unfoldable pub read_handshake_loop : ℕ → ℕ → Conn S → Round S
  unfolding more
  read_handshake_loop zero n c = again c
  read_handshake_loop (suc fuel) n c =
      let rest = more (read_handshake_loop fuel n) (read_record p c) in
      if ltb (length c.hand) n then rest else advanced c

  -- `readHandshakeBytes`: all but the last call of `readRecord` add to `c.hand`.
  unfoldable pub read_handshake_bytes : ℕ → Conn S → Round S
  unfolding read_handshake_loop
  read_handshake_bytes n c = read_handshake_loop (n + 2) n c

  -- `readHandshake` from where the message's header is there.
  unfoldable pub read_body : Conn S → Taken S
  unfolding after_bytes set_error read_handshake_bytes
  read_body c =
      let n = message_length c.hand in
      if ltb (max_handshake_size c (get_or c.hand 0 0)) n
      then none_taken (set_error message_too_long (send_alert alert_internal_error c))
      else after_bytes (take_message n) (read_handshake_bytes (4 + n) c)

  unfoldable pub read_handshake : Conn S → Taken S
  unfolding after_bytes read_body read_handshake_bytes
  read_handshake c = after_bytes read_body (read_handshake_bytes 4 c)
