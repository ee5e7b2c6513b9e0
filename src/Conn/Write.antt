-- ===== src/Conn/Write.antt =====
-- conn.go: `maxPayloadSizeForWrite`, `write`, `flush`, `writeRecordLocked` and `sendAlertLocked`.
use electricity.Common.{
  ℕ, zero, suc, ◌+◌, ◌-◌, ◌*◌, ◌/◌, ◌%◌, Bool, true, false, Option, none, some, List, [], ◌∷◌, ◌++◌,
  not, ◌&&◌, ◌||◌, ◌==◌, ltb, leb, length, is_empty, take, drop, if◌then◌else◌, bind?,
}
use electricity.Const.{
  version_tls10, version_tls12, version_tls13, max_plaintext, record_header_len,
}
use electricity.Const.RecordType
use electricity.Record.HalfConn.{
  Cipher, stream, aead, cbc, Primitives, HalfConn, Protected, done, alert, failed, panics,
  explicit_nonce_len, change_cipher_spec,
}
use electricity.Record.Encrypt.{encrypt}
use electricity.Record.Decrypt.{mac_size_of}
use electricity.Conn.State.{
  alert_close_notify, alert_internal_error, alert_level_warning, alert_level_error,
}
pub mod Sizes
pub mod Trail
pub mod Total
pub mod Framing

pub data WriteError : Type 0 where
  network sealing shutdown internal early_close : WriteError
  local_error : ℕ → WriteError

-- The part of `Conn` that writing uses: `half` is `c.out` and `err` its err, `sizing_disabled` is
-- `config.DynamicRecordSizingDisabled`, and `sent` is what the network took.
pub record Output (S : Type 0) : Type 0 where
  pub half : HalfConn S
  pub err : Option WriteError
  pub vers : ℕ
  pub handshake_complete : Bool
  pub sizing_disabled : Bool
  pub buffering : Bool
  pub send_buf : List ℕ
  pub bytes_sent : ℕ
  pub packets_sent : ℕ
  pub close_notify_sent : Bool
  pub close_notify_err : Option WriteError
  pub sent : List ℕ

-- What a write returns: the count with nil, or with an error. `unfinished` has no counterpart: the
-- loop is not at its end when the fuel is out.
pub data Written (S : Type 0) : Type 0 where
  wrote : Output S → ℕ → Written S
  broken : Output S → ℕ → WriteError → Written S
  write_panics unfinished : Output S → Written S

-- The calls into other packages: `conn.Write`, which fails after some bytes or takes all, and the
-- random bytes.
pub record Network (S : Type 0) : Type 0 where
  pub fails_after : List ℕ → List ℕ → Option ℕ
  pub random : Output S → ℕ → Option (List ℕ)

abbrev pub tcp_mss_estimate : ℕ
tcp_mss_estimate = 1208

abbrev pub record_size_boost_threshold : ℕ
record_size_boost_threshold = 131072

-- A difference that the source takes on signed numbers: `none` is a negative one.
abbrev pub minus : ℕ → ℕ → Option ℕ
minus a b = if ltb a b then none else some (a - b)

-- `alertNoRenegotiation` is 100.
abbrev pub alert_level : ℕ → ℕ
alert_level a =
    if (a == 100) || (a == alert_close_notify) then alert_level_warning else alert_level_error

module _ {S : Type 0} where
  abbrev pub change_output : (Output S → Output S) → Written S → Written S
  change_output f (wrote c n) = wrote (f c) n
  change_output f (broken c n e) = broken (f c) n e
  change_output f (write_panics c) = write_panics c
  change_output f (unfinished c) = unfinished c

  -- The count of a record is that of its plain text, and nothing if it failed.
  abbrev pub counted_as : ℕ → Written S → Written S
  counted_as m (wrote c n) = wrote c m
  counted_as m (broken c n e) = broken c 0 e
  counted_as m (write_panics c) = write_panics c
  counted_as m (unfinished c) = unfinished c

  -- `vers`, as a record's header has it.
  abbrev pub wire_vers : Output S → ℕ
  wire_vers c =
      if c.vers == 0
      then version_tls10
      else if c.vers == version_tls13
      then version_tls12
      else c.vers

  abbrev pub record_header : ℕ → ℕ → Output S → List ℕ
  record_header typ m c =
      typ ∷ (wire_vers c / 256 % 256 ∷ (wire_vers c % 256 ∷ (m / 256 % 256 ∷ (m % 256 ∷ []))))

  -- `c.conn.Write(data)`
  unfoldable pub to_network : Network S → List ℕ → Output S → Written S
  to_network net bytes c = elim (net.fails_after c.sent bytes) [
    | none ↦
        wrote (record c { sent = c.sent ++ bytes; bytes_sent = c.bytes_sent + length bytes })
          (length bytes)
    | some n ↦
        broken (record c { sent = c.sent ++ take n bytes; bytes_sent = c.bytes_sent + n }) n network
  ]

  unfoldable pub write : Network S → List ℕ → Output S → Written S
  unfolding to_network
  write net bytes c =
      if c.buffering
      then wrote (record c { send_buf = c.send_buf ++ bytes }) (length bytes)
      else to_network net bytes c

  unfoldable pub flush : Network S → Output S → Written S
  unfolding to_network
  flush net c =
      if is_empty c.send_buf
      then wrote c 0
      else change_output (λ c'. record c' { send_buf = []; buffering = false })
          (to_network net c.send_buf c)

module _ {S : Type 0} (p : Primitives S) where
  -- What the cipher takes: `x & ^(blockSize - 1)` is `x - x % blockSize`, as block sizes are powers of
  -- two, and a stream or block cipher never comes without a hash.
  abbrev pub less_cipher : Output S → ℕ → Option ℕ
  less_cipher c x = elim c.half.cipher [
    | none ↦ some x
    | some k ↦ elim k [
      | stream s ↦ minus x (mac_size_of p c.half)
      | aead s ↦ minus x (p.overhead s)
      | cbc s ↦ minus (x - x % p.block_size s) (1 + mac_size_of p c.half)
    ]
  ]

  -- `payloadBytes` before the arithmetic progression; `none` is a negative number.
  unfoldable pub payload_bytes : Output S → Option ℕ
  unfolding explicit_nonce_len
  payload_bytes c =
      bind? (minus (tcp_mss_estimate - record_header_len) (explicit_nonce_len p c.half))
        λ x. bind? (less_cipher c x) λ y. if c.vers == version_tls13 then minus y 1 else some y

  -- The size that is given to this packet, which is counted.
  abbrev pub packet_size : Option ℕ → ℕ → Option ℕ
  packet_size none packet = none
  packet_size (some x) packet =
      if ltb max_plaintext (x * (packet + 1)) then some max_plaintext else some (x * (packet + 1))

  unfoldable pub max_payload_size_for_write : ℕ → Output S → Option ℕ × Output S
  unfolding payload_bytes
  max_payload_size_for_write typ c =
      let counted = record c { packets_sent = c.packets_sent + 1 } in
      if c.sizing_disabled || not (typ == RecordType.application_data)
      then (some max_plaintext, c)
      else if leb record_size_boost_threshold c.bytes_sent
      then (some max_plaintext, c)
      else if ltb 1000 c.packets_sent
      then (some max_plaintext, counted)
      else (packet_size (payload_bytes c) c.packets_sent, counted)

  module _ (net : Network S) where
    -- What `encrypt` returned is written.
    unfoldable pub write_sealed : ℕ → Output S → Protected (List ℕ) → Written S
    unfolding write
    write_sealed m c (done bytes) = counted_as m (write net bytes c)
    write_sealed m c (alert a) = broken c 0 (local_error a)
    write_sealed m c failed = broken c 0 sealing
    write_sealed m c panics = write_panics c

    unfoldable pub write_fragment : ℕ → List ℕ → Output S → Written S
    unfolding write_sealed
    write_fragment typ fragment c =
        let (half, result) =
          encrypt p (net.random c) c.half (record_header typ (length fragment) c) fragment in
        write_sealed (length fragment) (record c { half = half }) result

    -- One round of the loop; `data[:m]` panics at a negative `m`.
    unfoldable pub write_chunk : ℕ → List ℕ → Option ℕ × Output S → Written S
    unfolding write_fragment
    write_chunk typ bytes (none, c) = write_panics c
    write_chunk typ bytes (some limit, c) =
        if ltb limit (length bytes)
        then write_fragment typ (take limit bytes) c
        else write_fragment typ bytes c

    -- The rest of the loop after a round.
    unfoldable pub continue : (ℕ → Output S → Written S) → ℕ → Written S → Written S
    continue next n (wrote c m) = next m c
    continue next n (broken c m e) = broken c n e
    continue next n (write_panics c) = write_panics c
    continue next n (unfinished c) = unfinished c

    unfoldable pub write_loop : ℕ → ℕ → List ℕ → ℕ → Output S → Written S
    unfolding write_chunk continue max_payload_size_for_write
    write_loop fuel typ [] n c = wrote c n
    write_loop zero typ (b ∷ bytes) n c = unfinished c
    write_loop (suc fuel) typ (b ∷ bytes) n c =
        continue (λ m c'. write_loop fuel typ (drop m (b ∷ bytes)) (n + m) c') n
          (write_chunk typ (b ∷ bytes) (max_payload_size_for_write typ c))

    -- The end of `sendAlertLocked`: `closeNotify` is no error.
    unfoldable pub alert_sent : ℕ → Written S → Written S
    alert_sent a (wrote c n) =
        if a == alert_close_notify
        then wrote c n
        else broken (record c { err = some (local_error a) }) n (local_error a)
    alert_sent a (broken c n e) =
        if a == alert_close_notify
        then broken c n e
        else broken (record c { err = some (local_error a) }) n (local_error a)
    alert_sent a (write_panics c) = write_panics c
    alert_sent a (unfinished c) = unfinished c

    -- An alert is two bytes, and no ChangeCipherSpec.
    unfoldable pub send_alert_locked : ℕ → Output S → Written S
    unfolding write_loop alert_sent
    send_alert_locked a c =
        alert_sent a (write_loop 2 RecordType.alert (alert_level a ∷ (a % 256 ∷ [])) 0 c)

    -- After the loop: a ChangeCipherSpec changes the cipher.
    unfoldable pub after_loop : ℕ → Written S → Written S
    unfolding send_alert_locked
    after_loop typ (broken c n e) = broken c n e
    after_loop typ (write_panics c) = write_panics c
    after_loop typ (unfinished c) = unfinished c
    after_loop typ (wrote c n) =
        if (typ == RecordType.change_cipher_spec) && not (c.vers == version_tls13)
        then elim (change_cipher_spec c.half) [
          | none ↦ continue (λ m c'. wrote c' n) n (send_alert_locked alert_internal_error c)
          | some half ↦ wrote (record c { half = half }) n
        ]
        else wrote c n

    -- `writeRecordLocked`: a round takes at least one byte, unless the ciphers take a whole packet.
    unfoldable pub write_record_locked : ℕ → List ℕ → Output S → Written S
    unfolding after_loop write_loop
    write_record_locked typ bytes c = after_loop typ (write_loop (length bytes) typ bytes 0 c)
