-- ===== src/Reality/Mirror.antt =====
-- tls.go: the server's second goroutine. It takes the target's flight apart into records, and notes
-- the length of each of the seven, which the server's own records will be padded to.
use electricity.Common.{
  ℕ, suc, ◌+◌, ◌≤◌, ◌<◌, ◌≡◌, Bool, true, false, Option, none, some, List, [], ◌∷◌, ◌++◌, not, ◌&&◌,
  ◌||◌, ◌==◌, ltb, leb, length, take, drop, get_or, set, replicate, if◌then◌else◌, Outcome, ok,
  fail, stuck,
}
use electricity.Const.{version_tls12, version_tls13, record_header_len}
use electricity.Const.RecordType
use electricity.Const.MessageType
use electricity.Wire.{Cryptobyte}
use electricity.Message.ServerHello.{ServerHelloMsg, unmarshal_server_hello}
use electricity.Reality.Value.{value}
use electricity.Reality.Auth.{group_x25519}
pub mod Fallback

-- `size`, the limit on what is kept of the target's flight.
abbrev pub size : ℕ
size = 8192

abbrev pub group_x25519_mlkem768 : ℕ
group_x25519_mlkem768 = 4588

abbrev pub ciphertext_size768 : ℕ
ciphertext_size768 = 1088

-- `handshake_len` holds the lengths of `hs.c.out.handshakeLen`, 0 where none is known yet, and
-- `record_len` is the local `handshakeLen`, the length of the record that is being received.
-- `buffered` is set when the server's own flight goes out as one record: `handshakeBuf` is not nil.
pub record Mirror : Type 0 where
  pub saved : List ℕ
  pub record_len : ℕ
  pub handshake_len : List ℕ
  pub buffered : Bool
  pub hello : Option ServerHelloMsg

abbrev pub mirror_start : Mirror
mirror_start = record {
  saved = [];
  record_len = 0;
  handshake_len = replicate 7 0;
  buffered = false;
  hello = none;
}

-- How a pass over the seven types ends: `continue f` for more data, `break f` to give up, or the
-- end of the loop, where the handshake starts.
pub data Pass : Type 0 where
  more reject start : Mirror → Pass

abbrev pub byte : List ℕ → ℕ → ℕ
byte bytes i = get_or bytes i 0

-- The header of a record of the wrong version or kind; `s2cSaved[5]` is its first byte of content.
abbrev pub bad_header : ℕ → List ℕ → Bool
bad_header i saved =
    not (value (take 2 (drop 1 saved)) == version_tls12)
    || ((i == 0
          && (not (byte saved 0 == RecordType.handshake)
              || not (byte saved 5 == MessageType.server_hello)))
        || ((i == 1
              && (not (byte saved 0 == RecordType.change_cipher_spec) || not (byte saved 5 == 1)))
            || (ltb 1 i && not (byte saved 0 == RecordType.application_data))))

module _ (cb : Cryptobyte) (suite_known : ℕ → Bool) where
  -- The checks on the target's ServerHello; `suite_known` is `cipherSuiteTLS13ByID(…) != nil`.
  abbrev pub good_hello : ServerHelloMsg → Bool
  good_hello hello =
      (hello.vers == version_tls12)
      && ((hello.supported_version == version_tls13)
          && (suite_known hello.cipher_suite
              && (((hello.server_share.group == group_x25519)
                    && (length hello.server_share.key_data == 32))
                  || ((hello.server_share.group == group_x25519_mlkem768)
                      && (length hello.server_share.key_data == ciphertext_size768 + 32)))))

  -- The record `i` is complete: the first is the ServerHello, and is parsed and checked.
  unfoldable pub read_hello : ℕ → Mirror → Outcome Mirror
  read_hello i m =
      if i == 0
      then elim (unmarshal_server_hello cb (drop record_header_len (take m.record_len m.saved))) [
        | ok hello ↦ if good_hello hello then ok (record m { hello = some hello }) else fail
        | fail ↦ fail
        | stuck ↦ stuck
      ]
      else ok m

  -- `if handshakeLen == 0 && len(s2cSaved) > recordHeaderLen { … }`
  unfoldable pub read_header : ℕ → Mirror → Option Mirror
  read_header i m =
      if (m.record_len == 0) && ltb record_header_len (length m.saved)
      then (if bad_header i m.saved
          then none
          else some (record m { record_len = record_header_len + value (take 2 (drop 3 m.saved)) }))
      else some m

  abbrev pub note : ℕ → Mirror → Mirror
  note i m = record m { handshake_len = set m.handshake_len i m.record_len }

  -- The record's bytes go, and the next one starts.
  abbrev pub consume : ℕ → Mirror → Mirror
  consume i m = record (note i m) { saved = drop m.record_len m.saved; record_len = 0 }

  -- What a type's round does after the header was read; `next` is the rest of the loop.
  unfoldable pub after_header : ℕ → Mirror → (Mirror → Pass) → Pass
  after_header i m next =
      if ltb size m.record_len
      then reject m
      else if (i == 1) && (ltb 0 m.record_len && not (m.record_len == 6))
      then reject m
      else if (i == 2) && ltb 512 m.record_len
      then start (record (note i m) { buffered = true })
      else if (i == 6) && ltb 0 m.record_len
      then start (note i m)
      else if (m.record_len == 0) || ltb (length m.saved) m.record_len
      then more m
      else elim (read_hello i m) [
        | ok m' ↦ next (consume i m')
        | fail ↦ reject m
        | stuck ↦ reject m
      ]

  -- `for i, t := range types`, from type `i` on, for the `n` types left.
  unfoldable pub pass : ℕ → ℕ → Mirror → Pass
  pass ℕ.zero i m = start m
  pass (suc n) i m =
      let next = pass n (i + 1) in
      if not (get_or m.handshake_len i 0 == 0)
      then next m
      else if (i == 6) && (length m.saved == 0)
      then start m
      else elim (read_header i m) [ none ↦ reject m | some m' ↦ after_header i m' next ]

  -- `n` bytes arrived from the target while the connection is the client's.
  unfoldable pub receive : List ℕ → Mirror → Pass
  receive bytes m =
      let m' = record m { saved = m.saved ++ bytes } in
      if ltb size (length m'.saved) then reject m' else pass 7 0 m'
