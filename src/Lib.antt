-- ===== src/Lib.antt =====
-- A model of the REALITY server and of the parts of its TLS library that it stands on.
--
-- A REALITY server accepts a TCP connection, dials the target site, and lets the client's ClientHello
-- through to the target while it reads it. A client that proves knowledge of the server's key in its
-- session id is taken over: the server learns the lengths of the records of the target's flight, and
-- sends a flight of its own in records of the same lengths. Any other client is connected to the target,
-- except that one which asks for a name that the server does not serve gets nothing more.
--
-- Which file models which part (paths from the repository's root):
-- - Common: lists of bytes, tests on numbers, results of fallible code. `Outcome` has `ok`, `fail` for
--   the source's false, and `stuck` for a loop that ran out of the model's fuel.
-- - Const: the constants of common.go.
-- - Wire: what handshake_messages.go uses of x/crypto/cryptobyte, as the record `Cryptobyte` of
--   operations and documented laws; the loops over lists and extensions; `Wire.Reference` is an
--   instance. The loops run on the length of their input as fuel, which is enough as every read takes
--   at least a byte.
-- - Message: handshake_messages.go. `Message.Post` has Finished, KeyUpdate, CertificateVerify and
--   CertificateStatus, `Message.Encrypted` EncryptedExtensions, `Message.ServerHello` and
--   `Message.ClientHello` the hellos. `marshal_x` and `unmarshal_x` are the methods of xMsg; a builder's
--   error is `none`. The ClientHello is only read.
-- - Reality: tls.go. `Reality.Value` is Value, `Reality.Auth` the first goroutine of Server from Lock to
--   Unlock (`client_turn`), `Reality.Mirror` the second one's loop over the seven record types
--   (`receive`), and `Reality.Server` the two as steps (`Step`, `Reached`): what runs under the mutex is
--   one step, as are MirrorConn.Read (`mirror_read`), in which the mutex is released, and what the second
--   goroutine does after it released the mutex (`finish`), before which the first may have its turn.
--   `Reality.Server.Sound` is their invariant.
-- - Record: conn.go. `Record.Seq` is incSeq, `Record.HalfConn` halfConn and its ciphers, as the record
--   `Primitives` of the calls of crypto/cipher and hash, `Record.Padding` extractPadding,
--   `Record.Encrypt` and `Record.Decrypt` the methods of those names, and `Record.Flight` the buffer of
--   writeHandshakeRecord and writeRecord.
-- - Conn: conn.go again, the connection. `Conn.State` and `Conn.Read` are readRecordOrCCS with the alerts
--   that it sends and the records that it drops (`read_record_or_ccs`, on the seventeen rounds that
--   maxUselessRecords allows as fuel), `Conn.Frames` the unprotected records, `Conn.Handshake`
--   readHandshake up to the message's bytes (its fuel is the number of bytes wanted and two rounds more),
--   `Conn.Write` writeRecordLocked and what it calls (its fuel is the number of bytes;
--   `Conn.Write.Trail` says without fuel what it is to do, record by record), `Conn.Exchange`
--   both ends together, `Conn.Close` Write and closeNotify under the lock of c.out, and `Conn.Interlock`
--   activeCall, with Write and Close of any number of goroutines as steps.
-- - Suite: cipher_suites.go. `Suite.Aead` has the two wrappers that make an AEAD's nonce from the
--   sequence number.
-- - Session: `Session.Keys` is ticketKeys of common.go, with the keys that rotate on their own, and
--   `Session.Ticket` encryptTicket and decryptTicket of ticket.go, and `Session.Cache` lruSessionCache of
--   common.go, with pointers as numbers.
-- - Negotiate: the choice of the version, in common.go and readClientHello of handshake_server.go.
-- - Tests: runs on concrete values.
--
-- Bytes are numbers, and strings and byte slices lists of them; a nil slice is an empty list unless
-- the code tells them apart. Arithmetic on machine words is written out modulo its width. After a
-- panic of the first goroutine the model goes on, where the process has ended: its runs are more
-- than those of the program. Reading notes the alerts that it sends in a list, and writing them is
-- `Conn.Write`'s; a reader's network is the bytes that come before its end, a writer's network takes
-- all of a write or fails after some bytes; but the results of `Write` that tls.go does not look at are
-- not modelled, and `to_target` and `to_client` are what was given to it. Deadlines are not modelled.
--
-- Not modelled: the handshakes themselves (handshake_server_tls13.go and its kin; their outcome is the
-- argument `succeeds` of a step), the rest of readClientHello (its result is an argument of
-- the server), the io.Copy that the forwarding ends with, debug output, QUIC, ECH, the state inside a
-- session ticket, the key schedule, and the ciphers of aes and gcm.
pub mod Common
pub mod Const
pub mod Wire
pub mod Message
pub mod Reality
pub mod Record
pub mod Conn
pub mod Suite
pub mod Session
pub mod Negotiate
pub mod Tests
