-- ===== src/Record/Flight.antt =====
-- conn.go: `writeHandshakeRecord` and `writeRecord`, which gather REALITY's flight in `handshakeBuf`
-- when the target sent its own in one record.
use electricity.Common.{
  ℕ, ◌≡◌, ◌≢◌, refl, ap, sym, ◌∙◌, false, Option, none, some, List, [], ◌∷◌, ◌++◌, ◌==◌, concat,
  append_assoc, append-nil, All, arith, if◌then◌else◌,
}
use electricity.Const.RecordType
use electricity.Const.MessageType
use electricity.Record.HalfConn.{HalfConn}

abbrev written : Option (List ℕ) → List (List ℕ) → List (List ℕ)
written none later = later
written (some bytes) later = bytes ∷ later

-- A message that the flight goes on after.
pub data IsInner : List ℕ → Type 0 where
  is_inner :
      (typ : ℕ) (body : List ℕ)
      → typ ≢ MessageType.server_hello
      → typ ≢ MessageType.finished
      → IsInner (typ ∷ body)

module _ {S : Type 0} where
  -- What `writeHandshakeRecord` hands on to `writeRecordLocked`: the message, the whole flight with
  -- its last message, or nothing yet.
  unfoldable pub queue_handshake : List ℕ → HalfConn S → HalfConn S × Option (List ℕ)
  queue_handshake [] hc = (hc, some [])
  queue_handshake (typ ∷ body) hc = elim hc.handshake_buf [
    | none ↦ (hc, some (typ ∷ body))
    | some buf ↦
        if typ == MessageType.server_hello
        then (hc, some (typ ∷ body))
        else if typ == MessageType.finished
        then (record hc { handshake_buf = none }, some (buf ++ (typ ∷ body)))
        else (record hc { handshake_buf = some (buf ++ (typ ∷ body)) }, none)
  ]

  -- `writeRecord`, which gathers handshake records alone.
  unfoldable pub queue_record : ℕ → List ℕ → HalfConn S → HalfConn S × Option (List ℕ)
  unfolding queue_handshake
  queue_record typ bytes hc =
      if typ == RecordType.handshake then queue_handshake bytes hc else (hc, some bytes)

  -- The writes that a sequence of messages comes to.
  unfoldable pub queue_all : List (List ℕ) → HalfConn S → HalfConn S × List (List ℕ)
  unfolding queue_handshake
  queue_all [] hc = (hc, [])
  queue_all (message ∷ messages) hc =
      let (hc₁, now) = queue_handshake message hc in
      let (hc₂, later) = queue_all messages hc₁ in (hc₂, written now later)

  queue_inner :
      (message buf : List ℕ) (messages : List (List ℕ)) (hc : HalfConn S)
      → hc.handshake_buf ≡ some buf
      → IsInner message
      → queue_all (message ∷ messages) hc
        ≡ queue_all messages (record hc { handshake_buf = some (buf ++ message) })
  unfolding queue_all queue_handshake
  queue_inner message buf messages hc h (is_inner typ body s f) =
      let a : (typ == MessageType.server_hello) ≡ false = ground arith in
      let b : (typ == MessageType.finished) ≡ false = ground arith in rw (h, a, b) refl

  queue_last :
      (buf body : List ℕ) (hc : HalfConn S)
      → hc.handshake_buf ≡ some buf
      → queue_all ((MessageType.finished ∷ body) ∷ []) hc
        ≡ (record hc { handshake_buf = none }, (buf ++ (MessageType.finished ∷ body)) ∷ [])
  unfolding queue_all queue_handshake
  queue_last buf body hc h = rw (h) refl

  -- While messages are gathered nothing is written; the Finished message ends the flight, and all of
  -- it is written at once, in order and unchanged.
  pub queue_all-concat :
      (messages : List (List ℕ)) (buf body : List ℕ) (hc : HalfConn S)
      → hc.handshake_buf ≡ some buf
      → All IsInner messages
      → queue_all (messages ++ ((MessageType.finished ∷ body) ∷ [])) hc ≡ (
        record hc { handshake_buf = none },
        (buf ++ concat (messages ++ ((MessageType.finished ∷ body) ∷ []))) ∷ [],
      )
  queue_all-concat [] buf body hc h inner =
      queue_last buf body hc h
      ∙ ap (λ l. (record hc { handshake_buf = none }, (buf ++ l) ∷ []))
          (sym (append-nil (MessageType.finished ∷ body)))
  queue_all-concat (message ∷ messages) buf body hc h (i, inner) =
      queue_inner message buf (messages ++ ((MessageType.finished ∷ body) ∷ [])) hc h i
      ∙ (queue_all-concat messages (buf ++ message) body
            (record hc { handshake_buf = some (buf ++ message) }) refl inner
          ∙ ap (λ l. (record hc { handshake_buf = none }, l ∷ []))
              (append_assoc buf message
                (concat (messages ++ ((MessageType.finished ∷ body) ∷ [])))))
