-- ===== src/Wire.antt =====
-- Byte strings: handshake_messages.go writes and reads them through golang.org/x/crypto/cryptobyte,
-- a module outside this repository. It is a parameter: its operations, and what its documentation
-- says of them. The children hold what the messages share and a concrete instance.
pub mod Build
pub mod Parse
pub mod Extensions
pub mod Adds
pub mod Fresh
pub mod Reference
use electricity.Common.{ℕ, ◌+◌, ◌*◌, ◌^◌, ◌<◌, ◌≡◌, Option, some, List, ◌++◌, length}

-- `w` is a width in bytes: `put 2` is AddUint16, `read 3` is ReadUint24, `put_prefixed 1` is
-- AddUint8LengthPrefixed over the bytes that its function adds, and `none` is the error of an
-- overlong body; `read_prefixed 2` is ReadUint16LengthPrefixed. A read returns the value with the
-- string that is left, or `none` for `false`.
pub record Cryptobyte : Type 0 where
  pub put : ℕ → ℕ → List ℕ
  pub put_prefixed : ℕ → List ℕ → Option (List ℕ)
  pub skip : ℕ → List ℕ → Option (List ℕ)
  pub read : ℕ → List ℕ → Option (ℕ × List ℕ)
  pub read_bytes : ℕ → List ℕ → Option (List ℕ × List ℕ)
  pub read_prefixed : ℕ → List ℕ → Option (List ℕ × List ℕ)
  -- A fixed width is written in full, and a value in range is read back.
  pub length-put : (w v : ℕ) → length (put w v) ≡ w
  pub read-put : (w v : ℕ) (rest : List ℕ) → v < 256 ^ w → read w (put w v ++ rest) ≡ some (v, rest)
  -- A prefix is the length of the body, and must fit its width.
  pub put_prefixed_eq :
      (w : ℕ) (body out : List ℕ)
      → put_prefixed w body ≡ some out
      → (length body < 256 ^ w) × (out ≡ put w (length body) ++ body)
  pub put_prefixed_fits :
      (w : ℕ) (body : List ℕ)
      → length body < 256 ^ w
      → put_prefixed w body ≡ some (put w (length body) ++ body)
  pub read_prefixed-put :
      (w : ℕ) (body rest : List ℕ)
      → length body < 256 ^ w
      → read_prefixed w (put w (length body) ++ (body ++ rest)) ≡ some (body, rest)
  -- `n` bytes are skipped, or read.
  pub skip-append : (n : ℕ) (a rest : List ℕ) → length a ≡ n → skip n (a ++ rest) ≡ some rest
  pub read_bytes-append :
      (n : ℕ) (a rest : List ℕ) → length a ≡ n → read_bytes n (a ++ rest) ≡ some (a, rest)
  -- A read that succeeds advances over what it reads.
  pub read_advances :
      (w : ℕ) (s rest : List ℕ) (v : ℕ) → read w s ≡ some (v, rest) → length rest + w ≡ length s
  pub read_prefixed_advances :
      (w : ℕ) (s a rest : List ℕ)
      → read_prefixed w s ≡ some (a, rest)
      → length rest + length a + w ≡ length s
