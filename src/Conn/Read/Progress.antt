-- ===== src/Conn/Read/Progress.antt =====
-- conn.go: what the comment on `readRecordOrCCS` promises of each call.
use electricity.Common.{ℕ, ◌≡◌, Bool, none, some, List}
use electricity.Record.HalfConn.{Primitives, HalfConn}
use electricity.Record.Seq.{inc_seq}
use electricity.Record.Decrypt.{decrypt}
use electricity.Conn.State.{Conn, Round, failed, advanced, again, panicked}
use electricity.Conn.Read.Ends.{Progress, Ends}

-- What becomes of a half-connection by `decrypt` alone.
pub data ByDecrypt {S : Type 0} (p : Primitives S) (first : HalfConn S) : HalfConn S → Type 0 where
  as_before : ByDecrypt p first first
  opened :
      (half : HalfConn S) (bytes : List ℕ)
      → ByDecrypt p first half
      → ByDecrypt p first (decrypt p half bytes).0

module _ {S : Type 0} (p : Primitives S) where
  -- The only panic is that of `decrypt` where the sequence number is used up.
  abbrev pub Spent : HalfConn S → Type 0
  Spent first = (half : HalfConn S) × ByDecrypt p first half × (inc_seq half.seq ≡ none)

  -- How a round ends that started at `c`, and the half-connection at `first`.
  abbrev pub EndsFrom : HalfConn S → Bool → Conn S → Round S → Type 0
  EndsFrom first = Ends (ByDecrypt p first) (Spent first)

  -- How a call ends: there is no record left to drop.
  abbrev pub Finishes : HalfConn S → Bool → Conn S → Round S → Type 0
  Finishes first expect c (failed c' e) = c'.in_err ≡ some e
  Finishes first expect c (advanced c') =
      Progress (ByDecrypt p first) expect c c' × (c'.in_err ≡ none)
  Finishes first expect c (again c') = ⊥
  Finishes first expect c (panicked c') = Spent first
