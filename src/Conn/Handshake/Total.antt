-- ===== src/Conn/Handshake/Total.antt =====
-- conn.go: `readHandshakeBytes` ends.
use electricity.Common.{ℕ, ◌≤◌, ◌<◌, ◌≡◌, false, some, List, [], ◌∷◌, ◌++◌, length, is_empty, arith}
use electricity.Record.HalfConn.{Primitives, HalfConn}
use electricity.Conn.State.{Conn, Round, failed, advanced, again, panicked}
use electricity.Conn.Read.Progress.{ByDecrypt, Spent}

module _ {S : Type 0} (p : Primitives S) where
  -- With nil `n` bytes are there, nothing that was there is lost, and the half-connection is as
  -- `decrypt` left it; an error stays.
  abbrev pub Gathers : ℕ → HalfConn S → Conn S → Round S → Type 0
  Gathers n first c (failed c' e) = c'.in_err ≡ some e
  Gathers n first c (advanced c') =
      (n ≤ length c'.hand)
      × (extra : List ℕ) × (c'.hand ≡ c.hand ++ extra)
      × ByDecrypt p first c'.half
  Gathers n first c (again c') = ⊥
  Gathers n first c (panicked c') = Spent p first

pub grown : (l : List ℕ) → is_empty l ≡ false → 0 < length l
grown [] h = absurd (ground arith)
grown (x ∷ l) h = omega arith
