-- ===== src/Reality/Server.antt =====
-- tls.go: `Server`, the two goroutines under their mutex and what they leave. `MirrorConn` forwards
-- to the target what is read of the client while the ClientHello is read.
use electricity.Common.{
  ◌||◌, ℕ, ◌≡◌, ◌==◌, Bool, true, false, Option, none, some, List, [], ◌++◌, not, ◌&&◌, get_or,
  if◌then◌else◌,
}
use electricity.Wire.{Cryptobyte}
use electricity.Reality.Auth.{Config, Crypto, Shared, HelloRead, client_turn, initial}
use electricity.Reality.Mirror.{Mirror, mirror_start, receive, Pass, more, reject, start}
pub mod Sound
pub mod Outcomes

-- The second goroutine: it reads from the target, or it left its loop and the mutex, or it did what is
-- left after that.
pub data Turn : Type 0 where
  reading leaving finished : Turn

abbrev pub has_finished : Turn → Bool
has_finished reading = false
has_finished leaving = false
has_finished finished = true

-- `received` is all that was read from the target and `from_client` all that was read of the client
-- through the MirrorConn; `to_target` and `to_client` are what was given to their `Write` so far,
-- whose results the code does not look at, less the `io.Copy` that both ways end with. `hello_result`
-- is what `readClientHello` returned, after the first goroutine's turn.
pub record Server : Type 0 where
  pub shared : Shared
  pub mirror : Mirror
  pub turn : Turn
  pub hello_result : Option HelloRead
  pub complete : Bool
  pub received : List ℕ
  pub from_client : List ℕ
  pub to_target : List ℕ
  pub to_client : List ℕ
  pub copying_back : Bool
  pub target_closed : Bool

abbrev pub server_start : Server
server_start = record {
  shared = initial;
  mirror = mirror_start;
  turn = reading;
  hello_result = none;
  complete = false;
  received = [];
  from_client = [];
  to_target = [];
  to_client = [];
  copying_back = false;
  target_closed = false;
}

-- `MirrorConn.Read`: the bytes that were read are written to the target, and where reading failed,
-- with some bytes or none, the target is closed.
unfoldable pub mirror_read : List ℕ → Bool → Server → Server
mirror_read bytes failed s = record s {
  from_client = s.from_client ++ bytes;
  to_target = s.to_target ++ bytes;
  target_closed = failed || s.target_closed;
}

-- The end of the second goroutine, after `mutex.Unlock()`: `stole` is read without the mutex.
unfoldable pub finish : Server → Server
finish s =
    if (get_or s.mirror.handshake_len 0 0 == 0) && not s.shared.stole
    then record s {
      turn = finished;
      to_client = s.to_client ++ s.mirror.saved;
      copying_back = true;
    }
    else record s { turn = finished }

module _ (cb : Cryptobyte) (suite_known : ℕ → Bool) where
  -- The end of the loop's body: `succeeds` tells whether both `handshake` and `readClientFinished`
  -- returned a nil error.
  unfoldable pub after_pass : Bool → Pass → Server → Server
  after_pass succeeds (more m) s = record s { mirror = m }
  after_pass succeeds (reject m) s = record s { mirror = m; turn = leaving }
  after_pass succeeds (start m) s = record s { mirror = m; complete = succeeds; turn = leaving }

  -- One round of the second goroutine's loop, for bytes that `target.Read` returned.
  unfoldable pub target_turn : List ℕ → Bool → Server → Server
  unfolding after_pass
  target_turn bytes succeeds s =
      let s₁ = record s { received = s.received ++ bytes } in
      if not s.shared.conn_is_client
      then record s₁ {
        shared = record (s.shared) { copying = if s.shared.stole then s.shared.copying else true };
        mirror = record (s.mirror) { saved = s.mirror.saved ++ bytes };
        turn = leaving;
      }
      else after_pass succeeds (receive cb suite_known bytes s.mirror) s₁

-- The first goroutine's turn.
unfoldable pub hello_turn : Crypto → Config → HelloRead → Server → Server
hello_turn crypto config result s = record s {
  shared = client_turn crypto config result s.shared;
  hello_result = some result;
}

-- The steps: those under the mutex as wholes, and the end of the second goroutine after it.
pub data Step (cb : Cryptobyte) (suite_known : ℕ → Bool) (crypto : Crypto) (config : Config)
    : Server → Server → Type 0 where
  client_sends :
      (s : Server) (bytes : List ℕ) (failed : Bool)
      → s.hello_result ≡ none
      → Step cb suite_known crypto config s (mirror_read bytes failed s)
  client_answered :
      (s : Server) (result : HelloRead)
      → s.hello_result ≡ none
      → Step cb suite_known crypto config s (hello_turn crypto config result s)
  target_sends :
      (s : Server) (bytes : List ℕ) (succeeds : Bool)
      → s.turn ≡ reading
      → Step cb suite_known crypto config s (target_turn cb suite_known bytes succeeds s)
  target_finishes : (s : Server) → s.turn ≡ leaving → Step cb suite_known crypto config s (finish s)
  -- `target.Read` failed: the client's connection is closed, and nothing is sent.
  target_closes :
      (s : Server)
      → s.turn ≡ reading
      → Step cb suite_known crypto config s (record s { turn = finished })

-- The states that a run of `Server` passes through.
pub data Reached (cb : Cryptobyte) (suite_known : ℕ → Bool) (crypto : Crypto) (config : Config)
    : Server → Type 0 where
  begins : Reached cb suite_known crypto config server_start
  steps :
      (s t : Server)
      → Reached cb suite_known crypto config s
      → Step cb suite_known crypto config s t
      → Reached cb suite_known crypto config t

-- After both goroutines are done, the connection is returned or closed.
unfoldable pub returned : Server → Bool
returned s = s.complete && has_finished s.turn
