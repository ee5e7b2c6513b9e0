-- ===== src/Reality/Auth.antt =====
-- tls.go: what the server's first goroutine does with the ClientHello under the mutex.
use electricity.Common.{
  ℕ, ◌+◌, ◌-◌, ◌≤◌, ◌<◌, ◌≡◌, Bool, true, false, Option, none, some, List, [], ◌∷◌, ◌++◌, not, ◌&&◌,
  ◌||◌, ◌==◌, leb, length, take, drop, replicate, if◌then◌else◌, bind?,
}
use electricity.Const.{version_tls13}
use electricity.Message.ServerHello.{KeyShare}
use electricity.Message.ClientHello.{ClientHelloMsg}
use electricity.Reality.Value.{value, int_leb}
pub mod Accepted

-- The fields of Config that the server reads. A nil version is `none`, and a map of allowed keys is
-- its lookup. Times are seconds and differences of the same unit.
pub record Config : Type 0 where
  pub private_key : List ℕ
  pub server_names : List ℕ → Bool
  pub min_client_ver : Option (List ℕ)
  pub max_client_ver : Option (List ℕ)
  pub max_time_diff : ℕ
  pub short_ids : List ℕ → Bool

-- curve25519 and hkdf stand outside the repository; `open` is the Open of the AES-GCM of gcm.go
-- under the key, with nonce, ciphertext and additional data, `none` for an error. `since` is the
-- absolute difference between now and a time.
pub record Crypto : Type 0 where
  pub x25519 : List ℕ → List ℕ → Option (List ℕ)
  pub hkdf : List ℕ → List ℕ → List ℕ → Option (List ℕ)
  pub aead_open : List ℕ → List ℕ → List ℕ → List ℕ → Option (List ℕ)
  pub since : ℕ → ℕ

abbrev pub group_x25519 : ℕ
group_x25519 = 29

-- []byte("REALITY")
abbrev pub reality_info : List ℕ
reality_info = b'R' ∷ b'E' ∷ b'A' ∷ b'L' ∷ b'I' ∷ b'T' ∷ b'Y' ∷ []

-- What the two goroutines share of `hs`, and their flags. `conn_is_client` is `hs.c.conn == conn`:
-- the handshake takes the connection over. `panicked` is a nil dereference, which ends the process.
pub record Shared : Type 0 where
  pub conn_is_client : Bool
  pub copying : Bool
  pub stole : Bool
  pub panicked : Bool
  pub client_hello : Option ClientHelloMsg
  pub auth_key : List ℕ
  pub client_ver : List ℕ
  pub client_time : ℕ
  pub client_short_id : List ℕ

abbrev pub initial : Shared
initial = record {
  conn_is_client = false;
  copying = false;
  stole = false;
  panicked = false;
  client_hello = none;
  auth_key = [];
  client_ver = [];
  client_time = 0;
  client_short_id = [];
}

-- Go's `copy(dst, src)`.
abbrev pub copy : List ℕ → List ℕ → List ℕ
copy dst src = take (length dst) src ++ drop (length src) dst

-- `hs.clientHello.sessionId points to hs.clientHello.raw[39:]`: a copy into it writes there too.
unfoldable pub write_session_id : ClientHelloMsg → List ℕ → ClientHelloMsg
write_session_id hello src =
    let sid = copy hello.session_id src in
    let raw =
      take 39 hello.original ++ (sid ++ drop (39 + length hello.session_id) hello.original) in
    record hello { original = raw; session_id = sid }

-- A nil bound holds of every version.
abbrev pub at_least : Option (List ℕ) → List ℕ → Bool
at_least none ver = true
at_least (some least) ver = int_leb (value least) (value ver)

abbrev pub at_most : Option (List ℕ) → List ℕ → Bool
at_most none ver = true
at_most (some most) ver = int_leb (value ver) (value most)

-- The bounds on the version, the clock and the short id.
unfoldable pub accepts : Crypto → Config → List ℕ → ℕ → List ℕ → Bool
accepts crypto config ver client_time short_id =
    at_least config.min_client_ver ver
    && (at_most config.max_client_ver ver
        && ((config.max_time_diff == 0 || leb (crypto.since client_time) config.max_time_diff)
            && config.short_ids short_id))

abbrev pub zeros : List ℕ
zeros = replicate 32 0

-- The plain text of a session id: the client's version, its time and its short id.
abbrev pub plain_ver : List ℕ → List ℕ
plain_ver plain = take 3 plain

abbrev pub plain_time : List ℕ → ℕ
plain_time plain = value (take 4 (drop 4 plain))

abbrev pub plain_short_id : List ℕ → List ℕ
plain_short_id plain = take 8 (drop 8 plain)

-- The end of the loop's body, from the plain text that the session id opened to.
abbrev pub opened : Crypto → Config → Shared → ClientHelloMsg → List ℕ → List ℕ → Shared
opened crypto config hs hello key plain = record hs {
  client_hello = some hello;
  auth_key = key;
  client_ver = plain_ver plain;
  client_time = plain_time plain;
  client_short_id = plain_short_id plain;
  conn_is_client =
      if accepts crypto config (plain_ver plain) (plain_time plain) (plain_short_id plain)
      then true
      else hs.conn_is_client;
}

-- The body of the loop over the key shares, for the first share that is not passed over. The
-- session id is zeroed for `Open`, whose additional data is the whole hello, and put back after.
unfoldable pub try_share : Crypto → Config → Shared → ClientHelloMsg → KeyShare → Shared
try_share crypto config hs hello share = elim (crypto.x25519 config.private_key share.key_data) [
  | none ↦ record hs { auth_key = [] }
  | some secret ↦ elim (crypto.hkdf secret (take 20 hello.random) reality_info) [
    | none ↦ record hs { auth_key = secret }
    | some key ↦
        let ciphertext = copy zeros hello.session_id in
        let zeroed = write_session_id hello zeros in
        elim (crypto.aead_open key (drop 20 hello.random) ciphertext zeroed.original) [
          | none ↦ record hs { auth_key = key; client_hello = some zeroed }
          | some text ↦
              opened crypto config hs (write_session_id zeroed ciphertext) key (copy zeros text)
        ]
  ]
]

-- `keyShare.group != X25519 || len(keyShare.data) != 32` passes a share over.
unfoldable pub try_shares : Crypto → Config → Shared → ClientHelloMsg → List KeyShare → Shared
try_shares crypto config hs hello [] = hs
try_shares crypto config hs hello (share ∷ shares) =
    let others = try_shares crypto config hs hello shares in
    if not (share.group == group_x25519) || not (length share.key_data == 32)
    then others
    else try_share crypto config hs hello share

-- What `readClientHello` returns: the hello and the negotiated version, or an error with a nil
-- hello.
pub data HelloRead : Type 0 where
  read_ok : ClientHelloMsg → ℕ → HelloRead
  read_failed : HelloRead

-- The pointer and the error that it returns, and `hs.c.vers` after it, which stays 0 without a hello.
abbrev pub hello_of : HelloRead → Option ClientHelloMsg
hello_of (read_ok hello vers) = some hello
hello_of read_failed = none

abbrev pub has_failed : HelloRead → Bool
has_failed (read_ok hello vers) = false
has_failed read_failed = true

abbrev pub vers_of : HelloRead → ℕ
vers_of (read_ok hello vers) = vers
vers_of read_failed = 0

-- The loop of the first goroutine, whose every path ends with a break, from `Lock` to `Unlock`.
-- `hs.clientHello.serverName` is read before the error is looked at, and a nil pointer panics.
unfoldable pub client_turn : Crypto → Config → HelloRead → Shared → Shared
unfolding try_share try_shares
client_turn crypto config result hs =
    let hs₁ = record hs { client_hello = hello_of result } in
    elim (hello_of result) [
      | none ↦ record hs₁ { panicked = true }
      | some hello ↦
          if not (config.server_names hello.server_name)
          then record hs₁ { stole = true }
          else if hs.copying || (has_failed result || not (vers_of result == version_tls13))
          then hs₁
          else try_shares crypto config hs₁ hello hello.key_shares
    ]
