-- ===== src/Reality/Server/Sound.antt =====
-- tls.go: what holds in every state of a run of `Server`.
use electricity.Common.{
  ℕ, ◌≡◌, ◌∙◌, ◌<◌, ◌==◌, Bool, true, false, Option, none, some, List, [], ◌++◌, not, ◌&&◌, get_or,
  refl, arith, Bool-cases, inl, inr, ◌∷◌, if◌then◌else◌, ap,
}
use electricity.Const.{version_tls13}
use electricity.Wire.{Cryptobyte}
use electricity.Message.ServerHello.{KeyShare}
use electricity.Message.ClientHello.{ClientHelloMsg}
use electricity.Reality.Auth.{Config, Crypto, HelloRead, read_ok}
use electricity.Reality.Auth.Accepted.{Opens, client_turn-conn_is_client, client_turn-copying}
use electricity.Reality.Mirror.{receive, Pass, more, reject, start}
use electricity.Reality.Mirror.Fallback.{
  Follows, FollowsPass, Follows-start, receive-Follows, Follows-append,
}
use electricity.Reality.Server.{
  reading, leaving, finished, Server, mirror_read, finish, after_pass, target_turn, hello_turn,
  client_sends, client_answered, target_sends, target_finishes, target_closes, Reached, begins,
  steps,
}

-- The client is let in by the hello that was read: TLS 1.3 was negotiated, for a server name that is
-- served, and one of its key shares opens the session id to an acceptable client.
pub data Admitted (crypto : Crypto) (config : Config) (result : Option HelloRead) : Type 0 where
  admitted :
      (hello : ClientHelloMsg) (front : List KeyShare) (share : KeyShare) (back : List KeyShare)
      → result ≡ some (read_ok hello version_tls13)
      → config.server_names hello.server_name ≡ true
      → hello.key_shares ≡ front ++ (share ∷ back)
      → Opens crypto config hello share
      → Admitted crypto config result

module _ (cb : Cryptobyte) (suite_known : ℕ → Bool) (crypto : Crypto) (config : Config) where
  -- What holds of every state of a run.
  pub record Sound (s : Server) : Type 0 where
    pub follows : Follows cb suite_known s.received s.mirror
    pub unread : s.hello_result ≡ none → s.shared.conn_is_client ≡ false
    pub authentic : s.shared.conn_is_client ≡ true → Admitted crypto config s.hello_result
    pub one_owner : s.shared.conn_is_client ≡ true → s.shared.copying ≡ false
    pub completed :
        s.complete ≡ true
        → (s.shared.conn_is_client ≡ true) × (0 < get_or s.mirror.handshake_len 0 0)
    pub mirrored : s.to_target ≡ s.from_client
    pub silent : s.copying_back ≡ false → s.to_client ≡ []
    pub undecided : s.turn ≡ reading → (s.complete ≡ false) × (s.copying_back ≡ false)
    pub idle : s.turn ≡ leaving → s.copying_back ≡ false
    pub copied : s.copying_back ≡ true → (s.to_client ≡ s.received) × (s.complete ≡ false)

  finish-Sound : (s : Server) → s.turn ≡ leaving → Sound s → Sound (finish s)
  unfolding finish
  finish-Sound s turn f =
      elim (Bool-cases ((get_or s.mirror.handshake_len 0 0 == 0) && not s.shared.stole)) [
        | inr e ↦ rw (e) record {
          follows = f.follows;
          unread = f.unread;
          authentic = f.authentic;
          one_owner = f.one_owner;
          completed = f.completed;
          mirrored = f.mirrored;
          silent = f.silent;
          undecided = λ h. cc;
          idle = λ h. cc;
          copied = f.copied;
        }
        | inl e ↦
            let zero_len : get_or s.mirror.handshake_len 0 0 ≡ 0 = ground arith in
            let empty : s.to_client ≡ [] = f.silent (f.idle turn) in
            rw (e) record {
              follows = f.follows;
              unread = f.unread;
              authentic = f.authentic;
              one_owner = f.one_owner;
              completed = f.completed;
              mirrored = f.mirrored;
              silent = λ h. cc;
              undecided = λ h. cc;
              idle = λ h. cc;
              copied = λ _. (
                rw (empty) (f.follows.kept zero_len),
                elim (Bool-cases s.complete) [
                  | inr part ↦ part
                  | inl full ↦
                      let (_, opened) = f.completed full in absurd (omega (arith, zero_len))
                ],
              );
            }
      ]

  mirror_read-Sound :
      (s : Server) (bytes : List ℕ) (failed : Bool) → Sound s → Sound (mirror_read bytes failed s)
  unfolding mirror_read
  mirror_read-Sound s bytes failed f = record {
    follows = f.follows;
    unread = f.unread;
    authentic = f.authentic;
    one_owner = f.one_owner;
    completed = f.completed;
    mirrored = ap (λ l. l ++ bytes) f.mirrored;
    silent = f.silent;
    undecided = f.undecided;
    idle = f.idle;
    copied = f.copied;
  }

  target_closes-Sound : (s : Server) → Sound s → Sound (record s { turn = finished })
  target_closes-Sound s f = record {
    follows = f.follows;
    unread = f.unread;
    authentic = f.authentic;
    one_owner = f.one_owner;
    completed = f.completed;
    mirrored = f.mirrored;
    silent = f.silent;
    undecided = λ h. cc;
    idle = λ h. cc;
    copied = f.copied;
  }

  -- `s` is the state with the bytes received, and the first four are what was known before.
  after_pass-Sound :
      (s : Server) (succeeds : Bool) (p : Pass)
      → s.shared.conn_is_client ≡ true
      → (s.hello_result ≡ none → s.shared.conn_is_client ≡ false)
      → Admitted crypto config s.hello_result
      → s.shared.copying ≡ false
      → s.to_target ≡ s.from_client
      → s.to_client ≡ []
      → s.complete ≡ false
      → s.copying_back ≡ false
      → FollowsPass cb suite_known s.received p
      → Sound (after_pass cb suite_known succeeds p s)
  unfolding after_pass
  after_pass-Sound s succeeds (more m) own unread auth one mirrored empty open_ idle h = record {
    follows = h;
    unread = unread;
    authentic = λ _. auth;
    one_owner = λ _. one;
    completed = λ c. cc;
    mirrored = mirrored;
    silent = λ _. empty;
    undecided = λ _. (open_, idle);
    idle = λ _. idle;
    copied = λ c. cc;
  }
  after_pass-Sound s succeeds (reject m) own unread auth one mirrored empty open_ idle h = record {
    follows = h;
    unread = unread;
    authentic = λ _. auth;
    one_owner = λ _. one;
    completed = λ c. cc;
    mirrored = mirrored;
    silent = λ _. empty;
    undecided = λ c. cc;
    idle = λ _. idle;
    copied = λ c. cc;
  }
  after_pass-Sound s succeeds (start m) own unread auth one mirrored empty open_ idle (h, opened) =
      record {
        follows = h;
        unread = unread;
        authentic = λ _. auth;
        one_owner = λ _. one;
        completed = λ c. (own, opened);
        mirrored = mirrored;
        silent = λ _. empty;
        undecided = λ c. cc;
        idle = λ _. idle;
        copied = λ c. cc;
      }

  target_turn-Sound :
      (s : Server) (bytes : List ℕ) (succeeds : Bool)
      → s.turn ≡ reading
      → Sound s
      → Sound (target_turn cb suite_known bytes succeeds s)
  unfolding target_turn
  target_turn-Sound s bytes succeeds turn f =
      let (incomplete, idle) = f.undecided turn in
      let empty : s.to_client ≡ [] = f.silent idle in
      elim (Bool-cases s.shared.conn_is_client) [
        | inr e ↦
            let s' : Server = record s {
              received = s.received ++ bytes;
              shared = record (s.shared) {
                copying = if s.shared.stole then s.shared.copying else true;
              };
              mirror = record (s.mirror) { saved = s.mirror.saved ++ bytes };
              turn = leaving;
            } in
            let same : target_turn cb suite_known bytes succeeds s ≡ s' = ground arith in
            let appended = Follows-append cb suite_known s.received bytes s.mirror f.follows in
            let sound : Sound s' = record {
              follows = appended;
              unread = f.unread;
              authentic = f.authentic;
              one_owner = λ h. cc;
              completed = f.completed;
              mirrored = f.mirrored;
              silent = f.silent;
              undecided = λ h. cc;
              idle = λ _. idle;
              copied = λ h. cc;
            } in
            rw (same) sound
        | inl e ↦
            let s' : Server = record s { received = s.received ++ bytes } in
            let same : target_turn cb suite_known bytes succeeds s
                ≡ after_pass cb suite_known succeeds (receive cb suite_known bytes s.mirror) s' =
              ground arith in
            rw (same) (
              after_pass-Sound s' succeeds (receive cb suite_known bytes s.mirror) e f.unread
                (f.authentic e) (f.one_owner e) f.mirrored empty incomplete idle
                (receive-Follows cb suite_known s.received bytes s.mirror f.follows))
      ]

  hello_turn-Sound :
      (s : Server) (result : HelloRead)
      → s.hello_result ≡ none
      → Sound s
      → Sound (hello_turn crypto config result s)
  unfolding hello_turn
  hello_turn-Sound s result unread f = record {
    follows = f.follows;
    unread = λ h. cc;
    authentic = λ h.
        let (hello, same, known, _, front, share, back, p, o) =
          client_turn-conn_is_client crypto config result s.shared (f.unread unread) h in
        admitted hello front share back (ap some same) known p o;
    one_owner = λ h.
        let (_, _, _, free, _, _, _, _, _) =
          client_turn-conn_is_client crypto config result s.shared (f.unread unread) h in
        client_turn-copying crypto config result s.shared ∙ free;
    completed = λ h. absurd (let (own, _) = f.completed h in let other = f.unread unread in cc);
    mirrored = f.mirrored;
    silent = f.silent;
    undecided = f.undecided;
    idle = f.idle;
    copied = f.copied;
  }

  pub Reached-Sound : {s : Server} → Reached cb suite_known crypto config s → Sound s
  Reached-Sound begins = record {
    follows = Follows-start cb suite_known;
    unread = λ h. refl;
    authentic = λ h. cc;
    one_owner = λ h. refl;
    completed = λ h. cc;
    mirrored = refl;
    silent = λ h. refl;
    undecided = λ h. (refl, refl);
    idle = λ h. cc;
    copied = λ h. cc;
  }
  Reached-Sound (steps s _ reached (client_sends _ bytes failed h)) =
      mirror_read-Sound s bytes failed (Reached-Sound reached)
  Reached-Sound (steps s _ reached (client_answered _ result h)) =
      hello_turn-Sound s result h (Reached-Sound reached)
  Reached-Sound (steps s _ reached (target_sends _ bytes succeeds h)) =
      target_turn-Sound s bytes succeeds h (Reached-Sound reached)
  Reached-Sound (steps s _ reached (target_finishes _ h)) = finish-Sound s h (Reached-Sound reached)
  Reached-Sound (steps s _ reached (target_closes _ h)) =
      target_closes-Sound s (Reached-Sound reached)
