-- ===== src/Tests/Sessions.antt =====
-- Session tickets and AEAD nonces on concrete values.
use electricity.Common.{
  ℕ, ◌+◌, ◌≡◌, ◌⊎◌, inl, inr, refl, ap, sym, true, false, Option, none, some, List, [], ◌∷◌, ◌++◌,
  arith, length, length-append, length-replicate, replicate, get_or, take, All, subst, take-append,
  ◌-◌,
}
use electricity.Record.Seq.{inc_seq, inc_from, seq_after}
use electricity.Suite.Aead.{
  Below, IsBelow, XorNonceAead, PrefixNonceAead, xor_seal, xor_open, prefix_seal, prefix_open,
}
use electricity.Suite.Nonce.{
  IsMask, IsNonce, xor_open-xor_seal, xor_mask-seq_after, prefix_open-prefix_seal,
}
use electricity.Session.Keys.{TicketKey, TicketConfig, rotate, is_fresh}
use electricity.Session.Keys.Rotation.{Has, IsRotated, IsYoung, rotate-IsRotated}
use electricity.Session.Ticket.{TicketCrypto, IsTicketCrypto, encrypt_ticket, decrypt_ticket}
use electricity.Session.Ticket.RoundTrip.{Misses, decrypt_ticket-authentic}
use electricity.Session.Ticket.Resumed.{begin, decrypt_ticket-Rotations}
use mathlib.Core.Logic.{ite}
use native.Mathlib.Decide.{ℕ_discrete}
use electricity.Session.Cache.{SessionCache, put, get}
use electricity.Session.Cache.Recency.{IsConsistent, lookup}
use electricity.Session.Cache.Moves.{Becomes, put_recent, get_recent}
use electricity.Session.Cache.Refines.{put-Becomes, get-Becomes}
use electricity.Negotiate.{negotiate_version}
use electricity.Negotiate.Chosen.{Negotiates, negotiate_version-Negotiates}
use electricity.Tests.Records.{first_seq, tag}

abbrev below : Below
below = record {
  seal = λ nonce plain ad. plain ++ tag;
  open_sealed = λ nonce sealed ad. some (take (length sealed - 16) sealed);
}

below-IsBelow : IsBelow below
below-IsBelow = record {
  open-seal = λ nonce plain ad.
      ap some (
        take-append (length (plain ++ tag) - 16) plain tag
          (omega (arith, length-append plain tag)));
}

abbrev mask : List ℕ
mask = 9 ∷ (8 ∷ (7 ∷ (6 ∷ (5 ∷ (4 ∷ (3 ∷ (2 ∷ (1 ∷ (0 ∷ (255 ∷ (254 ∷ [])))))))))))

abbrev masked : XorNonceAead
masked = record { nonce_mask = mask; aead = below }

mask-IsMask : IsMask mask
mask-IsMask = record { twelve = refl; bytes = omega arith }

first-IsNonce : IsNonce first_seq
first-IsNonce = record { eight = refl; bytes = omega arith }

xor_open-xor_seal_example :
    ((xor_seal masked first_seq (1 ∷ []) []).0 ≡ masked)
    × (xor_open masked first_seq (xor_seal masked first_seq (1 ∷ []) []).1 []
        ≡ (masked, some (1 ∷ [])))
xor_open-xor_seal_example =
    xor_open-xor_seal masked first_seq (1 ∷ []) [] below-IsBelow mask-IsMask first-IsNonce

first_is : seq_after 1 (replicate 8 0) ≡ some first_seq
unfolding seq_after inc_seq inc_from
first_is = refl

xor_mask-seq_after_example : ◌≡◌ {A = ℕ} 1 1
xor_mask-seq_after_example =
    xor_mask-seq_after mask 1 1 first_seq first_seq mask-IsMask first_is first_is refl

abbrev prefixed : ℕ → PrefixNonceAead
prefixed b = record { nonce = 1 ∷ (2 ∷ (3 ∷ (4 ∷ replicate 8 b))); aead = below }

prefix_open-prefix_seal_example :
    ((prefix_open (prefixed 0) first_seq (prefix_seal (prefixed 9) first_seq (5 ∷ []) []).1 []).1
      ≡ some (5 ∷ []))
    × (take 4 (prefix_seal (prefixed 9) first_seq (5 ∷ []) []).0.nonce ≡ take 4 (prefixed 9).nonce)
    × (length (prefix_seal (prefixed 9) first_seq (5 ∷ []) []).0.nonce ≡ 12)
prefix_open-prefix_seal_example =
    prefix_open-prefix_seal (prefixed 9) (prefixed 0) first_seq (5 ∷ []) [] below-IsBelow refl refl
      refl refl refl

-- A sum that says which key it is of, and a cipher that leaves the text.
abbrev crypto : TicketCrypto
crypto = record { hmac = λ key bytes. replicate 32 (get_or key 0 0); ctr = λ key iv text. text }

crypto-IsTicketCrypto : IsTicketCrypto crypto
crypto-IsTicketCrypto = record {
  length-hmac = λ key bytes. length-replicate 32 (get_or key 0 0);
  length-ctr = λ key iv text. refl;
  ctr-ctr = λ key iv text. refl;
}

-- A hash that repeats the first byte, and random bytes that tell how many keys there were.
abbrev hash : List ℕ → List ℕ
hash b = replicate 64 (get_or b 0 0)

abbrev random : TicketConfig → Option (List ℕ)
random c = some (replicate 32 (length c.auto_session_ticket_keys + 1))

abbrev without_keys : TicketConfig
without_keys = record {
  session_tickets_disabled = false;
  session_ticket_key = [];
  session_ticket_keys = [];
  auto_session_ticket_keys = [];
}

abbrev key_at : ℕ → ℕ → TicketKey
key_at b now = record { aes_key = replicate 16 b; hmac_key = replicate 16 b; created = now }

abbrev with_key : TicketConfig
with_key = record without_keys { auto_session_ticket_keys = key_at 1 100000 ∷ [] }

abbrev with_keys : TicketConfig
with_keys = record without_keys {
  auto_session_ticket_keys = key_at 2 200000 ∷ (key_at 1 100000 ∷ []);
}

first_rotation : rotate hash random 100000 without_keys ≡ some (with_key, key_at 1 100000 ∷ [])
unfolding rotate
first_rotation = refl

second_rotation :
    rotate hash random 200000 with_key ≡ some (with_keys, key_at 2 200000 ∷ (key_at 1 100000 ∷ []))
unfolding rotate
second_rotation = refl

rotate-IsRotated_example :
    (is_fresh 200000 (key_at 2 200000 ∷ (key_at 1 100000 ∷ [])) ≡ true)
    × All (IsYoung 200000) (key_at 2 200000 ∷ (key_at 1 100000 ∷ []))
    × (with_keys.auto_session_ticket_keys ≡ key_at 2 200000 ∷ (key_at 1 100000 ∷ []))
    × IsRotated 200000 (key_at 2 200000 ∷ (key_at 1 100000 ∷ []))
rotate-IsRotated_example =
    rotate-IsRotated hash random 200000 100000 with_key with_keys
      (key_at 2 200000 ∷ (key_at 1 100000 ∷ [])) (omega arith) (omega arith) second_rotation

abbrev iv : List ℕ
iv = replicate 16 3

abbrev ticket : List ℕ
ticket = (iv ++ (7 ∷ (8 ∷ []))) ++ replicate 32 1

issued : encrypt_ticket crypto (some iv) (7 ∷ (8 ∷ [])) (key_at 1 100000 ∷ []) ≡ some ticket
unfolding encrypt_ticket
issued = refl

only_first :
    (j : TicketKey)
    → Has j (key_at 2 200000 ∷ (key_at 1 100000 ∷ []))
    → (j ≡ key_at 1 100000) ⊎ Misses crypto ticket j
only_first j (inl e) = inr (subst (Misses crypto ticket) e refl)
only_first j (inr (inl e)) = inl (sym e)
only_first j (inr (inr h)) = elim h [ ]

decrypt_ticket-Rotations_example :
    decrypt_ticket crypto ticket (key_at 2 200000 ∷ (key_at 1 100000 ∷ [])) ≡ some (7 ∷ (8 ∷ []))
decrypt_ticket-Rotations_example =
    decrypt_ticket-Rotations hash random crypto crypto-IsTicketCrypto 0 100000 200000 100000
      without_keys with_key with_key with_keys (key_at 1 100000) []
      (key_at 2 200000 ∷ (key_at 1 100000 ∷ [])) iv (7 ∷ (8 ∷ [])) ticket (omega arith) tt
      first_rotation refl issued begin (omega arith) (omega arith) second_rotation only_first

decrypted : decrypt_ticket crypto ticket (key_at 1 100000 ∷ []) ≡ some (7 ∷ (8 ∷ []))
unfolding decrypt_ticket
decrypted = refl

decrypt_ticket-authentic_example :
    (key : TicketKey) × Has key (key_at 1 100000 ∷ [])
    × (iv : List ℕ) × (text : List ℕ) × (ticket
        ≡ (iv ++ text) ++ crypto.hmac key.hmac_key (iv ++ text))
    × (length iv ≡ 16)
    × (7 ∷ (8 ∷ []) ≡ crypto.ctr key.aes_key iv text)
decrypt_ticket-authentic_example =
    decrypt_ticket-authentic crypto ticket (7 ∷ (8 ∷ [])) (key_at 1 100000 ∷ []) decrypted

-- A full cache of one session, and what `Put` of nil does for another key.
abbrev full_cache : SessionCache ℕ ℕ
full_cache = record {
  m = λ k. ite (ℕ_discrete 5 k) (some 0) none;
  q = record { id = 0; session_key = 5; state = some 9 } ∷ [];
  capacity = 1;
  next_id = 1;
}

full_cache-IsConsistent : IsConsistent ℕ_discrete full_cache
full_cache-IsConsistent = record {
  index = λ k. refl;
  ids = (tt, tt);
  keys = (tt, tt);
  used = (omega arith, tt);
  fits = omega arith;
  some_room = omega arith;
}

put-Becomes_example :
    (c' : SessionCache ℕ ℕ) × (put ℕ_discrete 6 none full_cache ≡ some c')
    × Becomes ℕ_discrete full_cache (put_recent ℕ_discrete 1 6 none ((5, some 9) ∷ [])) c'
put-Becomes_example = put-Becomes ℕ_discrete 6 none full_cache full_cache-IsConsistent

get-Becomes_example :
    (c' : SessionCache ℕ ℕ) × (get ℕ_discrete 5 full_cache
      ≡ some (c', lookup ℕ_discrete 5 ((5, some 9) ∷ [])))
    × Becomes ℕ_discrete full_cache (get_recent ℕ_discrete 5 ((5, some 9) ∷ [])) c'
get-Becomes_example = get-Becomes ℕ_discrete 5 full_cache full_cache-IsConsistent

-- The session of the other key is lost.
evicted : put_recent {V = ℕ} ℕ_discrete 1 6 none ((5, some 9) ∷ []) ≡ (6, none) ∷ []
unfolding ℕ_discrete
evicted = refl

-- A hello of TLS 1.3 without supported_versions.
negotiate_version-Negotiates_example :
    Negotiates false
      (record { min_version = 0; max_version = 0; has_ech_configs = false })
      0x0304
      []
      (negotiate_version false
        (record { min_version = 0; max_version = 0; has_ech_configs = false })
        0x0304
        [])
negotiate_version-Negotiates_example =
    negotiate_version-Negotiates false
      (record { min_version = 0; max_version = 0; has_ech_configs = false }) 0x0304 []
