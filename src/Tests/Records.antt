-- ===== src/Tests/Records.antt =====
-- conn.go on concrete records, and versions compared as tls.go does.
use electricity.Common.{
  if◌then◌else◌, get_or, ℕ, ◌+◌, ◌-◌, ◌^◌, ◌≡◌, ◌↔◌, refl, ap, Option, none, some, List, [], ◌∷◌,
  ◌++◌, length, length-append, take-append, take, replicate, set, All, arith, leb,
}
use electricity.Record.Padding.{extract_padding}
use electricity.Record.Padding.Valid.{is_padded, extract_padding-is_padded}
use electricity.Record.Seq.{inc_from, inc_seq, seq_after, inc_seq-big_endian, seq_after-injective}
use electricity.Record.HalfConn.{
  aead, Primitives, IsAead, HalfConn, done, failed, explicit_nonce_len, zero_seq,
}
use electricity.Record.Encrypt.{pad, mirror_length, close_record, seal_padded, seal_tls13, encrypt}
use electricity.Record.Encrypt.Mirrored.{IsTls13, length-encrypt_mirrored, encrypt-failed}
use electricity.Record.Encrypt.Sent.{encrypt-done}
use electricity.Record.Decrypt.{decrypt}
use electricity.Record.Decrypt.RoundTrip.{decrypt-encrypt}
use electricity.Record.Flight.{is_inner, queue_all, queue_all-concat}
use electricity.Reality.Value.{IsByte, big_endian, lex_leb, value, value-big_endian, leb-value}

-- A cipher with a tag of 16 zeros.
abbrev pub tag : List ℕ
tag = replicate 16 0

abbrev pub primitives : Primitives ℕ
primitives = record {
  xor_key_stream = λ s bytes. (bytes, s);
  seal = λ s nonce plain ad. plain ++ tag;
  open_sealed = λ s nonce sealed ad. some (take (length sealed - 16) sealed);
  overhead = λ s. 16;
  nonce_len = λ s. 0;
  block_size = λ s. 16;
  set_iv = λ s iv. s;
  crypt_blocks = λ s bytes. (bytes, s);
  mac = λ s bytes. [];
  mac_size = λ s. 0;
}

cut_tag : (plain : List ℕ) → take (length (plain ++ tag) - 16) (plain ++ tag) ≡ plain
cut_tag plain =
    take-append (length (plain ++ tag) - 16) plain tag (omega (arith, length-append plain tag))

primitives-IsAead : IsAead primitives
primitives-IsAead = record {
  open-seal = λ s nonce plain ad. ap some (cut_tag plain);
  length-seal = λ s nonce plain ad. length-append plain tag;
}

-- A direction whose target sent a Finished record of 40 bytes, and one without a target.
abbrev pub direction : List ℕ → HalfConn ℕ
direction handshake_len = record {
  handshake_len = handshake_len;
  handshake_buf = none;
  version = 0x0304;
  cipher = some (aead 0);
  mac_hash = none;
  seq = zero_seq;
  next_cipher = none;
  next_mac = none;
  level = 0;
  traffic_secret = [];
}

abbrev lengths : List ℕ
lengths = 90 ∷ (6 ∷ (0 ∷ (0 ∷ (0 ∷ (40 ∷ (0 ∷ []))))))

abbrev mirroring : HalfConn ℕ
mirroring = direction lengths

abbrev pub first_seq : List ℕ
first_seq = replicate 7 0 ++ (1 ∷ [])

abbrev mirrored : HalfConn ℕ
mirrored = record mirroring { handshake_len = set lengths 5 0; seq = first_seq }

abbrev pub no_random : ℕ → Option (List ℕ)
no_random n = none

mirroring-IsTls13 : IsTls13 primitives mirroring 0
mirroring-IsTls13 = record { cipher = refl; version = refl; no_explicit = refl }

-- A Finished of four bytes of header and one of data, padded to 40 bytes.
abbrev record_bytes : List ℕ
record_bytes =
    (23 ∷ (3 ∷ (3 ∷ (0 ∷ (35 ∷ [])))))
    ++ ((20 ∷ (0 ∷ (0 ∷ (1 ∷ (7 ∷ (22 ∷ [])))))) ++ (replicate 13 0 ++ tag))

abbrev finished_body : List ℕ
finished_body = 0 ∷ (0 ∷ (1 ∷ (7 ∷ [])))

encrypt_run :
    encrypt primitives no_random mirroring (22 ∷ (3 ∷ (3 ∷ (0 ∷ (5 ∷ []))))) (20 ∷ finished_body)
    ≡ (mirrored, done record_bytes)
unfolding encrypt seal_tls13 seal_padded mirror_length pad close_record explicit_nonce_len inc_seq
    inc_from
encrypt_run = refl

length-encrypt_mirrored_example :
    (length record_bytes ≡ 40) × (mirrored.handshake_len ≡ set lengths 5 0)
length-encrypt_mirrored_example =
    length-encrypt_mirrored primitives no_random mirroring mirrored 0 3 3 0 5 20 5 finished_body
      record_bytes primitives-IsAead mirroring-IsTls13 (λ h. cc) refl encrypt_run

pub first_counts : inc_seq zero_seq ≡ some first_seq
unfolding inc_seq inc_from
first_counts = refl

encrypt-done_example :
    (hc' : HalfConn ℕ) × (bytes : List ℕ) × (encrypt primitives no_random mirroring
        (22 ∷ (3 ∷ (3 ∷ (0 ∷ (5 ∷ [])))))
        (20 ∷ finished_body)
      ≡ (hc', done bytes))
encrypt-done_example =
    encrypt-done primitives no_random mirroring 0 3 3 0 5 20 5 finished_body first_seq
      mirroring-IsTls13 (λ h. cc) refl (omega arith) (omega arith) first_counts

encrypt-failed_example :
    encrypt primitives no_random mirroring
      (22 ∷ (3 ∷ (3 ∷ (0 ∷ (5 ∷ [])))))
      (24 ∷ (0 ∷ (0 ∷ (1 ∷ (0 ∷ [])))))
    ≡ (mirroring, failed)
encrypt-failed_example =
    encrypt-failed primitives no_random mirroring 0 3 3 0 5 24 (0 ∷ (0 ∷ (1 ∷ (0 ∷ []))))
      mirroring-IsTls13 (λ h. cc) refl

decrypt-encrypt_example :
    decrypt primitives mirroring record_bytes
    ≡ (record mirroring { seq = first_seq }, done (20 ∷ finished_body, 22))
decrypt-encrypt_example =
    decrypt-encrypt primitives no_random mirroring mirrored mirroring 0 22 3 3 0 5 20 finished_body
      record_bytes primitives-IsAead mirroring-IsTls13 mirroring-IsTls13 refl refl (λ h. cc)
      (λ e on h. cc) (omega arith) encrypt_run

zero_seq-bytes : All IsByte zero_seq
zero_seq-bytes = ground arith

inc_seq-big_endian_example :
    ((inc_seq zero_seq ≡ none) ↔ (big_endian zero_seq + 1 ≡ 2 ^ 64))
    × ((next : List ℕ)
        → inc_seq zero_seq ≡ some next
        → (big_endian next ≡ big_endian zero_seq + 1) × (length next ≡ 8) × All IsByte next)
inc_seq-big_endian_example = inc_seq-big_endian zero_seq zero_seq-bytes refl

seq_after_run : seq_after 1 zero_seq ≡ some first_seq
unfolding seq_after inc_seq inc_from
seq_after_run = refl

seq_after-injective_example : ◌≡◌ {A = ℕ} 1 1
seq_after-injective_example = seq_after-injective 1 1 first_seq seq_after_run seq_after_run

abbrev version : List ℕ
version = 1 ∷ (8 ∷ (24 ∷ []))

abbrev newer : List ℕ
newer = 1 ∷ (9 ∷ (0 ∷ []))

version-bytes : All IsByte version
version-bytes = ground arith

newer-bytes : All IsByte newer
newer-bytes = ground arith

value-big_endian_example : value version ≡ big_endian version
value-big_endian_example = value-big_endian version version-bytes (omega arith)

leb-value_example : leb (value version) (value newer) ≡ lex_leb version newer
leb-value_example = leb-value version newer version-bytes newer-bytes refl (omega arith)

abbrev gathering : HalfConn ℕ
gathering = record mirroring { handshake_buf = some [] }

abbrev extensions_message : List ℕ
extensions_message = 8 ∷ (0 ∷ [])

abbrev certificate_message : List ℕ
certificate_message = 11 ∷ (1 ∷ (2 ∷ []))

queue_all-concat_example :
    queue_all (extensions_message ∷ (certificate_message ∷ ((20 ∷ (7 ∷ [])) ∷ []))) gathering
    ≡ (mirroring, (8 ∷ (0 ∷ (11 ∷ (1 ∷ (2 ∷ (20 ∷ (7 ∷ []))))))) ∷ [])
queue_all-concat_example =
    queue_all-concat (extensions_message ∷ (certificate_message ∷ [])) [] (7 ∷ []) gathering refl (
      is_inner 8 (0 ∷ []) (λ h. cc) (λ h. cc),
      (is_inner 11 (1 ∷ (2 ∷ [])) (λ h. cc) (λ h. cc), tt),
    )

-- Three bytes of padding behind a byte of data.
abbrev three_padded : List ℕ
three_padded = 9 ∷ (2 ∷ (2 ∷ (2 ∷ [])))

extract_padding-is_padded_example :
    extract_padding three_padded
    ≡ (if is_padded three_padded then (get_or three_padded 3 0 + 1, 255) else (1, 0))
extract_padding-is_padded_example =
    extract_padding-is_padded 9 (2 ∷ (2 ∷ (2 ∷ []))) (omega arith) (omega arith)
