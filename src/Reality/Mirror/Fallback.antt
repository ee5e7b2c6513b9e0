-- ===== src/Reality/Mirror/Fallback.antt =====
-- tls.go: until the target's ServerHello is accepted nothing of what the target sent is lost, so the
-- server can still forward it all.
use electricity.Common.{
  false, Option, ◌∙◌, take-append_long, subst, sym, length-append, ℕ, zero, suc, ◌+◌, ◌≤◌, ◌<◌, ◌≡◌,
  ◌≢◌, refl, ap, Bool, true, some, List, [], ◌∷◌, ◌++◌, not, ◌&&◌, ◌||◌, ◌==◌, ltb, length, take,
  drop, get_or, set, length-set, All, ok, Outcome-cases, arith, Bool-cases, Option-cases, inl, inr,
}
use electricity.Const.{record_header_len}
use electricity.Wire.{Cryptobyte}
use electricity.Message.ServerHello.{ServerHelloMsg, unmarshal_server_hello}
use electricity.Reality.Value.{value}
use electricity.Reality.Mirror.{
  Mirror, mirror_start, Pass, more, reject, start, size, good_hello, read_hello, read_header,
  consume, after_header, pass, receive, bad_header,
}

get_or-set-zero : (l : List ℕ) (v d : ℕ) → 0 < length l → get_or (set l 0 v) 0 d ≡ v
get_or-set-zero [] v d h = absurd (omega arith)
get_or-set-zero (x ∷ l) v d h = refl

get_or-set-suc : (l : List ℕ) (i v d : ℕ) → get_or (set l (suc i) v) 0 d ≡ get_or l 0 d
get_or-set-suc [] i v d = refl
get_or-set-suc (x ∷ l) i v d = refl

All-set :
    (l : List ℕ) (i v : ℕ) → v ≤ size → All (λ n. n ≤ size) l → All (λ n. n ≤ size) (set l i v)
All-set [] i v h a = a
All-set (x ∷ l) zero v h (_, a) = (h, a)
All-set (x ∷ l) (suc i) v h (b, a) = (b, All-set l i v h a)

module _ (cb : Cryptobyte) (suite_known : ℕ → Bool) (received : List ℕ) where
  -- The length noted for the target's ServerHello, 0 before it was accepted.
  abbrev pub hello_len : Mirror → ℕ
  hello_len m = get_or m.handshake_len 0 0

  -- The ServerHello that is noted is what the first `n` bytes of the target hold, less their header,
  -- and passed the checks.
  abbrev pub Noted : ℕ → Option ServerHelloMsg → Type 0
  Noted n noted =
      (hello : ServerHelloMsg) × (noted ≡ some hello)
      × (unmarshal_server_hello cb (drop record_header_len (take n received)) ≡ ok hello)
      × (good_hello cb suite_known hello ≡ true)

  -- `received` is all that the target sent so far.
  pub record Follows (m : Mirror) : Type 0 where
    pub kept : hello_len m ≡ 0 → m.saved ≡ received
    pub inside : hello_len m ≤ length received
    pub checked : 0 < hello_len m → Noted (hello_len m) m.hello
    pub bounded : All (λ n. n ≤ size) m.handshake_len
    pub seven : length m.handshake_len ≡ 7

  -- The state that a pass ends with, and where it ends: the handshake starts on an accepted hello.
  abbrev pub FollowsPass : Pass → Type 0
  FollowsPass (more m) = Follows m
  FollowsPass (reject m) = Follows m
  FollowsPass (start m) = Follows m × (0 < hello_len m)

  consume-zero :
      {m : Mirror} {hello : ServerHelloMsg}
      → Follows m
      → m.record_len ≤ size
      → m.record_len ≢ 0
      → m.record_len ≤ length m.saved
      → hello_len m ≡ 0
      → unmarshal_server_hello cb (drop record_header_len (take m.record_len m.saved)) ≡ ok hello
      → good_hello cb suite_known hello ≡ true
      → Follows (consume cb suite_known 0 (record m { hello = some hello }))
        × (0 < hello_len (consume cb suite_known 0 (record m { hello = some hello })))
  consume-zero {m = m} {hello = hello} f fits some_len there first parsed good =
      let noted : get_or (set m.handshake_len 0 m.record_len) 0 0 ≡ m.record_len =
        get_or-set-zero m.handshake_len m.record_len 0 (omega (arith, f.seven)) in
      let all_saved : m.saved ≡ received = f.kept first in
      let holds : ℕ → List ℕ → Type 0 =
        λ n l. unmarshal_server_hello cb (drop record_header_len (take n l)) ≡ ok hello in
      (
        record {
          kept = λ h. absurd (some_len (omega (arith, noted, h)));
          inside = omega (arith, noted, there, ap length all_saved);
          checked = λ h. (
            hello,
            refl,
            subst (λ n. holds n received) (sym noted) (subst (holds m.record_len) all_saved parsed),
            good,
          );
          bounded = All-set m.handshake_len 0 m.record_len fits f.bounded;
          seven = omega (arith, length-set m.handshake_len 0 m.record_len, f.seven);
        },
        omega (arith, noted, some_len),
      )

  consume-suc :
      (i : ℕ) {m : Mirror}
      → Follows m
      → 0 < hello_len m
      → m.record_len ≤ size
      → Follows (consume cb suite_known (suc i) m)
        × (0 < hello_len (consume cb suite_known (suc i) m))
  consume-suc i {m = m} f opened fits = (
    record {
      kept = λ h. absurd (omega (arith, get_or-set-suc m.handshake_len i m.record_len 0));
      inside = omega (arith, get_or-set-suc m.handshake_len i m.record_len 0, f.inside);
      checked = λ h.
          subst (λ n. Noted n m.hello) (sym (get_or-set-suc m.handshake_len i m.record_len 0))
            (f.checked opened);
      bounded = All-set m.handshake_len (suc i) m.record_len fits f.bounded;
      seven = omega (arith, length-set m.handshake_len (suc i) m.record_len, f.seven);
    },
    omega (arith, get_or-set-suc m.handshake_len i m.record_len 0),
  )

  consume-Follows :
      (i : ℕ) (m m' : Mirror)
      → Follows m
      → (0 < i → 0 < hello_len m)
      → m.record_len ≤ size
      → m.record_len ≢ 0
      → m.record_len ≤ length m.saved
      → (i ≡ 0 → hello_len m ≡ 0)
      → read_hello cb suite_known i m ≡ ok m'
      → Follows (consume cb suite_known i m') × (0 < hello_len (consume cb suite_known i m'))
  unfolding read_hello
  consume-Follows zero m m' f later fits some_len there first h =
      elim (Outcome-cases
        (unmarshal_server_hello cb (drop record_header_len (take m.record_len m.saved)))) [
          | inr e ↦ absurd (ground arith)
          | inl (hello, e) ↦ elim (Bool-cases (good_hello cb suite_known hello)) [
            | inr e₁ ↦ absurd (ground arith)
            | inl e₁ ↦
                let same : m' ≡ record m { hello = some hello } = ground arith in
                rw (same) (consume-zero f fits some_len there (first refl) e e₁)
          ]
        ]
  consume-Follows (suc i) m m' f later fits some_len there first h =
      let same : m' ≡ m = ground arith in rw (same) (consume-suc i f (later (omega arith)) fits)

  note-Follows :
      (i : ℕ) (m : Mirror) (b : Bool)
      → Follows m
      → 0 < hello_len m
      → m.record_len ≤ size
      → Follows
          (record m { handshake_len = set m.handshake_len (suc i) m.record_len; buffered = b })
        × (0 < hello_len (record m { handshake_len = set m.handshake_len (suc i) m.record_len }))
  note-Follows i m b f opened fits = (
    record {
      kept = λ h. absurd (omega (arith, get_or-set-suc m.handshake_len i m.record_len 0));
      inside = omega (arith, get_or-set-suc m.handshake_len i m.record_len 0, f.inside);
      checked = λ h.
          subst (λ n. Noted n m.hello) (sym (get_or-set-suc m.handshake_len i m.record_len 0))
            (f.checked opened);
      bounded = All-set m.handshake_len (suc i) m.record_len fits f.bounded;
      seven = omega (arith, length-set m.handshake_len (suc i) m.record_len, f.seven);
    },
    omega (arith, get_or-set-suc m.handshake_len i m.record_len 0),
  )

  read_header-Follows :
      (i : ℕ) (m m' : Mirror)
      → Follows m
      → read_header cb suite_known i m ≡ some m'
      → Follows m' × (hello_len m' ≡ hello_len m)
  unfolding read_header
  read_header-Follows i m m' f h =
      elim (Bool-cases ((m.record_len == 0) && ltb record_header_len (length m.saved))) [
        | inr e ↦ let same : m' ≡ m = ground arith in rw (same) (f, refl)
        | inl e ↦ elim (Bool-cases (bad_header i m.saved)) [
          | inl e₁ ↦ absurd (ground arith)
          | inr e₁ ↦
              let same : m'
                  ≡ record m { record_len = record_header_len + value (take 2 (drop 3 m.saved)) } =
                ground arith in
              rw (same) (
                record {
                  kept = f.kept;
                  inside = f.inside;
                  checked = f.checked;
                  bounded = f.bounded;
                  seven = f.seven;
                },
                refl,
              )
        ]
      ]

  after_header-Follows :
      (i : ℕ) (m : Mirror) (next : Mirror → Pass)
      → Follows m
      → (0 < i → 0 < hello_len m)
      → (i ≡ 0 → hello_len m ≡ 0)
      → ((m' : Mirror) → Follows m' → 0 < hello_len m' → FollowsPass (next m'))
      → FollowsPass (after_header cb suite_known i m next)
  unfolding after_header
  after_header-Follows i m next f later first rest = elim (Bool-cases (ltb size m.record_len)) [
    | inl e ↦ rw (e) f
    | inr e ↦ elim (Bool-cases ((i == 1) && (ltb 0 m.record_len && not (m.record_len == 6)))) [
      | inl e₁ ↦ rw (e, e₁) f
      | inr e₁ ↦ elim (Bool-cases ((i == 2) && ltb 512 m.record_len)) [
        | inl e₂ ↦
            let two : i ≡ 2 = ground arith in
            rw (e, e₁, e₂, two)
              (note-Follows 1 m true f (later (omega (arith, two))) (ground arith))
        | inr e₂ ↦ elim (Bool-cases ((i == 6) && ltb 0 m.record_len)) [
          | inl e₃ ↦
              let six : i ≡ 6 = ground arith in
              rw (e, e₁, e₂, e₃, six)
                (note-Follows 5 m m.buffered f (later (omega (arith, six))) (ground arith))
          | inr e₃ ↦ elim (Bool-cases ((m.record_len == 0) || ltb (length m.saved) m.record_len)) [
            | inl e₄ ↦ rw (e, e₁, e₂, e₃, e₄) f
            | inr e₄ ↦ elim (Outcome-cases (read_hello cb suite_known i m)) [
              | inl (m', e₅) ↦
                  let (f', o) =
                    consume-Follows i m m' f later (ground arith) (λ z. ground arith) (ground arith)
                      first e₅ in
                  rw (e, e₁, e₂, e₃, e₄, e₅) (rest (consume cb suite_known i m') f' o)
              | inr (inl e₅) ↦ rw (e, e₁, e₂, e₃, e₄, e₅) f
              | inr (inr e₅) ↦ rw (e, e₁, e₂, e₃, e₄, e₅) f
            ]
          ]
        ]
      ]
    ]
  ]

  known :
      (i : ℕ) (m : Mirror)
      → (0 < i → 0 < hello_len m)
      → not (get_or m.handshake_len i 0 == 0) ≡ true
      → 0 < hello_len m
  known zero m later e = ground arith
  known (suc i) m later e = later (omega arith)

  unnoted :
      (i : ℕ) (m : Mirror) → i ≡ 0 → not (get_or m.handshake_len i 0 == 0) ≡ false → hello_len m ≡ 0
  unnoted zero m z e = ground arith
  unnoted (suc i) m z e = absurd (omega arith)

  pass-Follows :
      (n i : ℕ) (m : Mirror)
      → i + n ≡ 7
      → Follows m
      → (0 < i → 0 < hello_len m)
      → FollowsPass (pass cb suite_known n i m)
  unfolding pass
  pass-Follows zero i m seven f later = (f, later (omega (arith, seven)))
  pass-Follows (suc n) i m seven f later =
      elim (Bool-cases (not (get_or m.handshake_len i 0 == 0))) [
        | inl e ↦
            rw (e) (pass-Follows n (i + 1) m (omega (arith, seven)) f (λ _. known i m later e))
        | inr e ↦ elim (Bool-cases ((i == 6) && (length m.saved == 0))) [
          | inl e₁ ↦ rw (e, e₁) (f, later (ground arith))
          | inr e₁ ↦ elim (Option-cases (read_header cb suite_known i m)) [
            | inl e₂ ↦ rw (e, e₁, e₂) f
            | inr (m', e₂) ↦
                let (f', same) = read_header-Follows i m m' f e₂ in
                rw (e, e₁, e₂)
                  (after_header-Follows i m' (pass cb suite_known n (i + 1)) f'
                    (λ h. omega (arith, same, later h)) (λ z. same ∙ unnoted i m z e)
                    (λ m'' f'' o. pass-Follows n (i + 1) m'' (omega (arith, seven)) f'' (λ _. o)))
          ]
        ]
      ]

pub Follows-append :
    (cb : Cryptobyte) (suite_known : ℕ → Bool) (received bytes : List ℕ) (m : Mirror)
    → Follows cb suite_known received m
    → Follows cb suite_known (received ++ bytes) (record m { saved = m.saved ++ bytes })
Follows-append cb suite_known received bytes m f = record {
  kept = λ h. ap (λ l. l ++ bytes) (f.kept h);
  inside = omega (arith, f.inside, length-append received bytes);
  checked = λ h.
      let (hello, noted, parsed, good) = f.checked h in
      let n = get_or m.handshake_len 0 0 in
      (
        hello,
        noted,
        subst (λ l. unmarshal_server_hello cb (drop record_header_len l) ≡ ok hello)
            (sym (take-append_long n received bytes f.inside)) parsed,
        good,
      );
  bounded = f.bounded;
  seven = f.seven;
}

pub receive-Follows :
    (cb : Cryptobyte) (suite_known : ℕ → Bool) (received bytes : List ℕ) (m : Mirror)
    → Follows cb suite_known received m
    → FollowsPass cb suite_known (received ++ bytes) (receive cb suite_known bytes m)
unfolding receive
receive-Follows cb suite_known received bytes m f =
    let m' : Mirror = record m { saved = m.saved ++ bytes } in
    let f' = Follows-append cb suite_known received bytes m f in
    elim (Bool-cases (ltb size (length m'.saved))) [
      | inl e ↦ rw (e) f'
      | inr e ↦ rw (e) (
          pass-Follows cb suite_known (received ++ bytes) 7 0 m' refl f'
            (λ h. absurd (omega arith)))
    ]

-- What the two goroutines saw so far is nothing.
pub Follows-start :
    (cb : Cryptobyte) (suite_known : ℕ → Bool) → Follows cb suite_known [] mirror_start
Follows-start cb suite_known = record {
  kept = λ h. refl;
  inside = omega arith;
  checked = λ h. absurd (omega arith);
  bounded = ground arith;
  seven = refl;
}
