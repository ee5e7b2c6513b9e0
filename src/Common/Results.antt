-- ===== src/Common/Results.antt =====
-- Results of fallible code. `fail` is the source's `false` or a non-nil error of no interest;
-- `stuck` has no counterpart in the source: a loop ran out of the fuel that the model gives it.
use mathlib.Core.Path.{◌≡◌, refl}
use mathlib.Core.Logic.{◌≢◌, ◌⊎◌, inl, inr}
use mathlib.Core.Option.{Option, none, some}
use mathlib.Core.Bool.{Bool, true, false}

pub data Outcome {ℓ} (A : Type ℓ) : Type ℓ where
  ok : A → Outcome A
  fail stuck : Outcome A

infixl 5 ◌>>=◌ ◌>>◌
abbrev pub ◌>>=◌ {ℓ κ} : {A : Type ℓ} {B : Type κ} → Outcome A → (A → Outcome B) → Outcome B
ok a >>= f = f a
fail >>= f = fail
stuck >>= f = stuck

abbrev pub ◌>>◌ {ℓ} : {B : Type ℓ} → Outcome (Unit {0}) → Outcome B → Outcome B
m >> k = m >>= λ _. k

-- A failed read, `if !s.Read…(…) { return false }`.
abbrev pub lift {ℓ} : {A : Type ℓ} → Option A → Outcome A
lift none = fail
lift (some a) = ok a

-- `if !b { return false }`
abbrev pub guard : Bool → Outcome (Unit {0})
guard true = ok tt
guard false = fail

-- The chain of a builder's calls: the first error is kept.
abbrev pub bind? {ℓ κ} : {A : Type ℓ} {B : Type κ} → Option A → (A → Option B) → Option B
bind? none f = none
bind? (some a) f = f a

pub bind?-eq-some {ℓ κ} :
    {A : Type ℓ} {B : Type κ} (m : Option A) (f : A → Option B) {b : B}
    → bind? m f ≡ some b
    → (a : A) × (m ≡ some a) × (f a ≡ some b)
bind?-eq-some none f h = cc
bind?-eq-some (some a) f h = (a, refl, h)

pub >>=-ne-stuck {ℓ κ} :
    {A : Type ℓ} {B : Type κ} (m : Outcome A) (f : A → Outcome B)
    → m ≢ stuck
    → ((a : A) → m ≡ ok a → f a ≢ stuck)
    → (m >>= f) ≢ stuck
>>=-ne-stuck (ok a) f h k = k a refl
>>=-ne-stuck fail f h k = λ e. cc
>>=-ne-stuck stuck f h k = absurd (h refl)

pub Outcome-cases {ℓ} :
    {A : Type ℓ} (o : Outcome A) → ((a : A) × (o ≡ ok a)) ⊎ ((o ≡ fail) ⊎ (o ≡ stuck))
Outcome-cases (ok a) = inl (a, refl)
Outcome-cases fail = inr (inl refl)
Outcome-cases stuck = inr (inr refl)
