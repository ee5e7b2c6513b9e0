-- ===== src/Session/Cache/Recency.antt =====
-- common.go: `lruSessionCache` keeps the sessions that were used last, in that order.
use electricity.Common.{
  ℕ, zero, suc, ◌≤◌, ◌<◌, ◌≡◌, ◌≢◌, inl, inr, refl, ap, sym, ◌∙◌, ◌==◌, true, false, Option, none,
  some, List, [], ◌∷◌, length, take, All, arith, Bool-cases, subst,
}
use mathlib.Core.Logic.{ite, if_pos, if_neg}
use electricity.Session.Cache.{Element, SessionCache, element, remove, back}

module _ {ℓ κ} {K : Type ℓ} {V : Type κ} where
  -- The sessions in the order of their last use.
  abbrev pub recent : List (Element K V) → List (K × Option V)
  recent [] = []
  recent (e ∷ q) = (e.session_key, e.state) ∷ recent q

  abbrev pub DistinctIds : List (Element K V) → Type 0
  DistinctIds [] = Unit {0}
  DistinctIds (e ∷ q) = All (λ f. (f.id == e.id) ≡ false) q × DistinctIds q

  abbrev pub DistinctKeys : List (Element K V) → Type ℓ
  DistinctKeys [] = Unit
  DistinctKeys (e ∷ q) = All (λ f. f.session_key ≢ e.session_key) q × DistinctKeys q

  pub All-remove {μ} :
      (P : Element K V → Type μ) (i : ℕ) (q : List (Element K V)) → All P q → All P (remove i q)
  unfolding remove
  All-remove P i [] h = h
  All-remove P i (e ∷ q) (h, hs) = elim (Bool-cases (e.id == i)) [
    | inl same ↦ rw (same) hs
    | inr other ↦ rw (other) (h, All-remove P i q hs)
  ]

  pub DistinctIds-remove :
      (i : ℕ) (q : List (Element K V)) → DistinctIds q → DistinctIds (remove i q)
  unfolding remove
  DistinctIds-remove i [] h = h
  DistinctIds-remove i (e ∷ q) (h, hs) = elim (Bool-cases (e.id == i)) [
    | inl same ↦ rw (same) hs
    | inr other ↦
        rw (other) (All-remove (λ f. (f.id == e.id) ≡ false) i q h, DistinctIds-remove i q hs)
  ]

  -- A removed element is gone.
  pub removed :
      (i : ℕ) (q : List (Element K V)) → DistinctIds q → All (λ f. (f.id == i) ≡ false) (remove i q)
  unfolding remove
  removed i [] h = h
  removed i (e ∷ q) (h, hs) = elim (Bool-cases (e.id == i)) [
    | inl same ↦
        let here : e.id ≡ i = ground (arith, same) in
        rw (same) (subst (λ n. All (λ (f : Element K V). (f.id == n) ≡ false) q) here h)
    | inr other ↦ rw (other) (other, removed i q hs)
  ]

  -- An element that is found behind another has another number.
  other_id :
      (i : ℕ) (e : Element K V) (q : List (Element K V)) (f : Element K V)
      → All (λ g. (g.id == e.id) ≡ false) q
      → element i q ≡ some f
      → f.id ≡ i
      → (e.id == i) ≡ false
  unfolding element
  other_id i e [] f d h same = cc
  other_id i e (g ∷ q) f (d, ds) h same = elim (Bool-cases (g.id == i)) [
    | inl here ↦ ground (arith, d, here)
    | inr there ↦ other_id i e q f ds (ground (arith, h, there)) same
  ]

module _ {ℓ κ} {K : Type ℓ} {V : Type κ} (dec : Discrete K) where
  abbrev pub id_of : K → List (Element K V) → Option ℕ
  id_of k [] = none
  id_of k (e ∷ q) = ite (dec e.session_key k) (some e.id) (id_of k q)

  -- The map and the queue agree, and there is room for the queue.
  pub record IsConsistent (c : SessionCache K V) : Type (ℓ ⊔ κ) where
    pub index : (k : K) → c.m k ≡ id_of k c.q
    pub ids : DistinctIds c.q
    pub keys : DistinctKeys c.q
    pub used : All (λ e. e.id < c.next_id) c.q
    pub fits : length c.q ≤ c.capacity
    pub some_room : 0 < c.capacity

  -- Association lists, most recent first.
  abbrev pub lookup : K → List (K × Option V) → Option (Option V)
  lookup k [] = none
  lookup k ((j, v) ∷ l) = ite (dec j k) (some v) (lookup k l)

  abbrev pub without : K → List (K × Option V) → List (K × Option V)
  without k [] = []
  without k ((j, v) ∷ l) = ite (dec j k) l ((j, v) ∷ without k l)

  -- The element that the map points to.
  pub data Points (k : K) (i : ℕ) (q : List (Element K V)) : Type (ℓ ⊔ κ) where
    points :
        (e : Element K V)
        → element i q ≡ some e
        → e.session_key ≡ k
        → e.id ≡ i
        → lookup k (recent q) ≡ some e.state
        → recent (remove i q) ≡ without k (recent q)
        → suc (length (remove i q)) ≡ length q
        → Points k i q

  pub id_of-Points :
      (k : K) (i : ℕ) (q : List (Element K V)) → DistinctIds q → id_of k q ≡ some i → Points k i q
  unfolding element remove
  id_of-Points k i [] d h = cc
  id_of-Points k i (e ∷ q) (d, ds) h = elim (dec e.session_key k) [
    | yes p ↦
        let same : e.id ≡ i = ground arith in
        let here : (e.id == i) ≡ true = ground (arith, same) in
        points e (rw (here) refl) p same (rw (if_pos _ p) refl) (rw (here, if_pos _ p) refl)
          (rw (here) refl)
    | no p ↦
        let later : id_of k q ≡ some i =
          rw (← if_neg (dec e.session_key k) p (some e.id) (id_of k q)) h in
        elim (id_of-Points k i q ds later) [
          | points f at_f is_k same found rest size ↦
              let other : (e.id == i) ≡ false = other_id i e q f d at_f same in
              points f (rw (other) at_f) is_k same (rw (if_neg _ p) found)
                (rw (other, if_neg _ p) (ap (◌∷◌ (e.session_key, e.state)) rest))
                (rw (other) (ap suc size))
        ]
  ]

  id_of-none :
      (k j : K) (q : List (Element K V)) → All (λ f. f.session_key ≢ k) q → k ≡ j → id_of j q ≡ none
  id_of-none k j [] h same = refl
  id_of-none k j (e ∷ q) (h, hs) same = elim (dec e.session_key j) [
    | yes p ↦ absurd (h (p ∙ sym same))
    | no p ↦ rw (if_neg _ p) (id_of-none k j q hs same)
  ]

  pub id_of-remove :
      (k j : K) (i : ℕ) (q : List (Element K V))
      → DistinctIds q
      → DistinctKeys q
      → id_of k q ≡ some i
      → id_of j (remove i q) ≡ ite (dec k j) none (id_of j q)
  unfolding remove
  id_of-remove k j i [] d ks h = cc
  id_of-remove k j i (e ∷ q) (d, ds) (u, us) h = elim (dec e.session_key k) [
    | yes p ↦
        let same : e.id ≡ i = ground arith in
        let here : (e.id == i) ≡ true = ground (arith, same) in
        rw (here) (elim (dec k j) [
          | yes r ↦ rw (if_pos _ r) (id_of-none e.session_key j q u (p ∙ r))
          | no r ↦ rw (if_neg _ r, if_neg _ (λ (x : e.session_key ≡ j). r (sym p ∙ x))) refl
        ])
    | no p ↦
        let later : id_of k q ≡ some i = ground arith in
        let rest = id_of-remove k j i q ds us later in
        elim (id_of-Points k i q ds later) [
          | points f at_f is_k same found_ rest_ size ↦
              let other : (e.id == i) ≡ false = other_id i e q f d at_f same in
              rw (other) (elim (dec e.session_key j) [
                | yes r ↦
                    if_pos (dec e.session_key j) r (some e.id) (id_of j (remove i q))
                    ∙ sym (if_pos (dec e.session_key j) r (some e.id) (id_of j q))
                    ∙ sym (if_neg (dec k j) (λ (x : k ≡ j). p (r ∙ sym x)) none (id_of j (e ∷ q)))
                | no r ↦
                    if_neg (dec e.session_key j) r (some e.id) (id_of j (remove i q))
                    ∙ rest
                    ∙ ap (λ (o : Option ℕ). ite (dec k j) none o)
                        (sym (if_neg (dec e.session_key j) r (some e.id) (id_of j q)))
              ])
        ]
  ]

  pub DistinctKeys-remove :
      (i : ℕ) (q : List (Element K V)) → DistinctKeys q → DistinctKeys (remove i q)
  unfolding remove
  DistinctKeys-remove i [] h = h
  DistinctKeys-remove i (e ∷ q) (h, hs) = elim (Bool-cases (e.id == i)) [
    | inl same ↦ rw (same) hs
    | inr other ↦
        rw (other)
          (All-remove (λ f. f.session_key ≢ e.session_key) i q h, DistinctKeys-remove i q hs)
  ]

  -- No element is left with a key that was removed.
  pub gone :
      (k : K) (i : ℕ) (q : List (Element K V))
      → DistinctIds q
      → DistinctKeys q
      → id_of k q ≡ some i
      → All (λ f. f.session_key ≢ k) (remove i q)
  unfolding remove
  gone k i [] d ks h = cc
  gone k i (e ∷ q) (d, ds) (u, us) h = elim (dec e.session_key k) [
    | yes p ↦
        let same : e.id ≡ i = ground arith in
        let here : (e.id == i) ≡ true = ground (arith, same) in
        rw (here) (subst (λ n. All (λ (f : Element K V). f.session_key ≢ n) q) p u)
    | no p ↦
        let later : id_of k q ≡ some i = ground arith in
        elim (id_of-Points k i q ds later) [
          | points f at_f is_k same found_ rest_ size ↦
              let other : (e.id == i) ≡ false = other_id i e q f d at_f same in
              rw (other) (p, gone k i q ds us later)
        ]
  ]

  key_behind :
      (e l : Element K V) (q : List (Element K V))
      → All (λ f. f.session_key ≢ e.session_key) q
      → back q ≡ some l
      → e.session_key ≡ l.session_key
      → ⊥
  unfolding back
  key_behind e l [] u h same = cc
  key_behind e l (f ∷ []) (u, us) h same =
      let is_f : f ≡ l = ground (arith, h) in
      u (ap (λ (g : Element K V). g.session_key) is_f ∙ sym same)
  key_behind e l (f ∷ g ∷ q) (u, us) h same = key_behind e l (g ∷ q) us h same

  -- The back of the queue is what a full queue loses.
  pub back-Points :
      (n : ℕ) (q : List (Element K V))
      → DistinctIds q
      → DistinctKeys q
      → length q ≡ suc n
      → (e : Element K V) × (back q ≡ some e)
        × (id_of e.session_key q ≡ some e.id)
        × (recent (remove e.id q) ≡ take n (recent q))
  unfolding back remove
  back-Points n [] d ks h = absurd (omega arith)
  back-Points zero (e ∷ []) d ks h =
      let here : (e.id == e.id) ≡ true = ground arith in
      (e, refl, if_pos (dec e.session_key e.session_key) refl (some e.id) none, rw (here) refl)
  back-Points zero (e ∷ f ∷ q) d ks h = absurd (omega arith)
  back-Points (suc n) (e ∷ []) d ks h = absurd (omega arith)
  back-Points (suc n) (e ∷ f ∷ q) (d, ds) (u, us) h =
      let (l, last, points_to, rest) = back-Points n (f ∷ q) ds us (omega (arith, h)) in
      elim (id_of-Points l.session_key l.id (f ∷ q) ds points_to) [
        | points g at_g is_k same found_ rest_ size ↦
            let other : (e.id == l.id) ≡ false = other_id l.id e (f ∷ q) g d at_g same in
            elim (dec e.session_key l.session_key) [
              | yes p ↦ absurd (key_behind e l (f ∷ q) u last p)
              | no p ↦ (
                l,
                last,
                if_neg (dec e.session_key l.session_key) p (some e.id) (id_of l.session_key (f ∷ q))
                    ∙ points_to,
                rw (other) (ap (◌∷◌ (e.session_key, e.state)) rest),
              )
            ]
      ]
