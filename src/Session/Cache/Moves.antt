-- ===== src/Session/Cache/Moves.antt =====
-- common.go: the changes of `lruSessionCache` on a list of the sessions that were used last.
use electricity.Common.{
  ℕ, suc, ◌+◌, ◌<◌, ◌≡◌, ◌≢◌, inl, inr, refl, ap, sym, ◌∙◌, ◌==◌, false, Option, none, some, List,
  [], ◌∷◌, length, take, All, arith, Bool-cases, subst,
}
use mathlib.Core.Logic.{ite, if_pos, if_neg}
use electricity.Session.Cache.{
  Element, SessionCache, element, remove, back, set_key, put_full, put_new,
}
use electricity.Session.Cache.Recency.{
  recent, All-remove, DistinctIds-remove, removed, id_of, IsConsistent, lookup, without, Points,
  points, id_of-Points, id_of-remove, DistinctKeys-remove, gone, back-Points,
}

module _ {ℓ κ} {K : Type ℓ} {V : Type κ} where
  -- What follows from a lookup.
  abbrev pub on_found :
      List (K × Option V)
      → (Option V → List (K × Option V))
      → Option (Option V)
      → List (K × Option V)
  on_found l f none = l
  on_found l f (some s) = f s

module _ {ℓ κ} {K : Type ℓ} {V : Type κ} (dec : Discrete K) where
  -- Put and Get on the list: a session that is put or found comes to the front, and only so many are
  -- kept. Nil removes a key that is there, and is itself stored for a key that is not.
  abbrev pub put_recent : ℕ → K → Option V → List (K × Option V) → List (K × Option V)
  put_recent capacity k (some v) l = take capacity ((k, some v) ∷ without dec k l)
  put_recent capacity k none l =
      on_found (take capacity ((k, none) ∷ l)) (λ s. without dec k l) (lookup dec k l)

  abbrev pub get_recent : K → List (K × Option V) → List (K × Option V)
  get_recent k l = on_found l (λ s. (k, s) ∷ without dec k l) (lookup dec k l)

  pub length-recent : (q : List (Element K V)) → length (recent q) ≡ length q
  length-recent [] = refl
  length-recent (e ∷ q) = ap suc (length-recent q)

  pub absent :
      (k : K) (q : List (Element K V)) → id_of dec k q ≡ none → All (λ f. f.session_key ≢ k) q
  absent k [] h = tt
  absent k (e ∷ q) h = elim (dec e.session_key k) [
    | yes p ↦
        let here : id_of dec k (e ∷ q) ≡ some e.id =
          if_pos (dec e.session_key k) p (some e.id) (id_of dec k q) in
        cc
    | no p ↦ (p, absent k q (sym (if_neg (dec e.session_key k) p (some e.id) (id_of dec k q)) ∙ h))
  ]

  pub lookup-absent :
      (k : K) (q : List (Element K V))
      → All (λ f. f.session_key ≢ k) q
      → lookup dec k (recent q) ≡ none
  lookup-absent k [] h = refl
  lookup-absent k (e ∷ q) (h, hs) = rw (if_neg _ h) (lookup-absent k q hs)

  pub without-absent :
      (k : K) (q : List (Element K V))
      → All (λ f. f.session_key ≢ k) q
      → without dec k (recent q) ≡ recent q
  without-absent k [] h = refl
  without-absent k (e ∷ q) (h, hs) =
      rw (if_neg _ h) (ap (◌∷◌ (e.session_key, e.state)) (without-absent k q hs))

  unused :
      (n : ℕ) (q : List (Element K V))
      → All (λ e. e.id < n) q
      → All (λ e. (e.id == n) ≡ false) q × All (λ e. e.id < n + 1) q
  unused n [] h = (tt, tt)
  unused n (e ∷ q) (h, hs) = let (a, b) = unused n q hs in ((ground arith, a), (omega arith, b))

  -- The element with the number `i` moves to the front, under the key `k` with the state `s`.
  moved-IsConsistent :
      (k j : K) (i : ℕ) (s : Option V) (c : SessionCache K V) (m : K → Option ℕ)
      → IsConsistent dec c
      → id_of dec j c.q ≡ some i
      → suc (length (remove i c.q)) ≡ length c.q
      → i < c.next_id
      → All (λ f. f.session_key ≢ k) (remove i c.q)
      → ((x : K) → m x ≡ ite (dec k x) (some i) (ite (dec j x) none (id_of dec x c.q)))
      → IsConsistent dec
          (record c { m = m; q = record { id = i; session_key = k; state = s } ∷ remove i c.q })
  moved-IsConsistent k j i s c m h at_i size small new index = record {
    index = λ x.
        index x
        ∙ ap (λ (o : Option ℕ). ite (dec k x) (some i) o)
            (sym (id_of-remove dec j x i c.q h.ids h.keys at_i));
    ids = (removed i c.q h.ids, DistinctIds-remove i c.q h.ids);
    keys = (new, DistinctKeys-remove dec i c.q h.keys);
    used = (small, All-remove (λ e. e.id < c.next_id) i c.q h.used);
    fits = omega (arith, size, h.fits);
    some_room = h.some_room;
  }

  element-All {μ} :
      (P : Element K V → Type μ) (i : ℕ) (q : List (Element K V)) (e : Element K V)
      → All P q
      → element i q ≡ some e
      → P e
  unfolding element
  element-All P i [] e h at_e = cc
  element-All P i (f ∷ q) e (h, hs) at_e = elim (Bool-cases (f.id == i)) [
    | inl here ↦ let same : f ≡ e = ground (arith, at_e, here) in subst P same h
    | inr there ↦ element-All P i q e hs (ground (arith, at_e, there))
  ]

  -- A method's effect: it returns, in a consistent state that stands for the list.
  pub record Becomes (c : SessionCache K V) (l : List (K × Option V)) (c' : SessionCache K V)
      : Type (ℓ ⊔ κ) where
    pub consistent : IsConsistent dec c'
    pub view : recent c'.q ≡ l
    pub same_capacity : c'.capacity ≡ c.capacity

  pub use_again :
      (k : K) (i : ℕ) (s : Option V) (c : SessionCache K V)
      → IsConsistent dec c
      → id_of dec k c.q ≡ some i
      → Points dec k i c.q
      → Becomes c
          ((k, s) ∷ without dec k (recent c.q))
          (record c { q = record { id = i; session_key = k; state = s } ∷ remove i c.q })
  use_again k i s c h at_i (points e at_e is_k same found rest size) = record {
    consistent =
        moved-IsConsistent k k i s c c.m h at_i size
          (subst (λ n. n < c.next_id) same
            (element-All (λ f. f.id < c.next_id) i c.q e h.used at_e))
          (gone dec k i c.q h.ids h.keys at_i)
          (λ x. elim (dec k x) [
            | yes r ↦
                h.index x
                ∙ subst (λ y. id_of dec y c.q ≡ some i) r at_i
                ∙ sym (if_pos (dec k x) r (some i) (ite (dec k x) none (id_of dec x c.q)))
            | no r ↦
                h.index x
                ∙ sym (if_neg (dec k x) r none (id_of dec x c.q))
                ∙ sym (if_neg (dec k x) r (some i) (ite (dec k x) none (id_of dec x c.q)))
          ]);
    view = ap (◌∷◌ (k, s)) rest;
    same_capacity = refl;
  }

  pub removed-Becomes :
      (k : K) (i : ℕ) (c : SessionCache K V)
      → IsConsistent dec c
      → id_of dec k c.q ≡ some i
      → Points dec k i c.q
      → Becomes c
          (without dec k (recent c.q))
          (record c { q = remove i c.q; m = set_key dec k none c.m })
  removed-Becomes k i c h at_i (points e at_e is_k same found rest size) = record {
    consistent = record {
      index = λ x.
          ap (λ (o : Option ℕ). ite (dec k x) none o) (h.index x)
          ∙ sym (id_of-remove dec k x i c.q h.ids h.keys at_i);
      ids = DistinctIds-remove i c.q h.ids;
      keys = DistinctKeys-remove dec i c.q h.keys;
      used = All-remove (λ f. f.id < c.next_id) i c.q h.used;
      fits = omega (arith, size, h.fits);
      some_room = h.some_room;
    };
    view = rest;
    same_capacity = refl;
  }

  pub new-Becomes :
      (k : K) (s : Option V) (c : SessionCache K V)
      → IsConsistent dec c
      → id_of dec k c.q ≡ none
      → length c.q < c.capacity
      → Becomes c ((k, s) ∷ recent c.q) (put_new dec k s c)
  new-Becomes k s c h none_there room =
      let (fresh, used) = unused c.next_id c.q h.used in
      record {
        consistent = record {
          index = λ x. ap (λ (o : Option ℕ). ite (dec k x) (some c.next_id) o) (h.index x);
          ids = (fresh, h.ids);
          keys = (absent k c.q none_there, h.keys);
          used = (omega arith, used);
          fits = omega (arith, room);
          some_room = h.some_room;
        };
        view = refl;
        same_capacity = refl;
      }

  pub full-Becomes :
      (k : K) (s : Option V) (c : SessionCache K V) (n : ℕ)
      → IsConsistent dec c
      → id_of dec k c.q ≡ none
      → length c.q ≡ suc n
      → (e : Element K V) × (back c.q ≡ some e)
        × Becomes c ((k, s) ∷ take n (recent c.q)) (put_full dec k s e c)
  full-Becomes k s c n h none_there long =
      let (e, last, at_e, rest) = back-Points dec n c.q h.ids h.keys long in
      elim (id_of-Points dec e.session_key e.id c.q h.ids at_e) [
        | points f at_f is_k same found rest' size ↦ (
          e,
          last,
          record {
            consistent =
                moved-IsConsistent k e.session_key e.id s c
                  (set_key dec k (some e.id) (set_key dec e.session_key none c.m)) h at_e size
                  (subst (λ i. i < c.next_id) same
                    (element-All (λ g. g.id < c.next_id) e.id c.q f h.used at_f))
                  (All-remove (λ g. g.session_key ≢ k) e.id c.q (absent k c.q none_there))
                  (λ x.
                    ap
                      (λ (o : Option ℕ).
                        ite (dec k x) (some e.id) (ite (dec e.session_key x) none o))
                      (h.index x));
            view = ap (◌∷◌ (k, s)) rest;
            same_capacity = refl;
          },
        )
      ]
