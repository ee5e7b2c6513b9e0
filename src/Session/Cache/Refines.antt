-- ===== src/Session/Cache/Refines.antt =====
-- common.go: `lruSessionCache` against a list of the sessions that were used last.
use electricity.Common.{
  ℕ, suc, ◌-◌, ◌≡◌, inl, inr, refl, ap, sym, ◌∙◌, ltb, true, false, Option, none, some, List, ◌∷◌,
  length, take, arith, Bool-cases, Option-cases, subst, take_all,
}
use electricity.Session.Cache.{
  Element, SessionCache, element, remove, write_to_front, back, set_key, put_present, put_full,
  put_new, put, get,
}
use electricity.Session.Cache.Recency.{
  recent, id_of, IsConsistent, lookup, without, points, id_of-Points,
}
use electricity.Session.Cache.Moves.{
  on_found, put_recent, get_recent, length-recent, absent, lookup-absent, without-absent, Becomes,
  use_again, removed-Becomes, new-Becomes, full-Becomes,
}

module _ {ℓ κ} {K : Type ℓ} {V : Type κ} (dec : Discrete K) where
  put_eq_present :
      (k : K) (s : Option V) (c : SessionCache K V) (i : ℕ) (e : Element K V)
      → c.m k ≡ some i
      → element i c.q ≡ some e
      → put dec k s c ≡ some (put_present dec k s e c)
  unfolding put
  put_eq_present k s c i e at_i at_e = ground (arith, at_i, at_e)

  put_eq_new :
      (k : K) (s : Option V) (c : SessionCache K V)
      → c.m k ≡ none
      → ltb (length c.q) c.capacity ≡ true
      → put dec k s c ≡ some (put_new dec k s c)
  unfolding put
  put_eq_new k s c at_i room = ground (arith, at_i, room)

  put_eq_full :
      (k : K) (s : Option V) (c : SessionCache K V) (e : Element K V)
      → c.m k ≡ none
      → ltb (length c.q) c.capacity ≡ false
      → back c.q ≡ some e
      → put dec k s c ≡ some (put_full dec k s e c)
  unfolding put
  put_eq_full k s c e at_i room last = ground (arith, at_i, room, last)

  -- `Put` of a key that is there.
  put-present :
      (k : K) (s : Option V) (c : SessionCache K V) (i : ℕ)
      → IsConsistent dec c
      → c.m k ≡ some i
      → (c' : SessionCache K V) × (put dec k s c ≡ some c')
        × Becomes dec c (put_recent dec c.capacity k s (recent c.q)) c'
  put-present k none c i h at_i =
      let points_to = sym (h.index k) ∙ at_i in
      elim (id_of-Points dec k i c.q h.ids points_to) [
        | points e at_e is_k same found rest size ↦ (
          record c { q = remove i c.q; m = set_key dec k none c.m },
          put_eq_present k none c i e at_i at_e
              ∙ ap (λ (n : ℕ). some (record c { q = remove n c.q; m = set_key dec k none c.m }))
                  same,
          subst
              (λ (l : List (K × Option V)).
                Becomes dec c l (record c { q = remove i c.q; m = set_key dec k none c.m }))
              (sym (
                ap
                  (on_found (take c.capacity ((k, none) ∷ recent c.q))
                    (λ s. without dec k (recent c.q)))
                  found))
              (removed-Becomes dec k i c h points_to (points e at_e is_k same found rest size)),
        )
      ]
  put-present k (some v) c i h at_i =
      let points_to = sym (h.index k) ∙ at_i in
      elim (id_of-Points dec k i c.q h.ids points_to) [
        | points e at_e is_k same found rest size ↦
            let made =
              use_again dec k i (some v) c h points_to (points e at_e is_k same found rest size) in
            let whole : take c.capacity ((k, some v) ∷ without dec k (recent c.q))
                ≡ (k, some v) ∷ without dec k (recent c.q) =
              take_all c.capacity ((k, some v) ∷ without dec k (recent c.q))
                (omega (arith, ap length rest, length-recent dec (remove i c.q), size, h.fits)) in
            (
              record c { q = record { id = i; session_key = k; state = some v } ∷ remove i c.q },
              put_eq_present k (some v) c i e at_i at_e ∙ (λ t. some (record c {
                q =
                    record { id = same t; session_key = is_k t; state = some v }
                    ∷ remove (same t) c.q;
              })),
              subst
                  (λ (l : List (K × Option V)). Becomes dec c l (record c {
                    q = record { id = i; session_key = k; state = some v } ∷ remove i c.q;
                  }))
                  (sym whole) made,
            )
      ]

  -- On a list without the key nothing is taken out.
  put_recent-absent :
      (capacity : ℕ) (k : K) (s : Option V) (q : List (Element K V))
      → id_of dec k q ≡ none
      → put_recent dec capacity k s (recent q) ≡ take capacity ((k, s) ∷ recent q)
  put_recent-absent capacity k none q h =
      ap (on_found (take capacity ((k, none) ∷ recent q)) (λ s. without dec k (recent q)))
        (lookup-absent dec k q (absent dec k q h))
  put_recent-absent capacity k (some v) q h =
      ap (λ l. take capacity ((k, some v) ∷ l)) (without-absent dec k q (absent dec k q h))

  -- `Put` of another key.
  put-absent :
      (k : K) (s : Option V) (c : SessionCache K V)
      → IsConsistent dec c
      → c.m k ≡ none
      → (c' : SessionCache K V) × (put dec k s c ≡ some c')
        × Becomes dec c (put_recent dec c.capacity k s (recent c.q)) c'
  put-absent k s c h at_none =
      let none_there = sym (h.index k) ∙ at_none in
      let spec = put_recent-absent c.capacity k s c.q none_there in
      elim (Bool-cases (ltb (length c.q) c.capacity)) [
        | inl room ↦
            let whole : take c.capacity ((k, s) ∷ recent c.q) ≡ (k, s) ∷ recent c.q =
              take_all c.capacity ((k, s) ∷ recent c.q)
                (ground (arith, length-recent dec c.q, room)) in
            (
              put_new dec k s c,
              put_eq_new k s c at_none room,
              subst (λ (l : List (K × Option V)). Becomes dec c l (put_new dec k s c))
                  (sym (spec ∙ whole)) (new-Becomes dec k s c h none_there (ground (arith, room))),
            )
        | inr full ↦
            let n = c.capacity - 1 in
            let top : c.capacity ≡ suc n = omega (arith, h.some_room) in
            let (e, last, becomes) =
              full-Becomes dec k s c n h none_there (ground (arith, full, h.fits, h.some_room)) in
            (
              put_full dec k s e c,
              put_eq_full k s c e at_none full last,
              subst (λ (l : List (K × Option V)). Becomes dec c l (put_full dec k s e c))
                  (sym (spec ∙ ap (λ m. take m ((k, s) ∷ recent c.q)) top)) becomes,
            )
      ]

  -- `Put` never follows a nil pointer, keeps the map and the queue consistent, and does on the list of
  -- the sessions that were used last what `put_recent` says.
  pub put-Becomes :
      (k : K) (s : Option V) (c : SessionCache K V)
      → IsConsistent dec c
      → (c' : SessionCache K V) × (put dec k s c ≡ some c')
        × Becomes dec c (put_recent dec c.capacity k s (recent c.q)) c'
  put-Becomes k s c h = elim (Option-cases (c.m k)) [
    | inl e ↦ put-absent k s c h e
    | inr (i, e) ↦ put-present k s c i h e
  ]

  get_eq :
      (k : K) (c : SessionCache K V) (i : ℕ) (e : Element K V)
      → c.m k ≡ some i
      → element i c.q ≡ some e
      → get dec k c ≡ some (record c { q = write_to_front e c.q }, some e.state)
  unfolding get
  get_eq k c i e at_i at_e = ground (arith, at_i, at_e)

  get_missed : (k : K) (c : SessionCache K V) → c.m k ≡ none → get dec k c ≡ some (c, none)
  unfolding get
  get_missed k c at_none = ground (arith, at_none)

  -- `Get` finds what the list holds of the key, and moves it to the front.
  pub get-Becomes :
      (k : K) (c : SessionCache K V)
      → IsConsistent dec c
      → (c' : SessionCache K V) × (get dec k c ≡ some (c', lookup dec k (recent c.q)))
        × Becomes dec c (get_recent dec k (recent c.q)) c'
  get-Becomes k c h = elim (Option-cases (c.m k)) [
    | inl e ↦
        let none_there = absent dec k c.q (sym (h.index k) ∙ e) in
        let miss = lookup-absent dec k c.q none_there in
        (
          c,
          get_missed k c e ∙ ap (λ (o : Option (Option V)). some (c, o)) (sym miss),
          record {
            consistent = h;
            view = sym (ap (on_found (recent c.q) (λ s. (k, s) ∷ without dec k (recent c.q))) miss);
            same_capacity = refl;
          },
        )
    | inr (i, e) ↦
        let points_to = sym (h.index k) ∙ e in
        elim (id_of-Points dec k i c.q h.ids points_to) [
          | points f at_f is_k same found rest size ↦
              let made =
                use_again dec k i f.state c h points_to (points f at_f is_k same found rest size) in
              (
                record c { q = record { id = i; session_key = k; state = f.state } ∷ remove i c.q },
                get_eq k c i f e at_f ∙ (λ t. some (
                  record c {
                    q =
                        record { id = same t; session_key = is_k t; state = f.state }
                        ∷ remove (same t) c.q;
                  },
                  sym found t,
                )),
                subst
                    (λ (l : List (K × Option V)). Becomes dec c l (record c {
                      q = record { id = i; session_key = k; state = f.state } ∷ remove i c.q;
                    }))
                    (sym
                      (ap (on_found (recent c.q) (λ s. (k, s) ∷ without dec k (recent c.q))) found))
                    made,
              )
        ]
  ]
