-- ===== src/Session/Cache.antt =====
-- common.go: `lruSessionCache`. The map holds pointers to the queue's elements, which are numbers here;
-- a session state that is nil is `none`. The methods hold the lock throughout.
use electricity.Common.{
  ℕ, zero, suc, ◌+◌, ◌==◌, ltb, Bool, true, false, Option, none, some, List, [], ◌∷◌, length,
  if◌then◌else◌, bind?,
}
use mathlib.Core.Logic.{ite}
pub mod Recency
pub mod Moves
pub mod Refines

pub record Element {ℓ κ} (K : Type ℓ) (V : Type κ) : Type (ℓ ⊔ κ) where
  pub id : ℕ
  pub session_key : K
  pub state : Option V

-- `m` is the map, `q` the queue with its front first, and `next_id` a pointer that is not in use.
pub record SessionCache {ℓ κ} (K : Type ℓ) (V : Type κ) : Type (ℓ ⊔ κ) where
  pub m : K → Option ℕ
  pub q : List (Element K V)
  pub capacity : ℕ
  pub next_id : ℕ

module _ {ℓ κ} {K : Type ℓ} {V : Type κ} where
  unfoldable pub new_lru_client_session_cache : ℕ → SessionCache K V
  new_lru_client_session_cache capacity = record {
    m = λ k. none;
    q = [];
    capacity = if ltb capacity 1 then 64 else capacity;
    next_id = 0;
  }

  -- The element that a pointer is to.
  unfoldable pub element : ℕ → List (Element K V) → Option (Element K V)
  element i [] = none
  element i (e ∷ q) = if e.id == i then some e else element i q

  -- `q.Remove(elem)`
  unfoldable pub remove : ℕ → List (Element K V) → List (Element K V)
  remove i [] = []
  remove i (e ∷ q) = let rest = remove i q in if e.id == i then q else e ∷ rest

  -- `entry.sessionKey = …; entry.state = …; q.MoveToFront(elem)`
  abbrev pub write_to_front : Element K V → List (Element K V) → List (Element K V)
  write_to_front e q = e ∷ remove e.id q

  -- `q.Back()`
  unfoldable pub back : List (Element K V) → Option (Element K V)
  back [] = none
  back (e ∷ []) = some e
  back (e ∷ f ∷ q) = back (f ∷ q)

module _ {ℓ} {K : Type ℓ} (dec : Discrete K) where
  -- `m[k] = p`, or `delete(m, k)`.
  abbrev pub set_key : K → Option ℕ → (K → Option ℕ) → K → Option ℕ
  set_key k p m j = ite (dec k j) p (m j)

module _ {ℓ κ} {K : Type ℓ} {V : Type κ} (dec : Discrete K) where
  -- `Put` of a key that is in the map, at the element `e`.
  abbrev pub put_present : K → Option V → Element K V → SessionCache K V → SessionCache K V
  put_present k none e c = record c { q = remove e.id c.q; m = set_key dec k none c.m }
  put_present k (some v) e c = record c { q = write_to_front (record e { state = some v }) c.q }

  -- `Put` of another key, in a full cache at the last element `e`.
  abbrev pub put_full : K → Option V → Element K V → SessionCache K V → SessionCache K V
  put_full k cs e c = record c {
    m = set_key dec k (some e.id) (set_key dec e.session_key none c.m);
    q = write_to_front (record e { session_key = k; state = cs }) c.q;
  }

  abbrev pub put_new : K → Option V → SessionCache K V → SessionCache K V
  put_new k cs c = record c {
    q = record { id = c.next_id; session_key = k; state = cs } ∷ c.q;
    m = set_key dec k (some c.next_id) c.m;
    next_id = c.next_id + 1;
  }

  -- `none` is a nil pointer that is followed.
  unfoldable pub put : K → Option V → SessionCache K V → Option (SessionCache K V)
  unfolding element remove back
  put k cs c = elim (c.m k) [
    | some i ↦ bind? (element i c.q) (λ e. some (put_present k cs e c))
    | none ↦
        if ltb (length c.q) c.capacity
        then some (put_new k cs c)
        else bind? (back c.q) (λ e. some (put_full k cs e c))
  ]

  -- The state, if the key is there.
  unfoldable pub get : K → SessionCache K V → Option (SessionCache K V × Option (Option V))
  unfolding element remove
  get k c = elim (c.m k) [
    | none ↦ some (c, none)
    | some i ↦
        bind? (element i c.q) (λ e. some (record c { q = write_to_front e c.q }, some e.state))
  ]
