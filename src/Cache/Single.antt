-- ===== src/Cache/Single.antt =====
-- An LRU cache of one entry, which shows that the interface's laws can be met, evictions included.
use xds_relay.Prelude.{
  String, ◌≡◌, ◌≢◌, refl, Option, none, some, arith, str_eq, eq_iff, eq_refl, if◌then◌else◌,
}
use xds_relay.Cache.Lru.{Lru}

-- The entry, if there is one.
abbrev pub Slot : Type 0 → Type 0
Slot V = Option (String × V)

module _ {V : Type 0} where
  unfoldable pub slot_peek : Slot V → String → Option V
  slot_peek none k = none
  slot_peek (some (e, v)) k = if str_eq e k then some v else none

  unfoldable pub slot_evicted : Slot V → String → Option (String × V)
  slot_evicted none k = none
  slot_evicted (some (e, v)) k = if str_eq e k then none else some (e, v)

  unfoldable pub slot_remove : Slot V → String → Slot V × Option (String × V)
  slot_remove none k = (none, none)
  slot_remove (some (e, v)) k = if str_eq e k then (none, some (e, v)) else (some (e, v), none)

  pub peek-empty_lem : (k : String) → slot_peek none k ≡ none
  unfolding slot_peek
  peek-empty_lem k = refl

  pub add_self_lem : (s : Slot V) (k : String) (v : V) → slot_peek (some (k, v)) k ≡ some v
  unfolding slot_peek
  add_self_lem s k v = rw (eq_refl k)

  pub add_existing_lem :
      (s : Slot V) (k : String) (v : V) {w : V} → slot_peek s k ≡ some w → slot_evicted s k ≡ none
  unfolding slot_peek slot_evicted
  add_existing_lem none k v h = refl
  add_existing_lem (some (e, x)) k v h = ground arith

  pub add_kept_lem :
      (s : Slot V) (k : String) (v : V) (j : String)
      → slot_evicted s k ≡ none
      → k ≢ j
      → slot_peek (some (k, v)) j ≡ slot_peek s j
  unfolding slot_peek slot_evicted
  add_kept_lem none k v j h n = ground (arith, eq_iff k j)
  add_kept_lem (some (e, x)) k v j h n = ground (arith, eq_iff k j, eq_iff e k, eq_iff e j)

  pub add_evicted_lem :
      (s : Slot V) (k : String) (v : V) {e : String} {w : V}
      → slot_evicted s k ≡ some (e, w)
      → (k ≢ e)
        × (slot_peek s e ≡ some w)
        × (slot_peek (some (k, v)) e ≡ none)
        × ((j : String) → k ≢ j → e ≢ j → slot_peek (some (k, v)) j ≡ slot_peek s j)
  unfolding slot_peek slot_evicted
  add_evicted_lem none k v h = absurd (cc h)
  add_evicted_lem (some (i, x)) k v {e} h = (
    ground (arith, eq_iff i k),
    ground (arith, eq_iff i e),
    ground (arith, eq_iff k e, eq_iff i k),
    λ j n m. ground (arith, eq_iff k j, eq_iff i j, eq_iff i k),
  )

  pub remove_self_lem : (s : Slot V) (k : String) → slot_peek (slot_remove s k).0 k ≡ none
  unfolding slot_peek slot_remove
  remove_self_lem none k = refl
  remove_self_lem (some (e, v)) k = ground arith

  pub remove_other_lem :
      (s : Slot V) (k j : String) → k ≢ j → slot_peek (slot_remove s k).0 j ≡ slot_peek s j
  unfolding slot_peek slot_remove
  remove_other_lem none k j n = refl
  remove_other_lem (some (e, v)) k j n = ground (arith, eq_iff e k, eq_iff e j)

  pub remove_stored_lem :
      (s : Slot V) (k : String) {v : V} → slot_peek s k ≡ some v → (slot_remove s k).1 ≡ some (k, v)
  unfolding slot_peek slot_remove
  remove_stored_lem none k h = absurd (cc h)
  remove_stored_lem (some (e, v)) k h = ground (arith, eq_iff e k)

  pub remove_absent_lem :
      (s : Slot V) (k : String) → slot_peek s k ≡ none → (slot_remove s k).1 ≡ none
  unfolding slot_peek slot_remove
  remove_absent_lem none k h = refl
  remove_absent_lem (some (e, v)) k h = ground arith

abbrev pub single : (V : Type 0) → Lru V
single V = record {
  State = Option (String × V);
  empty = none;
  peek = slot_peek;
  get = λ s k. (s, slot_peek s k);
  add = λ s k v. (some (k, v), slot_evicted s k);
  remove = slot_remove;
  peek-empty = peek-empty_lem;
  get_value = λ s k. refl;
  get_keeps = λ s k j. refl;
  add_self = add_self_lem;
  add_existing = add_existing_lem;
  add_kept = add_kept_lem;
  add_evicted = add_evicted_lem;
  remove_self = remove_self_lem;
  remove_other = remove_other_lem;
  remove_stored = remove_stored_lem;
  remove_absent = remove_absent_lem;
}
