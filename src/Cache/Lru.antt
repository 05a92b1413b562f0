-- ===== src/Cache/Lru.antt =====
-- groupcache's `lru.Cache`, which the repository imports and does not hold: an interface of the
-- operations that the cache calls, with the laws that its documentation states. A call of `add` or
-- `remove` reports the entry, if any, for which it runs the `OnEvicted` callback. The greatest number of
-- entries is part of the empty cache. The laws are those of one that is not negative: with a negative
-- one `add` evicts what it added.
use xds_relay.Prelude.{String, ◌≡◌, ◌≢◌, Option, none, some}

pub record Lru (V : Type 0) : Type 1 where
  pub State : Type 0
  pub empty : State
  pub peek : State → String → Option V
  pub get : State → String → State × Option V
  pub add : State → String → V → State × Option (String × V)
  pub remove : State → String → State × Option (String × V)
  pub peek-empty : (k : String) → peek empty k ≡ none
  -- A get finds what is stored and changes only the order of use.
  pub get_value : (s : State) (k : String) → (get s k).1 ≡ peek s k
  pub get_keeps : (s : State) (k j : String) → peek (get s k).0 j ≡ peek s j
  -- An add stores the value; for a key that is stored already it evicts nothing.
  pub add_self : (s : State) (k : String) (v : V) → peek (add s k v).0 k ≡ some v
  pub add_existing :
      (s : State) (k : String) (v : V) {w : V} → peek s k ≡ some w → (add s k v).1 ≡ none
  pub add_kept :
      (s : State) (k : String) (v : V) (j : String)
      → (add s k v).1 ≡ none
      → k ≢ j
      → peek (add s k v).0 j ≡ peek s j
  -- An eviction is of another entry, which was stored, and of that alone.
  pub add_evicted :
      (s : State) (k : String) (v : V) {e : String} {w : V}
      → (add s k v).1 ≡ some (e, w)
      → (k ≢ e)
        × (peek s e ≡ some w)
        × (peek (add s k v).0 e ≡ none)
        × ((j : String) → k ≢ j → e ≢ j → peek (add s k v).0 j ≡ peek s j)
  -- A remove evicts the entry that it removes.
  pub remove_self : (s : State) (k : String) → peek (remove s k).0 k ≡ none
  pub remove_other : (s : State) (k j : String) → k ≢ j → peek (remove s k).0 j ≡ peek s j
  pub remove_stored :
      (s : State) (k : String) {v : V} → peek s k ≡ some v → (remove s k).1 ≡ some (k, v)
  pub remove_absent : (s : State) (k : String) → peek s k ≡ none → (remove s k).1 ≡ none
