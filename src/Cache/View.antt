-- ===== src/Cache/View.antt =====
-- What a cache holds under each key, and the invariant of its representation.
use xds_relay.Prelude.{ℕ, ◌<◌, String, ◌≡◌, ◌≢◌, Option, none, some, List, []}
use xds_relay.Cache.Lru.{Lru}
use xds_relay.Cache.Resource.{Resource, Stored, resource, foreign}
use xds_relay.Cache.Requests.{Heap}
use xds_relay.Cache.Ops.{Cache}

-- The store that a resource points to.
abbrev pub watchers_of : Heap → Option ℕ → List ℕ
watchers_of h none = []
watchers_of h (some a) = h.cell a

abbrev pub as_resource : Option Stored → Option Resource
as_resource (some (resource r)) = some r
as_resource (some foreign) = none
as_resource none = none

module _ (lru : Lru Stored) where
  open lru use {State, peek}

  abbrev pub entry : Cache State → String → Option Resource
  entry c key = as_resource (peek c.store key)

  -- What is stored is a resource whose requests pointer is an allocated store, and no two keys share
  -- a store.
  pub record IsWellFormed (c : Cache State) : Type 0 where
    pub no_foreign : (k : String) → peek c.store k ≢ some foreign
    pub allocated :
        (k : String) (r : Resource)
        → peek c.store k ≡ some (resource r)
        → (a : ℕ) × (r.requests ≡ some a) × (a < c.heap.next)
    pub unshared :
        (k j : String) (r s : Resource)
        → peek c.store k ≡ some (resource r)
        → peek c.store j ≡ some (resource s)
        → r.requests ≡ s.requests
        → k ≡ j

  abbrev pub watchers_in : State → Heap → String → List ℕ
  watchers_in s h key = elim (as_resource (peek s key)) [
    | none ↦ []
    | some r ↦ watchers_of h r.requests
  ]

  -- The requests registered under a key.
  abbrev pub watchers : Cache State → String → List ℕ
  watchers c key = watchers_in c.store c.heap key

  pub watchers_some :
      (s : State) (h : Heap) (key : String) {r : Resource}
      → peek s key ≡ some (resource r)
      → watchers_in s h key ≡ watchers_of h r.requests
  watchers_some s h key e = rw (e, watchers_in)

  pub watchers_none :
      (s : State) (h : Heap) (key : String) → peek s key ≡ none → watchers_in s h key ≡ []
  watchers_none s h key e = rw (e, watchers_in)
