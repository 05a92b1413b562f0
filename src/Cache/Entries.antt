-- ===== src/Cache/Entries.antt =====
-- The entry of one key of a well-formed cache.
use xds_relay.Prelude.{
  ℕ, ◌<◌, String, ◌≡◌, refl, sym, ◌∙◌, ◌⊎◌, inl, inr, Option, none, some, arith,
}
use xds_relay.Cache.Lru.{Lru}
use xds_relay.Cache.Resource.{Resource, Stored, resource, foreign}
use xds_relay.Cache.Ops.{Cache, got}
use xds_relay.Cache.View.{IsWellFormed}
use xds_relay.Cache.Invariant.{got-IsWellFormed}

module _ (lru : Lru Stored) where
  open lru use {State, peek, get, add, remove}

  module _ {c : Cache State} (wf : IsWellFormed lru c) (key : String) where
    abbrev pub Found : Resource → ℕ → Type 0
    Found r a = (peek c.store key ≡ some (resource r)) × (r.requests ≡ some a) × (a < c.heap.next)

    pub entry_cases : (peek c.store key ≡ none) ⊎ ((r : Resource) × (a : ℕ) × Found r a)
    entry_cases = go (peek c.store key) refl
      where
        go :
            (p : Option Stored)
            → peek c.store key ≡ p
            → (peek c.store key ≡ none) ⊎ ((r : Resource) × (a : ℕ) × Found r a)
        go none e = inl e
        go (some foreign) e = absurd (wf.no_foreign key e)
        go (some (resource r)) e =
            let (a, points, inside) = wf.allocated key r e in inr (r, a, (e, points, inside))

    -- The store of a key's own resource.
    pub store_own :
        (r : Resource) (a : ℕ)
        → Found r a
        → (j : String) (s : Resource) → peek (got lru c key).store j ≡ some (resource s)
        → s.requests ≡ some a
        → key ≡ j
    store_own r a f j s p q =
        wf.unshared key j r s f.0 (sym (lru.get_keeps c.store key j) ∙ p) (f.1 ∙ sym q)

    -- A store that is allocated now belongs to no key.
    pub store_new :
        (j : String) (s : Resource)
        → peek (got lru c key).store j ≡ some (resource s)
        → s.requests ≡ some c.heap.next
        → key ≡ j
    store_new j s p q =
        let (b, points, inside) = wf.allocated j s (sym (lru.get_keeps c.store key j) ∙ p) in
        let e : some b ≡ some c.heap.next = sym points ∙ q in absurd (ground arith)

    pub keeps : IsWellFormed lru (got lru c key)
    keeps = got-IsWellFormed lru wf key

    -- What is stored is a resource with a store.
    pub stored_resource :
        (s : Stored)
        → peek c.store key ≡ some s
        → (r : Resource) × (a : ℕ) × (s ≡ resource r) × (r.requests ≡ some a)
    stored_resource foreign e = absurd (wf.no_foreign key e)
    stored_resource (resource r) e =
        let (a, points, inside) = wf.allocated key r e in (r, a, refl, points)
