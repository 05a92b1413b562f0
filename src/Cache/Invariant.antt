-- ===== src/Cache/Invariant.antt =====
-- Every method keeps the cache well formed, and then neither panics nor fails a cast.
use xds_relay.Prelude.{
  ℕ, ◌<◌, ◌≤◌, String, ◌≡◌, ◌≢◌, sym, ap, ◌∙◌, ◌⊎◌, inl, inr, some, arith, String-cases,
  Option-cases,
}
use xds_relay.Cache.Lru.{Lru}
use xds_relay.Cache.Resource.{Resource, Stored, resource}
use xds_relay.Cache.Requests.{Heap}
use xds_relay.Cache.Ops.{Cache, got}
use xds_relay.Cache.View.{IsWellFormed}

module _ (lru : Lru Stored) where
  open lru use {State, peek, get, add, remove}

  -- What is stored under a key after an add: the new value, or what was there before.
  pub peek-add :
      (s : State) (k : String) (v : Stored) (j : String) {w : Stored}
      → peek (add s k v).0 j ≡ some w
      → ((k ≡ j) × (w ≡ v)) ⊎ ((k ≢ j) × (peek s j ≡ some w))
  peek-add s k v j h = elim (String-cases k j) [
    | inl same ↦ inl (same, ground (arith, lru.add_self s k v))
    | inr differ ↦ elim (Option-cases (add s k v).1) [
      | inl kept ↦ inr (differ, sym (lru.add_kept s k v j kept differ) ∙ h)
      | inr ((e, x), gone) ↦
          let law = lru.add_evicted s k v gone in
          elim (String-cases e j) [
            | inl hit ↦ absurd (cc (law.2, hit, h))
            | inr other ↦ inr (differ, sym (law.3 j differ other) ∙ h)
          ]
    ]
  ]

  module _ {c : Cache State} (wf : IsWellFormed lru c) where
    pub got-IsWellFormed : (key : String) → IsWellFormed lru (got lru c key)
    got-IsWellFormed key = record {
      no_foreign = λ k h. wf.no_foreign k (sym (lru.get_keeps c.store key k) ∙ h);
      allocated = λ k r h. wf.allocated k r (sym (lru.get_keeps c.store key k) ∙ h);
      unshared = λ k j r s h i.
          wf.unshared k j r s (sym (lru.get_keeps c.store key k) ∙ h)
            (sym (lru.get_keeps c.store key j) ∙ i);
    }

    -- Storing a resource whose requests are in a store that no other key has.
    module _ (key : String) (r : Resource) (h : Heap) (a : ℕ) (points : r.requests ≡ some a)
        (inside : a < h.next) (grows : c.heap.next ≤ h.next)
        (own : (j : String) (s : Resource)
          → peek c.store j ≡ some (resource s)
          → s.requests ≡ some a
          → key ≡ j) where
      abbrev stored : Cache State
      stored = record c { store = (add c.store key (resource r)).0; heap = h }

      stored_cases :
          (j : String) (s : Resource)
          → peek stored.store j ≡ some (resource s)
          → ((key ≡ j) × (s ≡ r)) ⊎ ((key ≢ j) × (peek c.store j ≡ some (resource s)))
      stored_cases j s p = elim (peek-add c.store key (resource r) j p) [
        | inl (same, e) ↦ inl (same, cc e)
        | inr old ↦ inr old
      ]

      pub stored-IsWellFormed : IsWellFormed lru stored
      stored-IsWellFormed = record {
        no_foreign = λ k p. elim (peek-add c.store key (resource r) k p) [
          | inl (same, e) ↦ cc e
          | inr (differ, old) ↦ wf.no_foreign k old
        ];
        allocated = λ k s p. elim (stored_cases k s p) [
          | inl (same, e) ↦ (a, ap (λ (x : Resource). x.requests) e ∙ points, inside)
          | inr (differ, old) ↦ let (b, pb, lt) = wf.allocated k s old in (b, pb, omega arith)
        ];
        unshared = λ k j x y p q e. elim (stored_cases k x p) [
          | inl (same, ex) ↦ elim (stored_cases j y q) [
            | inl (same', ey) ↦ sym same ∙ same'
            | inr (differ, old) ↦
                absurd
                  (differ (own j y old (sym e ∙ ap (λ (z : Resource). z.requests) ex ∙ points)))
          ]
          | inr (differ, old) ↦ elim (stored_cases j y q) [
            | inl (same', ey) ↦
                absurd (differ (own k x old (e ∙ ap (λ (z : Resource). z.requests) ey ∙ points)))
            | inr (differ', old') ↦ wf.unshared k j x y old old' e
          ]
        ];
      }

    -- Removing an entry.
    pub removed-IsWellFormed :
        (key : String) → IsWellFormed lru (record c { store = (remove c.store key).0 })
    removed-IsWellFormed key = record {
      no_foreign = λ k p. wf.no_foreign k (still k p);
      allocated = λ k r p. wf.allocated k r (still k p);
      unshared = λ k j r s p q. wf.unshared k j r s (still k p) (still j q);
    }
      where
        still :
            (k : String) {w : Stored}
            → peek (remove c.store key).0 k ≡ some w
            → peek c.store k ≡ some w
        still k p = elim (String-cases key k) [
          | inl same ↦ absurd (cc (lru.remove_self c.store key, same, p))
          | inr differ ↦ sym (lru.remove_other c.store key k differ) ∙ p
        ]
