-- ===== src/Cache/Frames.antt =====
-- What a method on one key leaves alone under the others.
use xds_relay.Prelude.{
  ℕ, String, ◌≡◌, ◌≢◌, refl, sym, ap, ◌∙◌, inl, inr, Option, none, some, List, [], arith,
  String-cases,
}
use xds_relay.Outcome.{Outcome}
use xds_relay.Transport.Response.{Response}
use xds_relay.Cache.Lru.{Lru}
use xds_relay.Cache.Resource.{Resource, Stored, resource}
use xds_relay.Cache.Requests.{Heap, set-some, update}
use xds_relay.Cache.Ops.{Cache, Effect, got, added, set_response, add_request}
use xds_relay.Cache.View.{
  IsWellFormed, watchers, watchers_of, watchers_in, watchers_some, watchers_none,
}
use xds_relay.Cache.Entries.{entry_cases}

module _ (lru : Lru Stored) where
  open lru use {State, peek, get, add, remove}

  -- Another key either is as it was, entry and registered requests, or is the one that the method
  -- reports as evicted, and is gone.
  pub record IsFramed (before : Cache State) {A : Type 0} (e : Effect State A) (j : String)
      : Type 0 where
    pub entry_kept :
        ((x : Stored) → e.evicted ≢ some (j, x)) → peek e.after.store j ≡ peek before.store j
    pub watchers_kept :
        ((x : Stored) → e.evicted ≢ some (j, x)) → watchers lru e.after j ≡ watchers lru before j
    pub evicted_gone :
        (x : Stored)
        → e.evicted ≡ some (j, x)
        → (peek before.store j ≡ some x) × (peek e.after.store j ≡ none)

  -- An add under another key, after a get of it.
  add_frame :
      (s : State) (k : String) (v : Stored) (j : String)
      → k ≢ j
      → ((x : Stored) → (add (get s k).0 k v).1 ≢ some (j, x))
      → peek (add (get s k).0 k v).0 j ≡ peek s j
  add_frame s k v j differ kept = go (add (get s k).0 k v).1 refl
    where
      go :
          (o : Option (String × Stored))
          → (add (get s k).0 k v).1 ≡ o
          → peek (add (get s k).0 k v).0 j ≡ peek s j
      go none e = lru.add_kept _ k v j e differ ∙ lru.get_keeps s k j
      go (some (i, x)) e = elim (String-cases i j) [
        | inl same ↦ absurd (kept x (e ∙ ap (λ n. some (n, x)) same))
        | inr other ↦ (lru.add_evicted _ k v e).3 j differ other ∙ lru.get_keeps s k j
      ]

  add_gone :
      (s : State) (k : String) (v : Stored) (j : String) (x : Stored)
      → (add (get s k).0 k v).1 ≡ some (j, x)
      → (peek s j ≡ some x) × (peek (add (get s k).0 k v).0 j ≡ none)
  add_gone s k v j x e =
      let law = lru.add_evicted _ k v e in (sym (lru.get_keeps s k j) ∙ law.1, law.2)

  module _ {c : Cache State} (wf : IsWellFormed lru c) (key j : String) (differ : key ≢ j) where
    -- A change of one store that is not the other key's is not seen there.
    pub watchers_frame :
        (s : State) (h : Heap) (a : ℕ)
        → ((b : ℕ) → b ≢ a → h.cell b ≡ c.heap.cell b)
        → ((r : Resource) → peek c.store j ≡ some (resource r) → r.requests ≢ some a)
        → peek s j ≡ peek c.store j
        → watchers_in lru s h j ≡ watchers lru c j
    watchers_frame s h a same other e = elim (entry_cases lru wf j) [
      | inl absent ↦
          watchers_none lru s h j (e ∙ absent) ∙ sym (watchers_none lru c.store c.heap j absent)
      | inr (r, b, f) ↦
          watchers_some lru s h j (e ∙ f.0)
          ∙ cells r b f.1 (λ p. other r f.0 (f.1 ∙ ap some p))
          ∙ sym (watchers_some lru c.store c.heap j f.0)
    ]
      where
        cells :
            (r : Resource) (b : ℕ)
            → r.requests ≡ some b
            → b ≢ a
            → watchers_of h r.requests ≡ watchers_of c.heap r.requests
        cells r b p ne = rw p (same b ne)

    pub own_store :
        (r : Resource) (a : ℕ)
        → peek c.store key ≡ some (resource r)
        → r.requests ≡ some a
        → (s : Resource) → peek c.store j ≡ some (resource s)
        → s.requests ≢ some a
    own_store r a stored points s p q = differ (wf.unshared key j r s stored p (points ∙ sym q))

    pub new_store :
        (s : Resource) → peek c.store j ≡ some (resource s) → s.requests ≢ some c.heap.next
    new_store s p q =
        let (b, points, inside) = wf.allocated j s p in
        let e : some b ≡ some c.heap.next = sym points ∙ q in ground arith

    pub added_frame :
        {A : Type 0} (r : Resource) (h : Heap) (a : ℕ) (result : Outcome A)
        → ((b : ℕ) → b ≢ a → h.cell b ≡ c.heap.cell b)
        → ((s : Resource) → peek c.store j ≡ some (resource s) → s.requests ≢ some a)
        → IsFramed c (added lru (record (got lru c key) { heap = h }) key r result) j
    added_frame r h a result same other = record {
      entry_kept = add_frame c.store key (resource r) j differ;
      watchers_kept = λ kept.
          watchers_frame _ h a same other (add_frame c.store key (resource r) j differ kept);
      evicted_gone = add_gone c.store key (resource r) j;
    }

    pub updated : (a : ℕ) (l : List ℕ) (b : ℕ) → b ≢ a → update c.heap.cell a l b ≡ c.heap.cell b
    updated a l b ne = ground arith

    updated_twice :
        (a : ℕ) (l m : List ℕ) (b : ℕ)
        → b ≢ a
        → update (update c.heap.cell a l) a m b ≡ c.heap.cell b
    updated_twice a l m b ne = ground arith

    -- On a well-formed cache SetResponse leaves every other key alone, but for the one that it reports as evicted.
    pub set_response-IsFramed :
        (response : Response) (now : ℕ) → IsFramed c (set_response lru c key response now) j
    unfolding set_response
    set_response-IsFramed response now = elim (entry_cases lru wf key) [
      | inl absent ↦
          rw (lru.get_value c.store key ∙ absent, set_response)
            (added_frame _ _ c.heap.next _ (updated c.heap.next []) new_store)
      | inr (r, a, f) ↦
          rw (lru.get_value c.store key ∙ f.0, set_response)
            (added_frame _ c.heap a _ (λ b ne. refl) (own_store r a f.0 f.1))
    ]

    -- On a well-formed cache AddRequest registers under its own key only and leaves every other key
    -- alone, but for the one that it reports as evicted.
    pub add_request-IsFramed : (req now : ℕ) → IsFramed c (add_request lru c key req now) j
    unfolding add_request
    add_request-IsFramed req now = elim (entry_cases lru wf key) [
      | inl absent ↦
          rw (lru.get_value c.store key ∙ absent, add_request)
            (added_frame _ _ c.heap.next _ (updated_twice c.heap.next [] _) new_store)
      | inr (r, a, f) ↦
          rw (lru.get_value c.store key ∙ f.0, add_request, set-some c.heap r.requests req a f.1)
            (added_frame r _ a _ (updated a _) (own_store r a f.0 f.1))
    ]
