-- ===== src/Cache/Keeps.antt =====
-- Every method keeps a well-formed cache well formed, and none of its calls panics or fails a cast.
use xds_relay.Prelude.{
  ℕ, ◌<◌, ◌≤◌, String, ◌≡◌, ◌≢◌, refl, sym, ◌∙◌, inl, inr, Option, none, some, arith, Option-cases,
  Bool-cases,
}
use xds_relay.Outcome.{Outcome, ok, err, panic}
use xds_relay.Transport.Response.{Response}
use xds_relay.Cache.Lru.{Lru}
use xds_relay.Cache.Resource.{Resource, Stored, resource, is_expired}
use xds_relay.Cache.Requests.{Heap, set-some, delete-some}
use xds_relay.Cache.Ops.{
  fetch_read_only, resource_or_zero, Cache, Effect, quiet, got, added, fetch, fetch_read,
  fetch_locked, set_response, add_request, delete_request, delete_key,
}
use xds_relay.Cache.View.{IsWellFormed}
use xds_relay.Cache.Invariant.{got-IsWellFormed, stored-IsWellFormed, removed-IsWellFormed}
use xds_relay.Cache.Entries.{entry_cases, store_own, store_new, keeps, stored_resource}

-- A method left a well-formed cache and returned a value or an error of its own, and what it evicted
-- was a resource with a store.
pub record IsGood {A : Type 0} (lru : Lru Stored) (e : Effect (lru.State) A) : Type 0 where
  pub well_formed : IsWellFormed lru e.after
  pub no_panic : e.result ≢ panic
  pub evicted_resource :
      (k : String) (s : Stored)
      → e.evicted ≡ some (k, s)
      → (r : Resource) × (a : ℕ) × (s ≡ resource r) × (r.requests ≡ some a)

module _ (lru : Lru Stored) where
  open lru use {State, peek, get, add, remove}

  module _ {c : Cache State} (wf : IsWellFormed lru c) where
    quiet-IsGood : {A : Type 0} (result : Outcome A) → result ≢ panic → IsGood lru (quiet c result)
    quiet-IsGood result safe = record {
      well_formed = wf;
      no_panic = safe;
      evicted_resource = λ k s e. absurd (cc e);
    }

    -- Storing a resource whose requests are in a store that no other key has.
    added-IsGood :
        {A : Type 0} (key : String) (r : Resource) (h : Heap) (a : ℕ) (result : Outcome A)
        → result ≢ panic
        → r.requests ≡ some a
        → a < h.next
        → c.heap.next ≤ h.next
        → ((j : String) (s : Resource)
            → peek (got lru c key).store j ≡ some (resource s)
            → s.requests ≡ some a
            → key ≡ j)
        → IsGood lru (added lru (record (got lru c key) { heap = h }) key r result)
    added-IsGood key r h a result safe points inside grows own = record {
      well_formed = stored-IsWellFormed lru (keeps lru wf key) key r h a points inside grows own;
      no_panic = safe;
      evicted_resource = λ k s e.
          stored_resource lru (keeps lru wf key) k s (lru.add_evicted _ key (resource r) e).1;
    }

    removed-IsGood :
        {A : Type 0} (key : String) (s : Stored) (result : Outcome A)
        → result ≢ panic
        → peek c.store key ≡ some s
        → IsGood lru (record {
          after = record c { store = (remove (got lru c key).store key).0 };
          evicted = (remove (got lru c key).store key).1;
          result = result;
        })
    removed-IsGood key s result safe stored = record {
      well_formed = removed-IsWellFormed lru (keeps lru wf key) key;
      no_panic = safe;
      evicted_resource = λ k t e.
          let was : (remove (got lru c key).store key).1 ≡ some (key, s) =
            lru.remove_stored _ key (lru.get_keeps c.store key key ∙ stored) in
          let same : s ≡ t = cc (was, e) in
          let (r, a, p, q) = stored_resource lru wf key s stored in (r, a, sym same ∙ p, q);
    }

  module _ {c : Cache State} (wf : IsWellFormed lru c) (key : String) where
    -- SetResponse on a well-formed cache leaves it well formed and does not panic, and an entry that it
    -- evicts is a resource with a store.
    pub set_response-IsGood :
        (response : Response) (now : ℕ) → IsGood lru (set_response lru c key response now)
    unfolding set_response
    set_response-IsGood response now = elim (entry_cases lru wf key) [
      | inl absent ↦
          rw (lru.get_value c.store key ∙ absent, set_response)
            (added-IsGood wf key _ _ c.heap.next _ (λ p. cc) refl (omega arith) (omega arith)
              (store_new lru wf key))
      | inr (r, a, f) ↦
          rw (lru.get_value c.store key ∙ f.0, set_response)
            (added-IsGood wf key _ _ a _ (λ p. cc) f.1 f.2 (omega arith)
              (store_own lru wf key r a f))
    ]

    -- AddRequest on a well-formed cache leaves it well formed and does not panic, and an entry that it
    -- evicts is a resource with a store.
    pub add_request-IsGood : (req now : ℕ) → IsGood lru (add_request lru c key req now)
    unfolding add_request
    add_request-IsGood req now = elim (entry_cases lru wf key) [
      | inl absent ↦
          rw (lru.get_value c.store key ∙ absent, add_request)
            (added-IsGood wf key _ _ c.heap.next _ (λ p. cc) refl (omega arith) (omega arith)
              (store_new lru wf key))
      | inr (r, a, f) ↦
          rw (lru.get_value c.store key ∙ f.0, add_request, set-some c.heap r.requests req a f.1)
            (added-IsGood wf key r _ a _ (λ p. cc) f.1 f.2 (omega arith)
              (store_own lru wf key r a f))
    ]

    -- DeleteRequest on a well-formed cache leaves it well formed and does not panic, and an entry that it
    -- evicts is a resource with a store.
    pub delete_request-IsGood : (req : ℕ) → IsGood lru (delete_request lru c key req)
    unfolding delete_request
    delete_request-IsGood req = elim (entry_cases lru wf key) [
      | inl absent ↦
          rw (lru.get_value c.store key ∙ absent, delete_request)
            (quiet-IsGood (keeps lru wf key) _ (λ p. cc))
      | inr (r, a, f) ↦
          rw
            (
              lru.get_value c.store key ∙ f.0,
              delete_request,
              delete-some c.heap r.requests req a f.1,
            )
            (added-IsGood wf key r _ a _ (λ p. cc) f.1 f.2 (omega arith)
              (store_own lru wf key r a f))
    ]

    -- DeleteKey on a well-formed cache leaves it well formed and does not panic, and an entry that it
    -- evicts is a resource with a store.
    pub delete_key-IsGood : IsGood lru (delete_key lru c key)
    unfolding delete_key
    delete_key-IsGood = elim (entry_cases lru wf key) [
      | inl absent ↦
          rw (lru.get_value c.store key ∙ absent, delete_key)
            (quiet-IsGood (keeps lru wf key) _ (λ p. cc))
      | inr (r, a, f) ↦
          rw (lru.get_value c.store key ∙ f.0, delete_key)
            (removed-IsGood wf key (resource r) _ (λ p. cc) f.0)
    ]

    pub fetch_locked-IsGood : (now : ℕ) → IsGood lru (fetch_locked lru c key now)
    unfolding fetch_locked
    fetch_locked-IsGood now = elim (entry_cases lru wf key) [
      | inl absent ↦
          rw (lru.get_value c.store key ∙ absent, fetch_locked)
            (quiet-IsGood (keeps lru wf key) _ (λ p. cc))
      | inr (r, a, f) ↦ elim (Bool-cases (is_expired r now)) [
        | inl expired ↦
            rw (lru.get_value c.store key ∙ f.0, fetch_locked, expired)
              (removed-IsGood wf key (resource r) _ (λ p. cc) f.0)
        | inr fresh ↦
            rw (lru.get_value c.store key ∙ f.0, fetch_locked, fresh)
              (quiet-IsGood (keeps lru wf key) _ (λ p. cc))
      ]
    ]

    -- The read part returns a value or an error, or goes on to the write lock.
    fetch_read_result :
        (now : ℕ) {result : Outcome (Option Resource)}
        → fetch_read lru c key now ≡ some result
        → result ≢ panic
    unfolding fetch_read
    fetch_read_result now h = elim (entry_cases lru wf key) [
      | inl absent ↦ ground (arith, lru.get_value c.store key)
      | inr (r, a, f) ↦ ground (arith, lru.get_value c.store key)
    ]

  -- Fetch on a well-formed cache leaves it well formed and does not panic, and an entry that it
  -- evicts is a resource with a store.
  pub fetch-IsGood :
      {c : Cache State}
      → IsWellFormed lru c
      → (key : String) (now later : ℕ) → IsGood lru (fetch lru c key now later)
  unfolding fetch
  fetch-IsGood {c} wf key now later = elim (Option-cases (fetch_read lru c key now)) [
    | inl stale ↦ rw (stale, fetch) (fetch_locked-IsGood (got-IsWellFormed lru wf key) key later)
    | inr (result, e) ↦
        rw (e, fetch)
          (quiet-IsGood (got-IsWellFormed lru wf key) result (fetch_read_result wf key now e))
  ]

  zero-ne-panic : (o : Outcome (Option Resource)) → o ≢ panic → resource_or_zero lru o ≢ panic
  zero-ne-panic (ok (some r)) k = λ p. cc
  zero-ne-panic (ok none) k = λ p. cc
  zero-ne-panic (err e) k = λ p. cc
  zero-ne-panic panic k = absurd (k refl)

  -- FetchReadOnly likewise, for which an entry that Fetch evicted is the zero resource.
  pub fetch_read_only-IsGood :
      {c : Cache State}
      → IsWellFormed lru c
      → (key : String) (now later : ℕ) → IsGood lru (fetch_read_only lru c key now later)
  unfolding fetch_read_only
  fetch_read_only-IsGood {c} wf key now later =
      let good = fetch-IsGood wf key now later in
      record {
        well_formed = good.well_formed;
        no_panic = zero-ne-panic (fetch lru c key now later).result good.no_panic;
        evicted_resource = good.evicted_resource;
      }
