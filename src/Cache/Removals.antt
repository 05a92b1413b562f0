-- ===== src/Cache/Removals.antt =====
-- What DeleteRequest, DeleteKey and Fetch leave alone under other keys, and what they do to their own.
use xds_relay.Prelude.{
  ℕ, String, ◌≡◌, ◌≢◌, refl, sym, ap, ◌∙◌, inl, inr, Option, none, some, Bool-cases, Option-cases,
  some-inj,
}
use xds_relay.Outcome.{Outcome}
use xds_relay.Cache.Lru.{Lru}
use xds_relay.Cache.Resource.{Resource, Stored, resource, is_expired}
use xds_relay.Cache.Requests.{delete-some}
use xds_relay.Cache.Ops.{
  Cache, Effect, quiet, got, delete_request, delete_key, fetch, fetch_read, fetch_locked,
}
use xds_relay.Cache.View.{IsWellFormed}
use xds_relay.Cache.Invariant.{got-IsWellFormed}
use xds_relay.Cache.Entries.{entry_cases}
use xds_relay.Cache.Reads.{fetch_expired}
use xds_relay.Cache.Frames.{IsFramed, watchers_frame, own_store, new_store, added_frame, updated}

module _ (lru : Lru Stored) where
  open lru use {State, peek, remove}

  module _ {c : Cache State} (wf : IsWellFormed lru c) (key j : String) (differ : key ≢ j) where
    quiet-IsFramed :
        {A : Type 0} (result : Outcome A) → IsFramed lru c (quiet (got lru c key) result) j
    quiet-IsFramed result = record {
      entry_kept = λ _. lru.get_keeps c.store key j;
      watchers_kept = λ _.
          watchers_frame lru wf key j differ _ c.heap c.heap.next (λ b ne. refl)
            (new_store lru wf key j differ) (lru.get_keeps c.store key j);
      evicted_gone = λ x e. cc e;
    }

    -- An entry that is removed is reported under its own key.
    removed-IsFramed :
        {A : Type 0} (r : Resource) (result : Outcome A)
        → peek c.store key ≡ some (resource r)
        → let p = remove (got lru c key).store key in
          IsFramed lru c
            (record { after = record c { store = p.0 }; evicted = p.1; result = result })
            j
    removed-IsFramed r result stored =
        let kept = lru.remove_other _ key j differ ∙ lru.get_keeps c.store key j in
        let gone = lru.remove_stored _ key (lru.get_keeps c.store key key ∙ stored) in
        record {
          entry_kept = λ _. kept;
          watchers_kept = λ _.
              watchers_frame lru wf key j differ _ c.heap c.heap.next (λ b ne. refl)
                (new_store lru wf key j differ) kept;
          evicted_gone = λ x e. absurd (differ (key_of (sym gone ∙ e)));
        }
      where
        key_of :
            {s t : Stored}
            → ◌≡◌ {A = Option (String × Stored)} (some (key, s)) (some (j, t))
            → key ≡ j
        key_of e = ap (λ (x : String × Stored). x.0) (some-inj e)

    pub delete_request-IsFramed : (req : ℕ) → IsFramed lru c (delete_request lru c key req) j
    unfolding delete_request
    delete_request-IsFramed req = elim (entry_cases lru wf key) [
      | inl absent ↦ rw (lru.get_value c.store key ∙ absent, delete_request) (quiet-IsFramed _)
      | inr (r, a, f) ↦
          rw
            (
              lru.get_value c.store key ∙ f.0,
              delete_request,
              delete-some c.heap r.requests req a f.1,
            )
            (added_frame lru wf key j differ r _ a _ (updated lru wf key j differ a _)
              (own_store lru wf key j differ r a f.0 f.1))
    ]

    pub delete_key-IsFramed : IsFramed lru c (delete_key lru c key) j
    unfolding delete_key
    delete_key-IsFramed = elim (entry_cases lru wf key) [
      | inl absent ↦ rw (lru.get_value c.store key ∙ absent, delete_key) (quiet-IsFramed _)
      | inr (r, a, f) ↦ rw (lru.get_value c.store key ∙ f.0, delete_key) (removed-IsFramed r _ f.0)
    ]

    pub fetch_locked-IsFramed : (now : ℕ) → IsFramed lru c (fetch_locked lru c key now) j
    unfolding fetch_locked
    fetch_locked-IsFramed now = elim (entry_cases lru wf key) [
      | inl absent ↦ rw (lru.get_value c.store key ∙ absent, fetch_locked) (quiet-IsFramed _)
      | inr (r, a, f) ↦ elim (Bool-cases (is_expired r now)) [
        | inl expired ↦
            rw (lru.get_value c.store key ∙ f.0, fetch_locked, expired) (removed-IsFramed r _ f.0)
        | inr fresh ↦ rw (lru.get_value c.store key ∙ f.0, fetch_locked, fresh) (quiet-IsFramed _)
      ]
    ]

  -- A frame from the cache after a get is one from the cache before.
  IsFramed-got :
      {c : Cache State} (wf : IsWellFormed lru c) (key j : String) (differ : key ≢ j)
      → {A : Type 0} (e : Effect State A) → IsFramed lru (got lru c key) e j
      → IsFramed lru c e j
  IsFramed-got {c} wf key j differ e h =
      let step = quiet-IsFramed wf key j differ {A = Unit {0}} (Outcome.ok tt) in
      record {
        entry_kept = λ kept. h.entry_kept kept ∙ lru.get_keeps c.store key j;
        watchers_kept = λ kept. h.watchers_kept kept ∙ step.watchers_kept (λ x p. cc p);
        evicted_gone = λ x p.
            (sym (lru.get_keeps c.store key j) ∙ (h.evicted_gone x p).0, (h.evicted_gone x p).1);
      }

  pub fetch-IsFramed :
      {c : Cache State} (wf : IsWellFormed lru c) (key j : String) (differ : key ≢ j)
      (now later : ℕ)
      → IsFramed lru c (fetch lru c key now later) j
  unfolding fetch
  fetch-IsFramed {c} wf key j differ now later = elim (Option-cases (fetch_read lru c key now)) [
    | inl stale ↦
        rw (stale, fetch)
          (IsFramed-got wf key j differ _
            (fetch_locked-IsFramed (got-IsWellFormed lru wf key) key j differ later))
    | inr (result, e) ↦ rw (e, fetch) (quiet-IsFramed wf key j differ result)
  ]

  -- Fetch evicts no entry but that of its key.
  pub fetch_evicts_own :
      {c : Cache State} (wf : IsWellFormed lru c) (key j : String) (differ : key ≢ j)
      (now later : ℕ) (x : Stored)
      → (fetch lru c key now later).evicted ≢ some (j, x)
  unfolding fetch fetch_read fetch_locked
  fetch_evicts_own {c} wf key j differ now later x = elim (entry_cases lru wf key) [
    | inl absent ↦ rw (lru.get_value c.store key ∙ absent, fetch, fetch_read) (λ p. cc p)
    | inr (o, a, f) ↦ elim (Bool-cases (is_expired o now)) [
      | inr fresh ↦ rw (lru.get_value c.store key ∙ f.0, fetch, fetch_read, fresh) (λ p. cc p)
      | inl stale ↦ elim (Bool-cases (is_expired o later)) [
        | inl expired ↦ (λ p. differ (
            ap (λ (y : String × Stored). y.0)
              (some-inj (sym (fetch_expired lru c key o now later f.0 stale expired).1 ∙ p))))
        | inr fresh ↦
            (let unread : fetch_read lru c key now ≡ none =
                rw (lru.get_value c.store key ∙ f.0, fetch_read) (rw stale refl) in
              let again = lru.get_keeps c.store key key ∙ f.0 in
              rw (unread, fetch)
                (rw (lru.get_value (got lru c key).store key ∙ again, fetch_locked, fresh)
                  (λ p. cc p)))
      ]
    ]
  ]
