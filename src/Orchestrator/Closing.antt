-- ===== src/Orchestrator/Closing.antt =====
-- The ends of watches, streams and entries (orchestrator.go): onCancelWatch, ClearCacheEntries and
-- the closed response channel in watchUpstream.
use xds_relay.Prelude.{
  ℕ, String, true, false, ◌≡◌, ◌≢◌, refl, sym, subst, ap, ◌∙◌, arith, Option, none, some, List, [],
  ◌∷◌, inl, inr, Option-cases, Bool-cases, eq_iff,
}
use xds_relay.Outcome.{ok, panic, Outcome-cases}
use xds_relay.Cache.Lru.{Lru}
use xds_relay.Cache.Resource.{Resource, Stored, resource, is_expired}
use xds_relay.Cache.Requests.{delete-some, erase}
use xds_relay.Cache.Ops.{Cache, fetch, delete_request, delete_key}
use xds_relay.Cache.View.{IsWellFormed, entry, watchers, watchers_of, watchers_some}
use xds_relay.Cache.Entries.{entry_cases}
use xds_relay.Cache.Keeps.{delete_request-IsGood, delete_key-IsGood, fetch-IsGood}
use xds_relay.Cache.Reads.{delete_request_lem, fetch_fresh, fetch_expired}
use xds_relay.Cache.Removals.{delete_request-IsFramed}
use xds_relay.Orchestrator.Downstream
use xds_relay.Orchestrator.Downstream.{Downstream, get, has_key}
use xds_relay.Orchestrator.Watches
use xds_relay.Orchestrator.Watches.{delete_found, delete_absent}
use xds_relay.Orchestrator.Deletions.{Deletes-absent}
use xds_relay.Orchestrator.Streams
use xds_relay.Orchestrator.State.{Relay, run_cache}
use xds_relay.Orchestrator.Watching.{cancel_watch, clear_cache_entries, on_upstream_closed}
use xds_relay.Orchestrator.Responses.{fetch_fresh_after}
use xds_relay.Orchestrator.Consistency.{
  IsConsistent, on_cache_evicted_lem, run_cache_quiet, run_cache_lem,
}

-- A deletion from the map, of a request that is there or not.
delete_either :
    (d : Downstream) (addr : ℕ)
    → Watches.IsSound d
    → (d' : Downstream) × (out : Option ℕ) × (Downstream.delete d addr ≡ ok (d', out))
      × Watches.IsSound d'
      × Watches.Deletes (addr ∷ []) d d'
delete_either d addr h = elim (Option-cases (get d addr)) [
  | inl absent ↦ (d, none, delete_absent d addr absent, h, Deletes-absent d addr absent)
  | inr (a, there) ↦
      let (d', runs, sound, deletes) = delete_found d addr a h there in
      (d', some a, runs, sound, deletes)
]

module _ (lru : Lru Stored) where
  open lru use {State, peek, get as lru_get, add, remove}

  delete_request_evicts :
      {c : Cache State} (wf : IsWellFormed lru c) (key : String) (req : ℕ)
      → (delete_request lru c key req).evicted ≡ none
  unfolding delete_request
  delete_request_evicts {c} wf key req = elim (entry_cases lru wf key) [
    | inl absent ↦ rw (lru.get_value c.store key ∙ absent, delete_request) refl
    | inr (r, a, f) ↦
        rw
          (lru.get_value c.store key ∙ f.0, delete_request, delete-some c.heap r.requests req a f.1)
          (lru.add_existing _ key _ (lru.get_keeps c.store key key ∙ f.0))
  ]

  -- In a consistent relay, which stays so, cancelling a watch, registered or not and whether or not its key is still cached, does not panic:
  -- its watch is closed and its request is neither in the map nor registered under the key. The
  -- other requests registered under the key stay in their order, and so do the key's response and deadline,
  -- the entries and registrations of all other keys, and all streams.
  pub cancel_watch_lem :
      (r : Relay State) (key : String) (addr : ℕ)
      → IsConsistent lru r
      → (r' : Relay State) × (cancel_watch lru r key addr ≡ ok r')
        × IsConsistent lru r'
        × Watches.Deletes (addr ∷ []) r.downstream r'.downstream
        × (watchers lru r'.cache key ≡ erase addr (watchers lru r.cache key))
        × (entry lru r'.cache key ≡ entry lru r.cache key)
        × ((j : String)
            → key ≢ j
            → (peek r'.cache.store j ≡ peek r.cache.store j)
              × (watchers lru r'.cache j ≡ watchers lru r.cache j))
        × (r'.upstream ≡ r.upstream)
  unfolding cancel_watch
  cancel_watch_lem r key addr h =
      let (d, out, deleted, sound, deletes) = delete_either r.downstream addr h.downstream in
      let good = delete_request-IsGood lru h.cache key addr in
      (
        record r { downstream = d; cache = (delete_request lru r.cache key addr).after },
        rw
            (
              cancel_watch,
              deleted,
              run_cache_quiet lru (record r { downstream = d })
                  (delete_request lru r.cache key addr) (delete_request_evicts h.cache key addr)
                  good.no_panic,
            )
            refl,
        record { cache = good.well_formed; downstream = sound; upstream = h.upstream },
        deletes,
        (delete_request_lem lru h.cache key addr).2,
        (delete_request_lem lru h.cache key addr).0,
        (λ j n.
            let framed = delete_request-IsFramed lru h.cache key j n addr in
            let silent = delete_request_evicts h.cache key addr in
            (
              framed.entry_kept (λ x p. cc (p, silent)),
              framed.watchers_kept (λ x p. cc (p, silent)),
            )),
        refl,
      )

  delete_key_entries :
      (c : Cache State) (key : String)
      → let c' = (delete_key lru c key).after in
        (peek c'.store key ≡ none) × ((j : String) → key ≢ j → peek c'.store j ≡ peek c.store j)
  unfolding delete_key
  delete_key_entries c key = elim (Option-cases (peek c.store key)) [
    | inl absent ↦
        rw (lru.get_value c.store key ∙ absent, delete_key)
          (lru.get_keeps c.store key key ∙ absent, λ j n. lru.get_keeps c.store key j)
    | inr (s, there) ↦
        rw (lru.get_value c.store key ∙ there, delete_key)
          (lru.remove_self _ key, λ j n. lru.remove_other _ key j n ∙ lru.get_keeps c.store key j)
  ]

  clear_cons :
      (r s r' : Relay State) (key : String) (keys errors : List String)
      → run_cache r (delete_key lru r.cache key) ≡ ok (s, (delete_key lru r.cache key).result)
      → (delete_key lru r.cache key).result ≢ panic
      → clear_cache_entries lru s keys ≡ ok (r', errors)
      → (reported : List String) × (clear_cache_entries lru r (key ∷ keys) ≡ ok (r', reported))
  unfolding clear_cache_entries
  clear_cons r s r' key keys errors deleted safe rest =
      elim (Outcome-cases (delete_key lru r.cache key).result safe) [
        | inl (u, done) ↦ (errors, rw (clear_cache_entries, deleted, rest, done) refl)
        | inr (e, failed) ↦ (e ∷ errors, rw (clear_cache_entries, deleted, rest, failed) refl)
      ]

  -- In a consistent relay, which stays so, clearing a list of keys, repetitions and absent ones included, does not panic: none of them is
  -- cached afterwards, and the entries of all other keys stay.
  pub clear_cache_entries_lem :
      (r : Relay State) (keys : List String)
      → IsConsistent lru r
      → (r' : Relay State) × (errors : List String) × (clear_cache_entries lru r keys
          ≡ ok (r', errors))
        × IsConsistent lru r'
        × ((k : String) → has_key k keys ≡ true → peek r'.cache.store k ≡ none)
        × ((k : String) → has_key k keys ≡ false → peek r'.cache.store k ≡ peek r.cache.store k)
  unfolding clear_cache_entries has_key
  clear_cache_entries_lem r [] h = (r, [], refl, h, (λ k p. absurd (cc p)), λ k p. refl)
  clear_cache_entries_lem r (key ∷ keys) h =
      let good = delete_key-IsGood lru h.cache key in
      let (s, deleted, mid, cache, quiet, evicts) =
        run_cache_lem lru r (delete_key lru r.cache key) h good in
      let (r', errors, runs, last, gone, kept) = clear_cache_entries_lem s keys mid in
      let entries = delete_key_entries r.cache key in
      let (reported, ends) = clear_cons r s r' key keys errors deleted good.no_panic runs in
      (
        r',
        reported,
        ends,
        last,
        (λ k p. elim (Bool-cases (has_key k keys)) [
          | inl later ↦ gone k later
          | inr never ↦
              let same : key ≡ k = (eq_iff key k).0 (ground arith) in
              kept k never
              ∙ ap (λ (c : Cache State). peek c.store k) cache
              ∙ ap (peek (delete_key lru r.cache key).after.store) (sym same)
              ∙ entries.0
        ]),
        λ k p.
            kept k (ground arith)
            ∙ ap (λ (c : Cache State). peek c.store k) cache
            ∙ entries.1 k (λ same. ground (arith, eq_iff key k)),
      )

  -- In a consistent relay, which stays so, a closed response channel of a key whose entry is not past its deadline: the watches of the
  -- requests registered under the key are closed and its stream is shut down, without a panic. The
  -- entry stays in the cache.
  pub on_upstream_closed_fresh :
      (r : Relay State) (key : String) (res : Resource) (first second : ℕ)
      → IsConsistent lru r
      → peek r.cache.store key ≡ some (resource res)
      → is_expired res first ≡ false
      → (r' : Relay State) × (on_upstream_closed lru r key (first, second) ≡ ok r')
        × IsConsistent lru r'
        × Watches.Deletes (watchers lru r.cache key) r.downstream r'.downstream
        × Streams.Deletes key r.upstream r'.upstream
        × (peek r'.cache.store key ≡ some (resource res))
  unfolding on_upstream_closed
  on_upstream_closed_fresh r key res first second h stored fresh =
      let good = fetch-IsGood lru h.cache key first second in
      let found = fetch_fresh lru r.cache key res first second stored fresh in
      let (a, points, inside) = h.cache.allocated key res stored in
      let left = fetch_fresh_after lru r.cache key res first second stored fresh in
      let (r', runs, last, cache, watches, streams) =
        on_cache_evicted_lem lru (record r { cache = (fetch lru r.cache key first second).after })
          key res a
          (record { cache = good.well_formed; downstream = h.downstream; upstream = h.upstream })
          points in
      (
        r',
        rw
            (
              on_upstream_closed,
              run_cache_quiet lru r (fetch lru r.cache key first second) found.1 good.no_panic,
              found.0,
            )
            runs,
        last,
        subst (λ l. Watches.Deletes l r.downstream r'.downstream)
            (ap (λ (c : Cache State). c.heap.cell a) left
              ∙ ap (watchers_of r.cache.heap) (sym points)
              ∙ sym (watchers_some lru r.cache.store r.cache.heap key stored))
            watches,
        streams,
        ap (λ (c : Cache State). peek c.store key) (cache ∙ left)
            ∙ lru.get_keeps _ key key
            ∙ stored,
      )

  -- In a consistent relay a closed response channel of a key whose entry is past its deadline at both
  -- readings of the clock: Fetch returns nil
  -- without an error, and the goroutine panics on the dereference.
  pub on_upstream_closed_expired :
      (r : Relay State) (key : String) (res : Resource) (first second : ℕ)
      → IsConsistent lru r
      → peek r.cache.store key ≡ some (resource res)
      → is_expired res first ≡ true
      → is_expired res second ≡ true
      → on_upstream_closed lru r key (first, second) ≡ panic
  unfolding on_upstream_closed
  on_upstream_closed_expired r key res first second h stored past gone =
      let (r', runs, good, cache, quiet, evicts) =
        run_cache_lem lru r (fetch lru r.cache key first second) h
          (fetch-IsGood lru h.cache key first second) in
      rw
        (
          on_upstream_closed,
          runs,
          (fetch_expired lru r.cache key res first second stored past gone).0,
        )
        refl
