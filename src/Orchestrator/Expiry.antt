-- ===== src/Orchestrator/Expiry.antt =====
-- CreateWatch for a key whose entry is past its deadline (orchestrator.go, cache.go).
use xds_relay.Prelude.{
  ℕ, String, true, ◌≡◌, refl, sym, ap, ◌∙◌, arith, Option, none, some, List, [], ◌∷◌, ◌++◌, inl,
  inr, Bool-cases,
}
use xds_relay.Outcome.{Outcome, ok}
use xds_relay.Transport.Request.{Request}
use xds_relay.Transport.Watch.{is_closed}
use xds_relay.Cache.Lru.{Lru}
use xds_relay.Cache.Resource.{Resource, Stored, resource, is_expired}
use xds_relay.Cache.Requests.{Heap, contains, insert, set-some}
use xds_relay.Cache.Ops.{Cache, add_request, fetch, fetch_read, fetch_locked, got}
use xds_relay.Cache.View.{IsWellFormed, as_resource, entry, watchers, watchers_of}
use xds_relay.Cache.Entries.{entry_cases}
use xds_relay.Cache.Keeps.{add_request-IsGood, fetch-IsGood}
use xds_relay.Cache.Reads.{add_request_lem, fetch_expired, IsSuccessor}
use xds_relay.Orchestrator.Downstream.{Downstream, find_or_create, get}
use xds_relay.Orchestrator.Watches.{find_or_create_lem}
use xds_relay.Orchestrator.State.{Relay, push_cached, ensure_upstream}
use xds_relay.Orchestrator.Watching.{register_watch, create_watch}
use xds_relay.Orchestrator.Consistency.{IsConsistent, run_cache_lem, run_cache_quiet}
use xds_relay.Orchestrator.Opening.{ensure_upstream_lem}

contains-append : (r : ℕ) (l : List ℕ) → contains r (l ++ r ∷ []) ≡ true
unfolding contains
contains-append r [] = ground arith
contains-append r (x ∷ l) = ground (arith, contains-append r l)

contains-insert : (r : ℕ) (l : List ℕ) → contains r (insert r l) ≡ true
unfolding insert
contains-insert r l = elim (Bool-cases (contains r l)) [
  | inl there ↦ rw (there, insert) there
  | inr absent ↦ rw (absent, insert) (contains-append r l)
]

module _ (lru : Lru Stored) where
  open lru use {State, peek}

  add_request_evicts :
      {c : Cache State} (wf : IsWellFormed lru c) (key : String) (req now : ℕ) (s : Stored)
      → peek c.store key ≡ some s
      → (add_request lru c key req now).evicted ≡ none
  unfolding add_request
  add_request_evicts {c} wf key req now s stored = elim (entry_cases lru wf key) [
    | inl absent ↦ absurd (cc (absent, stored))
    | inr (r, a, f) ↦
        rw (lru.get_value c.store key ∙ f.0, add_request, set-some c.heap r.requests req a f.1)
          (lru.add_existing _ key _ (lru.get_keeps c.store key key ∙ stored))
  ]

  fetch_expired_heap :
      (c : Cache State) (key : String) (r : Resource) (now later : ℕ)
      → peek c.store key ≡ some (resource r)
      → is_expired r now ≡ true
      → is_expired r later ≡ true
      → (fetch lru c key now later).after.heap ≡ c.heap
  unfolding fetch fetch_read fetch_locked
  fetch_expired_heap c key r now later stored first second =
      let stale : fetch_read lru c key now ≡ none =
        rw (lru.get_value c.store key ∙ stored, fetch_read, first) in
      let again : (lru.get (got lru c key).store key).1 ≡ some (resource r) =
        lru.get_value (got lru c key).store key ∙ lru.get_keeps c.store key key ∙ stored in
      rw (stale, fetch, again, fetch_locked, second) refl

  successor :
      (o : Option Resource) (res r : Resource) (deadline : ℕ)
      → o ≡ some res
      → IsSuccessor o deadline r
      → r ≡ res
  successor (some old) res r deadline e s = cc (e, s)
  successor none res r deadline e s = absurd (cc e)

  -- AddRequest and then Fetch of an expired entry: the request is registered with the entry that is
  -- evicted.
  registered_evicted :
      {c : Cache State} (wf : IsWellFormed lru c) (key : String) (addr now first second : ℕ)
      (res : Resource)
      → peek c.store key ≡ some (resource res)
      → is_expired res first ≡ true
      → is_expired res second ≡ true
      → let e = fetch lru (add_request lru c key addr now).after key first second in
        (held : Resource) × (a : ℕ) × (e.evicted ≡ some (key, resource held))
        × (held.requests ≡ some a)
        × (contains addr (e.after.heap.cell a) ≡ true)
        × (e.result ≡ ok none)
  registered_evicted {c} wf key addr now first second res stored past gone =
      let (held, at, done, listed, kept) = add_request_lem lru wf key addr now in
      let old : held ≡ res = successor (entry lru c key) res held _ (ap as_resource stored) kept in
      let (a, points, inside) =
        (add_request-IsGood lru wf key addr now).well_formed.allocated key held at in
      let past' = ap (λ x. is_expired x first) old ∙ past in
      let gone' = ap (λ x. is_expired x second) old ∙ gone in
      let nothing =
        fetch_expired lru (add_request lru c key addr now).after key held first second at past'
          gone' in
      (
        held,
        a,
        nothing.1,
        points,
        ap (contains addr) (
              ap (λ (g : Heap). g.cell a)
                (fetch_expired_heap (add_request lru c key addr now).after key held first second at
                  past' gone')
              ∙ ap (watchers_of (add_request lru c key addr now).after.heap) (sym points)
              ∙ listed)
            ∙ contains-insert addr (watchers lru c key),
        nothing.0,
      )

  -- In a consistent relay, CreateWatch for a key whose entry is past its deadline at both readings of the clock: the
  -- request is registered with the entry, the lookup evicts the entry, and the eviction closes the
  -- watch, so that the watch that is returned is closed already.
  pub create_watch_expired :
      (get_key : Request → Outcome String) (r : Relay State) (addr : ℕ) (req : Request)
      (key : String) (now first second : ℕ) (res : Resource)
      → IsConsistent lru r
      → get_key req ≡ ok key
      → peek r.cache.store key ≡ some (resource res)
      → is_expired res first ≡ true
      → is_expired res second ≡ true
      → let watch = (find_or_create r.downstream addr req).1 in
        (r' : Relay State) × (create_watch lru get_key r addr req (now, first, second)
          ≡ ok (r', (some watch, true)))
        × (is_closed (r'.downstream.heap watch) ≡ true)
        × (get r'.downstream addr ≡ none)
  unfolding create_watch register_watch push_cached
  create_watch_expired get_key r addr req key now first second res h keyed stored past gone =
      let (sound, there, others, same) = find_or_create_lem r.downstream addr req h.downstream in
      let good = add_request-IsGood lru h.cache key addr now in
      let done = (add_request_lem lru h.cache key addr now).2 in
      let (held, a, evicted, points, listed, nothing) =
        registered_evicted h.cache key addr now first second res stored past gone in
      let registered : IsConsistent lru (record r {
        downstream = (find_or_create r.downstream addr req).0;
        cache = (add_request lru r.cache key addr now).after;
      }) =
        record { cache = good.well_formed; downstream = sound; upstream = h.upstream } in
      let (t, runs, left, cache, quiet, evicts) =
        run_cache_lem lru _
          (fetch lru (add_request lru r.cache key addr now).after key first second) registered
          (fetch-IsGood lru good.well_formed key first second) in
      let watches = (evicts key held a evicted points).0 in
      let watching = (ensure_upstream_lem lru t key left).5 in
      (
        ensure_upstream t key,
        rw
            (
              create_watch,
              keyed,
              register_watch,
              run_cache_quiet lru
                  (record r { downstream = (find_or_create r.downstream addr req).0 })
                  (add_request lru r.cache key addr now)
                  (add_request_evicts h.cache key addr now (resource res) stored) good.no_panic,
              done,
              runs,
              nothing,
            )
            refl,
        ap (λ (d : Downstream). is_closed (d.heap (find_or_create r.downstream addr req).1))
              watching
            ∙ watches.closed addr (find_or_create r.downstream addr req).1 listed there,
        ap (λ d. get d addr) watching ∙ watches.dropped addr listed,
      )
