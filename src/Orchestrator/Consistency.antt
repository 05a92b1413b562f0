-- ===== src/Orchestrator/Consistency.antt =====
-- The orchestrator's invariant (orchestrator.go), and the methods of the cache with their eviction
-- callback.
use xds_relay.Prelude.{
  ℕ, String, ◌≡◌, ◌≢◌, refl, sym, Option, ◌∙◌, subst, ap, some-inj, none, some, inl, inr,
  Option-cases,
}
use xds_relay.Outcome.{Outcome, ok, err, panic}
use xds_relay.Cache.Lru.{Lru}
use xds_relay.Cache.Resource.{Resource, Stored, resource}
use xds_relay.Cache.Requests.{for_each}
use xds_relay.Cache.Ops.{Effect}
use xds_relay.Cache.View.{IsWellFormed}
use xds_relay.Cache.Keeps.{IsGood}
use xds_relay.Orchestrator.Watches
use xds_relay.Orchestrator.Deletions.{delete_all_lem}
use xds_relay.Orchestrator.Streams
use xds_relay.Orchestrator.Streams.{delete_lem, find}
use xds_relay.Orchestrator.State.{Relay, on_cache_evicted, run_eviction, report, run_cache}

module _ (lru : Lru Stored) where
  open lru use {State}

  pub record IsConsistent (r : Relay State) : Type 0 where
    pub cache : IsWellFormed lru r.cache
    pub downstream : Watches.IsSound r.downstream
    pub upstream : Streams.IsSound r.upstream

  -- In a consistent relay, which stays so, the eviction of a resource with a store closes the watches of the requests registered with it
  -- and the stream of its key, and touches no other watch or stream. It does not panic.
  pub on_cache_evicted_lem :
      (r : Relay State) (key : String) (res : Resource) (a : ℕ)
      → IsConsistent r
      → res.requests ≡ some a
      → (r' : Relay State) × (on_cache_evicted r key res ≡ ok r')
        × IsConsistent r'
        × (r'.cache ≡ r.cache)
        × Watches.Deletes (r.cache.heap.cell a) r.downstream r'.downstream
        × Streams.Deletes key r.upstream r'.upstream
  unfolding on_cache_evicted for_each
  on_cache_evicted_lem r key res a h points =
      let (d, runs, sound, deletes) =
        delete_all_lem r.downstream (r.cache.heap.cell a) h.downstream in
      let (u, done, sound', deletes') = delete_lem r.upstream key h.upstream in
      (
        record r { downstream = d; upstream = u },
        rw (points, on_cache_evicted, runs, done) refl,
        record { cache = h.cache; downstream = sound; upstream = sound' },
        refl,
        deletes,
        deletes',
      )

  report_safe :
      {A : Type 0} (r : Relay State) (result : Outcome A)
      → result ≢ panic
      → report r result ≡ ok (r, result)
  unfolding report
  report_safe r (ok a) safe = refl
  report_safe r (err e) safe = refl
  report_safe r panic safe = absurd (safe refl)

  run_ok :
      {A : Type 0} (r r' : Relay State) (e : Effect State A)
      → run_eviction (record r { cache = e.after }) e.evicted ≡ ok r'
      → e.result ≢ panic
      → run_cache r e ≡ ok (r', e.result)
  unfolding run_cache
  run_ok r r' e runs safe = rw (runs, run_cache) (report_safe r' e.result safe)

  -- A method that evicts nothing changes the cache alone.
  pub run_cache_quiet :
      {A : Type 0} (r : Relay State) (e : Effect State A)
      → e.evicted ≡ none
      → e.result ≢ panic
      → run_cache r e ≡ ok (record r { cache = e.after }, e.result)
  unfolding run_eviction
  run_cache_quiet r e kept safe = run_ok r (record r { cache = e.after }) e (rw kept refl) safe

  eviction-inj :
      (o : Option (String × Stored)) (k j : String) (s t : Stored)
      → o ≡ some (k, s)
      → o ≡ some (j, t)
      → (k ≡ j) × (s ≡ t)
  eviction-inj o k j s t p q =
      let e : some (k, s) ≡ some (j, t) = sym p ∙ q in
      (
        ap (λ (x : String × Stored). x.0) (some-inj e),
        ap (λ (x : String × Stored). x.1) (some-inj e),
      )

  same_store :
      (r q : Resource) (s : Stored) (a b : ℕ)
      → s ≡ resource r
      → s ≡ resource q
      → r.requests ≡ some a
      → q.requests ≡ some b
      → a ≡ b
  same_store r q s a b e f g h = cc (e, f, g, h)

  -- On a consistent relay a method that left a well-formed cache, did not panic, and evicted nothing or a resource with a store, runs to
  -- its end with its callback and leaves the orchestrator consistent. With nothing evicted only the
  -- cache changes; with an eviction the watches of the requests registered with the evicted entry
  -- are closed, and the stream of its key is shut down.
  pub run_cache_lem :
      {A : Type 0} (r : Relay State) (e : Effect State A)
      → IsConsistent r
      → IsGood lru e
      → (r' : Relay State) × (run_cache r e ≡ ok (r', e.result))
        × IsConsistent r'
        × (r'.cache ≡ e.after)
        × (e.evicted ≡ none → r' ≡ record r { cache = e.after })
        × ((k : String) (res : Resource) (a : ℕ)
            → e.evicted ≡ some (k, resource res)
            → res.requests ≡ some a
            → Watches.Deletes (e.after.heap.cell a) r.downstream r'.downstream
              × Streams.Deletes k r.upstream r'.upstream)
  unfolding run_eviction
  run_cache_lem r e h good = elim (Option-cases e.evicted) [
    | inl kept ↦ (
      record r { cache = e.after },
      run_ok r _ e (rw kept refl) good.no_panic,
      record { cache = good.well_formed; downstream = h.downstream; upstream = h.upstream },
      refl,
      (λ _. refl),
      λ k res a p q. absurd (cc (p, kept)),
    )
    | inr ((k, s), gone) ↦
        let (res, a, same, points) = good.evicted_resource k s gone in
        let (r', runs, sound, cache, d, u) =
          on_cache_evicted_lem (record r { cache = e.after }) k res a
            (record { cache = good.well_formed; downstream = h.downstream; upstream = h.upstream })
            points in
        (
          r',
          run_ok r r' e (rw (gone, same) runs) good.no_panic,
          sound,
          cache,
          (λ p. absurd (cc (p, gone))),
          λ j t b p q.
              let (key, value) = eviction-inj e.evicted k j s (resource t) gone p in
              let at : a ≡ b = same_store res t s a b same value points q in
              (
                subst (λ n. Watches.Deletes (e.after.heap.cell n) r.downstream r'.downstream) at d,
                subst (λ n. Streams.Deletes n r.upstream r'.upstream) key u,
              ),
        )
  ]
