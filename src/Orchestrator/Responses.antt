-- ===== src/Orchestrator/Responses.antt =====
-- A response that watchUpstream receives (orchestrator.go): it is cached, and delivered to the
-- requests that are registered under its key.
use xds_relay.Prelude.{
  ℕ, ◌+◌, ◌≤◌, String, false, ◌≡◌, refl, sym, subst, ap, ◌∙◌, arith, none, some, inl, inr,
}
use xds_relay.Outcome.{ok}
use xds_relay.Transport.Response.{Response}
use xds_relay.Cache.Lru.{Lru}
use xds_relay.Cache.Resource.{Resource, Stored, resource, is_expired, get_expiration_time}
use xds_relay.Cache.Ops.{Cache, set_response, fetch, fetch_read, got}
use xds_relay.Cache.View.{IsWellFormed, watchers, watchers_of}
use xds_relay.Cache.Entries.{entry_cases}
use xds_relay.Cache.Keeps.{set_response-IsGood, fetch-IsGood}
use xds_relay.Cache.Reads.{set_response_lem, fetch_fresh}
use xds_relay.Orchestrator.Fanout.{Sends}
use xds_relay.Orchestrator.State.{Relay, run_cache}
use xds_relay.Orchestrator.Watching.{fanout_cached, on_response}
use xds_relay.Orchestrator.Consistency.{IsConsistent, run_cache_quiet, run_cache_lem}
use xds_relay.Orchestrator.Delivering.{fetch_points, fanout_cached_lem}

module _ (lru : Lru Stored) where
  open lru use {State, peek}

  set_existing :
      {c : Cache State} (wf : IsWellFormed lru c) (key : String) (x : Response) (now : ℕ)
      (s : Stored)
      → peek c.store key ≡ some s
      → (set_response lru c key x now).evicted ≡ none
  unfolding set_response
  set_existing {c} wf key x now s stored = elim (entry_cases lru wf key) [
    | inl absent ↦ absurd (cc (absent, stored))
    | inr (r, a, f) ↦
        rw (lru.get_value c.store key ∙ f.0, set_response)
          (lru.add_existing _ key _ (lru.get_keeps c.store key key ∙ stored))
  ]

  pub fetch_fresh_after :
      (c : Cache State) (key : String) (r : Resource) (now later : ℕ)
      → peek c.store key ≡ some (resource r)
      → is_expired r now ≡ false
      → (fetch lru c key now later).after ≡ got lru c key
  unfolding fetch fetch_read
  fetch_fresh_after c key r now later stored fresh =
      rw (lru.get_value c.store key ∙ stored, fetch, fresh) refl

  not_yet :
      (r : Resource) (ttl now first : ℕ)
      → r.expiration_time ≡ get_expiration_time ttl now
      → first ≤ now + ttl
      → is_expired r first ≡ false
  unfolding is_expired get_expiration_time
  not_yet r ttl now first e in_time = ground (arith, e)

  module _ (r : Relay State) (key : String) (x : Response) (now first second : ℕ)
      (h : IsConsistent lru r) where
    -- The rest of the method, after the response has been cached.
    after_set :
        (s : Relay State)
        → run_cache r (set_response lru r.cache key x now)
          ≡ ok (s, (set_response lru r.cache key x now).result)
        → IsConsistent lru s
        → (t r' : Relay State)
        → run_cache s (fetch lru s.cache key first second)
          ≡ ok (t, (fetch lru s.cache key first second).result)
        → fanout_cached lru t (fetch lru s.cache key first second).result ≡ ok r'
        → on_response lru r key x (now, first, second) ≡ ok r'
    unfolding on_response
    after_set s set good t r' fetched sent = rw (set, on_response, fetched) sent

    -- A response from the origin server never makes a consistent relay panic, and keeps it consistent,
    -- whatever is evicted on the way and whether or not the entry has expired already.
    pub on_response-IsConsistent :
        (r' : Relay State) × (on_response lru r key x (now, first, second) ≡ ok r')
        × IsConsistent lru r'
    on_response-IsConsistent =
        let (s, set, good, cache, quiet, evicts) =
          run_cache_lem lru r (set_response lru r.cache key x now) h
            (set_response-IsGood lru h.cache key x now) in
        let fetch_good = fetch-IsGood lru good.cache key first second in
        let (t, fetched, good', cache', quiet', evicts') =
          run_cache_lem lru s (fetch lru s.cache key first second) good fetch_good in
        let (r', sent, last, same, streams, sends) =
          fanout_cached_lem lru t (fetch lru s.cache key first second).result good'
            fetch_good.no_panic (fetch_points lru good.cache key first second) in
        (r', after_set s set good t r' fetched sent, last)

    -- In a consistent relay a response for a key that the cache holds, fetched back before its deadline, reaches every
    -- request that was registered under the key and has a watch: exactly this response is in its
    -- channel. No other watch is touched, no request gains or loses its watch, no stream is
    -- affected, and the key's entry holds the response.
    pub on_response-Sends :
        (old : Stored)
        → lru.peek r.cache.store key ≡ some old
        → first ≤ now + r.cache.ttl
        → (r' : Relay State) × (on_response lru r key x (now, first, second) ≡ ok r')
          × Sends x (watchers lru r.cache key) r.downstream r'.downstream
          × (r'.upstream ≡ r.upstream)
          × ((res : Resource) × (peek r'.cache.store key ≡ some (resource res))
              × (res.resp ≡ some x))
    on_response-Sends old stored in_time =
        let good = set_response-IsGood lru h.cache key x now in
        let (res, held, out, resp, deadline, same) = set_response_lem lru h.cache key x now in
        let fresh = not_yet res r.cache.ttl now first deadline in_time in
        let (a, points, inside) = good.well_formed.allocated key res held in
        let cached : IsConsistent lru
            (record r { cache = (set_response lru r.cache key x now).after }) =
          record { cache = good.well_formed; downstream = h.downstream; upstream = h.upstream } in
        let found =
          fetch_fresh lru (set_response lru r.cache key x now).after key res first second held
            fresh in
        let left =
          fetch_fresh_after (set_response lru r.cache key x now).after key res first second held
            fresh in
        let fetched = fetch-IsGood lru good.well_formed key first second in
        let (r', sent, last, cache, streams, sends) =
          fanout_cached_lem lru
            (record r {
              cache = (fetch lru (set_response lru r.cache key x now).after key first second).after;
            })
            (fetch lru (set_response lru r.cache key x now).after key first second).result
            (record {
              cache = fetched.well_formed;
              downstream = h.downstream;
              upstream = h.upstream;
            })
            fetched.no_panic (fetch_points lru good.well_formed key first second) in
        (
          r',
          after_set _
              (run_cache_quiet lru r _ (set_existing h.cache key x now old stored) good.no_panic)
              cached _ r' (run_cache_quiet lru _ _ found.1 fetched.no_panic) sent,
          subst (λ l. Sends x l r.downstream r'.downstream)
              (ap (λ (c : Cache State). c.heap.cell a) left
                ∙ ap (watchers_of (set_response lru r.cache key x now).after.heap) (sym points)
                ∙ same)
              (sends res a x found.0 points resp),
          streams,
          (
            res,
            ap (λ (c : Cache State). peek c.store key) (cache ∙ left)
                ∙ lru.get_keeps _ key key
                ∙ held,
            resp,
          ),
        )
