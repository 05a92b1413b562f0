-- ===== src/Orchestrator/Watching.antt =====
-- The orchestrator's methods (orchestrator.go): CreateWatch, the cancel function that it returns,
-- ClearCacheEntries, and the cases of watchUpstream's `select`.
use xds_relay.Prelude.{ℕ, String, Bool, true, Option, none, some, List, [], ◌∷◌}
use xds_relay.Outcome.{Outcome, ok, err, panic, ◌>>=◌, map_ok}
use xds_relay.Transport.Request.{Request}
use xds_relay.Transport.Response.{Response}
use xds_relay.Cache.Lru.{Lru}
use xds_relay.Cache.Resource.{Resource, Stored}
use xds_relay.Cache.Requests.{for_each}
use xds_relay.Cache.Ops.{fetch, set_response, add_request, delete_request, delete_key}
use xds_relay.Orchestrator.Downstream
use xds_relay.Orchestrator.Upstream
use xds_relay.Orchestrator.Upstream.{UpstreamChannel}
use xds_relay.Orchestrator.State.{
  Relay, on_cache_evicted, run_cache, give_up, push_cached, ensure_upstream, fanout,
}

module _ (lru : Lru Stored) where
  open lru use {State}

  -- CreateWatch after the key is known: `watch` is the request's.
  unfoldable pub register_watch :
      Relay State
      → ℕ
      → Request
      → ℕ
      → String
      → (ℕ × ℕ × ℕ)
      → Outcome (Relay State × (Option ℕ × Bool))
  unfolding add_request run_cache give_up fetch push_cached ensure_upstream
  register_watch r addr req watch key (now, first, second) =
      run_cache r (add_request lru r.cache key addr now) >>= λ p. elim p.1 [
        | err e ↦ give_up p.0 addr
        | panic ↦ panic
        | ok _ ↦ run_cache p.0 (fetch lru p.0.cache key first second) >>= λ q.
            ok (ensure_upstream (push_cached q.0 watch req q.1) key, (some watch, true))
      ]

  -- CreateWatch: the watch, if there is one, and whether a cancel function comes with it. The three
  -- times are those of AddRequest and of Fetch's two tests.
  unfoldable pub create_watch :
      (Request → Outcome String)
      → Relay State
      → ℕ
      → Request
      → (ℕ × ℕ × ℕ)
      → Outcome (Relay State × (Option ℕ × Bool))
  unfolding Downstream.find_or_create register_watch give_up
  create_watch get_key r addr req times =
      let p = Downstream.find_or_create r.downstream addr req in
      let r' = record r { downstream = p.0 } in
      elim (get_key req) [
        | err e ↦ give_up r' addr
        | panic ↦ panic
        | ok key ↦ register_watch r' addr req p.1 key times
      ]

  -- onCancelWatch. An error of DeleteRequest is logged.
  unfoldable pub cancel_watch : Relay State → String → ℕ → Outcome (Relay State)
  unfolding Downstream.delete delete_request run_cache
  cancel_watch r key addr = Downstream.delete r.downstream addr >>= λ p.
      run_cache (record r { downstream = p.0 }) (delete_request lru r.cache key addr) >>= λ q.
      ok q.0

  -- ClearCacheEntries: the errors of the keys that are not there.
  unfoldable pub clear_cache_entries :
      Relay State → List String → Outcome (Relay State × List String)
  unfolding delete_key run_cache
  clear_cache_entries r [] = ok (r, [])
  clear_cache_entries r (key ∷ keys) = run_cache r (delete_key lru r.cache key) >>= λ p.
      clear_cache_entries p.0 keys >>= λ q. elim p.1 [
        | err e ↦ ok (q.0, e ∷ q.1)
        | ok _ ↦ ok q
        | panic ↦ panic
      ]

  -- The fan-out of what Fetch returned; with no response there is nothing to send.
  unfoldable pub fanout_cached : Relay State → Outcome (Option Resource) → Outcome (Relay State)
  unfolding for_each fanout
  fanout_cached r (ok (some res)) = elim res.resp [
    | none ↦ ok r
    | some resp ↦ for_each r.cache.heap res.requests >>= λ reqs.
        map_ok (λ d. record r { downstream = d }) (fanout r.downstream resp reqs)
  ]
  fanout_cached r (ok none) = ok r
  fanout_cached r (err e) = ok r
  fanout_cached r panic = panic

  -- watchUpstream receives a response: it is cached and what the cache then holds is fanned out.
  unfoldable pub on_response : Relay State → String → Response → (ℕ × ℕ × ℕ) → Outcome (Relay State)
  unfolding set_response fetch run_cache fanout_cached
  on_response r key x (now, first, second) =
      run_cache r (set_response lru r.cache key x now) >>= λ p.
      run_cache p.0 (fetch lru p.0.cache key first second) >>= λ q. fanout_cached q.0 q.1

  -- watchUpstream finds the response channel closed. Without an error from Fetch its result is
  -- dereferenced, and it may be nil.
  unfoldable pub on_upstream_closed : Relay State → String → (ℕ × ℕ) → Outcome (Relay State)
  unfolding fetch run_cache on_cache_evicted
  on_upstream_closed r key (first, second) =
      run_cache r (fetch lru r.cache key first second) >>= λ p. elim p.1 [
        | err e ↦ ok p.0
        | panic ↦ panic
        | ok f ↦ elim f [ none ↦ panic | some res ↦ on_cache_evicted p.0 key res ]
      ]

  -- watchUpstream is told to stop: the stream is shut down.
  unfoldable pub on_done : Relay State → UpstreamChannel → Relay State
  on_done r c = record r { cancelled = c.response ∷ r.cancelled }

  -- shutdown, when the context is done.
  unfoldable pub shutdown : Relay State → Outcome (Relay State)
  unfolding Upstream.delete_all
  shutdown r = map_ok (λ u. record r { upstream = u }) (Upstream.delete_all r.upstream)
