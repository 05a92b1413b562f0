-- ===== src/Orchestrator/Histories.antt =====
-- The orchestrator as a state machine: a new one (New in orchestrator.go), one step for each call of
-- a method, each case of watchUpstream, each read through GetReadOnlyCache and each of the goroutines that
-- push a cached response or shut the streams down, and the states that steps in any order lead to.
use xds_relay.Prelude.{
  ℕ, String, false, ◌≡◌, ◌≢◌, refl, sym, subst, ap, ◌∙◌, ◌⊎◌, inl, inr, none, List, [], ◌∷◌, arith,
  Option-cases,
}
use xds_relay.Prelude.Int.{ℤ}
use xds_relay.Outcome.{Outcome, ok, panic, map_ok, Outcome-cases, ok-inj}
use xds_relay.Transport.Request.{Request}
use xds_relay.Transport.Response.{Response}
use xds_relay.Transport.Watch.{watch_v2}
use xds_relay.Transport.WatchV2.{new_watch}
use xds_relay.Cache.Lru.{Lru}
use xds_relay.Cache.Resource.{Stored}
use xds_relay.Cache.Ops.{new_cache, fetch, fetch_read_only}
use xds_relay.Cache.Keeps.{fetch-IsGood, fetch_read_only-IsGood}
use xds_relay.Orchestrator.Assoc.{lookup}
use xds_relay.Orchestrator.Downstream.{get}
use xds_relay.Orchestrator.Upstream.{UpstreamChannel}
use xds_relay.Orchestrator.State.{Relay, await_shutdown, run_cache, push_response}
use xds_relay.Orchestrator.Watching.{
  create_watch, cancel_watch, clear_cache_entries, on_response, on_upstream_closed, on_done,
  shutdown,
}
use xds_relay.Orchestrator.Consistency.{IsConsistent, on_cache_evicted_lem, run_cache_lem}
use xds_relay.Orchestrator.Fanout.{push_response_lem}
use xds_relay.Orchestrator.Shutdowns.{delete_all_lem}
use xds_relay.Orchestrator.Opening.{create_watch_lem}
use xds_relay.Orchestrator.Delivering.{fetch_points}
use xds_relay.Orchestrator.Responses.{on_response-IsConsistent}
use xds_relay.Orchestrator.Closing.{cancel_watch_lem, clear_cache_entries_lem}

-- A watch that is pushed to, and what is received, are any at all, which allows more than the
-- goroutines do. A request is an address with what it says; a pair or triple of times are the clock's readings.
pub data Event : Type 0 where
  watch_created : ℕ → Request → (ℕ × ℕ × ℕ) → Event
  watch_cancelled : String → ℕ → Event
  cleared : List String → Event
  received : String → Response → (ℕ × ℕ × ℕ) → Event
  upstream_closed : String → (ℕ × ℕ) → Event
  stopped : UpstreamChannel → Event
  read : String → (ℕ × ℕ) → Event
  pushed : ℕ → Response → Event
  shut_down : Event

module _ (lru : Lru Stored) where
  open lru use {State, peek}

  -- The greatest number of entries is the LRU cache's.
  unfoldable pub new_relay : ℤ → Outcome (Relay State)
  unfolding new_cache new_watch
  new_relay ttl =
      map_ok
        (λ c. record {
          cache = c;
          downstream = record { watches = []; heap = λ a. watch_v2 new_watch; next = 0 };
          upstream = record { channels = []; is_done = λ a. false; next = 0 };
          tasks = await_shutdown ∷ [];
          next_stream = 0;
          cancelled = [];
        })
        (new_cache lru ttl)

  pub new_relay-IsConsistent :
      (ttl : ℤ) (r : Relay State) → new_relay ttl ≡ ok r → IsConsistent lru r
  unfolding new_relay new_cache get lookup
  new_relay-IsConsistent (ℤ.negsuc n) r made = absurd (cc made)
  new_relay-IsConsistent (ℤ.pos n) r made = subst (IsConsistent lru) (ok-inj made) (record {
    cache = record {
      no_foreign = λ k p. cc (lru.peek-empty k, p);
      allocated = λ k s p. absurd (cc (lru.peek-empty k, p));
      unshared = λ k j s t p q e. absurd (cc (lru.peek-empty k, p));
    };
    downstream = record {
      allocated = λ s a p. absurd (cc p);
      unshared = λ s t a p q. absurd (cc p);
      live = λ s a p. absurd (cc p);
      whole = λ a. inl (record { flag = refl; channel = refl; fits = omega arith });
    };
    upstream = record {
      allocated = λ k c p. absurd (cc p);
      pending = λ k c p. absurd (cc p);
      fresh = λ a p. absurd (cc p);
      unshared = λ k j c e p q same. absurd (cc p);
      distinct = tt;
    };
  })

  module _ (get_key : Request → Outcome String) where
    unfoldable pub step : Relay State → Event → Outcome (Relay State)
    unfolding create_watch cancel_watch clear_cache_entries on_response on_upstream_closed on_done
        fetch_read_only run_cache push_response shutdown
    step r (watch_created addr req times) =
        map_ok (λ p. p.0) (create_watch lru get_key r addr req times)
    step r (watch_cancelled key addr) = cancel_watch lru r key addr
    step r (cleared keys) = map_ok (λ p. p.0) (clear_cache_entries lru r keys)
    step r (received key x times) = on_response lru r key x times
    step r (upstream_closed key times) = on_upstream_closed lru r key times
    step r (stopped c) = ok (on_done lru r c)
    step r (read key times) =
        map_ok (λ p. p.0) (run_cache r (fetch_read_only lru r.cache key times.0 times.1))
    step r (pushed watch resp) =
        map_ok (λ d. record r { downstream = d }) (push_response r.downstream watch resp)
    step r shut_down = shutdown lru r

    -- The one event that dereferences nil: a closed response channel for which Fetch finds nothing
    -- to return and no error.
    abbrev pub Dereferences : Relay State → Event → Type 0
    Dereferences r (upstream_closed key times) =
        (fetch lru r.cache key times.0 times.1).result ≡ ok none
    Dereferences r _ = ⊥

    on_upstream_closed_cases :
        (r : Relay State) (key : String) (times : ℕ × ℕ)
        → IsConsistent lru r
        → ((r' : Relay State) × (on_upstream_closed lru r key times ≡ ok r') × IsConsistent lru r')
          ⊎ ((on_upstream_closed lru r key times ≡ panic)
              × Dereferences r (upstream_closed key times))
    unfolding on_upstream_closed
    on_upstream_closed_cases r key (first, second) h =
        let good = fetch-IsGood lru h.cache key first second in
        let (s, runs, sound, cache, quiet, evicts) =
          run_cache_lem lru r (fetch lru r.cache key first second) h good in
        elim (Outcome-cases (fetch lru r.cache key first second).result good.no_panic) [
          | inr (e, failed) ↦ inl (s, rw (on_upstream_closed, runs, failed) refl, sound)
          | inl (o, found) ↦ elim (Option-cases o) [
            | inl nothing ↦
                inr (rw (on_upstream_closed, runs, found, nothing) refl, found ∙ ap ok nothing)
            | inr (res, some_res) ↦
                let (a, points) =
                  fetch_points lru h.cache key first second res (found ∙ ap ok some_res) in
                let (r', evicts, last, same, watches, streams) =
                  on_cache_evicted_lem lru s key res a sound points in
                inl (r', rw (on_upstream_closed, runs, found, some_res) evicts, last)
          ]
        ]

    -- From a consistent state every event, reads that evict, the push of a cached response to any watch and
    -- the shutdown included, leads to a consistent state, for a mapper that does not
    -- panic; but for a closed response channel for which Fetch returns nil without an error, and
    -- that panics.
    pub step-IsConsistent :
        (r : Relay State) (e : Event)
        → IsConsistent lru r
        → ((req : Request) → get_key req ≢ panic)
        → ((r' : Relay State) × (step r e ≡ ok r') × IsConsistent lru r')
          ⊎ ((step r e ≡ panic) × Dereferences r e)
    unfolding step shutdown
    step-IsConsistent r (watch_created addr req times) h safe =
        let (r', out, runs, last, w, keyed, failed) =
          create_watch_lem lru get_key r addr req times h (safe req) in
        inl (r', rw (runs, step) refl, last)
    step-IsConsistent r (watch_cancelled key addr) h safe =
        let (r', runs, last, ds, ws, es, others, us) = cancel_watch_lem lru r key addr h in
        inl (r', runs, last)
    step-IsConsistent r (cleared keys) h safe =
        let (r', errors, runs, last, gone, kept) = clear_cache_entries_lem lru r keys h in
        inl (r', rw (runs, step) refl, last)
    step-IsConsistent r (received key x (now, first, second)) h safe =
        inl (on_response-IsConsistent lru r key x now first second h)
    step-IsConsistent r (upstream_closed key times) h safe = on_upstream_closed_cases r key times h
    step-IsConsistent r (stopped c) h safe = inl (
      on_done lru r c,
      refl,
      record { cache = h.cache; downstream = h.downstream; upstream = h.upstream },
    )
    step-IsConsistent r (read key times) h safe =
        let good = fetch_read_only-IsGood lru h.cache key times.0 times.1 in
        let (s, runs, sound, cache, quiet, evicts) =
          run_cache_lem lru r (fetch_read_only lru r.cache key times.0 times.1) h good in
        inl (s, rw (runs, step) refl, sound)
    step-IsConsistent r (pushed watch resp) h safe =
        let (d, runs, sound) = push_response_lem r.downstream watch resp h.downstream in
        inl (
          record r { downstream = d },
          rw (runs, step) refl,
          record { cache = h.cache; downstream = sound; upstream = h.upstream },
        )
    step-IsConsistent r shut_down h safe =
        let (u, runs, sound, empty) = delete_all_lem r.upstream h.upstream in
        inl (
          record r { upstream = u },
          rw (shutdown, runs) refl,
          record { cache = h.cache; downstream = h.downstream; upstream = sound },
        )

    -- The states that events lead to from a new relay.
    pub data Reaches (ttl : ℤ) : Relay State → Type 0 where
      fresh : {r : Relay State} → new_relay ttl ≡ ok r → Reaches ttl r
      next : {r r' : Relay State} (e : Event) → Reaches ttl r → step r e ≡ ok r' → Reaches ttl r'

    -- Every state that events in any order lead to from a new relay is consistent, for a mapper that
    -- does not panic: its cache is well formed, each request has one watch, which is open, and each
    -- key one stream, which is not shut down.
    pub Reaches-IsConsistent :
        (ttl : ℤ) (r : Relay State)
        → Reaches ttl r
        → ((req : Request) → get_key req ≢ panic)
        → IsConsistent lru r
    Reaches-IsConsistent ttl r (Reaches.fresh made) safe = new_relay-IsConsistent ttl r made
    Reaches-IsConsistent ttl r (Reaches.next {r = s} e reached steps) safe =
        elim (step-IsConsistent s e (Reaches-IsConsistent ttl s reached safe) safe) [
          | inl (t, runs, last) ↦ subst (IsConsistent lru) (ok-inj (sym runs ∙ steps)) last
          | inr (panics, why) ↦ absurd (cc (panics, steps))
        ]
