-- ===== src/Admin/Readings.antt =====
-- What FetchReadOnly does to the orchestrator when a handler reads a key (cache.go, orchestrator.go).
use xds_relay.Prelude.{ℕ, String, append, true, false, ◌≡◌, refl, ap, ◌∙◌, none, some}
use xds_relay.Outcome.{ok, err}
use xds_relay.Cache.Lru.{Lru}
use xds_relay.Cache.Resource.{Resource, Stored, resource, is_expired}
use xds_relay.Cache.Ops.{Cache, got, fetch, fetch_read, fetch_read_only, resource_or_zero}
use xds_relay.Cache.Keeps.{fetch_read_only-IsGood}
use xds_relay.Cache.Reads.{fetch_expired}
use xds_relay.Orchestrator.State.{Relay, run_cache, run_eviction, report}
use xds_relay.Orchestrator.Consistency.{IsConsistent, run_cache_lem}

module _ (lru : Lru Stored) where
  open lru use {State, peek}

  abbrev pub touched : Relay State → String → Relay State
  touched r key = record r { cache = got lru r.cache key }

  -- A key that is not there is an error.
  pub read_absent :
      (r : Relay State) (key : String) (now later : ℕ)
      → peek r.cache.store key ≡ none
      → run_cache r (fetch_read_only lru r.cache key now later)
        ≡ ok (touched r key, err (append "no value found for key: " key))
  unfolding fetch_read_only fetch fetch_read run_cache run_eviction report
  read_absent r key now later absent =
      rw (lru.get_value r.cache.store key ∙ absent, fetch_read_only, fetch, fetch_read) refl

  -- An entry that is not past its deadline is returned, and nothing is evicted.
  pub read_fresh :
      (r : Relay State) (key : String) (res : Resource) (now later : ℕ)
      → peek r.cache.store key ≡ some (resource res)
      → is_expired res now ≡ false
      → run_cache r (fetch_read_only lru r.cache key now later) ≡ ok (touched r key, ok res)
  unfolding fetch_read_only fetch fetch_read run_cache run_eviction report
  read_fresh r key res now later stored fresh =
      rw (lru.get_value r.cache.store key ∙ stored, fetch_read_only, fetch, fetch_read, fresh) refl

  -- The zero resource, which FetchReadOnly returns without an error for an entry that it evicts.
  abbrev pub zero_resource : Resource
  zero_resource = record { resp = none; requests = none; expiration_time = 0 }

  -- An entry that is past its deadline at both readings is evicted, with its watches and its stream,
  -- and what is returned without an error is the zero resource.
  pub read_expired :
      (r : Relay State) (key : String) (res : Resource) (now later : ℕ)
      → IsConsistent lru r
      → peek r.cache.store key ≡ some (resource res)
      → is_expired res now ≡ true
      → is_expired res later ≡ true
      → (r' : Relay State) × (run_cache r (fetch_read_only lru r.cache key now later)
          ≡ ok (r', ok zero_resource))
        × IsConsistent lru r'
        × (peek r'.cache.store key ≡ none)
  unfolding fetch_read_only
  read_expired r key res now later h stored first second =
      let (none_left, evicts, gone) =
        fetch_expired lru r.cache key res now later stored first second in
      let (r', runs, sound, cache, quiet, closes) =
        run_cache_lem lru r (fetch_read_only lru r.cache key now later) h
          (fetch_read_only-IsGood lru h.cache key now later) in
      (
        r',
        runs ∙ ap (λ o. ok (r', resource_or_zero lru o)) none_left,
        sound,
        ap (λ (c : Cache State). peek c.store key) cache ∙ gone,
      )
