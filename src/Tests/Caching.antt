-- ===== src/Tests/Caching.antt =====
-- The cache, on the data of Fixtures.
use xds_relay.Prelude.{String}
use xds_relay.Cache.View.{IsWellFormed}
use xds_relay.Cache.Spec.{
  Call, adding_request, setting_response, fetching, AllowsAll, answers, abstraction, after_calls,
}
use xds_relay.Cache.Refines.{after_calls-refines}
use xds_relay.Prelude.{List, [], ◌∷◌}
use xds_relay.Tests.Fixtures.{response, lru, one_cache, one_cache-IsWellFormed}

-- A request under another key, which evicts the only entry of this LRU cache, and a response for it.
abbrev calls : List (String × Call)
calls =
    ("j", adding_request 8 3) ∷ ("j", setting_response (response "1") 4) ∷ ("k", fetching 5 6) ∷ []

after_calls-refines_example :
    AllowsAll 5 calls
      (answers lru one_cache calls)
      (abstraction lru one_cache)
      (abstraction lru (after_calls lru one_cache calls))
    × IsWellFormed lru (after_calls lru one_cache calls)
after_calls-refines_example = after_calls-refines lru calls one_cache one_cache-IsWellFormed
