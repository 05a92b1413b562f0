-- ===== src/Tests/Fixtures.antt =====
-- The data of the tests: requests, a mapper configuration, caches and relays.
use xds_relay.Prelude.{
  inl, ℕ, String, true, false, ◌≡◌, refl, sym, ap, ◌∙◌, arith, Option, none, some, [], ◌∷◌, str_eq,
  if◌then◌else◌, eq_iff,
}
use xds_relay.Rules.{MatchPredicate, ResultPredicate, Rule, KeyerConfiguration}
use xds_relay.Transport.ResourceTypes.{ResourceTypes}
use xds_relay.Transport.Message.{DiscoveryRequest}
use xds_relay.Transport.Request.{Request, request_v2, request_v3}
use xds_relay.Transport.Response.{Response, response_v2}
use xds_relay.Transport.Watch.{create_watch}
use xds_relay.Transport.Delivery.{create_watch-IsOpen}
use xds_relay.Mapper.Regexp.{Regexp}
use xds_relay.Cache.Lru.{Lru}
use xds_relay.Cache.Resource.{Resource, Stored, resource, foreign}
use xds_relay.Cache.Ops.{Cache}
use xds_relay.Cache.View.{IsWellFormed}
use xds_relay.Cache.Single.{single, slot_peek}
use xds_relay.Orchestrator.Assoc.{lookup}
use xds_relay.Orchestrator.Downstream.{Downstream, get}
use xds_relay.Orchestrator.Upstream.{Upstream, UpstreamChannel}
use xds_relay.Orchestrator.Watches
use xds_relay.Orchestrator.Streams
use xds_relay.Orchestrator.State.{Relay}
use xds_relay.Orchestrator.Consistency.{IsConsistent}

abbrev pub types : ResourceTypes
types = record {
  v2 = record {
    endpoint = "e2";
    cluster = "c2";
    route = "r2";
    listener = "l2";
    secret = "s2";
    runtime = "t2";
  };
  v3 = record {
    endpoint = "e3";
    cluster = "c3";
    route = "r3";
    listener = "l3";
    secret = "s3";
    runtime = "t3";
  };
}

-- Patterns without metacharacters, matched against the whole text.
abbrev pub literal : Regexp
literal = record {
  compiles = λ p. true;
  matches = str_eq;
  replace_all = λ p s r. if str_eq p s then r else s;
}

abbrev pub message : String → DiscoveryRequest
message version = record {
  version_info = version;
  node = none;
  resource_names = "a" ∷ [];
  type_url = "c2";
  response_nonce = version;
  error_detail = none;
}

abbrev pub first_request : Request
first_request = request_v2 (record { r = message "1" })

abbrev pub second_request : Request
second_request = request_v3 (record { r = message "2" })

abbrev pub rule : String → Rule
rule s = record {
  predicate = MatchPredicate.any_match true;
  result = some (ResultPredicate.string_fragment s);
}

-- Two rules that match, in one fragment and in two.
abbrev pub joined : KeyerConfiguration
joined = record { fragments = record { rules = rule "x" ∷ rule "y" ∷ [] } ∷ [] }

abbrev pub split : KeyerConfiguration
split = record {
  fragments = record { rules = rule "x" ∷ [] } ∷ record { rules = rule "y" ∷ [] } ∷ [];
}

abbrev pub response : String → Response
response version = response_v2 (record {
  req = message "";
  resp = record {
    version_info = version;
    resources = [];
    canary = false;
    type_url = "c2";
    nonce = "n";
    control_plane = none;
  };
})

abbrev pub lru : Lru Stored
lru = single Stored

-- An entry with a store and no response, past its deadline after 10.
abbrev pub pending : Resource
pending = record { resp = none; requests = some 0; expiration_time = 10 }

-- A cache with one key, "k", under which request 7 is registered.
abbrev pub one_cache : Cache (Option (String × Stored))
one_cache = record {
  store = some ("k", resource pending);
  heap = record { cell = λ a. 7 ∷ []; next = 1 };
  ttl = 5;
}

abbrev pub one_downstream : Downstream
one_downstream = record { watches = (7, 0) ∷ []; heap = λ a. create_watch first_request; next = 1 }

abbrev pub one_channel : UpstreamChannel
one_channel = record { response = 0; done = 0 }

abbrev pub one_upstream : Upstream
one_upstream = record { channels = ("k", one_channel) ∷ []; is_done = λ a. false; next = 1 }

abbrev pub one_relay : Relay (Option (String × Stored))
one_relay = record {
  cache = one_cache;
  downstream = one_downstream;
  upstream = one_upstream;
  tasks = [];
  next_stream = 1;
  cancelled = [];
}

pub stored_k : slot_peek one_cache.store "k" ≡ some (resource pending)
unfolding slot_peek
stored_k = refl

only_k :
    (k : String) (s : Stored)
    → slot_peek one_cache.store k ≡ some s
    → ("k" ≡ k) × (s ≡ resource pending)
unfolding slot_peek
only_k k s h = (ground (arith, eq_iff "k" k), ground arith)

pub one_cache-IsWellFormed : IsWellFormed lru one_cache
one_cache-IsWellFormed = record {
  no_foreign = λ k h. cc ((only_k k foreign h).1);
  allocated = λ k r h.
      let same : r ≡ pending = cc ((only_k k (resource r) h).1) in
      (0, ap (λ (x : Resource). x.requests) same, omega arith);
  unshared = λ k j r s h i e. sym (only_k k (resource r) h).0 ∙ (only_k j (resource s) i).0;
}

only_seven : (r a : ℕ) → get one_downstream r ≡ some a → (r ≡ 7) × (a ≡ 0)
unfolding get lookup
only_seven r a h = (ground arith, ground arith)

pub one_downstream-IsSound : Watches.IsSound one_downstream
one_downstream-IsSound = record {
  allocated = λ r a h. omega (arith, (only_seven r a h).1);
  unshared = λ r s a h i. (only_seven r a h).0 ∙ sym (only_seven s a i).0;
  live = λ r a h. create_watch-IsOpen first_request;
  whole = λ a. inl (create_watch-IsOpen first_request);
}

only_channel :
    (k : String) (c : UpstreamChannel)
    → Streams.find one_upstream k ≡ some c
    → ("k" ≡ k) × (c.done ≡ 0)
unfolding lookup
only_channel k c h = (ground (arith, eq_iff "k" k), ground arith)

pub one_upstream-IsSound : Streams.IsSound one_upstream
unfolding lookup
one_upstream-IsSound = record {
  allocated = λ k c h. omega (arith, (only_channel k c h).1);
  pending = λ k c h. refl;
  fresh = λ a h. absurd (cc h);
  unshared = λ k j c e h i p. sym (only_channel k c h).0 ∙ (only_channel j e i).0;
  distinct = (refl, tt);
}

pub one_relay-IsConsistent : IsConsistent lru one_relay
one_relay-IsConsistent = record {
  cache = one_cache-IsWellFormed;
  downstream = one_downstream-IsSound;
  upstream = one_upstream-IsSound;
}
