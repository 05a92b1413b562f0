-- ===== src/Admin/Entries.antt =====
-- The dump and the clearing of the cache (admin/http/cache.go). `clock` gives the two readings of the
-- clock that Fetch makes for a key.
use xds_relay.Prelude.{
  ◌⊎◌, inl, inr, ℕ, String, append, Bool, Option, none, some, List, [], ◌∷◌, ◌++◌, length, str_eq,
  if◌then◌else◌,
}
use xds_relay.Outcome.{Outcome, ok, err, panic, ◌>>=◌, map_ok}
use xds_relay.Transport.Message.{AnyResource, DiscoveryResponse}
use xds_relay.Transport.ResourceTypes.{ResourceTypes}
use xds_relay.Transport.Response.{Response, get}
use xds_relay.Cache.Lru.{Lru}
use xds_relay.Cache.Resource.{Resource, Stored}
use xds_relay.Cache.Requests.{Heap, for_each}
use xds_relay.Cache.Ops.{fetch_read_only}
use xds_relay.Orchestrator.State.{Relay, run_cache}
use xds_relay.Orchestrator.Watching.{clear_cache_entries}
use xds_relay.Admin.Paths.{cache_url, clear_url, get_param}
use xds_relay.Admin.Resources.{Api, Kind, marshal_resources}
use xds_relay.Admin.Reply.{
  Reply, write, write_header, MarshalledDiscoveryResponse, MarshallableResource, Payload, error,
  cache, text_or_empty,
}
use xds_relay.Admin.Keys.{get_relevant_keys}

module _ (types : ResourceTypes) {M : Type 0}
    (unmarshal_any : Api → Kind → AnyResource → Option M) where
  -- The body of a response of either version.
  unfoldable pub marshal_body : DiscoveryResponse → MarshalledDiscoveryResponse M
  unfolding marshal_resources
  marshal_body resp = record {
    version_info = resp.version_info;
    resources = marshal_resources types unmarshal_any resp.resources;
    canary = resp.canary;
    type_url = resp.type_url;
    nonce = resp.nonce;
    control_plane = resp.control_plane;
  }

  unfoldable pub marshal_discovery_response :
      Option Response → Outcome (Option (MarshalledDiscoveryResponse M))
  unfolding marshal_body
  marshal_discovery_response none = ok none
  marshal_discovery_response (some r) = elim (get r).v2 [
    | some resp ↦ ok (some (marshal_body resp))
    | none ↦ elim (get r).v3 [ some resp ↦ ok (some (marshal_body resp)) | none ↦ panic ]
  ]

  -- A request is its address here: the raw message of its version, which is printed for it, is left
  -- out.
  unfoldable pub resource_to_payload :
      Heap → String → Resource → Bool → Outcome (MarshallableResource M)
  unfolding for_each marshal_discovery_response
  resource_to_payload heap key res is_verbose = for_each heap res.requests >>= λ requests.
      marshal_discovery_response res.resp >>= λ resp. ok (record {
        key = key;
        resp = resp;
        requests = if is_verbose then requests else [];
        num_requests = length requests;
        expiration_time = res.expiration_time;
      })

  -- What a key adds to the dump; an error of FetchReadOnly adds nothing.
  abbrev pub payload_of :
      Heap → String → Bool → Outcome Resource → Outcome (List (MarshallableResource M))
  payload_of heap key is_verbose (ok res) =
      map_ok (λ x. x ∷ []) (resource_to_payload heap key res is_verbose)
  payload_of heap key is_verbose (err e) = ok []
  payload_of heap key is_verbose panic = panic

  module _ (lru : Lru Stored) (clock : String → ℕ × ℕ) where
    open lru use {State}

    -- The loop over the keys.
    unfoldable pub collect_entries :
        Relay State → Bool → List String → Outcome (Relay State × List (MarshallableResource M))
    unfolding fetch_read_only run_cache resource_to_payload
    collect_entries r is_verbose [] = ok (r, [])
    collect_entries r is_verbose (key ∷ keys) =
        run_cache r (fetch_read_only lru r.cache key (clock key).0 (clock key).1) >>= λ p.
        payload_of p.0.cache.heap key is_verbose p.1 >>= λ first.
        collect_entries p.0 is_verbose keys >>= λ q. ok (q.0, first ++ q.1)

    module _ (interface_to_string : Payload M → String ⊎ String) where
      -- The end of printCacheEntries: nothing is printed for an empty dump.
      unfoldable pub print_entries : List (MarshallableResource M) → Reply → Reply
      print_entries entries w = elim (interface_to_string (cache entries)) [
        | inl e ↦ write "unable to convert resource to string.\n" (write_header 500 w)
        | inr s ↦ elim entries [ [] ↦ w | _ ∷ _ ↦ write (append s "\n") w ]
      ]

      unfoldable pub print_cache_entries :
          Relay State → List String → Bool → Reply → Outcome (Relay State × Reply)
      unfolding collect_entries print_entries
      print_cache_entries r keys is_verbose w =
          map_ok (λ p. (p.0, print_entries p.1 w)) (collect_entries r is_verbose keys)

      -- `keys` is what GetDownstreamAggregatedKeys returns.
      unfoldable pub cache_dump_handler :
          Relay State
          → Outcome (List String)
          → String
          → Bool
          → Reply
          → Outcome (Relay State × Reply)
      unfolding get_param get_relevant_keys print_cache_entries
      cache_dump_handler r keys path is_verbose w =
          get_relevant_keys interface_to_string keys (get_param path cache_url) w >>= λ p.
          elim p.0 [
            | none ↦ ok (r, p.1)
            | some to_print ↦ print_cache_entries r to_print is_verbose p.1
          ]

module _ {M : Type 0} (interface_to_string : Payload M → String ⊎ String) (lru : Lru Stored) where
  open lru use {State}

  abbrev pub concat : List String → String
  concat [] = ""
  concat (e ∷ es) = append e (concat es)

  abbrev pub write_errors : List String → Reply → Reply
  write_errors [] w = w
  write_errors (e ∷ es) w = write (text_or_empty (interface_to_string (error (concat (e ∷ es))))) w

  unfoldable pub clear_entries : Relay State → List String → Reply → Outcome (Relay State × Reply)
  unfolding clear_cache_entries
  clear_entries r keys w = map_ok (λ p. (p.0, write_errors p.1 w)) (clear_cache_entries lru r keys)

  unfoldable pub clear_cache_handler :
      Relay State → Outcome (List String) → String → String → Reply → Outcome (Relay State × Reply)
  unfolding get_param get_relevant_keys clear_entries
  clear_cache_handler r keys method path w =
      if str_eq method "POST"
      then (get_relevant_keys interface_to_string keys (get_param path clear_url) w >>= λ p.
          elim p.0 [ none ↦ ok (r, p.1) | some to_clear ↦ clear_entries r to_clear p.1 ])
      else ok (r, write_header 405 w)
