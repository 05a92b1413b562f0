-- ===== src/Admin/Dumping.antt =====
-- What the dump of the cache contains (admin/http/cache.go: printCacheEntries).
use xds_relay.Prelude.{
  ◌≢◌, String-cases, Option-cases, eq_iff, arith, All, ℕ, String, append, Bool, true, false, ◌≡◌,
  refl, sym, ap, ◌∙◌, subst, ◌⊎◌, inl, inr, Option, none, some, List, [], ◌∷◌, ◌++◌, length,
  if◌then◌else◌, fun_ext,
}
use xds_relay.Outcome.{Outcome, ok, err, panic}
use xds_relay.Transport.Message.{AnyResource}
use xds_relay.Transport.ResourceTypes.{ResourceTypes}
use xds_relay.Transport.Response.{Response, response_v2, response_v3}
use xds_relay.Cache.Lru.{Lru}
use xds_relay.Cache.Resource.{Resource, Stored, resource, is_expired}
use xds_relay.Cache.Requests.{Heap, for_each}
use xds_relay.Cache.Ops.{Cache, fetch_read_only}
use xds_relay.Cache.Removals.{fetch-IsFramed, fetch_evicts_own}
use xds_relay.Cache.View.{as_resource, watchers_of}
use xds_relay.Orchestrator.State.{Relay, run_cache}
use xds_relay.Orchestrator.Consistency.{IsConsistent, run_cache_lem}
use xds_relay.Cache.Keeps.{fetch_read_only-IsGood}
use xds_relay.Orchestrator.Downstream.{has_key}
use xds_relay.Admin.Resources.{Api, Kind}
use xds_relay.Admin.Reply.{MarshalledDiscoveryResponse, MarshallableResource}
use xds_relay.Admin.Entries.{
  marshal_body, marshal_discovery_response, resource_to_payload, payload_of, collect_entries,
}
use xds_relay.Admin.Readings.{touched, read_absent, read_fresh, read_expired}

module _ (types : ResourceTypes) {M : Type 0}
    (unmarshal_any : Api → Kind → AnyResource → Option M) where
  abbrev pub response_view : Option Response → Option (MarshalledDiscoveryResponse M)
  response_view none = none
  response_view (some (response_v2 r)) = some (marshal_body types unmarshal_any r.resp)
  response_view (some (response_v3 r)) = some (marshal_body types unmarshal_any r.resp)

  abbrev pub entry_view : Heap → String → Resource → Bool → MarshallableResource M
  entry_view heap key res is_verbose =
      let requests = watchers_of heap res.requests in
      record {
        key = key;
        resp = response_view res.resp;
        requests = if is_verbose then requests else [];
        num_requests = length requests;
        expiration_time = res.expiration_time;
      }

  abbrev pub views : Heap → String → Option Resource → Bool → List (MarshallableResource M)
  views heap key none is_verbose = []
  views heap key (some res) is_verbose = entry_view heap key res is_verbose ∷ []

  -- The entries that are stored under the keys, in the order of the keys.
  unfoldable pub listing :
      (String → Option Stored) → Heap → Bool → List String → List (MarshallableResource M)
  listing peek heap is_verbose [] = []
  listing peek heap is_verbose (key ∷ keys) =
      views heap key (as_resource (peek key)) is_verbose ++ listing peek heap is_verbose keys

  marshal_discovery_response_lem :
      (o : Option Response)
      → marshal_discovery_response types unmarshal_any o ≡ ok (response_view o)
  unfolding marshal_discovery_response
  marshal_discovery_response_lem none = refl
  marshal_discovery_response_lem (some (response_v2 r)) = refl
  marshal_discovery_response_lem (some (response_v3 r)) = refl

  resource_to_payload_lem :
      (heap : Heap) (key : String) (res : Resource) (a : ℕ) (v : Bool)
      → res.requests ≡ some a
      → resource_to_payload types unmarshal_any heap key res v ≡ ok (entry_view heap key res v)
  unfolding resource_to_payload for_each
  resource_to_payload_lem heap key res a v points =
      rw (points, resource_to_payload, marshal_discovery_response_lem res.resp) refl

  module _ (lru : Lru Stored) (clock : String → ℕ × ℕ) where
    open lru use {State, peek}

    -- A key that is not stored, or whose entry has a store of requests and is not past its deadline
    -- when the key is read.
    abbrev pub IsReadable : (String → Option Stored) → String → Type 0
    IsReadable stored key =
        (stored key ≡ none)
        ⊎ ((res : Resource) × (a : ℕ) × (stored key ≡ some (resource res))
            × (res.requests ≡ some a)
            × (is_expired res (clock key).0 ≡ false))

    abbrev pub Dumps : Relay State → Bool → List String → Type 0
    Dumps r v keys =
        (r' : Relay State) × (collect_entries types unmarshal_any lru clock r v keys
          ≡ ok (r', listing (peek r.cache.store) r.cache.heap v keys))
        × (peek r'.cache.store ≡ peek r.cache.store)
        × (r'.cache.heap ≡ r.cache.heap)
        × (r'.downstream ≡ r.downstream)
        × (r'.upstream ≡ r.upstream)

    Dumps-cons :
        (r : Relay State) (v : Bool) (key : String) (keys : List String)
        → (result : Outcome Resource)
        → run_cache r (fetch_read_only lru r.cache key (clock key).0 (clock key).1)
          ≡ ok (touched lru r key, result)
        → payload_of types unmarshal_any r.cache.heap key v result
          ≡ ok (views r.cache.heap key (as_resource (peek r.cache.store key)) v)
        → Dumps (touched lru r key) v keys
        → Dumps r v (key ∷ keys)
    unfolding collect_entries listing
    Dumps-cons r v key keys result reads shown (r', runs, same, heap, down, up) =
        let kept : peek (touched lru r key).cache.store ≡ peek r.cache.store =
          fun_ext (λ j. lru.get_keeps r.cache.store key j) in
        (
          r',
          rw (collect_entries, reads, shown, runs)
              (ap
                (λ f. ok (
                  r',
                  views r.cache.heap key (as_resource (peek r.cache.store key)) v
                      ++ listing f r.cache.heap v keys,
                ))
                kept),
          same ∙ kept,
          heap,
          down,
          up,
        )

    -- A dump of keys none of whose entries is past its deadline lists exactly the entries that are
    -- stored under them, in the order of the keys, and changes nothing but the order of use.
    pub collect_entries_lem :
        (keys : List String) (r : Relay State) (v : Bool)
        → All (IsReadable (peek r.cache.store)) keys
        → Dumps r v keys
    unfolding collect_entries listing
    collect_entries_lem [] r v h = (r, refl, refl, refl, refl, refl)
    collect_entries_lem (key ∷ keys) r v h =
        let rest = collect_entries_lem keys (touched lru r key) v (
          subst (λ f. All (IsReadable f) keys)
            (sym (fun_ext (λ j. lru.get_keeps r.cache.store key j))) h.1) in
        elim h.0 [
          | inl absent ↦
              Dumps-cons r v key keys (err (append "no value found for key: " key))
                (read_absent lru r key (clock key).0 (clock key).1 absent) (rw absent refl) rest
          | inr (res, a, stored, points, fresh) ↦
              Dumps-cons r v key keys (ok res)
                (read_fresh lru r key res (clock key).0 (clock key).1 stored fresh)
                (rw (stored, resource_to_payload_lem r.cache.heap key res a v points) refl) rest
        ]

    -- The dump goes on with the other keys or has panicked already.
    goes_on :
        (r r' : Relay State) (v : Bool) (key : String) (keys : List String)
        (result : Outcome Resource)
        → run_cache r (fetch_read_only lru r.cache key (clock key).0 (clock key).1)
          ≡ ok (r', result)
        → collect_entries types unmarshal_any lru clock r' v keys ≡ panic
        → (shown : Outcome (List (MarshallableResource M)))
        → payload_of types unmarshal_any r'.cache.heap key v result ≡ shown
        → ((e : String) → shown ≢ err e)
        → collect_entries types unmarshal_any lru clock r v (key ∷ keys) ≡ panic
    unfolding collect_entries
    goes_on r r' v key keys result reads later (ok l) shows safe =
        rw (collect_entries, reads, shows, later) refl
    goes_on r r' v key keys result reads later panic shows safe =
        rw (collect_entries, reads, shows) refl
    goes_on r r' v key keys result reads later (err e) shows safe = absurd (safe e refl)

    payload-ne-err :
        (heap : Heap) (key : String) (v : Bool) (result : Outcome Resource) (e : String)
        → payload_of types unmarshal_any heap key v result ≢ err e
    unfolding resource_to_payload for_each
    payload-ne-err heap key v (err x) e = λ p. cc p
    payload-ne-err heap key v panic e = λ p. cc p
    payload-ne-err heap key v (ok res) e = elim (Option-cases res.requests) [
      | inl nil ↦ rw (nil, resource_to_payload) (λ p. cc p)
      | inr (a, points) ↦ rw (resource_to_payload_lem heap key res a v points) (λ p. cc p)
    ]

    still_listed :
        (k key : String) (keys : List String)
        → k ≢ key
        → has_key key (k ∷ keys) ≡ true
        → has_key key keys ≡ true
    unfolding has_key
    still_listed k key keys other there = ground (arith, eq_iff k key)

    module _ (key : String) (res : Resource) (first : is_expired res (clock key).0 ≡ true)
        (second : is_expired res (clock key).1 ≡ true) where
      -- A dump of keys among which there is one whose entry is past its deadline panics, wherever that
      -- one stands and whatever the other keys hold: the entry is evicted, and the pointer to requests of the zero
      -- resource that FetchReadOnly returns is nil.
      pub collect_entries_expired :
          (keys : List String) (r : Relay State) (v : Bool)
          → IsConsistent lru r
          → has_key key keys ≡ true
          → peek r.cache.store key ≡ some (resource res)
          → collect_entries types unmarshal_any lru clock r v keys ≡ panic
      unfolding collect_entries resource_to_payload for_each has_key fetch_read_only
      collect_entries_expired [] r v h there stored = absurd (cc there)
      collect_entries_expired (k ∷ keys) r v h there stored = elim (String-cases k key) [
        | inl same ↦ rw same (
            let (r', reads, sound, gone) =
              read_expired lru r key res (clock key).0 (clock key).1 h stored first second in
            rw (collect_entries, reads) refl)
        | inr other ↦
            let good = fetch_read_only-IsGood lru h.cache k (clock k).0 (clock k).1 in
            let (r', reads, sound, cache, quiet, closes) =
              run_cache_lem lru r (fetch_read_only lru r.cache k (clock k).0 (clock k).1) h good in
            goes_on r r' v k keys _ reads
              (collect_entries_expired keys r' v sound (still_listed k key keys other there) (
                ap (λ (c : Cache State). peek c.store key) cache
                ∙ (fetch-IsFramed lru h.cache k key other (clock k).0 (clock k).1).entry_kept
                    (fetch_evicts_own lru h.cache k key other (clock k).0 (clock k).1)
                ∙ stored))
              _ refl (payload-ne-err r'.cache.heap k v _)
      ]
