-- ===== src/Admin/Clearing.antt =====
-- Clearing the cache over the admin API (admin/http/cache.go: clearCacheHandler), down to the cache and
-- the streams.
use Prim.Native.String.{String, ◌++◌}
use xds_relay.Prelude.{
  ℕ, true, ◌&&◌, ◌≡◌, refl, sym, Bool, ◌∙◌, ◌⊎◌, none, some, List, arith, Bool-cases, inl, inr,
}
use xds_relay.Outcome.{Outcome, ok}
use xds_relay.Transport.Request.{Request}
use xds_relay.Cache.Lru.{Lru}
use xds_relay.Cache.Resource.{Stored}
use xds_relay.Orchestrator.Downstream.{has_key, get_aggregated_keys}
use xds_relay.Orchestrator.Aggregated.{IsKeyed, get_aggregated_keys_lem}
use xds_relay.Orchestrator.State.{Relay}
use xds_relay.Orchestrator.Consistency.{IsConsistent}
use xds_relay.Orchestrator.Closing.{clear_cache_entries_lem}
use xds_relay.Admin.Paths.{clear_url, IsSlashFree, get_param_roundtrip}
use xds_relay.Admin.Reply.{Reply, Payload}
use xds_relay.Admin.Keys.{with_prefix, get_relevant_keys}
use xds_relay.Admin.Prefixes.{has_prefix_iff, wildcard, has_key-with_prefix}
use xds_relay.Admin.Entries.{clear_entries, write_errors, clear_cache_handler}

module _ {M : Type 0} (interface_to_string : Payload M → String ⊎ String) (lru : Lru Stored) where
  open lru use {State, peek}

  -- A wildcard selects the keys with its prefix.
  relevant_wildcard :
      (root : String) (keys : List String) (w : Reply)
      → get_relevant_keys interface_to_string (ok keys) (root ++ "*") w
        ≡ ok (some (with_prefix root keys), w)
  unfolding get_relevant_keys
  relevant_wildcard root keys w =
      let (star, trimmed) = wildcard root in rw (star, trimmed, get_relevant_keys) refl

  and_true : (a b : Bool) → a ≡ true → b ≡ true → (a && b) ≡ true
  and_true a b h k = ground arith

  and_first : (a b : Bool) → (a && b) ≡ true → a ≡ true
  and_first a b h = ground arith

  and_second : (a b : Bool) → (a && b) ≡ true → b ≡ true
  and_second a b h = ground arith

  -- On a consistent relay, which stays so, and where every request of the downstream map has a key,
  -- `POST /cache/clear/<root>*` for a text without a slash does not panic: the keys of requests of the
  -- downstream map that begin with the text are cached no more, and what is cached under any other
  -- key stays, under one that begins with the text but is no such request's key too.
  pub clear_cache_handler_wildcard :
      (get_key : Request → Outcome String) (request_at : ℕ → Request) (r : Relay State)
      (keys : List String) (root : String) (w : Reply)
      → IsConsistent lru r
      → get_aggregated_keys get_key request_at r.downstream ≡ ok keys
      → IsSlashFree (root ++ "*")
      → (r' : Relay State) × (w' : Reply) × (clear_cache_handler interface_to_string lru r
            (get_aggregated_keys get_key request_at r.downstream)
            "POST"
            (clear_url ++ ("/" ++ (root ++ "*")))
            w
          ≡ ok (r', w'))
        × IsConsistent lru r'
        × ((k t : String)
            → IsKeyed get_key request_at k r.downstream.watches
            → k ≡ root ++ t
            → peek r'.cache.store k ≡ none)
        × ((k : String)
            → ¬ (
                IsKeyed get_key request_at k r.downstream.watches
                × ((t : String) × (k ≡ root ++ t)))
            → peek r'.cache.store k ≡ peek r.cache.store k)
  unfolding clear_cache_handler clear_entries
  clear_cache_handler_wildcard get_key request_at r keys root w h collects free =
      let (r', errors, runs, sound, gone, kept) =
        clear_cache_entries_lem lru r (with_prefix root keys) h in
      let read = (get_param_roundtrip clear_url (root ++ "*")).1 free in
      let keyed = get_aggregated_keys_lem get_key request_at r.downstream keys collects in
      (
        r',
        write_errors interface_to_string lru errors w,
        rw (collects, read, clear_cache_handler, relevant_wildcard root keys w, runs) refl,
        sound,
        (λ k t there begins. gone k (
            has_key-with_prefix root k keys
            ∙ and_true _ _ ((keyed k).1 there) ((has_prefix_iff k root).1 (t, begins)))),
        λ k apart. elim (Bool-cases (has_key k (with_prefix root keys))) [
          | inr absent ↦ kept k absent
          | inl there ↦
              (let both = sym (has_key-with_prefix root k keys) ∙ there in
                absurd (
                  apart (
                    (keyed k).0 (and_first _ _ both),
                    (has_prefix_iff k root).0 (and_second _ _ both),
                  )))
        ],
      )
