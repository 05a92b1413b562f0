-- ===== src/Orchestrator/Opening.antt =====
-- CreateWatch (orchestrator.go): the watch, the request's registration and the key's stream.
use xds_relay.Prelude.{
  ℕ, String, Bool, true, false, ◌≡◌, ◌≢◌, refl, sym, ◌∙◌, arith, Option, none, some, inl, inr,
  Option-cases, Bool-cases,
}
use xds_relay.Outcome.{Outcome, ok, err, panic, Outcome-cases, ok-inj}
use xds_relay.Transport.Request.{Request}
use xds_relay.Cache.Lru.{Lru}
use xds_relay.Cache.Resource.{Resource, Stored}
use xds_relay.Cache.Requests.{contains}
use xds_relay.Cache.Ops.{add_request, fetch}
use xds_relay.Cache.Keeps.{add_request-IsGood, fetch-IsGood}
use xds_relay.Cache.Reads.{add_request_lem}
use xds_relay.Orchestrator.Downstream.{get, find_or_create}
use xds_relay.Orchestrator.Upstream.{Upstream, UpstreamChannel, exists, add_channel}
use xds_relay.Orchestrator.Watches.{find_or_create_lem, delete_found}
use xds_relay.Orchestrator.Streams.{add_channel_lem, find}
use xds_relay.Orchestrator.State.{
  Relay, is_news, give_up, push_cached, open_stream, ensure_upstream,
}
use xds_relay.Orchestrator.Watching.{register_watch, create_watch}
use xds_relay.Orchestrator.Consistency.{IsConsistent, run_cache_lem}

module _ (lru : Lru Stored) where
  open lru use {State}

  push_cached-IsConsistent :
      (r : Relay State) (watch : ℕ) (req : Request) (found : Outcome (Option Resource))
      → IsConsistent lru r
      → IsConsistent lru (push_cached r watch req found)
  unfolding push_cached
  push_cached-IsConsistent r watch req (err e) h = h
  push_cached-IsConsistent r watch req panic h = h
  push_cached-IsConsistent r watch req (ok none) h = h
  push_cached-IsConsistent r watch req (ok (some res)) h = elim (Option-cases res.resp) [
    | inl nothing ↦ rw (nothing, push_cached) h
    | inr (resp, there) ↦ elim (Bool-cases (is_news req resp)) [
      | inl news ↦
          rw (there, push_cached, news)
            (record { cache = h.cache; downstream = h.downstream; upstream = h.upstream })
      | inr known ↦ rw (there, push_cached, known) h
    ]
  ]

  found-exists :
      (u : Upstream) (key : String) (c : UpstreamChannel)
      → find u key ≡ some c
      → exists u key ≡ true
  unfolding exists
  found-exists u key c p = rw (p, exists)

  -- In a consistent relay the key has a stream afterwards, and no stream is cancelled. For a key that
  -- had one nothing changes, and no other key's stream, no watch and no entry does.
  pub ensure_upstream_lem :
      (r : Relay State) (key : String)
      → IsConsistent lru r
      → let r' = ensure_upstream r key in
        IsConsistent lru r'
        × (exists r'.upstream key ≡ true)
        × (exists r.upstream key ≡ true → r' ≡ r)
        × (r'.cancelled ≡ r.cancelled)
        × ((j : String) → key ≢ j → find r'.upstream j ≡ find r.upstream j)
        × (r'.downstream ≡ r.downstream)
        × (r'.cache ≡ r.cache)
  unfolding ensure_upstream open_stream
  ensure_upstream_lem r key h = elim (Bool-cases (exists r.upstream key)) [
    | inl there ↦
        rw (there, ensure_upstream) (h, there, (λ _. refl), refl, (λ j n. refl), refl, refl)
    | inr absent ↦
        let (sound, stored, flag, others, own) =
          add_channel_lem r.upstream key r.next_stream h.upstream in
        rw (absent, ensure_upstream, open_stream, flag ∙ absent)
          (
            record { cache = h.cache; downstream = h.downstream; upstream = sound },
            found-exists (add_channel r.upstream key r.next_stream).0 key _ stored,
            (λ p. absurd (cc (absent, p))),
            refl,
            others,
            refl,
            refl,
          )
  ]

  -- The failure path closes the watch that was made and forgets the request.
  give_up_lem :
      (r : Relay State) (addr watch : ℕ)
      → IsConsistent lru r
      → get r.downstream addr ≡ some watch
      → (r' : Relay State) × (give_up r addr ≡ ok (r', (some watch, false)))
        × IsConsistent lru r'
        × (get r'.downstream addr ≡ none)
  unfolding give_up contains
  give_up_lem r addr watch h there =
      let (d, runs, sound, deletes) = delete_found r.downstream addr watch h.downstream there in
      (
        record r { downstream = d },
        rw (runs, give_up) refl,
        record { cache = h.cache; downstream = sound; upstream = h.upstream },
        deletes.dropped addr (ground arith),
      )

  register_watch_lem :
      (r : Relay State) (addr : ℕ) (req : Request) (watch : ℕ) (key : String) (times : ℕ × ℕ × ℕ)
      → IsConsistent lru r
      → (r' : Relay State) × (register_watch lru r addr req watch key times
          ≡ ok (r', (some watch, true)))
        × IsConsistent lru r'
        × (exists r'.upstream key ≡ true)
  unfolding register_watch
  register_watch_lem r addr req watch key (now, first, second) h =
      let (s, added, good, cache, quiet, evicts) =
        run_cache_lem lru r (add_request lru r.cache key addr now) h
          (add_request-IsGood lru h.cache key addr now) in
      let done = (add_request_lem lru h.cache key addr now).2 in
      let (t, fetched, good', cache', quiet', evicts') =
        run_cache_lem lru s (fetch lru s.cache key first second) good
          (fetch-IsGood lru good.cache key first second) in
      let found = (fetch lru s.cache key first second).result in
      let (last, streams, kept, calm, others, watches, entries) =
        ensure_upstream_lem (push_cached t watch req found) key
          (push_cached-IsConsistent t watch req found good') in
      (_, rw (added, register_watch, done, fetched) refl, last, streams)

  -- In a consistent relay, and for a mapper that does not panic on the request, CreateWatch ends
  -- without a panic and leaves the relay consistent. With a key it returns the
  -- request's watch and a cancel function, and the key has a stream afterwards; without one it
  -- returns the watch alone, and the request is not in the map.
  pub create_watch_lem :
      (get_key : Request → Outcome String) (r : Relay State) (addr : ℕ) (req : Request)
      (times : ℕ × ℕ × ℕ)
      → IsConsistent lru r
      → get_key req ≢ panic
      → let watch = (find_or_create r.downstream addr req).1 in
        (r' : Relay State) × (out : Option ℕ × Bool) × (create_watch lru get_key r addr req times
          ≡ ok (r', out))
        × IsConsistent lru r'
        × (out.0 ≡ some watch)
        × ((key : String) → get_key req ≡ ok key → (out.1 ≡ true) × (exists r'.upstream key ≡ true))
        × ((e : String) → get_key req ≡ err e → (out.1 ≡ false) × (get r'.downstream addr ≡ none))
  unfolding create_watch
  create_watch_lem get_key r addr req times h safe =
      let (sound, there, others, same) = find_or_create_lem r.downstream addr req h.downstream in
      let watched : IsConsistent lru
          (record r { downstream = (find_or_create r.downstream addr req).0 }) =
        record { cache = h.cache; downstream = sound; upstream = h.upstream } in
      elim (Outcome-cases (get_key req) safe) [
        | inl (key, keyed) ↦
            let (r', runs, good, streams) =
              register_watch_lem _ addr req (find_or_create r.downstream addr req).1 key times
                watched in
            (
              r',
              _,
              rw (keyed, create_watch) runs,
              good,
              refl,
              (λ j p. (refl, rw (ok-inj (sym p ∙ keyed)) streams)),
              (λ e p. absurd (cc (keyed, p))),
            )
        | inr (e, failed) ↦
            let (r', runs, good, gone) =
              give_up_lem _ addr (find_or_create r.downstream addr req).1 watched there in
            (
              r',
              _,
              rw (failed, create_watch) runs,
              good,
              refl,
              (λ j p. absurd (cc (failed, p))),
              (λ m p. (refl, gone)),
            )
      ]
