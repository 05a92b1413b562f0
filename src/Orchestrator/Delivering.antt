-- ===== src/Orchestrator/Delivering.antt =====
-- What becomes of a response from the origin server (watchUpstream in orchestrator.go).
use xds_relay.Prelude.{
  ℕ, String, true, false, ◌≡◌, ◌≢◌, refl, some-inj, ◌∙◌, Option, none, some, inl, inr, Option-cases,
  Bool-cases,
}
use xds_relay.Outcome.{Outcome, ok, err, panic}
use xds_relay.Transport.Response.{Response}
use xds_relay.Cache.Lru.{Lru}
use xds_relay.Cache.Resource.{Resource, Stored, resource, is_expired}
use xds_relay.Cache.Requests.{for_each}
use xds_relay.Cache.Ops.{Cache, fetch, fetch_read, got}
use xds_relay.Cache.View.{IsWellFormed}
use xds_relay.Cache.Entries.{entry_cases}
use xds_relay.Cache.Reads.{fetch_fresh, fetch_expired, fetch_locked_refreshed}
use xds_relay.Orchestrator.Fanout.{Sends, fanout_lem}
use xds_relay.Orchestrator.State.{Relay}
use xds_relay.Orchestrator.Watching.{fanout_cached}
use xds_relay.Orchestrator.Consistency.{IsConsistent}

module _ (lru : Lru Stored) where
  open lru use {State, peek}

  -- An entry that is set anew between the two readings of the clock is what Fetch returns.
  fetch_late :
      (c : Cache State) (key : String) (r : Resource) (now later : ℕ)
      → peek c.store key ≡ some (resource r)
      → is_expired r now ≡ true
      → is_expired r later ≡ false
      → (fetch lru c key now later).result ≡ ok (some r)
  unfolding fetch fetch_read
  fetch_late c key r now later stored first second =
      let stale : fetch_read lru c key now ≡ none =
        rw (lru.get_value c.store key ∙ stored, fetch_read, first) in
      rw (stale, fetch)
        (fetch_locked_refreshed lru (got lru c key) key r later
          (lru.get_keeps c.store key key ∙ stored) second).0

  fetch_missing :
      (c : Cache State) (key : String) (now later : ℕ)
      → peek c.store key ≡ none
      → (res : Resource) → (fetch lru c key now later).result ≢ ok (some res)
  unfolding fetch fetch_read
  fetch_missing c key now later absent res =
      rw (lru.get_value c.store key ∙ absent, fetch, fetch_read) (λ p. cc p)

  same_pointer :
      {r res : Resource} {a : ℕ} (o : Outcome (Option Resource))
      → o ≡ ok (some r)
      → o ≡ ok (some res)
      → r.requests ≡ some a
      → res.requests ≡ some a
  same_pointer o p q e = cc (p, q, e)

  -- What Fetch returns has a pointer to a store.
  pub fetch_points :
      {c : Cache State} (wf : IsWellFormed lru c) (key : String) (now later : ℕ) (res : Resource)
      → (fetch lru c key now later).result ≡ ok (some res)
      → (a : ℕ) × (res.requests ≡ some a)
  fetch_points {c} wf key now later res h = elim (entry_cases lru wf key) [
    | inl absent ↦ absurd (fetch_missing c key now later absent res h)
    | inr (r, a, f) ↦ (
      a,
      elim (Bool-cases (is_expired r now)) [
        | inr fresh ↦ same_pointer _ (fetch_fresh lru c key r now later f.0 fresh).0 h f.1
        | inl stale ↦ elim (Bool-cases (is_expired r later)) [
          | inr fresh ↦ same_pointer _ (fetch_late c key r now later f.0 stale fresh) h f.1
          | inl gone ↦
              let nothing = (fetch_expired lru c key r now later f.0 stale gone).0 in
              absurd (cc (nothing, h))
        ]
      ],
    )
  ]

  -- Fanning out what Fetch returned.
  pub fanout_cached_lem :
      (r : Relay State) (found : Outcome (Option Resource))
      → IsConsistent lru r
      → found ≢ panic
      → ((res : Resource) → found ≡ ok (some res) → (a : ℕ) × (res.requests ≡ some a))
      → (r' : Relay State) × (fanout_cached lru r found ≡ ok r')
        × IsConsistent lru r'
        × (r'.cache ≡ r.cache)
        × (r'.upstream ≡ r.upstream)
        × ((res : Resource) (a : ℕ) (x : Response)
            → found ≡ ok (some res)
            → res.requests ≡ some a
            → res.resp ≡ some x
            → Sends x (r.cache.heap.cell a) r.downstream r'.downstream)
  unfolding fanout_cached for_each
  fanout_cached_lem r (err e) h safe points = (r, refl, h, refl, refl, λ res a x p. absurd (cc p))
  fanout_cached_lem r panic h safe points = absurd (safe refl)
  fanout_cached_lem r (ok none) h safe points = (r, refl, h, refl, refl, λ res a x p. absurd (cc p))
  fanout_cached_lem r (ok (some res)) h safe points =
      let (a, to) = points res refl in
      elim (Option-cases res.resp) [
        | inl nothing ↦ (
          r,
          rw (nothing, fanout_cached) refl,
          h,
          refl,
          refl,
          λ s b x p q e. absurd (cc (p, nothing, e)),
        )
        | inr (x, there) ↦
            let (d, runs, sound, sends) =
              fanout_lem r.downstream x (r.cache.heap.cell a) h.downstream in
            (
              record r { downstream = d },
              rw (there, fanout_cached, to, runs) refl,
              record { cache = h.cache; downstream = sound; upstream = h.upstream },
              refl,
              refl,
              λ s b y p q e.
                  let eb : b ≡ a = some-inj (cc (p, q, to)) in
                  let ey : y ≡ x = some-inj (cc (p, e, there)) in rw (eb, ey) sends,
            )
      ]
