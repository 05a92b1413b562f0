-- ===== src/Cache/Ttl.antt =====
-- No method of the cache changes its ttl (cache.go).
use xds_relay.Prelude.{ℕ, String, ◌≡◌, refl, ◌∙◌, inl, inr, Bool-cases, Option-cases}
use xds_relay.Transport.Response.{Response}
use xds_relay.Cache.Lru.{Lru}
use xds_relay.Cache.Resource.{Stored, is_expired}
use xds_relay.Cache.Requests.{set-some, delete-some}
use xds_relay.Cache.Ops.{
  Cache, fetch, fetch_read, fetch_locked, set_response, add_request, delete_request, delete_key,
}
use xds_relay.Cache.View.{IsWellFormed}
use xds_relay.Cache.Invariant.{got-IsWellFormed}
use xds_relay.Cache.Entries.{entry_cases}

module _ (lru : Lru Stored) {c : Cache (lru.State)} (wf : IsWellFormed lru c) (key : String) where
  pub set_response_ttl :
      (resp : Response) (now : ℕ) → (set_response lru c key resp now).after.ttl ≡ c.ttl
  unfolding set_response
  set_response_ttl resp now = elim (entry_cases lru wf key) [
    | inl absent ↦ rw (lru.get_value c.store key ∙ absent, set_response) refl
    | inr (r, a, f) ↦ rw (lru.get_value c.store key ∙ f.0, set_response) refl
  ]

  pub add_request_ttl : (req now : ℕ) → (add_request lru c key req now).after.ttl ≡ c.ttl
  unfolding add_request
  add_request_ttl req now = elim (entry_cases lru wf key) [
    | inl absent ↦ rw (lru.get_value c.store key ∙ absent, add_request) refl
    | inr (r, a, f) ↦
        rw (lru.get_value c.store key ∙ f.0, add_request, set-some c.heap r.requests req a f.1) refl
  ]

  pub delete_request_ttl : (req : ℕ) → (delete_request lru c key req).after.ttl ≡ c.ttl
  unfolding delete_request
  delete_request_ttl req = elim (entry_cases lru wf key) [
    | inl absent ↦ rw (lru.get_value c.store key ∙ absent, delete_request) refl
    | inr (r, a, f) ↦
        rw
          (lru.get_value c.store key ∙ f.0, delete_request, delete-some c.heap r.requests req a f.1)
          refl
  ]

  pub delete_key_ttl : (delete_key lru c key).after.ttl ≡ c.ttl
  unfolding delete_key
  delete_key_ttl = elim (entry_cases lru wf key) [
    | inl absent ↦ rw (lru.get_value c.store key ∙ absent, delete_key) refl
    | inr (r, a, f) ↦ rw (lru.get_value c.store key ∙ f.0, delete_key) refl
  ]

  pub fetch_locked_ttl : (later : ℕ) → (fetch_locked lru c key later).after.ttl ≡ c.ttl
  unfolding fetch_locked
  fetch_locked_ttl later = elim (entry_cases lru wf key) [
    | inl absent ↦ rw (lru.get_value c.store key ∙ absent, fetch_locked) refl
    | inr (r, a, f) ↦ elim (Bool-cases (is_expired r later)) [
      | inl expired ↦ rw (lru.get_value c.store key ∙ f.0, fetch_locked, expired) refl
      | inr fresh ↦ rw (lru.get_value c.store key ∙ f.0, fetch_locked, fresh) refl
    ]
  ]

pub fetch_ttl :
    (lru : Lru Stored) {c : Cache (lru.State)}
    → IsWellFormed lru c
    → (key : String) (now later : ℕ) → (fetch lru c key now later).after.ttl ≡ c.ttl
unfolding fetch
fetch_ttl lru {c} wf key now later = elim (Option-cases (fetch_read lru c key now)) [
  | inl stale ↦ rw (stale, fetch) (fetch_locked_ttl lru (got-IsWellFormed lru wf key) key later)
  | inr (result, e) ↦ rw (e, fetch) refl
]
