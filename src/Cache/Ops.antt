-- ===== src/Cache/Ops.antt =====
-- The cache's methods (cache.go). Each returns the cache afterwards, the entry for which the LRU
-- cache ran the eviction callback, and the method's own result. Counters and logs are left out.
use xds_relay.Prelude.{ℕ, String, append, Option, none, some, [], if◌then◌else◌}
use xds_relay.Prelude.Int.{ℤ, pos, negsuc}
use xds_relay.Outcome.{Outcome, ok, err, panic}
use xds_relay.Transport.Response.{Response}
use xds_relay.Cache.Lru.{Lru}
use xds_relay.Cache.Resource.{Resource, Stored, resource, foreign, is_expired, get_expiration_time}
use xds_relay.Cache.Requests.{Heap, new_requests_store, set, delete}

pub record Cache (S : Type 0) : Type 0 where
  pub store : S
  pub heap : Heap
  pub ttl : ℕ

-- What a method leaves behind.
pub record Effect (S A : Type 0) : Type 0 where
  pub after : Cache S
  pub evicted : Option (String × Stored)
  pub result : Outcome A

abbrev pub cast_error : String → String
cast_error key = append "unable to cast cache value to type resource for key: " key

-- The cast in the eviction callback panics where the others return an error.
unfoldable pub evicted_resource : Stored → Outcome Resource
evicted_resource (resource r) = ok r
evicted_resource foreign = panic

abbrev pub quiet : {S A : Type 0} → Cache S → Outcome A → Effect S A
quiet c result = record { after = c; evicted = none; result = result }

module _ (lru : Lru Stored) where
  open lru use {State, empty, get, add, remove}

  -- A negative ttl is refused. The greatest number of entries is that of `empty`.
  unfoldable pub new_cache : ℤ → Outcome (Cache State)
  new_cache (negsuc n) = err "ttl must be nonnegative"
  new_cache (pos n) =
      ok (record { store = empty; heap = record { cell = λ a. []; next = 0 }; ttl = n })

  -- `c.cache.Get(key)` and `c.cache.Add(key, r)` on the cache's state.
  abbrev pub got : Cache State → String → Cache State
  got c key = record c { store = (get c.store key).0 }

  abbrev pub added : {A : Type 0} → Cache State → String → Resource → Outcome A → Effect State A
  added c key r result =
      let p = add c.store key (resource r) in
      record { after = record c { store = p.0 }; evicted = p.1; result = result }

  -- The part of Fetch under the write lock: the entry is looked up and tested again.
  unfoldable pub fetch_locked : Cache State → String → ℕ → Effect State (Option Resource)
  fetch_locked c key now = elim (get c.store key).1 [
    | none ↦ quiet (got c key) (ok none)
    | some foreign ↦ quiet (got c key) (err (cast_error key))
    | some (resource r) ↦
        if is_expired r now
        then (let p = remove (got c key).store key in
            record { after = record c { store = p.0 }; evicted = p.1; result = ok none })
        else quiet (got c key) (ok (some r))
  ]

  -- The part of Fetch under the read lock. `none` sends the call on to the write lock.
  unfoldable pub fetch_read : Cache State → String → ℕ → Option (Outcome (Option Resource))
  fetch_read c key now = elim (get c.store key).1 [
    | none ↦ some (err (append "no value found for key: " key))
    | some foreign ↦ some (err (cast_error key))
    | some (resource r) ↦ if is_expired r now then none else some (ok (some r))
  ]

  -- Fetch with no other call between its two parts; `now` and `later` are its two readings of the
  -- clock.
  unfoldable pub fetch : Cache State → String → ℕ → ℕ → Effect State (Option Resource)
  unfolding fetch_read fetch_locked
  fetch c key now later = elim (fetch_read c key now) [
    | some result ↦ quiet (got c key) result
    | none ↦ fetch_locked (got c key) key later
  ]

  -- A resource that is not there is the zero `Resource{}`.
  abbrev pub resource_or_zero : Outcome (Option Resource) → Outcome Resource
  resource_or_zero (ok (some r)) = ok r
  resource_or_zero (ok none) = ok (record { resp = none; requests = none; expiration_time = 0 })
  resource_or_zero (err e) = err e
  resource_or_zero panic = panic

  unfoldable pub fetch_read_only : Cache State → String → ℕ → ℕ → Effect State Resource
  unfolding fetch
  fetch_read_only c key now later =
      let e = fetch c key now later in
      record { after = e.after; evicted = e.evicted; result = resource_or_zero e.result }

  unfoldable pub set_response : Cache State → String → Response → ℕ → Effect State (Option ℕ)
  set_response c key response now = elim (get c.store key).1 [
    | none ↦
        let p = new_requests_store c.heap in
        added (record (got c key) { heap = p.0 }) key
          (record {
            resp = some response;
            requests = some p.1;
            expiration_time = get_expiration_time c.ttl now;
          })
          (ok (some p.1))
    | some foreign ↦ quiet (got c key) (err (cast_error key))
    | some (resource r) ↦
        added (got c key) key
          (record r { resp = some response; expiration_time = get_expiration_time c.ttl now })
          (ok r.requests)
  ]

  -- Storing a resource whose requests were changed in place, if that did not panic.
  abbrev pub added_requests :
      Cache State → String → Resource → Outcome Heap → Effect State (Unit {0})
  added_requests c key r (ok h) = added (record c { heap = h }) key r (ok tt)
  added_requests c key r (err e) = quiet c (err e)
  added_requests c key r panic = quiet c panic

  unfoldable pub add_request : Cache State → String → ℕ → ℕ → Effect State (Unit {0})
  unfolding set
  add_request c key req now = elim (get c.store key).1 [
    | none ↦
        let p = new_requests_store c.heap in
        added_requests (got c key) key
          (record {
            resp = none;
            requests = some p.1;
            expiration_time = get_expiration_time c.ttl now;
          })
          (set p.0 (some p.1) req)
    | some foreign ↦ quiet (got c key) (err (cast_error key))
    | some (resource r) ↦ added_requests (got c key) key r (set c.heap r.requests req)
  ]

  unfoldable pub delete_request : Cache State → String → ℕ → Effect State (Unit {0})
  unfolding delete
  delete_request c key req = elim (get c.store key).1 [
    | none ↦ quiet (got c key) (ok tt)
    | some foreign ↦ quiet (got c key) (err (cast_error key))
    | some (resource r) ↦ added_requests (got c key) key r (delete c.heap r.requests req)
  ]

  unfoldable pub delete_key : Cache State → String → Effect State (Unit {0})
  delete_key c key = elim (get c.store key).1 [
    | none ↦ quiet (got c key) (err (append "unable to delete entry for nonexistent key: " key))
    | some _ ↦
        let p = remove (got c key).store key in
        record { after = record c { store = p.0 }; evicted = p.1; result = ok tt }
  ]
