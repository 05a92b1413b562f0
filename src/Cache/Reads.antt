-- ===== src/Cache/Reads.antt =====
-- What can be read from a cache after each method.
use xds_relay.Prelude.{
  ℕ, String, true, false, ◌≡◌, refl, sym, ap, ◌∙◌, inl, inr, Option, none, some, List, arith,
}
use xds_relay.Outcome.{ok}
use xds_relay.Transport.Response.{Response}
use xds_relay.Cache.Lru.{Lru}
use xds_relay.Cache.Resource.{Resource, Stored, resource, is_expired, get_expiration_time}
use xds_relay.Cache.Requests.{set-some, delete-some, insert, erase, erase-nil, update}
use xds_relay.Cache.Ops.{
  Cache, got, fetch, fetch_read, fetch_locked, set_response, add_request, delete_request,
}
use xds_relay.Cache.View.{entry, IsWellFormed, watchers, watchers_of, watchers_some, watchers_none}
use xds_relay.Cache.Entries.{entry_cases}

-- The entry that an added request leaves: the old one, or one with no response and a new deadline.
abbrev pub IsSuccessor : Option Resource → ℕ → Resource → Type 0
IsSuccessor none deadline r = (r.resp ≡ none) × (r.expiration_time ≡ deadline)
IsSuccessor (some old) deadline r = r ≡ old

module _ (lru : Lru Stored) where
  open lru use {State, peek, get, add, remove}

  module _ {c : Cache State} (wf : IsWellFormed lru c) (key : String) where
    -- In a well-formed cache a response that is set is what the key holds; the requests that were registered stay so, and
    -- they are what the method hands out.
    pub set_response_lem :
        (response : Response) (now : ℕ)
        → let e = set_response lru c key response now in
          (r : Resource) × (peek e.after.store key ≡ some (resource r))
          × (e.result ≡ ok r.requests)
          × (r.resp ≡ some response)
          × (r.expiration_time ≡ get_expiration_time c.ttl now)
          × (watchers_of e.after.heap r.requests ≡ watchers lru c key)
    unfolding set_response
    set_response_lem response now = elim (entry_cases lru wf key) [
      | inl absent ↦
          rw (lru.get_value c.store key ∙ absent, set_response)
            (_, lru.add_self _ _ _, refl, refl, refl, ground (arith, absent))
      | inr (r, a, f) ↦
          rw (lru.get_value c.store key ∙ f.0, set_response)
            (_, lru.add_self _ _ _, refl, refl, refl, ground (arith, f.0))
    ]

    -- In a well-formed cache a request that is added is registered under the key beside those that were; the response and,
    -- if the key was there, its deadline stay.
    pub add_request_lem :
        (req now : ℕ)
        → let e = add_request lru c key req now in
          (r : Resource) × (peek e.after.store key ≡ some (resource r))
          × (e.result ≡ ok tt)
          × (watchers_of e.after.heap r.requests ≡ insert req (watchers lru c key))
          × IsSuccessor (entry lru c key) (get_expiration_time c.ttl now) r
    unfolding add_request
    add_request_lem req now = elim (entry_cases lru wf key) [
      | inl absent ↦
          rw (lru.get_value c.store key ∙ absent, add_request)
            (_, lru.add_self _ _ _, refl, ground (arith, absent), rw absent (refl, refl))
      | inr (r, a, f) ↦
          rw (lru.get_value c.store key ∙ f.0, add_request, set-some c.heap r.requests req a f.1)
            (r, lru.add_self _ _ _, refl, ground (arith, f.0, f.1), rw f.0 refl)
    ]

    -- A store that is changed through a resource's own pointer.
    own_cell :
        (a : ℕ) (g : List ℕ → List ℕ) (r : Resource)
        → r.requests ≡ some a
        → watchers_of (record c.heap { cell = update c.heap.cell a (g (c.heap.cell a)) }) r.requests
          ≡ g (watchers_of c.heap r.requests)
    own_cell a g r e = ground (arith, e)

    -- In a well-formed cache a request that is deleted is registered no more; the others, the response and the deadline
    -- stay.
    pub delete_request_lem :
        (req : ℕ)
        → let e = delete_request lru c key req in
          (entry lru e.after key ≡ entry lru c key)
          × (e.result ≡ ok tt)
          × (watchers lru e.after key ≡ erase req (watchers lru c key))
    unfolding delete_request
    delete_request_lem req = elim (entry_cases lru wf key) [
      | inl absent ↦
          rw (lru.get_value c.store key ∙ absent, delete_request)
            (
              rw (lru.get_keeps c.store key key),
              refl,
              watchers_none lru _ c.heap key (lru.get_keeps c.store key key ∙ absent)
                  ∙ sym (erase-nil req)
                  ∙ ap (erase req) (sym (watchers_none lru c.store c.heap key absent)),
            )
      | inr (r, a, f) ↦
          rw
            (
              lru.get_value c.store key ∙ f.0,
              delete_request,
              delete-some c.heap r.requests req a f.1,
            )
            (
              rw (lru.add_self _ _ _, f.0),
              refl,
              watchers_some lru _
                    (record c.heap { cell = update c.heap.cell a (erase req (c.heap.cell a)) }) key
                    (lru.add_self _ _ _)
                  ∙ own_cell a (erase req) r f.1
                  ∙ ap (erase req) (sym (watchers_some lru c.store c.heap key f.0)),
            )
    ]

  -- Fetch of an entry whose deadline has not passed at the first reading of the clock returns it and
  -- evicts nothing.
  pub fetch_fresh :
      (c : Cache State) (key : String) (r : Resource) (now later : ℕ)
      → peek c.store key ≡ some (resource r)
      → is_expired r now ≡ false
      → let e = fetch lru c key now later in (e.result ≡ ok (some r)) × (e.evicted ≡ none)
  unfolding fetch fetch_read
  fetch_fresh c key r now later stored fresh =
      rw (lru.get_value c.store key ∙ stored, fetch, fresh) (refl, refl)

  fetch_locked_expired :
      (c : Cache State) (key : String) (r : Resource) (later : ℕ)
      → peek c.store key ≡ some (resource r)
      → is_expired r later ≡ true
      → let e = fetch_locked lru c key later in
        (e.result ≡ ok none)
        × (e.evicted ≡ some (key, resource r))
        × (peek e.after.store key ≡ none)
  unfolding fetch_locked
  fetch_locked_expired c key r later stored expired =
      rw (lru.get_value c.store key ∙ stored, fetch_locked, expired)
        (
          refl,
          lru.remove_stored _ key (lru.get_keeps c.store key key ∙ stored),
          lru.remove_self _ key,
        )

  -- Fetch of an entry that is past its deadline at both readings of the clock returns nothing and
  -- evicts that entry, and the key is gone.
  pub fetch_expired :
      (c : Cache State) (key : String) (r : Resource) (now later : ℕ)
      → peek c.store key ≡ some (resource r)
      → is_expired r now ≡ true
      → is_expired r later ≡ true
      → let e = fetch lru c key now later in
        (e.result ≡ ok none)
        × (e.evicted ≡ some (key, resource r))
        × (peek e.after.store key ≡ none)
  unfolding fetch fetch_read
  fetch_expired c key r now later stored first second =
      let stale : fetch_read lru c key now ≡ none =
        rw (lru.get_value c.store key ∙ stored, fetch_read, first) in
      rw (stale, fetch)
        (fetch_locked_expired (got lru c key) key r later (lru.get_keeps c.store key key ∙ stored)
          second)

  -- Fetch between whose two readings of the clock the entry was set anew, by any other calls, does
  -- not remove it: the part under the write lock returns the entry that it finds if that one is not
  -- past its deadline, and evicts nothing.
  pub fetch_locked_refreshed :
      (c : Cache State) (key : String) (r : Resource) (later : ℕ)
      → peek c.store key ≡ some (resource r)
      → is_expired r later ≡ false
      → let e = fetch_locked lru c key later in
        (e.result ≡ ok (some r)) × (e.evicted ≡ none) × (peek e.after.store key ≡ some (resource r))
  unfolding fetch_locked
  fetch_locked_refreshed c key r later stored fresh =
      rw (lru.get_value c.store key ∙ stored, fetch_locked, fresh)
        (refl, refl, lru.get_keeps c.store key key ∙ stored)
