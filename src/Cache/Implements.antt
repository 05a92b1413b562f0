-- ===== src/Cache/Implements.antt =====
-- What each method of the cache does to the abstract entry of its key (cache.go).
use xds_relay.Prelude.{
  ℕ, String, Bool, true, false, ◌&&◌, ◌≡◌, ◌≢◌, refl, sym, ap, ap₂, ◌∙◌, subst, ◌⊎◌, inl, inr,
  Option, none, some, List, arith, Bool-cases, String-cases, some-inj, if◌then◌else◌,
}
use xds_relay.Transport.Response.{Response}
use xds_relay.Cache.Lru.{Lru}
use xds_relay.Cache.Resource.{Resource, Stored, resource, is_expired}
use xds_relay.Cache.Requests.{insert}
use xds_relay.Cache.Ops.{
  Cache, Effect, fetch, fetch_read, fetch_locked, set_response, add_request, delete_request,
  delete_key, got,
}
use xds_relay.Cache.View.{
  IsWellFormed, entry, watchers, watchers_of, watchers_some, watchers_none, as_resource,
}
use xds_relay.Cache.Entries.{entry_cases}
use xds_relay.Cache.Reads.{
  IsSuccessor, set_response_lem, add_request_lem, delete_request_lem, fetch_expired,
}
use xds_relay.Cache.Frames.{IsFramed}
use xds_relay.Cache.Spec.{
  Entry, fetching, setting_response, adding_request, deleting_request, next_entry, entry_of,
  abstraction,
}

module _ (lru : Lru Stored) where
  open lru use {State, peek, remove}

  -- Another key's entry stays or is dropped.
  pub framed :
      {A : Type 0} (c : Cache State) (e : Effect State A) (j : String)
      → IsFramed lru c e j
      → (abstraction lru e.after j ≡ abstraction lru c j) ⊎ (abstraction lru e.after j ≡ none)
  framed c e j h = by_eviction e.evicted refl
    where
      same_key :
          {i j : String} {x y : Stored}
          → ◌≡◌ {A = Option (String × Stored)} (some (i, x)) (some (j, y))
          → i ≡ j
      same_key q = ap (λ (x : String × Stored). x.0) (some-inj q)

      kept :
          ((x : Stored) → e.evicted ≢ some (j, x)) → abstraction lru e.after j ≡ abstraction lru c j
      kept stays =
          ap₂ (λ x l. entry_of (as_resource x) l) (h.entry_kept stays) (h.watchers_kept stays)

      by_eviction :
          (o : Option (String × Stored))
          → e.evicted ≡ o
          → (abstraction lru e.after j ≡ abstraction lru c j) ⊎ (abstraction lru e.after j ≡ none)
      by_eviction none p = inl (kept (λ x q. cc (p, q)))
      by_eviction (some (i, x)) p = elim (String-cases i j) [
        | inl same ↦ inr (rw (h.evicted_gone x (p ∙ ap (λ n. some (n, x)) same)).1 refl)
        | inr other ↦ inl (kept (λ y q. other (same_key (sym p ∙ q))))
      ]

  -- The abstract entry of a key, from what is stored under it.
  stored_entry :
      (c : Cache State) (key : String) (r : Resource) {resp : Option Response} {l : List ℕ}
      {deadline : ℕ}
      → peek c.store key ≡ some (resource r)
      → r.resp ≡ resp
      → watchers_of c.heap r.requests ≡ l
      → r.expiration_time ≡ deadline
      → abstraction lru c key
        ≡ some (record { resp = resp; requests = l; expiration_time = deadline })
  stored_entry c key r stored p q t =
      ap (λ x. entry_of (as_resource x) (watchers lru c key)) stored ∙ (λ i. some (record {
        resp = p i;
        requests = (watchers_some lru c.store c.heap key stored ∙ q) i;
        expiration_time = t i;
      }))

  pub no_entry :
      (c : Cache State) (key : String) → peek c.store key ≡ none → abstraction lru c key ≡ none
  no_entry c key absent = ap (λ x. entry_of (as_resource x) (watchers lru c key)) absent

  module _ {c : Cache State} (wf : IsWellFormed lru c) (key : String) where
    abbrev pub old : Resource → Entry
    old r = record {
      resp = r.resp;
      requests = watchers_of c.heap r.requests;
      expiration_time = r.expiration_time;
    }

    pub held :
        (r : Resource) → peek c.store key ≡ some (resource r) → abstraction lru c key ≡ some (old r)
    held r stored = stored_entry c key r stored refl refl refl

    pub set_own :
        (resp : Response) (now : ℕ)
        → abstraction lru (set_response lru c key resp now).after key
          ≡ next_entry c.ttl (setting_response resp now) (abstraction lru c key)
    unfolding next_entry
    set_own resp now =
        let (r, stored, result, responded, deadline, kept) = set_response_lem lru wf key resp now in
        elim (entry_cases lru wf key) [
          | inl absent ↦
              stored_entry (set_response lru c key resp now).after key r stored responded
                (kept ∙ watchers_none lru c.store c.heap key absent) deadline
              ∙ ap (next_entry c.ttl (setting_response resp now)) (sym (no_entry c key absent))
          | inr (o, a, f) ↦
              stored_entry (set_response lru c key resp now).after key r stored responded
                (kept ∙ watchers_some lru c.store c.heap key f.0) deadline
              ∙ ap (next_entry c.ttl (setting_response resp now)) (sym (held o f.0))
        ]

    pub add_own :
        (req now : ℕ)
        → abstraction lru (add_request lru c key req now).after key
          ≡ next_entry c.ttl (adding_request req now) (abstraction lru c key)
    unfolding next_entry
    add_own req now =
        let (r, stored, result, added, succeeds) = add_request_lem lru wf key req now in
        elim (entry_cases lru wf key) [
          | inl absent ↦
              (let (blank, deadline) = successor_of_none absent _ r succeeds in
                stored_entry (add_request lru c key req now).after key r stored blank
                  (added ∙ ap (insert req) (watchers_none lru c.store c.heap key absent)) deadline
                ∙ ap (next_entry c.ttl (adding_request req now)) (sym (no_entry c key absent)))
          | inr (o, a, f) ↦
              (let same = successor_of_some o f.0 _ r succeeds in
                stored_entry (add_request lru c key req now).after key r stored
                  (ap (λ (x : Resource). x.resp) same)
                  (added ∙ ap (insert req) (watchers_some lru c.store c.heap key f.0))
                  (ap (λ (x : Resource). x.expiration_time) same)
                ∙ ap (next_entry c.ttl (adding_request req now)) (sym (held o f.0)))
        ]
      where
        successor_of_none :
            peek c.store key ≡ none
            → (deadline : ℕ) (r : Resource) → IsSuccessor (entry lru c key) deadline r
            → (r.resp ≡ none) × (r.expiration_time ≡ deadline)
        successor_of_none absent deadline r h =
            subst (λ x. IsSuccessor (as_resource x) deadline r) absent h

        successor_of_some :
            (o : Resource)
            → peek c.store key ≡ some (resource o)
            → (deadline : ℕ) (r : Resource) → IsSuccessor (entry lru c key) deadline r
            → r ≡ o
        successor_of_some o stored deadline r h =
            subst (λ x. IsSuccessor (as_resource x) deadline r) stored h

    pub delete_own :
        (req : ℕ)
        → abstraction lru (delete_request lru c key req).after key
          ≡ next_entry c.ttl (deleting_request req) (abstraction lru c key)
    unfolding next_entry
    delete_own req =
        let (same, result, erased) = delete_request_lem lru wf key req in
        ap₂ entry_of same erased ∙ (elim (entry_cases lru wf key) [
          | inl absent ↦ rw absent refl
          | inr (o, a, f) ↦ rw f.0 refl
        ])

    pub delete_key_own : abstraction lru (delete_key lru c key).after key ≡ none
    unfolding delete_key
    delete_key_own = elim (entry_cases lru wf key) [
      | inl absent ↦
          rw (lru.get_value c.store key ∙ absent, delete_key)
            (no_entry (got lru c key) key (lru.get_keeps c.store key key ∙ absent))
      | inr (o, a, f) ↦
          rw (lru.get_value c.store key ∙ f.0, delete_key)
            (no_entry (record c { store = (remove (got lru c key).store key).0 }) key
              (lru.remove_self _ key))
    ]

    -- Fetch keeps an entry that is not past its deadline at one of the two readings.
    fetch_keeps :
        (o : Resource) (now later : ℕ)
        → peek c.store key ≡ some (resource o)
        → (is_expired o now && is_expired o later) ≡ false
        → abstraction lru (fetch lru c key now later).after key ≡ some (old o)
    unfolding fetch fetch_read fetch_locked
    fetch_keeps o now later stored one = elim (Bool-cases (is_expired o now)) [
      | inr fresh ↦
          rw (lru.get_value c.store key ∙ stored, fetch, fetch_read, fresh) (got_held stored)
      | inl stale ↦
          (let unread : fetch_read lru c key now ≡ none =
              rw (lru.get_value c.store key ∙ stored, fetch_read) (rw stale refl) in
            let fresh : is_expired o later ≡ false = ground (arith, stale, one) in
            let again = lru.get_keeps c.store key key ∙ stored in
            rw (unread, fetch)
              (rw (lru.get_value (got lru c key).store key ∙ again, fetch_locked, fresh)
                (stored_entry (got lru (got lru c key) key) key o
                  (lru.get_keeps (got lru c key).store key key ∙ again) refl refl refl)))
    ]
      where
        got_held :
            peek c.store key ≡ some (resource o)
            → abstraction lru (got lru c key) key ≡ some (old o)
        got_held stored =
            stored_entry (got lru c key) key o (lru.get_keeps c.store key key ∙ stored) refl refl
              refl

    next_fetch :
        (o : Resource) (now later : ℕ)
        → next_entry c.ttl (fetching now later) (some (old o))
          ≡ (if is_expired o now && is_expired o later then none else some (old o))
    unfolding next_entry is_expired
    next_fetch o now later = refl

    pub fetch_own :
        (now later : ℕ)
        → abstraction lru (fetch lru c key now later).after key
          ≡ next_entry c.ttl (fetching now later) (abstraction lru c key)
    unfolding next_entry fetch fetch_read
    fetch_own now later = elim (entry_cases lru wf key) [
      | inl absent ↦
          rw (lru.get_value c.store key ∙ absent, fetch, fetch_read)
            (no_entry (got lru c key) key (lru.get_keeps c.store key key ∙ absent)
              ∙ ap (next_entry c.ttl (fetching now later)) (sym (no_entry c key absent)))
      | inr (o, a, f) ↦ elim (Bool-cases (is_expired o now && is_expired o later)) [
        | inr one ↦
            fetch_keeps o now later f.0 one
            ∙ sym (
                ap (next_entry c.ttl (fetching now later)) (held o f.0)
                ∙ next_fetch o now later
                ∙ rw one refl)
        | inl both ↦
            no_entry (fetch lru c key now later).after key
              (fetch_expired lru c key o now later f.0 (first _ _ both) (second _ _ both)).2
            ∙ sym (
                ap (next_entry c.ttl (fetching now later)) (held o f.0)
                ∙ next_fetch o now later
                ∙ rw both refl)
      ]
    ]
      where
        first : (a b : Bool) → (a && b) ≡ true → a ≡ true
        first a b h = ground arith

        second : (a b : Bool) → (a && b) ≡ true → b ≡ true
        second a b h = ground arith
