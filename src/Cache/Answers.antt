-- ===== src/Cache/Answers.antt =====
-- What each method of the cache returns (cache.go), in terms of the abstract entry of its key.
use xds_relay.Prelude.{
  ℕ, String, ◌&&◌, ◌≡◌, refl, sym, ap, ◌∙◌, inl, inr, none, some, Bool-cases, if◌then◌else◌,
}
use xds_relay.Transport.Response.{Response}
use xds_relay.Cache.Lru.{Lru}
use xds_relay.Cache.Resource.{Resource, Stored, resource, is_expired}
use xds_relay.Cache.Ops.{Cache, got, fetch, fetch_read, fetch_locked, set_response, delete_key}
use xds_relay.Cache.View.{IsWellFormed, watchers_some, watchers_none}
use xds_relay.Cache.Entries.{entry_cases}
use xds_relay.Cache.Reads.{set_response_lem, add_request_lem, delete_request_lem}
use xds_relay.Cache.Implements.{old, held, no_entry}
use xds_relay.Cache.Spec.{
  fetching, setting_response, adding_request, deleting_request, deleting_key, next_answer, fetched,
  registered, abstraction, view_set, view_done, answer_of,
}

module _ (lru : Lru Stored) where
  open lru use {State, peek, remove}

  module _ {c : Cache State} (wf : IsWellFormed lru c) (key : String) where
    pub set_answer :
        (resp : Response) (now : ℕ)
        → answer_of lru c key (setting_response resp now)
          ≡ next_answer key (setting_response resp now) (abstraction lru c key)
    unfolding answer_of next_answer
    set_answer resp now =
        let (r, stored, result, responded, deadline, kept) = set_response_lem lru wf key resp now in
        let seen = ap (view_set (set_response lru c key resp now).after.heap) result in
        elim (entry_cases lru wf key) [
          | inl absent ↦
              seen
              ∙ ap registered (kept ∙ watchers_none lru c.store c.heap key absent)
              ∙ ap (next_answer key (setting_response resp now)) (sym (no_entry lru c key absent))
          | inr (o, a, f) ↦
              seen
              ∙ ap registered (kept ∙ watchers_some lru c.store c.heap key f.0)
              ∙ ap (next_answer key (setting_response resp now)) (sym (held lru wf key o f.0))
        ]

    pub add_answer :
        (req now : ℕ)
        → answer_of lru c key (adding_request req now)
          ≡ next_answer key (adding_request req now) (abstraction lru c key)
    unfolding answer_of next_answer
    add_answer req now =
        let (r, stored, result, added, succeeds) = add_request_lem lru wf key req now in
        ap (view_done) result

    pub delete_answer :
        (req : ℕ)
        → answer_of lru c key (deleting_request req)
          ≡ next_answer key (deleting_request req) (abstraction lru c key)
    unfolding answer_of next_answer
    delete_answer req = ap (view_done) (delete_request_lem lru wf key req).1

    pub delete_key_answer :
        answer_of lru c key deleting_key ≡ next_answer key deleting_key (abstraction lru c key)
    unfolding answer_of delete_key next_answer
    delete_key_answer = elim (entry_cases lru wf key) [
      | inl absent ↦
          rw (lru.get_value c.store key ∙ absent, delete_key) refl
          ∙ ap (next_answer key deleting_key) (sym (no_entry lru c key absent))
      | inr (o, a, f) ↦
          rw (lru.get_value c.store key ∙ f.0, delete_key) refl
          ∙ ap (next_answer key deleting_key) (sym (held lru wf key o f.0))
    ]

    -- Fetch of an entry that is there.
    fetch_held :
        (o : Resource) (now later : ℕ)
        → peek c.store key ≡ some (resource o)
        → answer_of lru c key (fetching now later)
          ≡ fetched
              (if is_expired o now && is_expired o later then none else some (old lru wf key o))
    unfolding answer_of fetch fetch_read fetch_locked
    fetch_held o now later stored = elim (Bool-cases (is_expired o now)) [
      | inr fresh ↦ rw (lru.get_value c.store key ∙ stored, fetch, fetch_read, fresh) refl
      | inl stale ↦
          (let unread : fetch_read lru c key now ≡ none =
              rw (lru.get_value c.store key ∙ stored, fetch_read) (rw stale refl) in
            let again = lru.get_keeps c.store key key ∙ stored in
            elim (Bool-cases (is_expired o later)) [
              | inr fresh ↦
                  rw (unread, fetch)
                    (rw
                      (lru.get_value (got lru c key).store key ∙ again, fetch_locked, stale, fresh)
                      refl)
              | inl expired ↦
                  rw (unread, fetch)
                    (rw
                      (
                        lru.get_value (got lru c key).store key ∙ again,
                        fetch_locked,
                        stale,
                        expired,
                      )
                      refl)
            ])
    ]

    pub fetch_answer :
        (now later : ℕ)
        → answer_of lru c key (fetching now later)
          ≡ next_answer key (fetching now later) (abstraction lru c key)
    unfolding answer_of next_answer fetch fetch_read is_expired
    fetch_answer now later = elim (entry_cases lru wf key) [
      | inl absent ↦
          rw (lru.get_value c.store key ∙ absent, fetch, fetch_read) refl
          ∙ ap (next_answer key (fetching now later)) (sym (no_entry lru c key absent))
      | inr (o, a, f) ↦
          fetch_held o now later f.0
          ∙ ap (next_answer key (fetching now later)) (sym (held lru wf key o f.0))
    ]
