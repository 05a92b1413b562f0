-- ===== src/Cache/Refines.antt =====
-- The cache's methods implement the abstract cache of Spec (cache.go).
use xds_relay.Prelude.{String, ◌≡◌, ◌≢◌, subst, ◌⊎◌, none, List, [], ◌∷◌}
use xds_relay.Cache.Lru.{Lru}
use xds_relay.Cache.Resource.{Stored}
use xds_relay.Cache.Ops.{Cache}
use xds_relay.Cache.View.{IsWellFormed}
use xds_relay.Cache.Keeps.{
  fetch-IsGood, set_response-IsGood, add_request-IsGood, delete_request-IsGood, delete_key-IsGood,
}
use xds_relay.Cache.Frames.{set_response-IsFramed, add_request-IsFramed}
use xds_relay.Cache.Removals.{delete_request-IsFramed, delete_key-IsFramed, fetch-IsFramed}
use xds_relay.Cache.Spec.{
  Call, fetching, setting_response, adding_request, deleting_request, deleting_key, next_entry,
  allows, AllowsAll, abstraction, after_call, after_calls, next_answer, answer_of, answers,
}
use xds_relay.Cache.Ttl.{
  set_response_ttl, add_request_ttl, delete_request_ttl, delete_key_ttl, fetch_ttl,
}
use xds_relay.Cache.Answers.{set_answer, add_answer, delete_answer, delete_key_answer, fetch_answer}
use xds_relay.Cache.Implements.{framed, set_own, add_own, delete_own, delete_key_own, fetch_own}

module _ (lru : Lru Stored) where
  open lru use {State}

  module _ {c : Cache State} (wf : IsWellFormed lru c) (key : String) where
    call_own :
        (call : Call)
        → abstraction lru (after_call lru c key call) key
          ≡ next_entry c.ttl call (abstraction lru c key)
    unfolding after_call next_entry
    call_own (fetching now later) = fetch_own lru wf key now later
    call_own (setting_response resp now) = set_own lru wf key resp now
    call_own (adding_request req now) = add_own lru wf key req now
    call_own (deleting_request req) = delete_own lru wf key req
    call_own deleting_key = delete_key_own lru wf key

    call_answer :
        (call : Call) → answer_of lru c key call ≡ next_answer key call (abstraction lru c key)
    unfolding answer_of
    call_answer (fetching now later) = fetch_answer lru wf key now later
    call_answer (setting_response resp now) = set_answer lru wf key resp now
    call_answer (adding_request req now) = add_answer lru wf key req now
    call_answer (deleting_request req) = delete_answer lru wf key req
    call_answer deleting_key = delete_key_answer lru wf key

    call_others :
        (call : Call) (j : String)
        → key ≢ j
        → (abstraction lru (after_call lru c key call) j ≡ abstraction lru c j)
          ⊎ (abstraction lru (after_call lru c key call) j ≡ none)
    unfolding after_call
    call_others (fetching now later) j n =
        framed lru c _ j (fetch-IsFramed lru wf key j n now later)
    call_others (setting_response resp now) j n =
        framed lru c _ j (set_response-IsFramed lru wf key j n resp now)
    call_others (adding_request req now) j n =
        framed lru c _ j (add_request-IsFramed lru wf key j n req now)
    call_others (deleting_request req) j n =
        framed lru c _ j (delete_request-IsFramed lru wf key j n req)
    call_others deleting_key j n = framed lru c _ j (delete_key-IsFramed lru wf key j n)

    call_keeps : (call : Call) → IsWellFormed lru (after_call lru c key call)
    unfolding after_call
    call_keeps (fetching now later) = (fetch-IsGood lru wf key now later).well_formed
    call_keeps (setting_response resp now) = (set_response-IsGood lru wf key resp now).well_formed
    call_keeps (adding_request req now) = (add_request-IsGood lru wf key req now).well_formed
    call_keeps (deleting_request req) = (delete_request-IsGood lru wf key req).well_formed
    call_keeps deleting_key = (delete_key-IsGood lru wf key).well_formed

    call_ttl : (call : Call) → (after_call lru c key call).ttl ≡ c.ttl
    unfolding after_call
    call_ttl (fetching now later) = fetch_ttl lru wf key now later
    call_ttl (setting_response resp now) = set_response_ttl lru wf key resp now
    call_ttl (adding_request req now) = add_request_ttl lru wf key req now
    call_ttl (deleting_request req) = delete_request_ttl lru wf key req
    call_ttl deleting_key = delete_key_ttl lru wf key

  -- Every sequence of calls on a well-formed cache, whatever its LRU cache evicts, is a sequence of
  -- calls on the abstract cache: each call returns what the specification says of the entry of its own key,
  -- changes that entry as it says, the registered requests behind shared pointers included, and drops
  -- entries of other keys at most. The cache stays well formed.
  pub after_calls-refines :
      (calls : List (String × Call)) (c : Cache State)
      → IsWellFormed lru c
      → AllowsAll c.ttl calls
          (answers lru c calls)
          (abstraction lru c)
          (abstraction lru (after_calls lru c calls))
        × IsWellFormed lru (after_calls lru c calls)
  unfolding after_calls answers
  after_calls-refines [] c wf = (AllowsAll.done, wf)
  after_calls-refines ((key, call) ∷ calls) c wf =
      let (rest, last) =
        after_calls-refines calls (after_call lru c key call) (call_keeps wf key call) in
      (
        AllowsAll.next
            (allows (call_own wf key call) (call_answer wf key call) (call_others wf key call))
            (subst
              (λ ttl.
                AllowsAll ttl calls (answers lru (after_call lru c key call) calls)
                  (abstraction lru (after_call lru c key call))
                  (abstraction lru (after_calls lru (after_call lru c key call) calls)))
              (call_ttl wf key call) rest),
        last,
      )
