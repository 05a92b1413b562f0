-- ===== src/Cache/Spec.antt =====
-- What a client of the cache (internal/app/cache) may assume: each key has an entry or none, a call
-- changes the entry of its key, and answers, in a way that depends on that entry alone, and at any call
-- the entry of another key may be dropped.
use xds_relay.Prelude.{
  ℕ, String, append, Bool, ◌&&◌, ◌≡◌, ◌≢◌, ◌⊎◌, Option, none, some, List, [], ◌∷◌, if◌then◌else◌,
}
use xds_relay.Transport.Response.{Response}
use xds_relay.Cache.Lru.{Lru}
use xds_relay.Cache.Resource.{Resource, Stored, is_expired, get_expiration_time}
use xds_relay.Cache.Requests.{Heap, insert, erase}
use xds_relay.Outcome.{Outcome, ok, err, panic}
use xds_relay.Cache.Ops.{Cache, fetch, set_response, add_request, delete_request, delete_key}
use xds_relay.Cache.View.{entry, watchers, watchers_of}

pub record Entry : Type 0 where
  pub resp : Option Response
  pub requests : List ℕ
  pub expiration_time : ℕ

pub data Call : Type 0 where
  fetching : ℕ → ℕ → Call
  setting_response : Response → ℕ → Call
  adding_request : ℕ → ℕ → Call
  deleting_request : ℕ → Call
  deleting_key : Call

abbrev pub expires : Entry → ℕ → Bool
expires e now =
    is_expired (record { resp = none; requests = none; expiration_time = e.expiration_time }) now

-- What a call makes of the entry of its key.
unfoldable pub next_entry : ℕ → Call → Option Entry → Option Entry
next_entry ttl (fetching now later) none = none
next_entry ttl (fetching now later) (some e) =
    if expires e now && expires e later then none else some e
next_entry ttl (setting_response resp now) none =
    some (record { resp = some resp; requests = []; expiration_time = get_expiration_time ttl now })
next_entry ttl (setting_response resp now) (some e) =
    some (record e { resp = some resp; expiration_time = get_expiration_time ttl now })
next_entry ttl (adding_request req now) none = some (record {
  resp = none;
  requests = insert req [];
  expiration_time = get_expiration_time ttl now;
})
next_entry ttl (adding_request req now) (some e) =
    some (record e { requests = insert req e.requests })
next_entry ttl (deleting_request req) none = none
next_entry ttl (deleting_request req) (some e) = some (record e { requests = erase req e.requests })
next_entry ttl deleting_key o = none

-- What a call returns: an error, nothing, an entry or none, or the requests that are registered.
pub data Answer : Type 0 where
  failed : String → Answer
  done : Answer
  fetched : Option Entry → Answer
  registered : List ℕ → Answer
  crashed : Answer

unfoldable pub next_answer : String → Call → Option Entry → Answer
next_answer key (fetching now later) none = failed (append "no value found for key: " key)
next_answer key (fetching now later) (some e) =
    fetched (if expires e now && expires e later then none else some e)
next_answer key (setting_response resp now) none = registered []
next_answer key (setting_response resp now) (some e) = registered e.requests
next_answer key (adding_request req now) o = Answer.done
next_answer key (deleting_request req) o = Answer.done
next_answer key deleting_key none =
    failed (append "unable to delete entry for nonexistent key: " key)
next_answer key deleting_key (some e) = Answer.done

-- One call and its answer, on abstract caches.
pub data Allows (ttl : ℕ) (key : String) (call : Call) (answer : Answer)
    (f g : String → Option Entry) : Type 0 where
  allows :
      g key ≡ next_entry ttl call (f key)
      → answer ≡ next_answer key call (f key)
      → ((j : String) → key ≢ j → (g j ≡ f j) ⊎ (g j ≡ none))
      → Allows ttl key call answer f g

-- A sequence of calls and their answers.
pub data AllowsAll (ttl : ℕ)
    : List (String × Call)
      → List Answer
      → (String → Option Entry)
      → (String → Option Entry)
      → Type 0 where
  done : {f : String → Option Entry} → AllowsAll ttl [] [] f f
  next :
      {key : String} {call : Call} {answer : Answer} {calls : List (String × Call)}
      {answers : List Answer} {f g h : String → Option Entry}
      → Allows ttl key call answer f g
      → AllowsAll ttl calls answers g h
      → AllowsAll ttl ((key, call) ∷ calls) (answer ∷ answers) f h

abbrev pub entry_of : Option Resource → List ℕ → Option Entry
entry_of none requests = none
entry_of (some r) requests =
    some (record { resp = r.resp; requests = requests; expiration_time = r.expiration_time })

-- The results of the methods, with the pointers to requests followed.
abbrev pub view_entry : Heap → Option Resource → Option Entry
view_entry h none = none
view_entry h (some r) = entry_of (some r) (watchers_of h r.requests)

abbrev pub view_fetched : Heap → Outcome (Option Resource) → Answer
view_fetched h (ok o) = fetched (view_entry h o)
view_fetched h (err e) = failed e
view_fetched h panic = crashed

abbrev pub view_set : Heap → Outcome (Option ℕ) → Answer
view_set h (ok p) = registered (watchers_of h p)
view_set h (err e) = failed e
view_set h panic = crashed

abbrev pub view_done : Outcome (Unit {0}) → Answer
view_done (ok u) = Answer.done
view_done (err e) = failed e
view_done panic = crashed

module _ (lru : Lru Stored) where
  open lru use {State}

  -- What a cache holds: the pointers to requests are followed, and the order of use is forgotten.
  abbrev pub abstraction : Cache State → String → Option Entry
  abstraction c key = entry_of (entry lru c key) (watchers lru c key)

  -- The cache after a call.
  unfoldable pub after_call : Cache State → String → Call → Cache State
  unfolding fetch set_response add_request delete_request delete_key
  after_call c key (fetching now later) = (fetch lru c key now later).after
  after_call c key (setting_response resp now) = (set_response lru c key resp now).after
  after_call c key (adding_request req now) = (add_request lru c key req now).after
  after_call c key (deleting_request req) = (delete_request lru c key req).after
  after_call c key deleting_key = (delete_key lru c key).after

  unfoldable pub after_calls : Cache State → List (String × Call) → Cache State
  unfolding after_call
  after_calls c [] = c
  after_calls c ((key, call) ∷ calls) = after_calls (after_call c key call) calls

  -- What a call returns.
  unfoldable pub answer_of : Cache State → String → Call → Answer
  unfolding fetch set_response add_request delete_request delete_key
  answer_of c key (fetching now later) =
      let e = fetch lru c key now later in view_fetched e.after.heap e.result
  answer_of c key (setting_response resp now) =
      let e = set_response lru c key resp now in view_set e.after.heap e.result
  answer_of c key (adding_request req now) = view_done (add_request lru c key req now).result
  answer_of c key (deleting_request req) = view_done (delete_request lru c key req).result
  answer_of c key deleting_key = view_done (delete_key lru c key).result

  unfoldable pub answers : Cache State → List (String × Call) → List Answer
  unfolding answer_of after_call
  answers c [] = []
  answers c ((key, call) ∷ calls) = answer_of c key call ∷ answers (after_call c key call) calls
