-- ===== src/Tests/Serving.antt =====
-- The admin server on the relay of Fixtures, and the server's loop.
use xds_relay.Prelude.{
  Bool, ℕ, String, append, true, false, ◌≡◌, ◌↔◌, refl, ◌⊎◌, inl, inr, Option, none, some, List, [],
  ◌∷◌,
}
use xds_relay.Outcome.{Outcome, ok, panic}
use xds_relay.Transport.Message.{AnyResource}
use xds_relay.Cache.Resource.{is_expired}
use xds_relay.Cache.Single.{slot_peek}
use xds_relay.Orchestrator.Downstream.{has_key, get_aggregated_keys}
use xds_relay.Orchestrator.Aggregated.{IsKeyed}
use xds_relay.Transport.Request.{Request}
use xds_relay.Orchestrator.State.{Relay}
use xds_relay.Orchestrator.Consistency.{IsConsistent}
use xds_relay.Admin.Texts.{base}
use xds_relay.Admin.Paths.{clear_url, get_param, IsSlashFree, get_param_roundtrip}
use xds_relay.Admin.Resources.{Api, Kind, marshal_resources}
use xds_relay.Admin.Reply.{Reply, Payload, blank}
use xds_relay.Admin.Entries.{collect_entries, clear_cache_handler}
use xds_relay.Admin.Versions.{version_handler}
use xds_relay.Admin.Dumping.{Dumps, collect_entries_lem, collect_entries_expired}
use xds_relay.Admin.Clearing.{clear_cache_handler_wildcard}
use xds_relay.Admin.Answers.{version_answer, version_handler_lem}
use xds_relay.Admin.Ready.{ready_handler}
use xds_relay.Server.Serving.{Serving, new_serving, running, Step, Reach, on_state, received}
use xds_relay.Server.Shape.{IsSettled}
use xds_relay.Server.Settled.{Reach-IsSettled, Reach-converges}
use xds_relay.Tests.Fixtures.{
  first_request, types, lru, pending, one_relay, one_relay-IsConsistent, stored_k,
}

-- Every message is its text, and every payload is printed alike.
abbrev decode : Api → Kind → AnyResource → Option String
decode api kind r = some r.value

abbrev print : Payload String → String ⊎ String
print p = inr "json"

abbrev packed : List AnyResource
packed =
    record { type_url = "c2"; value = "a" }
    ∷ record { type_url = "?"; value = "b" }
    ∷ record { type_url = "c3"; value = "d" }
    ∷ []

two_clusters : (marshal_resources types decode packed).clusters ≡ "a" ∷ "d" ∷ []
unfolding marshal_resources
two_clusters = refl

get_param_roundtrip_example :
    (get_param (append clear_url (append "/" "a/b")) clear_url ≡ "a/b") ↔ IsSlashFree "a/b"
get_param_roundtrip_example = get_param_roundtrip clear_url "a/b"

abbrev early : String → ℕ × ℕ
early k = (9, 9)

abbrev late : String → ℕ × ℕ
late k = (11, 12)

slot_j : slot_peek one_relay.cache.store "j" ≡ none
unfolding slot_peek
slot_j = refl

collect_entries_lem_example : Dumps types decode lru early one_relay true ("j" ∷ "k" ∷ [])
unfolding is_expired
collect_entries_lem_example =
    collect_entries_lem types decode lru early ("j" ∷ "k" ∷ []) one_relay true
      (inl slot_j, (inr (pending, 0, stored_k, refl, refl), tt))

collect_entries_expired_example :
    collect_entries types decode lru late one_relay false ("j" ∷ "k" ∷ []) ≡ panic
unfolding is_expired has_key
collect_entries_expired_example =
    collect_entries_expired types decode lru late "k" pending refl refl ("j" ∷ "k" ∷ []) one_relay
      false one_relay-IsConsistent refl stored_k

star_IsSlashFree : IsSlashFree (append "k" "*")
unfolding get_param
star_IsSlashFree = (get_param_roundtrip clear_url (append "k" "*")).0 refl

-- Every request has the key "k".
abbrev all_k : Request → Outcome String
all_k req = ok "k"

abbrev any_request : ℕ → Request
any_request addr = first_request

clear_cache_handler_wildcard_example :
    (r : Relay (lru.State)) × (w : Reply) × (clear_cache_handler print lru one_relay
        (get_aggregated_keys all_k any_request one_relay.downstream)
        "POST"
        (append clear_url (append "/" (append "k" "*")))
        blank
      ≡ ok (r, w))
    × IsConsistent lru r
    × ((k t : String)
        → IsKeyed all_k any_request k one_relay.downstream.watches
        → k ≡ append "k" t
        → lru.peek r.cache.store k ≡ none)
    × ((k : String)
        → ¬ (
            IsKeyed all_k any_request k one_relay.downstream.watches
            × ((t : String) × (k ≡ append "k" t)))
        → lru.peek r.cache.store k ≡ lru.peek one_relay.cache.store k)
unfolding get_aggregated_keys
clear_cache_handler_wildcard_example =
    clear_cache_handler_wildcard print lru all_k any_request one_relay ("k" ∷ []) "k" blank
      one_relay-IsConsistent refl star_IsSlashFree

version_handler_lem_example :
    version_handler print lru early one_relay "/cache/version/j" blank
    ≡ version_answer print lru early one_relay "j" blank none
unfolding base slot_peek
version_handler_lem_example =
    version_handler_lem print lru early one_relay "/cache/version/j" blank
      one_relay-IsConsistent.cache tt

-- The first server is started, and the endpoint is then told to stop it.
abbrev up : Serving
up = on_state true (received [] new_serving)

abbrev stopping : Serving
stopping = record up {
  readiness = (ready_handler print up.readiness "POST" "/ready/false" blank).0;
}

to_stopping : Reach print new_serving stopping
unfolding on_state
to_stopping =
    Reach.next (Reach.next Reach.here (Step.take true [] refl refl))
      (Step.request "POST" "/ready/false" refl)

Reach-IsSettled_example : IsSettled stopping
Reach-IsSettled_example = Reach-IsSettled print to_stopping

stopping_runs : stopping.phase ≡ running
unfolding on_state
stopping_runs = refl

Reach-converges_example :
    ((stopping.readiness.weboff ≡ []) → stopping.current_state ≡ stopping.readiness.ready)
    × ((state : Bool) (left : List Bool)
        → stopping.readiness.weboff ≡ state ∷ left
        → let t = on_state state (received left stopping) in
          (t.phase ≡ running)
          × (t.readiness.weboff ≡ [])
          × (t.current_state ≡ stopping.readiness.ready)
          × (t.readiness.ready ≡ stopping.readiness.ready))
Reach-converges_example = Reach-converges print stopping to_stopping stopping_runs
