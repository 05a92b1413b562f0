-- ===== src/Orchestrator/Downstream.antt =====
-- The map of downstream requests to watches (orchestrator/downstream.go). A request and a watch are
-- addresses; the watch objects are in a heap, since callers keep them after they leave the map. Each
-- operation runs under the map's lock.
use xds_relay.Prelude.{
  ℕ, suc, String, Bool, false, ◌||◌, Option, none, some, List, [], ◌∷◌, ◌==◌, str_eq, if◌then◌else◌,
}
use xds_relay.Outcome.{Outcome, ok, ◌>>=◌}
use xds_relay.Transport.Request.{Request}
use xds_relay.Transport.Watch.{Watch, create_watch, close_watch}
use xds_relay.Orchestrator.Assoc.{nat_key, lookup, remove, add}

pub record Downstream : Type 0 where
  pub watches : List (ℕ × ℕ)
  pub heap : ℕ → Watch
  pub next : ℕ

abbrev pub put : (ℕ → Watch) → ℕ → Watch → ℕ → Watch
put heap a w b = if b == a then w else heap b

-- createWatch: the watch of the request, made if there is none.
unfoldable pub find_or_create : Downstream → ℕ → Request → Downstream × ℕ
unfolding lookup create_watch
find_or_create d req r = elim (lookup req d.watches) [
  | some a ↦ (d, a)
  | none ↦ (
    record d {
      watches = add req d.next d.watches;
      heap = put d.heap d.next (create_watch r);
      next = suc d.next;
    },
    d.next,
  )
]

unfoldable pub get : Downstream → ℕ → Option ℕ
unfolding lookup
get d req = lookup req d.watches

-- Closing the watch of a request and dropping the request: the watch, if there was one.
unfoldable pub delete : Downstream → ℕ → Outcome (Downstream × Option ℕ)
unfolding lookup remove close_watch
delete d req = elim (lookup req d.watches) [
  | none ↦ ok (d, none)
  | some a ↦ close_watch (d.heap a) >>= λ closed.
      ok (record d { watches = remove req d.watches; heap = put d.heap a closed }, some a)
]

-- deleteAll over the requests that ForEach visits.
unfoldable pub delete_all : Downstream → List ℕ → Outcome Downstream
unfolding delete
delete_all d [] = ok d
delete_all d (req ∷ reqs) = delete d req >>= λ p. delete_all p.0 reqs

unfoldable pub has_key : String → List String → Bool
has_key k [] = false
has_key k (j ∷ keys) = str_eq j k || has_key k keys

-- getAggregatedKeys: the set of the requests' keys, or the first error.
module _ (get_key : Request → Outcome String) (request_at : ℕ → Request) where
  unfoldable pub collect_keys : List (ℕ × ℕ) → List String → Outcome (List String)
  unfolding has_key
  collect_keys [] keys = ok keys
  collect_keys ((req, a) ∷ rest) keys = get_key (request_at req) >>= λ key.
      collect_keys rest (if has_key key keys then keys else key ∷ keys)

  unfoldable pub get_aggregated_keys : Downstream → Outcome (List String)
  unfolding collect_keys
  get_aggregated_keys d = collect_keys d.watches []
