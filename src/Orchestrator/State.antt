-- ===== src/Orchestrator/State.antt =====
-- The orchestrator's state and the parts of its methods (orchestrator.go). The mapper, the upstream
-- client and the clock are arguments: GetKey is a function of the request, OpenStream returns a
-- fresh stream address, and every reading of the clock is a number that the caller supplies.
use xds_relay.Prelude.{
  ℕ, suc, String, Bool, true, false, not, ◌&&◌, Option, none, some, List, [], ◌∷◌, str_eq,
  if◌then◌else◌,
}
use xds_relay.Outcome.{Outcome, ok, err, panic, ◌>>=◌}
use xds_relay.Transport.Request.{Request, get_version_info, get_error}
use xds_relay.Transport.Response.{Response, get_payload_version}
use xds_relay.Transport.Watch.{send}
use xds_relay.Cache.Resource.{Resource, Stored}
use xds_relay.Cache.Requests.{for_each}
use xds_relay.Cache.Ops.{Cache, Effect, evicted_resource}
use xds_relay.Orchestrator.Downstream
use xds_relay.Orchestrator.Downstream.{Downstream, put}
use xds_relay.Orchestrator.Upstream
use xds_relay.Orchestrator.Upstream.{Upstream, UpstreamChannel}

-- The goroutines that the orchestrator starts: one that pushes a cached response to a watch, one that
-- watches the upstream stream of a key, and one that shuts the streams down at the end.
pub data Task : Type 0 where
  push : ℕ → Response → Task
  watch_upstream : String → UpstreamChannel → Task
  await_shutdown : Task

pub record Relay (S : Type 0) : Type 0 where
  pub cache : Cache S
  pub downstream : Downstream
  pub upstream : Upstream
  pub tasks : List Task
  pub next_stream : ℕ
  pub cancelled : List ℕ

abbrev pub is_none : {A : Type 0} → Option A → Bool
is_none none = true
is_none (some _) = false

-- The test for a cached response that the client does not have, of a request that is no NACK.
abbrev pub is_news : Request → Response → Bool
is_news req resp =
    not (str_eq (get_payload_version resp) (get_version_info req)) && is_none (get_error req)

module _ {S : Type 0} where
  -- onCacheEvicted: the watchers of the resource and the stream of the key are shut down.
  unfoldable pub on_cache_evicted : Relay S → String → Resource → Outcome (Relay S)
  unfolding for_each Downstream.delete_all Upstream.delete
  on_cache_evicted r key res = for_each r.cache.heap res.requests >>= λ reqs.
      Downstream.delete_all r.downstream reqs >>= λ d.
      Upstream.delete r.upstream key >>= λ u. ok (record r { downstream = d; upstream = u })

  -- The callback that the cache runs for an entry that it evicts.
  unfoldable pub run_eviction : Relay S → Option (String × Stored) → Outcome (Relay S)
  unfolding evicted_resource on_cache_evicted
  run_eviction r none = ok r
  run_eviction r (some (key, stored)) =
      evicted_resource stored >>= λ res. on_cache_evicted r key res

  -- A method's result as a value; a panic unwinds the caller.
  unfoldable pub report : {A : Type 0} → Relay S → Outcome A → Outcome (Relay S × Outcome A)
  report r panic = panic
  report r (ok a) = ok (r, ok a)
  report r (err e) = ok (r, err e)

  -- A method of the cache, with the callback that it ran on the way.
  unfoldable pub run_cache : {A : Type 0} → Relay S → Effect S A → Outcome (Relay S × Outcome A)
  unfolding run_eviction report
  run_cache r e = run_eviction (record r { cache = e.after }) e.evicted >>= λ r'. report r' e.result

  -- The failure paths of CreateWatch: the watch is closed and returned, with no cancel function.
  unfoldable pub give_up : Relay S → ℕ → Outcome (Relay S × (Option ℕ × Bool))
  unfolding Downstream.delete
  give_up r req =
      Downstream.delete r.downstream req >>= λ p. ok (record r { downstream = p.0 }, (p.1, false))

  unfoldable pub push_cached : Relay S → ℕ → Request → Outcome (Option Resource) → Relay S
  push_cached r watch req (ok (some res)) = elim res.resp [
    | none ↦ r
    | some resp ↦ if is_news req resp then record r { tasks = push watch resp ∷ r.tasks } else r
  ]
  push_cached r watch req (ok none) = r
  push_cached r watch req (err e) = r
  push_cached r watch req panic = r

  -- OpenStream and `add`: the goroutine is started for the stream that is the key's, and another
  -- one is shut down at once.
  unfoldable pub open_stream : Relay S → String → Relay S
  unfolding Upstream.add_channel
  open_stream r key =
      let p = Upstream.add_channel r.upstream key r.next_stream in
      let opened = record r { upstream = p.0; next_stream = suc r.next_stream } in
      if p.1.1
      then record opened { cancelled = r.next_stream ∷ r.cancelled }
      else record opened { tasks = watch_upstream key p.1.0 ∷ r.tasks }

  unfoldable pub ensure_upstream : Relay S → String → Relay S
  unfolding open_stream Upstream.exists
  ensure_upstream r key = if Upstream.exists r.upstream key then r else open_stream r key

-- One goroutine of fanout: the response is sent to the request's watch, if it has one. A blocked
-- channel is logged.
unfoldable pub fanout_one : Downstream → Response → ℕ → Outcome Downstream
unfolding Downstream.get send
fanout_one d resp req = elim (Downstream.get d req) [
  | none ↦ ok d
  | some a ↦ elim (send (d.heap a) resp) [
    | ok w ↦ ok (record d { heap = put d.heap a w })
    | err e ↦ ok d
    | panic ↦ panic
  ]
]

-- The goroutine that pushes a cached response to a watch. A full channel is logged.
unfoldable pub push_response : Downstream → ℕ → Response → Outcome Downstream
unfolding send
push_response d watch resp = elim (send (d.heap watch) resp) [
  | ok w ↦ ok (record d { heap = put d.heap watch w })
  | err e ↦ ok d
  | panic ↦ panic
]

-- fanout: the goroutines send to different watches, so that their order does not matter.
unfoldable pub fanout : Downstream → Response → List ℕ → Outcome Downstream
unfolding fanout_one
fanout d resp [] = ok d
fanout d resp (req ∷ reqs) = fanout_one d resp req >>= λ d'. fanout d' resp reqs
