-- ===== src/Tests/Relaying.antt =====
-- The orchestrator, on the data of Fixtures.
use xds_relay.Prelude.{
  ℕ, String, Bool, true, false, ◌≡◌, ◌≢◌, refl, arith, ◌⊎◌, Option, none, some, List, [], ◌∷◌,
}
use xds_relay.Outcome.{Outcome, ok, err, panic, ◌>>=◌, map_ok}
use xds_relay.Transport.Request.{Request}
use xds_relay.Cache.Resource.{Resource, resource, is_expired, get_expiration_time}
use xds_relay.Cache.Single.{slot_peek, slot_evicted}
use xds_relay.Cache.Requests.{erase, insert}
use xds_relay.Cache.View.{entry, watchers}
use xds_relay.Orchestrator.Assoc.{lookup}
use xds_relay.Orchestrator.Downstream.{Downstream, get, has_key, find_or_create}
use xds_relay.Orchestrator.Upstream
use xds_relay.Orchestrator.Upstream.{exists, delete_step, loading, closing, forgetting, returned}
use xds_relay.Orchestrator.Watches
use xds_relay.Orchestrator.Watches.{find_or_create_lem, delete_found}
use xds_relay.Orchestrator.Streams
use xds_relay.Orchestrator.Streams.{find}
use xds_relay.Orchestrator.Shutdowns.{delete_race}
use xds_relay.Orchestrator.State.{Relay, await_shutdown, on_cache_evicted, fanout}
use xds_relay.Orchestrator.Watching.{
  create_watch, cancel_watch, clear_cache_entries, on_response, on_upstream_closed,
}
use xds_relay.Orchestrator.Consistency.{IsConsistent, on_cache_evicted_lem}
use xds_relay.Orchestrator.Fanout.{Sends, fanout_lem}
use xds_relay.Orchestrator.Opening.{create_watch_lem}
use xds_relay.Orchestrator.Responses.{on_response-Sends}
use xds_relay.Orchestrator.Expiry.{create_watch_expired}
use xds_relay.Orchestrator.Histories.{
  Event, new_relay, step, Dereferences, Reaches, step-IsConsistent, Reaches-IsConsistent,
}
use xds_relay.Transport.Watch.{is_closed, watch_v2}
use xds_relay.Transport.WatchV2.{new_watch}
use xds_relay.Prelude.Int.{ℤ}
use xds_relay.Orchestrator.Closing.{
  cancel_watch_lem, clear_cache_entries_lem, on_upstream_closed_fresh, on_upstream_closed_expired,
}
use xds_relay.Tests.Fixtures.{
  lru, pending, second_request, response, one_downstream, one_downstream-IsSound, one_upstream,
  one_upstream-IsSound, first_request, one_channel, one_relay, one_relay-IsConsistent, stored_k,
}

abbrev Lru1 : Type 0
Lru1 = Relay (lru.State)

there : get one_downstream 7 ≡ some 0
unfolding get lookup
there = refl

found : find one_upstream "k" ≡ some one_channel
unfolding lookup
found = refl

on_response-Sends_example :
    (r : Lru1) × (on_response lru one_relay "k" (response "1") (3, 4, 5) ≡ ok r)
    × Sends (response "1") (watchers lru one_relay.cache "k") one_downstream r.downstream
    × (r.upstream ≡ one_upstream)
    × ((res : Resource) × (lru.peek r.cache.store "k" ≡ some (resource res))
        × (res.resp ≡ some (response "1")))
on_response-Sends_example =
    on_response-Sends lru one_relay "k" (response "1") 3 4 5 one_relay-IsConsistent
      (resource pending) stored_k (omega arith)

abbrev key_k : Request → Outcome String
key_k req = ok "k"

create_watch_lem_example :
    (r : Lru1) × (out : Option ℕ × Bool) × (create_watch lru key_k one_relay 8 second_request
        (3, 4, 5)
      ≡ ok (r, out))
    × IsConsistent lru r
    × (out.0 ≡ some (find_or_create one_downstream 8 second_request).1)
    × ((key : String)
        → key_k second_request ≡ ok key
        → (out.1 ≡ true) × (exists r.upstream key ≡ true))
    × ((e : String) → key_k second_request ≡ err e → (out.1 ≡ false) × (get r.downstream 8 ≡ none))
create_watch_lem_example =
    create_watch_lem lru key_k one_relay 8 second_request (3, 4, 5) one_relay-IsConsistent
      (λ p. cc p)

cancel_watch_lem_example :
    (r : Lru1) × (cancel_watch lru one_relay "k" 7 ≡ ok r)
    × IsConsistent lru r
    × Watches.Deletes (7 ∷ []) one_downstream r.downstream
    × (watchers lru r.cache "k" ≡ erase 7 (watchers lru one_relay.cache "k"))
    × (entry lru r.cache "k" ≡ entry lru one_relay.cache "k")
    × ((j : String)
        → "k" ≢ j
        → (lru.peek r.cache.store j ≡ lru.peek one_relay.cache.store j)
          × (watchers lru r.cache j ≡ watchers lru one_relay.cache j))
    × (r.upstream ≡ one_upstream)
cancel_watch_lem_example = cancel_watch_lem lru one_relay "k" 7 one_relay-IsConsistent

clear_cache_entries_lem_example :
    (r : Lru1) × (errors : List String) × (clear_cache_entries lru one_relay ("k" ∷ "j" ∷ [])
      ≡ ok (r, errors))
    × IsConsistent lru r
    × ((k : String) → has_key k ("k" ∷ "j" ∷ []) ≡ true → lru.peek r.cache.store k ≡ none)
    × ((k : String)
        → has_key k ("k" ∷ "j" ∷ []) ≡ false
        → lru.peek r.cache.store k ≡ lru.peek one_relay.cache.store k)
clear_cache_entries_lem_example =
    clear_cache_entries_lem lru one_relay ("k" ∷ "j" ∷ []) one_relay-IsConsistent

on_upstream_closed_fresh_example :
    (r : Lru1) × (on_upstream_closed lru one_relay "k" (9, 9) ≡ ok r)
    × IsConsistent lru r
    × Watches.Deletes (watchers lru one_relay.cache "k") one_downstream r.downstream
    × Streams.Deletes "k" one_upstream r.upstream
    × (lru.peek r.cache.store "k" ≡ some (resource pending))
unfolding is_expired
on_upstream_closed_fresh_example =
    on_upstream_closed_fresh lru one_relay "k" pending 9 9 one_relay-IsConsistent stored_k refl

on_upstream_closed_expired_example : on_upstream_closed lru one_relay "k" (11, 12) ≡ panic
unfolding is_expired
on_upstream_closed_expired_example =
    on_upstream_closed_expired lru one_relay "k" pending 11 12 one_relay-IsConsistent stored_k refl
      refl

on_cache_evicted_lem_example :
    (r : Lru1) × (on_cache_evicted one_relay "k" pending ≡ ok r)
    × IsConsistent lru r
    × (r.cache ≡ one_relay.cache)
    × Watches.Deletes (7 ∷ []) one_downstream r.downstream
    × Streams.Deletes "k" one_upstream r.upstream
on_cache_evicted_lem_example =
    on_cache_evicted_lem lru one_relay "k" pending 0 one_relay-IsConsistent refl

fanout_lem_example :
    (d : Downstream) × (fanout one_downstream (response "1") (7 ∷ 9 ∷ 7 ∷ []) ≡ ok d)
    × Watches.IsSound d
    × Sends (response "1") (7 ∷ 9 ∷ 7 ∷ []) one_downstream d
fanout_lem_example =
    fanout_lem one_downstream (response "1") (7 ∷ 9 ∷ 7 ∷ []) one_downstream-IsSound

delete_race_example :
    ((delete_step "k" one_upstream loading >>= λ p.
    delete_step "k" p.0 p.1 >>= λ q. delete_step "k" q.0 q.1)
      ≡ map_ok (λ v. (v, returned)) (Upstream.delete one_upstream "k"))
    × (delete_step "k" one_upstream loading ≡ ok (one_upstream, closing one_channel))
    × (v : Upstream.Upstream) × (delete_step "k" one_upstream (closing one_channel)
        ≡ ok (v, forgetting))
    × (delete_step "k" v (closing one_channel) ≡ panic)
    × ((delete_step "k" v forgetting >>= λ p. delete_step "k" p.0 (closing one_channel)) ≡ panic)
delete_race_example = delete_race one_upstream "k" one_channel one_upstream-IsSound found

create_watch_expired_example :
    (r : Lru1) × (create_watch lru key_k one_relay 8 second_request (3, 11, 12)
      ≡ ok (r, (some (find_or_create one_downstream 8 second_request).1, true)))
    × (is_closed (r.downstream.heap (find_or_create one_downstream 8 second_request).1) ≡ true)
    × (get r.downstream 8 ≡ none)
unfolding is_expired
create_watch_expired_example =
    create_watch_expired lru key_k one_relay 8 second_request "k" 3 11 12 pending
      one_relay-IsConsistent refl stored_k refl refl

step-IsConsistent_example :
    ((r : Lru1) × (step lru key_k one_relay (Event.upstream_closed "k" (11, 12)) ≡ ok r)
      × IsConsistent lru r)
    ⊎ ((step lru key_k one_relay (Event.upstream_closed "k" (11, 12)) ≡ panic)
        × Dereferences lru key_k one_relay (Event.upstream_closed "k" (11, 12)))
step-IsConsistent_example =
    step-IsConsistent lru key_k one_relay (Event.upstream_closed "k" (11, 12))
      one_relay-IsConsistent (λ req p. cc p)

-- A new relay after a stream was told to stop.
abbrev stopped_relay : Lru1
stopped_relay = record {
  cache = record { store = none; heap = record { cell = λ a. []; next = 0 }; ttl = 5 };
  downstream = record { watches = []; heap = λ a. watch_v2 new_watch; next = 0 };
  upstream = record { channels = []; is_done = λ a. false; next = 0 };
  tasks = await_shutdown ∷ [];
  next_stream = 0;
  cancelled = 0 ∷ [];
}

stopped_reached : Reaches lru key_k (ℤ.pos 5) stopped_relay
unfolding new_relay step
stopped_reached = Reaches.next (Event.stopped one_channel) (Reaches.fresh refl) refl

abbrev relay_of : Outcome Lru1 → Lru1
relay_of (ok r) = r
relay_of (err e) = stopped_relay
relay_of panic = stopped_relay

-- Then a watch is made, a response arrives, the cache is read, and the streams are shut down.
abbrev watched : Lru1
watched = relay_of (step lru key_k stopped_relay (Event.watch_created 7 first_request (1, 2, 3)))

abbrev answered : Lru1
answered = relay_of (step lru key_k watched (Event.received "k" (response "1") (2, 3, 4)))

abbrev closed_down : Lru1
closed_down = relay_of (step lru key_k answered Event.shut_down)

closed_down_reached : Reaches lru key_k (ℤ.pos 5) closed_down
unfolding step slot_peek slot_evicted is_expired get_expiration_time insert
closed_down_reached =
    Reaches.next Event.shut_down
      (Reaches.next (Event.received "k" (response "1") (2, 3, 4))
        (Reaches.next (Event.watch_created 7 first_request (1, 2, 3)) stopped_reached refl) refl)
      refl

Reaches-IsConsistent_example : IsConsistent lru closed_down
Reaches-IsConsistent_example =
    Reaches-IsConsistent lru key_k (ℤ.pos 5) closed_down closed_down_reached (λ req p. cc p)
