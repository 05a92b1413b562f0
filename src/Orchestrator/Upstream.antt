-- ===== src/Orchestrator/Upstream.antt =====
-- The map of aggregated keys to upstream streams (orchestrator/upstream.go): each key has a response
-- channel, which is an address here, and a `done` channel, which is only ever closed.
use xds_relay.Prelude.{
  ℕ, suc, String, Bool, true, false, Option, none, some, List, [], ◌∷◌, ◌==◌, if◌then◌else◌,
}
use xds_relay.Outcome.{Outcome, ok, panic, ◌>>=◌, map_ok}
use xds_relay.Orchestrator.Assoc.{string_key, lookup, remove, add}

pub record UpstreamChannel : Type 0 where
  pub response : ℕ
  pub done : ℕ

pub record Upstream : Type 0 where
  pub channels : List (String × UpstreamChannel)
  pub is_done : ℕ → Bool
  pub next : ℕ

unfoldable pub exists : Upstream → String → Bool
unfolding lookup
exists u key = elim (lookup key u.channels) [ none ↦ false | some _ ↦ true ]

-- LoadOrStore: the channel of the key, and whether it was there before. The `done` channel is made
-- in either case.
unfoldable pub add_channel : Upstream → String → ℕ → Upstream × (UpstreamChannel × Bool)
unfolding lookup
add_channel u key response =
    let made : UpstreamChannel = record { response = response; done = u.next } in
    elim (lookup key u.channels) [
      | some c ↦ (record u { next = suc u.next }, (c, true))
      | none ↦ (record u { channels = add key made u.channels; next = suc u.next }, (made, false))
    ]

-- `close(done)`: the second close panics.
unfoldable pub close_done : Upstream → ℕ → Outcome Upstream
close_done u a =
    if u.is_done a
    then panic
    else ok (record u { is_done = λ b. if b == a then true else u.is_done b })

-- The delete of the map.
unfoldable pub forget : Upstream → String → Upstream
unfolding remove
forget u key = record u { channels = remove key u.channels }

-- `delete` with no other call between its load, its close and its delete.
unfoldable pub delete : Upstream → String → Outcome Upstream
unfolding lookup close_done forget
delete u key = elim (lookup key u.channels) [
  | none ↦ ok u
  | some c ↦ map_ok (λ v. forget v key) (close_done u c.done)
]

-- `delete` in its steps, for calls that run at the same time: at its load, at its close with the
-- channel that it loaded, at its removal, or returned.
pub data Deletion : Type 0 where
  loading : Deletion
  closing : UpstreamChannel → Deletion
  forgetting : Deletion
  returned : Deletion

abbrev pub loaded : Option UpstreamChannel → Deletion
loaded none = returned
loaded (some c) = closing c

unfoldable pub delete_step : String → Upstream → Deletion → Outcome (Upstream × Deletion)
unfolding lookup close_done forget
delete_step key u loading = ok (u, loaded (lookup key u.channels))
delete_step key u (closing c) = map_ok (λ v. (v, forgetting)) (close_done u c.done)
delete_step key u forgetting = ok (forget u key, returned)
delete_step key u returned = ok (u, returned)

-- deleteAll: Range over the entries.
unfoldable pub delete_each : Upstream → List (String × UpstreamChannel) → Outcome Upstream
unfolding close_done forget
delete_each u [] = ok u
delete_each u ((key, c) ∷ rest) = close_done u c.done >>= λ v. delete_each (forget v key) rest

unfoldable pub delete_all : Upstream → Outcome Upstream
unfolding delete_each
delete_all u = delete_each u u.channels
