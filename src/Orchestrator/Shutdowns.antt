-- ===== src/Orchestrator/Shutdowns.antt =====
-- deleteAll of the upstream map, and two deletions of one key at a time (orchestrator/upstream.go).
use xds_relay.Prelude.{
  String, true, ◌≡◌, refl, sym, ap, ◌∙◌, subst, some, if◌then◌else◌, ◌==◌, List, [], ◌∷◌, arith,
}
use xds_relay.Outcome.{ok, panic, ◌>>=◌, map_ok, ok-inj}
use xds_relay.Orchestrator.Assoc.{
  string_key, lookup, remove, lookup-add_self, AreDistinct, remove-add_self,
}
use xds_relay.Orchestrator.Upstream.{
  Upstream, UpstreamChannel, close_done, forget, delete, loading, closing, forgetting, returned,
  delete_step, delete_each, delete_all,
}
use xds_relay.Orchestrator.Streams.{IsSound, find, delete_lem}

-- The map after the `done` channel of a key is closed.
abbrev pub closed_done : Upstream → UpstreamChannel → Upstream
closed_done u c = record u { is_done = λ b. if b == c.done then true else u.is_done b }

close_pending :
    (u : Upstream) (key : String) (c : UpstreamChannel)
    → IsSound u
    → find u key ≡ some c
    → close_done u c.done ≡ ok (closed_done u c)
unfolding close_done
close_pending u key c h there = rw (close_done, h.pending key c there) refl

close_again : (u : Upstream) (c : UpstreamChannel) → close_done (closed_done u c) c.done ≡ panic
unfolding close_done
close_again u c = ground arith

close_forgotten :
    (u : Upstream) (key : String) (c : UpstreamChannel)
    → close_done (forget (closed_done u c) key) c.done ≡ panic
unfolding close_done forget
close_forgotten u key c = ground arith

-- A deletion of a key that has a channel, in the map that it leaves.
delete_pending :
    (u : Upstream) (key : String) (c : UpstreamChannel)
    → IsSound u
    → find u key ≡ some c
    → IsSound (forget (closed_done u c) key)
unfolding delete
delete_pending u key c h there =
    let (u', runs, sound, deletes) = delete_lem u key h in
    let direct : delete u key ≡ ok (forget (closed_done u c) key) =
      rw (there, delete, close_pending u key c h there) refl in
    subst IsSound (ok-inj (sym runs ∙ direct)) sound

delete_each_lem :
    (u : Upstream) (l : List (String × UpstreamChannel))
    → u.channels ≡ l
    → IsSound u
    → (u' : Upstream) × (delete_each u l ≡ ok u') × IsSound u' × (u'.channels ≡ [])
unfolding delete_each forget
delete_each_lem u [] e h = (u, refl, h, e)
delete_each_lem u ((key, c) ∷ rest) e h =
    let there : find u key ≡ some c = ap (lookup key) e ∙ lookup-add_self key c rest in
    let once = subst AreDistinct e h.distinct in
    let (u', runs, sound, empty) =
      delete_each_lem (forget (closed_done u c) key) rest
        (ap (remove key) e ∙ remove-add_self key c rest once.0) (delete_pending u key c h there) in
    (u', rw (close_pending u key c h there, delete_each) runs, sound, empty)

-- Shutting a sound map down closes no channel twice: it succeeds and leaves an empty map.
pub delete_all_lem :
    (u : Upstream)
    → IsSound u
    → (u' : Upstream) × (delete_all u ≡ ok u') × IsSound u' × (u'.channels ≡ [])
unfolding delete_all
delete_all_lem u h = delete_each_lem u u.channels refl h

-- Two deletions of one key that run at the same time on a sound map. Each that runs alone does what
-- `delete` does. But if both load the key before either closes its channel, then the first to close
-- it succeeds, and the other panics at its close, before the first has removed the key and after.
pub delete_race :
    (u : Upstream) (key : String) (c : UpstreamChannel)
    → IsSound u
    → find u key ≡ some c
    → ((delete_step key u loading >>= λ p. delete_step key p.0 p.1 >>= λ q. delete_step key q.0 q.1)
        ≡ map_ok (λ v. (v, returned)) (delete u key))
      × (delete_step key u loading ≡ ok (u, closing c))
      × (v : Upstream) × (delete_step key u (closing c) ≡ ok (v, forgetting))
      × (delete_step key v (closing c) ≡ panic)
      × ((delete_step key v forgetting >>= λ p. delete_step key p.0 (closing c)) ≡ panic)
unfolding delete_step delete
delete_race u key c h there = (
  rw (there, delete, close_pending u key c h there) refl,
  rw there refl,
  closed_done u c,
  rw (close_pending u key c h there) refl,
  rw (close_again u c) refl,
  rw (close_forgotten u key c) refl,
)
