-- ===== src/Tests/Streaming.antt =====
-- The upstream client, on streams that are stepped by hand.
use xds_relay.Prelude.{◌/◌, Option, some, ℕ, ◌+◌, ◌≤◌, ◌<◌, ◌≡◌, ◌≢◌, refl, ap, arith, true, length}
use xds_relay.Prelude.Int.{pos}
use xds_relay.Outcome.{ok}
use xds_relay.Client.Session.{Session, Receiver, new_session}
use xds_relay.Client.Acks.{IsAcked, Reach-IsAcked, Reach-backpressure}
use xds_relay.Client.Endings.{IsStuck, IsStuck-reached}
use xds_relay.Client.Retry.{
  Service, starting, streaming, returned, clusters_v2, choose_service, Loop, new_loop, Round,
  Rounds, get_stream_timeout,
}
use xds_relay.Client.Retries.{
  session_of, IsKept, Rounds-IsKept, Rounds-returns, stuck_hangs, get_stream_timeout_bounds,
}
use xds_relay.Tests.Fixtures.{types, response}

-- Two responses were taken, and the stream is stuck.
abbrev blocked : Session
blocked = (IsStuck-reached (response "1") (response "2")).0

Reach-IsAcked_example : IsAcked blocked
Reach-IsAcked_example = Reach-IsAcked ((IsStuck-reached (response "1") (response "2")).1)

Reach-backpressure_example :
    (length blocked.sent ≤ length blocked.delivered + 1)
    × (length blocked.delivered ≤ length blocked.sent + 2)
Reach-backpressure_example = Reach-backpressure ((IsStuck-reached (response "1") (response "2")).1)

-- A cluster stream is opened.
abbrev opened_loop : Loop
opened_loop = record new_loop { phase = streaming clusters_v2 new_session; opened = 1 }

to_opened : Rounds types "c2" new_loop opened_loop
unfolding choose_service
to_opened = Rounds.next Rounds.here (Round.opened clusters_v2 refl refl refl refl)

Rounds-IsKept_example : IsKept opened_loop
Rounds-IsKept_example = Rounds-IsKept types "c2" to_opened

opened_IsLive :
    (s : Service) (x : Session)
    → opened_loop.phase ≡ streaming s x
    → (x.receiver ≢ Receiver.crashed) × ¬ IsStuck x
opened_IsLive s x e =
    let same : new_session ≡ x = ap session_of e in
    (
      (λ p. cc (ap (λ (y : Session). y.receiver) same, p)),
      λ h. cc (ap (λ (y : Session). y.receiver) same, h.blocked),
    )

Rounds-returns_example :
    (m : Loop) × Rounds types "c2" opened_loop m × (m.phase ≡ returned) × (m.closes ≡ 1)
Rounds-returns_example = Rounds-returns types "c2" opened_loop to_opened opened_IsLive

abbrev stuck_loop : Loop
stuck_loop = record opened_loop { phase = streaming clusters_v2 blocked }

stuck_hangs_example :
    (streaming clusters_v2 blocked ≢ returned)
    × (streaming clusters_v2 blocked ≢ starting)
    × ((record stuck_loop { cancelled = true }).closes ≡ 0)
stuck_hangs_example =
    stuck_hangs types "c2" stuck_loop (record stuck_loop { cancelled = true }) clusters_v2 blocked
      refl ((IsStuck-reached (response "1") (response "2")).2)
      (Rounds.next Rounds.here Round.cancel)

abbrev half : ℕ → Option ℕ
half n = some (n / 2)

half_below : (n : ℕ) → 0 < n → (r : ℕ) × ((half n ≡ some r) × (r < n))
half_below n h = (n / 2, (refl, omega (arith, h)))

get_stream_timeout_bounds_example :
    (t : ℕ) × (get_stream_timeout half (pos 30) (pos 5) ≡ ok (pos t))
    × (30 ≤ t)
    × (t ≤ 35)
    × (0 < 5 → t < 35)
get_stream_timeout_bounds_example = get_stream_timeout_bounds half 30 5 half_below (omega arith)
