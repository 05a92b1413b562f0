-- ===== src/Transport/WatchV3.antt =====
-- The V3 watches (transport/watchv3.go): a channel of capacity one to a downstream client. `Close` and
-- `Send` are given as they run under the watch's lock, with nothing in between.
use xds_relay.Prelude.{Bool, true, false, if◌then◌else◌}
use xds_relay.Outcome.{Outcome, ok, err, ◌>>=◌}
use xds_relay.Channel.{Channel, done, blocked, make_channel, try_send, drain_one, close}
use xds_relay.Transport.Response.{Response, Passthrough, passthrough_v3}

pub record WatchV3 : Type 0 where
  pub out : Channel Passthrough
  pub closed : Bool

unfoldable pub new_watch : WatchV3
new_watch = record { out = make_channel; closed = false }

-- Closes the channel; a watch that is closed already panics.
unfoldable pub close_watch : WatchV3 → Outcome WatchV3
unfolding close
close_watch w = close w.out >>= λ out. ok (record { out = out; closed = true })

-- Drops the response that is still in the queue, if any, and queues the new one.
unfoldable pub send : WatchV3 → Response → Outcome WatchV3
unfolding drain_one try_send
send w s =
    if w.closed
    then ok w
    else (try_send 1 (passthrough_v3 s) (drain_one w.out).0 >>= λ attempt. elim attempt [
      | done out ↦ ok (record w { out = out })
      | blocked ↦ err "channel is blocked"
    ])
