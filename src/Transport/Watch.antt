-- ===== src/Transport/Watch.antt =====
-- The version-agnostic watch (transport/watch.go): the interface's two implementations, and its
-- methods by dynamic dispatch; and the watch that a request creates (`CreateWatch` of
-- transport/requestv2.go and requestv3.go).
use xds_relay.Prelude.{Bool}
use xds_relay.Outcome.{Outcome, map_ok}
use xds_relay.Channel.{Channel}
use xds_relay.Transport.Request.{Request, request_v2, request_v3}
use xds_relay.Transport.Response.{Response, Passthrough}
use xds_relay.Transport.WatchV2
use xds_relay.Transport.WatchV2.{WatchV2}
use xds_relay.Transport.WatchV3
use xds_relay.Transport.WatchV3.{WatchV3}

pub data Watch : Type 0 where
  watch_v2 : WatchV2 → Watch
  watch_v3 : WatchV3 → Watch

unfoldable pub create_watch : Request → Watch
unfolding WatchV2.new_watch WatchV3.new_watch
create_watch (request_v2 r) = watch_v2 WatchV2.new_watch
create_watch (request_v3 r) = watch_v3 WatchV3.new_watch

unfoldable pub close_watch : Watch → Outcome Watch
unfolding WatchV2.close_watch WatchV3.close_watch
close_watch (watch_v2 w) = map_ok watch_v2 (WatchV2.close_watch w)
close_watch (watch_v3 w) = map_ok watch_v3 (WatchV3.close_watch w)

unfoldable pub send : Watch → Response → Outcome Watch
unfolding WatchV2.send WatchV3.send
send (watch_v2 w) s = map_ok watch_v2 (WatchV2.send w s)
send (watch_v3 w) s = map_ok watch_v3 (WatchV3.send w s)

abbrev pub get_channel : Watch → Channel Passthrough
get_channel (watch_v2 w) = w.out
get_channel (watch_v3 w) = w.out

abbrev pub is_closed : Watch → Bool
is_closed (watch_v2 w) = w.closed
is_closed (watch_v3 w) = w.closed
