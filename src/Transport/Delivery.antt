-- ===== src/Transport/Delivery.antt =====
-- What a watch delivers (transport/watch.go, watchv2.go, watchv3.go).
use xds_relay.Prelude.{◌≤◌, true, false, ◌≡◌, refl, [], ◌∷◌, length, arith}
use xds_relay.Outcome.{ok, panic}
use xds_relay.Channel.{replace_one}
use xds_relay.Transport.Request.{Request, request_v2, request_v3}
use xds_relay.Transport.Response.{Response, Passthrough, passthrough_v2, passthrough_v3}
use xds_relay.Transport.Watch.{
  Watch, watch_v2, watch_v3, create_watch, close_watch, send, get_channel, is_closed,
}

-- A watch that has not been closed, with at most the one response that its channel holds.
pub record IsOpen (w : Watch) : Type 0 where
  pub flag : is_closed w ≡ false
  pub channel : (get_channel w).closed ≡ false
  pub fits : length (get_channel w).queue ≤ 1

-- The envelope of a response for a client of the watch's version.
abbrev pub envelope : Watch → Response → Passthrough
envelope (watch_v2 w) = passthrough_v2
envelope (watch_v3 w) = passthrough_v3

pub create_watch-IsOpen : (r : Request) → IsOpen (create_watch r)
unfolding create_watch
create_watch-IsOpen (request_v2 r) = record { flag = refl; channel = refl; fits = omega arith }
create_watch-IsOpen (request_v3 r) = record { flag = refl; channel = refl; fits = omega arith }

-- On an open watch, with no other Send in between, Send succeeds and leaves exactly the response that
-- is sent in the channel: an older one that was not received yet is dropped.
pub send_latest :
    (w : Watch) (s : Response)
    → IsOpen w
    → (w' : Watch) × (send w s ≡ ok w') × ((get_channel w').queue ≡ envelope w s ∷ []) × IsOpen w'
unfolding send
send_latest (watch_v2 w) s o = (
  watch_v2 (record w { out = record w.out { queue = passthrough_v2 s ∷ [] } }),
  ground (arith, replace_one w.out (passthrough_v2 s) o.channel o.fits),
  refl,
  record { flag = o.flag; channel = o.channel; fits = omega arith },
)
send_latest (watch_v3 w) s o = (
  watch_v3 (record w { out = record w.out { queue = passthrough_v3 s ∷ [] } }),
  ground (arith, replace_one w.out (passthrough_v3 s) o.channel o.fits),
  refl,
  record { flag = o.flag; channel = o.channel; fits = omega arith },
)

-- On a closed watch Send does nothing and reports no error.
pub send_closed : (w : Watch) (s : Response) → is_closed w ≡ true → send w s ≡ ok w
unfolding send
send_closed (watch_v2 w) s c = ground arith
send_closed (watch_v3 w) s c = ground arith

-- An open watch can be closed, and is then closed for good: to close it again panics.
pub close_watch_once :
    (w : Watch)
    → IsOpen w
    → (w' : Watch) × (close_watch w ≡ ok w') × (is_closed w' ≡ true) × (close_watch w' ≡ panic)
unfolding close_watch
close_watch_once (watch_v2 w) o = (
  watch_v2 (record { out = record w.out { closed = true }; closed = true }),
  ground arith,
  refl,
  refl,
)
close_watch_once (watch_v3 w) o = (
  watch_v3 (record { out = record w.out { closed = true }; closed = true }),
  ground arith,
  refl,
  refl,
)
