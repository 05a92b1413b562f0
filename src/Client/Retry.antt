-- ===== src/Client/Retry.antt =====
-- OpenStream and the loop of handleStreamsWithRetry (upstream/client.go), which opens one stream after
-- the other for a key, as a step relation. A gRPC client's call that opens a stream succeeds or fails.
use xds_relay.Prelude.{
  ℕ, suc, String, Bool, true, false, ◌≡◌, ◌⊎◌, Option, none, some, str_eq, if◌then◌else◌, ◌+◌, ◌-◌,
  ◌^◌, ltb,
}
use xds_relay.Prelude.Int.{ℤ, pos, negsuc}
use xds_relay.Outcome.{Outcome, ok, panic}
use xds_relay.Transport.ResourceTypes.{ResourceTypes}
use xds_relay.Client.Session.{Session, new_session, Step}
use xds_relay.Client.Endings.{IsOver}

-- The gRPC clients: what they stream, and the version of the transport stream that wraps it.
pub data Service : Type 0 where
  listeners_v2 : Service
  clusters_v2 : Service
  routes_v2 : Service
  endpoints_v2 : Service
  listeners_v3 : Service
  clusters_v3 : Service
  routes_v3 : Service
  endpoints_v3 : Service

-- The switch on the request's type URL.
unfoldable pub choose_service : ResourceTypes → String → Option Service
choose_service types url =
    if str_eq url types.v2.listener
    then some listeners_v2
    else if str_eq url types.v2.cluster
    then some clusters_v2
    else if str_eq url types.v2.route
    then some routes_v2
    else if str_eq url types.v2.endpoint
    then some endpoints_v2
    else if str_eq url types.v3.listener
    then some listeners_v3
    else if str_eq url types.v3.cluster
    then some clusters_v3
    else if str_eq url types.v3.route
    then some routes_v3
    else if str_eq url types.v3.endpoint
    then some endpoints_v3
    else none

-- The loop: at its top, waiting for the goroutines of a stream, or returned.
pub data Phase : Type 0 where
  starting : Phase
  streaming : Service → Session → Phase
  returned : Phase

-- `closes` counts how often the response channel was closed, `opened` the streams that were opened.
pub record Loop : Type 0 where
  pub phase : Phase
  pub cancelled : Bool
  pub is_shut_down : Bool
  pub closes : ℕ
  pub opened : ℕ

abbrev pub new_loop : Loop
new_loop = record {
  phase = starting;
  cancelled = false;
  is_shut_down = false;
  closes = 0;
  opened = 0;
}

-- `close(respCh)` and `return`, as the loop ends in the cases of `stop` and `unsupported`.
abbrev pub close_and_return : Loop → Loop
close_and_return l = record l { phase = returned; closes = suc l.closes }

module _ (types : ResourceTypes) (type_url : String) where
  pub data Round (l : Loop) : Loop → Type 0 where
    -- The function that OpenStream returns is called.
    cancel : Round l (record l { cancelled = true })
    -- The connection is shut down.
    shut_down : Round l (record l { is_shut_down = true })
    -- `case <-m.shutdown` and `case <-ctx.Done()`.
    stop :
        l.phase ≡ starting
        → (l.is_shut_down ≡ true) ⊎ (l.cancelled ≡ true)
        → Round l (close_and_return l)
    unsupported :
        l.phase ≡ starting
        → l.is_shut_down ≡ false
        → l.cancelled ≡ false
        → choose_service types type_url ≡ none
        → Round l (close_and_return l)
    open_failed :
        (s : Service)
        → l.phase ≡ starting
        → l.is_shut_down ≡ false
        → l.cancelled ≡ false
        → choose_service types type_url ≡ some s
        → Round l l
    opened :
        (s : Service)
        → l.phase ≡ starting
        → l.is_shut_down ≡ false
        → l.cancelled ≡ false
        → choose_service types type_url ≡ some s
        → Round l (record l { phase = streaming s new_session; opened = suc l.opened })
    -- A step of the stream's goroutines, or of its context: the loop's, with a timeout.
    advance :
        (s : Service) (x y : Session)
        → l.phase ≡ streaming s x
        → Step x y
        → Round l (record l { phase = streaming s y })
    -- `wg.Wait()` returns.
    waited :
        (s : Service) (x : Session)
        → l.phase ≡ streaming s x
        → IsOver x
        → Round l (record l { phase = starting })

  pub data Rounds (l : Loop) : Loop → Type 0 where
    here : Rounds l l
    next : {m n : Loop} → Rounds l m → Round m n → Rounds l n

-- The values of an int64: from 2 ^ 63 on they are negative.
abbrev pub to_int64 : ℕ → ℤ
to_int64 n = if ltb n (2 ^ 63) then pos n else negsuc (2 ^ 64 - 1 - n)

-- The sum of an int64 and one that is not negative; that of two that are not negative is below 2 ^ 64.
abbrev pub add_int64 : ℤ → ℕ → ℤ
add_int64 (pos t) r = to_int64 (t + r)
add_int64 (negsuc t) r = if ltb t r then pos (r - suc t) else negsuc (t - r)

abbrev pub add_jitter : ℤ → Option ℕ → Outcome ℤ
add_jitter timeout none = panic
add_jitter timeout (some r) = ok (add_int64 timeout r)

-- getStreamTimeout of durations in nanoseconds. rand.Int is a parameter: it panics on a bound that is
-- not positive, and where it has an error, which is ignored, its nil result is dereferenced.
unfoldable pub get_stream_timeout : (ℕ → Option ℕ) → ℤ → ℤ → Outcome ℤ
get_stream_timeout rand_int timeout (negsuc n) = panic
get_stream_timeout rand_int timeout (pos n) =
    if ltb 0 n then add_jitter timeout (rand_int n) else ok timeout
