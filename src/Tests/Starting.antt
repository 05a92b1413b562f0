-- ===== src/Tests/Starting.antt =====
-- The bootstrap configuration and what is made of it, on one that is like the example's and on some
-- that are refused.
use xds_relay.Prelude.{
  ℕ, ◌+◌, ◌*◌, ◌%◌, ◌<◌, ltb, if◌then◌else◌, Bool-cases, arith, String, Bool, false, ◌≡◌, ◌≢◌, ◌↔◌,
  refl, ◌⊎◌, inl, inr, none, some,
}
use xds_relay.Prelude.Int.{ℤ, pos, negsuc}
use xds_relay.Outcome.{panic, err}
use xds_relay.Validation.Violation.{field, required, too_large, negative, inside}
use xds_relay.Bootstrap.Hostname.{validate_hostname, hyphen_last, part_size, not_alphanumeric}
use xds_relay.Bootstrap.Messages.{SocketAddress, Duration, MetricsSink, Bootstrap, Statsd}
use xds_relay.Bootstrap.Validate.{validate_bootstrap}
use xds_relay.Bootstrap.Validity.{IsStatsd, IsBootstrap}
use xds_relay.Bootstrap.Accepted.{validate_bootstrap_lem}
use xds_relay.Bootstrap.Startup.{start_stats, Services, run_with_context}
use xds_relay.Bootstrap.Started.{run_with_context-ne-panic}
use xds_relay.Bootstrap.Flush.{IsConversion, start_stats-flush}
use xds_relay.Tests.Fixtures.{lru}

hostnames_run :
    (validate_hostname "relay-1.Example.org." ≡ none)
    × (validate_hostname "a..b" ≡ some part_size)
    × (validate_hostname "a-.b" ≡ some hyphen_last)
    × (validate_hostname "a_b" ≡ some not_alphanumeric)
unfolding validate_hostname
hostnames_run = (refl, refl, refl, refl)

-- A duration is its seconds.
abbrev seconds_of : Duration → String ⊎ ℤ
seconds_of d = inr d.seconds

abbrev no_ip : String → Bool
no_ip s = false

abbrev local : SocketAddress
local = record { address = "localhost"; port_value = 9991 }

abbrev ten : Duration
ten = record { seconds = pos 10; nanos = pos 0 }

abbrev sample : Bootstrap
sample = record {
  server = some (record { address = some local });
  origin_server = some (record {
    address = some local;
    keep_alive_time = "";
    stream_timeout = "";
    stream_timeout_jitter = "soon";
    request_node_metadata = "";
  });
  logging = some (record { path = ""; level = pos 1 });
  cache = some (record { ttl = some ten; max_entries = pos 0 });
  metrics_sink = some (
      MetricsSink.statsd
        (record { address = some local; root_prefix = "xds"; flush_interval = some ten }));
  admin = some (record { address = some local });
}

-- Every call of a library succeeds, but that no text is a duration.
abbrev services : Services
services = record {
  create = λ path. none;
  new_statsd_client = λ config. none;
  dial = λ address keepalive. none;
  parse_duration = λ s. inl s;
  to_duration = seconds_of;
  level_name = λ n. "DEBUG";
}

sample_accepted : validate_bootstrap seconds_of no_ip sample ≡ none
unfolding validate_bootstrap
sample_accepted = refl

refused_port :
    validate_bootstrap seconds_of no_ip (record sample {
      server = some (record { address = some (record local { port_value = 65536 }) });
    })
    ≡ some (
        inside
          (field "Server")
          (inside (field "Address") (inside (field "PortValue") (too_large 65535))))
unfolding validate_bootstrap
refused_port = refl

refused_ttl :
    validate_bootstrap seconds_of no_ip (record sample {
      cache = some (record { ttl = some (record ten { seconds = negsuc 0 }); max_entries = pos 0 });
    })
    ≡ some (inside (field "Cache") (inside (field "Ttl") negative))
unfolding validate_bootstrap
refused_ttl = refl

-- Without a metrics sink RunWithContext panics, and Validate refuses the configuration.
no_sink_panics :
    run_with_context services lru (record sample { metrics_sink = none }) "" "serve" ≡ panic
unfolding run_with_context
no_sink_panics = refl

no_sink_refused :
    validate_bootstrap seconds_of no_ip (record sample { metrics_sink = none })
    ≡ some (inside (field "MetricsSink") required)
unfolding validate_bootstrap
no_sink_refused = refl

-- A jitter that is no duration is accepted, and reported at the start.
bad_jitter_reported :
    run_with_context services lru sample "" "serve"
    ≡ err "failed to parse upstream stream jittersoon"
unfolding run_with_context
bad_jitter_reported = refl

validate_bootstrap_lem_example :
    (validate_bootstrap seconds_of no_ip sample ≡ none) ↔ IsBootstrap seconds_of no_ip sample
validate_bootstrap_lem_example = validate_bootstrap_lem seconds_of no_ip sample

run_with_context-ne-panic_example : run_with_context services lru sample "" "serve" ≢ panic
run_with_context-ne-panic_example =
    run_with_context-ne-panic services no_ip lru sample "" "serve" sample_accepted (λ config. refl)

-- No statsd client can be made.
abbrev unreachable : Services
unreachable = record services { new_statsd_client = λ config. some "no such host" }

-- Durations of no negative part and less than a second of nanoseconds.
abbrev total_of : ℤ → ℤ → String ⊎ ℤ
total_of (pos s) (pos k) =
    if ltb k 1000000000 then inr (pos (s * 1000000000 + k)) else inl "invalid"
total_of (pos s) (negsuc k) = inl "invalid"
total_of (negsuc s) k = inl "invalid"

abbrev convert : Duration → String ⊎ ℤ
convert d = total_of d.seconds d.nanos

total_of-parts :
    (x y : ℤ) (n : ℕ)
    → total_of x y ≡ inr (pos n)
    → (s : ℕ) × (k : ℕ) × ((x ≡ pos s)
        × ((y ≡ pos k) × ((k < 1000000000) × (n ≡ s * 1000000000 + k))))
total_of-parts (pos s) (pos k) n e = elim (Bool-cases (ltb k 1000000000)) [
  | inl below ↦ (s, k, (refl, (refl, (ground (arith, below), cc (below, e)))))
  | inr above ↦ absurd (cc (above, e))
]
total_of-parts (pos s) (negsuc k) n e = absurd (cc e)
total_of-parts (negsuc s) y n e = absurd (cc e)

convert-IsConversion : IsConversion convert
convert-IsConversion d n e = total_of-parts d.seconds d.nanos n e

-- Two and a half seconds.
abbrev sink : Statsd
sink = record {
  address = some local;
  root_prefix = "xds";
  flush_interval = some (record { seconds = pos 2; nanos = pos 500000000 });
}

abbrev converting : Services
converting = record services { to_duration = convert }

abbrev flushing : Bootstrap
flushing = record sample { metrics_sink = some (MetricsSink.statsd sink) }

flushing_accepted : validate_bootstrap convert no_ip flushing ≡ none
unfolding validate_bootstrap
flushing_accepted = refl

sink-IsStatsd : IsStatsd convert no_ip sink
sink-IsStatsd = ((validate_bootstrap_lem convert no_ip flushing).0 flushing_accepted).0.1

start_stats-flush_example :
    (s : Statsd) × (d : Duration) × (n : ℕ) × ((some sink ≡ some s)
      × ((s.flush_interval ≡ some d)
          × ((convert d ≡ inr (pos n)) × (pos 500000000 ≡ pos (n % 1000000000)))))
unfolding start_stats
start_stats-flush_example =
    start_stats-flush converting no_ip (some sink)
      (record { statsd_address = local; root_prefix = "xds"; flush_interval = pos 500000000 })
      convert-IsConversion sink-IsStatsd refl
