-- ===== src/Bootstrap/Startup.antt =====
-- What RunWithContext does with the bootstrap configuration before it serves (server.go), down to
-- upstream.New, orchestrator.New and StringToDuration. The calls of libraries that can fail are
-- parameters that return their error: os.Create, the statsd client's constructor and grpc.Dial; so are
-- time.ParseDuration, ptypes.Duration and the name of a log level. An error here is one that is
-- reported as the goroutine unwinds; `panic` is a nil dereference, also by a deferred call.
use xds_relay.Prelude.{
  String, append, Bool, ◌⊎◌, inl, inr, Option, none, some, str_eq, if◌then◌else◌,
}
use xds_relay.Prelude.Int.{ℤ, pos}
use xds_relay.Outcome.{Outcome, ok, err, panic, ◌>>=◌}
use xds_relay.Cache.Lru.{Lru}
use xds_relay.Cache.Resource.{Stored}
use xds_relay.Orchestrator.State.{Relay}
use xds_relay.Orchestrator.Histories.{new_relay}
use xds_relay.Bootstrap.Messages.{
  SocketAddress, Duration, Upstream, Logging, Statsd, Bootstrap, get_statsd,
}

-- The statsd client's options; the interval is a time.Duration.
pub record StatsConfig : Type 0 where
  pub statsd_address : SocketAddress
  pub root_prefix : String
  pub flush_interval : ℤ

-- upstream.CallOptions, in nanoseconds.
pub record CallOptions : Type 0 where
  pub stream_timeout : ℤ
  pub stream_timeout_jitter : ℤ
  pub conn_keepalive_timeout : ℤ
  pub node_metadata : String

pub record Settings (S : Type 0) : Type 0 where
  pub log_level : String
  pub stats : StatsConfig
  pub origin : SocketAddress
  pub options : CallOptions
  pub relay : Relay S
  pub admin : SocketAddress
  pub server : SocketAddress
  pub serves : Bool

-- Reading a field of a message that may be nil.
abbrev pub deref {ℓ} : {A : Type ℓ} → Option A → Outcome A
deref none = panic
deref (some a) = ok a

-- panicOnError with its message.
abbrev pub no_error : String → Option String → Outcome (Unit {0})
no_error message none = ok tt
no_error message (some e) = err (append message e)

abbrev pub value_of : {A : Type 0} → String → String ⊎ A → Outcome A
value_of message (inl e) = err (append message e)
value_of message (inr a) = ok a

-- The libraries' calls.
pub record Services : Type 0 where
  pub create : String → Option String
  pub new_statsd_client : StatsConfig → Option String
  pub dial : SocketAddress → ℤ → Option String
  pub parse_duration : String → String ⊎ ℤ
  pub to_duration : Duration → String ⊎ ℤ
  pub level_name : ℤ → String

-- Five minutes in nanoseconds.
abbrev pub default_keepalive : ℤ
default_keepalive = pos 300000000000

module _ (services : Services) where
  open services use {create, new_statsd_client, dial, parse_duration, to_duration, level_name}

  unfoldable pub string_to_duration : String → ℤ → String ⊎ ℤ
  string_to_duration s default_duration =
      if str_eq s "" then inr default_duration else parse_duration s

  -- stats.NewRootScope and what follows it. Its closer is closed by a deferred call, which is made before the error is
  -- looked at: on an error the closer is nil, and the deferred call dereferences it as the panic
  -- unwinds.
  abbrev pub stats_error : Option String → Outcome (Unit {0})
  stats_error none = ok tt
  stats_error (some e) = panic

  -- The log file and the level.
  unfoldable pub start_logging : Logging → String → Outcome String
  start_logging l log_level =
      no_error (append "failed to create/truncate log file at path " l.path)
        (if str_eq l.path "" then none else create l.path)
      >>= λ _. ok (if str_eq log_level "" then level_name l.level else log_level)

  abbrev pub configure : SocketAddress → Statsd → Duration → StatsConfig
  configure address s interval = record {
    statsd_address = address;
    root_prefix = s.root_prefix;
    flush_interval = interval.nanos;
  }

  unfoldable pub start_stats : Option Statsd → Outcome StatsConfig
  start_stats statsd = deref statsd >>= λ s. deref s.address >>= λ address.
      deref s.flush_interval >>= λ interval.
      stats_error (new_statsd_client (configure address s interval)) >>= λ _.
      ok (configure address s interval)

  unfoldable pub read_options : Upstream → Outcome CallOptions
  unfolding string_to_duration
  read_options u =
      value_of "failed to parse upstream stream timeout"
        (string_to_duration u.stream_timeout (pos 0))
      >>= λ timeout.
          value_of "failed to parse upstream stream jitter"
            (string_to_duration u.stream_timeout_jitter (pos 0))
          >>= λ jitter.
              value_of "failed to parse upstream connection timeout"
                (string_to_duration u.keep_alive_time default_keepalive)
              >>= λ keepalive. ok (record {
                stream_timeout = timeout;
                stream_timeout_jitter = jitter;
                conn_keepalive_timeout = keepalive;
                node_metadata = u.request_node_metadata;
              })

  unfoldable pub start_upstream : Upstream → Outcome (SocketAddress × CallOptions)
  unfolding read_options
  start_upstream u = deref u.address >>= λ address. read_options u >>= λ options.
      no_error "failed to initialize upstream client" (dial address options.conn_keepalive_timeout)
      >>= λ _. ok (address, options)

  -- ptypes.Duration returns an error for nil.
  unfoldable pub read_ttl : Option Duration → Outcome ℤ
  read_ttl none = err "failed to convert ttl from durationpb.Duration to time.Duration"
  read_ttl (some d) =
      value_of "failed to convert ttl from durationpb.Duration to time.Duration" (to_duration d)

  module _ (lru : Lru Stored) where
    open lru use {State}

    unfoldable pub run_with_context : Bootstrap → String → String → Outcome (Settings State)
    unfolding start_logging start_stats start_upstream read_ttl new_relay
    run_with_context b log_level mode = deref b.logging >>= λ l.
        start_logging l log_level >>= λ level. start_stats (get_statsd b.metrics_sink) >>= λ stats.
        deref b.origin_server >>= λ u. start_upstream u >>= λ origin. deref b.cache >>= λ c.
        read_ttl c.ttl >>= λ ttl. new_relay lru ttl >>= λ relay. deref b.admin >>= λ a.
        deref a.address >>= λ admin_address. deref b.server >>= λ s.
        deref s.address >>= λ server_address. ok (record {
          log_level = level;
          stats = stats;
          origin = origin.0;
          options = origin.1;
          relay = relay;
          admin = admin_address;
          server = server_address;
          serves = str_eq mode "serve";
        })
