-- ===== src/Bootstrap/Messages.antt =====
-- The messages of the bootstrap configuration (bootstrap.pb.go). A field that holds a pointer is an
-- Option, as nil is the value of one that is not given.
use xds_relay.Prelude.{ℕ, String, Option, none, some}
use xds_relay.Prelude.Int.{ℤ}

-- `port_value` is a uint32.
pub record SocketAddress : Type 0 where
  pub address : String
  pub port_value : ℕ

-- The protobuf library's duration.
pub record Duration : Type 0 where
  pub seconds : ℤ
  pub nanos : ℤ

pub record Server : Type 0 where
  pub address : Option SocketAddress

pub record Upstream : Type 0 where
  pub address : Option SocketAddress
  pub keep_alive_time : String
  pub stream_timeout : String
  pub stream_timeout_jitter : String
  pub request_node_metadata : String

-- A level is an int32.
pub record Logging : Type 0 where
  pub path : String
  pub level : ℤ

pub record Cache : Type 0 where
  pub ttl : Option Duration
  pub max_entries : ℤ

pub record Admin : Type 0 where
  pub address : Option SocketAddress

pub record Statsd : Type 0 where
  pub address : Option SocketAddress
  pub root_prefix : String
  pub flush_interval : Option Duration

pub data MetricsSink : Type 0 where
  unset : MetricsSink
  statsd : Statsd → MetricsSink

pub record Bootstrap : Type 0 where
  pub server : Option Server
  pub origin_server : Option Upstream
  pub logging : Option Logging
  pub cache : Option Cache
  pub metrics_sink : Option MetricsSink
  pub admin : Option Admin

-- GetStatsd, which is called on a nil message too.
abbrev pub get_statsd : Option MetricsSink → Option Statsd
get_statsd none = none
get_statsd (some MetricsSink.unset) = none
get_statsd (some (MetricsSink.statsd s)) = some s
