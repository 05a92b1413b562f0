-- ===== src/Bootstrap/Validate.antt =====
-- Validate of the bootstrap messages (bootstrap.pb.validate.go). The protobuf library's conversion of
-- a duration to nanoseconds (ptypes.Duration) and net.ParseIP are parameters.
use xds_relay.Prelude.{
  String, Bool, true, false, ◌&&◌, not, ◌⊎◌, inl, inr, Option, none, some, ltb, str_eq,
}
use xds_relay.Prelude.Int.{ℤ, pos, negsuc, leb_ℤ}
use xds_relay.Validation.Violation.{
  Violation, field, required, too_short, negative, undefined_value, invalid_duration,
  invalid_address, too_large, inside, reject_if, ◌then◌, embedded,
}
use xds_relay.Bootstrap.Hostname.{HostnameError, validate_hostname}
use xds_relay.Bootstrap.Messages.{
  SocketAddress, Duration, Server, Upstream, Logging, Cache, Admin, Statsd, MetricsSink, Bootstrap,
}

-- A field that must be given, and its own Validate.
abbrev pub required_field {ℓ} :
    {A : Type ℓ} → (A → Option Violation) → String → Option A → Option Violation
required_field validate name none = some (inside (field name) required)
required_field validate name (some m) = embedded (field name) (validate m)

abbrev pub is_error : Option HostnameError → Bool
is_error none = false
is_error (some e) = true

-- A key of Logging_Level_name.
abbrev pub is_level : ℤ → Bool
is_level n = leb_ℤ (pos 0) n && leb_ℤ n (pos 3)

unfoldable pub validate_logging : Logging → Option Violation
validate_logging m = reject_if (not (is_level m.level)) (inside (field "Level") undefined_value)

module _ (to_duration : Duration → String ⊎ ℤ) (parse_ip : String → Bool) where
  unfoldable pub validate_socket_address : SocketAddress → Option Violation
  unfolding validate_hostname
  validate_socket_address m =
      reject_if (is_error (validate_hostname m.address) && not (parse_ip m.address))
        (inside (field "Address") invalid_address)
      then reject_if (ltb 65535 m.port_value) (inside (field "PortValue") (too_large 65535))

  -- The test of a converted duration.
  abbrev pub check_duration : String → String ⊎ ℤ → Option Violation
  check_duration name (inl e) = some (inside (field name) (invalid_duration e))
  check_duration name (inr (pos n)) = none
  check_duration name (inr (negsuc n)) = some (inside (field name) negative)

  unfoldable pub validate_duration : String → Option Duration → Option Violation
  validate_duration name none = some (inside (field name) required)
  validate_duration name (some d) = check_duration name (to_duration d)

  unfoldable pub validate_cache : Cache → Option Violation
  unfolding validate_duration
  validate_cache m = validate_duration "Ttl" m.ttl

  unfoldable pub validate_server : Server → Option Violation
  unfolding validate_socket_address
  validate_server m = required_field validate_socket_address "Address" m.address

  unfoldable pub validate_upstream : Upstream → Option Violation
  unfolding validate_socket_address
  validate_upstream m = required_field validate_socket_address "Address" m.address

  unfoldable pub validate_admin : Admin → Option Violation
  unfolding validate_socket_address
  validate_admin m = required_field validate_socket_address "Address" m.address

  unfoldable pub validate_statsd : Statsd → Option Violation
  unfolding validate_socket_address validate_duration
  validate_statsd m =
      required_field validate_socket_address "Address" m.address
      then reject_if (str_eq m.root_prefix "") (inside (field "RootPrefix") (too_short 1))
      then validate_duration "FlushInterval" m.flush_interval

  unfoldable pub validate_metrics_sink : MetricsSink → Option Violation
  unfolding validate_statsd
  validate_metrics_sink MetricsSink.unset = some (inside (field "Type") required)
  validate_metrics_sink (MetricsSink.statsd m) = embedded (field "Statsd") (validate_statsd m)

  unfoldable pub validate_bootstrap : Bootstrap → Option Violation
  unfolding validate_server validate_upstream validate_logging validate_cache validate_metrics_sink
      validate_admin
  validate_bootstrap m =
      required_field validate_server "Server" m.server
      then required_field validate_upstream "OriginServer" m.origin_server
      then required_field validate_logging "Logging" m.logging
      then required_field validate_cache "Cache" m.cache
      then required_field validate_metrics_sink "MetricsSink" m.metrics_sink
      then required_field validate_admin "Admin" m.admin
