-- ===== src/Bootstrap/Accepted.antt =====
-- Validate of the bootstrap messages (bootstrap.pb.validate.go) against the rules that bootstrap.proto
-- states.
use xds_relay.Prelude.{
  All, ℕ, ◌≤◌, String, ◌≡◌, ◌⊎◌, ◌↔◌, refl, inl, inr, Bool, true, false, ◌&&◌, ◌||◌, not, Option,
  none, some, List, ltb, arith, ◌==◌, zero, suc, if◌then◌else◌,
}
use xds_relay.Prelude.Int.{ℤ, pos, negsuc}
use xds_relay.Validation.Violation.{Violation, field, undefined_value, inside, reject_if}
use xds_relay.Validation.Decides.{Decides, both, within, never, must, nonempty}
use xds_relay.Bootstrap.Hostname.{
  HostnameError, part_length, begins_with_hyphen, ends_with_hyphen, is_allowed, all_allowed,
  byte_length, check_part, check_parts, or_rest, validate_hostname,
}
use xds_relay.Bootstrap.Messages.{
  SocketAddress, Duration, Server, Upstream, Logging, Cache, Admin, Statsd, MetricsSink, Bootstrap,
}
use xds_relay.Bootstrap.Validate.{
  required_field, is_error, is_level, validate_logging, validate_socket_address, validate_duration,
  check_duration, validate_cache, validate_server, validate_upstream, validate_admin,
  validate_statsd, validate_metrics_sink, validate_bootstrap,
}
use xds_relay.Bootstrap.Validity.{
  Given, IsLabel, IsHostname, IsLogging, IsSocketAddress, IsDuration, IsStatsd, IsMetricsSink,
  IsBootstrap,
}

required_of :
    {A : Type 0} {validate : A → Option Violation} {P : A → Type 0}
    → ((a : A) → Decides (validate a) (P a))
    → (name : String) (o : Option A) → Decides (required_field validate name o) (Given P o)
required_of h name none = never _
required_of h name (some a) = within (field name) (h a)

and_iff : (a b : Bool) {Q : Type 0} → (b ≡ true) ↔ Q → ((a && b) ≡ true) ↔ ((a ≡ true) × Q)
and_iff true b q = (λ e. (refl, q.0 e), λ h. q.1 h.1)
and_iff false b q = (λ e. cc, λ h. cc h.0)

-- A test that is followed by others.
reject_else :
    (b : Bool) (e : HostnameError) {rest : Option HostnameError} {P Q : Type 0}
    → (b ≡ false) ↔ P
    → (rest ≡ none) ↔ Q
    → ((if b then some e else rest) ≡ none) ↔ (P × Q)
reject_else true e p q = (λ n. cc, λ h. cc (p.1 h.0))
reject_else false e p q = (λ n. (p.0 refl, q.0 n), λ h. q.1 h.1)

same : {P : Type 0} → P ↔ P
same = (λ p. p, λ p. p)

all_allowed_iff : (part : List ℕ) → (all_allowed part ≡ true) ↔ All (λ n. is_allowed n ≡ true) part
unfolding all_allowed
all_allowed_iff List.[] = (λ e. tt, λ h. refl)
all_allowed_iff (List.◌∷◌ n part) = and_iff (is_allowed n) (all_allowed part) (all_allowed_iff part)

accept_if : (b : Bool) (e : HostnameError) → ((if b then none else some e) ≡ none) ↔ (b ≡ true)
accept_if true e = (λ n. refl, λ h. refl)
accept_if false e = (λ n. cc, λ h. cc)

size_iff : (n : ℕ) → (((n == 0) || ltb 63 n) ≡ false) ↔ ((1 ≤ n) × (n ≤ 63))
size_iff n = (λ e. (ground (arith, e), ground (arith, e)), λ h. ground arith)

label : (part : List ℕ) → (check_part part ≡ none) ↔ IsLabel part
unfolding check_part
label part =
    let allowed = accept_if (all_allowed part) HostnameError.not_alphanumeric in
    let all = all_allowed_iff part in
    reject_else ((part_length part == 0) || ltb 63 (part_length part)) HostnameError.part_size
      (size_iff (part_length part))
      (reject_else (begins_with_hyphen part) HostnameError.hyphen_first same (
        reject_else (ends_with_hyphen part) HostnameError.hyphen_last same
          (λ e. all.0 (allowed.0 e), λ h. allowed.1 (all.1 h))))

or_rest_iff :
    {a b : Option HostnameError} {P Q : Type 0}
    → (a ≡ none) ↔ P
    → (b ≡ none) ↔ Q
    → (or_rest a b ≡ none) ↔ (P × Q)
or_rest_iff {a = none} p q = (λ e. (p.0 refl, q.0 e), λ h. q.1 h.1)
or_rest_iff {a = some v} p q = (λ e. cc, λ h. cc (p.1 h.0))

labels : (parts : List (List ℕ)) → (check_parts parts ≡ none) ↔ All IsLabel parts
unfolding check_parts
labels List.[] = (λ e. tt, λ h. refl)
labels (List.◌∷◌ part parts) = or_rest_iff (label part) (labels parts)

within_size : (n : ℕ) → (ltb 253 n ≡ false) ↔ (n ≤ 253)
within_size n = (λ e. ground (arith, e), λ h. ground arith)

hostname : (host : String) → (validate_hostname host ≡ none) ↔ IsHostname host
unfolding validate_hostname
hostname host = reject_else _ _ (within_size (byte_length host)) (labels _)

level_iff : (n : ℤ) → (is_level n ≡ true) ↔ ((n ≡ pos 0) ⊎ (n ≡ pos 1) ⊎ (n ≡ pos 2) ⊎ (n ≡ pos 3))
level_iff (pos zero) = (λ e. inl refl, λ h. refl)
level_iff (pos (suc zero)) = (λ e. inr (inl refl), λ h. refl)
level_iff (pos (suc (suc zero))) = (λ e. inr (inr (inl refl)), λ h. refl)
level_iff (pos (suc (suc (suc zero)))) = (λ e. inr (inr (inr refl)), λ h. refl)
level_iff (pos (suc (suc (suc (suc n))))) =
    (λ e. absurd (ground (arith, e)), λ h. absurd (ground (arith, h)))
level_iff (negsuc n) = (λ e. cc, λ h. absurd (ground (arith, h)))

logging : (m : Logging) → Decides (validate_logging m) (IsLogging m)
unfolding validate_logging
logging m =
    let test = must (is_level m.level) (inside (field "Level") undefined_value) in
    let means = level_iff m.level in (λ e. means.0 (test.0 e), λ h. test.1 (means.1 h))

address_iff :
    (o : Option HostnameError) (ip : Bool) (v : Violation) {P : Type 0}
    → (o ≡ none) ↔ P
    → Decides (reject_if (is_error o && not ip) v) (P ⊎ (ip ≡ true))
address_iff none ip v p = (λ e. inl (p.0 refl), λ h. refl)
address_iff (some w) true v p = (λ e. inr refl, λ h. refl)
address_iff (some w) false v p = (λ e. cc, λ h. elim h [ inl x ↦ cc (p.1 x) | inr y ↦ cc y ])

at_most : (n k : ℕ) (v : Violation) → Decides (reject_if (ltb k n) v) (n ≤ k)
at_most n k v = (λ e. ground (arith, e), λ h. ground arith)

module _ (to_duration : Duration → String ⊎ ℤ) (parse_ip : String → Bool) where
  socket_address :
      (m : SocketAddress)
      → Decides
          (validate_socket_address to_duration parse_ip m)
          (IsSocketAddress to_duration parse_ip m)
  unfolding validate_socket_address
  socket_address m =
      both (address_iff (validate_hostname m.address) (parse_ip m.address) _ (hostname m.address))
        (at_most m.port_value 65535 _)

  checked :
      (name : String) (x : String ⊎ ℤ)
      → Decides (check_duration to_duration parse_ip name x) ((n : ℕ) × (x ≡ inr (pos n)))
  checked name (inl e) = (λ p. cc, λ h. cc (h.1))
  checked name (inr (pos n)) = (λ p. (n, refl), λ h. refl)
  checked name (inr (negsuc n)) = (λ p. cc, λ h. cc (h.1))

  duration :
      (name : String) (o : Option Duration)
      → Decides
          (validate_duration to_duration parse_ip name o)
          (Given (IsDuration to_duration parse_ip) o)
  unfolding validate_duration
  duration name none = never _
  duration name (some d) = checked name (to_duration d)

  statsd :
      (m : Statsd)
      → Decides (validate_statsd to_duration parse_ip m) (IsStatsd to_duration parse_ip m)
  unfolding validate_statsd
  statsd m =
      both (both (required_of socket_address "Address" m.address) (nonempty m.root_prefix _))
        (duration "FlushInterval" m.flush_interval)

  metrics_sink :
      (m : MetricsSink)
      → Decides
          (validate_metrics_sink to_duration parse_ip m)
          (IsMetricsSink to_duration parse_ip m)
  unfolding validate_metrics_sink
  metrics_sink MetricsSink.unset = never _
  metrics_sink (MetricsSink.statsd m) = within _ (statsd m)

  -- Whatever the conversion of durations and the parser of IP addresses are, Validate of a bootstrap
  -- configuration returns no error exactly if the configuration obeys the rules of bootstrap.proto:
  -- every part is given, every address is a host name or an IP address with a port of at most 65535,
  -- the level is one of the enum, the metrics' prefix is not empty, and the cache's and the metrics'
  -- durations convert to ones that are not negative.
  pub validate_bootstrap_lem :
      (b : Bootstrap)
      → (validate_bootstrap to_duration parse_ip b ≡ none) ↔ IsBootstrap to_duration parse_ip b
  unfolding validate_bootstrap validate_server validate_upstream validate_cache validate_admin
  validate_bootstrap_lem b =
      both
        (both
          (both
            (both
              (both
                (required_of (λ (s : Server). required_of socket_address "Address" s.address)
                  "Server" b.server)
                (required_of (λ (u : Upstream). required_of socket_address "Address" u.address)
                  "OriginServer" b.origin_server))
              (required_of logging "Logging" b.logging))
            (required_of (λ (c : Cache). duration "Ttl" c.ttl) "Cache" b.cache))
          (required_of metrics_sink "MetricsSink" b.metrics_sink))
        (required_of (λ (a : Admin). required_of socket_address "Address" a.address) "Admin"
          b.admin)
