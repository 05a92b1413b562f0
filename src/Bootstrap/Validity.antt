-- ===== src/Bootstrap/Validity.antt =====
-- The rules that bootstrap.proto states for its messages, as a predicate that names no order and no
-- error.
use xds_relay.Prelude.{
  All, ℕ, ◌≤◌, String, Bool, ◌≡◌, ◌≢◌, ◌⊎◌, inr, true, false, Option, none, some, List,
}
use xds_relay.Prelude.Int.{ℤ, pos}
use xds_relay.Bootstrap.Hostname.{
  byte_length, lower_codes, split_dots, part_length, begins_with_hyphen, ends_with_hyphen,
  is_allowed,
}
use xds_relay.Admin.Texts.{trim_suffix}
use xds_relay.Bootstrap.Messages.{
  SocketAddress, Duration, Server, Upstream, Logging, Cache, Admin, Statsd, MetricsSink, Bootstrap,
}

abbrev pub Given {ℓ} : {A : Type ℓ} → (A → Type 0) → Option A → Type 0
Given P none = ⊥
Given P (some a) = P a

abbrev pub IsLabel : List ℕ → Type 0
IsLabel part =
    ((1 ≤ part_length part) × (part_length part ≤ 63))
    × ((begins_with_hyphen part ≡ false)
        × ((ends_with_hyphen part ≡ false) × All (λ n. is_allowed n ≡ true) part))

abbrev pub IsHostname : String → Type 0
IsHostname host =
    (byte_length host ≤ 253) × All IsLabel (split_dots (lower_codes (trim_suffix host ".")))

abbrev pub IsLogging : Logging → Type 0
IsLogging m = (m.level ≡ pos 0) ⊎ (m.level ≡ pos 1) ⊎ (m.level ≡ pos 2) ⊎ (m.level ≡ pos 3)

module _ (to_duration : Duration → String ⊎ ℤ) (parse_ip : String → Bool) where
  abbrev pub IsSocketAddress : SocketAddress → Type 0
  IsSocketAddress m = (IsHostname m.address ⊎ (parse_ip m.address ≡ true)) × (m.port_value ≤ 65535)

  -- A duration that is not negative.
  abbrev pub IsDuration : Duration → Type 0
  IsDuration d = (n : ℕ) × (to_duration d ≡ inr (pos n))

  abbrev pub IsStatsd : Statsd → Type 0
  IsStatsd m =
      (Given IsSocketAddress m.address × (m.root_prefix ≢ "")) × Given IsDuration m.flush_interval

  abbrev pub IsMetricsSink : MetricsSink → Type 0
  IsMetricsSink MetricsSink.unset = ⊥
  IsMetricsSink (MetricsSink.statsd m) = IsStatsd m

  abbrev pub IsBootstrap : Bootstrap → Type 0
  IsBootstrap m =
      ((((Given (λ (s : Server). Given IsSocketAddress s.address) m.server
              × Given (λ (u : Upstream). Given IsSocketAddress u.address) m.origin_server)
            × Given IsLogging m.logging)
          × Given (λ (c : Cache). Given IsDuration c.ttl) m.cache)
        × Given IsMetricsSink m.metrics_sink)
      × Given (λ (a : Admin). Given IsSocketAddress a.address) m.admin
