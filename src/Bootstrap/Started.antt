-- ===== src/Bootstrap/Started.antt =====
-- What RunWithContext makes of a bootstrap configuration that Validate accepts (server.go).
use xds_relay.Prelude.{
  String, Bool, ◌≡◌, ◌≢◌, refl, ◌⊎◌, inl, inr, Option, none, some, append, str_eq, if◌then◌else◌,
}
use xds_relay.Prelude.Int.{ℤ, pos, negsuc}
use xds_relay.Outcome.{Outcome, ok, panic, ◌>>=◌, >>=-ne-panic}
use xds_relay.Cache.Lru.{Lru}
use xds_relay.Cache.Resource.{Stored}
use xds_relay.Cache.Ops.{new_cache}
use xds_relay.Orchestrator.Histories.{new_relay}
use xds_relay.Bootstrap.Messages.{
  Duration, Upstream, Logging, Statsd, MetricsSink, Bootstrap, get_statsd,
}
use xds_relay.Bootstrap.Validate.{validate_bootstrap}
use xds_relay.Bootstrap.Validity.{Given, IsSocketAddress, IsStatsd, IsMetricsSink}
use xds_relay.Bootstrap.Accepted.{validate_bootstrap_lem}
use xds_relay.Bootstrap.Startup.{
  StatsConfig, Services, deref, no_error, value_of, string_to_duration, start_logging, start_stats,
  configure, default_keepalive, read_options, start_upstream, read_ttl, run_with_context,
}

bind_given :
    {A B : Type 0} {P : A → Type 0} (R : Outcome B → Type 0) (o : Option A) (f : A → Outcome B)
    → Given P o
    → ((a : A) → o ≡ some a → P a → R (f a))
    → R (deref o >>= f)
bind_given R none f g h = absurd g
bind_given R (some a) f g h = h a refl g

no_error-ne-panic : (m : String) (o : Option String) → no_error m o ≢ panic
no_error-ne-panic m none = λ p. cc p
no_error-ne-panic m (some e) = λ p. cc p

value_of-ne-panic : {A : Type 0} (m : String) (x : String ⊎ A) → value_of m x ≢ panic
value_of-ne-panic m (inl e) = λ p. cc p
value_of-ne-panic m (inr a) = λ p. cc p

ok-ne-panic : {A : Type 0} (a : A) → ok a ≢ panic
ok-ne-panic a = λ p. cc p

Given-get_statsd :
    (to_duration : Duration → String ⊎ ℤ) (parse_ip : String → Bool) (o : Option MetricsSink)
    → Given (IsMetricsSink to_duration parse_ip) o
    → Given (IsStatsd to_duration parse_ip) (get_statsd o)
Given-get_statsd to_duration parse_ip none g = g
Given-get_statsd to_duration parse_ip (some MetricsSink.unset) g = g
Given-get_statsd to_duration parse_ip (some (MetricsSink.statsd s)) g = g

module _ (services : Services) (parse_ip : String → Bool) where
  open services use {to_duration}

  start_logging-ne-panic : (l : Logging) (level : String) → start_logging services l level ≢ panic
  unfolding start_logging
  start_logging-ne-panic l level =
      let opened = if str_eq l.path "" then none else services.create l.path in
      let message = append "failed to create/truncate log file at path " l.path in
      >>=-ne-panic (no_error message opened) _ (no_error-ne-panic message opened)
        (λ x e. ok-ne-panic _)

  -- The statsd client can be made.
  abbrev HasStatsd : Type 0
  HasStatsd = (config : StatsConfig) → services.new_statsd_client config ≡ none

  start_stats-ne-panic :
      (o : Option Statsd)
      → HasStatsd
      → Given (IsStatsd to_duration parse_ip) o
      → start_stats services o ≢ panic
  unfolding start_stats
  start_stats-ne-panic o up g =
      bind_given (λ x. x ≢ panic) o _ g
        (λ s e h.
          bind_given (λ x. x ≢ panic) s.address _ h.0.0
            (λ a e' h'.
              bind_given (λ x. x ≢ panic) s.flush_interval _ h.1
                (λ d e'' h''. rw (up (configure services a s d)) (ok-ne-panic _))))

  value_then :
      {A B : Type 0} (m : String) (x : String ⊎ A) (f : A → Outcome B)
      → ((a : A) → f a ≢ panic)
      → (value_of m x >>= f) ≢ panic
  value_then m (inl e) f h = λ p. cc p
  value_then m (inr a) f h = h a

  read_options-ne-panic : (u : Upstream) → read_options services u ≢ panic
  unfolding read_options
  read_options-ne-panic u =
      value_then "failed to parse upstream stream timeout"
        (string_to_duration services u.stream_timeout (pos 0)) _
        (λ t.
          value_then "failed to parse upstream stream jitter"
            (string_to_duration services u.stream_timeout_jitter (pos 0)) _
            (λ j.
              value_then "failed to parse upstream connection timeout"
                (string_to_duration services u.keep_alive_time default_keepalive) _
                (λ k. ok-ne-panic _)))

  start_upstream-ne-panic :
      (u : Upstream)
      → Given (IsSocketAddress to_duration parse_ip) u.address
      → start_upstream services u ≢ panic
  unfolding start_upstream
  start_upstream-ne-panic u g =
      bind_given (λ x. x ≢ panic) u.address _ g
        (λ a e h. >>=-ne-panic (read_options services u) _ (read_options-ne-panic u) (λ o e'.
          let dialled = services.dial a o.conn_keepalive_timeout in
          >>=-ne-panic (no_error "failed to initialize upstream client" dialled) _
            (no_error-ne-panic "failed to initialize upstream client" dialled)
            (λ x e''. ok-ne-panic _)))

  read_ttl-ne-panic : (o : Option Duration) → read_ttl services o ≢ panic
  unfolding read_ttl
  read_ttl-ne-panic none = λ p. cc p
  read_ttl-ne-panic (some d) = value_of-ne-panic _ _

  new_relay-ne-panic : (lru : Lru Stored) (ttl : ℤ) → new_relay lru ttl ≢ panic
  unfolding new_relay new_cache
  new_relay-ne-panic lru (pos n) = λ p. cc p
  new_relay-ne-panic lru (negsuc n) = λ p. cc p

  -- For every bootstrap configuration that Validate accepts, RunWithContext dereferences no nil before it
  -- serves if the statsd client can be made, whatever the other calls of libraries return and whatever
  -- log level and mode are given.
  pub run_with_context-ne-panic :
      (lru : Lru Stored) (b : Bootstrap) (log_level mode : String)
      → validate_bootstrap to_duration parse_ip b ≡ none
      → ((config : StatsConfig) → services.new_statsd_client config ≡ none)
      → run_with_context services lru b log_level mode ≢ panic
  unfolding run_with_context
  run_with_context-ne-panic lru b log_level mode accepted up =
      let (((((server, origin), logging), cache), sink), admin) =
        (validate_bootstrap_lem to_duration parse_ip b).0 accepted in
      bind_given (λ x. x ≢ panic) b.logging _ logging
        (λ l e g. >>=-ne-panic _ _ (start_logging-ne-panic l log_level) (λ level e1.
          >>=-ne-panic _ _
            (start_stats-ne-panic _ up (Given-get_statsd to_duration parse_ip _ sink))
            (λ st e2.
              bind_given (λ x. x ≢ panic) b.origin_server _ origin
                (λ u e3 gu. >>=-ne-panic _ _ (start_upstream-ne-panic u gu) (λ o e4.
                  bind_given (λ x. x ≢ panic) b.cache _ cache
                    (λ c e5 gc. >>=-ne-panic _ _ (read_ttl-ne-panic c.ttl) (λ ttl e6.
                      >>=-ne-panic _ _ (new_relay-ne-panic lru ttl) (λ relay e7.
                        bind_given (λ x. x ≢ panic) b.admin _ admin
                          (λ a e8 ga.
                            bind_given (λ x. x ≢ panic) a.address _ ga
                              (λ aa e9 gaa.
                                bind_given (λ x. x ≢ panic) b.server _ server
                                  (λ s e10 gs.
                                    bind_given (λ x. x ≢ panic) s.address _ gs
                                      (λ sa e11 gsa. ok-ne-panic _))))))))))))
