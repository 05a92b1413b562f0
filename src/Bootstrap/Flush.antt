-- ===== src/Bootstrap/Flush.antt =====
-- The flush interval that the statsd client gets (server.go).
use xds_relay.Prelude.{
  ℕ, ◌+◌, ◌*◌, ◌%◌, ◌<◌, String, Bool, ◌≡◌, sym, ap, ◌∙◌, subst, ◌⊎◌, inr, Option, none, some,
  arith,
}
use xds_relay.Prelude.Int.{ℤ, pos}
use xds_relay.Outcome.{ok, >>=-eq-ok, ok-inj}
use xds_relay.Bootstrap.Messages.{Duration, Statsd}
use xds_relay.Bootstrap.Validity.{Given, IsDuration, IsStatsd}
use xds_relay.Bootstrap.Startup.{Services, StatsConfig, deref, stats_error, configure, start_stats}

deref-ok : {A : Type 0} (o : Option A) {a : A} → deref o ≡ ok a → o ≡ some a
deref-ok none e = absurd (cc e)
deref-ok (some b) e = ap some (ok-inj e)

mod_of_sum : (s k : ℕ) → k < 1000000000 → (s * 1000000000 + k) % 1000000000 ≡ k
mod_of_sum s k below = omega (arith, below)

-- What ptypes.Duration documents: a duration is its seconds and its nanoseconds, of one sign, with less than a
-- second of nanoseconds.
abbrev pub IsConversion : (Duration → String ⊎ ℤ) → Type 0
IsConversion to_duration =
    (d : Duration) (n : ℕ)
    → to_duration d ≡ inr (pos n)
    → (s : ℕ) × (k : ℕ) × ((d.seconds ≡ pos s)
        × ((d.nanos ≡ pos k) × ((k < 1000000000) × (n ≡ s * 1000000000 + k))))

module _ (services : Services) (parse_ip : String → Bool) where
  open services use {to_duration}

  -- Where durations convert as documented, and for a statsd sink that obeys the rules of
  -- bootstrap.proto: once the statsd client is made, the flush interval that it was given is not the
  -- configured one but its nanoseconds modulo a second.
  pub start_stats-flush :
      (o : Option Statsd) (c : StatsConfig)
      → IsConversion to_duration
      → Given (IsStatsd to_duration parse_ip) o
      → start_stats services o ≡ ok c
      → (s : Statsd) × (d : Duration) × (n : ℕ) × ((o ≡ some s)
          × ((s.flush_interval ≡ some d)
              × ((to_duration d ≡ inr (pos n)) × (c.flush_interval ≡ pos (n % 1000000000)))))
  unfolding start_stats
  start_stats-flush o c converts valid run =
      let (s, e1, r1) = >>=-eq-ok (deref o) _ run in
      let (a, e2, r2) = >>=-eq-ok (deref s.address) _ r1 in
      let (d, e3, r3) = >>=-eq-ok (deref s.flush_interval) _ r2 in
      let made = services.new_statsd_client (configure services a s d) in
      let (x, e4, r4) = >>=-eq-ok (stats_error services made) _ r3 in
      let given = subst (Given (IsStatsd to_duration parse_ip)) (deref-ok o e1) valid in
      let (n, total) =
        subst (Given (IsDuration to_duration parse_ip)) (deref-ok s.flush_interval e3) given.1 in
      let (w, k, (e5, (e6, (below, sum)))) = converts d n total in
      let used =
        ap (λ (z : StatsConfig). z.flush_interval) (sym (ok-inj r4))
        ∙ e6
        ∙ ap pos (sym (mod_of_sum w k below) ∙ ap (λ z. z % 1000000000) (sym sum)) in
      (s, d, n, (deref-ok o e1, (deref-ok s.flush_interval e3, (total, used))))
