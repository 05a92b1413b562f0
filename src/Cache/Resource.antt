-- ===== src/Cache/Resource.antt =====
-- Cache entries and their expiry (cache.go: Resource, isExpired, getExpirationTime). Times are
-- nanoseconds; zero is Go's zero time.
use xds_relay.Prelude.{ℕ, ◌+◌, Bool, false, Option, ltb, ◌==◌, if◌then◌else◌}
use xds_relay.Transport.Response.{Response}

pub record Resource : Type 0 where
  pub resp : Option Response
  pub requests : Option ℕ
  pub expiration_time : ℕ

-- The LRU cache stores an `interface{}`, which the code casts to a `Resource`.
pub data Stored : Type 0 where
  resource : Resource → Stored
  foreign : Stored

unfoldable pub is_expired : Resource → ℕ → Bool
is_expired r now = if r.expiration_time == 0 then false else ltb r.expiration_time now

unfoldable pub get_expiration_time : ℕ → ℕ → ℕ
get_expiration_time ttl now = if ltb 0 ttl then now + ttl else 0
