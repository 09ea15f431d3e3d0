-- ===== src/Cache.antt =====
-- internal/cache/cache.go: the errors of the cache interface, and what its counters need of strconv.
-- Instants and durations are nanoseconds; the instant 0 is Go's zero time, "no expiry".
pub mod Unary
pub mod Memory
use vault.Common.{ℕ, ◌^◌, ◌<◌, String, ◌≡◌}

pub data Error : Type 0 where
  not_found : Error
  cache_full : Error
  unavailable : Error

-- strconv.FormatInt and strconv.ParseInt at base 10, over the 64-bit pattern of an int64; `parse`
-- is the value that ParseInt returns, its error ignored.
pub record Strconv : Type 0 where
  pub format : ℕ → String
  pub parse : String → ℕ
  pub parse-format : (n : ℕ) → n < 2 ^ 64 → parse (format n) ≡ n
