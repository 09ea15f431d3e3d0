-- ===== src/RateLimit.antt =====
-- internal/middleware/ratelimit.go: the fixed-window limiter and its in-memory fallback. An int64 is
-- its 64-bit pattern. A request comes with its cache key, its weight (1 where no Weight function is
-- set) and what the cache's Increment answered; a limit is an int that is not negative. A window
-- that ends at an instant is open at that instant.
pub mod Fallback
pub mod Saturated
pub mod Counted
mod Tests
use vault.Common.{
  ℕ, ◌+◌, ◌-◌, ◌*◌, ◌%◌, ◌^◌, String, Bool, true, false, ◌&&◌, ◌||◌, not, Option, none, some, List,
  [], ◌∷◌, ltb, leb, if◌then◌else◌, length, Result, ok, err,
}
use vault.Common.Dict.{lookup, insert, sweep}
use vault.Cache.{Error}

-- localRLEntry
pub record LocalEntry : Type 0 where
  pub count : ℕ
  pub window_end : ℕ

pub record LocalRateLimiter : Type 0 where
  pub entries : List (String × LocalEntry)
  pub at_cap : Bool

abbrev pub local_max_entries : ℕ
local_max_entries = 100_000

abbrev pub max_int64 : ℕ
max_int64 = 2 ^ 63 - 1

abbrev pub is_over : ℕ → LocalEntry → Bool
is_over now e = ltb e.window_end now

abbrev opens_window : String → ℕ → LocalRateLimiter → LocalRateLimiter × ℕ
opens_window key end l =
    (record l { entries = insert key (record { count = 1; window_end = end }) l.entries }, 1)

unfoldable pub increment : ℕ → String → ℕ → LocalRateLimiter → LocalRateLimiter × ℕ
increment now key window l = elim (lookup key l.entries) [
  | none ↦
      if leb local_max_entries (length l.entries)
      then (record l { at_cap = true }, max_int64)
      else opens_window key (now + window) l
  | some e ↦ if is_over now e then opens_window key (now + window) l else (
    record l { entries = insert key (record e { count = (e.count + 1) % 2 ^ 64 }) l.entries },
    (e.count + 1) % 2 ^ 64,
  )
]

-- One tick of the eviction goroutine, for one limiter.
unfoldable pub evict : ℕ → LocalRateLimiter → LocalRateLimiter
evict now l = record l { entries = sweep (is_over now) l.entries }

pub record RateLimitConfig : Type 0 where
  pub limit : ℕ
  pub window : ℕ
  pub fail_closed : Bool

-- `passed` is a request of a disabled limiter, `served` carries X-RateLimit-Remaining.
pub data Answer : Type 0 where
  passed : Answer
  served : (remaining : ℕ) → Answer
  limited : Answer
  unavailable : Answer

abbrev is_negative : ℕ → Bool
is_negative x = leb (2 ^ 63) x

-- `x > int64(limit)`
abbrev exceeds : ℕ → ℕ → Bool
exceeds limit x = not (is_negative x) && ltb limit x

abbrev pub clamped : ℕ → ℕ
clamped weight = if ltb 1 weight then weight else 1

-- The part of the handler that follows the counting; `product` is the count times the weight.
unfoldable pub answer : (limit count product : ℕ) → Answer
answer limit count product =
    let remaining = (limit + 2 ^ 64 - count) % 2 ^ 64 in
    if exceeds limit (product % 2 ^ 64)
    then limited
    else served (if is_negative remaining then 0 else remaining)

unfoldable pub judge : (limit weight count : ℕ) → Answer
unfolding answer
judge limit weight count = answer limit count (count * clamped weight)

unfoldable pub rate_limit :
    RateLimitConfig
    → (enabled : Bool) (now : ℕ) (key : String) (weight : ℕ) → (counted : Result Error ℕ)
    → LocalRateLimiter
    → LocalRateLimiter × Answer
unfolding judge increment
rate_limit cfg false now key weight counted l = (l, passed)
rate_limit cfg true now key weight (ok count) l = (l, judge cfg.limit weight count)
rate_limit cfg true now key weight (err e) l =
    if cfg.fail_closed
    then (l, unavailable)
    else (let (m, count) = increment now key cfg.window l in (m, judge cfg.limit weight count))
