-- ===== src/RateLimit/Counted.antt =====
-- A request that the cache counted.
use vault.Common.{ℕ, ◌*◌, ◌-◌, ◌≤◌, ◌<◌, ◌^◌, String, ◌≡◌, true, arith, ok, leb, if◌then◌else◌, ap}
use native.Mathlib.Nat.{mul-le-mul_left}
use vault.RateLimit.{
  LocalRateLimiter, RateLimitConfig, served, limited, rate_limit, judge, answer, clamped,
}

pub answer-counted :
    (limit count product : ℕ)
    → product < 2 ^ 63
    → count ≤ product
    → limit < 2 ^ 63
    → answer limit count product ≡ (if leb product limit then served (limit - count) else limited)
unfolding answer
answer-counted limit count product h m b = ground arith

clamped-pos : (weight : ℕ) → 1 ≤ clamped weight
clamped-pos weight = ground arith

-- When the cache counts, a request that does not overflow the counter is served exactly if its
-- weighted count is within the limit, and is told what is left of the unweighted one; the fallback
-- is not touched.
rate_limit-counted :
    (cfg : RateLimitConfig) (now : ℕ) (key : String) (weight count : ℕ) (l : LocalRateLimiter)
    → count * clamped weight < 2 ^ 63
    → cfg.limit < 2 ^ 63
    → rate_limit cfg true now key weight (ok count) l
      ≡ (l, if leb (count * clamped weight) cfg.limit then served (cfg.limit - count) else limited)
unfolding rate_limit judge
rate_limit-counted cfg now key weight count l h b =
    let grows : count ≤ count * clamped weight =
      omega (arith, mul-le-mul_left count (clamped-pos weight)) in
    ap (λ a. (l, a)) (answer-counted cfg.limit count (count * clamped weight) h grows b)
