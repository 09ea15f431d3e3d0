-- ===== src/RateLimit/Saturated.antt =====
-- The fallback at its cap (localRLMaxEntries), for a key that it does not hold.
use vault.Common.{
  ℕ, ◌*◌, ◌≤◌, ◌<◌, ◌^◌, ◌+◌, String, ◌≡◌, refl, true, false, none, arith, err, length, ◌∙◌, ap,
}
use vault.Common.Dict.{lookup}
use vault.Cache.{Error}
use vault.RateLimit.{
  LocalRateLimiter, RateLimitConfig, served, limited, rate_limit, judge, answer, increment,
  local_max_entries, max_int64,
}

pub increment-full :
    (now : ℕ) (key : String) (window : ℕ) (l : LocalRateLimiter)
    → lookup key l.entries ≡ none
    → local_max_entries ≤ length l.entries
    → increment now key window l ≡ (record l { at_cap = true }, max_int64)
unfolding increment
increment-full now key window l absent full = rw (absent, increment) (ground arith)

pub answer-odd :
    (limit half : ℕ)
    → half < 2 ^ 61
    → limit < 2 ^ 62
    → answer limit max_int64 (max_int64 * (2 * half + 1)) ≡ limited
unfolding answer
answer-odd limit half h b = ground arith

answer-even :
    (limit half : ℕ)
    → half < 2 ^ 61
    → limit < 2 ^ 62
    → answer limit max_int64 (max_int64 * (2 * (half + 1))) ≡ served 0
unfolding answer
answer-even limit half h b = ground arith

saturated :
    (cfg : RateLimitConfig) (now : ℕ) (key : String) (weight : ℕ) (l : LocalRateLimiter) (e : Error)
    → cfg.fail_closed ≡ false
    → lookup key l.entries ≡ none
    → local_max_entries ≤ length l.entries
    → (rate_limit cfg true now key weight (err e) l).1 ≡ judge cfg.limit weight max_int64
unfolding rate_limit
saturated cfg now key weight l e open_ absent full =
    rw (open_, increment-full now key cfg.window l absent full) refl

-- At its cap the fallback refuses a new key whose request has an odd weight: the largest int64,
-- which stands for "over any limit", stays above the limit when it is multiplied.
saturated-limited :
    (cfg : RateLimitConfig) (now : ℕ) (key : String) (half : ℕ) (l : LocalRateLimiter) (e : Error)
    → cfg.fail_closed ≡ false
    → lookup key l.entries ≡ none
    → local_max_entries ≤ length l.entries
    → half < 2 ^ 61
    → cfg.limit < 2 ^ 62
    → (rate_limit cfg true now key (2 * half + 1) (err e) l).1 ≡ limited
unfolding judge
saturated-limited cfg now key half l e open_ absent full h b =
    saturated cfg now key (2 * half + 1) l e open_ absent full
    ∙ ap (λ w. answer cfg.limit max_int64 (max_int64 * w)) (ground arith)
    ∙ answer-odd cfg.limit half h b

-- At its cap the fallback serves every request for a new key whose weight is even: the product
-- wraps around to a negative count, which is within any limit.
pub saturated-served :
    (cfg : RateLimitConfig) (now : ℕ) (key : String) (half : ℕ) (l : LocalRateLimiter) (e : Error)
    → cfg.fail_closed ≡ false
    → lookup key l.entries ≡ none
    → local_max_entries ≤ length l.entries
    → half < 2 ^ 61
    → cfg.limit < 2 ^ 62
    → (rate_limit cfg true now key (2 * (half + 1)) (err e) l).1 ≡ served 0
unfolding judge
saturated-served cfg now key half l e open_ absent full h b =
    saturated cfg now key (2 * (half + 1)) l e open_ absent full
    ∙ ap (λ w. answer cfg.limit max_int64 (max_int64 * w)) (ground arith)
    ∙ answer-even cfg.limit half h b
