-- ===== src/RateLimit/Tests.antt =====
-- The limiter on a small budget, and the fallback at its cap.
use vault.Common.{
  ℕ, zero, suc, ◌+◌, ◌*◌, ◌≤◌, String, ◌≡◌, refl, ap, true, false, none, List, [], ◌∷◌, arith, err,
  length,
}
use vault.Common.Dict.{lookup}
use vault.Cache.{unavailable}
use vault.RateLimit.{
  LocalEntry, LocalRateLimiter, RateLimitConfig, served, rate_limit, local_max_entries,
}
use vault.RateLimit.Saturated.{saturated-served}
use vault.RateLimit.Fallback.{Event, requests, evicts, served_count, fallback_bound}

abbrev login : RateLimitConfig
login = record { limit = 5; window = 900; fail_closed = false }

abbrev fresh : LocalRateLimiter
fresh = record { entries = []; at_cap = false }

abbrev burst : List Event
burst = requests 10 "a" ∷ requests 20 "a" ∷ requests 20 "b" ∷ evicts 30 ∷ requests 40 "a" ∷ []

abbrev strict : RateLimitConfig
strict = record login { limit = 2 }

absent_at_first : (key : String) → lookup {V = LocalEntry} key [] ≡ none
unfolding lookup
absent_at_first key = refl

fallback_bound_example : served_count strict "a" fresh burst ≤ 2
fallback_bound_example =
    fallback_bound strict "a" fresh burst 10 refl
      (
        (omega arith, omega arith),
        (
          (omega arith, omega arith),
          (
            (omega arith, omega arith),
            ((omega arith, omega arith), ((omega arith, omega arith), tt)),
          ),
        ),
      )
      (omega arith) (omega arith) (absent_at_first "a")

unfoldable fill : ℕ → List (String × LocalEntry)
fill zero = []
fill (suc n) = ("other", record { count = 1; window_end = 900 }) ∷ fill n

length-fill : (n : ℕ) → length (fill n) ≡ n
unfolding fill
length-fill zero = refl
length-fill (suc n) = ap suc (length-fill n)

lookup-fill : (n : ℕ) → lookup "new" (fill n) ≡ none
unfolding fill lookup
lookup-fill zero = refl
lookup-fill (suc n) = lookup-fill n

abbrev full : LocalRateLimiter
full = record { entries = fill local_max_entries; at_cap = true }

full-length : local_max_entries ≤ length full.entries
full-length = omega (arith, length-fill local_max_entries)

saturated-served_example :
    (rate_limit login true 10 "new" (2 * (0 + 1)) (err unavailable) full).1 ≡ served 0
saturated-served_example =
    saturated-served login 10 "new" 0 full unavailable refl (lookup-fill local_max_entries)
      full-length (omega arith) (omega arith)
