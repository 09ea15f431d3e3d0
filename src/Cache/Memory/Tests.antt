-- ===== src/Cache/Memory/Tests.antt =====
-- Runs of the memory cache, and the theorems at concrete inputs.
use vault.Common.{String, ◌≡◌, ◌≢◌, refl, false, [], ◌∷◌, arith, ok, err, inr, eq_iff}
use vault.Common.Dict.{lookup, insert}
use vault.Cache.{cache_full}
use vault.Cache.Unary.{unary}
use vault.Cache.Memory.{MemoryCache, set, set_if_not_exists, sets, cleans, run}
use vault.Cache.Memory.Bound.{IsWithinCap}
use vault.Cache.Memory.Locks.{claimed_once}

abbrev one_key : MemoryCache
one_key = record {
  entries = ("otp:ann", record { value = "123456"; expires_at = 40 }) ∷ [];
  max_entries = 1;
  at_cap = false;
}

abbrev empty_cache : MemoryCache
empty_cache = record { entries = []; max_entries = 8; at_cap = false }

one_key-IsWithinCap : IsWithinCap one_key
unfolding lookup
one_key-IsWithinCap = record { distinct = (refl, tt); capped = inr (omega arith) }

empty_cache-IsWithinCap : IsWithinCap empty_cache
empty_cache-IsWithinCap = record { distinct = tt; capped = inr (omega arith) }

other_key : ◌≢◌ {A = String} "otp:ann" "otp:bob"
other_key = ground (arith, eq_iff "otp:ann" "otp:bob")

-- At its cap the cache refuses a new key and still updates the one it has.
at_cap_run :
    ((set 10 "otp:bob" "1" 30 one_key).1 ≡ err cache_full)
    × ((set 10 "otp:ann" "1" 30 one_key).1 ≡ ok tt)
unfolding set lookup insert
at_cap_run = (refl, refl)

claimed_once_example :
    (set_if_not_exists 39 "job" "b" 5 (
      run unary
        (set_if_not_exists 10 "job" "a" 30 empty_cache).0
        (cleans 38 ∷ sets 12 "other" "x" 0 ∷ []))).1
    ≡ ok false
unfolding set_if_not_exists lookup
claimed_once_example =
    claimed_once unary empty_cache 10 39 "job" "a" "b" 30 5 (cleans 38 ∷ sets 12 "other" "x" 0 ∷ [])
      empty_cache-IsWithinCap refl (omega arith, (ground (arith, eq_iff "other" "job"), tt))
      (omega arith)
