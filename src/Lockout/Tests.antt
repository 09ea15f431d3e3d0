-- ===== src/Lockout/Tests.antt =====
-- The lockout over the memory cache, and over a cache that refuses every counter.
use vault.Common.{ℕ, String, ◌≡◌, refl, true, false, Option, some, [], arith, ok, err}
use vault.Common.Dict.{lookup, insert, erase}
use vault.Cache.{cache_full, not_found}
use vault.Cache.Unary.{print, read, unary}
use vault.Cache.Memory.{MemoryCache, get, delete, increment}
use vault.Lockout.{
  CacheOps, Lockout, is_account_locked, record_failed_attempt, clear_lockout, clear_account_lockout,
  locked_by_stored_count, cached_count, source_lockout_key, account_lockout_key,
  lockout_generation_key,
}
use vault.Lockout.OnMemory.{memory_ops}
use vault.Lockout.Refused.{refused_counter_holds}

abbrev memory : CacheOps MemoryCache
memory = memory_ops unary

abbrev stored : String → Option ℕ
stored user = some 7

abbrev start : Lockout MemoryCache
start = record {
  cache = some (record { entries = []; max_entries = 0; at_cap = false });
  refused_at = 0;
  stored = stored;
}

abbrev fail : ℕ → Lockout MemoryCache → Lockout MemoryCache
fail now s = record_failed_attempt print read memory now "ann" "10.0.0.1" s

abbrev after_five : Lockout MemoryCache
after_five = fail 5 (fail 4 (fail 3 (fail 2 (fail 1 start))))

locked_here : is_account_locked print read memory 6 "ann" "10.0.0.1" after_five ≡ true
unfolding is_account_locked record_failed_attempt cached_count get lookup increment insert
    source_lockout_key account_lockout_key lockout_generation_key
locked_here = refl

not_locked_elsewhere : is_account_locked print read memory 6 "ann" "10.0.0.2" after_five ≡ false
unfolding is_account_locked record_failed_attempt cached_count get lookup increment insert
    source_lockout_key account_lockout_key lockout_generation_key
not_locked_elsewhere = refl

cleared_by_success :
    is_account_locked print read memory 7 "ann" "10.0.0.1"
      (clear_lockout print read memory 6 "ann" "10.0.0.1" after_five)
    ≡ false
unfolding is_account_locked clear_lockout record_failed_attempt cached_count get lookup increment
    insert source_lockout_key account_lockout_key lockout_generation_key delete erase
cleared_by_success = refl

cleared_by_reset :
    is_account_locked print read memory 7 "ann" "10.0.0.1" (record after_five {
      cache = (clear_account_lockout print read memory 6 "ann" after_five.cache).0;
    })
    ≡ false
unfolding is_account_locked clear_account_lockout record_failed_attempt cached_count get lookup
    increment insert source_lockout_key account_lockout_key lockout_generation_key delete erase
cleared_by_reset = refl

-- A cache at its cap: it holds nothing and takes nothing.
abbrev saturated : CacheOps (Unit {0})
saturated = record {
  get = λ now key c. err not_found;
  increment = λ now key ttl c. (c, err cache_full);
  delete = λ now key c. (c, ok tt);
  set = λ now key value ttl c. (c, err cache_full);
  set_if_not_exists = λ now key value ttl c. (c, err cache_full);
  get_and_delete = λ now key c. (c, err not_found);
}

abbrev at_cap : Lockout (Unit {0})
at_cap = record { cache = some tt; refused_at = 0; stored = stored }

reads_zero : (now : ℕ) (key : String) → cached_count print read saturated now key tt ≡ some 0
unfolding cached_count
reads_zero now key = refl

refused_counter_holds_example :
    is_account_locked print read saturated 20 "ann" "10.0.0.1"
      (record (record_failed_attempt print read saturated 10 "ann" "10.0.0.1" at_cap) {
        cache = some tt;
      })
    ≡ locked_by_stored_count "ann" at_cap
refused_counter_holds_example =
    refused_counter_holds print read saturated 10 20 "ann" "10.0.0.1" at_cap tt tt tt 0 cache_full
      (omega arith) (omega arith) (omega arith) refl (reads_zero 10 (lockout_generation_key "ann"))
      refl 0 (reads_zero 20 (lockout_generation_key "ann"))
      (reads_zero 20 (source_lockout_key print read saturated "ann" "10.0.0.1" 0))
