-- ===== src/Lockout/OnMemory.antt =====
-- The memory cache (internal/cache/memory.go) as the cache of the lockout and of the login.
use vault.Common.{ok}
use vault.Cache.{Strconv}
use vault.Cache.Memory.{MemoryCache, get, delete, increment, set, set_if_not_exists, get_and_delete}
use vault.Lockout.{CacheOps}

abbrev pub memory_ops : Strconv → CacheOps MemoryCache
memory_ops conv = record {
  get = get;
  increment = increment conv;
  delete = λ now key m. (delete key m, ok tt);
  set = set;
  set_if_not_exists = set_if_not_exists;
  get_and_delete = get_and_delete;
}
