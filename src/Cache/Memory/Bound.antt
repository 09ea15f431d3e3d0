-- ===== src/Cache/Memory/Bound.antt =====
-- The entry cap of the memory cache (admit).
use vault.Common.{
  ℕ, ◌≤◌, String, ◌≡◌, true, false, List, [], ◌∷◌, arith, length, ◌⊎◌, inl, inr, Option-cases,
}
use vault.Common.Dict.{
  lookup, Distinct, length-insert-le, length-insert_old, length-erase-le, length-sweep-le,
  insert-Distinct, erase-Distinct, sweep-Distinct,
}
use vault.Cache.{Strconv}
use vault.Cache.Memory.{
  Entry, MemoryCache, new_memory_cache_with_cap, admit, store, set, delete, get_and_delete,
  set_if_not_exists, cleanup, increment, expiry, is_expired, Call, sets, deletes, takes, claims,
  increments, cleans, step, run,
}

-- No key is bound twice, and with a cap there are at most that many keys.
pub record IsWithinCap (m : MemoryCache) : Type 0 where
  pub distinct : Distinct m.entries
  pub capped : (m.max_entries ≡ 0) ⊎ (length m.entries ≤ m.max_entries)

store-IsWithinCap :
    {A : Type 0} (m : MemoryCache) (key : String) (e : Entry) (a : A)
    → IsWithinCap m
    → IsWithinCap (store (admit key m) key e a).0
unfolding admit
store-IsWithinCap m key e a v = elim (Option-cases (lookup key m.entries)) [
  | inl f ↦
      ground
        (arith, f, insert-Distinct key e m.entries v.distinct, length-insert-le key e m.entries)
  | inr (u, f) ↦
      ground (
        arith,
        f,
        insert-Distinct key e m.entries v.distinct,
        length-insert_old key e u m.entries f,
      )
]

delete-IsWithinCap : (key : String) (m : MemoryCache) → IsWithinCap m → IsWithinCap (delete key m)
unfolding delete
delete-IsWithinCap key m v =
    ground (arith, erase-Distinct key m.entries v.distinct, length-erase-le key m.entries)

cleanup-IsWithinCap : (now : ℕ) (m : MemoryCache) → IsWithinCap m → IsWithinCap (cleanup now m)
unfolding cleanup
cleanup-IsWithinCap now m v = ground (
  arith,
  sweep-Distinct (is_expired now) m.entries v.distinct,
  length-sweep-le (is_expired now) m.entries,
)

module _ (conv : Strconv) where
  pub step-IsWithinCap : (m : MemoryCache) (c : Call) → IsWithinCap m → IsWithinCap (step conv m c)
  unfolding step set get_and_delete set_if_not_exists increment
  step-IsWithinCap m (sets now key value ttl) v = store-IsWithinCap m key _ tt v
  step-IsWithinCap m (deletes key) v = delete-IsWithinCap key m v
  step-IsWithinCap m (takes now key) v = ground (arith, delete-IsWithinCap key m v)
  step-IsWithinCap m (claims now key value ttl) v = ground (
    arith,
    store-IsWithinCap m key (record { value = value; expires_at = expiry now ttl }) true v,
  )
  step-IsWithinCap m (increments now key ttl) v = store-IsWithinCap m key _ _ v
  step-IsWithinCap m (cleans now) v = cleanup-IsWithinCap now m v

  run-IsWithinCap : (m : MemoryCache) (cs : List Call) → IsWithinCap m → IsWithinCap (run conv m cs)
  unfolding run
  run-IsWithinCap m [] v = v
  run-IsWithinCap m (c ∷ cs) v = run-IsWithinCap (step conv m c) cs (step-IsWithinCap m c v)

  -- Whatever calls are made on a new cache, it holds no key twice, and never more keys than a
  -- positive cap.
  run-new_memory_cache_with_cap :
      (n : ℕ) (cs : List Call) → IsWithinCap (run conv (new_memory_cache_with_cap n) cs)
  unfolding new_memory_cache_with_cap
  run-new_memory_cache_with_cap n cs =
      run-IsWithinCap (record { entries = []; max_entries = n; at_cap = false }) cs
        (record { distinct = tt; capped = inr (omega arith) })
