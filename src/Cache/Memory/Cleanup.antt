-- ===== src/Cache/Memory/Cleanup.antt =====
-- The cleanup goroutine is invisible to readers.
use vault.Common.{ℕ, ◌≤◌, String, ◌≡◌, arith, inl, inr, Option-cases}
use vault.Common.Dict.{lookup, lookup-sweep, lookup-sweep-none}
use vault.Cache.Memory.{MemoryCache, get, cleanup, is_expired}
use vault.Cache.Memory.Bound.{IsWithinCap}

-- A cleanup changes no answer of a later read, of any key.
get-cleanup :
    (now later : ℕ) (key : String) (m : MemoryCache)
    → IsWithinCap m
    → now ≤ later
    → get later key (cleanup now m) ≡ get later key m
unfolding get cleanup
get-cleanup now later key m v h = elim (Option-cases (lookup key m.entries)) [
  | inl f ↦ ground (arith, f, lookup-sweep-none (is_expired now) key m.entries f)
  | inr (e, f) ↦ ground (arith, f, lookup-sweep (is_expired now) key e m.entries v.distinct f)
]
