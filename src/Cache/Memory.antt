-- ===== src/Cache/Memory.antt =====
-- internal/cache/memory.go. `time.Now()` is the argument `now`; the mutex makes each method one
-- step. A duration is not negative: a TTL of 0 stands for every TTL that is not positive, and a
-- `max_entries` of 0 for every cap that is not positive.
pub mod Bound
pub mod Reads
pub mod Counters
pub mod Locks
pub mod Cleanup
pub mod Tests
use vault.Common.{
  ℕ, ◌+◌, ◌%◌, ◌^◌, String, Bool, true, false, ◌&&◌, ◌||◌, not, Option, none, some, List, [], ◌∷◌,
  ltb, leb, ◌==◌, if◌then◌else◌, length, Result, ok, err,
}
use vault.Common.Dict.{lookup, insert, erase, sweep}
use vault.Cache.{Error, not_found, cache_full, Strconv}

pub record Entry : Type 0 where
  pub value : String
  pub expires_at : ℕ

pub record MemoryCache : Type 0 where
  pub entries : List (String × Entry)
  pub max_entries : ℕ
  pub at_cap : Bool

abbrev pub memory_max_entries : ℕ
memory_max_entries = 200_000

pub new_memory_cache_with_cap : ℕ → MemoryCache
new_memory_cache_with_cap n = record { entries = []; max_entries = n; at_cap = false }

-- `!e.expiresAt.IsZero() && now.After(e.expiresAt)`
abbrev pub is_expired : ℕ → Entry → Bool
is_expired now e = not (e.expires_at == 0) && ltb e.expires_at now

-- `e.expiresAt.IsZero() || now.Before(e.expiresAt)`
abbrev pub is_live : ℕ → Entry → Bool
is_live now e = e.expires_at == 0 || ltb now e.expires_at

abbrev pub expiry : ℕ → ℕ → ℕ
expiry now ttl = if ltb 0 ttl then now + ttl else 0

has_key : String → List (String × Entry) → Bool
has_key key m = elim (lookup key m) [ none ↦ false | some e ↦ true ]

unfoldable pub admit : String → MemoryCache → MemoryCache × Bool
unfolding has_key
admit key m =
    if m.max_entries == 0 || ltb (length m.entries) m.max_entries
    then (m, true)
    else if has_key key m.entries
    then (m, true)
    else (record m { at_cap = true }, false)

unfoldable pub get : ℕ → String → MemoryCache → Result Error String
get now key m = elim (lookup key m.entries) [
  | none ↦ err not_found
  | some e ↦ if is_expired now e then err not_found else ok e.value
]

-- The end of `Set`, `SetIfNotExists` and `Increment`: the write, if the key is admitted.
abbrev pub store :
    {A : Type 0} → MemoryCache × Bool → String → Entry → A → MemoryCache × Result Error A
store (m, false) key e a = (m, err cache_full)
store (m, true) key e a = (record m { entries = insert key e m.entries }, ok a)

unfoldable pub set : ℕ → String → String → ℕ → MemoryCache → MemoryCache × Result Error (Unit {0})
unfolding admit
set now key value ttl m =
    store (admit key m) key (record { value = value; expires_at = expiry now ttl }) tt

unfoldable pub delete : String → MemoryCache → MemoryCache
delete key m = record m { entries = erase key m.entries }

unfoldable pub get_and_delete : ℕ → String → MemoryCache → MemoryCache × Result Error String
unfolding delete
get_and_delete now key m = elim (lookup key m.entries) [
  | none ↦ (m, err not_found)
  | some e ↦ if is_expired now e then (m, err not_found) else (delete key m, ok e.value)
]

-- Whether `SetIfNotExists` finds the key taken.
abbrev pub taken : ℕ → Option Entry → Bool
taken now none = false
taken now (some e) = is_live now e

unfoldable pub set_if_not_exists :
    ℕ → String → String → ℕ → MemoryCache → MemoryCache × Result Error Bool
unfolding admit
set_if_not_exists now key value ttl m =
    if taken now (lookup key m.entries)
    then (m, ok false)
    else store (admit key m) key (record { value = value; expires_at = expiry now ttl }) true

unfoldable pub exists_key : ℕ → String → MemoryCache → Bool
exists_key now key m = elim (lookup key m.entries) [
  | none ↦ false
  | some e ↦ not (is_expired now e)
]

-- One tick of the cleanup goroutine.
unfoldable pub cleanup : ℕ → MemoryCache → MemoryCache
cleanup now m = record m { entries = sweep (is_expired now) m.entries }

module _ (conv : Strconv) where
  open conv use {format, parse}

  -- The count and the expiry that `Increment` starts from.
  abbrev pub start : ℕ → ℕ → Option Entry → ℕ × ℕ
  start now ttl none = (0, expiry now ttl)
  start now ttl (some e) =
      if is_live now e then (parse e.value, e.expires_at) else (0, expiry now ttl)

  unfoldable pub increment : ℕ → String → ℕ → MemoryCache → MemoryCache × Result Error ℕ
  unfolding admit
  increment now key ttl m =
      let (count, exp) = start now ttl (lookup key m.entries) in
      let next = (count + 1) % 2 ^ 64 in
      store (admit key m) key (record { value = format next; expires_at = exp }) next

-- One call on the cache, at an instant; reads change nothing and are left out.
pub data Call : Type 0 where
  sets : (now : ℕ) (key value : String) (ttl : ℕ) → Call
  deletes : (key : String) → Call
  takes : (now : ℕ) (key : String) → Call
  claims : (now : ℕ) (key value : String) (ttl : ℕ) → Call
  increments : (now : ℕ) (key : String) (ttl : ℕ) → Call
  cleans : (now : ℕ) → Call

module _ (conv : Strconv) where
  unfoldable pub step : MemoryCache → Call → MemoryCache
  step m (sets now key value ttl) = (set now key value ttl m).0
  step m (deletes key) = delete key m
  step m (takes now key) = (get_and_delete now key m).0
  step m (claims now key value ttl) = (set_if_not_exists now key value ttl m).0
  step m (increments now key ttl) = (increment conv now key ttl m).0
  step m (cleans now) = cleanup now m

  unfoldable pub run : MemoryCache → List Call → MemoryCache
  run m [] = m
  run m (c ∷ cs) = run (step m c) cs
