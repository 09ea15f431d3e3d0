-- ===== src/Lockout.antt =====
-- internal/service/auth.go: the account lockout and the progressive delay of a login. The cache is any
-- implementation of its interface, `scan` is what Sscanf("%d") reads from a text (0 where that
-- fails) and `format` what "%d" prints. The durable failed_login_count is read through `stored`,
-- none where the account cannot be read. Instants are nanoseconds.
pub mod OnMemory
pub mod Refused
pub mod Delay
mod Tests
use Prim.Native.String
use vault.Common.{
  ℕ, zero, suc, ◌+◌, ◌-◌, ◌*◌, String, Bool, true, false, ◌&&◌, ◌||◌, not, Option, none, some,
  str_eq, ltb, leb, ◌==◌, if◌then◌else◌, Result, ok, err,
}
use vault.Cache.{Error, not_found}

-- cache.Cache, as far as the login calls it; the first argument of a call is its instant.
pub record CacheOps (C : Type 0) : Type 0 where
  pub get : ℕ → String → C → Result Error String
  pub increment : ℕ → String → ℕ → C → C × Result Error ℕ
  pub delete : ℕ → String → C → C × Result Error (Unit {0})
  pub set : ℕ → String → String → ℕ → C → C × Result Error (Unit {0})
  pub set_if_not_exists : ℕ → String → String → ℕ → C → C × Result Error Bool
  pub get_and_delete : ℕ → String → C → C × Result Error String

abbrev pub lockout_threshold : ℕ
lockout_threshold = 5

abbrev pub distributed_lockout_threshold : ℕ
distributed_lockout_threshold = 50

-- Fifteen minutes.
abbrev pub lockout_duration : ℕ
lockout_duration = 900_000_000_000

abbrev pub lockout_generation_ttl : ℕ
lockout_generation_ttl = 2 * lockout_duration

unfoldable pub account_lockout_key : String → String
account_lockout_key user = String.◌++◌ "lockout:" user

unfoldable pub lockout_generation_key : String → String
lockout_generation_key user = String.◌++◌ "lockout_gen:" user

-- The part of AuthService that the lockout keeps; `refused_at` is lockoutCounterRefusedAt.
pub record Lockout (C : Type 0) : Type 0 where
  pub cache : Option C
  pub refused_at : ℕ
  pub stored : String → Option ℕ

abbrev pub locked_by_stored_count : {C : Type 0} → String → Lockout C → Bool
locked_by_stored_count user s = elim (s.stored user) [
  | none ↦ false
  | some n ↦ leb lockout_threshold n
]

abbrev note_lockout_counter_refused : {C : Type 0} → ℕ → Lockout C → Lockout C
note_lockout_counter_refused now s = record s { refused_at = now }

abbrev pub lockout_counters_unwritable : {C : Type 0} → ℕ → Lockout C → Bool
lockout_counters_unwritable now s =
    not (s.refused_at == 0) && ltb (now - s.refused_at) lockout_duration

module _ (format : ℕ → String) (scan : String → ℕ) {C : Type 0} (ops : CacheOps C) where
  unfoldable pub source_lockout_key : String → String → ℕ → String
  source_lockout_key user ip generation =
      if generation == 0
      then String.◌++◌ "lockout:" (String.◌++◌ user (String.◌++◌ "|" ip))
      else String.◌++◌ "lockout:" (
          String.◌++◌ user
            (String.◌++◌ "|g" (String.◌++◌ (format generation) (String.◌++◌ "|" ip))))

  -- What an answer of the cache counts as; none where the cache could not answer.
  abbrev counted : Result Error String → Option ℕ
  counted (ok value) = if str_eq value "" then some 0 else some (scan value)
  counted (err not_found) = some 0
  counted (err e) = none

  unfoldable pub cached_count : ℕ → String → C → Option ℕ
  cached_count now key c = counted (ops.get now key c)

  abbrev pub lockout_generation : ℕ → String → C → Option ℕ
  lockout_generation now user c = cached_count now (lockout_generation_key user) c

  -- A counter that the cache cannot answer, or whose zero may be a write that was refused.
  abbrev is_unanswered : Bool → Option ℕ → Bool
  is_unanswered unwritable none = true
  is_unanswered unwritable (some n) = n == 0 && unwritable

  abbrev reaches : ℕ → Option ℕ → Bool
  reaches threshold none = false
  reaches threshold (some n) = leb threshold n

  abbrev pub locked_in : ℕ → String → String → Lockout C → C → Option ℕ → Bool
  locked_in now user ip s c none = locked_by_stored_count user s
  locked_in now user ip s c (some generation) =
      let unwritable = lockout_counters_unwritable now s in
      let per_source = cached_count now (source_lockout_key user ip generation) c in
      let account = cached_count now (account_lockout_key user) c in
      if is_unanswered unwritable per_source
      then locked_by_stored_count user s
      else if reaches lockout_threshold per_source
      then true
      else if is_unanswered unwritable account
      then locked_by_stored_count user s
      else reaches distributed_lockout_threshold account

  unfoldable pub is_account_locked : ℕ → String → String → Lockout C → Bool
  is_account_locked now user ip s = elim s.cache [
    | none ↦ locked_by_stored_count user s
    | some c ↦ locked_in now user ip s c (lockout_generation now user c)
  ]

  -- One best-effort Increment, whose refusal is latched.
  abbrev pub advance : ℕ → String → Lockout C → C → Lockout C
  advance now key s c =
      let (d, r) = ops.increment now key lockout_duration c in
      elim r [
        | ok n ↦ record s { cache = some d }
        | err e ↦ record (note_lockout_counter_refused now s) { cache = some d }
      ]

  abbrev pub advance_source : ℕ → String → String → Lockout C → C → Option ℕ → Lockout C
  advance_source now user ip s c none = note_lockout_counter_refused now s
  advance_source now user ip s c (some generation) =
      advance now (source_lockout_key user ip generation) s c

  abbrev pub advance_account : ℕ → String → Lockout C → Lockout C
  advance_account now user s = elim s.cache [
    | none ↦ s
    | some c ↦ advance now (account_lockout_key user) s c
  ]

  unfoldable pub record_failed_attempt : ℕ → String → String → Lockout C → Lockout C
  record_failed_attempt now user ip s = elim s.cache [
    | none ↦ s
    | some c ↦
        advance_account now user (advance_source now user ip s c (lockout_generation now user c))
  ]

  unfoldable pub clear_lockout : ℕ → String → String → Lockout C → Lockout C
  clear_lockout now user ip s = elim s.cache [
    | none ↦ s
    | some c ↦ elim (lockout_generation now user c) [
      | none ↦ s
      | some generation ↦ record s {
        cache = some (ops.delete now (source_lockout_key user ip generation) c).0;
      }
    ]
  ]

  -- A free function over a cache, which may be nil; its error is the cache's.
  unfoldable pub clear_account_lockout : ℕ → String → Option C → Option C × Result Error (Unit {0})
  clear_account_lockout now user none = (none, ok tt)
  clear_account_lockout now user (some c) =
      let (d, deleted) = ops.delete now (account_lockout_key user) c in
      let (e, advanced) =
        ops.increment now (lockout_generation_key user) lockout_generation_ttl d in
      elim deleted [
        | err x ↦ (some d, err x)
        | ok u ↦ elim advanced [ err x ↦ (some e, err x) | ok n ↦ (some e, ok tt) ]
      ]

-- 100 ms and 2 s.
abbrev pub login_throttle_base : ℕ
login_throttle_base = 100_000_000

abbrev pub login_throttle_max : ℕ
login_throttle_max = 2_000_000_000

-- The loop, with `rounds` rounds left.
abbrev pub doubled : (rounds delay : ℕ) → ℕ
doubled zero delay = delay
doubled (suc rounds) delay =
    let rest = doubled rounds (delay * 2) in
    if leb login_throttle_max (delay * 2) then login_throttle_max else rest

unfoldable pub login_throttle_delay : ℕ → ℕ
login_throttle_delay failures =
    if leb failures lockout_threshold
    then 0
    else doubled (failures - (lockout_threshold + 1)) login_throttle_base
