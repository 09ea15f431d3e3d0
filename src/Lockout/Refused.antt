-- ===== src/Lockout/Refused.antt =====
-- A counter that could not be written (noteLockoutCounterRefused).
use vault.Common.{ℕ, ◌+◌, ◌≤◌, ◌<◌, String, ◌≡◌, refl, true, some, arith, err, inl, inr, ◌∙◌, ap}
use vault.Common.Results.{Result-cases}
use vault.Cache.{Error}
use vault.Lockout.{
  CacheOps, Lockout, source_lockout_key, account_lockout_key, lockout_duration, lockout_generation,
  cached_count, is_account_locked, record_failed_attempt, locked_by_stored_count,
  lockout_counters_unwritable, advance,
}

module _ (format : ℕ → String) (scan : String → ℕ) {C : Type 0} (ops : CacheOps C) where
  advance-refused :
      (now : ℕ) (key : String) (s : Lockout C) (c d : C) (x : Error)
      → ops.increment now key lockout_duration c ≡ (d, err x)
      → advance format scan ops now key s c ≡ record s { cache = some d; refused_at = now }
  advance-refused now key s c d x refused = ground (arith, refused)

  -- A later Increment of the account's counter keeps the latch or sets it anew.
  advance-latched :
      (now : ℕ) (key : String) (s : Lockout C) (c : C)
      → s.refused_at ≡ now
      → let r = advance format scan ops now key s c in (r.refused_at ≡ now) × (r.stored ≡ s.stored)
  advance-latched now key s c h = elim (Result-cases (ops.increment now key lockout_duration c).1) [
    | inl (n, q) ↦ ground (arith, q, h)
    | inr (y, q) ↦ ground (arith, q, h)
  ]

  latched :
      (now : ℕ) (user ip : String) (s : Lockout C) (c d : C) (g : ℕ) (x : Error)
      → s.cache ≡ some c
      → lockout_generation format scan ops now user c ≡ some g
      → ops.increment now (source_lockout_key format scan ops user ip g) lockout_duration c
        ≡ (d, err x)
      → let r = record_failed_attempt format scan ops now user ip s in
        (r.refused_at ≡ now) × (r.stored ≡ s.stored)
  unfolding record_failed_attempt
  latched now user ip s c d g x some_cache gen refused =
      rw
        (
          some_cache,
          gen,
          advance-refused now (source_lockout_key format scan ops user ip g) s c d x refused,
        )
        (advance-latched now (account_lockout_key user)
          (record s { cache = some d; refused_at = now }) d refl)

  judged :
      (later user_gen : ℕ) (user ip : String) (s : Lockout C) (e : C)
      → s.cache ≡ some e
      → lockout_counters_unwritable later s ≡ true
      → lockout_generation format scan ops later user e ≡ some user_gen
      → cached_count format scan ops later (source_lockout_key format scan ops user ip user_gen) e
        ≡ some 0
      → is_account_locked format scan ops later user ip s ≡ locked_by_stored_count user s
  unfolding is_account_locked
  judged later user_gen user ip s e some_cache u gen zeroed =
      rw (some_cache, gen, zeroed, u, is_account_locked) refl

  -- When the cache refuses the counter of a failed attempt, then for fifteen minutes a login of that
  -- account from that source, whatever has become of the cache, is judged by the durable count if
  -- the source's counter reads zero.
  pub refused_counter_holds :
      (now later : ℕ) (user ip : String) (s : Lockout C) (c d e : C) (g : ℕ) (x : Error)
      → 0 < now
      → now ≤ later
      → later < now + lockout_duration
      → s.cache ≡ some c
      → lockout_generation format scan ops now user c ≡ some g
      → ops.increment now (source_lockout_key format scan ops user ip g) lockout_duration c
        ≡ (d, err x)
      → (h : ℕ) → lockout_generation format scan ops later user e ≡ some h
      → cached_count format scan ops later (source_lockout_key format scan ops user ip h) e ≡ some 0
      → is_account_locked format scan ops later user ip
          (record (record_failed_attempt format scan ops now user ip s) { cache = some e })
        ≡ locked_by_stored_count user s
  refused_counter_holds now later user ip s c d e g x a b b2 some_cache gen refused h gen2 zeroed =
      let r = record_failed_attempt format scan ops now user ip s in
      let (at, kept) = latched now user ip s c d g x some_cache gen refused in
      let t : Lockout C = record r { cache = some e } in
      judged later h user ip t e refl (ground (arith, at)) gen2 zeroed
      ∙ ap (λ f. locked_by_stored_count user (record s { stored = f })) kept
