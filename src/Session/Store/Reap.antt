-- ===== src/Session/Store/Reap.antt =====
-- internal/repository/postgres/refresh_token.go: DeleteExpired and DeleteExpiredUnused. A statement
-- deletes the rows of lowest id among those that it selects, `limit` of them at most: they are
-- taken one at a time. `before` is the database's order on ids. The loop has its 20 rounds.
pub mod Batches
use vault.Common.{
  ℕ, zero, suc, ◌+◌, String, Bool, true, false, ◌&&◌, ◌||◌, not, Option, none, some, List, [], ◌∷◌,
  str_eq, ltb, if◌then◌else◌, keep, Result, ok, err,
}
use vault.Session.Store.{Row, Db, StoreError}
use vault.Session.World.{M, continue, ◌>>=◌, pure, fail, attempt, sweep_failed}

abbrev pub refresh_reap_batch : ℕ
refresh_reap_batch = 2000

abbrev pub refresh_reap_max_batches : ℕ
refresh_reap_max_batches = 20

abbrev pub is_spent_expired : ℕ → Row → Bool
is_spent_expired now r = ltb r.expires_at now && (r.used || r.revoked)

abbrev pub is_unused_expired : ℕ → Row → Bool
is_unused_expired now r = ltb r.expires_at now && (not r.used && not r.revoked)

abbrev pub without : String → List Row → List Row
without i rows = keep (λ r. not (str_eq r.id i)) rows

module _ (before : String → String → Bool) where
  abbrev pub lowest : List Row → Option String
  lowest [] = none
  lowest (r ∷ rs) = elim (lowest rs) [
    | none ↦ some r.id
    | some i ↦ some (if before i r.id then i else r.id)
  ]

  module _ (selects : Row → Bool) where
    -- One statement, with its RowsAffected.
    abbrev pub batch : ℕ → List Row → List Row × ℕ
    batch zero rows = (rows, 0)
    batch (suc k) rows = elim (lowest (keep selects rows)) [
      | none ↦ (rows, 0)
      | some i ↦ let (rest, n) = batch k (without i rows) in (rest, suc n)
    ]

    abbrev pub delete_batch : ℕ → Db → Db × Result StoreError ℕ
    delete_batch limit db =
        let (rest, n) = batch limit db.tokens in (record db { tokens = rest }, ok n)

    -- The loop, with the rounds that it has left and the total so far.
    abbrev after_batch : ℕ → ℕ → (ℕ → M ℕ) → Result StoreError ℕ → M ℕ
    after_batch limit total next (err e) = fail (sweep_failed total)
    after_batch limit total next (ok n) = if ltb n limit then pure (total + n) else next (total + n)

    unfoldable pub reap_rounds : (rounds limit total : ℕ) → M ℕ
    reap_rounds zero limit total = pure total
    reap_rounds (suc k) limit total =
        attempt (delete_batch limit) >>= after_batch limit total (reap_rounds k limit)

  unfoldable pub delete_expired : ℕ → M ℕ
  unfolding reap_rounds
  delete_expired now =
      reap_rounds (is_spent_expired now) refresh_reap_max_batches refresh_reap_batch 0

  unfoldable pub delete_expired_unused : ℕ → M ℕ
  unfolding reap_rounds
  delete_expired_unused now =
      reap_rounds (is_unused_expired now) refresh_reap_max_batches refresh_reap_batch 0
