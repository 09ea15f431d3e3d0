-- ===== src/Session/Store/Reap/Batches.antt =====
-- What a sweep of the refresh-token table leaves (refresh_token.go).
use vault.Common.{
  ℕ, zero, suc, ◌+◌, ◌*◌, ◌<◌, min, String, ◌≡◌, refl, arith, Bool, true, false, not, none, some,
  List, [], ◌∷◌, str_eq, eq_iff, ltb, keep, exists, length, Result, ok, Bool-cases, Option-cases,
  inl, inr, ap, ◌∙◌, sym, subst,
}
use vault.Session.Store.{Row, Db}
use vault.Session.World.{World, AuditEvent, Error, attempt}
use vault.Session.Refresh.Onward.{healthy}
use vault.Session.Store.Reap.{
  lowest, without, batch, reap_rounds, is_spent_expired, is_unused_expired, delete_expired,
  delete_expired_unused, refresh_reap_batch, refresh_reap_max_batches,
}

abbrev pub has_id : String → List Row → Bool
has_id i rows = exists (λ r. str_eq r.id i) rows

-- The primary key.
abbrev pub HasUniqueIds : List Row → Type 0
HasUniqueIds [] = Unit
HasUniqueIds (r ∷ rs) = (has_id r.id rs ≡ false) × HasUniqueIds rs

has_id-without :
    (i j : String) (rows : List Row) → has_id j rows ≡ false → has_id j (without i rows) ≡ false
has_id-without i j [] h = refl
has_id-without i j (r ∷ rs) h = ground (arith, has_id-without i j rs)

without-HasUniqueIds :
    (i : String) (rows : List Row) → HasUniqueIds rows → HasUniqueIds (without i rows)
without-HasUniqueIds i [] u = tt
without-HasUniqueIds i (r ∷ rs) (fresh, u) = elim (Bool-cases (str_eq r.id i)) [
  | inl same ↦ rw same (without-HasUniqueIds i rs u)
  | inr other ↦ rw other (has_id-without i r.id rs fresh, without-HasUniqueIds i rs u)
]

without-absent : (i : String) (rows : List Row) → has_id i rows ≡ false → without i rows ≡ rows
without-absent i [] h = refl
without-absent i (r ∷ rs) h = ground (arith, without-absent i rs)

has_id-keep :
    (p : Row → Bool) (i : String) (rows : List Row)
    → has_id i rows ≡ false
    → has_id i (keep p rows) ≡ false
has_id-keep p i [] h = refl
has_id-keep p i (r ∷ rs) h = ground (arith, has_id-keep p i rs)

abbrev pub rejects : (Row → Bool) → Row → Bool
rejects p r = not (p r)

same_id-absent :
    (j i : String) (rows : List Row)
    → str_eq j i ≡ true
    → has_id j rows ≡ false
    → has_id i rows ≡ false
same_id-absent j i rows same h = subst (λ k. has_id k rows ≡ false) ((eq_iff j i).0 same) h

without-selected :
    (p : Row → Bool) (i : String) (rows : List Row)
    → HasUniqueIds rows
    → has_id i (keep p rows) ≡ true
    → (length (keep p (without i rows)) + 1 ≡ length (keep p rows))
      × (keep (rejects p) (without i rows) ≡ keep (rejects p) rows)
without-selected p i [] u h = absurd (ground arith)
without-selected p i (r ∷ rs) (fresh, u) h = elim (Bool-cases (str_eq r.id i)) [
  | inl same ↦ elim (Bool-cases (p r)) [
    | inl chosen ↦
        let gone = without-absent i rs (same_id-absent r.id i rs same fresh) in
        rw (same, chosen, gone) (ground arith, refl)
    | inr passed ↦ absurd (ground (arith, has_id-keep p i rs (same_id-absent r.id i rs same fresh)))
  ]
  | inr other ↦ elim (Bool-cases (p r)) [
    | inl chosen ↦
        let (fewer, rest) = without-selected p i rs u (ground arith) in
        rw (other, chosen) (ground arith, rest)
    | inr passed ↦
        let (fewer, rest) = without-selected p i rs u (ground arith) in
        rw (other, passed) (fewer, ap (λ x. r ∷ x) rest)
  ]
]

module _ (before : String → String → Bool) where
  lowest-has_id :
      (rows : List Row) (i : String) → lowest before rows ≡ some i → has_id i rows ≡ true
  lowest-has_id [] i h = absurd (ground arith)
  lowest-has_id (r ∷ rs) i h = elim (Option-cases (lowest before rs)) [
    | inl none_left ↦ ground (arith, eq_iff r.id i)
    | inr (j, found) ↦ ground (arith, eq_iff r.id i, lowest-has_id rs j found)
  ]

  lowest-none : (rows : List Row) → lowest before rows ≡ none → rows ≡ []
  lowest-none [] h = refl
  lowest-none (r ∷ rs) h = elim (Option-cases (lowest before rs)) [
    | inl none_left ↦ absurd (ground arith)
    | inr (j, found) ↦ absurd (ground arith)
  ]

  module _ (p : Row → Bool) where
    -- What one statement leaves, and how many rows it deleted.
    pub record Deletes (limit : ℕ) (rows rest : List Row) (n : ℕ) : Type 0 where
      pub affected : n ≡ min limit (length (keep p rows))
      pub fewer : length (keep p rest) + n ≡ length (keep p rows)
      pub others : keep (rejects p) rest ≡ keep (rejects p) rows
      pub unique : HasUniqueIds rest

    batch-Deletes :
        (limit : ℕ) (rows : List Row)
        → HasUniqueIds rows
        → Deletes limit rows (batch before p limit rows).0 (batch before p limit rows).1
    batch-Deletes zero rows u = record {
      affected = ground arith;
      fewer = ground arith;
      others = refl;
      unique = u;
    }
    batch-Deletes (suc k) rows u = elim (Option-cases (lowest before (keep p rows))) [
      | inl empty ↦
          let nil = lowest-none (keep p rows) empty in
          rw (empty, batch)
            (record {
              affected = rw nil (ground arith);
              fewer = ground arith;
              others = refl;
              unique = u;
            })
      | inr (i, found) ↦
          let (fewer, others) = without-selected p i rows u (lowest-has_id (keep p rows) i found) in
          let d = batch-Deletes k (without i rows) (without-HasUniqueIds i rows u) in
          let a = d.affected in
          let b = d.fewer in
          rw (found, batch)
            (record {
              affected = ground (arith, fewer, a);
              fewer = ground (arith, fewer, b);
              others = d.others ∙ others;
              unique = d.unique;
            })
    ]

    keep-rejects : (rows : List Row) → length (keep p rows) ≡ 0 → keep (rejects p) rows ≡ rows
    keep-rejects [] h = refl
    keep-rejects (r ∷ rs) h = elim (Bool-cases (p r)) [
      | inl chosen ↦ absurd (ground arith)
      | inr passed ↦ rw passed (ap (λ x. r ∷ x) (keep-rejects rs (ground arith)))
    ]

    -- The sweep has ended with all rows gone that it selects.
    abbrev pub Sweeps : Db → World × Result Error ℕ → ℕ → Type 0
    Sweeps db q total =
        (q.1 ≡ ok (total + length (keep p db.tokens)))
        × (q.0.db.tokens ≡ keep (rejects p) db.tokens)

    rounds-Sweeps :
        (rounds limit total : ℕ) (db : Db) (audit : List AuditEvent)
        → HasUniqueIds db.tokens
        → length (keep p db.tokens) < rounds * limit
        → Sweeps db (reap_rounds before p rounds limit total (healthy db audit)) total
    unfolding reap_rounds attempt
    rounds-Sweeps zero limit total db audit u few = absurd (ground arith)
    rounds-Sweeps (suc k) limit total db audit u few =
        let rest = (batch before p limit db.tokens).0 in
        let n = (batch before p limit db.tokens).1 in
        let d = batch-Deletes limit db.tokens u in
        let a = d.affected in
        let b = d.fewer in
        elim (Bool-cases (ltb n limit)) [
          | inl last ↦
              let gone : length (keep p rest) ≡ 0 = ground (arith, a, b) in
              rw last (ap ok (ground (arith, a, b)), sym (keep-rejects rest gone) ∙ d.others)
          | inr more ↦
              let left : length (keep p rest) < k * limit = ground (arith, a, b, few) in
              let (r, q) =
                rounds-Sweeps k limit (total + n) (record db { tokens = rest }) audit d.unique
                  left in
              rw more (r ∙ ap ok (omega (arith, b)), q ∙ d.others)
        ]

  -- Each sweep of expired rows, spent ones and unused ones, ends within its 20 rounds with no row left
  -- that it selects, every other row in its place, and the number of deleted rows as its answer: if
  -- ids are unique, fewer than 40,000 rows are selected and every statement is answered.
  pub delete_expired-Sweeps :
      (now : ℕ) (db : Db) (audit : List AuditEvent)
      → HasUniqueIds db.tokens
      → length (keep (is_spent_expired now) db.tokens) < 40_000
      → length (keep (is_unused_expired now) db.tokens) < 40_000
      → Sweeps (is_spent_expired now) db (delete_expired before now (healthy db audit)) 0
        × Sweeps (is_unused_expired now) db (delete_expired_unused before now (healthy db audit)) 0
  unfolding delete_expired delete_expired_unused
  delete_expired-Sweeps now db audit u spent unused = (
    rounds-Sweeps (is_spent_expired now) refresh_reap_max_batches refresh_reap_batch 0 db audit u
        spent,
    rounds-Sweeps (is_unused_expired now) refresh_reap_max_batches refresh_reap_batch 0 db audit u
        unused,
  )
