-- ===== src/Session/Store/Cap.antt =====
-- The cap on concurrent sessions (CreateWithinCap, countActiveFamiliesSQL).
use vault.Common.{
  ℕ, suc, ◌+◌, ◌≤◌, ◌<◌, String, ◌≡◌, Bool, true, false, List, ◌∷◌, arith, inl, inr, ◌⊎◌, keep,
  length, Result, err, Bool-cases, leb, if◌then◌else◌,
}
use vault.Session.Store.{
  Token, Row, Db, create, create_within_cap, count_active_families, distinct, is_active, StoreError,
  session_limit_reached,
}
use vault.Session.Store.Inserts.{Inserts, Refuses, create-cases}

length-distinct-cons :
    (r : Row) (rs : List Row) → length (distinct (r ∷ rs)) ≤ suc (length (distinct rs))
length-distinct-cons r rs = ground arith

count-cons :
    (now : ℕ) (u : String) (r : Row) (db d : Db)
    → d.tokens ≡ r ∷ db.tokens
    → count_active_families now u d ≤ count_active_families now u db + 1
unfolding count_active_families
count-cons now u r db d e = rw e (elim (Bool-cases (is_active now u r)) [
  | inl b ↦ rw b (omega (arith, length-distinct-cons r (keep (is_active now u) db.tokens)))
  | inr b ↦ rw b (omega arith)
])

module _ (collate : String → String → Bool) where
  count-insert :
      (now : ℕ) (u : String) (t : Token) (db : Db) (p : Db × Result StoreError (Unit {0}))
      → Refuses collate db p ⊎ Inserts collate t db p
      → count_active_families now u p.0 ≤ count_active_families now u db + 1
  count-insert now u t db p (inl (e, q)) = rw q (omega arith)
  count-insert now u t db p (inr i) = count-cons now u _ db p.0 i.table

  -- With a cap, an insert never takes a user past it: a user within the cap is within it
  -- afterwards. One who already holds that many families is refused and nothing is written, and
  -- any other insert is the plain one.
  pub within_cap :
      (now : ℕ) (t : Token) (limit : ℕ) (db : Db)
      → 0 < limit
      → let held = count_active_families now t.user_id db in
        let p = create_within_cap collate now t limit db in
        ((count_active_families now t.user_id p.0 ≤ limit) ⊎ (limit < held))
        × (p ≡ (if leb limit held then (db, err session_limit_reached) else create collate t db))
  unfolding create_within_cap
  within_cap now t limit db h =
      elim (Bool-cases (leb limit (count_active_families now t.user_id db))) [
        | inl full ↦ (first full, ground arith)
        | inr room ↦ (second room, ground arith)
      ]
    where
      p : Db × Result StoreError (Unit {0})
      p = create_within_cap collate now t limit db

      first :
          leb limit (count_active_families now t.user_id db) ≡ true
          → (count_active_families now t.user_id p.0 ≤ limit)
            ⊎ (limit < count_active_families now t.user_id db)
      first full = ground arith

      second :
          leb limit (count_active_families now t.user_id db) ≡ false
          → (count_active_families now t.user_id p.0 ≤ limit)
            ⊎ (limit < count_active_families now t.user_id db)
      second room = inl (
          ground (
            arith,
            count-insert now t.user_id t db (create collate t db) (create-cases collate t db),
          ))
