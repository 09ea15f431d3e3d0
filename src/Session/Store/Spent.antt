-- ===== src/Session/Store/Spent.antt =====
-- MarkUsed as a compare-and-set: a token is spent at most once.
use vault.Common.{
  String, ◌≡◌, ◌≢◌, refl, Bool, false, List, [], ◌∷◌, arith, inl, inr, ◌⊎◌, exists, keep, eq_iff,
  Result,
}
use vault.Session.Store.{
  Token, Row, Db, successor, update, set_used, set_revoked, mark_used, is_spendable, revoke_by_id,
  revoke_by_device_id, revoke_family, revoke_all_for_user, delete_all_for_user, revoke_all,
  StoreError, affected,
}
use vault.Session.Store.Inserts.{Inserts, Refuses, create-cases, create_within_cap-cases}
use vault.Session.Store.Statements.{
  Statement, creates, creates_within_cap, marks_used, revokes_id, revokes_device, revokes_family,
  revokes_user, revokes_all, deletes_user, changes, exec, Reach, Reach-invariant,
}

-- No row with the id can be spent.
abbrev pub IsSpent : String → Db → Type 0
IsSpent i db = exists (is_spendable i) db.tokens ≡ false

module _ (i : String) (p : Row → Bool) where
  spent-update_used :
      (rs : List Row)
      → exists (is_spendable i) rs ≡ false
      → exists (is_spendable i) (update p set_used rs) ≡ false
  spent-update_used [] h = refl
  spent-update_used (r ∷ rs) h = ground (arith, spent-update_used rs)

  spent-update_revoked :
      (rs : List Row)
      → exists (is_spendable i) rs ≡ false
      → exists (is_spendable i) (update p set_revoked rs) ≡ false
  spent-update_revoked [] h = refl
  spent-update_revoked (r ∷ rs) h = ground (arith, spent-update_revoked rs)

  spent-keep :
      (rs : List Row)
      → exists (is_spendable i) rs ≡ false
      → exists (is_spendable i) (keep p rs) ≡ false
  spent-keep [] h = refl
  spent-keep (r ∷ rs) h = ground (arith, spent-keep rs)

-- No row is inserted under the id, which is a fresh UUID for every row.
abbrev pub IsOther : String → Db → Statement → Type 0
IsOther i db (creates t) = t.id ≢ i
IsOther i db (creates_within_cap now t cap) = t.id ≢ i
IsOther i db _ = Unit {0}

module _ (collate : String → String → Bool) (i : String) where
  insert-IsSpent :
      (t : Token) (db : Db) (p : Db × Result StoreError (Unit {0}))
      → t.id ≢ i
      → IsSpent i db
      → Refuses collate db p ⊎ Inserts collate t db p
      → IsSpent i p.0
  insert-IsSpent t db p h v (inl (e, q)) = rw q v
  insert-IsSpent t db p h v (inr n) = rw n.table (unfold successor in ground (arith, eq_iff t.id i))

  exec-IsSpent :
      (db : Db) (s : Statement) → IsOther i db s → IsSpent i db → IsSpent i (exec collate db s)
  unfolding exec mark_used revoke_by_id revoke_by_device_id revoke_family revoke_all_for_user
      delete_all_for_user revoke_all
  exec-IsSpent db (creates t) h v = insert-IsSpent t db _ h v (create-cases collate t db)
  exec-IsSpent db (creates_within_cap now t cap) h v =
      insert-IsSpent t db _ h v (create_within_cap-cases collate now t cap db)
  exec-IsSpent db (marks_used j) h v = spent-update_used i _ db.tokens v
  exec-IsSpent db (revokes_id j) h v = spent-update_revoked i _ db.tokens v
  exec-IsSpent db (revokes_device d) h v = spent-update_revoked i _ db.tokens v
  exec-IsSpent db (revokes_family g) h v = spent-update_revoked i _ db.tokens v
  exec-IsSpent db (revokes_user w) h v = spent-update_revoked i _ db.tokens v
  exec-IsSpent db revokes_all h v = spent-update_revoked i _ db.tokens v
  exec-IsSpent db (deletes_user w) h v = spent-keep i _ db.tokens v
  exec-IsSpent db (changes us) h v = v

mark_used-spends :
    (i : String) (rs : List Row)
    → exists (is_spendable i) (update (is_spendable i) set_used rs) ≡ false
mark_used-spends i [] = refl
mark_used-spends i (r ∷ rs) = ground (arith, mark_used-spends i rs)

affected-spent : (p : Row → Bool) (rs : List Row) → exists p rs ≡ false → affected p rs ≡ 0
affected-spent p [] h = refl
affected-spent p (r ∷ rs) h = ground (arith, affected-spent p rs)

mark_used-fails : (i : String) (db : Db) → IsSpent i db → (mark_used i db).1 ≡ false
unfolding mark_used
mark_used-fails i db h = rw (affected-spent (is_spendable i) db.tokens h)

-- After MarkUsed on an id, whatever it answered, no later MarkUsed on that id answers true,
-- whatever statements other requests interleave: of the requests that race for one refresh token
-- at most one is let through.
pub spent_once :
    (collate : String → String → Bool) (i : String) (db d : Db)
    → Reach collate (IsOther i) (mark_used i db).0 d
    → (mark_used i d).1 ≡ false
unfolding mark_used
spent_once collate i db d r = mark_used-fails i d (
    Reach-invariant collate (IsOther i) (IsSpent i) (exec-IsSpent collate i)
      (mark_used-spends i db.tokens) r)
