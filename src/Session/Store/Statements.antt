-- ===== src/Session/Store/Statements.antt =====
-- The statements that other requests, on this replica or another, may run in between: one step
-- each, in any order. The two sweeps of expired rows (DeleteExpired, DeleteExpiredUnused) are not among
-- them.
use vault.Common.{ℕ, String, Bool, List}
use vault.Session.Store.{
  Token, User, Db, create, create_within_cap, mark_used, revoke_by_id, revoke_by_device_id,
  revoke_family, revoke_all_for_user, delete_all_for_user, revoke_all,
}

-- `changes` replaces the users table, whatever wrote to it.
pub data Statement : Type 0 where
  creates : Token → Statement
  creates_within_cap : (now : ℕ) (t : Token) (cap : ℕ) → Statement
  marks_used : (id : String) → Statement
  revokes_id : (id : String) → Statement
  revokes_device : (device : String) → Statement
  revokes_family : (family : String) → Statement
  revokes_user : (user : String) → Statement
  revokes_all : Statement
  deletes_user : (user : String) → Statement
  changes : List User → Statement

module _ (collate : String → String → Bool) where
  unfoldable pub exec : Db → Statement → Db
  exec db (creates t) = (create collate t db).0
  exec db (creates_within_cap now t cap) = (create_within_cap collate now t cap db).0
  exec db (marks_used i) = (mark_used i db).0
  exec db (revokes_id i) = revoke_by_id i db
  exec db (revokes_device d) = revoke_by_device_id d db
  exec db (revokes_family f) = revoke_family f db
  exec db (revokes_user u) = revoke_all_for_user u db
  exec db revokes_all = revoke_all db
  exec db (deletes_user u) = delete_all_for_user u db
  exec db (changes us) = record db { users = us }

  -- The databases that some sequence of statements reaches, each allowed where it runs.
  pub data Reach (P : Db → Statement → Type 0) (db : Db) : Db → Type 0 where
    here : Reach P db db
    next : {d : Db} → Reach P db d → (s : Statement) → P d s → Reach P db (exec d s)

pub Reach-invariant :
    (collate : String → String → Bool) (P : Db → Statement → Type 0) (I : Db → Type 0)
    → ((d : Db) (s : Statement) → P d s → I d → I (exec collate d s))
    → {db d : Db} → I db
    → Reach collate P db d
    → I d
Reach-invariant collate P I step i here = i
Reach-invariant collate P I step i (next {d = d} r s p) =
    step d s p (Reach-invariant collate P I step i r)
