-- ===== src/Session/Store/Passwords.antt =====
-- internal/repository/postgres/user.go and password_history.go: the statements that write a password,
-- a verified address or an account's flags. Rows of one instant are in the order of the table.
use Prim.Native.Nat.{compare, Ordering}
use vault.Common.{
  ℕ, zero, suc, String, Bool, true, false, ◌&&◌, not, none, some, List, [], ◌∷◌, str_eq,
  if◌then◌else◌, keep, exists, Result, ok, err,
}
use vault.Common.Sort.{sort_func}
use vault.Session.Store.{User, PastPassword, Db, StoreError, user_not_updatable}
use vault.Session.Store.Accounts.{change_user}

abbrev pub is_updatable : String → User → Bool
is_updatable i u = str_eq u.user_id i && not u.deleted

abbrev pub set_password : String → String → List User → List User
set_password i hash [] = []
set_password i hash (u ∷ us) =
    (if is_updatable i u then record u { password_hash = hash } else u) ∷ set_password i hash us

unfoldable pub update_password : String → String → Db → Db × Result StoreError (Unit {0})
update_password i hash db = (
  record db { users = set_password i hash db.users },
  if exists (is_updatable i) db.users then ok tt else err user_not_updatable,
)

unfoldable pub clear_import_pending : String → Db → Db
clear_import_pending i db = record db {
  users = change_user i (λ u. record u { import_pending = false }) db.users;
}

unfoldable pub set_must_reset_password : String → Bool → Db → Db
set_must_reset_password i required db = record db {
  users = change_user i (λ u. record u { must_reset_password = required }) db.users;
}

unfoldable pub clear_must_reset_password : String → Db → Db
clear_must_reset_password i db = record db {
  users = change_user i (λ u. record u { must_reset_password = false }) db.users;
}

unfoldable pub set_banned : String → Bool → Db → Db
set_banned i banned db = record db {
  users = change_user i (λ u. record u { banned = banned }) db.users;
}

unfoldable pub lock_until : String → ℕ → Db → Db
lock_until i until db = record db {
  users = change_user i (λ u. record u { locked_until = some until }) db.users;
}

unfoldable pub unlock : String → Db → Db
unlock i db = record db {
  users = change_user i (λ u. record u { locked_until = none; failed_login_count = 0 }) db.users;
}

unfoldable pub verify_email : String → Db → Db
verify_email i db = record db {
  users = change_user i (λ u. record u { email_verified = true }) db.users;
}

unfoldable pub create_past : PastPassword → Db → Db
create_past p db = record db { history = p ∷ db.history }

abbrev newest_first : PastPassword → PastPassword → Ordering
newest_first a b = compare b.created_at a.created_at

abbrev pub take {ℓ} : {A : Type ℓ} → ℕ → List A → List A
take zero xs = []
take (suc n) [] = []
take (suc n) (x ∷ xs) = x ∷ take n xs

unfoldable pub get_recent_by_user : String → ℕ → Db → List PastPassword
get_recent_by_user u limit db =
    take limit (sort_func newest_first (keep (λ p. str_eq p.user_id u) db.history))

unfoldable pub delete_history : String → Db → Db
delete_history u db = record db { history = keep (λ p. not (str_eq p.user_id u)) db.history }
