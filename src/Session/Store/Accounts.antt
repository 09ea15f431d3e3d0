-- ===== src/Session/Store/Accounts.antt =====
-- internal/repository/postgres/user.go, device.go and rate_limit.go: the statements on the other
-- tables that a login reads or writes. auth.devices has a unique index on the user and the
-- fingerprint, auth.rate_limits on the key and the window.
use vault.Common.{
  ℕ, suc, String, Bool, ◌&&◌, Option, none, some, List, [], ◌∷◌, str_eq, ◌==◌, if◌then◌else◌,
  Result, ok, err,
}
use vault.Session.Store.{User, Device, Window, Db, StoreError, unique_violation}

abbrev user_by_email : String → List User → Option User
user_by_email e [] = none
user_by_email e (u ∷ us) = if str_eq u.email e then some u else user_by_email e us

unfoldable pub get_by_email : String → Db → Option User
get_by_email e db = user_by_email e db.users

abbrev pub change_user : String → (User → User) → List User → List User
change_user i f [] = []
change_user i f (u ∷ us) = (if str_eq u.user_id i then f u else u) ∷ change_user i f us

unfoldable pub increment_failed_login : String → Db → Db
increment_failed_login i db = record db {
  users = change_user i (λ u. record u { failed_login_count = suc u.failed_login_count }) db.users;
}

unfoldable pub reset_failed_login : String → Db → Db
reset_failed_login i db = record db {
  users = change_user i (λ u. record u { failed_login_count = 0 }) db.users;
}

unfoldable pub set_last_login : ℕ → String → Db → Db
set_last_login now i db = record db {
  users = change_user i (λ u. record u { last_login_at = now }) db.users;
}

abbrev is_device : String → String → Device → Bool
is_device user fingerprint d = str_eq d.user_id user && str_eq d.fingerprint_hash fingerprint

abbrev device_in : String → String → List Device → Option Device
device_in user fingerprint [] = none
device_in user fingerprint (d ∷ ds) =
    if is_device user fingerprint d then some d else device_in user fingerprint ds

unfoldable pub get_by_fingerprint : String → String → Db → Option Device
get_by_fingerprint user fingerprint db = device_in user fingerprint db.devices

unfoldable pub create_device : Device → Db → Db × Result StoreError (Unit {0})
unfolding get_by_fingerprint
create_device d db = elim (get_by_fingerprint d.user_id d.fingerprint_hash db) [
  | none ↦ (record db { devices = d ∷ db.devices }, ok tt)
  | some other ↦ (db, err unique_violation)
]

abbrev see_device : ℕ → String → String → List Device → List Device
see_device now i ip [] = []
see_device now i ip (d ∷ ds) =
    (if str_eq d.id i then record d { last_seen_at = now; ip = ip } else d) ∷ see_device now i ip ds

unfoldable pub update_last_seen : ℕ → String → String → Db → Db
update_last_seen now i ip db = record db { devices = see_device now i ip db.devices }

abbrev is_window : String → ℕ → Window → Bool
is_window key window w = str_eq w.key key && w.window_start == window

abbrev count_in : String → ℕ → List Window → ℕ
count_in key window [] = 0
count_in key window (w ∷ ws) = if is_window key window w then w.count else count_in key window ws

unfoldable pub get_rate_limit : String → ℕ → Db → ℕ
get_rate_limit key window db = count_in key window db.rate_limits

abbrev bump : String → ℕ → List Window → List Window
bump key window [] = record { key = key; window_start = window; count = 1 } ∷ []
bump key window (w ∷ ws) =
    if is_window key window w then record w { count = suc w.count } ∷ ws else w ∷ bump key window ws

unfoldable pub increment_rate_limit : String → ℕ → Db → Db
increment_rate_limit key window db = record db { rate_limits = bump key window db.rate_limits }
