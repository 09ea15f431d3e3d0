-- ===== src/Session/Password/Outcome.antt =====
-- What a reset that is answered ok has done to the account and its sessions (password.go).
use vault.Common.{
  String, ◌≡◌, ◌⊎◌, inl, inr, refl, arith, Bool, true, false, ◌&&◌, not, some, List, [], ◌∷◌,
  str_eq, exists, if◌then◌else◌, Result, ok, Bool-cases, ap, ◌∙◌,
}
use vault.Session.Store.{User, Row, Db, StoreError, find_user, update, set_revoked}
use vault.Session.Store.Accounts.{change_user, reset_failed_login}
use vault.Session.Store.Passwords.{set_password, clear_import_pending, clear_must_reset_password}
use vault.Session.World.{Error, attempt}
use vault.Session.Auth.{AuthState, statement}
use vault.Session.Password.{must}

-- A session of the user that could still be used.
abbrev pub is_live_of : String → Row → Bool
is_live_of i r = str_eq r.user_id i && not r.revoked

abbrev pub HasNoSession : String → Db → Type 0
HasNoSession i db = exists (is_live_of i) db.tokens ≡ false

pub revoked-none :
    (i : String) (rs : List Row)
    → exists (is_live_of i) (update (λ r. str_eq r.user_id i && not r.revoked) set_revoked rs)
      ≡ false
revoked-none i [] = refl
revoked-none i (r ∷ rs) = ground (arith, revoked-none i rs)

-- A change of accounts that keeps their names reaches the account that it names.
find_user-change_user :
    (i j : String) (f : User → User) (us : List User) (u : User)
    → ((v : User) → (f v).user_id ≡ v.user_id)
    → find_user i us ≡ some u
    → find_user i (change_user j f us) ≡ some (if str_eq u.user_id j then f u else u)
find_user-change_user i j f [] u keeps h = absurd (ground arith)
find_user-change_user i j f (x ∷ xs) u keeps h = elim (Bool-cases (str_eq x.user_id i)) [
  | inl here ↦ ground (arith, here, keeps x)
  | inr other ↦ ground (arith, other, keeps x, find_user-change_user i j f xs u keeps)
]

pub find_user-set_password :
    (i hash : String) (us : List User) (u : User)
    → find_user i us ≡ some u
    → u.deleted ≡ false
    → find_user i (set_password i hash us) ≡ some (record u { password_hash = hash })
find_user-set_password i hash [] u h live = absurd (ground arith)
find_user-set_password i hash (x ∷ xs) u h live = elim (Bool-cases (str_eq x.user_id i)) [
  | inl here ↦ ground (arith, here)
  | inr other ↦ ground (arith, other, find_user-set_password i hash xs u)
]

module _ {C : Type 0} where
  pub must-ok :
      {X : Type 0} (e : Error) (op : Db → Db × Result StoreError X) (a b : AuthState C) (x : X)
      → must e op a ≡ (b, ok x)
      → (b.world.db ≡ (op a.world.db).0) × ((op a.world.db).1 ≡ ok x) × (b.cache ≡ a.cache)
  unfolding attempt
  must-ok e op a b x h = (ground arith, ground arith, ground arith)

  pub statement-cases :
      (f : Db → Db) (a : AuthState C)
      → ((statement f a).world.db ≡ a.world.db) ⊎ ((statement f a).world.db ≡ f a.world.db)
  unfolding attempt
  statement-cases f a = ground arith

pub find_user-named :
    (i : String) (us : List User) (u : User) → find_user i us ≡ some u → str_eq u.user_id i ≡ true
find_user-named i [] u h = absurd (ground arith)
find_user-named i (x ∷ xs) u h = ground (arith, find_user-named i xs u)

-- The account's stored password, and the two flags that a reset lifts.
pub record HoldsPassword (i hash : String) (pending forced : Bool) (db : Db) : Type 0 where
  pub account : User
  pub found : find_user i db.users ≡ some account
  pub stored : account.password_hash ≡ hash
  pub claimed : account.import_pending ≡ pending
  pub lifted : account.must_reset_password ≡ forced

module _ (i hash : String) (p q : Bool) (db : Db) (s : HoldsPassword i hash p q db) where
  named : str_eq s.account.user_id i ≡ true
  named = find_user-named i db.users s.account s.found

  pub reset_failed_login-HoldsPassword : HoldsPassword i hash p q (reset_failed_login i db)
  unfolding reset_failed_login
  reset_failed_login-HoldsPassword =
      let here = named in
      record {
        account = record s.account { failed_login_count = 0 };
        found =
            find_user-change_user i i (λ u. record u { failed_login_count = 0 }) db.users s.account
              (λ v. refl) s.found
            ∙ ap (λ b. some (if b then record s.account { failed_login_count = 0 } else s.account))
                here;
        stored = s.stored;
        claimed = s.claimed;
        lifted = s.lifted;
      }

  pub clear_import_pending-HoldsPassword : HoldsPassword i hash false q (clear_import_pending i db)
  unfolding clear_import_pending
  clear_import_pending-HoldsPassword =
      let here = named in
      record {
        account = record s.account { import_pending = false };
        found =
            find_user-change_user i i (λ u. record u { import_pending = false }) db.users s.account
              (λ v. refl) s.found
            ∙ ap (λ b. some (if b then record s.account { import_pending = false } else s.account))
                here;
        stored = s.stored;
        claimed = refl;
        lifted = s.lifted;
      }

  pub clear_must_reset_password-HoldsPassword :
      HoldsPassword i hash p false (clear_must_reset_password i db)
  unfolding clear_must_reset_password
  clear_must_reset_password-HoldsPassword =
      let here = named in
      record {
        account = record s.account { must_reset_password = false };
        found =
            find_user-change_user i i (λ u. record u { must_reset_password = false }) db.users
              s.account (λ v. refl) s.found
            ∙ ap
                (λ b.
                  some (if b then record s.account { must_reset_password = false } else s.account))
                here;
        stored = s.stored;
        claimed = s.claimed;
        lifted = refl;
      }
