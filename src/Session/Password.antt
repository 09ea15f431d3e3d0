-- ===== src/Session/Password.antt =====
-- internal/handler/password.go, VerifyEmail of internal/handler/auth.go, and the links that
-- internal/service/auth.go mails: how a password is reset or changed and an address verified. A
-- handler answers ok, or its error code. SHA256Hex, VerifyPassword, HashPassword, IsBreached, the
-- count of runes and random draws are parameters, and the body of a request is decoded. A mail is
-- queued with the deferred work. A handler without a cache panics where it reads it; here that is an
-- error.
pub mod Requests
pub mod Outcome
pub mod Resets
pub mod Links
mod Tests
use Prim.Native.String
use vault.Common.{
  ℕ, ◌*◌, String, Bool, true, false, ◌&&◌, ◌||◌, not, Option, none, some, List, [], ◌∷◌, str_eq,
  ltb, exists, if◌then◌else◌, Result, ok, err,
}
use vault.Lockout.{CacheOps, clear_account_lockout}
use vault.Session.Store.{User, PastPassword, Db, StoreError, get_user, revoke_all_for_user}
use vault.Session.Store.Accounts.{get_by_email, reset_failed_login}
use vault.Session.Store.Passwords
use vault.Session.Store.Passwords.{
  get_recent_by_user, create_past, clear_import_pending, clear_must_reset_password,
}
use vault.Session.World.{
  Error, attempt, store_failed, issue_failed, overloaded, invalid_request, password_too_short,
  invalid_or_expired_token, password_breached, password_recently_used, unauthorized,
  invalid_current_password, import_claim_failed, forced_reset_clear_failed, password_reset,
  password_change, email_verified,
}
use vault.Session.Refresh.{reading, writing}
use vault.Session.Auth.{
  Verification, verified, wrong, unreadable, argon2_overloaded, reset_mail, verification_mail,
  AuthState, A, ◌>>=◌, pure, change, refuse, on_world, statement, audited, defer,
}

pub record PasswordHandler (C : Type 0) : Type 0 where
  pub format : ℕ → String
  pub scan : String → ℕ
  pub ops : CacheOps C
  pub sha256 : String → String
  pub min_length : ℕ
  pub hibp_enabled : Bool
  pub is_breached : String → Bool
  pub rune_count : String → ℕ
  pub normalize : String → String
  pub has_mailer : Bool
  -- Whether the mailer takes a verification mail for an address.
  pub deliver : String → Bool

-- What HashPassword returned.
pub data Hashing : Type 0 where
  hashed : String → Hashing
  hash_overloaded : Hashing
  hash_failed : Hashing

-- `history_id` is the draw of RandomUUID.
pub record NewPassword : Type 0 where
  pub now : ℕ
  pub password : String
  pub verify : String → String → Verification
  pub hashing : Hashing
  pub history_id : Option String

abbrev pub reset_key : String → String
reset_key hash = String.◌++◌ "reset:" hash

abbrev pub reset_user_key : String → String
reset_user_key user = String.◌++◌ "pwreset_user:" user

abbrev pub confirm_key : String → String
confirm_key user = String.◌++◌ "confirm:" user

abbrev pub verify_key : String → String
verify_key hash = String.◌++◌ "verify:" hash

abbrev pub one_hour : ℕ
one_hour = 3_600_000_000_000

abbrev pub one_day : ℕ
one_day = 24 * one_hour

abbrev matches : Verification → Bool
matches verified = true
matches wrong = false
matches unreadable = false
matches argon2_overloaded = false

-- A list that could not be read is empty.
abbrev pub entries : Result StoreError (List PastPassword) → List PastPassword
entries (ok ps) = ps
entries (err e) = []

abbrev pub was_used : NewPassword → List PastPassword → Bool
was_used n = exists (λ p. matches (n.verify n.password p.password_hash))

abbrev pub is_refused : User → Bool
is_refused u = u.deleted || u.banned || u.disabled

-- A read that failed, an account that is gone, and one that is refused are answered alike.
abbrev pub account_read : Result StoreError (Option User) → Option User
account_read (ok u) = u
account_read (err e) = none

module _ {C : Type 0} where
  abbrev pub judge_hash : Hashing → A C String
  judge_hash (hashed h) a = (a, ok h)
  judge_hash hash_overloaded a = (a, err overloaded)
  judge_hash hash_failed a = (a, err store_failed)

  -- `if err != nil { return err }`
  abbrev pub must : {X : Type 0} → Error → (Db → Db × Result StoreError X) → A C X
  must e op = on_world (attempt op) >>= λ r. elim r [ ok x ↦ pure x | err x ↦ λ a. (a, err e) ]

  abbrev pub remember : NewPassword → String → String → AuthState C → AuthState C
  remember n user hash a = elim n.history_id [
    | none ↦ a
    | some i ↦
        statement
          (create_past
            (record { id = i; user_id = user; password_hash = hash; created_at = n.now }))
          a
  ]

module _ {C : Type 0} (h : PasswordHandler C) where
  abbrev drop_linked : ℕ → Result vault.Cache.Error String → C → C
  drop_linked now (err e) c = c
  drop_linked now (ok hash) c =
      if not (str_eq hash "") then (h.ops.delete now (reset_key hash) c).0 else c

  -- The link that the reverse map points at is retired, with the map's entry.
  abbrev pub retire_link : ℕ → String → C → C
  retire_link now user c =
      let (d, r) = h.ops.get_and_delete now (reset_user_key user) c in drop_linked now r d

  abbrev pub invalidate : ℕ → String → AuthState C → AuthState C
  invalidate now user a = elim a.cache [
    | none ↦ a
    | some c ↦ record a {
      cache = some (h.ops.delete now (confirm_key user) (retire_link now user c)).0;
    }
  ]

  -- The write of the hash, its history, and the end of the sessions and of the links.
  unfoldable pub store_password : NewPassword → String → String → A C (Unit {0})
  store_password n user hash = do
    _ ← must store_failed (Passwords.update_password user hash)
    _ ← change (remember n user hash)
    _ ← must store_failed (writing (revoke_all_for_user user))
    change (invalidate n.now user)

  unfoldable pub judge_past : NewPassword → String → List PastPassword → A C (Unit {0})
  unfolding store_password
  judge_past n user past =
      if was_used n past
      then refuse (λ a. a) password_recently_used
      else judge_hash n.hashing >>= store_password n user

  unfoldable pub update_password : NewPassword → String → A C (Unit {0})
  unfolding judge_past
  update_password n user =
      if h.hibp_enabled && h.is_breached n.password
      then refuse (λ a. a) password_breached
      else on_world (attempt (reading (get_recent_by_user user 5))) >>= λ r.
          judge_past n user (entries r)

  abbrev pub clear_lockouts : ℕ → String → AuthState C → AuthState C
  clear_lockouts now user a =
      statement (reset_failed_login user)
        (record a { cache = (clear_account_lockout h.format h.scan h.ops now user a.cache).0 })

  abbrev pub claim : User → A C (Unit {0})
  claim u =
      if u.import_pending
      then must import_claim_failed (writing (clear_import_pending u.user_id))
      else pure tt

  abbrev pub lift : User → A C (Unit {0})
  lift u =
      if u.must_reset_password
      then (do
        _ ← must forced_reset_clear_failed (writing (clear_must_reset_password u.user_id))
        change (audited (password_reset u.user_id "forced_reset_completed")))
      else pure tt

  -- From the account that was read to the answer.
  unfoldable pub confirmed : NewPassword → User → A C (Unit {0})
  unfolding update_password
  confirmed n u = do
    _ ← update_password n u.user_id
    _ ← change (clear_lockouts n.now u.user_id)
    _ ← claim u
    _ ← lift u
    change (
        audited
          (password_reset u.user_id (if u.import_pending then "import_claimed" else "confirmed")))

  abbrev pub judge_target : NewPassword → Option User → A C (Unit {0})
  judge_target n none = refuse (λ a. a) invalid_or_expired_token
  judge_target n (some u) =
      if is_refused u then refuse (λ a. a) invalid_or_expired_token else confirmed n u

  abbrev pub redeemed : NewPassword → Result vault.Cache.Error String → A C (Unit {0})
  redeemed n (err e) = refuse (λ a. a) invalid_or_expired_token
  redeemed n (ok user) =
      if str_eq user ""
      then refuse (λ a. a) invalid_or_expired_token
      else (do r ← on_world (attempt (reading (get_user user))); judge_target n (account_read r))

  -- Get and delete of a one-time key.
  abbrev redeem : ℕ → String → A C (Result vault.Cache.Error String)
  redeem now key a = elim a.cache [
    | none ↦ (a, err store_failed)
    | some c ↦ let (d, r) = h.ops.get_and_delete now key c in (record a { cache = some d }, ok r)
  ]

  unfoldable pub reset_confirm : String → NewPassword → A C (Unit {0})
  unfolding confirmed
  reset_confirm token n =
      if str_eq token "" || str_eq n.password ""
      then refuse (λ a. a) invalid_request
      else if ltb (h.rune_count n.password) h.min_length
      then refuse (λ a. a) password_too_short
      else redeem n.now (reset_key (h.sha256 token)) >>= redeemed n
