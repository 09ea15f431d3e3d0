-- ===== src/Session/Auth.antt =====
-- internal/service/auth.go: what Login and the second-factor endpoints share. The service keeps a
-- cache and the latch of its lockout beside the database; work that the source hands to
-- deferwork.Go is queued. A request's clock reads are one instant. VerifyPassword is the request's
-- `verify`, with its four outcomes, ComputeFingerprint its `fingerprint`; SHA256Hex over the
-- peppered address is `identity_key`, ToLower after TrimSpace is `normalize`. The sleep of
-- throttleLogin changes nothing and is left out, as is the branch of a planted account (no
-- honeypot is set).
pub mod Login
pub mod Challenge
pub mod Otp
mod Tests
use Prim.Native.String
use vault.Common.{
  ℕ, ◌-◌, ◌%◌, String, Bool, true, false, ◌&&◌, not, Option, none, some, List, [], ◌∷◌, ◌++◌,
  str_eq, leb, ltb, if◌then◌else◌, Result, ok, err,
}
use vault.Common.Steps.{continue}
use vault.Lockout.{
  CacheOps, Lockout, is_account_locked, record_failed_attempt, clear_lockout, lockout_duration,
}
use vault.Mfa.{MfaService}
use vault.Session.Store.{User, Db, StoreError, get_user}
use vault.Session.Store.Accounts.{get_rate_limit, increment_rate_limit}
use vault.Session.Tokens.{TokenService}
use vault.Session.Opening.{Caller}
use vault.Session.World.{World, Error, M, AuditEvent, attempt}
use vault.Session.Refresh.{Env, reading, writing}

-- What VerifyPassword returned: the two Booleans, an error, or ErrArgon2Overloaded.
pub data Verification : Type 0 where
  verified : Verification
  wrong : Verification
  unreadable : Verification
  argon2_overloaded : Verification

-- A call of deferwork.Go, by what it is to do.
pub data Deferred : Type 0 where
  import_claim_link : (user email : String) → Deferred
  forced_reset_link : (user email : String) → Deferred
  account_locked_mail : (email ip : String) → Deferred
  email_otp_mail : (user email : String) → Deferred
  new_country_notice : (user email ip : String) → Deferred
  reset_mail : (email token : String) → Deferred
  verification_mail : (email token : String) → Deferred

pub record AuthService (C : Type 0) : Type 0 where
  pub format : ℕ → String
  pub scan : String → ℕ
  pub ops : CacheOps C
  pub env : Env
  pub tokens : TokenService
  pub max_sessions : ℕ
  pub strict : Bool
  pub mfa : Option MfaService
  pub has_mailer : Bool
  pub has_rate_limits : Bool
  pub identity_key : String → String
  pub normalize : String → String
  pub dummy_hash : String

-- `readable` says whether the lockout's fallback read of the account answers.
pub record AuthState (C : Type 0) : Type 0 where
  pub world : World
  pub cache : Option C
  pub refused_at : ℕ
  pub readable : Bool
  pub deferred : List Deferred

pub record LoginResult : Type 0 where
  pub access_token : String
  pub token_type : String
  pub expires_in : ℕ
  pub refresh_token : String
  pub cookie_max_age : ℕ
  pub requires_2fa : Bool
  pub challenge_token : String
  pub available_methods : List String

abbrev pub ip_lockout_threshold : ℕ
ip_lockout_threshold = 20

abbrev pub A : Type 0 → Type 0 → Type 0
A C X = AuthState C → AuthState C × Result Error X

infixl 5 ◌>>=◌
abbrev pub ◌>>=◌ : {C X Y : Type 0} → A C X → (X → A C Y) → A C Y
◌>>=◌ m f a = continue (m a) f

abbrev pub pure : {C X : Type 0} → X → A C X
pure x a = (a, ok x)

-- A change that cannot fail, and an error after one.
abbrev pub change : {C : Type 0} → (AuthState C → AuthState C) → A C (Unit {0})
change f a = (f a, ok tt)

abbrev pub refuse : {C X : Type 0} → (AuthState C → AuthState C) → Error → A C X
refuse f e a = (f a, err e)

abbrev pub on_world : {C X : Type 0} → M X → A C X
on_world m a = let (w, r) = m a.world in (record a { world = w }, r)

-- A statement whose answer is dropped.
abbrev pub statement : {C : Type 0} → (Db → Db) → AuthState C → AuthState C
statement f a = record a { world = (attempt (writing f) a.world).0 }

abbrev pub audited : {C : Type 0} → AuditEvent → AuthState C → AuthState C
audited e a = record a { world = record a.world { audit = a.world.audit ++ e ∷ [] } }

abbrev pub defer : {C : Type 0} → Deferred → AuthState C → AuthState C
defer d a = record a { deferred = a.deferred ++ d ∷ [] }

abbrev failed_count : Option User → Option ℕ
failed_count none = none
failed_count (some u) = some u.failed_login_count

-- The durable counts, or no answer.
unfoldable pub stored_counts : Bool → Db → String → Option ℕ
stored_counts true db user = failed_count (get_user user db)
stored_counts false db user = none

-- The part of the service that the lockout keeps.
abbrev pub lockout_of : {C : Type 0} → AuthState C → Lockout C
lockout_of a = record {
  cache = a.cache;
  refused_at = a.refused_at;
  stored = stored_counts a.readable a.world.db;
}

abbrev pub on_lockout : {C : Type 0} → (Lockout C → Lockout C) → AuthState C → AuthState C
on_lockout f a = let s = f (lockout_of a) in record a { cache = s.cache; refused_at = s.refused_at }

abbrev pub ip_key : String → String
ip_key ip = String.◌++◌ "lockout_ip:" ip

-- `time.Now().Truncate(lockoutDuration)`
abbrev pub window_of : ℕ → ℕ
window_of now = now - now % lockout_duration

abbrev counted : Result StoreError ℕ → Bool
counted (ok n) = leb ip_lockout_threshold n
counted (err e) = false

module _ {C : Type 0} (s : AuthService C) (at : Caller) where
  abbrev locked_by_cache : C → Bool
  locked_by_cache c = elim (s.ops.get at.now (ip_key at.ip) c) [
    | err e ↦ false
    | ok value ↦ not (str_eq value "") && leb ip_lockout_threshold (s.scan value)
  ]

  unfoldable pub is_ip_locked : A C Bool
  is_ip_locked a = if str_eq at.ip "" then (a, ok false) else elim a.cache [
    | some c ↦ (a, ok (locked_by_cache c))
    | none ↦
        if s.has_rate_limits
        then (on_world (attempt (reading (get_rate_limit (ip_key at.ip) (window_of at.now))))
              >>= λ r. pure (counted r))
            a
        else (a, ok false)
  ]

  -- A best-effort write of the cache, which may be nil.
  abbrev pub on_cache : (C → C) → AuthState C → AuthState C
  on_cache f a = elim a.cache [ none ↦ a | some c ↦ record a { cache = some (f c) } ]

  unfoldable pub record_failed_ip : AuthState C → AuthState C
  record_failed_ip a = if str_eq at.ip "" then a else elim a.cache [
    | some c ↦ record a {
      cache = some (s.ops.increment at.now (ip_key at.ip) lockout_duration c).0;
    }
    | none ↦
        if s.has_rate_limits
        then statement (increment_rate_limit (ip_key at.ip) (window_of at.now)) a
        else a
  ]

  unfoldable pub record_identity_failure : String → AuthState C → AuthState C
  record_identity_failure email =
      on_cache (λ c. (s.ops.increment at.now (s.identity_key email) lockout_duration c).0)

  unfoldable pub clear_identity_failures : String → AuthState C → AuthState C
  clear_identity_failures email = on_cache (λ c. (s.ops.delete at.now (s.identity_key email) c).0)

  abbrev pub account_locked_now : String → AuthState C → Bool
  account_locked_now user a =
      is_account_locked s.format s.scan s.ops at.now user at.ip (lockout_of a)

  abbrev pub clear_account_source : String → AuthState C → AuthState C
  clear_account_source user = on_lockout (clear_lockout s.format s.scan s.ops at.now user at.ip)

  abbrev lock_notify_key : String → String
  lock_notify_key user = String.◌++◌ "lock_notified:" user

  abbrev sent : Result vault.Cache.Error Bool → Bool
  sent (ok b) = b
  sent (err e) = false

  -- Once per lockout window.
  unfoldable pub notify_locked : User → AuthState C → AuthState C
  notify_locked u a = elim a.cache [
    | none ↦ a
    | some c ↦
        if account_locked_now u.user_id a && s.has_mailer
        then (let (d, r) =
              s.ops.set_if_not_exists at.now (lock_notify_key u.user_id) "1" lockout_duration c in
            let b = record a { cache = some d } in
            if sent r then defer (account_locked_mail u.email at.ip) b else b)
        else a
  ]
