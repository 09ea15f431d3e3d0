-- ===== src/Session/Auth/Challenge.antt =====
-- internal/service/auth.go: CompleteMFALogin, which the second-factor endpoints call once they have
-- verified the factor of a 2fa_challenge token, and the failures they count.
pub mod Success
pub mod Once
use Prim.Native.String
use vault.Common.{
  ℕ, String, Bool, true, false, Option, none, some, List, [], ◌∷◌, ◌++◌, str_eq, if◌then◌else◌,
  Result, ok, err, ◌||◌,
}
use vault.Common.Steps.{continue}
use vault.Lockout.{record_failed_attempt}
use vault.Session.Store.{User, StoreError, get_user}
use vault.Session.World.{
  Error, token_invalid, account_banned, account_disabled, account_locked, mfa_unavailable,
  challenge_consumed, login_failure, attempt,
}
use vault.Session.Refresh.{reading, check_session_limit}
use vault.Session.Opening.{Caller, Opening, find_or_create_device, open_session}
use vault.Session.Auth.{
  AuthService, AuthState, LoginResult, A, ◌>>=◌, pure, change, refuse, on_world, audited, defer,
  on_lockout, clear_account_source, account_locked_now, new_country_notice,
}
use vault.Session.Auth.Login.{session_result, is_held}

pub record MfaCompletion : Type 0 where
  pub method : String
  pub user_verified : Bool
  pub prior : List String

unfoldable pub completion_methods : MfaCompletion → List String
completion_methods c = c.prior ++ c.method ∷ []

-- Five minutes.
abbrev pub challenge_used_ttl : ℕ
challenge_used_ttl = 300_000_000_000

abbrev pub challenge_key : String → String
challenge_key jti = String.◌++◌ "challenge_used:" jti

abbrev claimed :
    {C : Type 0}
    → AuthState C
    → Result vault.Cache.Error Bool
    → AuthState C × Result Error (Unit {0})
claimed a (ok true) = (a, ok tt)
claimed a (ok false) = (a, err challenge_consumed)
claimed a (err e) = (a, err mfa_unavailable)

-- What GetByID answered, an error standing with no account.
abbrev pub subject_of : Result StoreError (Option User) → Option User
subject_of (ok u) = u
subject_of (err e) = none

module _ {C : Type 0} (s : AuthService C) (at : Caller) where
  -- The challenge token's single use.
  unfoldable pub claim_challenge : String → A C (Unit {0})
  claim_challenge jti a = elim a.cache [
    | none ↦ (a, ok tt)
    | some c ↦
        if str_eq jti ""
        then (a, ok tt)
        else (let (d, r) =
              s.ops.set_if_not_exists at.now (challenge_key jti) "1" challenge_used_ttl c in
            claimed (record a { cache = some d }) r)
  ]

  -- The account, read again after the second factor.
  unfoldable pub judge_subject : Option User → A C User
  judge_subject none = refuse (λ a. a) token_invalid
  judge_subject (some u) =
      if u.deleted || u.must_reset_password || u.import_pending
      then refuse (λ a. a) token_invalid
      else if u.banned
      then refuse (λ a. a) account_banned
      else if u.disabled
      then refuse (λ a. a) account_disabled
      else if is_held at.now u
      then refuse (λ a. a) account_locked
      else pure u

  abbrev pub mfa_login : String → MfaCompletion → User → Opening
  mfa_login user completion u = record {
    user_id = user;
    roles = s.env.effective_roles u.roles;
    client_id = "";
    remember_me = false;
    methods = completion_methods completion;
    user_verified = completion.user_verified;
    mfa_completed = true;
  }

  -- What follows the second read of the account.
  unfoldable pub complete_subject :
      (user : String) → MfaCompletion → (device : String) → Option User → A C LoginResult
  complete_subject user completion device subject = do
    u ← judge_subject subject
    pair ←
        on_world
          (open_session s.env s.tokens s.max_sessions at (mfa_login user completion u) device)
    _ ← change (defer (new_country_notice user u.email at.ip))
    pure (session_result s.tokens at.now pair)

  -- What follows the claim.
  unfoldable pub complete_claimed : String → MfaCompletion → A C LoginResult
  complete_claimed user completion = do
    _ ← change (clear_account_source s at user)
    _ ← on_world (check_session_limit s.max_sessions s.strict at.now user)
    device ← on_world (find_or_create_device at user)
    found ← on_world (attempt (reading (get_user user)))
    complete_subject user completion device (subject_of found)

  unfoldable pub complete_mfa_login : (user jti : String) → MfaCompletion → A C LoginResult
  complete_mfa_login user jti completion = do
    _ ← claim_challenge jti
    complete_claimed user completion

  unfoldable pub mfa_verify_locked : String → AuthState C → Bool
  mfa_verify_locked user a = account_locked_now s at user a

  unfoldable pub record_mfa_failure : String → AuthState C → AuthState C
  record_mfa_failure user a =
      audited (login_failure user "mfa_failed" "")
        (on_lockout (record_failed_attempt s.format s.scan s.ops at.now user at.ip) a)
