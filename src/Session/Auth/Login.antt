-- ===== src/Session/Auth/Login.antt =====
-- internal/service/auth.go: Login, from the submitted address to the session or the challenge. Each
-- refusal before the password is one of `mask`: the dummy hash is verified, and only then are
-- the side effects had.
pub mod Steps
pub mod Success
pub mod Refusals
use vault.Common.{
  ℕ, ◌-◌, ◌/◌, String, Bool, true, false, ◌&&◌, not, Option, none, some, List, [], ◌∷◌, ltb,
  if◌then◌else◌, Result, ok, err,
}
use vault.Common.Steps.{continue}
use vault.Lockout.{record_failed_attempt}
use vault.Mfa.{MfaService, MfaStatus, get_status, has_methods, method_password, method_email_otp}
use vault.Session.Store.{User}
use vault.Session.Store.Accounts.{get_by_email, increment_failed_login, reset_failed_login}
use vault.Session.Tokens.{TokenService, TokenPair, IssueError, issue_challenge_token}
use vault.Session.World.{
  Error, login_failure, login_success_mfa_required, account_banned, account_disabled,
  account_locked, issue_failed, overloaded, invalid_credentials, password_reset_required,
  mfa_unavailable, attempt,
}
use vault.Session.Refresh.{reading, call, check_session_limit}
use vault.Session.Tokens.{second}
use vault.Session.Opening.{Caller, Opening, find_or_create_device, open_session}
use vault.Session.Auth.{
  Verification, verified, wrong, unreadable, argon2_overloaded, Deferred, import_claim_link,
  forced_reset_link, email_otp_mail, new_country_notice, AuthService, AuthState, LoginResult, A,
  ◌>>=◌, pure, change, refuse, on_world, statement, audited, defer, on_lockout, is_ip_locked,
  record_failed_ip, record_identity_failure, clear_identity_failures, account_locked_now,
  clear_account_source, notify_locked,
}

pub record LoginInput : Type 0 where
  pub at : Caller
  pub email : String
  pub password : String
  pub remember_me : Bool
  pub client_id : String
  pub disclose_status : Bool
  -- VerifyPassword on a password and a stored hash.
  pub verify : String → String → Verification

abbrev pub session_result : TokenService → ℕ → TokenPair → LoginResult
session_result tokens now pair = record {
  access_token = pair.access_token;
  token_type = "Bearer";
  expires_in = tokens.access_token_ttl / second;
  refresh_token = pair.refresh_token;
  cookie_max_age = (pair.refresh_exp_at - now) / second;
  requires_2fa = false;
  challenge_token = "";
  available_methods = [];
}

abbrev pub challenge_result : String → List String → LoginResult
challenge_result challenge methods = record {
  access_token = "";
  token_type = "";
  expires_in = 0;
  refresh_token = "";
  cookie_max_age = 0;
  requires_2fa = true;
  challenge_token = challenge;
  available_methods = methods;
}

-- `LockedUntil != nil && now.Before(*LockedUntil)`
abbrev pub is_held : ℕ → User → Bool
is_held now u = elim u.locked_until [ none ↦ false | some t ↦ ltb now t ]

-- The side effects and the error that follow a verification, or its overload.
abbrev pub after : {C X : Type 0} → Verification → (AuthState C → AuthState C) → Error → A C X
after argon2_overloaded f e = refuse (λ a. a) overloaded
after verified f e = refuse f e
after wrong f e = refuse f e
after unreadable f e = refuse f e

abbrev pub issued_challenge : {C : Type 0} → Result IssueError String → A C String
issued_challenge (ok t) = pure t
issued_challenge (err e) = refuse (λ a. a) issue_failed

-- `errors.Is(err, ErrArgon2Overloaded)`
abbrev pub is_overload : Error → Bool
is_overload overloaded = true
is_overload e = false

module _ {C : Type 0} (s : AuthService C) (inp : LoginInput) where
  abbrev pub address : String
  address = s.normalize inp.email

  abbrev pub mask : {X : Type 0} → (AuthState C → AuthState C) → Error → A C X
  mask f e = after (inp.verify inp.password s.dummy_hash) f e

  abbrev failed_ip : AuthState C → AuthState C
  failed_ip = record_failed_ip s inp.at

  unfoldable pub record_login_failure : User → String → AuthState C → AuthState C
  record_login_failure u reason a =
      let b = statement (increment_failed_login u.user_id) a in
      let c =
        on_lockout (record_failed_attempt s.format s.scan s.ops inp.at.now u.user_id inp.at.ip) b in
      notify_locked s inp.at u (audited (login_failure u.user_id reason "") (failed_ip c))

  abbrev pub unknown_address : AuthState C → AuthState C
  unknown_address a = audited (login_failure "" "user_not_found" "") (failed_ip a)

  abbrev pub locked_account : User → String → AuthState C → AuthState C
  locked_account u source a =
      audited (login_failure u.user_id "account_locked" source) (failed_ip a)

  -- sendImportClaimLink and sendForcedResetLink, which need the cache and the mailer.
  abbrev pub send_link : Deferred → AuthState C → AuthState C
  send_link d a = elim a.cache [ none ↦ a | some c ↦ if s.has_mailer then defer d a else a ]

  abbrev pub unclaimed_import : User → AuthState C → AuthState C
  unclaimed_import u a =
      record_login_failure u "import_claim_required"
        (send_link (import_claim_link u.user_id u.email) a)

  abbrev pub forced_reset : User → AuthState C → AuthState C
  forced_reset u a =
      record_login_failure u "password_reset_required"
        (send_link (forced_reset_link u.user_id u.email) a)

  abbrev pub challenge : User → List String → String → A C LoginResult
  challenge u methods fallback =
      issued_challenge (
        issue_challenge_token s.env.sign s.tokens inp.at.now inp.at.draws.jti u.user_id
          inp.at.fingerprint inp.at.thumbprint (method_password ∷ []))
      >>= λ token.
          change (audited (login_success_mfa_required u.user_id inp.client_id fallback)) >>= λ _.
          pure (challenge_result token methods)

  abbrev pub password_login : User → Opening
  password_login u = record {
    user_id = u.user_id;
    roles = s.env.effective_roles u.roles;
    client_id = inp.client_id;
    remember_me = inp.remember_me;
    methods = method_password ∷ [];
    user_verified = false;
    mfa_completed = false;
  }

  unfoldable pub single_step : User → A C LoginResult
  single_step u = do
    _ ← change (clear_account_source s inp.at u.user_id)
    _ ← change (clear_identity_failures s inp.at address)
    _ ← on_world (check_session_limit s.max_sessions s.strict inp.at.now u.user_id)
    device ← on_world (find_or_create_device inp.at u.user_id)
    pair ← on_world (open_session s.env s.tokens s.max_sessions inp.at (password_login u) device)
    _ ← change (defer (new_country_notice u.user_id u.email inp.at.ip))
    pure (session_result s.tokens inp.at.now pair)

  abbrev judge_status : User → Bool → Option MfaStatus → A C LoginResult
  judge_status u required none = refuse (λ a. a) mfa_unavailable
  judge_status u required (some st) =
      if has_methods st
      then challenge u st.methods ""
      else if required
      then (change (defer (email_otp_mail u.user_id u.email)) >>= λ _.
          challenge u (method_email_otp ∷ []) "email_otp")
      else single_step u

  unfoldable pub second_factor : User → A C LoginResult
  second_factor u = elim s.mfa [
    | none ↦ single_step u
    | some m ↦ judge_status u m.mfa_required (get_status m u.user_id)
  ]

  unfoldable pub judge_proven : User → A C LoginResult
  judge_proven u =
      if u.banned
      then refuse (audited (login_failure u.user_id "account_banned" "")) account_banned
      else if u.disabled
      then refuse (audited (login_failure u.user_id "account_disabled" "")) account_disabled
      else if not u.email_verified
      then refuse (record_login_failure u "email_not_verified") invalid_credentials
      else (change (statement (reset_failed_login u.user_id)) >>= λ _. second_factor u)

  abbrev judge_password : User → Verification → A C LoginResult
  judge_password u argon2_overloaded = refuse (λ a. a) overloaded
  judge_password u wrong = refuse (record_login_failure u "wrong_password") invalid_credentials
  judge_password u unreadable = refuse (record_login_failure u "wrong_password") invalid_credentials
  judge_password u verified = judge_proven u

  abbrev pub reset_error : Error
  reset_error = if inp.disclose_status then password_reset_required else invalid_credentials

  -- The lock of the account, read when the account is.
  unfoldable pub judge_user : Option User → A C LoginResult
  judge_user none a = mask unknown_address invalid_credentials a
  judge_user (some u) a =
      if is_held inp.at.now u
      then mask (locked_account u "admin") invalid_credentials a
      else if account_locked_now s inp.at u.user_id a
      then mask (locked_account u "auto") invalid_credentials a
      else if u.deleted
      then mask (audited (login_failure u.user_id "account_deleted" "")) invalid_credentials a
      else if u.import_pending
      then mask (unclaimed_import u) invalid_credentials a
      else if u.must_reset_password
      then mask (forced_reset u) reset_error a
      else judge_password u (inp.verify inp.password u.password_hash) a

  abbrev pub judge_ip : Bool → A C LoginResult
  judge_ip true = refuse (audited (login_failure "" "ip_locked" "")) account_locked
  judge_ip false = on_world (call (reading (get_by_email address))) >>= judge_user

  -- The deferred call: every error but the overload counts against the address.
  abbrev pub settle :
      AuthState C × Result Error LoginResult → AuthState C × Result Error LoginResult
  settle (a, ok r) = (a, ok r)
  settle (a, err e) =
      (if is_overload e then a else record_identity_failure s inp.at address a, err e)

  unfoldable pub login : A C LoginResult
  login a = settle ((is_ip_locked s inp.at >>= judge_ip) a)
