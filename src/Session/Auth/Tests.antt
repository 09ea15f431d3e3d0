-- ===== src/Session/Auth/Tests.antt =====
-- Logins of one account over the memory cache: by password alone, by a second factor, and refused.
use Prim.Native.String
use vault.Common.{
  String, ◌≡◌, refl, arith, true, false, Option, none, some, [], ◌∷◌, inl, inr, Result, ok, err,
  eq_iff, str_eq,
}
use vault.Common.Dict.{lookup, insert, erase}
use vault.Cache.{Error, not_found}
use vault.Cache.Unary.{print, read, unary}
use vault.Cache.Memory.{
  MemoryCache, get, run, cleans, delete, set, set_if_not_exists, increment, admit,
}
use vault.Cache.Memory.Bound.{IsWithinCap}
use vault.Lockout.OnMemory.{memory_ops}
use vault.Mfa.{MfaService, get_status}
use vault.Lockout.{
  is_account_locked, cached_count, clear_lockout, lockout_generation_key, source_lockout_key,
}
use vault.Session.Store.{User, get_user, create, create_within_cap, count_active_families}
use vault.Session.Store.Accounts.{
  get_by_email, reset_failed_login, get_by_fingerprint, create_device, set_last_login,
}
use vault.Session.Tokens.{TokenService, issue_token_pair_with_auth, issue_challenge_token}
use vault.Session.World.{attempt, invalid_credentials, overloaded, challenge_consumed}
use vault.Session.Refresh.{
  Env, reading, call, check_session_limit, judge_count, store_refresh_token,
}
use vault.Session.Opening.{Caller, find_or_create_device, open_session, login_grant}
use vault.Session.Auth.{
  Verification, verified, wrong, argon2_overloaded, AuthService, AuthState, LoginResult,
  is_ip_locked, on_world, clear_identity_failures, record_identity_failure, record_failed_ip,
}
use vault.Session.Auth.Login.{
  LoginInput, login, challenge_result, judge_user, judge_proven, second_factor, single_step,
}
use vault.Session.Auth.Login.Steps.{IsQuiet}
use vault.Session.Auth.Login.Success.{Admits, Outcome, login-Admits}
use vault.Session.Auth.Login.Refusals.{login-masked, login-overload}
use vault.Session.Auth.Challenge.{
  MfaCompletion, complete_mfa_login, claim_challenge, complete_claimed, complete_subject,
  judge_subject,
}
use vault.Session.Auth.Challenge.Success.{Completes, complete_mfa_login-Completes}
use vault.Session.Auth.Challenge.Once.{complete_mfa_login-once}
use vault.Session.Auth.Otp.{OtpKeys, email_otp_allowed, send_email_otp, verify_email_otp}
use vault.Session.Auth.Otp.OneTime.{verify_email_otp-send}

abbrev env : Env
env = record {
  collate = λ a b. true;
  hash = λ x. x;
  sign = λ c. some "jwt";
  effective_roles = λ rs. rs;
}

abbrev tokens : TokenService
tokens = record {
  issuer = "vault";
  audience = "api";
  access_token_ttl = 100;
  refresh_token_ttl = 5_000;
  remember_me_ttl = 9_000;
  max_session_lifetime = 0;
  inactivity_timeout = 0;
}

abbrev optional_code : MfaService
optional_code = record {
  totp = λ user. some none;
  credentials = λ user. some 0;
  unused_codes = λ user. some 0;
  mfa_required = true;
}

abbrev service : Option MfaService → AuthService MemoryCache
service mfa = record {
  format = print;
  scan = read;
  ops = memory_ops unary;
  env = env;
  tokens = tokens;
  max_sessions = 3;
  strict = false;
  mfa = mfa;
  has_mailer = true;
  has_rate_limits = true;
  identity_key = λ email. String.◌++◌ "auththrottle:" email;
  normalize = λ x. x;
  dummy_hash = "dummy";
}

abbrev ann : User
ann = record {
  user_id = "ann";
  email = "ann@vault.test";
  email_verified = true;
  password_hash = "h";
  roles = "user" ∷ [];
  deleted = false;
  banned = false;
  disabled = false;
  locked_until = none;
  failed_login_count = 2;
  import_pending = false;
  must_reset_password = false;
  last_login_at = 0;
}

abbrev empty : MemoryCache
empty = record { entries = []; max_entries = 8; at_cap = false }

abbrev start : AuthState MemoryCache
start = record {
  world = record {
    db = record { tokens = []; users = ann ∷ []; devices = []; rate_limits = []; history = [] };
    faults = [];
    audit = [];
  };
  cache = some empty;
  refused_at = 0;
  readable = true;
  deferred = [];
}

abbrev caller : Caller
caller = record {
  now = 50;
  ip = "10.0.0.1";
  user_agent = "curl";
  fingerprint = "fp";
  thumbprint = "";
  draws = record {
    jti = some "j1";
    refresh_token = some "r1";
    family_id = some "f1";
    row_id = some "id1";
  };
  device_draw = some "d1";
}

abbrev input : Verification → LoginInput
input v = record {
  at = caller;
  email = "ann@vault.test";
  password = "pw";
  remember_me = false;
  client_id = "web";
  disclose_status = false;
  verify = λ password hash. v;
}

abbrev session : LoginResult
session = record {
  access_token = "jwt";
  token_type = "Bearer";
  expires_in = 0;
  refresh_token = "r1";
  cookie_max_age = 0;
  requires_2fa = false;
  challenge_token = "";
  available_methods = [];
}

abbrev logged_in : AuthState MemoryCache
logged_in = (login (service none) (input verified) start).0

logs_in : login (service none) (input verified) start ≡ (logged_in, ok session)
unfolding login is_ip_locked get lookup judge_user get_by_email is_account_locked cached_count
    judge_proven reset_failed_login attempt second_factor single_step clear_lockout
    clear_identity_failures delete erase check_session_limit judge_count count_active_families
    find_or_create_device get_by_fingerprint create_device open_session issue_token_pair_with_auth
    store_refresh_token create_within_cap create set_last_login login_grant
logs_in = refl

login-Admits_example :
    (u : User) × ((is_ip_locked (service none) caller start).1 ≡ ok false)
    × (get_by_email "ann@vault.test" start.world.db ≡ some u)
    × Admits (service none) (input verified) u start
    × Outcome (service none) (input verified) u start logged_in session
login-Admits_example = login-Admits (service none) (input verified) start logged_in session logs_in

open_source : is_ip_locked (service none) caller start ≡ (start, ok false)
unfolding is_ip_locked get lookup
open_source = refl

finds_ann : on_world (call (reading (get_by_email "ann@vault.test"))) start ≡ (start, ok (some ann))
unfolding get_by_email attempt
finds_ann = refl

login-masked_example : (login (service none) (input wrong) start).1 ≡ err invalid_credentials
login-masked_example =
    login-masked (service none) (input wrong) start start start (some ann) open_source finds_ann
      refl (λ h. inl refl)

overloads : login (service none) (input argon2_overloaded) start ≡ (start, err overloaded)
unfolding login is_ip_locked get lookup judge_user get_by_email is_account_locked cached_count
    attempt
overloads = refl

login-overload_example : IsQuiet start start
login-overload_example =
    login-overload (service none) (input argon2_overloaded) start start overloads

abbrev completion : MfaCompletion
completion = record { method = "totp"; user_verified = false; prior = "password" ∷ [] }

abbrev completed : AuthState MemoryCache
completed = (complete_mfa_login (service none) caller "ann" "c1" completion start).0

completes :
    complete_mfa_login (service none) caller "ann" "c1" completion start ≡ (completed, ok session)
unfolding complete_mfa_login claim_challenge set_if_not_exists admit insert complete_claimed
    complete_subject judge_subject get_user get lookup cached_count attempt clear_lockout delete
    erase check_session_limit judge_count count_active_families find_or_create_device
    get_by_fingerprint create_device open_session issue_token_pair_with_auth store_refresh_token
    create_within_cap create set_last_login login_grant
completes = refl

complete_mfa_login-Completes_example :
    Completes (service none) caller "ann" completion start.world completed session
complete_mfa_login-Completes_example =
    complete_mfa_login-Completes (service none) caller "ann" completion "c1" start completed session
      completes

abbrev used_once : MemoryCache
used_once = record {
  entries = ("challenge_used:c1", record { value = "1"; expires_at = 300_000_000_050 }) ∷ [];
  max_entries = 8;
  at_cap = false;
}

left_claimed : completed.cache ≡ some used_once
unfolding complete_mfa_login claim_challenge set_if_not_exists admit insert complete_claimed
    complete_subject judge_subject get_user get lookup cached_count attempt clear_lockout delete
    erase check_session_limit judge_count count_active_families find_or_create_device
    get_by_fingerprint create_device open_session issue_token_pair_with_auth store_refresh_token
    create_within_cap create set_last_login login_grant lockout_generation_key source_lockout_key
left_claimed = refl

empty-IsWithinCap : IsWithinCap empty
empty-IsWithinCap = record { distinct = tt; capped = inr (omega arith) }

abbrev thief : Caller
thief = record caller { now = 90; ip = "10.0.0.9" }

abbrev later_state : AuthState MemoryCache
later_state = record completed { cache = some (run unary used_once (cleans 60 ∷ [])) }

complete_mfa_login-once_example :
    (complete_mfa_login (service none) thief "ann" "c1" completion later_state).1
    ≡ err challenge_consumed
complete_mfa_login-once_example =
    complete_mfa_login-once unary (service none) refl caller thief "ann" "ann" "c1" completion
      completion start completed later_state empty used_once session (cleans 60 ∷ []) refl
      empty-IsWithinCap (ground (arith, eq_iff "c1" "")) completes left_claimed (omega arith, tt)
      (omega arith) refl

abbrev keys : OtpKeys
keys = record {
  render = λ n. "000042";
  sign = λ code. String.◌++◌ "mac:" code;
  verify = λ code signature. str_eq signature (String.◌++◌ "mac:" code);
  deliver = λ email code. true;
}

abbrev owing : AuthService MemoryCache
owing = service (some optional_code)

abbrev sent : AuthState MemoryCache
sent = (send_email_otp owing keys 60 "ann" "ann@vault.test" (some 42) start).0

sends : send_email_otp owing keys 60 "ann" "ann@vault.test" (some 42) start ≡ (sent, ok tt)
unfolding send_email_otp email_otp_allowed get_status set admit
sends = refl

verify_email_otp-send_example :
    let (c, r) = verify_email_otp owing keys 70 "ann" "000042" sent in
    (r ≡ ok tt) × ((verify_email_otp owing keys 80 "ann" "000042" c).1 ≡ err invalid_credentials)
verify_email_otp-send_example =
    verify_email_otp-send unary owing keys refl 60 70 80 "ann" "ann@vault.test" "000042" 42 start
      sent refl (ground (arith, eq_iff "mac:000042" "")) sends (omega arith)

-- With a code owed by email, the right password gets a challenge, and the code is queued.
owes_code : (login owing (input verified) start).1 ≡ ok (challenge_result "jwt" ("email_otp" ∷ []))
unfolding login is_ip_locked get lookup judge_user get_by_email is_account_locked cached_count
    judge_proven reset_failed_login attempt second_factor get_status issue_challenge_token
owes_code = refl

-- A deleted account is refused as an unknown one is, but the failure is not counted against the
-- source.
abbrev deleted_start : AuthState MemoryCache
deleted_start = record start {
  world = record start.world {
    db = record start.world.db { users = record ann { deleted = true } ∷ [] };
  };
}

abbrev ip_count : AuthState MemoryCache → Result Error String
ip_count a = elim a.cache [ none ↦ err not_found | some c ↦ get 51 "lockout_ip:10.0.0.1" c ]

deleted_uncounted : ip_count (login (service none) (input wrong) deleted_start).0 ≡ err not_found
unfolding login is_ip_locked get lookup judge_user get_by_email is_account_locked cached_count
    attempt record_identity_failure increment admit insert
deleted_uncounted = refl

unknown_counted :
    ip_count (login (service none) (record (input wrong) { email = "bob@vault.test" }) start).0
    ≡ ok (print 1)
unfolding login is_ip_locked get lookup judge_user get_by_email is_account_locked cached_count
    attempt record_identity_failure record_failed_ip increment admit insert
unknown_counted = refl
