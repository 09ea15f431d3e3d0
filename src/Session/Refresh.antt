-- ===== src/Session/Refresh.antt =====
-- internal/service/auth.go: the rotation of a refresh token (Refresh and the steps it is made of),
-- Logout and the session cap. The request's clock reads are one instant, `now`. What other code
-- answers is part of the request or of `Env`: the hash, the signer, the device fingerprint
-- (ComputeFingerprint), the thumbprint of a validated DPoP proof, the random draws and the role
-- filter (effectiveRoles). SecureCompare and CompareFingerprints are the equality of texts.
pub mod Steps
pub mod Success
pub mod Containment
pub mod Onward
pub mod Progress
use vault.Common.{
  ℕ, ◌+◌, ◌-◌, ◌/◌, String, Bool, true, false, ◌&&◌, ◌||◌, not, Option, none, some, List, [], ◌∷◌,
  ◌++◌, str_eq, ltb, leb, ◌==◌, if◌then◌else◌, Result, ok, err,
}
use vault.Session.Store.{
  Token, User, Db, StoreError, family_revoked, session_limit_reached, failed, create,
  create_within_cap, count_active_families, family_origin, get_by_token_hash, mark_used,
  revoke_family, revoke_all_for_user, get_user,
}
use vault.Session.Tokens.{
  TokenService, AuthContext, Claims, TokenPair, Draws, Grant, issue_rotated_pair, second,
}
use vault.Session.World.{
  AuditEvent, token_revoke, refresh_token_replayed, fingerprint_anomaly, dpop_binding_mismatch,
  token_refresh, rate_limit, World, Error, token_invalid, token_expired, replay_detected,
  account_banned, account_disabled, account_locked, session_expired, session_idle,
  session_age_unknown, too_many_sessions, store_failed, issue_failed, M, continue, ◌>>=◌, ◌>>◌,
  pure, fail, log, attempt,
}

pub record Env : Type 0 where
  pub collate : String → String → Bool
  pub hash : String → String
  pub sign : Claims → Option String
  pub effective_roles : List String → List String

pub record Request : Type 0 where
  pub now : ℕ
  pub refresh_token : String
  pub fingerprint : String
  pub thumbprint : String
  pub draws : Draws

pub record RefreshResult : Type 0 where
  pub access_token : String
  pub token_type : String
  pub expires_in : ℕ
  pub refresh_token : String
  pub cookie_max_age : ℕ

-- A read, and a write with no answer, as statements of the database.
abbrev pub reading : {A : Type 0} → (Db → A) → Db → Db × Result StoreError A
reading f db = (db, ok (f db))

abbrev pub writing : (Db → Db) → Db → Db × Result StoreError (Unit {0})
writing f db = (f db, ok tt)

abbrev pub updating : (Db → Db × Bool) → Db → Db × Result StoreError Bool
updating f db = let (d, b) = f db in (d, ok b)

-- `if err != nil { return err }`
abbrev pub returned : {A : Type 0} → Result StoreError A → M A
returned (ok a) = pure a
returned (err e) = fail store_failed

abbrev pub call : {A : Type 0} → (Db → Db × Result StoreError A) → M A
call op = attempt op >>= returned

abbrev pub succeeded : {A : Type 0} → Result StoreError A → Bool
succeeded (ok a) = true
succeeded (err e) = false

-- A best-effort revocation: its error is dropped.
abbrev pub burn : String → M (Result StoreError (Unit {0}))
burn f = attempt (writing (revoke_family f))

abbrev pub contain_refresh_reuse : Token → String → M (Unit {0})
contain_refresh_reuse t reason = do
  r ← burn t.family_id
  log (refresh_token_replayed t.user_id reason t.family_id (succeeded r))

unfoldable pub reject_replay : {A : Type 0} → Token → String → M A
reject_replay t reason = do _ ← contain_refresh_reuse t reason; fail replay_detected

-- `refuse` is a revocation, an audit entry and an error.
abbrev pub refuse_family : {A : Type 0} → Token → AuditEvent → Error → M A
refuse_family t event e = do _ ← burn t.family_id; _ ← log event; fail e

-- What FamilyOrigin answered, an error standing with the zero instant.
abbrev origin_of : Result StoreError ℕ → ℕ
origin_of (ok o) = o
origin_of (err e) = 0

-- The account as `GetByID` answered it, its error dropped.
abbrev account_of : Result StoreError (Option User) → Option User
account_of (ok u) = u
account_of (err e) = none

module _ (s : TokenService) (req : Request) where
  unfoldable pub judge_lifetime : Token → ℕ → M ℕ
  judge_lifetime t origin =
      if origin == 0
      then (if s.max_session_lifetime == 0 then pure 0 else (do
        _ ← log (token_revoke t.user_id "session_age_unavailable")
        fail session_age_unknown))
      else if not (s.max_session_lifetime == 0) && leb (origin + s.max_session_lifetime) req.now
      then refuse_family t (token_revoke t.user_id "session_lifetime_exceeded") session_expired
      else pure origin

  unfoldable pub enforce_session_lifetime : Token → M ℕ
  unfolding judge_lifetime
  enforce_session_lifetime t = do
    r ← attempt (reading (family_origin t.family_id))
    judge_lifetime t (origin_of r)

  unfoldable pub enforce_session_inactivity : Token → M (Unit {0})
  enforce_session_inactivity t =
      if s.inactivity_timeout == 0
      then pure tt
      else if t.created_at == 0
      then (do _ ← log (token_revoke t.user_id "session_age_unavailable"); fail session_age_unknown)
      else if leb (t.created_at + s.inactivity_timeout) req.now
      then refuse_family t (token_revoke t.user_id "session_inactivity_exceeded") session_idle
      else pure tt

module _ (req : Request) where
  unfoldable pub verify_fingerprint : Token → M (Unit {0})
  verify_fingerprint t =
      if not (str_eq t.fingerprint_hash "") && not (str_eq t.fingerprint_hash req.fingerprint)
      then refuse_family t (fingerprint_anomaly t.user_id t.fingerprint_hash) token_invalid
      else pure tt

  unfoldable pub enforce_dpop_binding : Token → M (Unit {0})
  enforce_dpop_binding t =
      if str_eq t.dpop_jkt ""
      then pure tt
      else if not (str_eq req.thumbprint "") && str_eq t.dpop_jkt req.thumbprint
      then pure tt
      else (do
        _ ← log (dpop_binding_mismatch t.user_id t.dpop_jkt (not (str_eq req.thumbprint "")))
        fail token_invalid)

  abbrev is_locked : User → Bool
  is_locked u = elim u.locked_until [ none ↦ false | some t ↦ ltb req.now t ]

  abbrev rejection : Option User → Error
  rejection none = token_invalid
  rejection (some u) =
      if u.banned
      then account_banned
      else if u.disabled
      then account_disabled
      else if is_locked u
      then account_locked
      else token_invalid

  unfoldable pub judge_account : Token → Option User → M User
  judge_account t none = do _ ← burn t.family_id; fail token_invalid
  judge_account t (some u) =
      if not u.deleted && not u.banned && not u.disabled && not (is_locked u)
      then pure u
      else (do _ ← burn t.family_id; fail (rejection (some u)))

  unfoldable pub account_still_holds_sessions : Token → M User
  unfolding judge_account
  account_still_holds_sessions t = do
    r ← attempt (reading (get_user t.user_id))
    judge_account t (account_of r)

abbrev pub issued : {E A : Type 0} → Result E A → M A
issued (ok a) = pure a
issued (err e) = fail issue_failed

abbrev pub drawn : Option String → M String
drawn none = fail issue_failed
drawn (some x) = pure x

module _ (env : Env) (s : TokenService) (req : Request) where
  abbrev pub rotation_grant : Token → List String → Grant
  rotation_grant t roles = record {
    user_id = t.user_id;
    roles = roles;
    scopes = "read" ∷ "write" ∷ [];
    client_id = t.client_id;
    fingerprint = req.fingerprint;
    family_id = t.family_id;
    remember_me = false;
    auth = record { acr = ""; amr = []; auth_time = 0 };
    jkt = t.dpop_jkt;
  }

  abbrev pub successor_token : Token → TokenPair → String → Token
  successor_token t pair id = record {
    id = id;
    user_id = t.user_id;
    client_id = t.client_id;
    token_hash = env.hash pair.refresh_token;
    family_id = t.family_id;
    device_id = t.device_id;
    fingerprint_hash = req.fingerprint;
    dpop_jkt = t.dpop_jkt;
    expires_at = pair.refresh_exp_at;
    created_at = req.now;
    used = false;
    revoked = false;
  }

  -- What the insert of the successor answered.
  unfoldable pub judge_insert : Token → TokenPair → Result StoreError (Unit {0}) → M TokenPair
  judge_insert t pair (ok u) = pure pair
  judge_insert t pair (err family_revoked) =
      refuse_family t (token_revoke t.user_id "family_revoked_during_rotation") replay_detected
  judge_insert t pair (err e) = fail store_failed

  -- auth.go's issueRotatedPair.
  unfoldable pub rotate : Token → List String → ℕ → M TokenPair
  unfolding judge_insert
  rotate t roles family_origin = do
    pair ←
        issued
          (issue_rotated_pair env.sign s req.now req.draws (rotation_grant t roles) family_origin)
    id ← drawn req.draws.row_id
    r ← attempt (create env.collate (successor_token t pair id))
    judge_insert t pair r

  abbrev pub response : TokenPair → RefreshResult
  response pair = record {
    access_token = pair.access_token;
    token_type = "Bearer";
    expires_in = s.access_token_ttl / second;
    refresh_token = pair.refresh_token;
    cookie_max_age = (pair.refresh_exp_at - req.now) / second;
  }

  -- The part of Refresh that follows the compare-and-set, with its answer.
  unfoldable pub spend : Token → ℕ → Bool → M RefreshResult
  unfolding reject_replay
  spend t family_origin false = reject_replay t "concurrent_replay_detected"
  spend t family_origin true = do
    user ← account_still_holds_sessions req t
    pair ← rotate t (env.effective_roles user.roles) family_origin
    _ ← log (token_refresh t.user_id)
    pure (response pair)

  -- The part of Refresh that follows the checks on the row itself.
  abbrev pub checked : Token → M RefreshResult
  checked t = do
    family_origin ← enforce_session_lifetime s req t
    _ ← enforce_session_inactivity s req t
    _ ← verify_fingerprint req t
    _ ← enforce_dpop_binding req t
    updated ← call (updating (mark_used t.id))
    spend t family_origin updated

  -- The part of Refresh that follows the lookup, with the row that was read.
  unfoldable pub rotate_stored : Token → M RefreshResult
  unfolding reject_replay
  rotate_stored t =
      if t.revoked
      then fail token_invalid
      else if t.used
      then reject_replay t "replay_detected"
      else if ltb t.expires_at req.now
      then fail token_expired
      else checked t

  abbrev pub found : Option Token → M RefreshResult
  found none = fail token_invalid
  found (some t) = rotate_stored t

  unfoldable pub refresh : M RefreshResult
  refresh = do
    stored ← call (reading (get_by_token_hash (env.hash req.refresh_token)))
    found stored

unfoldable pub logout : String → M (Unit {0})
logout user = do _ ← call (writing (revoke_all_for_user user)); log (token_revoke user "logout")

-- `limit` is maxSessionsPerUser.
module _ (limit : ℕ) (strict : Bool) (now : ℕ) where
  unfoldable pub judge_count : String → Result StoreError ℕ → M (Unit {0})
  judge_count user (ok n) = if leb limit n then fail too_many_sessions else pure tt
  judge_count user (err e) =
      if strict
      then (do _ ← log (rate_limit user "session_limit_count_failed"); fail too_many_sessions)
      else pure tt

  unfoldable pub check_session_limit : String → M (Unit {0})
  unfolding judge_count
  check_session_limit user =
      if limit == 0
      then pure tt
      else (do r ← attempt (reading (count_active_families now user)); judge_count user r)

abbrev pub stored_login : Result StoreError (Unit {0}) → M (Unit {0})
stored_login (ok u) = pure tt
stored_login (err session_limit_reached) = fail too_many_sessions
stored_login (err e) = fail store_failed

-- A login's first row of a family.
abbrev pub login_token :
    Env → (now : ℕ) (id user client device fingerprint thumbprint : String) → TokenPair → Token
login_token env now id user client device fingerprint thumbprint pair = record {
  id = id;
  user_id = user;
  client_id = client;
  token_hash = env.hash pair.refresh_token;
  family_id = pair.family_id;
  device_id = device;
  fingerprint_hash = fingerprint;
  dpop_jkt = thumbprint;
  expires_at = pair.refresh_exp_at;
  created_at = now;
  used = false;
  revoked = false;
}

unfoldable pub store_refresh_token :
    Env
    → (limit now : ℕ) (row_id : Option String)
    → (user client device fingerprint thumbprint : String) → TokenPair
    → M (Unit {0})
store_refresh_token env limit now row_id user client device fingerprint thumbprint pair = do
  id ← drawn row_id
  r ← attempt (
      create_within_cap env.collate now
        (login_token env now id user client device fingerprint thumbprint pair) limit)
  stored_login r
