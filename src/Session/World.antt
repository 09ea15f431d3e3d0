-- ===== src/Session/World.antt =====
-- What a request of the session service can reach: the database, with the outages it will see, and
-- the audit log. A statement that is refused changes nothing; one that is lost takes effect,
-- and its caller sees an error all the same.
pub use vault.Common.Steps.{continue, continue-eq-ok, continue-eq-err}
use vault.Common.{ℕ, String, Bool, List, [], ◌∷◌, ◌++◌, Result, ok, err}
use vault.Session.Store.{Db, StoreError, failed}

pub data Fault : Type 0 where
  fine : Fault
  refused : Fault
  lost : Fault

-- The audit classes that the rotation and the login write, with the metadata that tells their causes apart.
pub data AuditEvent : Type 0 where
  token_revoke : (user reason : String) → AuditEvent
  refresh_token_replayed : (user reason family : String) (family_revoked : Bool) → AuditEvent
  fingerprint_anomaly : (user expected : String) → AuditEvent
  dpop_binding_mismatch : (user expected : String) (proof_presented : Bool) → AuditEvent
  token_refresh : (user : String) → AuditEvent
  rate_limit : (user reason : String) → AuditEvent
  login_failure : (user reason source : String) → AuditEvent
  -- A first factor that leaves a second one owed, and a login that is complete.
  login_success_mfa_required : (user client fallback : String) → AuditEvent
  login_success : (user client device : String) (mfa_completed : Bool) → AuditEvent
  password_reset : (user action : String) → AuditEvent
  password_change : (user : String) → AuditEvent
  email_verified : (user : String) → AuditEvent
  verification_not_sent : (user reason : String) → AuditEvent

pub record World : Type 0 where
  pub db : Db
  pub faults : List Fault
  pub audit : List AuditEvent

pub data Error : Type 0 where
  token_invalid : Error
  token_expired : Error
  replay_detected : Error
  account_banned : Error
  account_disabled : Error
  account_locked : Error
  session_expired : Error
  session_idle : Error
  session_age_unknown : Error
  too_many_sessions : Error
  store_failed : Error
  -- A sweep that a failed statement ended, with the rows that it had deleted by then.
  sweep_failed : (total : ℕ) → Error
  issue_failed : Error
  overloaded : Error
  invalid_credentials : Error
  password_reset_required : Error
  mfa_unavailable : Error
  challenge_consumed : Error
  email_otp_not_allowed : Error
  email_otp_unavailable : Error
  invalid_request : Error
  password_too_short : Error
  invalid_or_expired_token : Error
  password_breached : Error
  password_recently_used : Error
  unauthorized : Error
  invalid_current_password : Error
  import_claim_failed : Error
  forced_reset_clear_failed : Error

abbrev pub M : Type 0 → Type 0
M A = World → World × Result Error A

infixl 5 ◌>>=◌ ◌>>◌
abbrev pub ◌>>=◌ : {A B : Type 0} → M A → (A → M B) → M B
◌>>=◌ m f w = continue (m w) f

abbrev pub ◌>>◌ : {B : Type 0} → M (Unit {0}) → M B → M B
m >> k = m >>= λ _. k

abbrev pub pure : {A : Type 0} → A → M A
pure a w = (w, ok a)

abbrev pub fail : {A : Type 0} → Error → M A
fail e w = (w, err e)

abbrev pub log : AuditEvent → M (Unit {0})
log e w = (record w { audit = w.audit ++ e ∷ [] }, ok tt)

-- One statement under the next fault; the answer is handed on, errors included.
under_fault :
    {A : Type 0} → Fault → List Fault → (Db → Db × Result StoreError A) → M (Result StoreError A)
under_fault fine rest op w = let (d, r) = op w.db in (record w { db = d; faults = rest }, ok r)
under_fault refused rest op w = (record w { faults = rest }, ok (err failed))
under_fault lost rest op w =
    let (d, r) = op w.db in (record w { db = d; faults = rest }, ok (err failed))

attempt_with : {A : Type 0} → List Fault → (Db → Db × Result StoreError A) → M (Result StoreError A)
unfolding under_fault
attempt_with [] op w = under_fault fine [] op w
attempt_with (f ∷ fs) op w = under_fault f fs op w

unfoldable pub attempt : {A : Type 0} → (Db → Db × Result StoreError A) → M (Result StoreError A)
unfolding attempt_with
attempt op w = attempt_with w.faults op w
