-- ===== src/Session/Auth/Otp.antt =====
-- internal/service/auth.go: the one-time code by email, as the second factor of an account that has
-- no other. HMACSign and HMACVerify with the service's key, RandomBytes and the delivery of the mail
-- are parameters.
pub mod OneTime
use Prim.Native.String
use vault.Common.{
  ℕ, ◌%◌, String, Bool, true, false, ◌&&◌, not, Option, none, some, List, [], ◌∷◌, str_eq,
  if◌then◌else◌, Result, ok, err,
}
use vault.Mfa.{MfaService, MfaStatus, get_status, has_methods}
use vault.Session.World.{
  Error, invalid_credentials, email_otp_not_allowed, email_otp_unavailable, issue_failed,
}
use vault.Session.Auth.{AuthService, AuthState, A, refuse}

pub record OtpKeys : Type 0 where
  -- Six decimal digits.
  pub render : ℕ → String
  pub sign : String → String
  pub verify : (code signature : String) → Bool
  -- Whether the mailer takes the mail for an address with a code.
  pub deliver : (email code : String) → Bool

abbrev pub otp_key : String → String
otp_key user = String.◌++◌ "email_otp:" user

-- Five minutes.
abbrev pub otp_ttl : ℕ
otp_ttl = 300_000_000_000

abbrev allowed : Bool → Option MfaStatus → Bool
allowed required none = false
allowed required (some st) = not (has_methods st) && required

abbrev invalid : {C : Type 0} → AuthState C → AuthState C × Result Error (Unit {0})
invalid a = (a, err invalid_credentials)

module _ {C : Type 0} (s : AuthService C) where
  unfoldable pub email_otp_allowed : String → Bool
  email_otp_allowed user = elim s.mfa [
    | none ↦ false
    | some m ↦ allowed m.mfa_required (get_status m user)
  ]

module _ {C : Type 0} (s : AuthService C) (keys : OtpKeys) (now : ℕ) where
  -- What follows the write of the signature.
  abbrev mailed :
      AuthState C
      → Result vault.Cache.Error (Unit {0})
      → String
      → String
      → AuthState C × Result Error (Unit {0})
  mailed a (err e) email code = (a, err email_otp_unavailable)
  mailed a (ok u) email code =
      if keys.deliver email code then (a, ok tt) else (a, err email_otp_unavailable)

  abbrev send_drawn : (user email : String) → Option ℕ → C → A C (Unit {0})
  send_drawn user email none c a = (a, err issue_failed)
  send_drawn user email (some n) c a =
      let code = keys.render (n % 1_000_000) in
      let (d, r) = s.ops.set now (otp_key user) (keys.sign code) otp_ttl c in
      mailed (record a { cache = some d }) r email code

  -- doSendEmailOTP, with the four bytes it draws as a number.
  unfoldable pub send_email_otp : (user email : String) → Option ℕ → A C (Unit {0})
  send_email_otp user email draw a =
      if not (email_otp_allowed s user) then (a, err email_otp_not_allowed) else elim a.cache [
        | none ↦ (a, err email_otp_unavailable)
        | some c ↦
            if not s.has_mailer
            then (a, err email_otp_unavailable)
            else send_drawn user email draw c a
      ]

  abbrev judge_code :
      AuthState C → String → Result vault.Cache.Error String → AuthState C × Result Error (Unit {0})
  judge_code a code (err e) = invalid a
  judge_code a code (ok signature) =
      if str_eq signature ""
      then invalid a
      else if not (keys.verify code signature)
      then invalid a
      else (a, ok tt)

  unfoldable pub verify_email_otp : (user code : String) → A C (Unit {0})
  verify_email_otp user code a =
      if not (email_otp_allowed s user) then invalid a else elim a.cache [
        | none ↦ invalid a
        | some c ↦
            let (d, r) = s.ops.get_and_delete now (otp_key user) c in
            judge_code (record a { cache = some d }) code r
      ]
