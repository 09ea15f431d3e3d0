-- ===== src/Session/Password/Requests.antt =====
-- The other requests of internal/handler/password.go and auth.go, and the mailed links of
-- internal/service/auth.go: ResetRequest, ChangePassword, VerifyEmail, sendResetLink and
-- sendVerificationEmail. A link is known by its token, the draw of RandomHex; its URL is output.
use Prim.Native.String
use vault.Common.{
  ℕ, String, Bool, not, Option, none, some, str_eq, ltb, if◌then◌else◌, Result, ok, err,
}
use vault.Session.Store.{User, get_user}
use vault.Session.Store.Accounts.{get_by_email}
use vault.Session.Store.Passwords
use vault.Session.World.{
  attempt, store_failed, overloaded, invalid_request, password_too_short, invalid_or_expired_token,
  unauthorized, invalid_current_password, password_reset, password_change, email_verified,
  verification_not_sent,
}
use vault.Session.Refresh.{reading, writing}
use vault.Session.Auth.{
  Verification, verified, wrong, unreadable, argon2_overloaded, reset_mail, verification_mail,
  AuthState, A, ◌>>=◌, change, refuse, on_world, audited, defer,
}
use vault.Session.Password.{
  PasswordHandler, NewPassword, reset_key, reset_user_key, verify_key, one_hour, one_day,
  account_read, is_refused, retire_link, redeem, must, update_password,
}

-- The prefixes under which the two kinds of a login's reset link reserve their hour.
abbrev pub import_claim_link : String
import_claim_link = "import_claim_sent:"

abbrev pub forced_reset_link : String
forced_reset_link = "forced_reset_sent:"

module _ {C : Type 0} (h : PasswordHandler C) (now : ℕ) where
  -- The link of a token, and the reverse map to it.
  abbrev pub store_link : String → String → C → C
  store_link user hash c =
      let d = (h.ops.set now (reset_key hash) user one_hour c).0 in
      (h.ops.set now (reset_user_key user) hash one_hour d).0

  abbrev mail_reset : String → String → AuthState C → AuthState C
  mail_reset email token a = if h.has_mailer then defer (reset_mail email token) a else a

  abbrev pub linked : User → String → AuthState C → AuthState C
  linked u token a = elim a.cache [
    | none ↦ a
    | some c ↦ record a {
      cache = some (store_link u.user_id (h.sha256 token) (retire_link h now u.user_id c));
    }
  ]

  abbrev judge_request : Option User → Option String → AuthState C → AuthState C
  judge_request none token a = a
  judge_request (some u) none a = a
  judge_request (some u) (some token) a =
      if is_refused u
      then a
      else audited (password_reset u.user_id "requested")
          (mail_reset u.email token (linked u token a))

  -- The answer is the same whatever the address; `token` is the draw.
  unfoldable pub reset_request : String → Option String → A C (Unit {0})
  reset_request email token =
      if str_eq email ""
      then refuse (λ a. a) invalid_request
      else on_world (attempt (reading (get_by_email (h.normalize email)))) >>= λ r.
          change (judge_request (account_read r) token)

  abbrev store_token : String → String → String → AuthState C → C → AuthState C
  store_token user email token a c =
      let (d, r) = h.ops.set now (reset_key (h.sha256 token)) user one_hour c in
      elim r [
        | err e ↦ record a { cache = some d }
        | ok x ↦ defer (reset_mail email token) (record a {
          cache = some (h.ops.set now (reset_user_key user) (h.sha256 token) one_hour d).0;
        })
      ]

  abbrev mint : String → String → Option String → AuthState C → C → AuthState C
  mint user email none a c = record a { cache = some c }
  mint user email (some token) a c = store_token user email token a c

  abbrev after_reservation :
      String
      → String
      → Option String
      → AuthState C
      → C
      → Result vault.Cache.Error Bool
      → AuthState C
  after_reservation user email token a c (err e) = record a { cache = some c }
  after_reservation user email token a c (ok reserved) =
      if not reserved
      then record a { cache = some c }
      else mint user email token a (retire_link h now user c)

  -- sendResetLink with the job that it defers, for a kind by its prefix.
  unfoldable pub send_reset_link :
      (prefix user email : String) → Option String → AuthState C → AuthState C
  send_reset_link prefix user email token a = elim a.cache [
    | none ↦ a
    | some c ↦
        if not h.has_mailer
        then a
        else (let (d, r) = h.ops.set_if_not_exists now (String.◌++◌ prefix user) "1" one_hour c in
            after_reservation user email token a d r)
  ]

  abbrev verification_stored :
      String → String → String → AuthState C → Result vault.Cache.Error (Unit {0}) → AuthState C
  verification_stored user email token a (err e) =
      audited (verification_not_sent user "token_store_failed") a
  verification_stored user email token a (ok x) =
      if h.deliver email
      then defer (verification_mail email token) a
      else audited (verification_not_sent user "delivery_failed") a

  abbrev mail_verification : String → String → Option String → AuthState C → C → AuthState C
  mail_verification user email none a c =
      audited (verification_not_sent user "token_generation_failed") a
  mail_verification user email (some token) a c =
      let (d, r) = h.ops.set now (verify_key (h.sha256 token)) user one_day c in
      verification_stored user email token (record a { cache = some d }) r

  -- SendSignupVerification with the job that it defers, sendVerificationEmail.
  unfoldable pub send_signup_verification :
      (email user : String) → Option String → AuthState C → AuthState C
  send_signup_verification email user token a = elim a.cache [
    | none ↦ a
    | some c ↦ if not h.has_mailer then a else mail_verification user email token a c
  ]

  abbrev verify_owner : Result vault.Cache.Error String → A C (Unit {0})
  verify_owner (err e) a = (a, err invalid_or_expired_token)
  verify_owner (ok user) a =
      if str_eq user ""
      then (a, err invalid_or_expired_token)
      else (must store_failed (writing (Passwords.verify_email user)) >>= λ x.
            change (audited (email_verified user)))
          a

  -- GET /auth/verify-email
  unfoldable pub verify_email : String → A C (Unit {0})
  verify_email token =
      if str_eq token ""
      then refuse (λ a. a) invalid_request
      else redeem h now (verify_key (h.sha256 token)) >>= verify_owner

module _ {C : Type 0} (h : PasswordHandler C) where
  abbrev judge_current : NewPassword → String → User → Verification → A C (Unit {0})
  judge_current n current u argon2_overloaded a = (a, err overloaded)
  judge_current n current u wrong a = (a, err invalid_current_password)
  judge_current n current u unreadable a = (a, err invalid_current_password)
  judge_current n current u verified a =
      (update_password h n u.user_id >>= λ x. change (audited (password_change u.user_id))) a

  abbrev judge_holder : NewPassword → String → Option User → A C (Unit {0})
  judge_holder n current none a = (a, err unauthorized)
  judge_holder n current (some u) a = judge_current n current u (n.verify current u.password_hash) a

  -- POST /user/password, for the subject of the token.
  unfoldable pub change_password : String → String → NewPassword → A C (Unit {0})
  change_password subject current n =
      if ltb (h.rune_count n.password) h.min_length
      then refuse (λ a. a) password_too_short
      else on_world (attempt (reading (get_user subject))) >>= λ r.
          judge_holder n current (account_read r)
