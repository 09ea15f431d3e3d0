-- ===== src/Mfa.antt =====
-- internal/service/mfa.go: the assurance level that a set of completed factors reaches, the claims
-- that a token makes of it, and the second factors that an account has. What the three factor
-- tables answer for a user is a function each; none is a failed read.
pub mod Levels
mod Tests
use Prim.Native.String
use vault.Common.{
  ℕ, String, Bool, true, false, ◌&&◌, ◌||◌, not, Option, none, some, List, [], ◌∷◌, ◌++◌, str_eq,
  ◌==◌, if◌then◌else◌, length,
}

pub data AuthenticatorAssuranceLevel : Type 0 where
  aal1 : AuthenticatorAssuranceLevel
  aal2 : AuthenticatorAssuranceLevel
  aal3 : AuthenticatorAssuranceLevel

abbrev pub method_password : String
method_password = "password"

abbrev pub method_totp : String
method_totp = "totp"

abbrev pub method_email_otp : String
method_email_otp = "email_otp"

abbrev pub method_backup_code : String
method_backup_code = "backup_code"

abbrev pub method_webauthn : String
method_webauthn = "webauthn"

abbrev pub method_federated : String
method_federated = "federated"

abbrev pub amr_password : String
amr_password = "pwd"

abbrev pub amr_otp : String
amr_otp = "otp"

abbrev pub amr_hardware_key : String
amr_hardware_key = "hwk"

abbrev pub amr_user_verified : String
amr_user_verified = "user"

abbrev pub amr_multi_factor : String
amr_multi_factor = "mfa"

pub record FactorSet : Type 0 where
  pub password : Bool
  pub totp : Bool
  pub email_otp : Bool
  pub backup_code : Bool
  pub webauthn : Bool
  pub federated : Bool

abbrev pub no_factor : FactorSet
no_factor = record {
  password = false;
  totp = false;
  email_otp = false;
  backup_code = false;
  webauthn = false;
  federated = false;
}

-- The switch of the loop; a name that it does not list is passed over.
unfoldable pub mark : String → FactorSet → FactorSet
mark m f =
    if str_eq m method_password
    then record f { password = true }
    else if str_eq m method_totp
    then record f { totp = true }
    else if str_eq m method_email_otp
    then record f { email_otp = true }
    else if str_eq m method_backup_code
    then record f { backup_code = true }
    else if str_eq m method_webauthn
    then record f { webauthn = true }
    else if str_eq m method_federated
    then record f { federated = true }
    else f

abbrev pub marked : FactorSet → List String → FactorSet
marked f [] = f
marked f (m ∷ ms) = marked (mark m f) ms

unfoldable pub factors_from : List String → FactorSet
factors_from methods = marked no_factor methods

abbrev pub first_factor : FactorSet → Bool
first_factor f = f.password || f.federated

abbrev pub possession : FactorSet → Bool
possession f = f.totp || f.email_otp || f.backup_code || f.webauthn

abbrev pub level : FactorSet → Bool → AuthenticatorAssuranceLevel
level f user_verified =
    if f.webauthn && user_verified
    then aal2
    else if first_factor f && possession f
    then aal2
    else aal1

unfoldable pub aal_for_methods : List String → Bool → AuthenticatorAssuranceLevel
aal_for_methods methods user_verified = level (factors_from methods) user_verified

-- What "%d" prints of a level.
abbrev digit : AuthenticatorAssuranceLevel → String
digit aal1 = "1"
digit aal2 = "2"
digit aal3 = "3"

unfoldable pub acr_for_aal : AuthenticatorAssuranceLevel → String
acr_for_aal aal = String.◌++◌ "urn:vault42:aal:" (digit aal)

-- `aal >= AAL2`
abbrev pub is_multi_factor : AuthenticatorAssuranceLevel → Bool
is_multi_factor aal1 = false
is_multi_factor aal2 = true
is_multi_factor aal3 = true

-- `if b { amr = append(amr, value) }`
abbrev pub append_if : Bool → String → List String → List String
append_if b value amr = if b then amr ++ value ∷ [] else amr

unfoldable pub amr_for_methods : List String → Bool → List String
amr_for_methods methods user_verified =
    let f = factors_from methods in
    let with_password = append_if f.password amr_password [] in
    let with_otp = append_if (f.totp || f.email_otp || f.backup_code) amr_otp with_password in
    let with_key = append_if f.webauthn amr_hardware_key with_otp in
    let with_user = append_if (f.webauthn && user_verified) amr_user_verified with_key in
    append_if (is_multi_factor (aal_for_methods methods user_verified)) amr_multi_factor with_user

pub record MfaService : Type 0 where
  -- Whether the user's TOTP row is verified, if there is one.
  pub totp : String → Option (Option Bool)
  pub credentials : String → Option ℕ
  pub unused_codes : String → Option ℕ
  pub mfa_required : Bool

pub record MfaStatus : Type 0 where
  pub totp_enabled : Bool
  pub webauthn_enabled : Bool
  pub backup_codes : ℕ
  pub methods : List String
  pub required : Bool

abbrev is_verified : Option Bool → Bool
is_verified none = false
is_verified (some v) = v

-- `len(status.Methods) > 0`
abbrev pub has_methods : MfaStatus → Bool
has_methods st = not (length st.methods == 0)

module _ (s : MfaService) where
  abbrev status : Option Bool → (creds codes : ℕ) → MfaStatus
  status totp creds codes =
      let with_totp = append_if (is_verified totp) method_totp [] in
      let with_key = append_if (not (creds == 0)) method_webauthn with_totp in
      record {
        totp_enabled = is_verified totp;
        webauthn_enabled = not (creds == 0);
        backup_codes = codes;
        methods = append_if (not (codes == 0)) method_backup_code with_key;
        required = s.mfa_required;
      }

  -- None where one of the three reads failed.
  abbrev determined : Option (Option Bool) → Option ℕ → Option ℕ → Option MfaStatus
  determined (some totp) (some creds) (some codes) = some (status totp creds codes)
  determined none creds codes = none
  determined (some totp) none codes = none
  determined (some totp) (some creds) none = none

  unfoldable pub get_status : String → Option MfaStatus
  get_status user = determined (s.totp user) (s.credentials user) (s.unused_codes user)

  unfoldable pub requires_mfa : String → Bool → Option Bool
  requires_mfa user trusted_device = elim (get_status user) [
    | none ↦ none
    | some st ↦ some (if not (has_methods st) then s.mfa_required else not trusted_device)
  ]
