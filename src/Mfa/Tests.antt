-- ===== src/Mfa/Tests.antt =====
-- Factors presented and factors owed, on small inputs.
use vault.Common.{◌≡◌, ◌≢◌, ◌↔◌, refl, true, false, some, none, [], ◌∷◌}
use vault.Mfa.{
  aal2, aal3, aal_for_methods, amr_for_methods, acr_for_aal, factors_from, mark, amr_multi_factor,
  amr_password, method_password, method_webauthn, MfaService, get_status, requires_mfa,
}
use vault.Mfa.Levels.{ProvesTwoFactors, presents, aal_for_methods-ProvesTwoFactors}

password_and_code : amr_for_methods ("password" ∷ "totp" ∷ []) false ≡ "pwd" ∷ "otp" ∷ "mfa" ∷ []
unfolding amr_for_methods aal_for_methods factors_from mark
password_and_code = refl

second_level : acr_for_aal aal2 ≡ "urn:vault42:aal:2"
unfolding acr_for_aal
second_level = refl

abbrev service : MfaService
service = record {
  totp = λ user. some (some true);
  credentials = λ user. some 2;
  unused_codes = λ user. some 0;
  mfa_required = true;
}

enrolled :
    get_status service "ann"
    ≡ some (record {
      totp_enabled = true;
      webauthn_enabled = true;
      backup_codes = 0;
      methods = "totp" ∷ "webauthn" ∷ [];
      required = true;
    })
unfolding get_status
enrolled = refl

trusted : requires_mfa service "ann" true ≡ some false
unfolding requires_mfa get_status
trusted = refl

undetermined : requires_mfa (record service { unused_codes = λ user. none }) "ann" true ≡ none
unfolding requires_mfa get_status
undetermined = refl

aal_for_methods-ProvesTwoFactors_example :
    let ms = method_webauthn ∷ [] in
    let aal = aal_for_methods ms false in
    let amr = amr_for_methods ms false in
    (aal ≡ aal2 ↔ ProvesTwoFactors ms false)
    × (aal ≢ aal3)
    × (presents amr_multi_factor amr ≡ true ↔ aal ≡ aal2)
    × (presents amr_password amr ≡ presents method_password ms)
aal_for_methods-ProvesTwoFactors_example =
    aal_for_methods-ProvesTwoFactors (method_webauthn ∷ []) false
