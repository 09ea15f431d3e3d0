-- ===== src/Mfa/Levels.antt =====
-- Which factors reach which assurance level (mfa.go), over the names that a login presents.
use vault.Common.{
  ◌≡◌, ◌↔◌, ◌⊎◌, refl, String, Bool, true, false, ◌&&◌, ◌||◌, List, [], ◌∷◌, ◌++◌, str_eq,
  if◌then◌else◌, exists, arith, eq_iff, ◌≢◌,
}
use vault.Mfa.{
  aal2, aal3, FactorSet, no_factor, mark, marked, factors_from, aal_for_methods, amr_for_methods,
  amr_multi_factor, amr_otp, amr_hardware_key, amr_user_verified, append_if, is_multi_factor,
  amr_password, method_password, method_totp, method_email_otp, method_backup_code, method_webauthn,
  method_federated,
}

abbrev pub presents : String → List String → Bool
presents m ms = exists (λ x. str_eq x m) ms

abbrev either : Bool → Bool → Bool
either b c = if b then true else c

presents-append :
    (k v : String) (xs : List String)
    → presents k (xs ++ v ∷ []) ≡ either (presents k xs) (str_eq v k)
presents-append k v [] = ground arith
presents-append k v (x ∷ xs) = ground (arith, presents-append k v xs)

presents-append_if :
    (k : String) (b : Bool) (v : String) (xs : List String) {w : Bool}
    → presents k xs ≡ w
    → presents k (append_if b v xs) ≡ either w (b && str_eq v k)
presents-append_if k true v xs h = ground (arith, presents-append k v xs)
presents-append_if k false v xs h = ground arith

module _ (π : FactorSet → Bool) where
  after_if :
      (b : Bool) (x y : FactorSet) {v : Bool}
      → π y ≡ v
      → π (if b then x else y) ≡ (if b then π x else v)
  after_if true x y h = refl
  after_if false x y h = h

  -- One flag after a round of the switch.
  flag-mark :
      (m : String) (f : FactorSet)
      → π (mark m f) ≡ (
          if str_eq m method_password
          then π (record f { password = true })
          else if str_eq m method_totp
          then π (record f { totp = true })
          else if str_eq m method_email_otp
          then π (record f { email_otp = true })
          else if str_eq m method_backup_code
          then π (record f { backup_code = true })
          else if str_eq m method_webauthn
          then π (record f { webauthn = true })
          else if str_eq m method_federated
          then π (record f { federated = true })
          else π f)
  unfolding mark
  flag-mark m f = after_if (str_eq m method_password) _ _ (
      after_if (str_eq m method_totp) _ _ (
        after_if (str_eq m method_email_otp) _ _ (
          after_if (str_eq m method_backup_code) _ _ (
            after_if (str_eq m method_webauthn) _ _
              (after_if (str_eq m method_federated) _ _ (refl))))))

  -- A flag that a round sets by one name is set by the loop if that name is there.
  marked-presents :
      (k : String)
      → ((m : String) (f : FactorSet) → π (mark m f) ≡ either (π f) (str_eq m k))
      → (f : FactorSet) (ms : List String) → π (marked f ms) ≡ either (π f) (presents k ms)
  marked-presents k round f [] = ground arith
  marked-presents k round f (m ∷ ms) =
      ground (arith, round m f, marked-presents k round (mark m f) ms)

module _ (ms : List String) where
  factors_from-password : (factors_from ms).password ≡ presents method_password ms
  unfolding factors_from
  factors_from-password =
      marked-presents (λ f. f.password) method_password
        (λ m f. ground (arith, flag-mark (λ f. f.password) m f, eq_iff m method_password)) no_factor
        ms

  factors_from-totp : (factors_from ms).totp ≡ presents method_totp ms
  unfolding factors_from
  factors_from-totp =
      marked-presents (λ f. f.totp) method_totp
        (λ m f. ground (
          arith,
          flag-mark (λ f. f.totp) m f,
          eq_iff m method_password,
          eq_iff m method_totp,
          eq_iff method_password method_totp,
        ))
        no_factor ms

  factors_from-email_otp : (factors_from ms).email_otp ≡ presents method_email_otp ms
  unfolding factors_from
  factors_from-email_otp =
      marked-presents (λ f. f.email_otp) method_email_otp
        (λ m f. ground (
          arith,
          flag-mark (λ f. f.email_otp) m f,
          eq_iff m method_password,
          eq_iff m method_totp,
          eq_iff m method_email_otp,
          eq_iff method_password method_email_otp,
          eq_iff method_totp method_email_otp,
        ))
        no_factor ms

  factors_from-backup_code : (factors_from ms).backup_code ≡ presents method_backup_code ms
  unfolding factors_from
  factors_from-backup_code =
      marked-presents (λ f. f.backup_code) method_backup_code
        (λ m f. ground (
          arith,
          flag-mark (λ f. f.backup_code) m f,
          eq_iff m method_password,
          eq_iff m method_totp,
          eq_iff m method_email_otp,
          eq_iff m method_backup_code,
          eq_iff method_password method_backup_code,
          eq_iff method_totp method_backup_code,
          eq_iff method_email_otp method_backup_code,
        ))
        no_factor ms

  factors_from-webauthn : (factors_from ms).webauthn ≡ presents method_webauthn ms
  unfolding factors_from
  factors_from-webauthn =
      marked-presents (λ f. f.webauthn) method_webauthn
        (λ m f. ground (
          arith,
          flag-mark (λ f. f.webauthn) m f,
          eq_iff m method_password,
          eq_iff m method_totp,
          eq_iff m method_email_otp,
          eq_iff m method_backup_code,
          eq_iff m method_webauthn,
          eq_iff method_password method_webauthn,
          eq_iff method_totp method_webauthn,
          eq_iff method_email_otp method_webauthn,
          eq_iff method_backup_code method_webauthn,
        ))
        no_factor ms

  factors_from-federated : (factors_from ms).federated ≡ presents method_federated ms
  unfolding factors_from
  factors_from-federated =
      marked-presents (λ f. f.federated) method_federated
        (λ m f. ground (
          arith,
          flag-mark (λ f. f.federated) m f,
          eq_iff m method_password,
          eq_iff m method_totp,
          eq_iff m method_email_otp,
          eq_iff m method_backup_code,
          eq_iff m method_webauthn,
          eq_iff m method_federated,
          eq_iff method_password method_federated,
          eq_iff method_totp method_federated,
          eq_iff method_email_otp method_federated,
          eq_iff method_backup_code method_federated,
          eq_iff method_webauthn method_federated,
        ))
        no_factor ms

  -- The names that the claim holds, given what names the level.
  presents-amr :
      (k : String) (user_verified : Bool)
      → let f = factors_from ms in
        presents k (amr_for_methods ms user_verified)
        ≡ either
            (either
              (either
                (either
                  (f.password && str_eq amr_password k)
                  ((f.totp || f.email_otp || f.backup_code) && str_eq amr_otp k))
                (f.webauthn && str_eq amr_hardware_key k))
              ((f.webauthn && user_verified) && str_eq amr_user_verified k))
            (is_multi_factor (aal_for_methods ms user_verified) && str_eq amr_multi_factor k)
  unfolding amr_for_methods
  presents-amr k user_verified =
      presents-append_if k (is_multi_factor (aal_for_methods ms user_verified)) amr_multi_factor _ (
        presents-append_if k ((factors_from ms).webauthn && user_verified) amr_user_verified _ (
          presents-append_if k ((factors_from ms).webauthn) amr_hardware_key _ (
            presents-append_if k
              ((factors_from ms).totp
                || (factors_from ms).email_otp
                || (factors_from ms).backup_code)
              amr_otp _ (presents-append_if k ((factors_from ms).password) amr_password [] refl))))

  -- A key that verified its user, or a first factor with a factor of possession.
  abbrev pub ProvesTwoFactors : Bool → Type 0
  ProvesTwoFactors user_verified =
      ((presents method_webauthn ms ≡ true) × (user_verified ≡ true))
      ⊎ (((presents method_password ms ≡ true) ⊎ (presents method_federated ms ≡ true))
          × ((presents method_totp ms ≡ true)
              ⊎ (presents method_email_otp ms ≡ true)
              ⊎ (presents method_backup_code ms ≡ true)
              ⊎ (presents method_webauthn ms ≡ true)))

  -- The level that a login reaches is AAL2 exactly if the names that it presents hold a security key
  -- whose assertion verified the user, or a first factor (the password or another provider's word)
  -- together with a TOTP code, an email code, a backup code or a key, and else it is AAL1; AAL3 is
  -- never reached. The token's amr names "mfa" exactly at AAL2, and "pwd" exactly if the password was
  -- presented.
  pub aal_for_methods-ProvesTwoFactors :
      (user_verified : Bool)
      → let aal = aal_for_methods ms user_verified in
        let amr = amr_for_methods ms user_verified in
        (aal ≡ aal2 ↔ ProvesTwoFactors user_verified)
        × (aal ≢ aal3)
        × (presents amr_multi_factor amr ≡ true ↔ aal ≡ aal2)
        × (presents amr_password amr ≡ presents method_password ms)
  unfolding aal_for_methods amr_for_methods
  aal_for_methods-ProvesTwoFactors user_verified = (
    ground (
      arith, factors_from-password, factors_from-totp, factors_from-email_otp,
      factors_from-backup_code, factors_from-webauthn, factors_from-federated,
    ),
    ground arith,
    ground (arith, presents-amr amr_multi_factor user_verified),
    ground (arith, presents-amr amr_password user_verified, factors_from-password),
  )
