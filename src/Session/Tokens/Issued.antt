-- ===== src/Session/Tokens/Issued.antt =====
-- A pair is issued where the random source and the signer answer (token.go).
use vault.Common.{
  ℕ, ◌+◌, String, ◌≡◌, ◌≢◌, refl, Option, none, some, ok, str_eq, str_eq-false, Option-cases, inl,
  inr,
}
use vault.Session.Tokens.{
  TokenService, TokenPair, Claims, Draws, Grant, access_claims, issue_token_pair_with_auth,
  issue_rotated_pair, refresh_expiry, clamp_expiry, session_deadline,
}
use vault.Session.Tokens.Expiry.{rotated}

-- The pair holds what was drawn.
module _ (sign : Claims → Option String) (s : TokenService) (now : ℕ) (d : Draws)
    (jti token : String) where
  issues :
      (g : Grant)
      → ((c : Claims) → sign c ≢ none)
      → d.jti ≡ some jti
      → d.refresh_token ≡ some token
      → g.family_id ≢ ""
      → (pair : TokenPair) × (issue_token_pair_with_auth sign s now d g ≡ ok pair)
        × (pair.refresh_token ≡ token)
        × (pair.family_id ≡ g.family_id)
  unfolding issue_token_pair_with_auth
  issues g signs j r n = elim (Option-cases (sign (access_claims s now jti g))) [
    | inl gone ↦ absurd (signs (access_claims s now jti g) gone)
    | inr (access, e) ↦ (
      record {
        access_token = access;
        refresh_token = token;
        expires_at = now + s.access_token_ttl;
        refresh_exp_at = refresh_expiry s now (str_eq g.family_id "") g.remember_me;
        family_id = g.family_id;
      },
      rw (j, e, r, str_eq-false g.family_id "" n) refl,
      refl,
      refl,
    )
  ]

  pub rotated-issues :
      (g : Grant) (origin : ℕ)
      → ((c : Claims) → sign c ≢ none)
      → d.jti ≡ some jti
      → d.refresh_token ≡ some token
      → g.family_id ≢ ""
      → (pair : TokenPair) × (issue_rotated_pair sign s now d g origin ≡ ok pair)
        × (pair.refresh_token ≡ token)
        × (pair.family_id ≡ g.family_id)
  unfolding issue_rotated_pair
  rotated-issues g origin signs j r n =
      let (pair, e, same, kept) = issues (rotated sign g origin) signs j r n in
      (
        record pair {
          refresh_exp_at =
              clamp_expiry pair.refresh_exp_at (session_deadline origin s.max_session_lifetime);
        },
        rw e refl,
        same,
        kept,
      )
