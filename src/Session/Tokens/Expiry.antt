-- ===== src/Session/Tokens/Expiry.antt =====
-- The bounds on a refresh token's expiry (clampExpiry, sessionDeadline).
use vault.Common.{
  ℕ, ◌+◌, ◌≤◌, ◌<◌, String, ◌≡◌, ◌≢◌, refl, Bool, true, false, Option, none, some, [], arith, ◌⊎◌,
  str_eq, ok, if◌then◌else◌, ◌∙◌, eq_iff, str_eq-false,
}
use vault.Common.Results.{or_fail, >>=-eq-ok}
use vault.Session.Tokens.{
  TokenService, Claims, TokenPair, Draws, Grant, session_deadline, clamp_expiry, access_claims,
  refresh_expiry, issue_token_pair_with_auth, issue_rotated_pair,
}

-- The expiry honours the bound `d` from the instant `t`, where both are set.
abbrev pub Honours : ℕ → ℕ → ℕ → Type 0
Honours exp t d = (d ≡ 0) ⊎ (t ≡ 0) ⊎ (exp ≤ t + d)

-- An expiry is the earliest of the bounds that are set, a bound being set if its instant and its
-- duration are: it passes none of them, and it is one of them.
pub record IsEarliest (exp full origin lifetime now idle : ℕ) : Type 0 where
  pub in_ttl : exp ≤ full
  pub in_lifetime : Honours exp origin lifetime
  pub in_idle : Honours exp now idle
  pub attained :
      (exp ≡ full)
      ⊎ ((0 < origin) × (0 < lifetime) × (exp ≡ origin + lifetime))
      ⊎ ((0 < now) × (0 < idle) × (exp ≡ now + idle))

clamps-IsEarliest :
    (full origin lifetime now idle : ℕ)
    → IsEarliest
        (clamp_expiry
          (clamp_expiry full (session_deadline now idle))
          (session_deadline origin lifetime))
        full
        origin
        lifetime
        now
        idle
unfolding clamp_expiry session_deadline
clamps-IsEarliest full origin lifetime now idle = record {
  in_ttl = ground arith;
  in_lifetime = ground arith;
  in_idle = ground arith;
  attained = ground arith;
}

login-IsEarliest :
    (s : TokenService) (now : ℕ) (remember : Bool)
    → IsEarliest
        (refresh_expiry s now true remember)
        (now + (if remember then s.remember_me_ttl else s.refresh_token_ttl))
        now
        s.max_session_lifetime
        now
        s.inactivity_timeout
unfolding refresh_expiry
login-IsEarliest s now remember = record {
  in_ttl = ground arith;
  in_lifetime = ground arith;
  in_idle = ground arith;
  attained = ground arith;
}

module _ (sign : Claims → Option String) where
  -- The claims of a rotated access token: the authentication instant is the family's origin, no
  -- factor is restated, and the sender constraint is the grant's.
  abbrev pub rotated : Grant → ℕ → Grant
  rotated g origin = record g {
    remember_me = false;
    auth = record { acr = ""; amr = []; auth_time = origin };
  }

  pub record IsPair (s : TokenService) (now : ℕ) (draws : Draws) (g : Grant) (p : TokenPair)
      : Type 0 where
    pub jti : String
    pub drawn : draws.jti ≡ some jti
    pub signed : sign (access_claims s now jti g) ≡ some p.access_token
    pub opaque : draws.refresh_token ≡ some p.refresh_token
    pub family :
        (if str_eq g.family_id "" then draws.family_id else some g.family_id) ≡ some p.family_id
    pub expiry : p.refresh_exp_at ≡ refresh_expiry s now (str_eq g.family_id "") g.remember_me
    pub access_expiry : p.expires_at ≡ now + s.access_token_ttl

  pub or_fail-eq-ok :
      {E A : Type 0} (o : Option A) (e : E) {a : A} → or_fail o e ≡ ok a → o ≡ some a
  or_fail-eq-ok none e h = cc
  or_fail-eq-ok (some b) e h = cc

  issue-IsPair :
      (s : TokenService) (now : ℕ) (draws : Draws) (g : Grant) (p : TokenPair)
      → issue_token_pair_with_auth sign s now draws g ≡ ok p
      → IsPair s now draws g p
  unfolding issue_token_pair_with_auth
  issue-IsPair s now draws g p h =
      let (jti, a, h₁) = >>=-eq-ok (or_fail draws.jti _) _ h in
      let (access, b, h₂) = >>=-eq-ok (or_fail (sign (access_claims s now jti g)) _) _ h₁ in
      let (refresh, c, h₃) = >>=-eq-ok (or_fail draws.refresh_token _) _ h₂ in
      let (family, d, h₄) =
        >>=-eq-ok (if str_eq g.family_id "" then or_fail draws.family_id _ else ok g.family_id) _
          h₃ in
      record {
        jti = jti;
        drawn = or_fail-eq-ok draws.jti _ a;
        signed = ground (arith, or_fail-eq-ok (sign (access_claims s now jti g)) _ b);
        opaque = ground (arith, or_fail-eq-ok draws.refresh_token _ c);
        family = ground arith;
        expiry = ground arith;
        access_expiry = ground arith;
      }

  -- A login's refresh token expires at the earliest of its TTL, the absolute session lifetime and
  -- the inactivity timeout, all from now; a bound that is not set does not count.
  login_expiry :
      (s : TokenService) (now : ℕ) (draws : Draws) (g : Grant) (p : TokenPair)
      → issue_token_pair_with_auth sign s now draws g ≡ ok p
      → g.family_id ≡ ""
      → IsEarliest p.refresh_exp_at
          (now + (if g.remember_me then s.remember_me_ttl else s.refresh_token_ttl))
          now
          s.max_session_lifetime
          now
          s.inactivity_timeout
  login_expiry s now draws g p h e =
      let v = issue-IsPair s now draws g p h in
      let new : str_eq g.family_id "" ≡ true = (eq_iff g.family_id "").1 e in
      rw (v.expiry, new) (login-IsEarliest s now g.remember_me)

  expiry-rotated :
      (s : TokenService) (now : ℕ)
      → refresh_expiry s now false false
        ≡ clamp_expiry (now + s.refresh_token_ttl) (session_deadline now s.inactivity_timeout)
  unfolding refresh_expiry
  expiry-rotated s now = refl

  -- A rotated refresh token stays in its family and expires at the earliest of the refresh TTL and
  -- the inactivity timeout from now and the session lifetime from the given origin, where a timeout
  -- or a lifetime that is not set, or an unknown origin, does not count: however often it is
  -- rotated, no expiry passes the origin's deadline. The access token is the signature of the
  -- grant's claims, with the origin as authentication instant and no factors restated.
  pub rotated_expiry :
      (s : TokenService) (now : ℕ) (draws : Draws) (g : Grant) (origin : ℕ) (p : TokenPair)
      → issue_rotated_pair sign s now draws g origin ≡ ok p
      → g.family_id ≢ ""
      → IsEarliest p.refresh_exp_at
          (now + s.refresh_token_ttl)
          origin
          s.max_session_lifetime
          now
          s.inactivity_timeout
        × (p.family_id ≡ g.family_id)
        × ((jti : String) × (sign (access_claims s now jti (rotated g origin))
              ≡ some p.access_token))
  unfolding issue_rotated_pair
  rotated_expiry s now draws g origin p h n =
      let (q, issued, clamped) =
        >>=-eq-ok (issue_token_pair_with_auth sign s now draws (rotated g origin)) _ h in
      let v = issue-IsPair s now draws (rotated g origin) q issued in
      let old : str_eq g.family_id "" ≡ false = str_eq-false g.family_id "" n in
      let exp : q.refresh_exp_at
          ≡ clamp_expiry (now + s.refresh_token_ttl) (session_deadline now s.inactivity_timeout) =
        v.expiry ∙ rw old (expiry-rotated s now) in
      let same : p.refresh_exp_at
          ≡ clamp_expiry q.refresh_exp_at (session_deadline origin s.max_session_lifetime) =
        ground (arith, clamped) in
      (
        rw (same, exp)
            (clamps-IsEarliest (now + s.refresh_token_ttl) origin s.max_session_lifetime now
              s.inactivity_timeout),
        ground (arith, clamped, v.family, old),
        (v.jti, ground (arith, clamped, v.signed)),
      )
