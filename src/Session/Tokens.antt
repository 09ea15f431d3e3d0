-- ===== src/Session/Tokens.antt =====
-- internal/service/token.go: the pair that a login or a rotation is given, and its expiry.
-- An instant of 0 is Go's zero time, a duration of 0 one that is not positive. What the random
-- source returns is an argument (`Draws`), and so is the signer: none stands for its error. An
-- empty `jkt` stands for a token without the cnf claim.
pub mod Expiry
pub mod Issued
use vault.Common.{
  ℕ, ◌+◌, ◌-◌, ◌*◌, ◌/◌, String, Bool, true, false, ◌&&◌, ◌||◌, not, Option, none, some, List, [],
  ◌∷◌, str_eq, ltb, ◌==◌, if◌then◌else◌, Result, ok, err,
}
use vault.Common.Results.{◌>>=◌, or_fail}

pub record TokenService : Type 0 where
  pub issuer : String
  pub audience : String
  pub access_token_ttl : ℕ
  pub refresh_token_ttl : ℕ
  pub remember_me_ttl : ℕ
  pub max_session_lifetime : ℕ
  pub inactivity_timeout : ℕ

pub record AuthContext : Type 0 where
  pub acr : String
  pub amr : List String
  pub auth_time : ℕ

-- vaultcrypto.VaultClaims, less MintedBy, which none of these functions sets
pub record Claims : Type 0 where
  pub issuer : String
  pub audience : String
  pub subject : String
  pub expires_at : ℕ
  pub not_before : ℕ
  pub issued_at : ℕ
  pub id : String
  pub roles : List String
  pub scopes : List String
  pub client_id : String
  pub fingerprint : String
  pub token_type : String
  pub acr : String
  pub amr : List String
  pub auth_time : ℕ
  pub factors : List String
  pub jkt : String

pub record TokenPair : Type 0 where
  pub access_token : String
  pub refresh_token : String
  pub expires_at : ℕ
  pub refresh_exp_at : ℕ
  pub family_id : String

pub record Draws : Type 0 where
  pub jti : Option String
  pub refresh_token : Option String
  pub family_id : Option String
  pub row_id : Option String

pub data IssueError : Type 0 where
  randomness : IssueError
  signing : IssueError

abbrev pub second : ℕ
second = 1_000_000_000

-- jwt.NewNumericDate: an instant, truncated to seconds.
unfoldable pub new_numeric_date : ℕ → ℕ
new_numeric_date t = t / second * second

-- The seconds from Go's zero time to the Unix epoch.
abbrev pub unix_epoch : ℕ
unix_epoch = 62_135_596_800

-- 0 for the zero instant; an instant before the epoch, whose seconds are negative, is left out.
unfoldable pub auth_time_seconds : ℕ → ℕ
auth_time_seconds t = if t == 0 then 0 else t / second - unix_epoch

-- The zero instant stands for "no bound applies".
unfoldable pub session_deadline : ℕ → ℕ → ℕ
session_deadline origin max_lifetime =
    if max_lifetime == 0 || origin == 0 then 0 else origin + max_lifetime

unfoldable pub clamp_expiry : ℕ → ℕ → ℕ
clamp_expiry exp deadline = if not (deadline == 0) && ltb deadline exp then deadline else exp

-- What one call is asked to issue.
pub record Grant : Type 0 where
  pub user_id : String
  pub roles : List String
  pub scopes : List String
  pub client_id : String
  pub fingerprint : String
  pub family_id : String
  pub remember_me : Bool
  pub auth : AuthContext
  -- dpop.Thumbprint(ctx)
  pub jkt : String

unfoldable pub access_claims : TokenService → ℕ → String → Grant → Claims
unfolding new_numeric_date auth_time_seconds
access_claims s now jti g = record {
  issuer = s.issuer;
  audience = s.audience;
  subject = g.user_id;
  expires_at = new_numeric_date (now + s.access_token_ttl);
  not_before = new_numeric_date now;
  issued_at = new_numeric_date now;
  id = jti;
  roles = g.roles;
  scopes = g.scopes;
  client_id = g.client_id;
  fingerprint = g.fingerprint;
  token_type = "Bearer";
  acr = g.auth.acr;
  amr = g.auth.amr;
  auth_time = auth_time_seconds g.auth.auth_time;
  factors = [];
  jkt = g.jkt;
}

unfoldable pub refresh_expiry : TokenService → ℕ → Bool → Bool → ℕ
unfolding session_deadline clamp_expiry
refresh_expiry s now new_family remember_me =
    let full = now + (if remember_me then s.remember_me_ttl else s.refresh_token_ttl) in
    let born =
      if new_family
      then clamp_expiry full (session_deadline now s.max_session_lifetime)
      else full in
    clamp_expiry born (session_deadline now s.inactivity_timeout)

module _ (sign : Claims → Option String) where
  unfoldable pub issue_token_pair_with_auth :
      TokenService → ℕ → Draws → Grant → Result IssueError TokenPair
  unfolding access_claims refresh_expiry
  issue_token_pair_with_auth s now draws g = do
    jti ← or_fail draws.jti randomness
    access_token ← or_fail (sign (access_claims s now jti g)) signing
    refresh_token ← or_fail draws.refresh_token randomness
    family_id ← if str_eq g.family_id "" then or_fail draws.family_id randomness else ok g.family_id
    ok (record {
      access_token = access_token;
      refresh_token = refresh_token;
      expires_at = now + s.access_token_ttl;
      refresh_exp_at = refresh_expiry s now (str_eq g.family_id "") g.remember_me;
      family_id = family_id;
    })

  -- The rotation's pair: not remembered, with the family's origin as authentication instant.
  unfoldable pub issue_rotated_pair :
      TokenService → ℕ → Draws → Grant → ℕ → Result IssueError TokenPair
  unfolding issue_token_pair_with_auth
  issue_rotated_pair s now draws g family_origin = do
    pair ← issue_token_pair_with_auth s now draws (record g {
      remember_me = false;
      auth = record { acr = ""; amr = []; auth_time = family_origin };
    })
    ok (record pair {
      refresh_exp_at =
          clamp_expiry pair.refresh_exp_at (session_deadline family_origin s.max_session_lifetime);
    })

  -- Five minutes.
  abbrev challenge_ttl : ℕ
  challenge_ttl = 300_000_000_000

  unfoldable pub issue_challenge_token :
      TokenService
      → ℕ
      → Option String
      → (user_id fingerprint jkt : String) → List String
      → Result IssueError String
  unfolding new_numeric_date
  issue_challenge_token s now draw user_id fingerprint jkt factors = do
    jti ← or_fail draw randomness
    or_fail
        (sign (record {
          issuer = s.issuer;
          audience = s.audience;
          subject = user_id;
          expires_at = new_numeric_date (now + challenge_ttl);
          not_before = new_numeric_date now;
          issued_at = new_numeric_date now;
          id = jti;
          roles = [];
          scopes = [];
          client_id = "";
          fingerprint = fingerprint;
          token_type = "2fa_challenge";
          acr = "";
          amr = [];
          auth_time = 0;
          factors = factors;
          jkt = jkt;
        }))
        signing
