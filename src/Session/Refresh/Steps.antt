-- ===== src/Session/Refresh/Steps.antt =====
-- What holds when a step of the rotation lets the request through.
use vault.Common.{
  ℕ, ◌+◌, ◌<◌, String, ◌≡◌, false, some, List, arith, inl, inr, ◌⊎◌, Result, ok, err, eq_iff,
}
use vault.Common.Tests.{Option-cases}
use vault.Common.Results.{Result-cases}
use vault.Session.Store.{Token, User, Db, StoreError, failed, create, family_origin, get_user}
use vault.Session.Tokens.{TokenService, TokenPair, issue_rotated_pair}
use vault.Session.World.{World, attempt}
use vault.Session.Refresh.{
  Request, reading, call, enforce_session_lifetime, enforce_session_inactivity, verify_fingerprint,
  enforce_dpop_binding, Env, rotation_grant, successor_token, rotate, account_still_holds_sessions,
  is_locked,
}

-- The two worlds differ by the outages seen and the audit log alone.
abbrev pub SameDb : World → World → Type 0
SameDb v w = v.db ≡ w.db

pub attempt-reading :
    {A : Type 0} (f : Db → A) (w v : World) (r : Result StoreError A)
    → attempt (reading f) w ≡ (v, ok r)
    → (v.db ≡ w.db) × ((r ≡ ok (f w.db)) ⊎ (r ≡ err failed))
unfolding attempt
attempt-reading f w v r h = ground arith

pub call-ok :
    {A : Type 0} (op : Db → Db × Result StoreError A) (w v : World) (a : A)
    → call op w ≡ (v, ok a)
    → ((op w.db).1 ≡ ok a) × (v.db ≡ (op w.db).0)
unfolding attempt
call-ok op w v a h = ground arith

module _ (s : TokenService) (req : Request) where
  -- The family's age is within the absolute session lifetime, if there is one.
  abbrev pub IsWithinLifetime : ℕ → Type 0
  IsWithinLifetime origin =
      (s.max_session_lifetime ≡ 0) ⊎ ((0 < origin) × (req.now < origin + s.max_session_lifetime))

  pub inactivity-ok :
      (t : Token) (w v : World)
      → enforce_session_inactivity s req t w ≡ (v, ok tt)
      → (v ≡ w)
        × ((s.inactivity_timeout ≡ 0)
            ⊎ ((0 < t.created_at) × (req.now < t.created_at + s.inactivity_timeout)))
  unfolding enforce_session_inactivity attempt
  inactivity-ok t w v h = ground arith

  pub lifetime-ok :
      (t : Token) (w v : World) (origin : ℕ)
      → enforce_session_lifetime s req t w ≡ (v, ok origin)
      → (v.db ≡ w.db)
        × IsWithinLifetime origin
        × ((origin ≡ 0) ⊎ (origin ≡ family_origin t.family_id w.db))
  unfolding enforce_session_lifetime attempt
  lifetime-ok t w v origin h = ground arith

module _ (req : Request) where
  pub fingerprint-ok :
      (t : Token) (w v : World)
      → verify_fingerprint req t w ≡ (v, ok tt)
      → (v ≡ w) × ((t.fingerprint_hash ≡ "") ⊎ (t.fingerprint_hash ≡ req.fingerprint))
  unfolding verify_fingerprint attempt
  fingerprint-ok t w v h =
      ground (arith, eq_iff t.fingerprint_hash "", eq_iff t.fingerprint_hash req.fingerprint)

  pub dpop-ok :
      (t : Token) (w v : World)
      → enforce_dpop_binding req t w ≡ (v, ok tt)
      → (v ≡ w) × ((t.dpop_jkt ≡ "") ⊎ (t.dpop_jkt ≡ req.thumbprint))
  unfolding enforce_dpop_binding
  dpop-ok t w v h = ground (arith, eq_iff t.dpop_jkt "", eq_iff t.dpop_jkt req.thumbprint)

  -- The account is there, and neither erased, banned, disabled nor locked.
  pub record HoldsSessions (u : User) : Type 0 where
    pub kept : u.deleted ≡ false
    pub not_banned : u.banned ≡ false
    pub not_disabled : u.disabled ≡ false
    pub not_locked : is_locked req u ≡ false

  pub account-ok :
      (t : Token) (w v : World) (u : User)
      → account_still_holds_sessions req t w ≡ (v, ok u)
      → (v.db ≡ w.db) × (get_user t.user_id w.db ≡ some u) × HoldsSessions u
  unfolding account_still_holds_sessions attempt
  account-ok t w v u h = ground arith

module _ (env : Env) (s : TokenService) (req : Request) where
  pub record Rotates (t : Token) (roles : List String) (origin : ℕ) (w v : World) (pair : TokenPair)
      : Type 0 where
    pub pair_issued :
        issue_rotated_pair env.sign s req.now req.draws (rotation_grant env s req t roles) origin
        ≡ ok pair
    pub id : String
    pub id_drawn : req.draws.row_id ≡ some id
    pub inserted : create env.collate (successor_token env s req t pair id) w.db ≡ (v.db, ok tt)

  pub rotate-ok :
      (t : Token) (roles : List String) (origin : ℕ) (w v : World) (pair : TokenPair)
      → rotate env s req t roles origin w ≡ (v, ok pair)
      → Rotates t roles origin w v pair
  unfolding rotate attempt
  rotate-ok t roles origin w v pair h =
      let p =
        issue_rotated_pair env.sign s req.now req.draws (rotation_grant env s req t roles) origin in
      elim (Result-cases p) [
        | inr (e, q) ↦ absurd (ground arith)
        | inl (a, q) ↦ elim (Option-cases req.draws.row_id) [
          | inl q₂ ↦ absurd (ground arith)
          | inr (id, q₂) ↦ record {
            pair_issued = ground arith;
            id = id;
            id_drawn = q₂;
            inserted = ground arith;
          }
        ]
      ]
