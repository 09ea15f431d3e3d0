-- ===== src/Session/Auth/Login/Steps.antt =====
-- What a step of the login leaves as it was, and what its success says (auth.go).
use vault.Common.{
  ℕ, String, ◌≡◌, refl, arith, Bool, false, some, inl, inr, Result, ok, Bool-cases, Option-cases,
  str_eq,
}
use vault.Common.Results.{Result-cases}
use vault.Session.Store.{Db, StoreError, create_within_cap}
use vault.Session.Store.Accounts.{create_device, update_last_seen, set_last_login, get_rate_limit}
use vault.Session.Tokens.{TokenService, TokenPair, issue_token_pair_with_auth}
use vault.Session.World.{World, Error, attempt}
use vault.Session.Refresh.{
  Env, reading, call, store_refresh_token, login_token, check_session_limit, judge_count,
}
use vault.Session.Opening.{Caller, Opening, find_or_create_device, open_session, login_grant}
use vault.Session.Auth.{
  AuthService, AuthState, on_world, is_ip_locked, locked_by_cache, ip_key, window_of, counted,
  account_locked_now, Verification, verified, wrong, unreadable, argon2_overloaded,
}
use vault.Session.Auth.Login.{after}

-- A statement always has an answer.
pub attempt-answers :
    {X : Type 0} (op : Db → Db × Result StoreError X) (w : World)
    → (v : World) × (r : Result StoreError X) × (attempt op w ≡ (v, ok r))
unfolding attempt
attempt-answers op w = elim (Result-cases (attempt op w).1) [
  | inl (r, e) ↦ ((attempt op w).0, r, ground arith)
  | inr (x, e) ↦ absurd (ground arith)
]

-- All but the outages seen is as it was.
pub record IsQuiet {C : Type 0} (a b : AuthState C) : Type 0 where
  pub db : b.world.db ≡ a.world.db
  pub audit : b.world.audit ≡ a.world.audit
  pub cache : b.cache ≡ a.cache
  pub refused_at : b.refused_at ≡ a.refused_at
  pub readable : b.readable ≡ a.readable
  pub deferred : b.deferred ≡ a.deferred

module _ {C : Type 0} where
  pub IsQuiet-then : (a b c : AuthState C) → IsQuiet a b → IsQuiet b c → IsQuiet a c
  IsQuiet-then a b c p q = record {
    db = cc;
    audit = cc;
    cache = cc;
    refused_at = cc;
    readable = cc;
    deferred = cc;
  }

  IsQuiet-refl : (a : AuthState C) → IsQuiet a a
  IsQuiet-refl a = record {
    db = refl;
    audit = refl;
    cache = refl;
    refused_at = refl;
    readable = refl;
    deferred = refl;
  }

  pub reading-IsQuiet :
      {X : Type 0} (f : Db → X) (a : AuthState C) (w : World) (r : Result StoreError X)
      → attempt (reading f) a.world ≡ (w, ok r)
      → IsQuiet a (record a { world = w })
  unfolding attempt
  reading-IsQuiet f a w r h = record {
    db = ground arith;
    audit = ground arith;
    cache = ground arith;
    refused_at = ground arith;
    readable = ground arith;
    deferred = ground arith;
  }

  pub call-IsQuiet :
      {X : Type 0} (f : Db → X) (a b : AuthState C) (x : X)
      → on_world (call (reading f)) a ≡ (b, ok x)
      → (x ≡ f a.world.db) × IsQuiet a b
  unfolding attempt
  call-IsQuiet f a b x h = (
    ground arith,
    record {
      db = ground arith;
      audit = ground arith;
      cache = ground arith;
      refused_at = ground arith;
      readable = ground arith;
      deferred = ground arith;
    },
  )

  pub after-refuses :
      {X : Type 0} (v : Verification) (f : AuthState C → AuthState C) (e : Error)
      (a b : AuthState C) (x : X)
      → after v f e a ≡ (b, ok x)
      → ⊥
  after-refuses verified f e a b x h = ground arith
  after-refuses wrong f e a b x h = ground arith
  after-refuses unreadable f e a b x h = ground arith
  after-refuses argon2_overloaded f e a b x h = ground arith

  module _ (s : AuthService C) (at : Caller) where
    -- The question about the address always has an answer, and asking changes nothing.
    pub is_ip_locked-IsQuiet :
        (a : AuthState C)
        → (b : AuthState C) × (l : Bool) × (is_ip_locked s at a ≡ (b, ok l)) × IsQuiet a b
    unfolding is_ip_locked
    is_ip_locked-IsQuiet a = elim (Bool-cases (str_eq at.ip "")) [
      | inl e ↦ (a, false, ground arith, IsQuiet-refl a)
      | inr e ↦ elim (Option-cases a.cache) [
        | inr (c, e₂) ↦ (a, locked_by_cache s at c, ground arith, IsQuiet-refl a)
        | inl e₂ ↦ elim (Bool-cases s.has_rate_limits) [
          | inr e₃ ↦ (a, false, ground arith, IsQuiet-refl a)
          | inl e₃ ↦
              let f = get_rate_limit (ip_key at.ip) (window_of at.now) in
              let (w, r, p) = attempt-answers (reading f) a.world in
              (record a { world = w }, counted r, ground arith, reading-IsQuiet f a w r p)
        ]
      ]
    ]

    pub account_locked_now-same :
        (user : String) (a b : AuthState C)
        → IsQuiet a b
        → account_locked_now s at user b ≡ account_locked_now s at user a
    account_locked_now-same user a b q = cc

pub limit-unmoved :
    (limit : ℕ) (strict : Bool) (now : ℕ) (user : String) (w v : World) (u : Unit {0})
    → check_session_limit limit strict now user w ≡ (v, ok u)
    → v.db ≡ w.db
unfolding check_session_limit judge_count attempt
limit-unmoved limit strict now user w v u h = ground arith

module _ (at : Caller) (user : String) where
  pub device-unmoved :
      (w v : World) (d : String)
      → find_or_create_device at user w ≡ (v, ok d)
      → v.db.tokens ≡ w.db.tokens
  unfolding find_or_create_device attempt create_device update_last_seen
  device-unmoved w v d h = ground arith

  pub device-unmoved_users :
      (w v : World) (d : String)
      → find_or_create_device at user w ≡ (v, ok d)
      → v.db.users ≡ w.db.users
  unfolding find_or_create_device attempt create_device update_last_seen
  device-unmoved_users w v d h = ground arith

module _ (env : Env) (tokens : TokenService) (limit : ℕ) (at : Caller) (o : Opening) where
  -- The pair was issued, and its row is the one that the table gained.
  pub record Opens (device : String) (w v : World) (pair : TokenPair) : Type 0 where
    pub pair_issued :
        issue_token_pair_with_auth env.sign tokens at.now at.draws (login_grant at o) ≡ ok pair
    pub id : String
    pub id_drawn : at.draws.row_id ≡ some id
    pub after_insert : Db
    pub inserted :
        create_within_cap env.collate at.now
          (login_token env at.now id o.user_id o.client_id device at.fingerprint at.thumbprint pair)
          limit
          w.db
        ≡ (after_insert, ok tt)
    pub kept : v.db.tokens ≡ after_insert.tokens

  pub open_session-Opens :
      (device : String) (w v : World) (pair : TokenPair)
      → open_session env tokens limit at o device w ≡ (v, ok pair)
      → Opens device w v pair
  unfolding open_session store_refresh_token attempt set_last_login
  open_session-Opens device w v pair h =
      elim (Result-cases
        (issue_token_pair_with_auth env.sign tokens at.now at.draws (login_grant at o))) [
          | inr (e, q) ↦ absurd (ground arith)
          | inl (p, q) ↦ elim (Option-cases at.draws.row_id) [
            | inl q₂ ↦ absurd (ground arith)
            | inr (id, q₂) ↦
                let t =
                  login_token env at.now id o.user_id o.client_id device at.fingerprint
                    at.thumbprint pair in
                record {
                  pair_issued = ground arith;
                  id = id;
                  id_drawn = q₂;
                  after_insert = (create_within_cap env.collate at.now t limit w.db).0;
                  inserted = ground arith;
                  kept = ground arith;
                }
          ]
        ]
