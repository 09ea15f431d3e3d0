-- ===== src/Session/Refresh/Success.antt =====
-- What a rotation that succeeds has checked and done (Refresh).
use vault.Common.{
  ℕ, ◌+◌, ◌≤◌, ◌<◌, ◌≡◌, refl, Bool, true, false, some, arith, inl, inr, ◌⊎◌, ok, Bool-cases,
  Option-cases, ap, ◌∙◌, sym, ltb,
}
use vault.Session.Store.{Token, User, Db, family_origin, get_by_token_hash, mark_used, get_user}
use vault.Session.Tokens.{TokenService, TokenPair}
use vault.Session.World.{World, continue-eq-ok}
use vault.Session.Refresh.{
  Env, Request, RefreshResult, reading, updating, call, enforce_session_lifetime,
  enforce_session_inactivity, verify_fingerprint, enforce_dpop_binding,
  account_still_holds_sessions, rotate, response, spend, rotate_stored, refresh, reject_replay,
  checked,
}
use vault.Session.Refresh.Steps.{
  call-ok, IsWithinLifetime, inactivity-ok, lifetime-ok, fingerprint-ok, dpop-ok, HoldsSessions,
  account-ok, Rotates, rotate-ok,
}

updating-ok :
    (f : Db → Db × Bool) (d e : Db) (b : Bool)
    → (updating f d).1 ≡ ok b
    → e ≡ (updating f d).0
    → b ≡ true
    → f d ≡ (e, true)
updating-ok f d e b h m first = ground arith

module _ (env : Env) (s : TokenService) (req : Request) where
  -- The checks that the stored row passed.
  pub record Passes (t : Token) (origin : ℕ) (db : Db) : Type 0 where
    pub not_revoked : t.revoked ≡ false
    pub not_used : t.used ≡ false
    pub not_expired : req.now ≤ t.expires_at
    pub in_lifetime : IsWithinLifetime s req origin
    pub true_origin : (origin ≡ 0) ⊎ (origin ≡ family_origin t.family_id db)
    pub active :
        (s.inactivity_timeout ≡ 0)
        ⊎ ((0 < t.created_at) × (req.now < t.created_at + s.inactivity_timeout))
    pub same_device : (t.fingerprint_hash ≡ "") ⊎ (t.fingerprint_hash ≡ req.fingerprint)
    pub same_key : (t.dpop_jkt ≡ "") ⊎ (t.dpop_jkt ≡ req.thumbprint)

  -- What the answer of the compare-and-set led to.
  pub record Spends (t : Token) (origin : ℕ) (w v : World) (res : RefreshResult) : Type 0 where
    pub user : User
    pub account : get_user t.user_id w.db ≡ some user
    pub holds : HoldsSessions req user
    pub between : World
    pub unmoved : between.db ≡ w.db
    pub after : World
    pub pair : TokenPair
    pub rotates : Rotates env s req t (env.effective_roles user.roles) origin between after pair
    pub final : v.db ≡ after.db
    pub answer : res ≡ response env s req pair

  spend-ok :
      (t : Token) (origin : ℕ) (b : Bool) (w v : World) (res : RefreshResult)
      → spend env s req t origin b w ≡ (v, ok res)
      → (b ≡ true) × Spends t origin w v res
  unfolding spend reject_replay
  spend-ok t origin false w v res h = absurd (ground arith)
  spend-ok t origin true w v res h =
      let (w₁, user, a, h₁) = continue-eq-ok (account_still_holds_sessions req t w) _ h in
      let (w₂, pair, b, h₂) =
        continue-eq-ok (rotate env s req t (env.effective_roles user.roles) origin w₁) _ h₁ in
      let (same, row, holds) = account-ok req t w w₁ user a in
      (
        refl,
        record {
          user = user;
          account = row;
          holds = holds;
          between = w₁;
          unmoved = same;
          after = w₂;
          pair = pair;
          rotates = rotate-ok env s req t (env.effective_roles user.roles) origin w₁ w₂ pair b;
          final = ground arith;
          answer = ground arith;
        },
      )

  -- A whole rotation of the stored row.
  pub record Rotation (t : Token) (w v : World) (res : RefreshResult) : Type 0 where
    pub origin : ℕ
    pub passes : Passes t origin w.db
    pub marked : World
    pub won : mark_used t.id w.db ≡ (marked.db, true)
    pub spends : Spends t origin marked v res

  checks-ok :
      (t : Token) (w v : World) (res : RefreshResult)
      → t.revoked ≡ false
      → t.used ≡ false
      → ltb t.expires_at req.now ≡ false
      → checked env s req t w ≡ (v, ok res)
      → Rotation t w v res
  checks-ok t w v res a b c h =
      let (w₁, origin, p₁, h₁) = continue-eq-ok (enforce_session_lifetime s req t w) _ h in
      let (w₂, u₂, p₂, h₂) = continue-eq-ok (enforce_session_inactivity s req t w₁) _ h₁ in
      let (w₃, u₃, p₃, h₃) = continue-eq-ok (verify_fingerprint req t w₂) _ h₂ in
      let (w₄, u₄, p₄, h₄) = continue-eq-ok (enforce_dpop_binding req t w₃) _ h₃ in
      let (w₅, won, p₅, h₅) = continue-eq-ok (call (updating (mark_used t.id)) w₄) _ h₄ in
      let (q₁, lifetime, birth) = lifetime-ok s req t w w₁ origin p₁ in
      let (q₂, active) = inactivity-ok s req t w₁ w₂ p₂ in
      let (q₃, device) = fingerprint-ok req t w₂ w₃ p₃ in
      let (q₄, key) = dpop-ok req t w₃ w₄ p₄ in
      let (q₅, moved) = call-ok (updating (mark_used t.id)) w₄ w₅ won p₅ in
      let (first, spends) = spend-ok t origin won w₅ v res h₅ in
      let back : w₄.db ≡ w.db =
        ground (arith, q₁, ap (λ x. x.db) q₂, ap (λ x. x.db) q₃, ap (λ x. x.db) q₄) in
      record {
        origin = origin;
        passes = record {
          not_revoked = a;
          not_used = b;
          not_expired = ground arith;
          in_lifetime = lifetime;
          true_origin = birth;
          active = active;
          same_device = device;
          same_key = key;
        };
        marked = w₅;
        won =
            ap (mark_used t.id) (sym back)
            ∙ updating-ok (mark_used t.id) w₄.db w₅.db won q₅ moved first;
        spends = spends;
      }

  rotate_stored-ok :
      (t : Token) (w v : World) (res : RefreshResult)
      → rotate_stored env s req t w ≡ (v, ok res)
      → Rotation t w v res
  unfolding rotate_stored reject_replay
  rotate_stored-ok t w v res h = elim (Bool-cases t.revoked) [
    | inl a ↦ absurd (ground arith)
    | inr a ↦ elim (Bool-cases t.used) [
      | inl b ↦ absurd (ground arith)
      | inr b ↦ elim (Bool-cases (ltb t.expires_at req.now)) [
        | inl c ↦ absurd (ground arith)
        | inr c ↦ checks-ok t w v res a b c (ground arith)
      ]
    ]
  ]

  -- Refresh hands out a pair only after a full rotation of a stored token: the token presented is
  -- found by its hash; it is neither revoked nor used nor expired, and within the session lifetime
  -- and the inactivity timeout that are set; the request has the device fingerprint and the DPoP
  -- key that the token is bound to, if it is bound; the request is the one that spent the token; its
  -- account is there and neither banned, disabled nor locked; and the successor is inserted in its
  -- family, under the hash of the refresh token that is handed out.
  pub refresh-Rotation :
      (w v : World) (res : RefreshResult)
      → refresh env s req w ≡ (v, ok res)
      → (t : Token) × (get_by_token_hash (env.hash req.refresh_token) w.db ≡ some t)
        × (looked : World) × (looked.db ≡ w.db)
        × Rotation t looked v res
  unfolding refresh
  refresh-Rotation w v res h =
      let (w₁, o, p, h₁) =
        continue-eq-ok (call (reading (get_by_token_hash (env.hash req.refresh_token))) w) _ h in
      let (q, same) = call-ok (reading (get_by_token_hash (env.hash req.refresh_token))) w w₁ o p in
      elim (Option-cases o) [
        | inl n ↦ absurd (ground arith)
        | inr (t, e) ↦ (t, ground arith, w₁, same, rotate_stored-ok t w₁ v res (ground arith))
      ]
