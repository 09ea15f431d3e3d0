-- ===== src/Session/Refresh/Onward.antt =====
-- A rotation that nothing stands against goes through (Refresh).
use vault.Common.{
  ℕ, ◌+◌, ◌<◌, String, ◌≡◌, refl, true, false, some, List, [], ◌∷◌, ◌++◌, arith, ◌⊎◌, ok, ◌∙◌, ltb,
  eq_iff,
}
use vault.Session.Store.{
  Token, User, Db, create, family_origin, get_by_token_hash, mark_used, get_user,
}
use vault.Session.Tokens.{TokenService, TokenPair, issue_rotated_pair}
use vault.Session.World.{World, AuditEvent, token_refresh, M, ◌>>=◌, attempt}
use vault.Session.Refresh.{
  Env, Request, updating, call, enforce_session_lifetime, enforce_session_inactivity,
  verify_fingerprint, enforce_dpop_binding, account_still_holds_sessions, rotation_grant,
  successor_token, rotate, response, spend, rotate_stored, refresh, checked, judge_insert,
}
use vault.Session.Refresh.Steps.{IsWithinLifetime, HoldsSessions}
use vault.Session.Refresh.Success.{Passes}

-- A world that will see no outage.
abbrev pub healthy : Db → List AuditEvent → World
healthy db audit = record { db = db; faults = []; audit = audit }

then-ok :
    {A B : Type 0} (m : M A) (k : A → M B) (w v : World) (a : A)
    → m w ≡ (v, ok a)
    → (m >>= k) w ≡ k a v
then-ok m k w v a h = rw h refl

-- What the account, the issuance and the insert have to answer.
pub record Serves (env : Env) (s : TokenService) (req : Request) (t : Token) (db : Db)
    (pair : TokenPair) : Type 0 where
  pub user : User
  pub account : get_user t.user_id db ≡ some user
  pub holds : HoldsSessions req user
  pub pair_issued :
      issue_rotated_pair env.sign s req.now req.draws
        (rotation_grant env s req t (env.effective_roles user.roles))
        (family_origin t.family_id db)
      ≡ ok pair
  pub id : String
  pub id_drawn : req.draws.row_id ≡ some id
  pub accepted :
      (create env.collate (successor_token env s req t pair id) (mark_used t.id db).0).1 ≡ ok tt

module _ (env : Env) (s : TokenService) (req : Request) (t : Token) (db : Db)
    (audit : List AuditEvent) where
  lifetime_goes_on :
      IsWithinLifetime s req (family_origin t.family_id db)
      → enforce_session_lifetime s req t (healthy db audit)
        ≡ (healthy db audit, ok (family_origin t.family_id db))
  unfolding enforce_session_lifetime attempt
  lifetime_goes_on h = ground arith

  inactivity_goes_on :
      (s.inactivity_timeout ≡ 0)
        ⊎ ((0 < t.created_at) × (req.now < t.created_at + s.inactivity_timeout))
      → enforce_session_inactivity s req t (healthy db audit) ≡ (healthy db audit, ok tt)
  unfolding enforce_session_inactivity
  inactivity_goes_on h = ground arith

  fingerprint_goes_on :
      (t.fingerprint_hash ≡ "") ⊎ (t.fingerprint_hash ≡ req.fingerprint)
      → verify_fingerprint req t (healthy db audit) ≡ (healthy db audit, ok tt)
  unfolding verify_fingerprint
  fingerprint_goes_on h =
      ground (arith, eq_iff t.fingerprint_hash "", eq_iff t.fingerprint_hash req.fingerprint)

  dpop_goes_on :
      (t.dpop_jkt ≡ "") ⊎ (t.dpop_jkt ≡ req.thumbprint)
      → enforce_dpop_binding req t (healthy db audit) ≡ (healthy db audit, ok tt)
  unfolding enforce_dpop_binding
  dpop_goes_on h =
      ground
        (arith, eq_iff t.dpop_jkt "", eq_iff t.dpop_jkt req.thumbprint, eq_iff req.thumbprint "")

  mark_goes_on :
      (mark_used t.id db).1 ≡ true
      → call (updating (mark_used t.id)) (healthy db audit)
        ≡ (healthy (mark_used t.id db).0 audit, ok true)
  unfolding attempt
  mark_goes_on h = ground arith

  account_goes_on :
      (u : User)
      → get_user t.user_id db ≡ some u
      → HoldsSessions req u
      → account_still_holds_sessions req t (healthy db audit) ≡ (healthy db audit, ok u)
  unfolding account_still_holds_sessions attempt
  account_goes_on u h v = ground (arith, v.kept, v.not_banned, v.not_disabled, v.not_locked)

  rotate_goes_on :
      (roles : List String) (origin : ℕ) (pair : TokenPair) (id : String)
      → issue_rotated_pair env.sign s req.now req.draws (rotation_grant env s req t roles) origin
        ≡ ok pair
      → req.draws.row_id ≡ some id
      → (create env.collate (successor_token env s req t pair id) db).1 ≡ ok tt
      → rotate env s req t roles origin (healthy db audit)
        ≡ (healthy (create env.collate (successor_token env s req t pair id) db).0 audit, ok pair)
  unfolding rotate attempt judge_insert
  rotate_goes_on roles origin pair id h i c = ground (arith, h, i, c)

mark_used-users : (i : String) (db : Db) → get_user i (mark_used i db).0 ≡ get_user i db
unfolding mark_used get_user
mark_used-users i db = refl

module _ (env : Env) (s : TokenService) (req : Request) (t : Token) (audit : List AuditEvent) where
  -- The table after the compare-and-set and the insert of the successor.
  abbrev pub after : Db → TokenPair → String → Db
  after db pair id =
      (create env.collate (successor_token env s req t pair id) (mark_used t.id db).0).0

  spend_goes_on :
      (db : Db) (pair : TokenPair)
      → (v : Serves env s req t db pair)
      → spend env s req t (family_origin t.family_id db) true (healthy (mark_used t.id db).0 audit)
        ≡ (
          healthy (after db pair v.id) (audit ++ token_refresh t.user_id ∷ []),
          ok (response env s req pair),
        )
  unfolding spend mark_used get_user
  spend_goes_on db pair v =
      let next = (mark_used t.id db).0 in
      (then-ok (account_still_holds_sessions req t) _ (healthy next audit) (healthy next audit)
          v.user (account_goes_on env s req t next audit v.user v.account v.holds)
        ∙ then-ok
            (rotate env s req t (env.effective_roles v.user.roles) (family_origin t.family_id db)) _
            (healthy next audit) _ pair
            (rotate_goes_on env s req t next audit (env.effective_roles v.user.roles)
              (family_origin t.family_id db) pair v.id v.pair_issued v.id_drawn v.accepted))

  checked_goes_on :
      (db : Db) (pair : TokenPair)
      → Passes env s req t (family_origin t.family_id db) db
      → (mark_used t.id db).1 ≡ true
      → (v : Serves env s req t db pair)
      → checked env s req t (healthy db audit) ≡ (
        healthy (after db pair v.id) (audit ++ token_refresh t.user_id ∷ []),
        ok (response env s req pair),
      )
  checked_goes_on db pair p won v =
      let w = healthy db audit in
      let o = family_origin t.family_id db in
      (then-ok (enforce_session_lifetime s req t) _ w w o
          (lifetime_goes_on env s req t db audit p.in_lifetime)
        ∙ then-ok (enforce_session_inactivity s req t) _ w w tt
            (inactivity_goes_on env s req t db audit p.active)
        ∙ then-ok (verify_fingerprint req t) _ w w tt
            (fingerprint_goes_on env s req t db audit p.same_device)
        ∙ then-ok (enforce_dpop_binding req t) _ w w tt
            (dpop_goes_on env s req t db audit p.same_key)
        ∙ then-ok (call (updating (mark_used t.id))) _ w (healthy (mark_used t.id db).0 audit) true
            (mark_goes_on env s req t db audit won))
      ∙ spend_goes_on db pair v

  stored-checked :
      (db : Db) (w : World)
      → Passes env s req t (family_origin t.family_id db) db
      → rotate_stored env s req t w ≡ checked env s req t w
  unfolding rotate_stored
  stored-checked db w p =
      let fresh : ltb t.expires_at req.now ≡ false = ground (arith, p.not_expired) in
      ground (arith, p.not_revoked, p.not_used, fresh)

  pub rotates :
      (db : Db) (pair : TokenPair)
      → get_by_token_hash (env.hash req.refresh_token) db ≡ some t
      → Passes env s req t (family_origin t.family_id db) db
      → (mark_used t.id db).1 ≡ true
      → (v : Serves env s req t db pair)
      → refresh env s req (healthy db audit) ≡ (
        healthy (after db pair v.id) (audit ++ token_refresh t.user_id ∷ []),
        ok (response env s req pair),
      )
  unfolding refresh attempt
  rotates db pair look p won v =
      rw look (stored-checked db (healthy db audit) p ∙ checked_goes_on db pair p won v)
