-- ===== src/Session/Refresh/Progress.antt =====
-- A rotation that nothing stands against goes through (Refresh), and what it leaves behind.
use vault.Common.{
  String, ◌≡◌, ◌≢◌, refl, true, false, ◌&&◌, ◌||◌, not, none, some, List, [], ◌∷◌, ◌++◌, arith, ok,
  ap, sym, subst, ◌∙◌, str_eq, eq_iff, eq_refl, exists, keep, length,
}
use vault.Session.Store.{
  Token, User, Db, create, family, family_origin, get_by_token_hash, mark_used, get_user,
  is_spendable, successor,
}
use vault.Session.Store.Lookups.{
  affected-le, affected-found, revoked-update, clashes-update, found-misses, find_user-exists,
  create-inserts, get-first, found-row,
}
use vault.Session.Store.Statements.{creates, exec, here, next}
use vault.Session.Store.Spent.{spent_once}
use vault.Session.Tokens.{TokenService, TokenPair, Claims}
use vault.Session.Tokens.Issued.{rotated-issues}
use vault.Session.World.{AuditEvent, token_refresh}
use vault.Session.Refresh.{Env, Request, rotation_grant, successor_token, response, refresh}
use vault.Session.Refresh.Steps.{HoldsSessions}
use vault.Session.Refresh.Success.{Passes}
use vault.Session.Refresh.Onward.{healthy, Serves, rotates}

module _ (env : Env) (s : TokenService) (req : Request) (t : Token) (db : Db) where
  -- What the request draws, and the account and the rows that it meets: the account may hold sessions,
  -- one row has the token's id, no row of its family is revoked, and the new row's id and hash are free.
  pub record IsServed : Type 0 where
    pub user : User
    pub account : get_user t.user_id db ≡ some user
    pub holds : HoldsSessions req user
    pub named : t.family_id ≢ ""
    pub signs : (c : Claims) → env.sign c ≢ none
    pub jti : String
    pub jti_drawn : req.draws.jti ≡ some jti
    pub token : String
    pub token_drawn : req.draws.refresh_token ≡ some token
    pub id : String
    pub id_drawn : req.draws.row_id ≡ some id
    pub one_row : length (keep (λ r. str_eq r.id t.id) db.tokens) ≡ 1
    pub unrevoked : exists (λ r. r.revoked) (family t.family_id db) ≡ false
    pub free :
        exists (λ r. str_eq r.id id || str_eq r.token_hash (env.hash token)) db.tokens ≡ false

  -- The table and the answer of a rotation: a further compare-and-set on the token fails, and the
  -- pair's refresh token finds its successor, neither used nor revoked, in the same family.
  pub record IsRotated (v : IsServed) (d : Db) (pair : TokenPair) : Type 0 where
    pub table : d ≡ record db {
      tokens =
          successor env.collate
            (family t.family_id (mark_used t.id db).0)
            (successor_token env s req t pair v.id)
          ∷ (mark_used t.id db).0.tokens;
    }
    pub handed : pair.refresh_token ≡ v.token
    pub spent : (mark_used t.id d).1 ≡ false
    pub next :
        (n : Token) × (get_by_token_hash (env.hash pair.refresh_token) d ≡ some n)
        × (n.id ≡ v.id)
        × (n.family_id ≡ t.family_id)
        × (n.used ≡ false)
        × (n.revoked ≡ false)

module _ (env : Env) (s : TokenService) (req : Request) (t : Token) (db : Db)
    (v : IsServed env s req t db) where
  serves-won :
      get_by_token_hash (env.hash req.refresh_token) db ≡ some t
      → t.used ≡ false
      → t.revoked ≡ false
      → (mark_used t.id db).1 ≡ true
  unfolding mark_used
  serves-won look unused unrevoked =
      let (x, e, same) = found-row (env.hash req.refresh_token) db t look in
      let able : is_spendable t.id x ≡ true =
        subst (λ y. (str_eq y.id t.id && not y.used && not y.revoked) ≡ true) (sym same)
          (ground (arith, unused, unrevoked, eq_refl t.id)) in
      let low =
        affected-found t.id (λ r. str_eq r.token_hash (env.hash req.refresh_token)) db.tokens x e
          able in
      let high = affected-le t.id db.tokens in let one = v.one_row in ground (arith, low, high, one)

  other_id : get_by_token_hash (env.hash req.refresh_token) db ≡ some t → v.id ≢ t.id
  other_id look same =
      let (x, e, at) = found-row (env.hash req.refresh_token) db t look in
      let free =
        found-misses (λ r. str_eq r.token_hash (env.hash req.refresh_token))
          (λ r. str_eq r.id v.id || str_eq r.token_hash (env.hash v.token)) db.tokens x e v.free in
      let hit : x.id ≡ v.id = ap (λ y. y.id) at ∙ sym same in
      absurd (ground (arith, free, eq_iff x.id v.id, hit))

  serves-inserts :
      (pair : TokenPair)
      → pair.refresh_token ≡ v.token
      → create env.collate (successor_token env s req t pair v.id) (mark_used t.id db).0 ≡ (
        record db {
          tokens =
              successor env.collate
                (family t.family_id (mark_used t.id db).0)
                (successor_token env s req t pair v.id)
              ∷ (mark_used t.id db).0.tokens;
        },
        ok tt,
      )
  unfolding mark_used get_user
  serves-inserts pair handed =
      create-inserts env.collate (successor_token env s req t pair v.id) (mark_used t.id db).0
        (revoked-update t.id t.family_id db.tokens ∙ v.unrevoked)
        (find_user-exists t.user_id db.users v.user v.account v.holds.kept)
        (clashes-update t.id (successor_token env s req t pair v.id) db.tokens
          ∙ subst
              (λ h.
                exists (λ r. str_eq r.id v.id || str_eq r.token_hash (env.hash h)) db.tokens
                ≡ false)
              (sym handed) v.free)

  serves-IsRotated :
      (pair : TokenPair)
      → get_by_token_hash (env.hash req.refresh_token) db ≡ some t
      → pair.refresh_token ≡ v.token
      → IsRotated env s req t db v
          (record db {
            tokens =
                successor env.collate
                  (family t.family_id (mark_used t.id db).0)
                  (successor_token env s req t pair v.id)
                ∷ (mark_used t.id db).0.tokens;
          })
          pair
  unfolding successor exec
  serves-IsRotated pair look handed = record {
    table = refl;
    handed = handed;
    spent =
        subst (λ d. (mark_used t.id d).1 ≡ false) (ap (λ r. r.0) (serves-inserts pair handed))
          (spent_once env.collate t.id db
            (exec env.collate (mark_used t.id db).0
              (creates (successor_token env s req t pair v.id)))
            (next here (creates (successor_token env s req t pair v.id)) (other_id look)));
    next = (
      (successor env.collate (family t.family_id (mark_used t.id db).0)
          (successor_token env s req t pair v.id)).token,
      get-first _ _ _ db (eq_refl (env.hash pair.refresh_token)),
      refl,
      refl,
      refl,
      refl,
    );
  }

  -- Without an outage, a token that is found by its hash, whose id one row has and whose family has a
  -- name, and that passes every check, is rotated, if its account may hold sessions, no row of its
  -- family is revoked, the random source and the signer answer, and the drawn id and the drawn
  -- token's hash are free. Refresh answers with a pair of the drawn token; the table has gained the
  -- successor and is otherwise as the compare-and-set left it, and a further compare-and-set on the
  -- token that was presented fails. The new token finds the successor, of the same family and neither
  -- used nor revoked; the audit log has gained the rotation.
  pub refresh_goes_through :
      (audit : List AuditEvent)
      → get_by_token_hash (env.hash req.refresh_token) db ≡ some t
      → Passes env s req t (family_origin t.family_id db) db
      → (pair : TokenPair) × (d : Db) × (refresh env s req (healthy db audit)
          ≡ (healthy d (audit ++ token_refresh t.user_id ∷ []), ok (response env s req pair)))
        × IsRotated env s req t db v d pair
  refresh_goes_through audit look p =
      let user = v.user in
      let g = rotation_grant env s req t (env.effective_roles user.roles) in
      let (pair, e, handed, kept) =
        rotated-issues env.sign s req.now req.draws v.jti v.token g (family_origin t.family_id db)
          v.signs v.jti_drawn v.token_drawn v.named in
      let stored = serves-inserts pair handed in
      let serves : Serves env s req t db pair = record {
        user = v.user;
        account = v.account;
        holds = v.holds;
        pair_issued = e;
        id = v.id;
        id_drawn = v.id_drawn;
        accepted = ap (λ r. r.1) stored;
      } in
      let answered =
        rotates env s req t audit db pair look p (serves-won look p.not_used p.not_revoked)
          serves in
      (
        pair,
        _,
        answered
            ∙ ap
                (λ r. (
                  healthy r.0 (audit ++ token_refresh t.user_id ∷ []),
                  ok (response env s req pair),
                ))
                stored,
        serves-IsRotated pair look handed,
      )
