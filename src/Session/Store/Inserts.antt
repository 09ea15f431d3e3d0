-- ===== src/Session/Store/Inserts.antt =====
-- What an insert does: nothing, or one row in front, under the guards of insertRefreshRowSQL.
use vault.Common.{
  ℕ, String, ◌≡◌, Bool, true, false, not, ◌∷◌, arith, ◌⊎◌, inl, inr, exists, Result, ok, err,
  Bool-cases, ◌==◌, leb, ◌||◌,
}
use vault.Session.Store.{
  Token, Db, family, user_exists, successor, clashes, create, create_within_cap,
  count_active_families, StoreError, family_revoked, session_limit_reached, failed,
}

module _ (collate : String → String → Bool) where
  -- The guards under which a row is inserted, and the table then.
  pub record Inserts (t : Token) (db : Db) (p : Db × Result StoreError (Unit {0})) : Type 0 where
    pub no_revoked : exists (λ r. r.revoked) (family t.family_id db) ≡ false
    pub account : user_exists t.user_id db.users ≡ true
    pub unique : clashes t db.tokens ≡ false
    pub result : p.1 ≡ ok tt
    pub users : p.0.users ≡ db.users
    pub table : p.0.tokens ≡ successor collate (family t.family_id db) t ∷ db.tokens

  abbrev pub Refuses : Db → Db × Result StoreError (Unit {0}) → Type 0
  Refuses db p = (e : StoreError) × (p ≡ (db, err e))

  pub create-cases :
      (t : Token) (db : Db) → Refuses db (create collate t db) ⊎ Inserts t db (create collate t db)
  unfolding create
  create-cases t db =
      elim (Bool-cases
        (exists (λ r. r.revoked) (family t.family_id db) || not (user_exists t.user_id db.users))) [
          | inl a ↦ inl (family_revoked, rw (a, create))
          | inr a ↦ elim (Bool-cases (clashes t db.tokens)) [
            | inl b ↦ inl (failed, rw (a, b, create))
            | inr b ↦ inr (record {
              no_revoked = ground arith;
              account = ground arith;
              unique = b;
              result = ground arith;
              users = ground arith;
              table = ground arith;
            })
          ]
        ]

  pub create_within_cap-cases :
      (now : ℕ) (t : Token) (cap : ℕ) (db : Db)
      → Refuses db (create_within_cap collate now t cap db)
        ⊎ Inserts t db (create_within_cap collate now t cap db)
  unfolding create_within_cap
  create_within_cap-cases now t cap db = elim (Bool-cases (cap == 0)) [
    | inl a ↦ rw (a, create_within_cap) (create-cases t db)
    | inr a ↦ elim (Bool-cases (leb cap (count_active_families now t.user_id db))) [
      | inl b ↦ inl (session_limit_reached, rw (a, b, create_within_cap))
      | inr b ↦ rw (a, b, create_within_cap) (create-cases t db)
    ]
  ]
