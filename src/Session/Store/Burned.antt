-- ===== src/Session/Store/Burned.antt =====
-- A revoked family stays revoked (the guard of insertRefreshRowSQL).
use vault.Common.{
  String, ◌≡◌, ◌≢◌, refl, Bool, true, false, ◌&&◌, not, List, [], ◌∷◌, arith, ◌⊎◌, inl, inr, exists,
  keep, eq_iff, str_eq, some, Result, err, Bool-cases, Option-cases, ap, sym, subst, ◌∙◌,
}
use vault.Session.Store.{
  Token, Row, Db, in_family, family, user_exists, successor, create, update, set_used, set_revoked,
  mark_used, is_spendable, revoke_by_id, revoke_by_device_id, revoke_family, revoke_all_for_user,
  delete_all_for_user, revoke_all, find_row, get_by_token_hash, StoreError, family_revoked,
}
use vault.Session.Store.Inserts.{Inserts, Refuses, create-cases, create_within_cap-cases}
use vault.Session.Store.Statements.{
  Statement, creates, creates_within_cap, marks_used, revokes_id, revokes_device, revokes_family,
  revokes_user, revokes_all, deletes_user, changes, exec, Reach, Reach-invariant,
}

abbrev pub live_in : String → Row → Bool
live_in f r = in_family f r && not r.revoked

abbrev pub revoked_in : String → Row → Bool
revoked_in f r = in_family f r && r.revoked

-- No row of the family is live, and either a revoked row or the erased account keeps it so.
pub record IsBurned (f u : String) (db : Db) : Type 0 where
  pub no_live : exists (live_in f) db.tokens ≡ false
  pub held : (exists (revoked_in f) db.tokens ≡ true) ⊎ (user_exists u db.users ≡ false)

exists-keep :
    (f : String) (rs : List Row)
    → exists (λ r. r.revoked) (keep (in_family f) rs) ≡ exists (revoked_in f) rs
exists-keep f [] = refl
exists-keep f (r ∷ rs) = ground (arith, exists-keep f rs)

module _ (f : String) (p : Row → Bool) where
  live-update_used :
      (rs : List Row)
      → exists (live_in f) rs ≡ false
      → exists (live_in f) (update p set_used rs) ≡ false
  live-update_used [] h = refl
  live-update_used (r ∷ rs) h = ground (arith, live-update_used rs)

  live-update_revoked :
      (rs : List Row)
      → exists (live_in f) rs ≡ false
      → exists (live_in f) (update p set_revoked rs) ≡ false
  live-update_revoked [] h = refl
  live-update_revoked (r ∷ rs) h = ground (arith, live-update_revoked rs)

  revoked-update_used :
      (rs : List Row) → exists (revoked_in f) (update p set_used rs) ≡ exists (revoked_in f) rs
  revoked-update_used [] = refl
  revoked-update_used (r ∷ rs) = ground (arith, revoked-update_used rs)

  revoked-update_revoked :
      (rs : List Row)
      → exists (revoked_in f) rs ≡ true
      → exists (revoked_in f) (update p set_revoked rs) ≡ true
  revoked-update_revoked [] h = cc
  revoked-update_revoked (r ∷ rs) h = ground (arith, revoked-update_revoked rs)

  live-keep :
      (rs : List Row) → exists (live_in f) rs ≡ false → exists (live_in f) (keep p rs) ≡ false
  live-keep [] h = refl
  live-keep (r ∷ rs) h = ground (arith, live-keep rs)

revoked-keep :
    (f w : String) (rs : List Row)
    → exists (λ r. in_family f r && str_eq r.user_id w) rs ≡ false
    → exists (revoked_in f) rs ≡ true
    → exists (revoked_in f) (keep (λ r. not (str_eq r.user_id w)) rs) ≡ true
revoked-keep f w [] h e = cc
revoked-keep f w (r ∷ rs) h e = ground (arith, revoked-keep f w rs)

revoking :
    {f u : String} (p : Row → Bool) (db : Db)
    → IsBurned f u db
    → IsBurned f u (record db { tokens = update p set_revoked db.tokens })
revoking {f} p db v = record {
  no_live = live-update_revoked f p db.tokens v.no_live;
  held = elim v.held [ inl e ↦ inl (revoked-update_revoked f p db.tokens e) | inr g ↦ inr g ];
}

-- What a statement must respect for the family `f` of the user `u`: a row of the family is
-- inserted for that user, an erasure reaches the family's rows only after the account's tombstone,
-- and a tombstone is not taken back.
abbrev pub Respects : String → String → Db → Statement → Type 0
Respects f u db (creates t) = (t.family_id ≢ f) ⊎ (t.user_id ≡ u)
Respects f u db (creates_within_cap now t cap) = (t.family_id ≢ f) ⊎ (t.user_id ≡ u)
Respects f u db (deletes_user v) =
    (user_exists u db.users ≡ false)
    ⊎ (exists (λ r. in_family f r && str_eq r.user_id v) db.tokens ≡ false)
Respects f u db (changes us) = (user_exists u us ≡ false) ⊎ (user_exists u db.users ≡ true)
Respects f u db _ = Unit {0}

module _ (collate : String → String → Bool) (f u : String) where
  insert-IsBurned :
      (t : Token) (db : Db) (p : Db × Result StoreError (Unit {0}))
      → (t.family_id ≢ f) ⊎ (t.user_id ≡ u)
      → IsBurned f u db
      → Refuses collate db p ⊎ Inserts collate t db p
      → IsBurned f u p.0
  insert-IsBurned t db p h v (inl (e, q)) = rw q v
  insert-IsBurned t db p h v (inr i) = elim (Bool-cases (str_eq t.family_id f)) [
    | inl b ↦ absurd (contradiction b)
    | inr b ↦ record { no_live = rw i.table (new b); held = rw (i.table, i.users) (kept b) }
  ]
    where
      row : Row
      row = successor collate (family t.family_id db) t

      new : str_eq t.family_id f ≡ false → exists (live_in f) (row ∷ db.tokens) ≡ false
      new b = unfold successor in ground (arith, v.no_live)

      kept :
          str_eq t.family_id f ≡ false
          → (exists (revoked_in f) (row ∷ db.tokens) ≡ true) ⊎ (user_exists u db.users ≡ false)
      kept b = unfold successor in ground (arith, v.held)

      clean : str_eq t.family_id f ≡ true → exists (revoked_in f) db.tokens ≡ false
      clean b =
          subst (λ g. exists (revoked_in g) db.tokens ≡ false) ((eq_iff t.family_id f).0 b)
            (sym (exists-keep t.family_id db.tokens) ∙ i.no_revoked)

      owner : str_eq t.family_id f ≡ true → user_exists u db.users ≡ true
      owner b = elim h [
        | inl n ↦ absurd (n ((eq_iff t.family_id f).0 b))
        | inr e ↦ subst (λ w. user_exists w db.users ≡ true) e i.account
      ]

      contradiction : str_eq t.family_id f ≡ true → ⊥
      contradiction b = elim v.held [ inl held ↦ cc (clean b) | inr gone ↦ cc (owner b) ]

  exec-IsBurned :
      (db : Db) (s : Statement)
      → Respects f u db s
      → IsBurned f u db
      → IsBurned f u (exec collate db s)
  unfolding exec mark_used revoke_by_id revoke_by_device_id revoke_family revoke_all_for_user
      delete_all_for_user revoke_all
  exec-IsBurned db (creates t) h v = insert-IsBurned t db _ h v (create-cases collate t db)
  exec-IsBurned db (creates_within_cap now t cap) h v =
      insert-IsBurned t db _ h v (create_within_cap-cases collate now t cap db)
  exec-IsBurned db (marks_used i) h v = record {
    no_live = live-update_used f (is_spendable i) db.tokens v.no_live;
    held = rw (revoked-update_used f (is_spendable i) db.tokens) v.held;
  }
  exec-IsBurned db (revokes_id i) h v = revoking (λ r. str_eq r.id i) db v
  exec-IsBurned db (revokes_device d) h v = revoking _ db v
  exec-IsBurned db (revokes_family g) h v = revoking (in_family g) db v
  exec-IsBurned db (revokes_user w) h v = revoking _ db v
  exec-IsBurned db revokes_all h v = revoking _ db v
  exec-IsBurned db (deletes_user w) h v = record {
    no_live = live-keep f _ db.tokens v.no_live;
    held = elim h [
      | inl gone ↦ inr gone
      | inr apart ↦ elim v.held [
        | inl e ↦ inl (revoked-keep f w db.tokens apart e)
        | inr gone ↦ inr gone
      ]
    ];
  }
  exec-IsBurned db (changes us) h v = record {
    no_live = v.no_live;
    held = ground (arith, v.held, h);
  }

find_row-revoked :
    (f : String) (p : Row → Bool) (r : Row) (rs : List Row)
    → exists (live_in f) rs ≡ false
    → find_row p rs ≡ some r
    → r.family_id ≡ f
    → r.revoked ≡ true
find_row-revoked f p r [] h e q = cc
find_row-revoked f p r (x ∷ rs) h e q =
    ground (arith, find_row-revoked f p r rs, eq_iff x.family_id f)

get-revoked :
    (f u h : String) (t : Token) (db : Db)
    → IsBurned f u db
    → get_by_token_hash h db ≡ some t
    → t.family_id ≡ f
    → t.revoked ≡ true
unfolding get_by_token_hash
get-revoked f u h t db v e q =
    elim (Option-cases (find_row (λ r. str_eq r.token_hash h) db.tokens)) [
      | inl n ↦ cc (rw (n, get_by_token_hash) at e)
      | inr (r, n) ↦
          let same : r.token ≡ t = ground (arith, e, n) in
          rw (← same) (
            find_row-revoked f (λ x. str_eq x.token_hash h) r db.tokens v.no_live n
              (ap (λ (x : Token). x.family_id) same ∙ q))
    ]

create-burned :
    (collate : String → String → Bool) (f u : String) (t : Token) (db : Db)
    → IsBurned f u db
    → t.family_id ≡ f
    → t.user_id ≡ u
    → create collate t db ≡ (db, err family_revoked)
unfolding create
create-burned collate f u t db v e q = elim v.held [
  | inl held ↦
      let seen : exists (λ r. r.revoked) (family t.family_id db) ≡ true =
        exists-keep t.family_id db.tokens
        ∙ subst (λ g. exists (revoked_in g) db.tokens ≡ true) (sym e) held in
      rw (seen, create)
  | inr gone ↦
      let absent : user_exists t.user_id db.users ≡ false =
        subst (λ w. user_exists w db.users ≡ false) (sym q) gone in
      ground (arith, absent)
]

pub revoke_family-no_live :
    (f : String) (rs : List Row) → exists (live_in f) (update (in_family f) set_revoked rs) ≡ false
revoke_family-no_live f [] = refl
revoke_family-no_live f (r ∷ rs) = ground (arith, revoke_family-no_live f rs)

revoke_family-held :
    (f : String) (rs : List Row)
    → exists (in_family f) rs ≡ true
    → exists (revoked_in f) (update (in_family f) set_revoked rs) ≡ true
revoke_family-held f [] h = cc
revoke_family-held f (r ∷ rs) h = ground (arith, revoke_family-held f rs)

revoke_family-IsBurned :
    (f u : String) (db : Db)
    → exists (in_family f) db.tokens ≡ true
    → IsBurned f u (revoke_family f db)
unfolding revoke_family
revoke_family-IsBurned f u db h = record {
  no_live = revoke_family-no_live f db.tokens;
  held = inl (revoke_family-held f db.tokens h);
}

-- Once RevokeFamily has run on a family that has a row, then whatever statements other requests
-- interleave, in any order, that respect the family (its inserts are its owner's, its owner's rows
-- are deleted only with the account gone, an account that is gone does not come back, and expired
-- rows are not swept): every token of the family that a lookup finds is revoked, and every insert
-- into the family is refused. A rotation in flight cannot bring the session back.
pub revoked_for_good :
    (collate : String → String → Bool) (f u h : String) (db d : Db) (found new : Token)
    → exists (in_family f) db.tokens ≡ true
    → Reach collate (Respects f u) (revoke_family f db) d
    → get_by_token_hash h d ≡ some found
    → found.family_id ≡ f
    → new.family_id ≡ f
    → new.user_id ≡ u
    → (found.revoked ≡ true) × (create collate new d ≡ (d, err family_revoked))
revoked_for_good collate f u h db d found new some_row r got ours same owner =
    let v : IsBurned f u d =
      Reach-invariant collate (Respects f u) (IsBurned f u) (exec-IsBurned collate f u)
        (revoke_family-IsBurned f u db some_row) r in
    (get-revoked f u h found d v got ours, create-burned collate f u new d v same owner)
