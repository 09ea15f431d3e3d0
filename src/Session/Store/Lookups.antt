-- ===== src/Session/Store/Lookups.antt =====
-- What a lookup, a compare-and-set and an insert meet in a table, for a row that was found.
use vault.Common.{
  ◌≤◌, String, ◌≡◌, refl, Bool, true, false, some, List, [], ◌∷◌, arith, ok, sym, subst, str_eq,
  exists, keep, length, Bool-cases, Option-cases, inl, inr,
}
use vault.Session.Store.{
  Token, Row, User, Db, create, family, in_family, get_by_token_hash, find_user, find_row, update,
  set_used, is_spendable, affected, user_exists, clashes, successor,
}

module _ (i : String) where
  -- Rows of which exactly one holds the id: at most one of them can be spent, and that one if it is
  -- found and neither used nor revoked.
  pub affected-le :
      (rs : List Row) → affected (is_spendable i) rs ≤ length (keep (λ r. str_eq r.id i) rs)
  affected-le [] = omega arith
  affected-le (r ∷ rs) = ground (arith, affected-le rs)

  pub affected-found :
      (p : Row → Bool) (rs : List Row) (x : Row)
      → find_row p rs ≡ some x
      → is_spendable i x ≡ true
      → 1 ≤ affected (is_spendable i) rs
  affected-found p [] x h s = absurd (ground arith)
  affected-found p (r ∷ rs) x h s = elim (Bool-cases (p r)) [
    | inl hit ↦
        let same : r ≡ x = ground (arith, hit) in
        let able = subst (λ t. is_spendable i t ≡ true) (sym same) s in ground (arith, able)
    | inr miss ↦ let rest = affected-found p rs x (ground (arith, miss)) s in ground (arith, rest)
  ]

  pub revoked-update :
      (f : String) (rs : List Row)
      → exists (λ r. r.revoked) (keep (in_family f) (update (is_spendable i) set_used rs))
        ≡ exists (λ r. r.revoked) (keep (in_family f) rs)
  revoked-update f [] = refl
  revoked-update f (r ∷ rs) = ground (arith, revoked-update f rs)

  pub clashes-update :
      (t : Token) (rs : List Row) → clashes t (update (is_spendable i) set_used rs) ≡ clashes t rs
  clashes-update t [] = refl
  clashes-update t (r ∷ rs) = ground (arith, clashes-update t rs)

-- What a found row is, if no row passes a test.
pub found-misses :
    (p q : Row → Bool) (rs : List Row) (x : Row)
    → find_row p rs ≡ some x
    → exists q rs ≡ false
    → q x ≡ false
found-misses p q [] x h n = absurd (ground arith)
found-misses p q (r ∷ rs) x h n = elim (Bool-cases (p r)) [
  | inl hit ↦ let same : r ≡ x = ground (arith, hit) in subst (λ t. q t ≡ false) same (ground arith)
  | inr miss ↦ found-misses p q rs x (ground (arith, miss)) (ground arith)
]

pub find_user-exists :
    (i : String) (us : List User) (u : User)
    → find_user i us ≡ some u
    → u.deleted ≡ false
    → user_exists i us ≡ true
find_user-exists i [] u h k = absurd (ground arith)
find_user-exists i (x ∷ xs) u h k = elim (Bool-cases (str_eq x.user_id i)) [
  | inl hit ↦
      let same : x ≡ u = ground (arith, hit) in
      let kept = subst (λ t. t.deleted ≡ false) (sym same) k in ground (arith, hit, kept)
  | inr miss ↦ let rest = find_user-exists i xs u (ground (arith, miss)) k in ground (arith, rest)
]

pub create-inserts :
    (collate : String → String → Bool) (t : Token) (db : Db)
    → exists (λ r. r.revoked) (family t.family_id db) ≡ false
    → user_exists t.user_id db.users ≡ true
    → clashes t db.tokens ≡ false
    → create collate t db
      ≡ (record db { tokens = successor collate (family t.family_id db) t ∷ db.tokens }, ok tt)
unfolding create
create-inserts collate t db unrevoked held free = rw (unrevoked, held, free, create) refl

pub get-first :
    (h : String) (x : Row) (rows : List Row) (db : Db)
    → str_eq x.token_hash h ≡ true
    → get_by_token_hash h (record db { tokens = x ∷ rows }) ≡ some x.token
unfolding get_by_token_hash
get-first h x rows db e = ground (arith, e)

pub found-row :
    (h : String) (db : Db) (t : Token)
    → get_by_token_hash h db ≡ some t
    → (x : Row) × (find_row (λ r. str_eq r.token_hash h) db.tokens ≡ some x) × (x.token ≡ t)
unfolding get_by_token_hash
found-row h db t look = elim (Option-cases (find_row (λ r. str_eq r.token_hash h) db.tokens)) [
  | inl gone ↦ absurd (ground (arith, gone))
  | inr (x, e) ↦ (x, e, ground (arith, e))
]
