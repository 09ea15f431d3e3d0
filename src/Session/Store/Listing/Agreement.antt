-- ===== src/Session/Store/Listing/Agreement.antt =====
-- The listing of a user's sessions and the session cap read one table alike (refresh_token.go).
use vault.Common.{
  ℕ, suc, ◌≤◌, String, ◌≡◌, refl, ap, ◌∙◌, sym, arith, Bool, false, List, [], ◌∷◌, str_eq, eq_iff,
  ltb, keep, map, exists, length, Bool-cases, inl, inr, if◌then◌else◌,
}
use vault.Session.Store.{Row, Db, is_active, in_family, distinct, count_active_families}
use vault.Session.Store.Listing.{
  ActiveFamily, insert_newest, newest, insert_by_age, by_age, session_of, list_active_families,
}

exists-insert_newest :
    (f : String) (r : Row) (xs : List Row)
    → exists (in_family f) (insert_newest r xs) ≡ exists (in_family f) (r ∷ xs)
exists-insert_newest f r [] = refl
exists-insert_newest f r (x ∷ xs) =
    let rest = exists-insert_newest f r xs in
    elim (Bool-cases (str_eq x.family_id r.family_id)) [
      | inl same ↦
          let equal = ap (λ k. str_eq k f) ((eq_iff x.family_id r.family_id).0 same) in
          ground (arith, same, equal)
      | inr other ↦ ground (arith, other, rest)
    ]

length-insert_newest :
    (r : Row) (xs : List Row)
    → length (insert_newest r xs)
      ≡ (if exists (in_family r.family_id) xs then length xs else suc (length xs))
length-insert_newest r [] = refl
length-insert_newest r (x ∷ xs) =
    let rest = length-insert_newest r xs in
    elim (Bool-cases (str_eq x.family_id r.family_id)) [
      | inl same ↦ ground (arith, same)
      | inr other ↦ ground (arith, other, rest)
    ]

exists-newest :
    (f : String) (rs : List Row) → exists (in_family f) (newest rs) ≡ exists (in_family f) rs
exists-newest f [] = refl
exists-newest f (r ∷ rs) =
    let rest = exists-newest f rs in
    let here = exists-insert_newest f r (newest rs) in ground (arith, rest, here)

length-newest : (rs : List Row) → length (newest rs) ≡ length (distinct rs)
length-newest [] = refl
length-newest (r ∷ rs) =
    let rest = length-newest rs in
    let known = exists-newest r.family_id rs in
    let here = length-insert_newest r (newest rs) in ground (arith, rest, known, here)

length-insert_by_age : (r : Row) (xs : List Row) → length (insert_by_age r xs) ≡ suc (length xs)
length-insert_by_age r [] = refl
length-insert_by_age r (x ∷ xs) = let rest = length-insert_by_age r xs in ground (arith, rest)

length-by_age : (rs : List Row) → length (by_age rs) ≡ length rs
length-by_age [] = refl
length-by_age (r ∷ rs) = length-insert_by_age r (by_age rs) ∙ ap suc (length-by_age rs)

exists-insert_by_age :
    (p : Row → Bool) (r : Row) (xs : List Row) → exists p (insert_by_age r xs) ≡ exists p (r ∷ xs)
exists-insert_by_age p r [] = refl
exists-insert_by_age p r (x ∷ xs) = let rest = exists-insert_by_age p r xs in ground (arith, rest)

exists-by_age : (p : Row → Bool) (rs : List Row) → exists p (by_age rs) ≡ exists p rs
exists-by_age p [] = refl
exists-by_age p (r ∷ rs) =
    let rest = exists-by_age p rs in
    let here = exists-insert_by_age p r (by_age rs) in ground (arith, rest, here)

-- No session in the list is used later than one before it.
abbrev pub IsNewestFirst : List ActiveFamily → Type 0
IsNewestFirst [] = Unit
IsNewestFirst (s ∷ ss) =
    (exists (λ x. ltb s.last_used_at x.last_used_at) ss ≡ false) × IsNewestFirst ss

abbrev pub lists_family : String → ActiveFamily → Bool
lists_family f s = str_eq s.family_id f

module _ (u : String) (db : Db) where
  length-sessions : (rs : List Row) → length (map (session_of u db) rs) ≡ length rs
  length-sessions [] = refl
  length-sessions (r ∷ rs) = ap suc (length-sessions rs)

  exists-sessions :
      (f : String) (rs : List Row)
      → exists (lists_family f) (map (session_of u db) rs) ≡ exists (in_family f) rs
  exists-sessions f [] = refl
  exists-sessions f (r ∷ rs) = let rest = exists-sessions f rs in ground (arith, rest)

  exists-later :
      (t : ℕ) (rs : List Row)
      → exists (λ x. ltb t x.last_used_at) (map (session_of u db) rs)
        ≡ exists (λ x. ltb t x.created_at) rs
  exists-later t [] = refl
  exists-later t (r ∷ rs) = let rest = exists-later t rs in ground (arith, rest)

  later_mono :
      (s t : ℕ) (rs : List Row)
      → s ≤ t
      → exists (λ x. ltb s x.created_at) rs ≡ false
      → exists (λ x. ltb t x.created_at) rs ≡ false
  later_mono s t [] le h = refl
  later_mono s t (r ∷ rs) le h = let rest = later_mono s t rs le in ground (arith, rest)

  insert_by_age-IsNewestFirst :
      (r : Row) (xs : List Row)
      → IsNewestFirst (map (session_of u db) xs)
      → IsNewestFirst (map (session_of u db) (insert_by_age r xs))
  insert_by_age-IsNewestFirst r [] h = (refl, tt)
  insert_by_age-IsNewestFirst r (x ∷ xs) (none_later, h) =
      elim (Bool-cases (ltb r.created_at x.created_at)) [
        | inl older ↦
            let rest = insert_by_age-IsNewestFirst r xs h in
            let here = exists-insert_by_age (λ y. ltb x.created_at y.created_at) r xs in
            let listed = exists-later x.created_at (insert_by_age r xs) in
            let before = exists-later x.created_at xs in
            rw older (ground (arith, here, listed, before, none_later), rest)
        | inr newer ↦
            let before = exists-later x.created_at xs in
            let after = exists-later r.created_at xs in
            let later =
              later_mono x.created_at r.created_at xs (ground (arith, newer))
                (sym before ∙ none_later) in
            rw newer (ground (arith, newer, after, later), (none_later, h))
      ]

  by_age-IsNewestFirst : (rs : List Row) → IsNewestFirst (map (session_of u db) (by_age rs))
  by_age-IsNewestFirst [] = tt
  by_age-IsNewestFirst (r ∷ rs) =
      insert_by_age-IsNewestFirst r (by_age rs) (by_age-IsNewestFirst rs)

-- The listing shows as many sessions as the session cap counts, shows a family exactly if the user
-- has an active row of it, and is ordered by last use, the latest first.
pub list_active_families-count :
    (now : ℕ) (u : String) (db : Db)
    → (length (list_active_families now u db) ≡ count_active_families now u db)
      × ((f : String)
          → exists (lists_family f) (list_active_families now u db)
            ≡ exists (in_family f) (keep (is_active now u) db.tokens))
      × IsNewestFirst (list_active_families now u db)
unfolding list_active_families count_active_families
list_active_families-count now u db =
    let active = keep (is_active now u) db.tokens in
    (
      length-sessions u db (by_age (newest active))
          ∙ length-by_age (newest active)
          ∙ length-newest active,
      λ f.
          exists-sessions u db f (by_age (newest active))
          ∙ exists-by_age (in_family f) (newest active)
          ∙ exists-newest f active,
      by_age-IsNewestFirst u db (newest active),
    )
