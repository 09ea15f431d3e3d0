-- ===== src/Session/Store/Listing.antt =====
-- internal/repository/postgres/refresh_token.go: ListActiveFamilies, a user's sessions. Rows of one
-- family or of all that were created at the same instant are in the order of the table, which the
-- database leaves open. Every insert writes family_created_at, so its NULL does not occur.
pub mod Agreement
use vault.Common.{
  ℕ, String, Bool, true, false, Option, none, some, List, [], ◌∷◌, str_eq, ltb, leb, keep, map,
  if◌then◌else◌,
}
use vault.Session.Store.{Token, Row, Db, is_active, min_origin}

-- The empty text stands for a device or a client that is NULL.
pub record ActiveFamily : Type 0 where
  pub family_id : String
  pub device_id : String
  pub client_id : String
  pub created_at : ℕ
  pub last_used_at : ℕ
  pub expires_at : ℕ

-- DISTINCT ON (family_id) with the latest row of each.
abbrev pub insert_newest : Row → List Row → List Row
insert_newest r [] = r ∷ []
insert_newest r (x ∷ xs) =
    let rest = insert_newest r xs in
    if str_eq x.family_id r.family_id
    then (if ltb r.created_at x.created_at then x else r) ∷ xs
    else x ∷ rest

abbrev pub newest : List Row → List Row
newest [] = []
newest (r ∷ rs) = insert_newest r (newest rs)

-- ORDER BY created_at DESC
abbrev pub insert_by_age : Row → List Row → List Row
insert_by_age r [] = r ∷ []
insert_by_age r (x ∷ xs) =
    let rest = insert_by_age r xs in if ltb r.created_at x.created_at then x ∷ rest else r ∷ x ∷ xs

abbrev pub by_age : List Row → List Row
by_age [] = []
by_age (r ∷ rs) = insert_by_age r (by_age rs)

-- The JOIN with the family's birth, the least over all its rows of this user.
abbrev pub birth : String → Db → String → ℕ
birth u db f =
    elim (min_origin
      (keep (λ r. str_eq r.family_id f) (keep (λ r. str_eq r.user_id u) db.tokens))) [
        | none ↦ 0
        | some m ↦ m
      ]

abbrev pub session_of : String → Db → Row → ActiveFamily
session_of u db r = record {
  family_id = r.family_id;
  device_id = r.device_id;
  client_id = r.client_id;
  created_at = birth u db r.family_id;
  last_used_at = r.created_at;
  expires_at = r.expires_at;
}

unfoldable pub list_active_families : ℕ → String → Db → List ActiveFamily
list_active_families now u db =
    map (session_of u db) (by_age (newest (keep (is_active now u) db.tokens)))
