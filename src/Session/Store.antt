-- ===== src/Session/Store.antt =====
-- internal/repository/postgres/refresh_token.go: the rows of auth.refresh_tokens and what each
-- statement does to them. A statement is one step; the row and table locks of the source are what
-- makes it one. An empty text stands for SQL's NULL (nullStr, deref). Instants are nanoseconds.
-- `collate` is the database's order on text, by which MIN(dpop_jkt) chooses.
pub mod Accounts
pub mod Passwords
pub mod Reap
pub mod Inserts
pub mod Lookups
pub mod Statements
pub mod Burned
pub mod Spent
pub mod Family
pub mod Cap
pub mod Listing
use vault.Common.{
  ℕ, suc, ◌+◌, String, Bool, true, false, ◌&&◌, ◌||◌, not, Option, none, some, List, [], ◌∷◌, ◌++◌,
  str_eq, ltb, leb, min, ◌==◌, if◌then◌else◌, length, keep, exists, map, Result, ok, err,
}

-- model.RefreshToken
pub record Token : Type 0 where
  pub id : String
  pub user_id : String
  pub client_id : String
  pub token_hash : String
  pub family_id : String
  pub device_id : String
  pub fingerprint_hash : String
  pub dpop_jkt : String
  pub expires_at : ℕ
  pub created_at : ℕ
  pub used : Bool
  pub revoked : Bool

pub record Row : Type 0 where
  pub token : Token
  pub open token use *
  pub family_created_at : ℕ

-- model.User, as far as the sessions read it.
pub record User : Type 0 where
  pub user_id : String
  pub email : String
  pub email_verified : Bool
  pub password_hash : String
  pub roles : List String
  pub deleted : Bool
  pub banned : Bool
  pub disabled : Bool
  pub locked_until : Option ℕ
  pub failed_login_count : ℕ
  pub import_pending : Bool
  pub must_reset_password : Bool
  -- The zero instant stands for NULL.
  pub last_login_at : ℕ

-- model.Device, as far as a login reads or writes it.
pub record Device : Type 0 where
  pub id : String
  pub user_id : String
  pub fingerprint_hash : String
  pub ip : String
  pub user_agent : String
  pub first_seen_at : ℕ
  pub last_seen_at : ℕ

-- A row of auth.rate_limits.
pub record Window : Type 0 where
  pub key : String
  pub window_start : ℕ
  pub count : ℕ

-- model.PasswordHistory
pub record PastPassword : Type 0 where
  pub id : String
  pub user_id : String
  pub password_hash : String
  pub created_at : ℕ

pub record Db : Type 0 where
  pub tokens : List Row
  pub users : List User
  pub devices : List Device
  pub rate_limits : List Window
  pub history : List PastPassword

pub data StoreError : Type 0 where
  family_revoked : StoreError
  session_limit_reached : StoreError
  unique_violation : StoreError
  user_not_updatable : StoreError
  failed : StoreError

abbrev pub in_family : String → Row → Bool
in_family f r = str_eq r.family_id f

abbrev pub family : String → Db → List Row
family f db = keep (in_family f) db.tokens

abbrev pub user_exists : String → List User → Bool
user_exists u = exists (λ x. str_eq x.user_id u && not x.deleted)

-- MIN over the rows, none if there are no rows.
abbrev pub min_origin : List Row → Option ℕ
min_origin [] = none
min_origin (r ∷ rs) = elim (min_origin rs) [
  | none ↦ some r.family_created_at
  | some m ↦ some (min r.family_created_at m)
]

-- COALESCE of the family's birth date and the token's own.
abbrev pub family_birth : List Row → ℕ → ℕ
family_birth rs created = elim (min_origin rs) [ none ↦ created | some m ↦ m ]

-- The unique indexes on id and token_hash.
abbrev pub clashes : Token → List Row → Bool
clashes t = exists (λ r. str_eq r.id t.id || str_eq r.token_hash t.token_hash)

-- countActiveFamiliesSQL: the rows it counts, and the distinct families among them.
abbrev pub is_active : ℕ → String → Row → Bool
is_active now u r = str_eq r.user_id u && not r.revoked && not r.used && ltb now r.expires_at

abbrev pub distinct : List Row → List Row
distinct [] = []
distinct (r ∷ rs) = if exists (in_family r.family_id) rs then distinct rs else r ∷ distinct rs

unfoldable pub count_active_families : ℕ → String → Db → ℕ
count_active_families now u db = length (distinct (keep (is_active now u) db.tokens))

module _ (collate : String → String → Bool) where
  -- MIN of two nullable texts: NULL is passed over.
  abbrev pub min_text : String → String → String
  min_text a b = if str_eq a "" then b else if str_eq b "" then a else if collate a b then a else b

  abbrev pub min_jkt : List Row → String
  min_jkt [] = ""
  min_jkt (r ∷ rs) = min_text r.dpop_jkt (min_jkt rs)

  abbrev pub family_jkt : List Row → String → String
  family_jkt [] jkt = jkt
  family_jkt (r ∷ rs) jkt = min_jkt (r ∷ rs)

  -- The row that insertRefreshRowSQL builds for a family that holds the rows `rs`.
  unfoldable pub successor : List Row → Token → Row
  successor rs t = record {
    token = record t { dpop_jkt = family_jkt rs t.dpop_jkt; used = false; revoked = false };
    family_created_at = family_birth rs t.created_at;
  }

  unfoldable pub create : Token → Db → Db × Result StoreError (Unit {0})
  unfolding successor
  create t db =
      let rs = family t.family_id db in
      if exists (λ r. r.revoked) rs || not (user_exists t.user_id db.users)
      then (db, err family_revoked)
      else if clashes t db.tokens
      then (db, err failed)
      else (record db { tokens = successor rs t ∷ db.tokens }, ok tt)

  unfoldable pub create_within_cap : ℕ → Token → ℕ → Db → Db × Result StoreError (Unit {0})
  unfolding create
  create_within_cap now t cap db =
      if cap == 0
      then create t db
      else if leb cap (count_active_families now t.user_id db)
      then (db, err session_limit_reached)
      else create t db

-- The zero instant stands for a family with no rows.
unfoldable pub family_origin : String → Db → ℕ
family_origin f db = elim (min_origin (family f db)) [ none ↦ 0 | some m ↦ m ]

abbrev pub find_row : (Row → Bool) → List Row → Option Row
find_row p [] = none
find_row p (r ∷ rs) = if p r then some r else find_row p rs

unfoldable pub get_by_token_hash : String → Db → Option Token
get_by_token_hash h db = elim (find_row (λ r. str_eq r.token_hash h) db.tokens) [
  | none ↦ none
  | some r ↦ some r.token
]

-- UPDATE ... SET ... WHERE, over the whole table.
abbrev pub update : (Row → Bool) → (Token → Token) → List Row → List Row
update p f [] = []
update p f (r ∷ rs) = (if p r then record r { token = f r.token } else r) ∷ update p f rs

abbrev pub affected : (Row → Bool) → List Row → ℕ
affected p rs = length (keep p rs)

abbrev pub set_used : Token → Token
set_used t = record t { used = true }

abbrev pub set_revoked : Token → Token
set_revoked t = record t { revoked = true }

abbrev pub is_spendable : String → Row → Bool
is_spendable i r = str_eq r.id i && not r.used && not r.revoked

unfoldable pub mark_used : String → Db → Db × Bool
mark_used i db = (
  record db { tokens = update (is_spendable i) set_used db.tokens },
  affected (is_spendable i) db.tokens == 1,
)

unfoldable pub revoke_by_id : String → Db → Db
revoke_by_id i db = record db { tokens = update (λ r. str_eq r.id i) set_revoked db.tokens }

unfoldable pub revoke_by_device_id : String → Db → Db
revoke_by_device_id d db = record db {
  tokens =
      update (λ r. not (str_eq d "") && str_eq r.device_id d && not r.revoked) set_revoked
        db.tokens;
}

unfoldable pub revoke_family : String → Db → Db
revoke_family f db = record db { tokens = update (in_family f) set_revoked db.tokens }

unfoldable pub revoke_all_for_user : String → Db → Db
revoke_all_for_user u db = record db {
  tokens = update (λ r. str_eq r.user_id u && not r.revoked) set_revoked db.tokens;
}

unfoldable pub delete_all_for_user : String → Db → Db
delete_all_for_user u db = record db { tokens = keep (λ r. not (str_eq r.user_id u)) db.tokens }

unfoldable pub revoke_all : Db → Db
revoke_all db = record db { tokens = update (λ r. not r.revoked) set_revoked db.tokens }

abbrev pub find_user : String → List User → Option User
find_user u [] = none
find_user u (x ∷ xs) = if str_eq x.user_id u then some x else find_user u xs

unfoldable pub get_user : String → Db → Option User
get_user u db = find_user u db.users
