-- ===== src/Keystore.antt =====
-- internal/keystore/keystore.go: the signing keys of the table and those that a process signs and
-- verifies with. A ciphertext and an encoded key are their bytes; encryption, the formats of keys and
-- their comparison are a parameter. An instant is passed to the statement that reads the clock.
pub mod Rows
pub mod Served
pub mod Revoked
mod Tests
use Prim.Native.Nat.{Ordering, compare}
use vault.Common.{
  ℕ, String, Bool, true, false, ◌&&◌, ◌||◌, not, Option, none, some, List, [], ◌∷◌, str_eq, ltb,
  if◌then◌else◌, keep, exists, length, Result, ok, err,
}
use vault.Common.Results.{◌>>=◌}
use vault.Common.Dict.{insert}
use vault.Common.Sort.{sort_func}

pub data Status : Type 0 where
  active : Status
  retired : Status
  revoked : Status

-- A row of auth.signing_keys.
pub record KeyRow : Type 0 where
  pub kid : String
  pub private_key : List ℕ
  pub public_key : List ℕ
  pub status : Status
  pub created_at : ℕ
  pub retired_at : Option ℕ
  pub expires_at : Option ℕ

-- `open_pem` decrypts a private key under the master key and its kid, and parses it; `parse_public` answers
-- none for what is no RSA key.
pub record Crypto (P K : Type 0) : Type 0 where
  pub open_pem : List ℕ → String → Option P
  pub public_of : P → K
  pub equal : K → K → Bool
  pub parse_public : List ℕ → Option K

-- The keys in memory. `changes` are the calls of onKeyChange, where one is set, the latest first.
pub record KeyStore (P K : Type 0) : Type 0 where
  pub master_key_gone : Bool
  pub active_key : Option P
  pub active_kid : String
  pub public_keys : List (String × K)
  pub changes : List (Option P × String)

pub data KeyError : Type 0 where
  query_failed : KeyError
  bad_active_key : String → KeyError
  revoke_failed : KeyError
  not_found : KeyError

pub record Loaded (P K : Type 0) : Type 0 where
  pub active_key : Option P
  pub active_kid : String
  pub public_keys : List (String × K)

abbrev pub is_active : Status → Bool
is_active active = true
is_active retired = false
is_active revoked = false

abbrev pub is_retired : Status → Bool
is_retired active = false
is_retired retired = true
is_retired revoked = false

abbrev pub is_revoked : Status → Bool
is_revoked active = false
is_revoked retired = false
is_revoked revoked = true

-- A comparison with NULL does not hold.
abbrev pub expires_after : Option ℕ → ℕ → Bool
expires_after none now = false
expires_after (some t) now = ltb now t

abbrev pub expires_before : Option ℕ → ℕ → Bool
expires_before none now = false
expires_before (some t) now = ltb t now

abbrev pub is_null : Option ℕ → Bool
is_null none = true
is_null (some t) = false

abbrev pub is_served : ℕ → KeyRow → Bool
is_served now r =
    not (is_revoked r.status)
    && (expires_after r.expires_at now || (is_null r.expires_at && is_active r.status))

abbrev pub newest_first : KeyRow → KeyRow → Ordering
newest_first a b = compare b.created_at a.created_at

unfoldable pub served_rows : ℕ → List KeyRow → List KeyRow
served_rows now rows = sort_func newest_first (keep (is_served now) rows)

abbrev pub is_reapable : ℕ → KeyRow → Bool
is_reapable now r = is_retired r.status && expires_before r.expires_at now

-- The rows that are left, and how many went.
unfoldable pub cleanup_expired : ℕ → List KeyRow → List KeyRow × ℕ
cleanup_expired now rows =
    (keep (λ r. not (is_reapable now r)) rows, length (keep (is_reapable now) rows))

abbrev pub revoked_row : ℕ → String → KeyRow → KeyRow
revoked_row now kid r =
    if str_eq r.kid kid && not (is_revoked r.status)
    then record r { status = revoked; retired_at = some now }
    else r

abbrev pub revoke_rows : ℕ → String → List KeyRow → List KeyRow
revoke_rows now kid [] = []
revoke_rows now kid (r ∷ rs) = revoked_row now kid r ∷ revoke_rows now kid rs

abbrev pub is_revocable : String → KeyRow → Bool
is_revocable kid r = str_eq r.kid kid && not (is_revoked r.status)

unfoldable pub stop : {P K : Type 0} → KeyStore P K → KeyStore P K
stop ks = record ks { master_key_gone = true }

module _ {P K : Type 0} (c : Crypto P K) where
  abbrev pub with_key : Bool → Option P → Option P
  with_key true opened = none
  with_key false opened = opened

  -- ErrClosed after Stop.
  unfoldable pub open_key : Bool → KeyRow → Option P
  open_key gone r = with_key gone (c.open_pem r.private_key r.kid)

  abbrev pub publish : KeyRow → K → P → Loaded P K → Loaded P K
  publish r k p l =
      if is_active r.status
      then record {
        active_key = some p;
        active_kid = r.kid;
        public_keys = insert r.kid k l.public_keys;
      }
      else record l { public_keys = insert r.kid k l.public_keys }

  abbrev pub skip : KeyRow → Loaded P K → Result KeyError (Loaded P K)
  skip r l = if is_active r.status then err (bad_active_key r.kid) else ok l

  abbrev pub judge_opened : KeyRow → K → Option P → Loaded P K → Result KeyError (Loaded P K)
  judge_opened r k none l = skip r l
  judge_opened r k (some p) l = if c.equal (c.public_of p) k then ok (publish r k p l) else skip r l

  abbrev pub judge_public : Bool → KeyRow → Option K → Loaded P K → Result KeyError (Loaded P K)
  judge_public gone r none l = ok l
  judge_public gone r (some k) l = judge_opened r k (open_key gone r) l

  abbrev pub load_row : Bool → KeyRow → Loaded P K → Result KeyError (Loaded P K)
  load_row gone r l = judge_public gone r (c.parse_public r.public_key) l

  abbrev pub load_rows : Bool → List KeyRow → Loaded P K → Result KeyError (Loaded P K)
  load_rows gone [] l = ok l
  load_rows gone (r ∷ rs) l = load_row gone r l >>= load_rows gone rs

  abbrev pub nothing_loaded : Loaded P K
  nothing_loaded = record { active_key = none; active_kid = ""; public_keys = [] }

  abbrev pub apply_keys : Loaded P K → KeyStore P K → KeyStore P K
  apply_keys l ks = record {
    master_key_gone = ks.master_key_gone;
    active_key = l.active_key;
    active_kid = l.active_kid;
    public_keys = l.public_keys;
    changes =
        if str_eq l.active_kid ks.active_kid
        then ks.changes
        else (l.active_key, l.active_kid) ∷ ks.changes;
  }

  abbrev pub applied :
      Result KeyError (Loaded P K) → KeyStore P K → Result KeyError Unit × KeyStore P K
  applied (err e) ks = (err e, ks)
  applied (ok l) ks = (ok tt, apply_keys l ks)

  -- `queried` is whether the database answers.
  unfoldable pub refresh :
      (queried : Bool) → ℕ → List KeyRow → KeyStore P K → Result KeyError Unit × KeyStore P K
  unfolding open_key served_rows
  refresh false now rows ks = (err query_failed, ks)
  refresh true now rows ks =
      applied (load_rows ks.master_key_gone (served_rows now rows) nothing_loaded) ks

  -- `updated` is whether the database takes the statement.
  unfoldable pub revoke :
      (updated queried : Bool)
      → ℕ
      → String
      → List KeyRow
      → KeyStore P K
      → Result KeyError Unit × List KeyRow × KeyStore P K
  unfolding refresh
  revoke false queried now kid rows ks = (err revoke_failed, rows, ks)
  revoke true queried now kid rows ks =
      let (answer, after) = refresh queried now (revoke_rows now kid rows) ks in
      if exists (is_revocable kid) rows
      then (answer, revoke_rows now kid rows, after)
      else (err not_found, rows, ks)
