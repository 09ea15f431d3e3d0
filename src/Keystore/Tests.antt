-- ===== src/Keystore/Tests.antt =====
-- A signing key, a retired one that has expired and one that has not; a key is its number, and its
-- private key opens if the kid is its own.
use vault.Common.{
  ℕ, String, true, false, Option, none, some, List, [], ◌∷◌, str_eq, ◌==◌, if◌then◌else◌, ok, err,
  ◌≡◌, ◌≢◌, ◌⊎◌, refl, arith,
}
use vault.Common.Dict.{insert, lookup}
use vault.Common.Sort.{sort_func}
use vault.Keystore.{
  active, retired, KeyRow, Crypto, KeyStore, KeyError, bad_active_key, served_rows, cleanup_expired,
  open_key, refresh, revoke, stop,
}
use vault.Keystore.Served.{IsBacked, IsSigner, refresh-IsBacked}
use vault.Keystore.Revoked.{revoke-gone, refresh-cleanup_expired}

abbrev first : List ℕ → Option ℕ
first [] = none
first (n ∷ ns) = some n

abbrev opened_by : List ℕ → String → Option ℕ
opened_by [] kid = none
opened_by (n ∷ ns) kid = if str_eq kid "bad" then none else some n

abbrev crypto : Crypto ℕ ℕ
crypto = record {
  open_pem = opened_by;
  public_of = λ p. p;
  equal = λ a b. a == b;
  parse_public = first;
}

abbrev row : String → ℕ → ℕ → KeyRow
row kid n created = record {
  kid = kid;
  private_key = n ∷ [];
  public_key = n ∷ [];
  status = active;
  created_at = created;
  retired_at = none;
  expires_at = none;
}

abbrev rows : List KeyRow
rows =
    row "c" 3 30
    ∷ record (row "b" 2 20) { status = retired; retired_at = some 30; expires_at = some 90 }
    ∷ record (row "a" 1 10) { status = retired; retired_at = some 20; expires_at = some 40 }
    ∷ []

abbrev empty : KeyStore ℕ ℕ
empty = record {
  master_key_gone = false;
  active_key = none;
  active_kid = "";
  public_keys = [];
  changes = [];
}

abbrev loaded : KeyStore ℕ ℕ
loaded = record {
  master_key_gone = false;
  active_key = some 3;
  active_kid = "c";
  public_keys = ("c", 3) ∷ ("b", 2) ∷ [];
  changes = (some 3, "c") ∷ [];
}

loads : refresh crypto true 50 rows empty ≡ (ok tt, loaded)
unfolding refresh open_key served_rows sort_func insert
loads = refl

-- After Stop the active key does not open.
closed_fails : (refresh crypto true 50 rows (stop loaded)).0 ≡ err (bad_active_key "c")
unfolding refresh open_key served_rows sort_func insert stop
closed_fails = refl

revokes : (revoke crypto true true 50 "c" rows loaded).0 ≡ ok tt
unfolding revoke refresh open_key served_rows sort_func insert
revokes = refl

refresh-IsBacked_example :
    (((refresh crypto true 50 rows empty).0 ≡ ok tt)
      × ((kid : String) (k : ℕ)
          → lookup kid (refresh crypto true 50 rows empty).1.public_keys ≡ some k
          → IsBacked crypto 50 rows kid k)
      × ((p : ℕ)
          → (refresh crypto true 50 rows empty).1.active_key ≡ some p
          → IsSigner crypto 50 rows (refresh crypto true 50 rows empty).1.active_kid p))
    ⊎ ((e : KeyError) × (refresh crypto true 50 rows empty ≡ (err e, empty)))
refresh-IsBacked_example = refresh-IsBacked crypto 50 rows true empty

revoke-gone_example :
    (lookup "c" (revoke crypto true true 50 "c" rows loaded).2.public_keys ≡ none)
    × ((p : ℕ)
        → (revoke crypto true true 50 "c" rows loaded).2.active_key ≡ some p
        → (revoke crypto true true 50 "c" rows loaded).2.active_kid ≢ "c")
revoke-gone_example = revoke-gone crypto true true 50 "c" rows loaded revokes

refresh-cleanup_expired_example :
    refresh crypto true 60 (cleanup_expired 50 rows).0 loaded ≡ refresh crypto true 60 rows loaded
refresh-cleanup_expired_example =
    refresh-cleanup_expired crypto true 50 60 rows loaded (omega arith)
