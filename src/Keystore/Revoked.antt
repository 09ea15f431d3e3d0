-- ===== src/Keystore/Revoked.antt =====
-- What Revoke and CleanupExpired of keystore.go mean for the keys in use.
use vault.Common.{
  ℕ, String, Bool, true, false, none, some, List, exists, ok, err, ◌≡◌, ◌≢◌, ◌≤◌, inl, inr, refl,
  ap, ◌∙◌, arith, Bool-cases, Option-cases,
}
use vault.Common.Dict.{lookup}
use vault.Keystore.{
  revoked, KeyRow, Crypto, KeyStore, is_revocable, is_served, served_rows, cleanup_expired,
  revoke_rows, refresh, revoke,
}
use vault.Keystore.Rows.{revoke_rows-revoked, keep-cleanup}
use vault.Keystore.Served.{refresh-IsBacked}

module _ {P K : Type 0} (c : Crypto P K) where
  served-not_revoked : (now : ℕ) (r : KeyRow) → is_served now r ≡ true → r.status ≢ revoked
  served-not_revoked now r served dead = absurd (ground (arith, dead))

  refresh-gone :
      (queried : Bool) (now : ℕ) (kid : String) (rows : List KeyRow) (ks : KeyStore P K)
      → (refresh c queried now (revoke_rows now kid rows) ks).0 ≡ ok tt
      → (lookup kid (refresh c queried now (revoke_rows now kid rows) ks).1.public_keys ≡ none)
        × ((p : P)
            → (refresh c queried now (revoke_rows now kid rows) ks).1.active_key ≡ some p
            → (refresh c queried now (revoke_rows now kid rows) ks).1.active_kid ≢ kid)
  refresh-gone queried now kid rows ks h =
      let out = refresh c queried now (revoke_rows now kid rows) ks in
      elim (refresh-IsBacked c now (revoke_rows now kid rows) queried ks) [
        | inr (e, failed) ↦
            let other : out.0 ≡ err e = ap (λ t. t.0) failed in absurd (ground (arith, h, other))
        | inl (o, backed, signed) ↦ (
          elim (Option-cases (lookup kid out.1.public_keys)) [
            | inl gone ↦ gone
            | inr (k, found) ↦
                let (r, p, has, same, served, opens, parses, equals) = backed kid k found in
                absurd
                  (served-not_revoked now r served (revoke_rows-revoked now kid rows r has same))
          ],
          λ p signs same_kid.
              let (r, has, same, act, served, opens) = signed p signs in
              served-not_revoked now r served
                (revoke_rows-revoked now kid rows r has (same ∙ same_kid)),
        )
      ]

  -- A revocation that succeeds takes the key out of use at once: it verifies nothing, and if it was the
  -- signing key, another or none signs.
  pub revoke-gone :
      (updated queried : Bool) (now : ℕ) (kid : String) (rows : List KeyRow) (ks : KeyStore P K)
      → (revoke c updated queried now kid rows ks).0 ≡ ok tt
      → (lookup kid (revoke c updated queried now kid rows ks).2.public_keys ≡ none)
        × ((p : P)
            → (revoke c updated queried now kid rows ks).2.active_key ≡ some p
            → (revoke c updated queried now kid rows ks).2.active_kid ≢ kid)
  unfolding revoke
  revoke-gone false queried now kid rows ks h = absurd (ground arith)
  revoke-gone true queried now kid rows ks h = elim (Bool-cases (exists (is_revocable kid) rows)) [
    | inl hit ↦ rw hit (refresh-gone queried now kid rows ks (rw hit at h))
    | inr miss ↦ absurd (ground (arith, miss))
  ]

  -- What a cleanup removes is in no later set of keys: a refresh at or after its instant answers and
  -- leaves the same with it as without it.
  pub refresh-cleanup_expired :
      (queried : Bool) (now later : ℕ) (rows : List KeyRow) (ks : KeyStore P K)
      → now ≤ later
      → refresh c queried later (cleanup_expired now rows).0 ks ≡ refresh c queried later rows ks
  unfolding refresh cleanup_expired served_rows
  refresh-cleanup_expired false now later rows ks h = refl
  refresh-cleanup_expired true now later rows ks h = rw (keep-cleanup now later rows h) refl
