-- ===== src/Keystore/Rows.antt =====
-- The rows that the statements of keystore.go keep, serve and revoke.
use vault.Common.{
  ℕ, String, Bool, true, false, ◌&&◌, not, List, [], ◌∷◌, str_eq, eq_iff, keep, ◌≡◌, ◌⊎◌, ◌≤◌, inl,
  inr, refl, sym, ap, ◌∙◌, arith, All, All-mono, Bool-cases,
}
use vault.Common.Sort.{All-sort_func}
use vault.Keystore.{
  Status, active, retired, revoked, KeyRow, is_active, is_revoked, is_served, newest_first,
  served_rows, is_reapable, revoked_row, revoke_rows,
}

abbrev pub Has : KeyRow → List KeyRow → Type 0
Has r [] = ⊥
Has r (x ∷ xs) = (r ≡ x) ⊎ Has r xs

All-Has : (xs : List KeyRow) → All (λ r. Has r xs) xs
All-Has [] = tt
All-Has (x ∷ xs) = (inl refl, All-mono (λ r h. inr h) xs (All-Has xs))

keep-Has :
    (p : KeyRow → Bool) (all xs : List KeyRow)
    → All (λ r. Has r all) xs
    → All (λ r. Has r all × (p r ≡ true)) (keep p xs)
keep-Has p all [] h = tt
keep-Has p all (x ∷ xs) (here, rest) = elim (Bool-cases (p x)) [
  | inl yes_p ↦ rw yes_p ((here, yes_p), keep-Has p all xs rest)
  | inr no_p ↦ rw no_p (keep-Has p all xs rest)
]

pub served_rows-Has :
    (now : ℕ) (rows : List KeyRow)
    → All (λ r. Has r rows × (is_served now r ≡ true)) (served_rows now rows)
unfolding served_rows
served_rows-Has now rows =
    All-sort_func newest_first (λ r. Has r rows × (is_served now r ≡ true))
      (keep (is_served now) rows) (keep-Has (is_served now) rows rows (All-Has rows))

-- A statement at a later instant serves none of the rows that a cleanup removed.
served-not_reapable :
    (now later : ℕ) (r : KeyRow)
    → now ≤ later
    → is_served later r ≡ true
    → is_reapable now r ≡ false
served-not_reapable now later r h s = ground arith

pub keep-cleanup :
    (now later : ℕ) (rows : List KeyRow)
    → now ≤ later
    → keep (is_served later) (keep (λ r. not (is_reapable now r)) rows)
      ≡ keep (is_served later) rows
keep-cleanup now later [] h = refl
keep-cleanup now later (r ∷ rs) h = elim (Bool-cases (is_served later r)) [
  | inl served ↦
      let kept = served-not_reapable now later r h served in
      rw (kept, served) (ap (λ t. r ∷ t) (keep-cleanup now later rs h))
  | inr left ↦ elim (Bool-cases (is_reapable now r)) [
    | inl gone ↦ rw (gone, left) (keep-cleanup now later rs h)
    | inr stays ↦ rw (stays, left) (keep-cleanup now later rs h)
  ]
]

is_revoked→revoked : (s : Status) → is_revoked s ≡ true → s ≡ revoked
is_revoked→revoked active h = absurd (ground arith)
is_revoked→revoked retired h = absurd (ground arith)
is_revoked→revoked revoked h = refl

pub is_active→active : (s : Status) → is_active s ≡ true → s ≡ active
is_active→active active h = refl
is_active→active retired h = absurd (ground arith)
is_active→active revoked h = absurd (ground arith)

revoked_row-kid : (now : ℕ) (kid : String) (x : KeyRow) → (revoked_row now kid x).kid ≡ x.kid
revoked_row-kid now kid x = elim (Bool-cases (str_eq x.kid kid && not (is_revoked x.status))) [
  | inl hit ↦ rw hit refl
  | inr miss ↦ rw miss refl
]

revoked_row-revoked :
    (now : ℕ) (kid : String) (x : KeyRow) → x.kid ≡ kid → (revoked_row now kid x).status ≡ revoked
revoked_row-revoked now kid x same =
    elim (Bool-cases (str_eq x.kid kid && not (is_revoked x.status))) [
      | inl hit ↦ rw hit refl
      | inr miss ↦
          let was = is_revoked→revoked x.status (ground (arith, eq_iff x.kid kid)) in rw miss was
    ]

pub revoke_rows-revoked :
    (now : ℕ) (kid : String) (rows : List KeyRow) (r : KeyRow)
    → Has r (revoke_rows now kid rows)
    → r.kid ≡ kid
    → r.status ≡ revoked
revoke_rows-revoked now kid [] r h same = elim h [ ]
revoke_rows-revoked now kid (x ∷ xs) r (inr h) same = revoke_rows-revoked now kid xs r h same
revoke_rows-revoked now kid (x ∷ xs) r (inl e) same =
    let held : x.kid ≡ kid = sym (revoked_row-kid now kid x) ∙ ap (λ t. t.kid) (sym e) ∙ same in
    ap (λ t. t.status) e ∙ revoked_row-revoked now kid x held
