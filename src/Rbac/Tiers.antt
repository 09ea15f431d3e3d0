-- ===== src/Rbac/Tiers.antt =====
-- The tiers of roles, and what each holds (HasPermission, PermissionsForRole).
use vault.Common.{
  ℕ, ◌≤◌, ◌⊎◌, String, ◌≡◌, refl, sym, ◌∙◌, Bool, true, false, ◌&&◌, List, [], ◌∷◌, arith, inl, inr,
  str_eq, eq_iff, if◌then◌else◌, leb, keep, Bool-cases,
}
use vault.Rbac.{
  role_viewer, role_operator, role_super_admin, is_valid_role, listed, viewer_perms, operator_perms,
  super_admin_perms, has_permission, vocabulary, permissions_for_role,
}

listed-keep :
    (p : String) (f : String → Bool) (xs : List String)
    → listed p (keep f xs) ≡ (listed p xs && f p)
listed-keep p f [] = refl
listed-keep p f (x ∷ xs) = elim (Bool-cases (str_eq p x)) [
  | inl e ↦ let same : p ≡ x = (eq_iff p x).0 e in ground (arith, listed-keep p f xs)
  | inr e ↦ ground (arith, listed-keep p f xs)
]

-- Whether every member of `xs` is in `ys`.
abbrev is_covered : List String → List String → Bool
is_covered ys [] = true
is_covered ys (x ∷ xs) = listed x ys && is_covered ys xs

covered-listed :
    (ys : List String) (p : String) (xs : List String)
    → is_covered ys xs ≡ true
    → listed p xs ≡ true
    → listed p ys ≡ true
covered-listed ys p [] c h = absurd (ground arith)
covered-listed ys p (x ∷ xs) c h = elim (Bool-cases (str_eq p x)) [
  | inl e ↦ let same : p ≡ x = (eq_iff p x).0 e in ground (arith, same)
  | inr e ↦ covered-listed ys p xs (ground arith) (ground arith)
]

viewer_perms-covered : is_covered vocabulary viewer_perms ≡ true
unfolding vocabulary viewer_perms
viewer_perms-covered = refl

operator_perms-covered : is_covered vocabulary operator_perms ≡ true
unfolding vocabulary operator_perms
operator_perms-covered = refl

super_admin_perms-covered : is_covered vocabulary super_admin_perms ≡ true
unfolding vocabulary super_admin_perms
super_admin_perms-covered = refl

-- What a role holds is in one of the tables.
held-cases :
    (r p : String)
    → has_permission r p ≡ true
    → (listed p viewer_perms ≡ true)
      ⊎ (listed p operator_perms ≡ true)
      ⊎ (listed p super_admin_perms ≡ true)
unfolding has_permission
held-cases r p h = ground arith

held-listed : (r p : String) → has_permission r p ≡ true → listed p vocabulary ≡ true
held-listed r p h = elim (held-cases r p h) [
  | inl a ↦ covered-listed vocabulary p viewer_perms viewer_perms-covered a
  | inr (inl a) ↦ covered-listed vocabulary p operator_perms operator_perms-covered a
  | inr (inr a) ↦ covered-listed vocabulary p super_admin_perms super_admin_perms-covered a
]

-- The list that PermissionsForRole returns holds exactly the permissions that HasPermission grants,
-- for every role and every text: the vocabulary it goes through leaves none out.
permissions_for_role-exact : (r p : String) → listed p (permissions_for_role r) ≡ has_permission r p
unfolding permissions_for_role
permissions_for_role-exact r p = elim (Bool-cases (has_permission r p)) [
  | inl h ↦ listed-keep p (has_permission r) vocabulary ∙ ground (arith, held-listed r p h)
  | inr h ↦ listed-keep p (has_permission r) vocabulary ∙ ground arith
]

-- The tiers, lowest first; 0 for a text that is no role.
abbrev pub rank : String → ℕ
rank r =
    if str_eq r role_viewer
    then 1
    else if str_eq r role_operator
    then 2
    else if str_eq r role_super_admin
    then 3
    else 0

unfoldable held_by : ℕ → String → Bool
held_by n p =
    if leb 1 n && listed p viewer_perms
    then true
    else if leb 2 n && listed p operator_perms
    then true
    else leb 3 n && listed p super_admin_perms

has_permission-rank : (r p : String) → has_permission r p ≡ held_by (rank r) p
unfolding has_permission held_by
has_permission-rank r p = elim (Bool-cases (str_eq r role_super_admin)) [
  | inl e ↦
      let same : r ≡ role_super_admin = (eq_iff r role_super_admin).0 e in rw same (ground arith)
  | inr a ↦ elim (Bool-cases (str_eq r role_operator)) [
    | inl e ↦ let same : r ≡ role_operator = (eq_iff r role_operator).0 e in rw same (ground arith)
    | inr b ↦ elim (Bool-cases (str_eq r role_viewer)) [
      | inl c ↦ ground arith
      | inr c ↦ ground arith
    ]
  ]
]

held_by_mono : (m n : ℕ) (p : String) → m ≤ n → held_by m p ≡ true → held_by n p ≡ true
unfolding held_by
held_by_mono m n p le h = ground arith

-- A role holds everything that a role of its tier or of a lower one holds.
pub has_permission_mono :
    (r s p : String) → rank r ≤ rank s → has_permission r p ≡ true → has_permission s p ≡ true
has_permission_mono r s p le h =
    has_permission-rank s p
    ∙ held_by_mono (rank r) (rank s) p le (sym (has_permission-rank r p) ∙ h)

-- An unrecognised role holds nothing, and an unrecognised permission is held by no role.
has_permission-fails_closed :
    (r p : String) → (is_valid_role r && listed p vocabulary) ≡ false → has_permission r p ≡ false
unfolding has_permission is_valid_role
has_permission-fails_closed r p h = elim (Bool-cases (has_permission r p)) [
  | inl y ↦ absurd (ground (arith, held-listed r p y))
  | inr n ↦ n
]
