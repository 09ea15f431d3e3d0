-- ===== src/Common/Sort.antt =====
-- Go's slices.SortFunc, as an insertion sort, and slices.IsSortedFunc. `cmp` answers lt, eq or gt.
use Prim.Native.Nat.{Ordering, suc}
use mathlib.Core.Path.{◌≡◌, refl, ap, ◌∙◌}
use mathlib.Core.Logic.{inl, inr}
use mathlib.Core.Bool.{Bool, true, false}
use mathlib.Core.List.{List, [], ◌∷◌}
use native.Mathlib.Omega.{arith}
use vault.Common.Tests.{if◌then◌else◌, Bool-cases}
use vault.Common.Lists.{exists, length, All}

abbrev pub is_lt : Ordering → Bool
is_lt Ordering.lt = true
is_lt Ordering.eq = false
is_lt Ordering.gt = false

module _ {A : Type 0} (cmp : A → A → Ordering) where
  abbrev pub insert_sorted : A → List A → List A
  insert_sorted x [] = x ∷ []
  insert_sorted x (y ∷ ys) =
      let rest = insert_sorted x ys in if is_lt (cmp y x) then y ∷ rest else x ∷ y ∷ ys

  unfoldable pub sort_func : List A → List A
  sort_func [] = []
  sort_func (x ∷ xs) = insert_sorted x (sort_func xs)

  abbrev pub is_sorted_func : List A → Bool
  is_sorted_func [] = true
  is_sorted_func (x ∷ []) = true
  is_sorted_func (x ∷ y ∷ ys) = if is_lt (cmp y x) then false else is_sorted_func (y ∷ ys)

  module _ (asym : (a b : A) → is_lt (cmp a b) ≡ true → is_lt (cmp b a) ≡ false) where
    insert_sorted-is_sorted :
        (x : A) (ys : List A)
        → is_sorted_func ys ≡ true
        → is_sorted_func (insert_sorted x ys) ≡ true
    insert_sorted-is_sorted x [] h = refl
    insert_sorted-is_sorted x (y ∷ []) h = ground (arith, asym y x)
    insert_sorted-is_sorted x (y ∷ z ∷ zs) h =
        let rest = insert_sorted-is_sorted x (z ∷ zs) in ground (arith, asym y x, rest)

    pub sort_func-is_sorted : (xs : List A) → is_sorted_func (sort_func xs) ≡ true
    unfolding sort_func
    sort_func-is_sorted [] = refl
    sort_func-is_sorted (x ∷ xs) = insert_sorted-is_sorted x (sort_func xs) (sort_func-is_sorted xs)

  exists-insert_sorted :
      (p : A → Bool) (x : A) (ys : List A)
      → exists p (insert_sorted x ys) ≡ (if p x then true else exists p ys)
  exists-insert_sorted p x [] = refl
  exists-insert_sorted p x (y ∷ ys) = ground (arith, exists-insert_sorted p x ys)

  -- A sorted list holds what the list held.
  pub exists-sort_func : (p : A → Bool) (xs : List A) → exists p (sort_func xs) ≡ exists p xs
  unfolding sort_func
  exists-sort_func p [] = refl
  exists-sort_func p (x ∷ xs) =
      ground (arith, exists-sort_func p xs, exists-insert_sorted p x (sort_func xs))

  length-insert_sorted : (x : A) (ys : List A) → length (insert_sorted x ys) ≡ suc (length ys)
  length-insert_sorted x [] = refl
  length-insert_sorted x (y ∷ ys) = ground (arith, length-insert_sorted x ys)

  pub length-sort_func : (xs : List A) → length (sort_func xs) ≡ length xs
  unfolding sort_func
  length-sort_func [] = refl
  length-sort_func (x ∷ xs) = length-insert_sorted x (sort_func xs) ∙ ap suc (length-sort_func xs)

  module _ (P : A → Type 0) where
    All-insert_sorted : (x : A) (ys : List A) → P x → All P ys → All P (insert_sorted x ys)
    All-insert_sorted x [] p h = (p, tt)
    All-insert_sorted x (y ∷ ys) p h = elim (Bool-cases (is_lt (cmp y x))) [
      | inl before ↦ rw before (h.0, All-insert_sorted x ys p h.1)
      | inr here ↦ rw here (p, h)
    ]

    pub All-sort_func : (xs : List A) → All P xs → All P (sort_func xs)
    unfolding sort_func
    All-sort_func [] h = tt
    All-sort_func (x ∷ xs) (p, h) = All-insert_sorted x (sort_func xs) p (All-sort_func xs h)
