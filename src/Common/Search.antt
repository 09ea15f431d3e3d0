-- ===== src/Common/Search.antt =====
-- Go's sort.Search and slices.SortFunc. The search halves [i, j) until it is empty; every round
-- shrinks it, so as many rounds as there are indices are enough.
use Prim.Native.Nat.{ℕ, zero, suc, ◌+◌, ◌-◌, ◌/◌, ◌≤◌, ◌<◌}
use mathlib.Core.Path.{◌≡◌, refl}
use mathlib.Core.Logic.{◌⊎◌}
use mathlib.Core.Bool.{Bool, true, false}
use mathlib.Core.Option.{Option, none, some}
use mathlib.Core.List.{List, [], ◌∷◌}
use native.Mathlib.Omega.{arith}
use vault.Common.Tests.{if◌then◌else◌, ltb}
use vault.Common.Lists.{length}

unfoldable pub search_loop : ℕ → (ℕ → Bool) → ℕ → ℕ → ℕ
search_loop zero f i j = i
search_loop (suc rounds) f i j =
    let h = (i + j) / 2 in
    let right = search_loop rounds f (h + 1) j in
    let left = search_loop rounds f i h in if ltb i j then (if f h then left else right) else i

unfoldable pub search : ℕ → (ℕ → Bool) → ℕ
unfolding search_loop
search n f = search_loop n f 0 n

module _ (f : ℕ → Bool) (n m : ℕ) where
  search_loop-finds :
      ((k : ℕ) → k < m → f k ≡ false)
      → ((k : ℕ) → m ≤ k → k < n → f k ≡ true)
      → (rounds i j : ℕ) → j - i ≤ rounds
      → i ≤ m
      → m ≤ j
      → j ≤ n
      → search_loop rounds f i j ≡ m
  unfolding search_loop
  search_loop-finds below above zero i j enough lo hi end = ground arith
  search_loop-finds below above (suc rounds) i j enough lo hi end =
      let h = (i + j) / 2 in
      let right = search_loop-finds below above rounds (h + 1) j in
      let left = search_loop-finds below above rounds i h in
      ground (arith, below h, above h, right, left)

  -- A test that is false below m and true from there on is found to turn at m.
  pub search-finds :
      m ≤ n
      → ((k : ℕ) → k < m → f k ≡ false)
      → ((k : ℕ) → m ≤ k → k < n → f k ≡ true)
      → search n f ≡ m
  unfolding search
  search-finds le below above =
      search_loop-finds below above n 0 n (omega arith) (omega arith) le (omega arith)

module _ {A : Type 0} where
  abbrev pub get_elem? : List A → ℕ → Option A
  get_elem? [] i = none
  get_elem? (x ∷ xs) zero = some x
  get_elem? (x ∷ xs) (suc i) = get_elem? xs i

  -- An index out of range would panic; sort.Search asks for none.
  abbrev pub test_at : (A → Bool) → List A → ℕ → Bool
  test_at past xs i = elim (get_elem? xs i) [ none ↦ true | some x ↦ past x ]

  -- The members before the first one that is past.
  abbrev pub count_before : (A → Bool) → List A → ℕ
  count_before past [] = 0
  count_before past (x ∷ xs) = let n = count_before past xs in if past x then 0 else suc n

  abbrev pub last_before : (A → Bool) → List A → Option A
  last_before past [] = none
  last_before past (x ∷ xs) =
      if past x then none else elim (last_before past xs) [ none ↦ some x | some y ↦ some y ]

  -- Once a member is past, so is each after it.
  abbrev pub IsUpward : (A → Bool) → List A → Type 0
  IsUpward past [] = Unit
  IsUpward past (x ∷ xs) = ((past x ≡ false) ⊎ (count_before past xs ≡ 0)) × IsUpward past xs

  module _ (past : A → Bool) where
    test_at-below : (xs : List A) (k : ℕ) → k < count_before past xs → test_at past xs k ≡ false
    test_at-below [] k h = absurd (omega arith)
    test_at-below (x ∷ xs) zero h = ground arith
    test_at-below (x ∷ xs) (suc k) h = ground (arith, test_at-below xs k)

    test_at-above :
        (xs : List A)
        → IsUpward past xs
        → (k : ℕ) → count_before past xs ≤ k
        → test_at past xs k ≡ true
    test_at-above [] u k h = refl
    test_at-above (x ∷ xs) u zero h = ground arith
    test_at-above (x ∷ xs) (u, us) (suc k) h = ground (arith, test_at-above xs us k)

    count_before-le : (xs : List A) → count_before past xs ≤ length xs
    count_before-le [] = omega arith
    count_before-le (x ∷ xs) = ground (arith, count_before-le xs)

    pub search-count_before :
        (xs : List A)
        → IsUpward past xs
        → search (length xs) (test_at past xs) ≡ count_before past xs
    search-count_before xs u =
        search-finds (test_at past xs) (length xs) (count_before past xs) (count_before-le xs)
          (test_at-below xs) (λ k h j. test_at-above xs u k h)

    pub last_before-none : (xs : List A) → count_before past xs ≡ 0 → last_before past xs ≡ none
    last_before-none [] h = refl
    last_before-none (x ∷ xs) h = ground arith

    -- The member at the index before the one that the search finds.
    pub last_before-some :
        (xs : List A) (n : ℕ)
        → count_before past xs ≡ suc n
        → (y : A) × (get_elem? xs n ≡ some y) × (last_before past xs ≡ some y)
    last_before-some [] n h = absurd (ground arith)
    last_before-some (x ∷ xs) zero h = (x, refl, ground (arith, last_before-none xs))
    last_before-some (x ∷ xs) (suc n) h =
        let (y, here, last) = last_before-some xs n (ground arith) in
        (y, here, ground (arith, last))
