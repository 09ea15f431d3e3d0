-- ===== src/IpIntel/Ranges.antt =====
-- The binary search of lookup.go against a search from the front.
use vault.Common.{
  ℕ, zero, suc, ◌+◌, ◌-◌, ◌*◌, ◌^◌, ◌≤◌, ◌<◌, ◌≡◌, refl, ap, sym, ◌∙◌, ◌/◌, ◌%◌, arith, Bool, ◌&&◌,
  not, Option, none, some, List, [], ◌∷◌, ◌==◌, ltb, leb, if◌then◌else◌, length, All, Bool-cases,
  Option-cases, inl, inr,
}
use vault.Common.Search.{
  search, test_at, get_elem?, count_before, last_before, IsUpward, search-count_before,
  last_before-none, last_before-some,
}
use vault.IpIntel.{
  Addr, invalid, v4, v6, Info, V4Range, V6Range, Snapshot, no_info, info_from, less128,
  begins_after, begins_after128, judge_v4, judge_v6, lookup_v4, lookup_v6, unmap, is_local_v4,
  is_local_v6, lookup_unmapped, lookup_addr,
}

module _ {A : Type 0} (start end : A → ℕ) where
  -- Ranges in ascending order, none of which reaches the next.
  abbrev pub IsSeparated : List A → Type 0
  IsSeparated [] = Unit
  IsSeparated (x ∷ xs) = (start x ≤ end x) × All (λ y. end x < start y) xs × IsSeparated xs

  -- The first range that holds the number.
  abbrev pub find_range : ℕ → List A → Option A
  find_range n [] = none
  find_range n (x ∷ xs) = if leb (start x) n && leb n (end x) then some x else find_range n xs

  module _ (n : ℕ) (past reaches : A → Bool) where
    -- The tests of the code are those on numbers.
    abbrev pub AreTests : List A → Type 0
    AreTests [] = Unit
    AreTests (x ∷ xs) = (past x ≡ ltb n (start x)) × (reaches x ≡ leb n (end x)) × AreTests xs

    abbrev pub reached : Option A → Option A
    reached none = none
    reached (some r) = if reaches r then some r else none

    upward : (xs : List A) → IsSeparated xs → AreTests xs → IsUpward past xs
    upward [] s t = tt
    upward (x ∷ []) s t = (inr refl, tt)
    upward (x ∷ y ∷ ys) s t = (ground arith, upward (y ∷ ys) s.2 t.2)

    find_range-none :
        (k : ℕ) (xs : List A) → n ≤ k → All (λ y. k < start y) xs → find_range n xs ≡ none
    find_range-none k [] le h = refl
    find_range-none k (x ∷ xs) le h = ground (arith, find_range-none k xs)

    last_before-begins :
        (k : ℕ) (xs : List A) (y : A)
        → AreTests xs
        → All (λ z. k < start z) xs
        → last_before past xs ≡ some y
        → k < n
    last_before-begins k [] y t a h = absurd (ground arith)
    last_before-begins k (x ∷ xs) y t a h = ground (arith)

    pub reached-last_before :
        (xs : List A)
        → IsSeparated xs
        → AreTests xs
        → reached (last_before past xs) ≡ find_range n xs
    reached-last_before [] s t = refl
    reached-last_before (x ∷ xs) s t = elim (Bool-cases (past x)) [
      | inl over ↦ let rest = find_range-none (end x) xs in rw over (ground (arith, rest))
      | inr before ↦
          let ih = reached-last_before xs s.2 t.2 in
          elim (Option-cases (last_before past xs)) [
            | inl last ↦ rw (before, last) (ground (arith, ih, last))
            | inr (y, later) ↦
                let near = last_before-begins (end x) xs y t.2 s.1 later in
                rw (before, later) (ground (arith, ih, later, near))
          ]
    ]

abbrev pub number : ℕ → ℕ → ℕ
number hi lo = hi * 2 ^ 64 + lo

abbrev pub start_v6 : V6Range → ℕ
start_v6 r = number r.start_hi r.start_lo

abbrev pub end_v6 : V6Range → ℕ
end_v6 r = number r.end_hi r.end_lo

abbrev pub HasLowHalves : V6Range → Type 0
HasLowHalves r = (r.start_lo < 2 ^ 64) × (r.end_lo < 2 ^ 64)

-- A table as the generator writes it.
pub record IsTable (s : Snapshot) : Type 0 where
  pub v4_separated : IsSeparated (λ r. r.start) (λ r. r.end) s.v4s
  pub v6_separated : IsSeparated start_v6 end_v6 s.v6s
  pub v6_halves : All HasLowHalves s.v6s

abbrev pub info_v4 : Option V4Range → Info
info_v4 none = no_info
info_v4 (some r) = info_from r.cc r.flags

abbrev pub info_v6 : Option V6Range → Info
info_v6 none = no_info
info_v6 (some r) = info_from r.cc r.flags

-- What the table says of a public address: the entry of the first range that holds it.
abbrev pub known : Snapshot → Addr → Info
known s invalid = no_info
known s (v4 a) =
    if is_local_v4 a then no_info else info_v4 (find_range (λ r. r.start) (λ r. r.end) a s.v4s)
known s (v6 hi lo) =
    if is_local_v6 hi lo then no_info else info_v6 (find_range start_v6 end_v6 (number hi lo) s.v6s)

less128-number :
    (a b c d : ℕ) → b < 2 ^ 64 → d < 2 ^ 64 → less128 a b c d ≡ ltb (number a b) (number c d)
less128-number a b c d p q = ground arith

tests_v4 :
    (a : ℕ) (rs : List V4Range)
    → AreTests (λ r. r.start) (λ r. r.end) a (begins_after a) (λ r. leb a r.end) rs
tests_v4 a [] = tt
tests_v4 a (r ∷ rs) = (refl, refl, tests_v4 a rs)

abbrev reaches128 : ℕ → ℕ → V6Range → Bool
reaches128 hi lo r = not (less128 r.end_hi r.end_lo hi lo)

tests_v6 :
    (hi lo : ℕ)
    → lo < 2 ^ 64
    → (rs : List V6Range) → All HasLowHalves rs
    → AreTests start_v6 end_v6 (number hi lo) (begins_after128 hi lo) (reaches128 hi lo) rs
tests_v6 hi lo h [] b = tt
tests_v6 hi lo h (r ∷ rs) (b, bs) = (
  less128-number hi lo r.start_hi r.start_lo h b.0,
  ground (arith, less128-number r.end_hi r.end_lo hi lo b.1 h),
  tests_v6 hi lo h rs bs,
)

-- The entry before the index that the search finds.
judged :
    {A : Type 0} (past : A → Bool) (judge : Option A → Info) (xs : List A)
    → judge none ≡ no_info
    → IsUpward past xs
    → (if search (length xs) (test_at past xs) == 0
        then no_info
        else judge (get_elem? xs (search (length xs) (test_at past xs) - 1)))
      ≡ judge (last_before past xs)
judged past judge xs unknown u = rw (search-count_before past xs u) (go (count_before past xs) refl)
  where
    go :
        (n : ℕ)
        → count_before past xs ≡ n
        → (if n == 0 then no_info else judge (get_elem? xs (n - 1))) ≡ judge (last_before past xs)
    go zero e = rw (last_before-none past xs e) (sym unknown)
    go (suc n) e = let (y, here, last) = last_before-some past xs n e in ground (arith, here, last)

lookup_v4-find :
    (s : Snapshot) (a : ℕ)
    → IsTable s
    → lookup_v4 s a ≡ info_v4 (find_range (λ r. r.start) (λ r. r.end) a s.v4s)
unfolding lookup_v4
lookup_v4-find s a t =
    let tests = tests_v4 a s.v4s in
    let reach : V4Range → Bool = λ r. leb a r.end in
    let up =
      upward (λ r. r.start) (λ r. r.end) a (begins_after a) reach s.v4s t.v4_separated tests in
    judged (begins_after a) (judge_v4 a) s.v4s refl up
    ∙ judge_v4-reached a (last_before (begins_after a) s.v4s)
    ∙ ap info_v4 (
        reached-last_before (λ r. r.start) (λ r. r.end) a (begins_after a) reach s.v4s
          t.v4_separated tests)
  where
    judge_v4-reached :
        (n : ℕ) (o : Option V4Range)
        → judge_v4 n o
          ≡ info_v4 (reached (λ r. r.start) (λ r. r.end) n (begins_after n) (λ r. leb n r.end) o)
    judge_v4-reached n none = refl
    judge_v4-reached n (some r) = ground arith

lookup_v6-find :
    (s : Snapshot) (hi lo : ℕ)
    → lo < 2 ^ 64
    → IsTable s
    → lookup_v6 s hi lo ≡ info_v6 (find_range start_v6 end_v6 (number hi lo) s.v6s)
unfolding lookup_v6
lookup_v6-find s hi lo h t =
    let tests = tests_v6 hi lo h s.v6s t.v6_halves in
    let past = begins_after128 hi lo in
    let reach = reaches128 hi lo in
    let up = upward start_v6 end_v6 (number hi lo) past reach s.v6s t.v6_separated tests in
    judged past (judge_v6 hi lo) s.v6s refl up
    ∙ judge_v6-reached (last_before past s.v6s)
    ∙ ap info_v6
        (reached-last_before start_v6 end_v6 (number hi lo) past reach s.v6s t.v6_separated tests)
  where
    judge_v6-reached :
        (o : Option V6Range)
        → judge_v6 hi lo o
          ≡ info_v6
              (reached start_v6 end_v6 (number hi lo) (begins_after128 hi lo) (reaches128 hi lo) o)
    judge_v6-reached none = refl
    judge_v6-reached (some r) = ground arith

-- The halves of an address are below 2^64.
abbrev pub HasLowHalf : Addr → Type 0
HasLowHalf invalid = Unit
HasLowHalf (v4 a) = Unit
HasLowHalf (v6 hi lo) = lo < 2 ^ 64

known-unmapped :
    (s : Snapshot) (ip : Addr)
    → IsTable s
    → HasLowHalf ip
    → lookup_unmapped (some s) ip ≡ known s ip
known-unmapped s invalid t h = refl
known-unmapped s (v4 a) t h = rw (lookup_v4-find s a t) refl
known-unmapped s (v6 hi lo) t h = rw (lookup_v6-find s hi lo h t) refl

-- On a table as the generator writes it (each range ordered and before the next, the halves of IPv6
-- addresses below 2^64) the two binary searches find what a search from the front finds: nothing
-- for an address that is no address, or is a local one, and else the entry of the range that holds
-- it, if there is one. An IPv4 address written as IPv6 counts as itself.
pub lookup_addr-known :
    (s : Snapshot) (ip : Addr)
    → IsTable s
    → HasLowHalf ip
    → lookup_addr (some s) ip ≡ known s (unmap ip)
unfolding lookup_addr
lookup_addr-known s invalid t h = refl
lookup_addr-known s (v4 a) t h = known-unmapped s (v4 a) t tt
lookup_addr-known s (v6 hi lo) t h = elim (Bool-cases (hi == 0 && (lo / 2 ^ 32 == 0xffff))) [
  | inl mapped ↦ rw mapped (known-unmapped s (v4 (lo % 2 ^ 32)) t tt)
  | inr native ↦ rw native (known-unmapped s (v6 hi lo) t h)
]
