-- ===== src/IpIntel/RoundTrip.antt =====
-- A file that Marshal writes is read back by decode (format.go).
use vault.Common.{
  ℕ, ◌^◌, ◌<◌, ◌≡◌, refl, ap, sym, ◌∙◌, arith, true, false, some, List, [], ◌∷◌, ◌++◌, ltb, length,
  All, ok, ◌/◌, ◌&&◌, ◌==◌, Bool-cases, inl, inr,
}
use vault.Common.Sort.{sort_func, is_lt, sort_func-is_sorted, length-sort_func, All-sort_func}
use vault.IpIntel.{Addr, invalid, v4, v6, V4Range, V6Range, unmap, less128}
use vault.IpIntel.Format.{
  write_v4, write_v6, write_all, write_table, Range, marshal, v4_ranges, v6_ranges, cmp_v4, cmp_v6,
  add_v4, add_v6,
}
use vault.IpIntel.Decode.{
  Header, read_v4, read_v6, read_many, read_header, decode, returns, ◌>>=◌, judge_header, read_body,
  in_order,
}
use vault.IpIntel.Layout.{
  FitsV4, FitsV6, after-read, read-write_v4, read-write_v6, read-write_all, header-write_table,
  length-write_table,
}

append-nil : (xs : List ℕ) → xs ++ [] ≡ xs
append-nil [] = refl
append-nil (x ∷ xs) = ap (λ l. x ∷ l) (append-nil xs)

abbrev header_of : List V4Range → List V6Range → Header
header_of v4s v6s = record {
  magic = b'V' ∷ b'4' ∷ b'2' ∷ b'I' ∷ [];
  version = 1;
  v4n = length v4s;
  v6n = length v6s;
}

body-write_all :
    (v4s : List V4Range) (v6s : List V6Range)
    → All FitsV4 v4s
    → All FitsV6 v6s
    → read_body (header_of v4s v6s) (write_all write_v4 v4s ++ write_all write_v6 v6s)
      ≡ some (ok (in_order v4s v6s), [])
body-write_all v4s v6s p q =
    let fours =
      read-write_all FitsV4 read_v4 write_v4 read-write_v4 v4s (write_all write_v6 v6s) p in
    let sixes = read-write_all FitsV6 read_v6 write_v6 read-write_v6 v6s [] q in
    let end = append-nil (write_all write_v6 v6s) in
    after-read (read_many (length v4s) read_v4)
      (λ fs. read_many (length v6s) read_v6 >>= λ ss. returns (ok (in_order fs ss))) fours
    ∙ after-read (read_many (length v6s) read_v6) (λ ss. returns (ok (in_order v4s ss)))
        (ap (read_many (length v6s) read_v6) (sym end) ∙ sixes)

decode-write_table :
    (v4s : List V4Range) (v6s : List V6Range)
    → length v4s < 2 ^ 32
    → length v6s < 2 ^ 32
    → All FitsV4 v4s
    → All FitsV6 v6s
    → decode (write_table v4s v6s) ≡ some (ok (in_order v4s v6s))
unfolding decode
decode-write_table v4s v6s few few' p q =
    let size = length-write_table v4s v6s in
    let judged : (read_header >>= judge_header (length (write_table v4s v6s))) (write_table v4s v6s)
        ≡ some (ok (in_order v4s v6s), []) =
      after-read read_header (judge_header (length (write_table v4s v6s)))
        (header-write_table v4s v6s few few')
      ∙ ground (arith, size, body-write_all v4s v6s p q) in
    ground (arith, size, judged)

-- The numbers of an address are in range.
abbrev pub IsAddr : Addr → Type 0
IsAddr invalid = Unit
IsAddr (v4 a) = a < 2 ^ 32
IsAddr (v6 hi lo) = (hi < 2 ^ 64) × (lo < 2 ^ 64)

abbrev pub HasAddrs : Range → Type 0
HasAddrs r = IsAddr r.lo × IsAddr r.hi

unmap-IsAddr : (a : Addr) → IsAddr a → IsAddr (unmap a)
unmap-IsAddr invalid h = tt
unmap-IsAddr (v4 a) h = h
unmap-IsAddr (v6 hi lo) h = elim (Bool-cases ((hi == 0) && (lo / 2 ^ 32 == 0xffff))) [
  | inl mapped ↦ rw mapped (omega arith)
  | inr native ↦ rw native h
]

add_v4-Fits :
    (r : Range) (lo hi : Addr) (rest : List V4Range)
    → IsAddr lo
    → IsAddr hi
    → All FitsV4 rest
    → All FitsV4 (add_v4 r lo hi rest)
add_v4-Fits r (v4 s) (v4 e) rest p q h = elim (Bool-cases (ltb e s)) [
  | inl empty ↦ rw empty h
  | inr range ↦ rw range ((p, q), h)
]
add_v4-Fits r invalid hi rest p q h = h
add_v4-Fits r (v6 a b) hi rest p q h = h
add_v4-Fits r (v4 s) invalid rest p q h = h
add_v4-Fits r (v4 s) (v6 a b) rest p q h = h

add_v6-Fits :
    (r : Range) (lo hi : Addr) (rest : List V6Range)
    → IsAddr lo
    → IsAddr hi
    → All FitsV6 rest
    → All FitsV6 (add_v6 r lo hi rest)
add_v6-Fits r (v6 sh sl) (v6 eh el) rest p q h = elim (Bool-cases (less128 eh el sh sl)) [
  | inl empty ↦ rw empty h
  | inr range ↦ rw range ((p.0, p.1, q.0, q.1), h)
]
add_v6-Fits r invalid hi rest p q h = h
add_v6-Fits r (v4 s) hi rest p q h = h
add_v6-Fits r (v6 a b) invalid rest p q h = h
add_v6-Fits r (v6 a b) (v4 e) rest p q h = h

v4_ranges-Fit : (rs : List Range) → All HasAddrs rs → All FitsV4 (v4_ranges rs)
v4_ranges-Fit [] h = tt
v4_ranges-Fit (r ∷ rs) ((l, h), hs) =
    add_v4-Fits r (unmap r.lo) (unmap r.hi) (v4_ranges rs) (unmap-IsAddr r.lo l)
      (unmap-IsAddr r.hi h) (v4_ranges-Fit rs hs)

v6_ranges-Fit : (rs : List Range) → All HasAddrs rs → All FitsV6 (v6_ranges rs)
v6_ranges-Fit [] h = tt
v6_ranges-Fit (r ∷ rs) ((l, h), hs) =
    add_v6-Fits r (unmap r.lo) (unmap r.hi) (v6_ranges rs) (unmap-IsAddr r.lo l)
      (unmap-IsAddr r.hi h) (v6_ranges-Fit rs hs)

pub cmp_v4-asym : (a b : V4Range) → is_lt (cmp_v4 a b) ≡ true → is_lt (cmp_v4 b a) ≡ false
cmp_v4-asym a b h = ground arith

pub cmp_v6-asym : (a b : V6Range) → is_lt (cmp_v6 a b) ≡ true → is_lt (cmp_v6 b a) ≡ false
cmp_v6-asym a b h = ground arith

-- A file that Marshal writes, of fewer than 2^32 ranges of each family between addresses in range,
-- is decoded without an error to exactly the ranges that it kept, in ascending order.
pub decode-marshal :
    (ranges : List Range)
    → All HasAddrs ranges
    → length (v4_ranges ranges) < 2 ^ 32
    → length (v6_ranges ranges) < 2 ^ 32
    → decode (marshal ranges)
      ≡ some (
          ok (record {
            v4s = sort_func cmp_v4 (v4_ranges ranges);
            v6s = sort_func cmp_v6 (v6_ranges ranges);
          }))
unfolding marshal
decode-marshal ranges h few few' =
    let fours = sort_func cmp_v4 (v4_ranges ranges) in
    let sixes = sort_func cmp_v6 (v6_ranges ranges) in
    let read =
      decode-write_table fours sixes (rw (length-sort_func cmp_v4 (v4_ranges ranges)) few)
        (rw (length-sort_func cmp_v6 (v6_ranges ranges)) few')
        (All-sort_func cmp_v4 FitsV4 (v4_ranges ranges) (v4_ranges-Fit ranges h))
        (All-sort_func cmp_v6 FitsV6 (v6_ranges ranges) (v6_ranges-Fit ranges h)) in
    rw
      (
        sort_func-is_sorted cmp_v4 cmp_v4-asym (v4_ranges ranges),
        sort_func-is_sorted cmp_v6 cmp_v6-asym (v6_ranges ranges),
      )
      at read
