-- ===== src/IpIntel/Layout.antt =====
-- The bytes of a record, of a run of records and of a header, as Marshal writes them and decode reads
-- them (format.go).
use vault.Common.{
  ℕ, zero, suc, ◌+◌, ◌*◌, ◌/◌, ◌%◌, ◌^◌, ◌<◌, ◌≡◌, refl, ap, sym, ◌∙◌, arith, some, List, [], ◌∷◌,
  ◌++◌, length, length-append, All,
}
use vault.IpIntel.{V4Range, V6Range}
use vault.IpIntel.Format.{
  put_uint, get_uint, write_v4, write_v6, write_all, write_table, blob_magic,
}
use vault.IpIntel.Decode.{Reader, slice, read_v4, read_v6, read_many, read_header, returns, ◌>>=◌}

-- 256 to the power k.
abbrev pub bound : ℕ → ℕ
bound zero = 1
bound (suc k) = 256 * bound k

get_uint-put_uint : (k n : ℕ) → n < bound k → get_uint (put_uint k n) ≡ n
unfolding put_uint get_uint
get_uint-put_uint zero n h = omega arith
get_uint-put_uint (suc k) n h = omega (arith, get_uint-put_uint k (n / 256) (omega arith))

length-put_uint : (k n : ℕ) → length (put_uint k n) ≡ k
unfolding put_uint
length-put_uint zero n = refl
length-put_uint (suc k) n = ap suc (length-put_uint k (n / 256))

slice-append : (xs ys : List ℕ) → slice (length xs) (xs ++ ys) ≡ some (xs, ys)
unfolding slice
slice-append [] ys = refl
slice-append (x ∷ xs) ys = rw (slice-append xs ys) refl

slice-put_uint : (k n : ℕ) (ys : List ℕ) → slice k (put_uint k n ++ ys) ≡ some (put_uint k n, ys)
slice-put_uint k n ys =
    ap (λ j. slice j (put_uint k n ++ ys)) (sym (length-put_uint k n))
    ∙ slice-append (put_uint k n) ys

pub append_assoc : (xs ys zs : List ℕ) → (xs ++ ys) ++ zs ≡ xs ++ (ys ++ zs)
append_assoc [] ys zs = refl
append_assoc (x ∷ xs) ys zs = ap (λ l. x ∷ l) (append_assoc xs ys zs)

pub after-read :
    {A B : Type 0} (read : Reader A) (next : A → Reader B) {bytes rest : List ℕ} {a : A}
    → read bytes ≡ some (a, rest)
    → (read >>= next) bytes ≡ next a rest
after-read read next h = rw (h, ◌>>=◌) refl

-- A number of k bytes that is read where it was written.
read-put_uint :
    {A : Type 0} (k n : ℕ) (next : List ℕ → Reader A) (rest : List ℕ)
    → (slice k >>= next) (put_uint k n ++ rest) ≡ next (put_uint k n) rest
read-put_uint k n next rest = after-read (slice k) next (slice-put_uint k n rest)

abbrev pub FitsV4 : V4Range → Type 0
FitsV4 r = (r.start < 2 ^ 32) × (r.end < 2 ^ 32)

abbrev pub FitsV6 : V6Range → Type 0
FitsV6 r = (r.start_hi < 2 ^ 64) × (r.start_lo < 2 ^ 64) × (r.end_hi < 2 ^ 64) × (r.end_lo < 2 ^ 64)

pub read-write_v4 :
    (r : V4Range) (rest : List ℕ) → FitsV4 r → read_v4 (write_v4 r ++ rest) ≡ some (r, rest)
unfolding read_v4
read-write_v4 r rest (s, e) =
    simp (append_assoc, read-put_uint, get_uint-put_uint 4 r.start s, get_uint-put_uint 4 r.end e)

pub read-write_v6 :
    (r : V6Range) (rest : List ℕ) → FitsV6 r → read_v6 (write_v6 r ++ rest) ≡ some (r, rest)
unfolding read_v6
read-write_v6 r rest (sh, sl, eh, el) = simp (
  append_assoc,
  read-put_uint,
  get_uint-put_uint 8 r.start_hi sh,
  get_uint-put_uint 8 r.start_lo sl,
  get_uint-put_uint 8 r.end_hi eh,
  get_uint-put_uint 8 r.end_lo el,
)

pub read-write_all :
    {A : Type 0} (Fits : A → Type 0) (read : Reader A) (write : A → List ℕ)
    → ((x : A) (rest : List ℕ) → Fits x → read (write x ++ rest) ≡ some (x, rest))
    → (xs : List A) (rest : List ℕ) → All Fits xs
    → read_many (length xs) read (write_all write xs ++ rest) ≡ some (xs, rest)
unfolding read_many
read-write_all Fits read write one [] rest h = refl
read-write_all Fits read write one (x ∷ xs) rest (h, hs) =
    let many = read-write_all Fits read write one xs rest hs in
    rw (append_assoc (write x) (write_all write xs) rest) (
      after-read read (λ y. read_many (length xs) read >>= λ ys. returns (y ∷ ys))
        (one x (write_all write xs ++ rest) h)
      ∙ after-read (read_many (length xs) read) (λ ys. returns (x ∷ ys)) many)

pub header-write_table :
    (v4s : List V4Range) (v6s : List V6Range)
    → length v4s < 2 ^ 32
    → length v6s < 2 ^ 32
    → read_header (write_table v4s v6s)
      ≡ some (
        record { magic = blob_magic; version = 1; v4n = length v4s; v6n = length v6s },
        write_all write_v4 v4s ++ write_all write_v6 v6s,
      )
unfolding read_header slice
header-write_table v4s v6s p q =
    let e4 : length v4s % 2 ^ 32 ≡ length v4s = omega arith in
    let e6 : length v6s % 2 ^ 32 ≡ length v6s = omega arith in
    simp (
      e4,
      e6,
      read-put_uint,
      get_uint-put_uint 4 (length v4s) p,
      get_uint-put_uint 4 (length v6s) q,
    )

length-write_all :
    {A : Type 0} (write : A → List ℕ) (w : ℕ)
    → ((x : A) → length (write x) ≡ w)
    → (xs : List A) → length (write_all write xs) ≡ length xs * w
length-write_all write w one [] = omega arith
length-write_all write w one (x ∷ xs) =
    let joined = length-append {0} (write x) (write_all write xs) in
    let many = length-write_all write w one xs in grind (arith, joined, many, one x)

length-write_v4 : (r : V4Range) → length (write_v4 r) ≡ 11
length-write_v4 r = simp (length-append, length-put_uint)

length-write_v6 : (r : V6Range) → length (write_v6 r) ≡ 35
length-write_v6 r = simp (length-append, length-put_uint)

pub length-write_table :
    (v4s : List V4Range) (v6s : List V6Range)
    → length (write_table v4s v6s) ≡ 16 + length v4s * 11 + length v6s * 35
length-write_table v4s v6s =
    simp
      (
        length-append,
        length-put_uint,
        length-write_all write_v4 11 length-write_v4 v4s,
        length-write_all write_v6 35 length-write_v6 v6s,
      )
      (omega arith)
