-- ===== src/IpIntel/Total.antt =====
-- decode and Reload on any file whatever (format.go, ipintel.go).
use vault.Common.{
  ℕ, zero, suc, ◌+◌, ◌*◌, ◌≤◌, ◌≡◌, inl, inr, refl, arith, true, Option, none, some, List, [], ◌∷◌,
  ltb, ◌==◌, length, Bool-cases, Result, ok, err,
}
use vault.Common.Sort.{is_sorted_func, sort_func-is_sorted}
use vault.IpIntel.{V4Range, V6Range, Snapshot}
use vault.IpIntel.Format.{
  blob_magic, blob_version, DecodeError, bad_magic, bad_version, truncated, cmp_v4, cmp_v6,
}
use vault.IpIntel.Decode.{
  Reader, Header, slice, byte_at, read_v4, read_v6, read_many, read_header, decode, returns, ◌>>=◌,
  judge_header, read_body, in_order, table_len, reload, same_bytes,
}
use vault.IpIntel.RoundTrip.{cmp_v4-asym, cmp_v6-asym}

-- A reader that is given at least w bytes takes w of them and does not fail.
abbrev pub Takes : {A : Type 0} → ℕ → Reader A → Type 0
Takes {A} w read =
    (bytes : List ℕ)
    → w ≤ length bytes
    → (a : A) × (rest : List ℕ) × (read bytes ≡ some (a, rest)) × (length rest + w ≡ length bytes)

slice-Takes : (n : ℕ) → Takes n (slice n)
unfolding slice
slice-Takes zero bytes h = ([], bytes, refl, omega arith)
slice-Takes (suc n) [] h = absurd (omega arith)
slice-Takes (suc n) (b ∷ bytes) h =
    let (xs, rest, e, l) = slice-Takes n bytes (omega arith) in
    (b ∷ xs, rest, ground (arith, e), omega (arith, l))

byte_at-Takes : Takes 1 byte_at
byte_at-Takes [] h = absurd (omega arith)
byte_at-Takes (b ∷ bytes) h = (b, bytes, refl, omega arith)

returns-Takes : {A : Type 0} (a : A) → Takes 0 (returns a)
returns-Takes a bytes h = (a, bytes, refl, omega arith)

>>=-Takes :
    {A B : Type 0} (u v : ℕ) (read : Reader A) (next : A → Reader B)
    → Takes u read
    → ((a : A) → Takes v (next a))
    → Takes (u + v) (read >>= next)
>>=-Takes u v read next t ts bytes h =
    let (a, rest, e, l) = t bytes (omega arith) in
    let (b, rest', e', l') = ts a rest (omega (arith, l)) in
    (b, rest', rw (e, ◌>>=◌) e', omega (arith, l, l'))

read_many-Takes :
    {A : Type 0} (w : ℕ) (read : Reader A)
    → Takes w read
    → (n : ℕ) → Takes (n * w) (read_many n read)
unfolding read_many
read_many-Takes w read t zero bytes h = ([], bytes, refl, omega arith)
read_many-Takes w read t (suc n) bytes h =
    let (x, rest, e, l) = t bytes (grind arith) in
    let (xs, rest', e', l') = read_many-Takes w read t n rest (grind (arith, l)) in
    (x ∷ xs, rest', rw (e, ◌>>=◌) (rw (e', ◌>>=◌) refl), grind (arith, l, l'))

read_v4-Takes : Takes 11 read_v4
unfolding read_v4
read_v4-Takes = >>=-Takes 4 7 (slice 4) _ (slice-Takes 4) λ start.
    >>=-Takes 4 3 (slice 4) _ (slice-Takes 4) λ end. >>=-Takes 1 2 byte_at _ byte_at-Takes λ a.
      >>=-Takes 1 1 byte_at _ byte_at-Takes
        λ b. >>=-Takes 1 0 byte_at _ byte_at-Takes λ flags. returns-Takes _

read_v6-Takes : Takes 35 read_v6
unfolding read_v6
read_v6-Takes = >>=-Takes 8 27 (slice 8) _ (slice-Takes 8) λ start_hi.
    >>=-Takes 8 19 (slice 8) _ (slice-Takes 8) λ start_lo.
      >>=-Takes 8 11 (slice 8) _ (slice-Takes 8) λ end_hi.
        >>=-Takes 8 3 (slice 8) _ (slice-Takes 8) λ end_lo.
          >>=-Takes 1 2 byte_at _ byte_at-Takes λ a.
            >>=-Takes 1 1 byte_at _ byte_at-Takes
              λ b. >>=-Takes 1 0 byte_at _ byte_at-Takes λ flags. returns-Takes _

read_header-Takes : Takes 16 read_header
unfolding read_header
read_header-Takes = >>=-Takes 4 12 (slice 4) _ (slice-Takes 4) λ magic.
    >>=-Takes 1 11 byte_at _ byte_at-Takes λ version.
      >>=-Takes 3 8 (slice 3) _ (slice-Takes 3) λ reserved.
        >>=-Takes 4 4 (slice 4) _ (slice-Takes 4)
          λ a. >>=-Takes 4 0 (slice 4) _ (slice-Takes 4) λ b. returns-Takes _

-- The binary search can be used.
abbrev pub IsInOrder : Snapshot → Type 0
IsInOrder s = (is_sorted_func cmp_v4 s.v4s ≡ true) × (is_sorted_func cmp_v6 s.v6s ≡ true)

abbrev pub Yields : Result DecodeError Snapshot → Type 0
Yields (ok s) = IsInOrder s
Yields (err e) = Unit

in_order-IsInOrder :
    (fours : List V4Range) (sixes : List V6Range) → IsInOrder (in_order fours sixes)
in_order-IsInOrder fours sixes = (
  ground (arith, sort_func-is_sorted cmp_v4 cmp_v4-asym fours),
  ground (arith, sort_func-is_sorted cmp_v6 cmp_v6-asym sixes),
)

-- A reader that ends with a table in order or with an error.
abbrev Ends : Option (Result DecodeError Snapshot × List ℕ) → Type 0
Ends p = (r : Result DecodeError Snapshot) × (rest : List ℕ) × (p ≡ some (r, rest)) × Yields r

read_body-Ends :
    (h : Header) (bytes : List ℕ)
    → h.v4n * 11 + h.v6n * 35 ≤ length bytes
    → Ends (read_body h bytes)
read_body-Ends h bytes enough =
    let (fours, rest, e, l) =
      read_many-Takes 11 read_v4 read_v4-Takes h.v4n bytes (omega (arith, enough)) in
    let (sixes, rest', e', l') =
      read_many-Takes 35 read_v6 read_v6-Takes h.v6n rest (omega (arith, enough, l)) in
    (
      ok (in_order fours sixes),
      rest',
      rw (e, ◌>>=◌) (rw (e', ◌>>=◌) refl),
      in_order-IsInOrder fours sixes,
    )

judge_header-Ends :
    (total : ℕ) (h : Header) (rest : List ℕ)
    → length rest + 16 ≡ total
    → Ends (judge_header total h rest)
judge_header-Ends total h rest l = elim (Bool-cases (same_bytes h.magic blob_magic)) [
  | inr other ↦ rw other (err bad_magic, rest, refl, tt)
  | inl magic ↦ elim (Bool-cases (h.version == blob_version)) [
    | inr other ↦ rw (magic, other) (err bad_version, rest, refl, tt)
    | inl version ↦ elim (Bool-cases (ltb total (table_len h))) [
      | inl short ↦ rw (magic, version, short) (err truncated, rest, refl, tt)
      | inr enough ↦ rw (magic, version, enough) (read_body-Ends h rest (ground (arith, enough, l)))
    ]
  ]
]

decode-Yields :
    (blob : List ℕ) → (r : Result DecodeError Snapshot) × (decode blob ≡ some r) × Yields r
unfolding decode
decode-Yields blob = elim (Bool-cases (ltb (length blob) 16)) [
  | inl short ↦ (err truncated, ground arith, tt)
  | inr long ↦
      let (h, rest, e, l) = read_header-Takes blob (ground arith) in
      let (r, rest', e', y) = judge_header-Ends (length blob) h rest l in
      let all : (read_header >>= judge_header (length blob)) blob ≡ some (r, rest') =
        rw (e, ◌>>=◌) e' in
      (r, ground (arith, all), y)
]

-- What Reload leaves: the new table, in order, or the one that was held.
abbrev pub Reloaded : Snapshot → Snapshot × Option DecodeError → Type 0
Reloaded held (s, none) = IsInOrder s
Reloaded held (s, some e) = s ≡ held

-- Whatever the file holds, Reload returns without a read beyond its end. It either installs a table
-- that is in ascending order, or returns an error and leaves the table as it was.
pub reload-Reloaded :
    (held : Snapshot) (blob : List ℕ)
    → (p : Snapshot × Option DecodeError) × (reload held blob ≡ some p) × Reloaded held p
unfolding reload
reload-Reloaded held blob = let (r, e, y) = decode-Yields blob in go r e y
  where
    go :
        (r : Result DecodeError Snapshot)
        → decode blob ≡ some r
        → Yields r
        → (p : Snapshot × Option DecodeError) × (reload held blob ≡ some p) × Reloaded held p
    go (ok s) e y = ((s, none), rw (e, reload) refl, y)
    go (err x) e y = ((held, some x), rw (e, reload) refl, refl)
