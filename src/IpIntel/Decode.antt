-- ===== src/IpIntel/Decode.antt =====
-- internal/ipintel/format.go: decode, and what ipintel.go makes of it. A slice that is read at an
-- offset is the front of what is left, and `none` is a panic for a slice out of range.
use vault.Common.{
  ℕ, zero, suc, ◌+◌, ◌*◌, Bool, true, false, ◌&&◌, not, Option, none, some, List, [], ◌∷◌, ◌==◌,
  ltb, if◌then◌else◌, length, Result, ok, err,
}
use vault.Common.Sort.{sort_func, is_sorted_func}
use vault.IpIntel.{V4Range, V6Range, Snapshot}
use vault.IpIntel.Format.{
  DecodeError, bad_magic, bad_version, truncated, blob_magic, blob_version, header_len, v4_rec_len,
  v6_rec_len, cmp_v4, cmp_v6, get_uint,
}

abbrev pub Reader : Type 0 → Type 0
Reader A = List ℕ → Option (A × List ℕ)

infixl 5 ◌>>=◌
abbrev pub ◌>>=◌ : {A B : Type 0} → Reader A → (A → Reader B) → Reader B
◌>>=◌ m f bytes = elim (m bytes) [ none ↦ none | some (a, rest) ↦ f a rest ]

abbrev pub returns : {A : Type 0} → A → Reader A
returns a bytes = some (a, bytes)

abbrev more : ℕ → Option (List ℕ × List ℕ) → Option (List ℕ × List ℕ)
more b none = none
more b (some (xs, rest)) = some (b ∷ xs, rest)

unfoldable pub slice : ℕ → Reader (List ℕ)
slice zero bytes = some ([], bytes)
slice (suc n) [] = none
slice (suc n) (b ∷ bytes) = more b (slice n bytes)

abbrev pub byte_at : Reader ℕ
byte_at [] = none
byte_at (b ∷ bytes) = some (b, bytes)

unfoldable pub read_v4 : Reader V4Range
read_v4 = do
  start ← slice 4
  end ← slice 4
  a ← byte_at
  b ← byte_at
  flags ← byte_at
  returns (record { start = get_uint start; end = get_uint end; cc = (a, b); flags = flags })

unfoldable pub read_v6 : Reader V6Range
read_v6 = do
  start_hi ← slice 8
  start_lo ← slice 8
  end_hi ← slice 8
  end_lo ← slice 8
  a ← byte_at
  b ← byte_at
  flags ← byte_at
  returns (record {
    start_hi = get_uint start_hi;
    start_lo = get_uint start_lo;
    end_hi = get_uint end_hi;
    end_lo = get_uint end_lo;
    cc = (a, b);
    flags = flags;
  })

unfoldable pub read_many : {A : Type 0} → ℕ → Reader A → Reader (List A)
read_many zero read bytes = some ([], bytes)
read_many (suc n) read bytes = (read >>= λ x. read_many n read >>= λ xs. returns (x ∷ xs)) bytes

pub record Header : Type 0 where
  pub magic : List ℕ
  pub version : ℕ
  pub v4n : ℕ
  pub v6n : ℕ

unfoldable pub read_header : Reader Header
read_header = do
  magic ← slice 4
  version ← byte_at
  reserved ← slice 3
  a ← slice 4
  b ← slice 4
  returns (record { magic = magic; version = version; v4n = get_uint a; v6n = get_uint b })

abbrev pub same_bytes : List ℕ → List ℕ → Bool
same_bytes [] [] = true
same_bytes [] (y ∷ ys) = false
same_bytes (x ∷ xs) [] = false
same_bytes (x ∷ xs) (y ∷ ys) = (x == y) && same_bytes xs ys

-- Sorted anew only if it is out of order.
abbrev pub in_order : List V4Range → List V6Range → Snapshot
in_order v4s v6s = record {
  v4s = if not (is_sorted_func cmp_v4 v4s) then sort_func cmp_v4 v4s else v4s;
  v6s = if not (is_sorted_func cmp_v6 v6s) then sort_func cmp_v6 v6s else v6s;
}

abbrev pub read_body : Header → Reader (Result DecodeError Snapshot)
read_body h = do
  v4s ← read_many h.v4n read_v4
  v6s ← read_many h.v6n read_v6
  returns (ok (in_order v4s v6s))

abbrev pub table_len : Header → ℕ
table_len h = header_len + h.v4n * v4_rec_len + h.v6n * v6_rec_len

-- The checks on the header, with the length of the whole file.
abbrev pub judge_header : ℕ → Header → Reader (Result DecodeError Snapshot)
judge_header total h =
    if not (same_bytes h.magic blob_magic)
    then returns (err bad_magic)
    else if not (h.version == blob_version)
    then returns (err bad_version)
    else if ltb total (table_len h)
    then returns (err truncated)
    else read_body h

unfoldable pub decode : List ℕ → Option (Result DecodeError Snapshot)
decode blob =
    if ltb (length blob) header_len
    then some (err truncated)
    else elim ((read_header >>= judge_header (length blob)) blob) [
      | none ↦ none
      | some (result, rest) ↦ some result
    ]

-- DB.Load, DB.Reload and Default, on the pointer's snapshot.
unfoldable pub load : List ℕ → Option (Result DecodeError Snapshot)
load blob = decode blob

abbrev installed : Snapshot → Result DecodeError Snapshot → Snapshot × Option DecodeError
installed held (ok s) = (s, none)
installed held (err e) = (held, some e)

unfoldable pub reload : Snapshot → List ℕ → Option (Snapshot × Option DecodeError)
reload held blob = elim (decode blob) [ none ↦ none | some r ↦ some (installed held r) ]

abbrev pub empty : Snapshot
empty = record { v4s = []; v6s = [] }

abbrev load_embedded : List ℕ → Option (Result DecodeError Snapshot)
load_embedded [] = some (ok empty)
load_embedded (b ∷ bs) = load (b ∷ bs)

-- A table that loads is taken; one that does not gives way to the embedded one.
abbrev or_embedded : List ℕ → Result DecodeError Snapshot → Option (Result DecodeError Snapshot)
or_embedded embedded (ok s) = some (ok s)
or_embedded embedded (err e) = load_embedded embedded

-- The file that the environment names, if it is set and can be read, and the embedded one.
unfoldable pub default_table : Option (List ℕ) → List ℕ → Option (Result DecodeError Snapshot)
unfolding load
default_table none embedded = load_embedded embedded
default_table (some file) embedded = elim (load file) [
  | none ↦ none
  | some r ↦ or_embedded embedded r
]
