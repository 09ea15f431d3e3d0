-- ===== src/IpIntel/Format.antt =====
-- internal/ipintel/format.go: the table as a file. A byte is a number below 256.
use vault.Common.{
  ℕ, zero, suc, ◌+◌, ◌-◌, ◌*◌, ◌/◌, ◌%◌, ◌^◌, Bool, ◌&&◌, not, Option, none, some, List, [], ◌∷◌,
  ◌++◌, ◌==◌, ltb, leb, if◌then◌else◌, length,
}
use Prim.Native.Nat.{compare, Ordering}
use vault.Common.Sort.{sort_func}
use vault.IpIntel.{Addr, invalid, v4, v6, V4Range, V6Range, flag_hosting, flag_tor, less128, unmap}

pub data DecodeError : Type 0 where
  bad_magic : DecodeError
  bad_version : DecodeError
  truncated : DecodeError

abbrev pub blob_magic : List ℕ
blob_magic = b'V' ∷ b'4' ∷ b'2' ∷ b'I' ∷ []

abbrev pub blob_version : ℕ
blob_version = 1

abbrev pub header_len : ℕ
header_len = 16

abbrev pub v4_rec_len : ℕ
v4_rec_len = 11

abbrev pub v6_rec_len : ℕ
v6_rec_len = 35

abbrev pub cmp_v4 : V4Range → V4Range → Ordering
cmp_v4 a b = compare a.start b.start

abbrev pub cmp_v6 : V6Range → V6Range → Ordering
cmp_v6 a b =
    if not (a.start_hi == b.start_hi)
    then if ltb a.start_hi b.start_hi then Ordering.lt else Ordering.gt
    else compare a.start_lo b.start_lo

-- A source interval. `cc` is the bytes of the text.
pub record Range : Type 0 where
  pub lo : Addr
  pub hi : Addr
  pub cc : List ℕ
  pub hosting : Bool
  pub tor : Bool

abbrev upper : ℕ → Option ℕ
upper c =
    if leb b'A' c && leb c b'Z'
    then some c
    else if leb b'a' c && leb c b'z'
    then some (c - 32)
    else none

abbrev both_letters : Option ℕ → Option ℕ → ℕ × ℕ
both_letters none b = (0, 0)
both_letters (some a) none = (0, 0)
both_letters (some a) (some b) = (a, b)

unfoldable pub encode_cc : List ℕ → ℕ × ℕ
encode_cc [] = (0, 0)
encode_cc (a ∷ []) = (0, 0)
encode_cc (a ∷ b ∷ []) = both_letters (upper a) (upper b)
encode_cc (a ∷ b ∷ c ∷ cs) = (0, 0)

abbrev pub flags_for : Bool → Bool → ℕ
flags_for hosting tor = (if hosting then flag_hosting else 0) + (if tor then flag_tor else 0)

abbrev pub add_v4 : Range → Addr → Addr → List V4Range → List V4Range
add_v4 r (v4 s) (v4 e) rest =
    if ltb e s
    then rest
    else record { start = s; end = e; cc = encode_cc r.cc; flags = flags_for r.hosting r.tor }
      ∷ rest
add_v4 r invalid hi rest = rest
add_v4 r (v6 h l) hi rest = rest
add_v4 r (v4 s) invalid rest = rest
add_v4 r (v4 s) (v6 h l) rest = rest

abbrev pub add_v6 : Range → Addr → Addr → List V6Range → List V6Range
add_v6 r (v6 sh sl) (v6 eh el) rest =
    if less128 eh el sh sl
    then rest
    else record {
      start_hi = sh;
      start_lo = sl;
      end_hi = eh;
      end_lo = el;
      cc = encode_cc r.cc;
      flags = flags_for r.hosting r.tor;
    }
      ∷ rest
add_v6 r invalid hi rest = rest
add_v6 r (v4 s) hi rest = rest
add_v6 r (v6 h l) invalid rest = rest
add_v6 r (v6 h l) (v4 e) rest = rest

-- The loop of Marshal, once for each family.
abbrev pub v4_ranges : List Range → List V4Range
v4_ranges [] = []
v4_ranges (r ∷ rs) = add_v4 r (unmap r.lo) (unmap r.hi) (v4_ranges rs)

abbrev pub v6_ranges : List Range → List V6Range
v6_ranges [] = []
v6_ranges (r ∷ rs) = add_v6 r (unmap r.lo) (unmap r.hi) (v6_ranges rs)

-- binary.LittleEndian, with the number of bytes.
unfoldable pub put_uint : ℕ → ℕ → List ℕ
put_uint zero n = []
put_uint (suc k) n = (n % 256) ∷ put_uint k (n / 256)

unfoldable pub get_uint : List ℕ → ℕ
get_uint [] = 0
get_uint (b ∷ bs) = b + 256 * get_uint bs

abbrev pub write_v4 : V4Range → List ℕ
write_v4 r = put_uint 4 r.start ++ (put_uint 4 r.end ++ (r.cc.0 ∷ r.cc.1 ∷ r.flags ∷ []))

abbrev pub write_v6 : V6Range → List ℕ
write_v6 r =
    put_uint 8 r.start_hi
    ++ (put_uint 8 r.start_lo
        ++ (put_uint 8 r.end_hi ++ (put_uint 8 r.end_lo ++ (r.cc.0 ∷ r.cc.1 ∷ r.flags ∷ []))))

abbrev pub write_all : {A : Type 0} → (A → List ℕ) → List A → List ℕ
write_all write [] = []
write_all write (x ∷ xs) = write x ++ write_all write xs

abbrev pub write_table : List V4Range → List V6Range → List ℕ
write_table v4s v6s =
    blob_magic
    ++ ((blob_version ∷ 0 ∷ 0 ∷ 0 ∷ [])
        ++ (put_uint 4 (length v4s % 2 ^ 32)
            ++ (put_uint 4 (length v6s % 2 ^ 32)
                ++ (write_all write_v4 v4s ++ write_all write_v6 v6s))))

unfoldable pub marshal : List Range → List ℕ
marshal ranges =
    write_table (sort_func cmp_v4 (v4_ranges ranges)) (sort_func cmp_v6 (v6_ranges ranges))
