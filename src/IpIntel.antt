-- ===== src/IpIntel.antt =====
-- internal/ipintel/lookup.go and ipintel.go: what is known of a client's address. An address of
-- net/netip is its number, in two halves for IPv6; the zone of a link-local one is left out. A text
-- that a country code is made of is its bytes.
pub mod Format
pub mod Decode
pub mod Ranges
pub mod Layout
pub mod RoundTrip
pub mod Total
mod Tests
use vault.Common.{
  ℕ, ◌-◌, ◌/◌, ◌%◌, ◌^◌, String, Bool, true, false, ◌&&◌, ◌||◌, not, Option, none, some, List, [],
  ◌∷◌, ◌==◌, ltb, leb, if◌then◌else◌, length,
}
use vault.Common.Search.{search, test_at, get_elem?}

-- netip.Addr. The zero value is no address.
pub data Addr : Type 0 where
  invalid : Addr
  v4 : ℕ → Addr
  v6 : ℕ → ℕ → Addr

pub record Info : Type 0 where
  pub country_code : List ℕ
  pub is_vpn : Bool
  pub is_hosting : Bool
  pub is_tor : Bool
  pub is_anonymous : Bool

pub record V4Range : Type 0 where
  pub start : ℕ
  pub end : ℕ
  pub cc : ℕ × ℕ
  pub flags : ℕ

pub record V6Range : Type 0 where
  pub start_hi : ℕ
  pub start_lo : ℕ
  pub end_hi : ℕ
  pub end_lo : ℕ
  pub cc : ℕ × ℕ
  pub flags : ℕ

pub record Snapshot : Type 0 where
  pub v4s : List V4Range
  pub v6s : List V6Range

abbrev pub no_info : Info
no_info = record {
  country_code = [];
  is_vpn = false;
  is_hosting = false;
  is_tor = false;
  is_anonymous = false;
}

abbrev pub has_bit : ℕ → ℕ → Bool
has_bit flags weight = not (flags / weight % 2 == 0)

abbrev pub flag_hosting : ℕ
flag_hosting = 1

abbrev pub flag_tor : ℕ
flag_tor = 2

unfoldable pub info_from : ℕ × ℕ → ℕ → Info
info_from (a, b) flags = record {
  country_code = if not (a == 0) && not (b == 0) then a ∷ b ∷ [] else [];
  is_vpn = false;
  is_hosting = has_bit flags flag_hosting;
  is_tor = has_bit flags flag_tor;
  is_anonymous = has_bit flags flag_tor || has_bit flags flag_hosting || false;
}

abbrev pub less128 : ℕ → ℕ → ℕ → ℕ → Bool
less128 a_hi a_lo b_hi b_lo = if not (a_hi == b_hi) then ltb a_hi b_hi else ltb a_lo b_lo

abbrev pub begins_after : ℕ → V4Range → Bool
begins_after ip r = ltb ip r.start

abbrev pub begins_after128 : ℕ → ℕ → V6Range → Bool
begins_after128 hi lo r = less128 hi lo r.start_hi r.start_lo

abbrev pub judge_v4 : ℕ → Option V4Range → Info
judge_v4 ip none = no_info
judge_v4 ip (some e) = if leb ip e.end then info_from e.cc e.flags else no_info

abbrev pub judge_v6 : ℕ → ℕ → Option V6Range → Info
judge_v6 hi lo none = no_info
judge_v6 hi lo (some e) =
    if not (less128 e.end_hi e.end_lo hi lo) then info_from e.cc e.flags else no_info

unfoldable pub lookup_v4 : Snapshot → ℕ → Info
lookup_v4 s ip =
    let i = search (length s.v4s) (test_at (begins_after ip) s.v4s) in
    if i == 0 then no_info else judge_v4 ip (get_elem? s.v4s (i - 1))

unfoldable pub lookup_v6 : Snapshot → ℕ → ℕ → Info
lookup_v6 s hi lo =
    let i = search (length s.v6s) (test_at (begins_after128 hi lo) s.v6s) in
    if i == 0 then no_info else judge_v6 hi lo (get_elem? s.v6s (i - 1))

-- Addr.Unmap: an IPv4 address in ::ffff:0:0/96 is itself.
abbrev pub unmap : Addr → Addr
unmap invalid = invalid
unmap (v4 a) = v4 a
unmap (v6 hi lo) = if hi == 0 && (lo / 2 ^ 32 == 0xffff) then v4 (lo % 2 ^ 32) else v6 hi lo

-- IsLoopback, IsPrivate, IsUnspecified, IsLinkLocalUnicast, IsLinkLocalMulticast and IsMulticast, as
-- net/netip documents them.
abbrev pub is_local_v4 : ℕ → Bool
is_local_v4 a =
    (a / 2 ^ 24 == 127)
    || ((a / 2 ^ 24 == 10) || (a / 2 ^ 20 == 0xac1) || (a / 2 ^ 16 == 0xc0a8))
    || (a == 0)
    || (a / 2 ^ 16 == 0xa9fe)
    || (a / 2 ^ 8 == 0xe00000)
    || (a / 2 ^ 28 == 0xe)

abbrev pub is_local_v6 : ℕ → ℕ → Bool
is_local_v6 hi lo =
    ((hi == 0) && (lo == 1))
    || (hi / 2 ^ 57 == 0x7e)
    || ((hi == 0) && (lo == 0))
    || (hi / 2 ^ 54 == 0x3fa)
    || ((hi / 2 ^ 56 == 0xff) && (hi / 2 ^ 48 % 16 == 2))
    || (hi / 2 ^ 56 == 0xff)

abbrev pub lookup_unmapped : Option Snapshot → Addr → Info
lookup_unmapped db invalid = no_info
lookup_unmapped none (v4 a) = no_info
lookup_unmapped none (v6 hi lo) = no_info
lookup_unmapped (some s) (v4 a) = if is_local_v4 a then no_info else lookup_v4 s a
lookup_unmapped (some s) (v6 hi lo) = if is_local_v6 hi lo then no_info else lookup_v6 s hi lo

-- DB.Lookup, on the snapshot that the pointer holds.
unfoldable pub lookup_addr : Option Snapshot → Addr → Info
unfolding lookup_v4 lookup_v6
lookup_addr db ip = lookup_unmapped db (unmap ip)

-- netip.ParseAddr on the trimmed text.
unfoldable pub lookup_string : (String → Option Addr) → Option Snapshot → String → Info
unfolding lookup_addr
lookup_string parse db s = elim (parse s) [ none ↦ no_info | some ip ↦ lookup_addr db ip ]
