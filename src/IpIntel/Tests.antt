-- ===== src/IpIntel/Tests.antt =====
-- Two ranges, their file, and what it says of addresses.
use vault.Common.{ℕ, ◌≡◌, refl, true, false, Option, some, List, [], ◌∷◌, arith, ok}
use vault.Common.Search.{search}
use vault.Common.Sort.{sort_func}
use vault.IpIntel.{v4, v6, Snapshot, lookup_addr, info_from, unmap, lookup_v4}
use vault.IpIntel.Format.{
  Range, marshal, encode_cc, v4_ranges, v6_ranges, cmp_v4, cmp_v6, DecodeError, truncated,
}
use vault.IpIntel.Decode.{decode, reload}
use vault.IpIntel.Ranges.{IsTable, known, lookup_addr-known}
use vault.IpIntel.RoundTrip.{decode-marshal}
use vault.IpIntel.Total.{Reloaded, reload-Reloaded}

-- 8.8.8.0/24 in "us", a hosting range, and 2001:db8::/32 in "DE", a Tor exit. The second comes first.
abbrev ranges : List Range
ranges =
    record {
      lo = v6 0x20010db800000000 0;
      hi = v6 0x20010db8ffffffff 0xffffffffffffffff;
      cc = b'D' ∷ b'E' ∷ [];
      hosting = false;
      tor = true;
    }
    ∷ record {
      lo = v4 0x08080800;
      hi = v4 0x080808ff;
      cc = b'u' ∷ b's' ∷ [];
      hosting = true;
      tor = false;
    }
    ∷ record { lo = v4 9; hi = v4 8; cc = []; hosting = false; tor = false }
    ∷ []

abbrev us : ℕ × ℕ
us = (b'U', b'S')

abbrev table : Snapshot
table = record {
  v4s = record { start = 0x08080800; end = 0x080808ff; cc = us; flags = 1 } ∷ [];
  v6s =
      record {
        start_hi = 0x20010db800000000;
        start_lo = 0;
        end_hi = 0x20010db8ffffffff;
        end_lo = 0xffffffffffffffff;
        cc = (b'D', b'E');
        flags = 2;
      }
      ∷ [];
}

letters : encode_cc (b'u' ∷ b's' ∷ []) ≡ us
unfolding encode_cc
letters = refl

decode-marshal_example :
    decode (marshal ranges)
    ≡ some (
        ok (record {
          v4s = sort_func cmp_v4 (v4_ranges ranges);
          v6s = sort_func cmp_v6 (v6_ranges ranges);
        }))
decode-marshal_example = decode-marshal ranges (omega arith) (omega arith) (omega arith)

table-IsTable : IsTable table
table-IsTable = record {
  v4_separated = omega arith;
  v6_separated = omega arith;
  v6_halves = omega arith;
}

lookup_addr-known_example :
    lookup_addr (some table) (v6 0 0xffff08080807) ≡ known table (unmap (v6 0 0xffff08080807))
lookup_addr-known_example =
    lookup_addr-known table (v6 0 0xffff08080807) table-IsTable (omega arith)

hosted : lookup_addr (some table) (v6 0 0xffff08080807) ≡ info_from us 1
unfolding lookup_addr lookup_v4 search info_from
hosted = refl

reload-Reloaded_example :
    (p : Snapshot × Option DecodeError) × (reload table (1 ∷ 2 ∷ []) ≡ some p) × Reloaded table p
reload-Reloaded_example = reload-Reloaded table (1 ∷ 2 ∷ [])

kept : reload table (1 ∷ 2 ∷ []) ≡ some (table, some truncated)
unfolding reload decode
kept = refl
