-- ===== src/Cache/Memory/Reads.antt =====
-- What a read returns after a write of the memory cache.
use vault.Common.{
  ℕ, ◌+◌, String, ◌≡◌, ◌≢◌, Bool, true, false, arith, Result, ok, err, if◌then◌else◌, leb, ◌||◌,
  ◌==◌, eq_iff,
}
use vault.Common.Dict.{lookup-insert_self, lookup-insert_ne, lookup-erase}
use vault.Cache.{not_found}
use vault.Cache.Memory.{Entry, MemoryCache, admit, set, get, delete, get_and_delete, expiry}

abbrev pub succeeds : {E A : Type 0} → Result E A → Bool
succeeds (ok a) = true
succeeds (err e) = false

-- A write that succeeds is read back until its TTL has passed, and for ever without one, and a
-- write that is refused leaves the key as it was. The other keys read as before.
pub get-set :
    (now later : ℕ) (key other value : String) (ttl : ℕ) (m : MemoryCache)
    → key ≢ other
    → let (m', r) = set now key value ttl m in
      (get later key m' ≡ (
        if succeeds r
        then (if ttl == 0 || leb later (now + ttl) then ok value else err not_found)
        else get later key m))
      × (get later other m' ≡ get later other m)
unfolding set get admit
get-set now later key other value ttl m n =
    let e : Entry = record { value = value; expires_at = expiry now ttl } in
    (
      ground (arith, lookup-insert_self key e m.entries),
      ground (arith, lookup-insert_ne key other e m.entries n),
    )

-- A value can be taken once: whoever takes it got what a read would have returned, and the key
-- then reads as missing at every instant.
pub get-get_and_delete :
    (now later : ℕ) (key value : String) (m : MemoryCache)
    → (get_and_delete now key m).1 ≡ ok value
    → (get now key m ≡ ok value) × (get later key (get_and_delete now key m).0 ≡ err not_found)
unfolding get_and_delete get delete
get-get_and_delete now later key value m h =
    ground (arith, lookup-erase key key m.entries, eq_iff key key)
