-- ===== src/Cache/Memory/Locks.antt =====
-- SetIfNotExists as a lock: a claimed key stays claimed until its TTL has passed.
use vault.Common.{
  ℕ, ◌+◌, ◌≤◌, ◌<◌, String, ◌≡◌, ◌≢◌, true, false, some, List, [], ◌∷◌, arith, inl, inr, ◌⊎◌,
  Bool-cases, ok, eq_iff, str_eq, All, sym, subst, ◌∙◌, ◌%◌, ◌^◌, ap,
}
use vault.Common.Dict.{lookup, lookup-insert_self, lookup-insert_ne, lookup-erase, lookup-sweep}
use vault.Cache.{Strconv}
use vault.Cache.Memory.{
  Entry, MemoryCache, admit, store, set, delete, get_and_delete, set_if_not_exists, cleanup,
  increment, expiry, is_expired, Call, sets, deletes, takes, claims, increments, cleans, step, run,
}
use vault.Cache.Memory.Bound.{IsWithinCap, step-IsWithinCap}

-- The key is bound at least until the instant `t`.
pub record IsHeld (key : String) (t : ℕ) (m : MemoryCache) : Type 0 where
  pub entry : Entry
  pub found : lookup key m.entries ≡ some entry
  pub lasting : (entry.expires_at ≡ 0) ⊎ (t ≤ entry.expires_at)

-- The call stands before `t`, and does not overwrite or delete `key`.
abbrev pub Spares : String → ℕ → Call → Type 0
Spares key t (sets now k value ttl) = k ≢ key
Spares key t (deletes k) = k ≢ key
Spares key t (takes now k) = k ≢ key
Spares key t (claims now k value ttl) = now < t
Spares key t (increments now k ttl) = now < t
Spares key t (cleans now) = now < t

store-other :
    {A : Type 0} (m : MemoryCache) (k key : String) (e : Entry) (a : A)
    → k ≢ key
    → lookup key (store (admit k m) k e a).0.entries ≡ lookup key m.entries
unfolding admit
store-other m k key e a n = ground (arith, lookup-insert_ne k key e m.entries n)

claims-same :
    (m : MemoryCache) (now : ℕ) (k value : String) (ttl t : ℕ)
    → now < t
    → IsHeld k t m
    → set_if_not_exists now k value ttl m ≡ (m, ok false)
unfolding set_if_not_exists
claims-same m now k value ttl t h v = rw (v.found, set_if_not_exists) (ground (arith, v.lasting))

IsHeld-of_eq :
    {key : String} {t : ℕ} (m m' : MemoryCache)
    → lookup key m'.entries ≡ lookup key m.entries
    → IsHeld key t m
    → IsHeld key t m'
IsHeld-of_eq m m' e v = record { entry = v.entry; found = e ∙ v.found; lasting = v.lasting }

claims-IsHeld :
    (m : MemoryCache) (now : ℕ) (k value : String) (ttl t : ℕ) (key : String)
    → now < t
    → IsHeld key t m
    → IsHeld key t (set_if_not_exists now k value ttl m).0
claims-IsHeld m now k value ttl t key h v = elim (Bool-cases (str_eq k key)) [
  | inl b ↦
      let q : key ≡ k = sym ((eq_iff k key).0 b) in
      rw (claims-same m now k value ttl t h (subst (λ j. IsHeld j t m) q v)) v
  | inr b ↦ IsHeld-of_eq m _ (other (ground (arith, eq_iff k key))) v
]
  where
    other :
        k ≢ key → lookup key (set_if_not_exists now k value ttl m).0.entries ≡ lookup key m.entries
    other n =
        unfold set_if_not_exists in
        ground (
          arith,
          store-other m k key (record { value = value; expires_at = expiry now ttl }) true n,
        )

module _ (conv : Strconv) where
  open conv use {format, parse}

  increments-same :
      (m : MemoryCache) (now : ℕ) (k : String) (ttl t : ℕ)
      → now < t
      → IsHeld k t m
      → IsHeld k t (increment conv now k ttl m).0
  unfolding increment admit
  increments-same m now k ttl t h v =
      let n : ℕ = (parse v.entry.value + 1) % 2 ^ 64 in
      let e : Entry = record v.entry { value = format n } in
      record {
        entry = e;
        found =
            rw (v.found, increment)
              (ground (arith, v.lasting, v.found, lookup-insert_self k e m.entries));
        lasting = v.lasting;
      }

  increments-IsHeld :
      (m : MemoryCache) (now : ℕ) (k : String) (ttl t : ℕ) (key : String)
      → now < t
      → IsHeld key t m
      → IsHeld key t (increment conv now k ttl m).0
  unfolding increment
  increments-IsHeld m now k ttl t key h v = elim (Bool-cases (str_eq k key)) [
    | inl b ↦
        let q : k ≡ key = (eq_iff k key).0 b in
        subst (λ j. IsHeld j t (increment conv now k ttl m).0) q
          (increments-same m now k ttl t h (subst (λ j. IsHeld j t m) (sym q) v))
    | inr b ↦
        IsHeld-of_eq m (increment conv now k ttl m).0
          (store-other m k key _ _ (ground (arith, eq_iff k key))) v
  ]

  step-IsHeld :
      (m : MemoryCache) (key : String) (t : ℕ) (c : Call)
      → IsWithinCap m
      → Spares key t c
      → IsHeld key t m
      → IsHeld key t (step conv m c)
  unfolding step set delete get_and_delete cleanup
  step-IsHeld m key t (sets now k value ttl) w s v = IsHeld-of_eq m _ (store-other m k key _ tt s) v
  step-IsHeld m key t (deletes k) w s v =
      IsHeld-of_eq m _ (ground (arith, lookup-erase k key m.entries, eq_iff k key)) v
  step-IsHeld m key t (takes now k) w s v =
      IsHeld-of_eq m _ (ground (arith, lookup-erase k key m.entries, eq_iff k key)) v
  step-IsHeld m key t (claims now k value ttl) w s v = claims-IsHeld m now k value ttl t key s v
  step-IsHeld m key t (increments now k ttl) w s v = increments-IsHeld m now k ttl t key s v
  step-IsHeld m key t (cleans now) w s v = record {
    entry = v.entry;
    found = ground (
      arith,
      v.lasting,
      v.found,
      lookup-sweep (is_expired now) key v.entry m.entries w.distinct v.found,
    );
    lasting = v.lasting;
  }

  run-IsHeld :
      (m : MemoryCache) (key : String) (t : ℕ) (cs : List Call)
      → IsWithinCap m
      → All (Spares key t) cs
      → IsHeld key t m
      → IsHeld key t (run conv m cs)
  unfolding run
  run-IsHeld m key t [] w s v = v
  run-IsHeld m key t (c ∷ cs) w (s, ss) v =
      run-IsHeld (step conv m c) key t cs (step-IsWithinCap conv m c w) ss
        (step-IsHeld m key t c w s v)

  claim-IsHeld :
      (m : MemoryCache) (now : ℕ) (key value : String) (ttl : ℕ)
      → (set_if_not_exists now key value ttl m).1 ≡ ok true
      → IsHeld key (now + ttl) (set_if_not_exists now key value ttl m).0
  unfolding set_if_not_exists admit
  claim-IsHeld m now key value ttl h =
      let e : Entry = record { value = value; expires_at = expiry now ttl } in
      record {
        entry = e;
        found = ground (arith, lookup-insert_self key e m.entries);
        lasting = ground arith;
      }

  claim-IsWithinCap :
      (m : MemoryCache) (now : ℕ) (key value : String) (ttl : ℕ)
      → IsWithinCap m
      → IsWithinCap (set_if_not_exists now key value ttl m).0
  unfolding step
  claim-IsWithinCap m now key value ttl w = step-IsWithinCap conv m (claims now key value ttl) w

  -- Mutual exclusion: once SetIfNotExists has claimed a key at `now`, a second claim before
  -- `now + ttl` fails, whatever calls that neither write over nor delete the key come in between,
  -- cleanups and increments included.
  pub claimed_once :
      (m : MemoryCache) (now later : ℕ) (key value other : String) (ttl other_ttl : ℕ)
      (cs : List Call)
      → IsWithinCap m
      → (set_if_not_exists now key value ttl m).1 ≡ ok true
      → All (Spares key (now + ttl)) cs
      → later < now + ttl
      → (set_if_not_exists later key other other_ttl
          (run conv (set_if_not_exists now key value ttl m).0 cs)).1
        ≡ ok false
  claimed_once m now later key value other ttl other_ttl cs w h s l =
      let m' = (set_if_not_exists now key value ttl m).0 in
      ap (λ p. p.1)
        (claims-same (run conv m' cs) later key other other_ttl (now + ttl) l (
          run-IsHeld m' key (now + ttl) cs (claim-IsWithinCap m now key value ttl w) s
            (claim-IsHeld m now key value ttl h)))
