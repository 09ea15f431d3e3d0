-- ===== src/Cache/Memory/Counters.antt =====
-- Increment as a fixed-window counter.
use vault.Common.{
  ℕ, ◌+◌, ◌<◌, ◌^◌, String, ◌≡◌, refl, true, none, some, List, [], ◌∷◌, arith, ap, ◌∙◌, Result, ok,
  All, length,
}
use mathlib.Core.Path.{ap₂}
use vault.Common.Dict.{lookup, lookup-insert_self}
use vault.Cache.{Error, Strconv}
use vault.Cache.Memory.{Entry, MemoryCache, admit, increment}

module _ (conv : Strconv) where
  open conv use {format, parse, parse-format}

  -- The results of increments of one key with one TTL, at the given instants.
  unfoldable pub increment_all :
      (key : String) (ttl : ℕ) → MemoryCache → List ℕ → MemoryCache × List (Result Error ℕ)
  unfolding increment
  increment_all key ttl m [] = (m, [])
  increment_all key ttl m (t ∷ ts) =
      let (m', r) = increment conv t key ttl m in
      let (m'', rs) = increment_all key ttl m' ts in (m'', r ∷ rs)

  abbrev counting : ℕ → List ℕ → List (Result Error ℕ)
  counting n [] = []
  counting n (t ∷ ts) = ok (n + 1) ∷ counting (n + 1) ts

  abbrev counted : ℕ → ℕ → Entry
  counted n until = record { value = format n; expires_at = until }

  increment-live :
      (m : MemoryCache) (key : String) (ttl t n until : ℕ)
      → lookup key m.entries ≡ some (counted n until)
      → t < until
      → n + 1 < 2 ^ 64
      → ((increment conv t key ttl m).1 ≡ ok (n + 1))
        × (lookup key (increment conv t key ttl m).0.entries ≡ some (counted (n + 1) until))
  unfolding increment admit
  increment-live m key ttl t n until found h b =
      rw (found, increment)
        (ground
          (arith, parse-format n, lookup-insert_self key (counted (n + 1) until) m.entries, found))

  increment_all-live :
      (m : MemoryCache) (key : String) (ttl n until : ℕ) (ts : List ℕ)
      → lookup key m.entries ≡ some (counted n until)
      → All (λ t. t < until) ts
      → n + length ts < 2 ^ 64
      → ((increment_all key ttl m ts).1 ≡ counting n ts)
        × (lookup key (increment_all key ttl m ts).0.entries ≡ some (counted (n + length ts) until))
  unfolding increment_all
  increment_all-live m key ttl n until [] found h b = (refl, ground arith)
  increment_all-live m key ttl n until (t ∷ ts) found (h, hs) b =
      let (result, next) = increment-live m key ttl t n until found h (omega arith) in
      let (results, last) =
        increment_all-live (increment conv t key ttl m).0 key ttl (n + 1) until ts next hs
          (omega arith) in
      (ap₂ ◌∷◌ result results, last ∙ ap (λ k. some (counted k until)) (omega arith))

  increment-fresh :
      (m : MemoryCache) (key : String) (ttl t : ℕ)
      → lookup key m.entries ≡ none
      → 0 < ttl
      → (admit key m).1 ≡ true
      → ((increment conv t key ttl m).1 ≡ ok 1)
        × (lookup key (increment conv t key ttl m).0.entries ≡ some (counted 1 (t + ttl)))
  unfolding increment admit
  increment-fresh m key ttl t found h room =
      rw (found, increment)
        (ground (arith, lookup-insert_self key (counted 1 (t + ttl)) m.entries, found))

  -- A counter that is absent and admitted counts 1, 2, 3 and so on through the increments of one
  -- window, and its expiry stays where the first increment put it: the window is fixed, and no
  -- later increment extends it.
  increment_all-fresh :
      (m : MemoryCache) (key : String) (ttl first : ℕ) (ts : List ℕ)
      → lookup key m.entries ≡ none
      → (admit key m).1 ≡ true
      → All (λ t. t < first + ttl) ts
      → 0 < ttl
      → length ts + 1 < 2 ^ 64
      → ((increment_all key ttl m (first ∷ ts)).1 ≡ counting 0 (first ∷ ts))
        × (lookup key (increment_all key ttl m (first ∷ ts)).0.entries
            ≡ some (counted (length ts + 1) (first + ttl)))
  unfolding increment_all
  increment_all-fresh m key ttl first ts found room h pos b =
      let (result, next) = increment-fresh m key ttl first found pos room in
      let (results, last) =
        increment_all-live (increment conv first key ttl m).0 key ttl 1 (first + ttl) ts next h
          (omega arith) in
      (ap₂ ◌∷◌ result results, last ∙ ap (λ k. some (counted k (first + ttl))) (omega arith))
