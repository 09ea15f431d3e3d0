-- ===== src/Common/Dict.antt =====
-- A Go map with string keys, as an association list in which a write replaces the old binding.
use text.Mathlib.TextPositions.{eq_refl}
use text.Mathlib.TextEquality.{eq_iff}
use text.Mathlib.Text.{◌==◌ as str_eq}
use Prim.Native.Nat.{◌+◌, ◌≤◌}
use Prim.Native.String.{String}
use mathlib.Core.Path.{◌≡◌, refl}
use mathlib.Core.Logic.{◌≢◌}
use mathlib.Core.Bool.{Bool, false}
use mathlib.Core.Option.{Option, none, some}
use mathlib.Core.List.{List, [], ◌∷◌}
use native.Mathlib.Omega.{arith}
use vault.Common.Tests.{if◌then◌else◌}
use vault.Common.Lists.{length}

module _ {ℓ} {V : Type ℓ} where
  unfoldable pub lookup : String → List (String × V) → Option V
  lookup k [] = none
  lookup k ((j, v) ∷ m) = if str_eq j k then some v else lookup k m

  unfoldable pub insert : String → V → List (String × V) → List (String × V)
  insert k v [] = (k, v) ∷ []
  insert k v ((j, w) ∷ m) = if str_eq j k then (k, v) ∷ m else (j, w) ∷ insert k v m

  unfoldable pub erase : String → List (String × V) → List (String × V)
  erase k [] = []
  erase k ((j, w) ∷ m) = if str_eq j k then erase k m else (j, w) ∷ erase k m

  -- Go's `for k, e := range m { if dead(e) { delete(m, k) } }`.
  unfoldable pub sweep : (V → Bool) → List (String × V) → List (String × V)
  sweep dead [] = []
  sweep dead ((j, w) ∷ m) = if dead w then sweep dead m else (j, w) ∷ sweep dead m

  -- Every key is bound once.
  abbrev pub Distinct : List (String × V) → Type ℓ
  Distinct [] = Unit
  Distinct ((k, v) ∷ m) = (lookup k m ≡ none) × Distinct m

  pub lookup-insert :
      (new key : String) (v : V) (m : List (String × V))
      → lookup key (insert new v m) ≡ (if str_eq new key then some v else lookup key m)
  unfolding insert lookup
  lookup-insert new key v [] = refl
  lookup-insert new key v ((old, u) ∷ rest) =
      ground (lookup-insert new key v rest, arith, eq_iff old new, eq_iff old key, eq_iff new key)

  pub lookup-insert_self :
      (k : String) (v : V) (m : List (String × V)) → lookup k (insert k v m) ≡ some v
  lookup-insert_self k v m = simp (lookup-insert, eq_refl)

  pub lookup-insert_ne :
      (k j : String) (v : V) (m : List (String × V)) → k ≢ j → lookup j (insert k v m) ≡ lookup j m
  lookup-insert_ne k j v m h = ground (arith, lookup-insert k j v m, eq_iff k j)

  pub lookup-erase :
      (k j : String) (m : List (String × V))
      → lookup j (erase k m) ≡ (if str_eq k j then none else lookup j m)
  unfolding lookup erase
  lookup-erase k j [] = ground arith
  lookup-erase k j ((i, w) ∷ m) =
      ground (arith, eq_iff k j, eq_iff i k, eq_iff i j, lookup-erase k j m)

  pub length-insert-le :
      (k : String) (v : V) (m : List (String × V)) → length (insert k v m) ≤ length m + 1
  unfolding insert
  length-insert-le k v [] = omega arith
  length-insert-le k v ((j, w) ∷ m) = ground (arith, length-insert-le k v m)

  pub length-insert_old :
      (k : String) (v u : V) (m : List (String × V))
      → lookup k m ≡ some u
      → length (insert k v m) ≡ length m
  unfolding lookup insert
  length-insert_old k v u [] h = cc
  length-insert_old k v u ((j, w) ∷ m) h = ground (arith, length-insert_old k v u m)

  pub length-erase-le : (k : String) (m : List (String × V)) → length (erase k m) ≤ length m
  unfolding erase
  length-erase-le k [] = omega arith
  length-erase-le k ((j, w) ∷ m) = ground (arith, length-erase-le k m)

  pub length-sweep-le : (dead : V → Bool) (m : List (String × V)) → length (sweep dead m) ≤ length m
  unfolding sweep
  length-sweep-le dead [] = omega arith
  length-sweep-le dead ((j, w) ∷ m) = ground (arith, length-sweep-le dead m)

  pub lookup-sweep-none :
      (dead : V → Bool) (k : String) (m : List (String × V))
      → lookup k m ≡ none
      → lookup k (sweep dead m) ≡ none
  unfolding lookup sweep
  lookup-sweep-none dead k [] h = refl
  lookup-sweep-none dead k ((j, w) ∷ m) h = ground (arith, lookup-sweep-none dead k m)

  -- What a sweep keeps is unchanged, and what it removes is gone.
  pub lookup-sweep :
      (dead : V → Bool) (k : String) (v : V) (m : List (String × V))
      → Distinct m
      → lookup k m ≡ some v
      → lookup k (sweep dead m) ≡ (if dead v then none else some v)
  unfolding lookup sweep
  lookup-sweep dead k v [] d h = cc
  lookup-sweep dead k v ((j, w) ∷ m) d h =
      ground (arith, eq_iff j k, lookup-sweep dead k v m d.1, lookup-sweep-none dead j m d.0)

  pub insert-Distinct :
      (k : String) (v : V) (m : List (String × V)) → Distinct m → Distinct (insert k v m)
  unfolding insert
  insert-Distinct k v [] d = (unfold lookup in refl, tt)
  insert-Distinct k v ((j, w) ∷ m) d =
      ground (arith, eq_iff j k, eq_iff k j, lookup-insert k j v m, insert-Distinct k v m d.1)

  pub erase-Distinct : (k : String) (m : List (String × V)) → Distinct m → Distinct (erase k m)
  unfolding erase
  erase-Distinct k [] d = tt
  erase-Distinct k ((j, w) ∷ m) d = ground (arith, lookup-erase k j m, erase-Distinct k m d.1)

  pub sweep-Distinct :
      (dead : V → Bool) (m : List (String × V)) → Distinct m → Distinct (sweep dead m)
  unfolding sweep
  sweep-Distinct dead [] d = tt
  sweep-Distinct dead ((j, w) ∷ m) d =
      ground (arith, lookup-sweep-none dead j m d.0, sweep-Distinct dead m d.1)

  pub lookup-sweep_live :
      (dead : V → Bool) (k : String) (v : V) (m : List (String × V))
      → dead v ≡ false
      → lookup k m ≡ some v
      → lookup k (sweep dead m) ≡ some v
  unfolding lookup sweep
  lookup-sweep_live dead k v [] d h = cc
  lookup-sweep_live dead k v ((j, w) ∷ m) d h = ground (arith, lookup-sweep_live dead k v m d)
