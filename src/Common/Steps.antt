-- ===== src/Common/Steps.antt =====
-- Stateful code that may fail: a step takes the state on and returns a value or an error. A step that
-- fails keeps what it had done by then.
use mathlib.Core.Path.{◌≡◌, refl}
use mathlib.Core.Logic.{◌⊎◌, inl, inr}
use mathlib.Core.Bool.{Bool, true, false}
use native.Mathlib.Omega.{arith}
use vault.Common.Tests.{if◌then◌else◌}
use vault.Common.Results.{Result, ok, err}

module _ {S E : Type 0} where
  -- What follows a step: the next one, or the return of its error.
  abbrev pub continue : {A B : Type 0} → S × Result E A → (A → S → S × Result E B) → S × Result E B
  continue (s, ok a) f = f a s
  continue (s, err e) f = (s, err e)

  -- A step that succeeds is a first step that succeeds and a second one from where it ended.
  pub continue-eq-ok :
      {A B : Type 0} (p : S × Result E A) (f : A → S → S × Result E B) {last : S} {b : B}
      → continue p f ≡ (last, ok b)
      → (mid : S) × (a : A) × (p ≡ (mid, ok a)) × (f a mid ≡ (last, ok b))
  continue-eq-ok (s, ok a) f h = (s, a, refl, h)
  continue-eq-ok (s, err e) f h = absurd (ground arith)

  -- A step that fails is a first step that fails, or a second one from where the first ended.
  pub continue-eq-err :
      {A B : Type 0} (p : S × Result E A) (f : A → S → S × Result E B) {last : S} {e : E}
      → continue p f ≡ (last, err e)
      → (p ≡ (last, err e)) ⊎ ((mid : S) × (a : A) × (p ≡ (mid, ok a)) × (f a mid ≡ (last, err e)))
  continue-eq-err (s, ok a) f h = inr (s, a, refl, h)
  continue-eq-err (s, err e) f h = inl (ground arith)

  -- A step that succeeds behind a guard that fails: the guard did not hold.
  pub passed :
      {A : Type 0} (guard : Bool) {refusal next : S × Result E A} {s : S} {a : A}
      → ((refusal ≡ (s, ok a)) → ⊥)
      → (if guard then refusal else next) ≡ (s, ok a)
      → (guard ≡ false) × (next ≡ (s, ok a))
  passed true fails h = absurd (fails h)
  passed false fails h = (refl, h)
