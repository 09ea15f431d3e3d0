-- ===== src/Alert/Threshold.antt =====
-- When a rule fires (Rule.Threshold, Rule.Window): on the event that completes its threshold.
use vault.Common.{
  ℕ, ◌+◌, ◌≤◌, ◌<◌, String, ◌≡◌, Bool, true, false, Option, none, some, List, [], ◌∷◌, arith,
  length, All, All-mono, ◌++◌, ap,
}
use mathlib.Core.Path.{ap₂}
use vault.Common.Dict.{lookup, lookup-insert_self}
use vault.Alert.{
  Rule, Alert, Counter, Detector, counter_key, make_room, advance, admit, count, opened_at,
}

-- The events of one key, at the given instants: the detector and all that was raised.
module _ (r : Rule) (event_type scope key : String) where
  unfoldable pub burst : Detector → List ℕ → Detector × List (Option Alert)
  unfolding count
  burst d [] = (d, [])
  burst d (t ∷ ts) =
      let (d', a) = count d t r event_type scope key in
      let (d'', as') = burst d' ts in (d'', a ∷ as')

  abbrev IsOpen : Counter → ℕ → Type 0
  IsOpen c t = (c.silent_until ≤ t) × (t < c.opened + r.window)

  count-below :
      (d : Detector) (c : Counter) (t : ℕ)
      → lookup (counter_key r scope key) d.counters ≡ some c
      → IsOpen c t
      → c.count + 1 < r.threshold
      → ((count d t r event_type scope key).1 ≡ none)
        × (lookup (counter_key r scope key) (count d t r event_type scope key).0.counters
            ≡ some (record c { count = c.count + 1; dead_after = t + r.window }))
  unfolding count
  count-below d c t found o h =
      rw (found, count)
        (ground (
          arith,
          lookup-insert_self (counter_key r scope key)
              (record c { count = c.count + 1; dead_after = t + r.window }) d.counters,
        ))

  -- What the rule raises at `t`, with the count `n`.
  abbrev raised : ℕ → ℕ → Alert
  raised t n = record {
    rule = r.name;
    event_type = event_type;
    scope = scope;
    key = key;
    count = n;
    window = r.window;
    severity = r.severity;
    breach = r.breach;
    at = t;
  }

  count-at :
      (d : Detector) (c : Counter) (t : ℕ)
      → lookup (counter_key r scope key) d.counters ≡ some c
      → IsOpen c t
      → c.count + 1 ≡ r.threshold
      → (count d t r event_type scope key).1 ≡ some (raised t r.threshold)
  unfolding count
  count-at d c t found o h = rw (found, count) (ground arith)

  -- `n` events that do not raise anything.
  abbrev quiet : List ℕ → List (Option Alert)
  quiet [] = []
  quiet (t ∷ ts) = none ∷ quiet ts

  burst-fires :
      (d : Detector) (c : Counter) (ts : List ℕ) (t : ℕ)
      → lookup (counter_key r scope key) d.counters ≡ some c
      → All (IsOpen c) ts
      → IsOpen c t
      → c.count + length ts + 1 ≡ r.threshold
      → (burst d (ts ++ t ∷ [])).1 ≡ quiet ts ++ some (raised t r.threshold) ∷ []
  unfolding burst
  burst-fires d c [] t found os o h = ap (λ a. a ∷ []) (count-at d c t found o (omega arith))
  burst-fires d c (s ∷ ts) t found (p, os) o h =
      let (silent, next) = count-below d c s found p (omega arith) in
      ap₂ ◌∷◌ silent (
        burst-fires (count d s r event_type scope key).0
          (record c { count = c.count + 1; dead_after = s + r.window }) ts t next os o
          (omega arith))

  admit-first :
      (p : Detector × Bool) (t : ℕ)
      → p.1 ≡ true
      → 1 < r.threshold
      → 0 < r.window
      → ((admit p t r event_type scope key).1 ≡ none)
        × (lookup (counter_key r scope key) (admit p t r event_type scope key).0.counters
            ≡ some (record (opened_at t) { count = 1; dead_after = t + r.window }))
  unfolding admit advance
  admit-first (d, true) t room h w = ground (
    arith,
    lookup-insert_self (counter_key r scope key)
        (record (opened_at t) { count = 1; dead_after = t + r.window }) d.counters,
  )
  admit-first (d, false) t room h w = absurd (ground arith)

  -- For a key without a counter, where the map has room: events inside one window raise nothing
  -- until the rule's threshold is reached, and the event that reaches it raises one alert with
  -- that count.
  fires_at_threshold :
      (d : Detector) (first : ℕ) (ts : List ℕ) (t : ℕ)
      → lookup (counter_key r scope key) d.counters ≡ none
      → (make_room first d).1 ≡ true
      → 0 < r.window
      → All (λ s. s < first + r.window) ts
      → t < first + r.window
      → length ts + 2 ≡ r.threshold
      → (burst d (first ∷ (ts ++ t ∷ []))).1 ≡ none ∷ (quiet ts ++ some (raised t r.threshold) ∷ [])
  unfolding burst count
  fires_at_threshold d first ts t fresh room w os o h =
      let (silent, next) = admit-first (make_room first d) first room (omega arith) w in
      let c : Counter = record (opened_at first) { count = 1; dead_after = first + r.window } in
      rw (fresh, count)
        (ap₂ ◌∷◌ silent (
          burst-fires (admit (make_room first d) first r event_type scope key).0 c ts t next
            (All-mono {P = λ s. s < first + r.window} {Q = IsOpen c} (λ s p. (omega arith, p)) ts
              os)
            (omega arith, o) (omega arith)))
