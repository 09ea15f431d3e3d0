-- ===== src/Alert/Bound.antt =====
-- The key-space bound of the detector (Detector.maxKeys, makeRoom).
use vault.Common.{
  ℕ, ◌≤◌, ◌<◌, String, ◌≡◌, refl, Bool, true, false, some, List, [], ◌∷◌, arith, length,
  Option-cases, inl, inr,
}
use vault.Common.Dict.{
  lookup, Distinct, length-insert-le, length-insert_old, length-sweep-le, insert-Distinct,
  sweep-Distinct,
}
use vault.Alert.{
  Rule, Counter, Detector, counter_key, make_room, report_saturation, advance, admit, count,
  observe_one, observe, new_detector, opened_at, scope_subject,
}

pub record IsBounded (d : Detector) : Type 0 where
  pub within : length d.counters ≤ d.max_keys
  pub distinct : Distinct d.counters
  pub roomy : 0 < d.max_keys

pub new_detector-IsBounded : (sink : Bool) (keys : ℕ) → IsBounded (new_detector sink keys)
unfolding new_detector
new_detector-IsBounded sink keys = record {
  within = ground arith;
  distinct = tt;
  roomy = ground arith;
}

advance-IsBounded_old :
    (d : Detector) (now : ℕ) (r : Rule) (event_type scope key : String) (c u : Counter)
    → lookup (counter_key r scope key) d.counters ≡ some u
    → IsBounded d
    → IsBounded (advance d now r event_type scope key c).0
unfolding advance
advance-IsBounded_old d now r event_type scope key c u e v =
    grind (arith, length-insert_old, insert-Distinct, v.within, v.distinct, v.roomy, e)

advance-IsBounded_new :
    (d : Detector) (now : ℕ) (r : Rule) (event_type scope key : String) (c : Counter)
    → length d.counters < d.max_keys
    → IsBounded d
    → IsBounded (advance d now r event_type scope key c).0
unfolding advance
advance-IsBounded_new d now r event_type scope key c e v =
    grind (arith, length-insert-le, insert-Distinct, v.within, v.distinct, v.roomy)

make_room-IsBounded : (now : ℕ) (d : Detector) → IsBounded d → IsBounded (make_room now d).0
unfolding make_room
make_room-IsBounded now d v = grind (arith, length-sweep-le, sweep-Distinct, v.distinct, v.within)

make_room-room :
    (now : ℕ) (d : Detector)
    → (make_room now d).1 ≡ true
    → length (make_room now d).0.counters < (make_room now d).0.max_keys
unfolding make_room
make_room-room now d h = ground arith

admit-IsBounded :
    (p : Detector × Bool) (now : ℕ) (r : Rule) (event_type scope key : String)
    → IsBounded p.0
    → (p.1 ≡ true → length p.0.counters < p.0.max_keys)
    → IsBounded (admit p now r event_type scope key).0
unfolding admit report_saturation
admit-IsBounded (d, true) now r event_type scope key v h =
    advance-IsBounded_new d now r event_type scope key (opened_at now) (h refl) v
admit-IsBounded (d, false) now r event_type scope key v h = ground arith

pub count-IsBounded :
    (d : Detector) (now : ℕ) (r : Rule) (event_type scope key : String)
    → IsBounded d
    → IsBounded (count d now r event_type scope key).0
unfolding count
count-IsBounded d now r event_type scope key v =
    elim (Option-cases (lookup (counter_key r scope key) d.counters)) [
      | inl e ↦
          rw (e, count)
            (admit-IsBounded (make_room now d) now r event_type scope key
              (make_room-IsBounded now d v) (make_room-room now d))
      | inr (c, e) ↦ rw (e, count) (advance-IsBounded_old d now r event_type scope key c c e v)
    ]

observe_one-IsBounded :
    (d : Detector) (now : ℕ) (r : Rule) (event_type scope key : String)
    → IsBounded d
    → IsBounded (observe_one d now r event_type scope key).0
unfolding observe_one
observe_one-IsBounded d now r event_type scope key v =
    grind (arith, count-IsBounded, v.within, v.distinct, v.roomy)

-- One call of Observe, as its arguments.
pub record Observation : Type 0 where
  pub now : ℕ
  pub rule : Rule
  pub event_type : String
  pub subject : String
  pub source : String

module _ (safe_field : String → String) where
  observe-IsBounded :
      (d : Detector) (now : ℕ) (r : Rule) (event_type subject source : String)
      → IsBounded d
      → IsBounded (observe safe_field d now r event_type subject source).0
  unfolding observe
  observe-IsBounded d now r event_type subject source v = grind (
    arith,
    observe_one-IsBounded d now r (safe_field event_type) scope_subject (safe_field subject) v,
    observe_one-IsBounded,
    v.within,
    v.distinct,
    v.roomy,
  )

  unfoldable pub observe_all : Detector → List Observation → Detector
  unfolding observe
  observe_all d [] = d
  observe_all d (o ∷ os) =
      observe_all (observe safe_field d o.now o.rule o.event_type o.subject o.source).0 os

  observe_all-IsBounded :
      (d : Detector) (os : List Observation) → IsBounded d → IsBounded (observe_all d os)
  unfolding observe_all
  observe_all-IsBounded d [] v = v
  observe_all-IsBounded d (o ∷ os) v =
      observe_all-IsBounded (observe safe_field d o.now o.rule o.event_type o.subject o.source).0 os
        (observe-IsBounded d o.now o.rule o.event_type o.subject o.source v)

  -- Whatever is observed of a new detector, it never holds more counters than its bound, and
  -- no key has two.
  observe_all-new_detector :
      (sink : Bool) (keys : ℕ) (os : List Observation)
      → IsBounded (observe_all (new_detector sink keys) os)
  observe_all-new_detector sink keys os =
      observe_all-IsBounded (new_detector sink keys) os (new_detector-IsBounded sink keys)
