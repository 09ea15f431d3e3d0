-- ===== src/Alert/Reclaim.antt =====
-- A counter whose cooldown still runs can be reclaimed (`c.deadAfter = now.Add(r.Window)`).
use vault.Common.{
  ℕ, ◌+◌, ◌≤◌, ◌<◌, String, ◌≡◌, ◌≢◌, ◌∙◌, refl, true, false, ◌||◌, ltb, none, some, arith, length,
  leb, sym, subst,
}
use vault.Common.Dict.{
  lookup, insert, Distinct, lookup-insert_self, lookup-insert_ne, lookup-sweep, insert-Distinct,
  length-insert_old,
}
use vault.Alert.{
  Rule, Alert, admit, opened_at, Counter, Detector, counter_key, make_room, advance, count, bump,
}
use vault.Alert.Bound.{IsBounded}
use vault.Alert.Cooldown.{Event, event_key, admit-other}

-- The detector after an event that the cooldown suppresses: the counter is marked reclaimable
-- one window after that event, whatever is left of the cooldown.
advance-suppressed :
    (d : Detector) (now : ℕ) (r : Rule) (event_type scope key : String) (c : Counter)
    → now < c.silent_until
    → (advance d now r event_type scope key c).0
      ≡ record d { counters = insert (counter_key r scope key) (bump now r c) d.counters }
unfolding advance
advance-suppressed d now r event_type scope key c h = ground arith

make_room-reclaims :
    (now : ℕ) (d : Detector) (k : String) (c : Counter)
    → Distinct d.counters
    → d.max_keys ≤ length d.counters
    → c.dead_after ≤ now
    → lookup k d.counters ≡ some c
    → lookup k (make_room now d).0.counters ≡ none
unfolding make_room
make_room-reclaims now d k c u f h e =
    ground (arith, lookup-sweep (λ (x : Counter). leb x.dead_after now) k c d.counters u)

count-suppressed :
    (d : Detector) (c : Counter) (e : Event)
    → lookup (event_key e) d.counters ≡ some c
    → e.now < c.silent_until
    → (count d e.now e.rule e.event_type e.scope e.key).0
      ≡ record d { counters = insert (event_key e) (bump e.now e.rule c) d.counters }
unfolding count
count-suppressed d c e found h =
    rw (found, count) (advance-suppressed d e.now e.rule e.event_type e.scope e.key c h)

count-reclaims :
    (d : Detector) (f : Event) (k : String) (c : Counter)
    → Distinct d.counters
    → d.max_keys ≤ length d.counters
    → c.dead_after ≤ f.now
    → lookup k d.counters ≡ some c
    → lookup (event_key f) d.counters ≡ none
    → event_key f ≢ k
    → lookup k (count d f.now f.rule f.event_type f.scope f.key).0.counters ≡ none
unfolding count
count-reclaims d f k c u full dead found fresh other =
    rw (fresh, count)
      (admit-other (make_room f.now d) f.now f.rule f.event_type f.scope f.key k other
        ∙ make_room-reclaims f.now d k c u full dead found)

bump-dead_after : (now : ℕ) (r : Rule) (c : Counter) → (bump now r c).dead_after ≡ now + r.window
unfolding bump
bump-dead_after now r c = ground arith

-- The counter of a key that the cooldown suppresses is gone after an event under a new key.
suppressed-reclaims :
    (d : Detector) (c : Counter) (e f : Event)
    → IsBounded d
    → length d.counters ≡ d.max_keys
    → lookup (event_key e) d.counters ≡ some c
    → e.now < c.silent_until
    → lookup (event_key f) d.counters ≡ none
    → e.now + e.rule.window ≤ f.now
    → f.now < c.silent_until
    → let d' = (count d e.now e.rule e.event_type e.scope e.key).0 in
      lookup (event_key e) (count d' f.now f.rule f.event_type f.scope f.key).0.counters ≡ none
suppressed-reclaims d c e f v full found silent fresh late early =
    let other : event_key e ≢ event_key f =
      λ q. cc (subst (λ k. lookup k d.counters ≡ some c) q found, fresh) in
    let c' = bump e.now e.rule c in
    rw (count-suppressed d c e found silent) (
      count-reclaims (record d { counters = insert (event_key e) c' d.counters }) f (event_key e) c'
        (insert-Distinct (event_key e) c' d.counters v.distinct)
        (omega (arith, length-insert_old (event_key e) c' c d.counters found))
        (omega (arith, bump-dead_after e.now e.rule c))
        (lookup-insert_self (event_key e) c' d.counters)
        (lookup-insert_ne (event_key e) (event_key f) c' d.counters other ∙ fresh)
        (λ q. other (sym q)))

-- A first event under a key, for which there is room, alerts where the threshold is one.
abbrev first_alert : Event → Alert
first_alert g = record {
  rule = g.rule.name;
  event_type = g.event_type;
  scope = g.scope;
  key = g.key;
  count = (bump g.now g.rule (opened_at g.now)).count;
  window = g.rule.window;
  severity = g.rule.severity;
  breach = g.rule.breach;
  at = g.now;
}

advance-alerts :
    (d : Detector) (g : Event)
    → g.rule.threshold ≤ 1
    → (advance d g.now g.rule g.event_type g.scope g.key (opened_at g.now)).1 ≡ some (first_alert g)
unfolding advance bump
advance-alerts d g one =
    let quiet : (ltb g.now (bump g.now g.rule (opened_at g.now)).silent_until
          || ltb (bump g.now g.rule (opened_at g.now)).count g.rule.threshold)
        ≡ false =
      ground arith in
    rw quiet refl

count-alerts :
    (d : Detector) (g : Event)
    → lookup (event_key g) d.counters ≡ none
    → length d.counters < d.max_keys
    → g.rule.threshold ≤ 1
    → (count d g.now g.rule g.event_type g.scope g.key).1 ≡ some (first_alert g)
unfolding count make_room admit
count-alerts d g fresh room one =
    let roomy : ltb (length d.counters) d.max_keys ≡ true = ground arith in
    rw (fresh, count, roomy) (advance-alerts d g one)

-- The detector after two events.
abbrev pub after_both : Detector → Event → Event → Detector
after_both d e f =
    (count (count d e.now e.rule e.event_type e.scope e.key).0 f.now f.rule f.event_type f.scope
      f.key).0

-- A full detector that holds a counter in its cooldown loses it when one more event comes under
-- that key, and then an event under a new key, one window later or more, before the cooldown ends.
-- If that leaves room in the map, an event under the first key, of a rule whose threshold is one,
-- then raises that rule's alert again, before the cooldown ends.
pub reclaimed_in_cooldown :
    (d : Detector) (c : Counter) (e f g : Event)
    → IsBounded d
    → length d.counters ≡ d.max_keys
    → lookup (event_key e) d.counters ≡ some c
    → e.now < c.silent_until
    → lookup (event_key f) d.counters ≡ none
    → e.now + e.rule.window ≤ f.now
    → f.now < c.silent_until
    → event_key g ≡ event_key e
    → length (after_both d e f).counters < (after_both d e f).max_keys
    → g.rule.threshold ≤ 1
    → g.now < c.silent_until
    → (lookup (event_key e) (after_both d e f).counters ≡ none)
      × ((a : Alert) × ((count (after_both d e f) g.now g.rule g.event_type g.scope g.key).1
            ≡ some a)
          × (a.rule ≡ g.rule.name)
          × (a.key ≡ g.key)
          × (a.at < c.silent_until))
reclaimed_in_cooldown d c e f g v full found silent fresh late early same room one inside =
    let gone = suppressed-reclaims d c e f v full found silent fresh late early in
    let raised =
      count-alerts (after_both d e f) g
        (subst (λ k. lookup k (after_both d e f).counters ≡ none) (sym same) gone) room one in
    (gone, (first_alert g, raised, refl, refl, inside))
