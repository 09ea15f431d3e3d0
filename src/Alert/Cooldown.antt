-- ===== src/Alert/Cooldown.antt =====
-- The cooldown of a rule (counter.silentUntil): when a key that has alerted stays quiet.
use vault.Common.{
  ℕ, ◌+◌, ◌≤◌, ◌<◌, String, ◌≡◌, ◌≢◌, ◌∙◌, refl, Bool, true, false, Option, none, some, List, [],
  ◌∷◌, arith, Option-cases, inl, inr, All, eq_iff, str_eq, sym, subst, leb, Bool-cases,
  if◌then◌else◌,
}
use vault.Common.Dict.{lookup, Distinct, lookup-insert_self, lookup-insert_ne, lookup-sweep}
use vault.Alert.{
  Rule, Alert, Counter, Detector, counter_key, make_room, report_saturation, advance, admit, count,
  opened_at, bump, silence, rule_saturated,
}
use vault.Alert.Bound.{IsBounded, count-IsBounded}

-- The counter under `k` is silenced until `t`, and no sweep before `t` may reclaim it.
pub record IsSilenced (k : String) (t : ℕ) (d : Detector) : Type 0 where
  pub counter : Counter
  pub found : lookup k d.counters ≡ some counter
  pub silent : t ≤ counter.silent_until
  pub alive : t ≤ counter.dead_after

advance-silent :
    (d : Detector) (now t : ℕ) (r : Rule) (event_type scope key : String) (c : Counter)
    → now < t
    → t ≤ now + r.window
    → t ≤ c.silent_until
    → ((advance d now r event_type scope key c).1 ≡ none)
      × IsSilenced (counter_key r scope key) t (advance d now r event_type scope key c).0
unfolding advance
advance-silent d now t r event_type scope key c h w s = (
  ground arith,
  record {
    counter = bump now r c;
    found = ground (arith, lookup-insert_self (counter_key r scope key) (bump now r c) d.counters);
    silent = ground arith;
    alive = ground arith;
  },
)

count-silent :
    (d : Detector) (now t : ℕ) (r : Rule) (event_type scope key : String)
    → now < t
    → t ≤ now + r.window
    → IsSilenced (counter_key r scope key) t d
    → ((count d now r event_type scope key).1 ≡ none)
      × IsSilenced (counter_key r scope key) t (count d now r event_type scope key).0
unfolding count
count-silent d now t r event_type scope key h w s =
    rw (s.found, count) (advance-silent d now t r event_type scope key s.counter h w s.silent)

advance-other :
    (d : Detector) (now : ℕ) (r : Rule) (event_type scope key : String) (c : Counter) (k : String)
    → counter_key r scope key ≢ k
    → lookup k (advance d now r event_type scope key c).0.counters ≡ lookup k d.counters
unfolding advance
advance-other d now r event_type scope key c k h = grind (arith, lookup-insert_ne)

make_room-keeps :
    (now : ℕ) (d : Detector) (k : String) (c : Counter)
    → Distinct d.counters
    → now < c.dead_after
    → lookup k d.counters ≡ some c
    → lookup k (make_room now d).0.counters ≡ some c
unfolding make_room
make_room-keeps now d k c u h e =
    ground (arith, lookup-sweep (λ (x : Counter). leb x.dead_after now) k c d.counters u)

pub admit-other :
    (p : Detector × Bool) (now : ℕ) (r : Rule) (event_type scope key k : String)
    → counter_key r scope key ≢ k
    → lookup k (admit p now r event_type scope key).0.counters ≡ lookup k p.0.counters
unfolding admit report_saturation
admit-other (d, true) now r event_type scope key k h =
    advance-other d now r event_type scope key (opened_at now) k h
admit-other (d, false) now r event_type scope key k h = ground arith

-- An event under another key leaves a live counter as it was, also when it sweeps the map.
count-other :
    (d : Detector) (now : ℕ) (r : Rule) (event_type scope key k : String) (c : Counter)
    → counter_key r scope key ≢ k
    → Distinct d.counters
    → now < c.dead_after
    → lookup k d.counters ≡ some c
    → lookup k (count d now r event_type scope key).0.counters ≡ some c
unfolding count
count-other d now r event_type scope key k c h u a e =
    elim (Option-cases (lookup (counter_key r scope key) d.counters)) [
      | inl f ↦
          rw (f, count)
            (admit-other (make_room now d) now r event_type scope key k h
              ∙ make_room-keeps now d k c u a e)
      | inr (b, f) ↦ rw (f, count) (advance-other d now r event_type scope key b k h ∙ e)
    ]

-- One call of `d.count`, as its arguments, and the calls with what each one raised.
pub record Event : Type 0 where
  pub now : ℕ
  pub rule : Rule
  pub event_type : String
  pub scope : String
  pub key : String

abbrev pub event_key : Event → String
event_key e = counter_key e.rule e.scope e.key

unfoldable pub count_all : Detector → List Event → List (Event × Option Alert)
unfolding count
count_all d [] = []
count_all d (e ∷ es) =
    (e, (count d e.now e.rule e.event_type e.scope e.key).1)
    ∷ count_all (count d e.now e.rule e.event_type e.scope e.key).0 es

-- What was raised under the key `k`.
abbrev pub raised_under : String → List (Event × Option Alert) → List Alert
raised_under k [] = []
raised_under k ((e, none) ∷ rest) = raised_under k rest
raised_under k ((e, some a) ∷ rest) =
    if str_eq (event_key e) k then a ∷ raised_under k rest else raised_under k rest

-- The events stand before `t`, and those under `k` are of rules whose window reaches `t`.
abbrev pub IsWithin : String → ℕ → Event → Type 0
IsWithin k t e = (e.now < t) × (event_key e ≡ k → t ≤ e.now + e.rule.window)

step-IsSilenced :
    (k : String) (t : ℕ) (d : Detector) (e : Event)
    → IsBounded d
    → IsSilenced k t d
    → IsWithin k t e
    → (event_key e ≡ k → (count d e.now e.rule e.event_type e.scope e.key).1 ≡ none)
      × IsSilenced k t (count d e.now e.rule e.event_type e.scope e.key).0
step-IsSilenced k t d e v s w = elim (Bool-cases (str_eq (event_key e) k)) [
  | inl b ↦
      let q : event_key e ≡ k = (eq_iff (event_key e) k).0 b in
      let (quiet, kept) =
        count-silent d e.now t e.rule e.event_type e.scope e.key w.0 (w.1 q)
          (subst (λ j. IsSilenced j t d) (sym q) s) in
      (
        λ _. quiet,
        subst (λ j. IsSilenced j t (count d e.now e.rule e.event_type e.scope e.key).0) q kept,
      )
  | inr b ↦
      let other : event_key e ≢ k = ground (arith, eq_iff (event_key e) k) in
      (
        λ q. absurd (other q),
        record {
          counter = s.counter;
          found =
              count-other d e.now e.rule e.event_type e.scope e.key k s.counter other v.distinct
                (omega arith) s.found;
          silent = s.silent;
          alive = s.alive;
        },
      )
]

raised_under-cons :
    (k : String) (e : Event) (o : Option Alert) (rest : List (Event × Option Alert))
    → (event_key e ≡ k → o ≡ none)
    → raised_under k rest ≡ []
    → raised_under k ((e, o) ∷ rest) ≡ []
raised_under-cons k e none rest h q = q
raised_under-cons k e (some a) rest h q = ground (arith, eq_iff (event_key e) k, q)

count_all-quiet :
    (k : String) (t : ℕ) (d : Detector) (es : List Event)
    → IsBounded d
    → IsSilenced k t d
    → All (IsWithin k t) es
    → raised_under k (count_all d es) ≡ []
unfolding count_all
count_all-quiet k t d [] v s w = refl
count_all-quiet k t d (e ∷ es) v s (w, ws) =
    let (quiet, kept) = step-IsSilenced k t d e v s w in
    raised_under-cons k e (count d e.now e.rule e.event_type e.scope e.key).1 _ quiet (
      count_all-quiet k t (count d e.now e.rule e.event_type e.scope e.key).0 es
        (count-IsBounded d e.now e.rule e.event_type e.scope e.key v) kept ws)

advance-alert :
    (d : Detector) (now : ℕ) (r : Rule) (event_type scope key : String) (c : Counter) (a : Alert)
    → (advance d now r event_type scope key c).1 ≡ some a
    → IsSilenced
        (counter_key r scope key)
        (now + r.cooldown)
        (advance d now r event_type scope key c).0
unfolding advance
advance-alert d now r event_type scope key c a h = record {
  counter = silence now r (bump now r c);
  found = ground (
    arith,
    lookup-insert_self (counter_key r scope key) (silence now r (bump now r c)) d.counters,
  );
  silent = ground arith;
  alive = ground arith;
}

admit-alert :
    (p : Detector × Bool) (now : ℕ) (r : Rule) (event_type scope key : String) (a : Alert)
    → (admit p now r event_type scope key).1 ≡ some a
    → a.rule ≢ rule_saturated
    → IsSilenced (counter_key r scope key) (now + r.cooldown) (admit p now r event_type scope key).0
unfolding admit report_saturation
admit-alert (d, true) now r event_type scope key a h n =
    advance-alert d now r event_type scope key (opened_at now) a h
admit-alert (d, false) now r event_type scope key a h n = absurd (ground arith)

count-alert :
    (d : Detector) (now : ℕ) (r : Rule) (event_type scope key : String) (a : Alert)
    → (count d now r event_type scope key).1 ≡ some a
    → a.rule ≢ rule_saturated
    → IsSilenced (counter_key r scope key) (now + r.cooldown) (count d now r event_type scope key).0
unfolding count
count-alert d now r event_type scope key a h n =
    elim (Option-cases (lookup (counter_key r scope key) d.counters)) [
      | inl f ↦
          rw (f, count)
            (admit-alert (make_room now d) now r event_type scope key a (rw (f, count) at h) n)
      | inr (b, f) ↦
          rw (f, count) (advance-alert d now r event_type scope key b a (rw (f, count) at h))
    ]

-- Once a rule has raised an alert for a key, no event before the end of the cooldown raises
-- another under that key, provided each such event's window reaches that end: whatever else is
-- counted in between, and whatever the map's bound makes the detector reclaim.
pub cooldown_holds :
    (d : Detector) (now : ℕ) (r : Rule) (event_type scope key : String) (a : Alert)
    (es : List Event)
    → IsBounded d
    → (count d now r event_type scope key).1 ≡ some a
    → a.rule ≢ rule_saturated
    → All (IsWithin (counter_key r scope key) (now + r.cooldown)) es
    → raised_under (counter_key r scope key) (count_all (count d now r event_type scope key).0 es)
      ≡ []
cooldown_holds d now r event_type scope key a es v h n w =
    count_all-quiet (counter_key r scope key) (now + r.cooldown)
      (count d now r event_type scope key).0 es (count-IsBounded d now r event_type scope key v)
      (count-alert d now r event_type scope key a h n) w
