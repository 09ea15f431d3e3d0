-- ===== src/Alert.antt =====
-- internal/alert/detector.go, with Rule and Alert of internal/alert/alert.go: windowed counts over
-- security events. Instants and durations are nanoseconds, as natural numbers; an instant counts
-- from Go's zero time, which is therefore 0. `now.Sub(t) >= w` is read as `t + w ≤ now`.
-- The mutex makes each observation one step. The text neutraliser `safe_field` is a parameter.
pub mod Bound
pub mod Cooldown
pub mod Reclaim
pub mod Threshold
pub mod Tests
use Prim.Native.String
use vault.Common.{
  ℕ, ◌+◌, String, Bool, true, false, ◌&&◌, ◌||◌, not, Option, none, some, List, [], ◌∷◌, ◌++◌,
  str_eq, ltb, leb, if◌then◌else◌, length,
}
use vault.Common.Dict.{lookup, insert, sweep}

pub record Rule : Type 0 where
  pub name : String
  pub threshold : ℕ
  pub window : ℕ
  pub cooldown : ℕ
  pub severity : ℕ
  pub breach : Bool

pub record Alert : Type 0 where
  pub rule : String
  pub event_type : String
  pub scope : String
  pub key : String
  pub count : ℕ
  pub window : ℕ
  pub severity : ℕ
  pub breach : Bool
  pub at : ℕ

pub record Counter : Type 0 where
  pub count : ℕ
  pub opened : ℕ
  pub silent_until : ℕ
  pub dead_after : ℕ

-- `has_sink` is `d.sink != nil`.
pub record Detector : Type 0 where
  pub has_sink : Bool
  pub max_keys : ℕ
  pub counters : List (String × Counter)
  pub saturated_until : ℕ

abbrev pub default_max_keys : ℕ
default_max_keys = 4096

-- 15 minutes.
abbrev pub saturation_cooldown : ℕ
saturation_cooldown = 900_000_000_000

abbrev pub rule_saturated : String
rule_saturated = "detector-saturated"

abbrev pub scope_subject : String
scope_subject = "subject"

abbrev pub scope_source : String
scope_source = "source"

pub valid : Rule → Bool
valid r = not (str_eq r.name "") && ltb 0 r.threshold && ltb 0 r.window

pub new_detector : Bool → ℕ → Detector
new_detector sink keys = record {
  has_sink = sink;
  max_keys = if ltb keys 1 then default_max_keys else keys;
  counters = [];
  saturated_until = 0;
}

-- `r.Name + "\x00" + scope + "\x00" + key`
pub counter_key : Rule → String → String → String
counter_key r scope key =
    String.◌++◌ r.name (String.◌++◌ "\0" (String.◌++◌ scope (String.◌++◌ "\0" key)))

pub make_room : ℕ → Detector → Detector × Bool
make_room now d =
    if ltb (length d.counters) d.max_keys
    then (d, true)
    else (let kept = sweep (λ c. leb c.dead_after now) d.counters in
        (record d { counters = kept }, ltb (length kept) d.max_keys))

pub report_saturation : Detector → ℕ → Rule → String → String → Detector × Option Alert
report_saturation d now r event_type scope = if ltb now d.saturated_until then (d, none) else (
  record d { saturated_until = now + saturation_cooldown },
  some (record {
    rule = rule_saturated;
    event_type = event_type;
    scope = scope;
    key = "n/a";
    count = d.max_keys;
    window = r.window;
    severity = r.severity;
    breach = false;
    at = now;
  }),
)

-- A counter that `d.count` has just created.
abbrev pub opened_at : ℕ → Counter
opened_at now = record { count = 0; opened = now; silent_until = 0; dead_after = 0 }

-- The window is reopened if it has passed, and the event is counted.
pub bump : ℕ → Rule → Counter → Counter
bump now r c =
    if leb (c.opened + r.window) now
    then record c { count = 1; opened = now; dead_after = now + r.window }
    else record c { count = c.count + 1; dead_after = now + r.window }

-- The counter after an alert.
pub silence : ℕ → Rule → Counter → Counter
silence now r c = record {
  count = 0;
  opened = now;
  silent_until = now + r.cooldown;
  dead_after = if ltb c.dead_after (now + r.cooldown) then now + r.cooldown else c.dead_after;
}

-- The part of `d.count` that follows the lookup; `key` is the composed key of the counter.
pub advance : Detector → ℕ → Rule → String → String → String → Counter → Detector × Option Alert
unfolding bump silence counter_key
advance d now r event_type scope key c =
    let c' = bump now r c in
    let k = counter_key r scope key in
    if ltb now c'.silent_until || ltb c'.count r.threshold
    then (record d { counters = insert k c' d.counters }, none)
    else (
      record d { counters = insert k (silence now r c') d.counters },
      some (record {
        rule = r.name;
        event_type = event_type;
        scope = scope;
        key = key;
        count = c'.count;
        window = r.window;
        severity = r.severity;
        breach = r.breach;
        at = now;
      }),
    )

-- The branch of `d.count` for a key that is not in the map.
pub admit : Detector × Bool → ℕ → Rule → String → String → String → Detector × Option Alert
unfolding advance report_saturation
admit (d, true) now r event_type scope key = advance d now r event_type scope key (opened_at now)
admit (d, false) now r event_type scope key = report_saturation d now r event_type scope

unfoldable pub count : Detector → ℕ → Rule → String → String → String → Detector × Option Alert
unfolding advance admit make_room
count d now r event_type scope key = elim (lookup (counter_key r scope key) d.counters) [
  | none ↦ admit (make_room now d) now r event_type scope key
  | some c ↦ advance d now r event_type scope key c
]

abbrev pub to_list : Option Alert → List Alert
to_list none = []
to_list (some a) = a ∷ []

-- One round of the loop over the two identities.
pub observe_one : Detector → ℕ → Rule → String → String → String → Detector × List Alert
unfolding count
observe_one d now r event_type scope key =
    if str_eq key ""
    then (d, [])
    else (let (d', a) = count d now r event_type scope key in (d', to_list a))

-- The new detector, and what is handed to the sink, in order.
module _ (safe_field : String → String) where
  pub observe : Detector → ℕ → Rule → String → String → String → Detector × List Alert
  unfolding observe_one valid
  observe d now r event_type subject source =
      if not d.has_sink || not (valid r)
      then (d, [])
      else (let e = safe_field event_type in
          let (d', raised) = observe_one d now r e scope_subject (safe_field subject) in
          let (d'', more) = observe_one d' now r e scope_source (safe_field source) in
          (d'', raised ++ more))
