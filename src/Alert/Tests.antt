-- ===== src/Alert/Tests.antt =====
-- Runs of the detector, and the theorems at concrete inputs.
use vault.Common.{ℕ, ◌≡◌, ◌<◌, refl, true, none, some, [], ◌∷◌, arith, eq_iff}
use vault.Common.Dict.{lookup, insert, sweep}
use vault.Alert.{Rule, Alert, Counter, Detector, counter_key, count, observe, new_detector}
use vault.Alert.Bound.{IsBounded, Observation, new_detector-IsBounded}
use vault.Alert.Cooldown.{Event, event_key, raised_under, count_all, cooldown_holds}
use vault.Alert.Reclaim.{after_both, reclaimed_in_cooldown}

abbrev replay_rule : Rule
replay_rule = record {
  name = "refresh-token-replay";
  threshold = 1;
  window = 5;
  cooldown = 30;
  severity = 90;
  breach = true;
}

abbrev probe_rule : Rule
probe_rule = record replay_rule { name = "privilege-probe"; threshold = 3 }

-- A rule whose window is not shorter than its cooldown.
abbrev wide_rule : Rule
wide_rule = record replay_rule { window = 30 }

abbrev small : Detector
small = record { has_sink = true; max_keys = 1; counters = []; saturated_until = 0 }

abbrev ann_event : ℕ → Event
ann_event t = record {
  now = t;
  rule = replay_rule;
  event_type = "refresh_token_replayed";
  scope = "subject";
  key = "ann";
}

abbrev bob_event : ℕ → Event
bob_event t = record (ann_event t) { key = "bob" }

abbrev silenced : Counter
silenced = record { count = 0; opened = 10; silent_until = 40; dead_after = 40 }

abbrev key_of : Observation
key_of = record {
  now = 10;
  rule = replay_rule;
  event_type = "refresh_token_replayed";
  subject = "ann";
  source = "10.0.0.0";
}

-- The replay rule fires at once for both identities, and then for neither.
observe_run : ((observe (λ s. s) (new_detector true 8) 10 replay_rule "e" "ann" "net").1 ≡ [] → ⊥)
unfolding observe new_detector lookup insert
observe_run h = cc

-- Room for two: a dead counter goes with hers, so her event at 21 finds room.
abbrev stale : Counter
stale = record { count = 1; opened = 1; silent_until = 0; dead_after = 6 }

abbrev crowded : Detector
crowded = record small {
  max_keys = 2;
  counters =
      (counter_key replay_rule "subject" "ann", silenced)
      ∷ (counter_key replay_rule "subject" "carl", stale)
      ∷ [];
}

crowded-IsBounded : IsBounded crowded
unfolding lookup counter_key
crowded-IsBounded = record {
  within = omega arith;
  distinct = (refl, (refl, tt));
  roomy = omega arith;
}

abbrev taken_over : Detector
taken_over = after_both crowded (ann_event 12) (bob_event 20)

reclaimed_in_cooldown_example :
    (lookup (event_key (ann_event 12)) taken_over.counters ≡ none)
    × ((a : Alert) × ((count taken_over 21 replay_rule "refresh_token_replayed" "subject" "ann").1
          ≡ some a)
        × (a.rule ≡ "refresh-token-replay")
        × (a.key ≡ "ann")
        × (a.at < 40))
unfolding lookup counter_key count insert sweep
reclaimed_in_cooldown_example =
    reclaimed_in_cooldown crowded silenced (ann_event 12) (bob_event 20) (ann_event 21)
      crowded-IsBounded refl refl (omega arith) refl (omega arith) (omega arith) refl (omega arith)
      (omega arith) (omega arith)

abbrev raised_alert : Alert
raised_alert = record {
  rule = "refresh-token-replay";
  event_type = "e";
  scope = "subject";
  key = "ann";
  count = 1;
  window = 30;
  severity = 90;
  breach = true;
  at = 10;
}

abbrev wide_event : ℕ → Event
wide_event t = record {
  now = t;
  rule = wide_rule;
  event_type = "e";
  scope = "subject";
  key = "ann";
}

cooldown_holds_example :
    raised_under (counter_key wide_rule "subject" "ann") (
      count_all
        (count (new_detector true 8) 10 wide_rule "e" "subject" "ann").0
        (wide_event 15 ∷ wide_event 39 ∷ []))
    ≡ []
unfolding count lookup insert new_detector
cooldown_holds_example =
    cooldown_holds (new_detector true 8) 10 wide_rule "e" "subject" "ann" raised_alert
      (wide_event 15 ∷ wide_event 39 ∷ []) (new_detector-IsBounded true 8) refl
      (ground (arith, eq_iff "refresh-token-replay" "detector-saturated"))
      ((omega arith, λ _. omega arith), ((omega arith, λ _. omega arith), tt))
