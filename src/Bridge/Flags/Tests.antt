-- ===== src/Bridge/Flags/Tests.antt =====
-- The flag store on a few calls, with decimal texts as rows of digits.
use vault.Common.{ℕ, String, ◌≡◌, refl, arith, true, Option, none, some, List, [], ◌∷◌}
use vault.Common.Dict.{lookup, insert, erase, sweep}
use vault.Bridge.Flags.{
  Render, FlagStore, flag, unflag, reap, is_flagged, parse_flag_value, split_last, load_from_redis,
}
use vault.Bridge.Flags.RoundTrip.{IsReadable}
use vault.Bridge.Flags.History.{
  Op, flags, unflags, reaps, run, step, replay, lapses_after, is_flagged-run,
}

-- One digit for a score and one for an instant.
abbrev first : List ℕ → ℕ
first [] = 0
first (c ∷ cs) = c

abbrev render : Render
render = record {
  score = λ n. n ∷ [];
  scan_score = first;
  instant = λ t. t ∷ [];
  parse_instant = first;
}

abbrev empty : FlagStore
empty = record { flags = []; ttl = 100; redis = true; sent = [] }

-- '/', '|', 'x'
abbrev decoy : List ℕ
decoy = 47 ∷ 124 ∷ 120 ∷ []

readable : IsReadable render 50 51 51
readable = record {
  clean_score = (ground arith, tt);
  clean_instant = (ground arith, tt);
  score_back = refl;
  instant_back = refl;
}

one_separator : parse_flag_value render (47 ∷ 124 ∷ 50 ∷ []) ≡ none
unfolding parse_flag_value split_last
one_separator = refl

abbrev calls : List Op
calls = flags 10 "a" decoy 50 ∷ flags 20 "b" decoy 1 ∷ unflags "b" ∷ reaps 105 ∷ []

flagged : is_flagged 109 "a" (run render empty calls) ≡ true
unfolding is_flagged run step flag unflag reap lookup insert erase sweep
flagged = refl

is_flagged-run_example :
    is_flagged 109 "b" (run render empty calls)
    ≡ lapses_after render 109 (replay render 100 "b" none calls)
is_flagged-run_example =
    is_flagged-run render 109 100 true [] "b" calls
      (omega arith, (omega arith, (tt, (omega arith, tt))))

abbrev get_stored : String → Option (List ℕ)
get_stored key = some (47 ∷ 124 ∷ 50 ∷ 124 ∷ 60 ∷ [])

-- After a restart, the flag of instant 60 is back until 160.
loaded :
    is_flagged 150 "a"
      (load_from_redis render 70 (some ("bridge:flag:a" ∷ [])) get_stored (λ key. "a") empty)
    ≡ true
unfolding is_flagged load_from_redis parse_flag_value split_last lookup insert
loaded = refl
