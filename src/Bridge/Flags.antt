-- ===== src/Bridge/Flags.antt =====
-- cmd/bridge/state.go: the store of flagged addresses, and the values that it keeps in Redis. A Go
-- string is a list of bytes where the code looks into it. The Redis server is outside: what it is
-- sent is a log of commands, and what it answers is an argument, as is TrimPrefix. `Render` is what
-- fmt and time print of a score and of an instant, and what Sscanf and Parse read back.
pub mod History
pub mod RoundTrip
mod Tests
use Prim.Native.String
use vault.Common.{
  ℕ, ◌+◌, String, Bool, true, false, not, Option, none, some, List, [], ◌∷◌, ◌++◌, ltb, ◌==◌,
  if◌then◌else◌,
}
use vault.Common.Dict.{lookup, insert, erase, sweep}

pub record FlagEntry : Type 0 where
  pub ip : String
  pub reason : List ℕ
  pub score : ℕ
  pub flagged_at : ℕ
  pub expires_at : ℕ

pub record Render : Type 0 where
  pub score : ℕ → List ℕ
  pub scan_score : List ℕ → ℕ
  pub instant : ℕ → List ℕ
  -- The zero instant where the text is no instant.
  pub parse_instant : List ℕ → ℕ

pub data Command : Type 0 where
  sets : (key : String) (value : List ℕ) (ttl : ℕ) → Command
  dels : (key : String) → Command

-- `redis` says whether there is a client, `sent` what it was asked.
pub record FlagStore : Type 0 where
  pub flags : List (String × FlagEntry)
  pub ttl : ℕ
  pub redis : Bool
  pub sent : List Command

-- '|'
abbrev pub separator : ℕ
separator = 124

abbrev pub flag_key : String → String
flag_key ip = String.◌++◌ "bridge:flag:" ip

-- A text around its last '|': strings.LastIndex, and the two slices that it leads to.
unfoldable pub split_last : List ℕ → Option (List ℕ × List ℕ)
split_last [] = none
split_last (c ∷ cs) = elim (split_last cs) [
  | some p ↦ some (c ∷ p.0, p.1)
  | none ↦ if c == separator then some ([], cs) else none
]

module _ (render : Render) where
  unfoldable pub encode_flag_value : List ℕ → ℕ → ℕ → List ℕ
  encode_flag_value reason score at =
      reason ++ separator ∷ (render.score score ++ separator ∷ render.instant at)

  abbrev pub parse_head : List ℕ → Option (List ℕ × List ℕ) → Option (List ℕ × ℕ × ℕ)
  parse_head ts none = none
  parse_head ts (some p) = some (p.0, render.scan_score p.1, render.parse_instant ts)

  -- A separator in front of all else counts as none.
  abbrev pub parse_rest : Option (List ℕ × List ℕ) → Option (List ℕ × ℕ × ℕ)
  parse_rest none = none
  parse_rest (some ([], ts)) = none
  parse_rest (some (c ∷ cs, ts)) = parse_head ts (split_last (c ∷ cs))

  unfoldable pub parse_flag_value : List ℕ → Option (List ℕ × ℕ × ℕ)
  parse_flag_value value = parse_rest (split_last value)

  abbrev pub send : Command → FlagStore → FlagStore
  send c fs = if fs.redis then record fs { sent = fs.sent ++ c ∷ [] } else fs

  unfoldable pub flag : ℕ → String → List ℕ → ℕ → FlagStore → FlagStore
  flag now ip reason score fs =
      let entry : FlagEntry = record {
        ip = ip;
        reason = reason;
        score = score;
        flagged_at = now;
        expires_at = now + fs.ttl;
      } in
      send (sets (flag_key ip) (encode_flag_value reason score now) fs.ttl)
        (record fs { flags = insert ip entry fs.flags })

  unfoldable pub unflag : String → FlagStore → FlagStore × Bool
  unflag ip fs = elim (lookup ip fs.flags) [
    | none ↦ (fs, false)
    | some e ↦ (send (dels (flag_key ip)) (record fs { flags = erase ip fs.flags }), true)
  ]

  -- One row as Redis answered it; none where the read failed.
  abbrev load_value : ℕ → String → Option (List ℕ × ℕ × ℕ) → FlagStore → FlagStore
  load_value now ip none fs = fs
  load_value now ip (some (reason, score, flagged_at)) fs =
      let entry : FlagEntry = record {
        ip = ip;
        reason = reason;
        score = score;
        flagged_at = flagged_at;
        expires_at = flagged_at + fs.ttl;
      } in
      if ltb now entry.expires_at then record fs { flags = insert ip entry fs.flags } else fs

  abbrev load_answer : ℕ → String → Option (List ℕ) → FlagStore → FlagStore
  load_answer now ip none fs = fs
  load_answer now ip (some value) fs = load_value now ip (parse_flag_value value) fs

  abbrev load_keys :
      ℕ
      → (get : String → Option (List ℕ)) (trim : String → String) → List String
      → FlagStore
      → FlagStore
  load_keys now get trim [] fs = fs
  load_keys now get trim (key ∷ keys) fs =
      load_keys now get trim keys (load_answer now (trim key) (get key) fs)

  unfoldable pub load_from_redis :
      ℕ
      → (scan : Option (List String)) (get : String → Option (List ℕ)) (trim : String → String)
      → FlagStore
      → FlagStore
  load_from_redis now none get trim fs = fs
  load_from_redis now (some keys) get trim fs = load_keys now get trim keys fs

unfoldable pub is_flagged : ℕ → String → FlagStore → Bool
is_flagged now ip fs = elim (lookup ip fs.flags) [ none ↦ false | some e ↦ ltb now e.expires_at ]

abbrev pub live_entries : ℕ → List (String × FlagEntry) → List FlagEntry
live_entries now [] = []
live_entries now ((ip, e) ∷ es) =
    if ltb now e.expires_at then e ∷ live_entries now es else live_entries now es

unfoldable pub list_flags : ℕ → FlagStore → List FlagEntry
list_flags now fs = live_entries now fs.flags

unfoldable pub reap : ℕ → FlagStore → FlagStore
reap now fs = record fs { flags = sweep (λ e. ltb e.expires_at now) fs.flags }
