-- ===== src/ClientIp.antt =====
-- internal/middleware/ratelimit.go: the client's address (ClientIP). The peer's address comes without
-- its port, a header as the comma-separated parts of its text: none of them where the text is
-- empty. `normalize_ip` answers the canonical address of a part, or the empty text; `is_blank` is
-- the test on its trimmed text; `contains` is whether some trusted network contains an address.
pub mod Spoofing
mod Tests
use vault.Common.{
  ℕ, zero, suc, ◌-◌, String, Bool, true, false, ◌&&◌, not, Option, none, some, List, [], ◌∷◌,
  str_eq, ltb, if◌then◌else◌, length,
}

pub record Proxies : Type 0 where
  pub normalize_ip : String → String
  pub is_blank : String → Bool
  pub has_cidrs : Bool
  pub contains : String → Bool

-- `real_ip` is the last value of the configured header, none where no header is configured or sent.
pub record Request : Type 0 where
  pub remote_ip : String
  pub real_ip : Option (List String)
  pub forwarded_for : List String

abbrev pub max_xff_hops : ℕ
max_xff_hops = 32

abbrev pub drop : ℕ → List String → List String
drop zero parts = parts
drop (suc n) [] = []
drop (suc n) (part ∷ parts) = drop n parts

-- `parts[len(parts)-maxXFFHops:]` of a header that is longer
abbrev pub capped : List String → List String
capped parts = drop (length parts - max_xff_hops) parts

module _ (p : Proxies) where
  -- The rightmost part that is not blank.
  abbrev pub last_filled : List String → Option String
  last_filled [] = none
  last_filled (part ∷ parts) = elim (last_filled parts) [
    | some found ↦ some found
    | none ↦ if p.is_blank part then none else some part
  ]

  unfoldable pub last_real_ip : List String → String
  last_real_ip parts = elim (last_filled (capped parts)) [
    | none ↦ ""
    | some part ↦ p.normalize_ip part
  ]

  abbrev pub is_foreign : String → Bool
  is_foreign part = not (str_eq (p.normalize_ip part) "") && not (p.contains (p.normalize_ip part))

  -- The rightmost address that is not a trusted proxy's.
  abbrev pub last_foreign : List String → Option String
  last_foreign [] = none
  last_foreign (part ∷ parts) = elim (last_foreign parts) [
    | some ip ↦ some ip
    | none ↦ if is_foreign part then some (p.normalize_ip part) else none
  ]

  abbrev pub leftmost : String → List String → String
  leftmost remote [] = remote
  leftmost remote (part ∷ parts) =
      if str_eq (p.normalize_ip part) "" then remote else p.normalize_ip part

  unfoldable pub forwarded : String → List String → String
  forwarded remote parts = elim (last_foreign (capped parts)) [
    | some ip ↦ ip
    | none ↦ if ltb max_xff_hops (length parts) then remote else leftmost remote parts
  ]

  abbrev pub from_real_ip : Option (List String) → String
  from_real_ip none = ""
  from_real_ip (some parts) = last_real_ip parts

  unfoldable pub client_ip : Request → String
  unfolding last_real_ip forwarded
  client_ip r =
      if not p.has_cidrs
      then r.remote_ip
      else if not (p.contains r.remote_ip)
      then r.remote_ip
      else if not (str_eq (from_real_ip r.real_ip) "")
      then from_real_ip r.real_ip
      else forwarded r.remote_ip r.forwarded_for
