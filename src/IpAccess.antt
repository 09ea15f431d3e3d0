-- ===== src/IpAccess.antt =====
-- internal/middleware/ipaccess.go: the address and country lists in front of every handler, over the
-- client address of ClientIp. Package net is a parameter: an address that it parses, a network, and
-- whether the one lies in the other; so is the text of package strings. The lists are set once, at
-- start; the two functions that change the blocklist at run time have no caller and are left out.
pub mod Fences
mod Tests
use Prim.Native.String
use vault.Common.{
  String, Bool, true, false, ◌&&◌, ◌||◌, not, Option, none, some, List, [], ◌∷◌, str_eq,
  if◌then◌else◌, exists, map,
}
use vault.ClientIp.{Proxies, Request, client_ip}

pub record Net (I N : Type 0) : Type 0 where
  pub parse_ip : String → Option I
  pub parse_cidr : String → Option N
  pub contains : N → I → Bool
  pub trim_space : String → String
  pub to_upper : String → String
  pub has_slash : String → Bool
  pub has_colon : String → Bool

-- A set of countries is the list of its members.
pub record AccessLists (N : Type 0) : Type 0 where
  pub ip_allow : List N
  pub ip_block : List N
  pub geo_allow : List String
  pub geo_block : List String
  pub geo_header : String

-- `headers` is Header.Get, the empty text where there is none.
pub record AccessRequest : Type 0 where
  pub path : String
  pub source : Request
  pub headers : String → String

abbrev pub is_empty : {A : Type 0} → List A → Bool
is_empty [] = true
is_empty (x ∷ xs) = false

module _ {I N : Type 0} (net : Net I N) where
  abbrev with_length : String → String
  with_length entry =
      if net.has_slash entry
      then entry
      else if net.has_colon entry
      then String.◌++◌ entry "/128"
      else String.◌++◌ entry "/32"

  abbrev add_parsed : Option N → List N → List N
  add_parsed none cidrs = cidrs
  add_parsed (some cidr) cidrs = cidr ∷ cidrs

  unfoldable pub parse_cidr_list : List String → List N
  parse_cidr_list [] = []
  parse_cidr_list (entry ∷ entries) =
      let rest = parse_cidr_list entries in
      if str_eq (net.trim_space entry) ""
      then rest
      else add_parsed (net.parse_cidr (with_length (net.trim_space entry))) rest

  abbrev pub country_of : String → String
  country_of c = net.to_upper (net.trim_space c)

  unfoldable pub set_ip_access_lists :
      (ip_allow ip_block geo_allow geo_block : List String) (geo_header : String) → AccessLists N
  set_ip_access_lists ip_allow ip_block geo_allow geo_block geo_header = record {
    ip_allow = parse_cidr_list ip_allow;
    ip_block = parse_cidr_list ip_block;
    geo_allow = map country_of geo_allow;
    geo_block = map country_of geo_block;
    geo_header = net.trim_space geo_header;
  }

  abbrev pub any_contains : List N → I → Bool
  any_contains cidrs ip = exists (λ cidr. net.contains cidr ip) cidrs

  abbrev denies_ip : List N → List N → Option I → Bool
  denies_ip allow block none = true
  denies_ip allow block (some ip) =
      if not (is_empty allow) && not (any_contains allow ip) then true else any_contains block ip

  unfoldable pub deny_by_cidr : String → List N → List N → Bool
  deny_by_cidr client allow block =
      if is_empty allow && is_empty block
      then false
      else denies_ip allow block (net.parse_ip client)

  abbrev pub listed : String → List String → Bool
  listed country countries = exists (λ c. str_eq c country) countries

  module _ (proxies : Proxies) (lists : AccessLists N) where
    -- The country, which a trusted peer alone can name.
    abbrev pub country : AccessRequest → String
    country r =
        if proxies.contains r.source.remote_ip then country_of (r.headers lists.geo_header) else ""

    abbrev denies_country : String → Bool
    denies_country c =
        if str_eq c ""
        then not (is_empty lists.geo_allow)
        else if not (is_empty lists.geo_allow) && not (listed c lists.geo_allow)
        then true
        else not (is_empty lists.geo_block) && listed c lists.geo_block

    unfoldable pub deny_by_geo : AccessRequest → Bool
    deny_by_geo r =
        if str_eq lists.geo_header "" || (is_empty lists.geo_allow && is_empty lists.geo_block)
        then false
        else denies_country (country r)

    abbrev no_lists : Bool
    no_lists =
        is_empty lists.ip_allow
        && is_empty lists.ip_block
        && is_empty lists.geo_allow
        && is_empty lists.geo_block

    -- Whether the next handler is called.
    unfoldable pub ip_access : AccessRequest → Bool
    ip_access r =
        if str_eq r.path "/healthz" || str_eq r.path "/readyz"
        then true
        else if no_lists
        then true
        else if deny_by_cidr (client_ip proxies r.source) lists.ip_allow lists.ip_block
        then false
        else not (deny_by_geo r)
