-- ===== src/IpAccess/Tests.antt =====
-- The lists with networks and addresses as texts: a network contains an address if they are equal.
use vault.Common.{String, ◌≡◌, ◌↔◌, ◌⊎◌, inr, refl, true, false, none, some, [], ◌∷◌, str_eq}
use vault.ClientIp.{Proxies, client_ip}
use vault.IpAccess.{
  Net, AccessLists, AccessRequest, set_ip_access_lists, parse_cidr_list, deny_by_cidr, deny_by_geo,
  ip_access,
}
use vault.IpAccess.Fences.{PassesCidrs, PassesCountries, ip_access-PassesCountries}

abbrev net : Net String String
net = record {
  parse_ip = λ text. some text;
  parse_cidr = λ text. some text;
  contains = λ network ip. str_eq network ip;
  trim_space = λ text. text;
  to_upper = λ text. text;
  has_slash = λ text. true;
  has_colon = λ text. false;
}

abbrev proxies : Proxies
proxies = record {
  normalize_ip = λ text. text;
  is_blank = λ text. str_eq text "";
  has_cidrs = true;
  contains = λ ip. str_eq ip "proxy";
}

abbrev lists : AccessLists String
lists = record {
  ip_allow = [];
  ip_block = "bad" ∷ [];
  geo_allow = "CH" ∷ [];
  geo_block = [];
  geo_header = "CF-IPCountry";
}

lists_set : set_ip_access_lists net [] ("bad" ∷ []) ("CH" ∷ []) [] "CF-IPCountry" ≡ lists
unfolding set_ip_access_lists parse_cidr_list
lists_set = refl

-- A peer that names its own country.
abbrev claims_country : AccessRequest
claims_country = record {
  path = "/auth/login";
  source = record { remote_ip = "peer"; real_ip = none; forwarded_for = [] };
  headers = λ name. "CH";
}

not_believed : ip_access net proxies lists claims_country ≡ false
unfolding ip_access deny_by_cidr deny_by_geo client_ip
not_believed = refl

ip_access-PassesCountries_example :
    ip_access net proxies lists claims_country ≡ true
    ↔ (claims_country.path ≡ "/healthz")
      ⊎ (claims_country.path ≡ "/readyz")
      ⊎ (PassesCidrs net proxies lists (client_ip proxies claims_country.source)
          × PassesCountries net proxies lists "")
ip_access-PassesCountries_example =
    ip_access-PassesCountries net proxies lists claims_country "" (inr (refl, refl))
