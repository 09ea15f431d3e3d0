-- ===== src/Outbound/Tests.antt =====
-- An issuer "o.t", with "c.n" on the operator's list; a URL is its host, and an address of one byte
-- is its own number, of which 7 is loopback.
use vault.Common.{
  ℕ, true, false, Option, none, some, List, [], ◌∷◌, ◌==◌, ok, err, ◌≡◌, ◌≤◌, ◌↔◌, refl, All,
}
use vault.Outbound.{
  Net, Policy, outside, refused, loopback, https, new, host_of, is_loopback_host, is_ascii_host,
  has_suffix, under_domain, allows, fetchable_endpoint, check_derived, check_redirect,
  refuse_address, resolve, dial_context, validate_allowed_hosts,
}
use vault.Outbound.Domains.{IsTrusted, check_derived-IsTrusted}
use vault.Outbound.Redirects.{sent, redirected, Followed-IsTrusted}
use vault.Outbound.Dial.{IsOutside, Answers, dial_context-IsOutside}

abbrev one_byte : List ℕ → Option ℕ
one_byte [] = none
one_byte (b ∷ []) = some b
one_byte (b ∷ c ∷ bs) = none

abbrev net : Net ℕ ℕ
net = record {
  parse_url = λ raw. some (record { scheme = https; host = raw; hostname = raw });
  parse_ip = one_byte;
  is_unspecified = λ ip. ip == 0;
  is_link_local_unicast = λ ip. ip == 1;
  is_link_local_multicast = λ ip. ip == 2;
  is_multicast = λ ip. ip == 3;
  is_loopback = λ ip. ip == 7;
  is_private = λ ip. ip == 10;
  to4 = λ ip. some ip;
  to_lower = λ text. text;
  trim_space = λ text. text;
  split_host_port = λ addr. some (addr, []);
  lookup_ip = λ host. some (8 ∷ 9 ∷ []);
  dial = λ ip port. some ip;
}

abbrev issuer : List ℕ
issuer = 111 ∷ 46 ∷ 116 ∷ []

abbrev keys : List ℕ
keys = 107 ∷ 46 ∷ 111 ∷ 46 ∷ 116 ∷ []

abbrev lookalike : List ℕ
lookalike = 107 ∷ 111 ∷ 46 ∷ 116 ∷ []

abbrev hosts : List (List ℕ)
hosts = (99 ∷ 46 ∷ 110 ∷ []) ∷ []

abbrev policy : Option Policy
policy = some (new net hosts false)

keys_pass : check_derived net policy issuer keys ≡ ok tt
unfolding check_derived host_of is_ascii_host is_loopback_host allows under_domain has_suffix new
keys_pass = refl

lookalike_fails : check_derived net policy issuer lookalike ≡ err (outside lookalike issuer)
unfolding check_derived host_of is_ascii_host is_loopback_host allows under_domain has_suffix new
lookalike_fails = refl

non_ascii_entry : validate_allowed_hosts net ((200 ∷ []) ∷ []) ≡ false
unfolding validate_allowed_hosts is_ascii_host
non_ascii_entry = refl

loopback_literal : dial_context net policy (7 ∷ []) ≡ err (refused 7 loopback)
unfolding dial_context resolve refuse_address new
loopback_literal = refl

dials_first : dial_context net policy keys ≡ ok (8, 8)
unfolding dial_context resolve refuse_address new
dials_first = refl

keys_fetchable : fetchable_endpoint net keys ≡ true
unfolding fetchable_endpoint
keys_fetchable = refl

follows : check_redirect net policy issuer 1 issuer ≡ true
unfolding check_redirect fetchable_endpoint check_derived host_of is_ascii_host is_loopback_host
    allows under_domain has_suffix new
follows = refl

check_derived-IsTrusted_example :
    check_derived net (some (new net hosts false)) issuer keys ≡ ok tt
    ↔ ((host : List ℕ) × (host_of net keys ≡ ok host) × IsTrusted net hosts issuer host)
check_derived-IsTrusted_example = check_derived-IsTrusted net hosts false issuer keys

Followed-IsTrusted_example :
    (2 ≤ 10)
    × All
        (λ url.
          (fetchable_endpoint net url ≡ true)
          × ((host : List ℕ) × (host_of net url ≡ ok host) × IsTrusted net hosts issuer host))
        (issuer ∷ keys ∷ [])
Followed-IsTrusted_example =
    Followed-IsTrusted net hosts false issuer keys (issuer ∷ keys ∷ []) keys_fetchable keys_pass
      (redirected sent issuer follows)

dial_context-IsOutside_example :
    dial_context net policy keys ≡ ok (8, 8)
    ↔ ((ips : List ℕ) × Answers net policy keys ips 8 8 × All (IsOutside net policy) ips)
dial_context-IsOutside_example = dial_context-IsOutside net policy keys 8 8
