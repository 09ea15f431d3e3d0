-- ===== src/IpAccess/Fences.antt =====
-- Which requests pass the address and country lists (ipaccess.go), said without their order.
use vault.Common.{
  String, ◌≡◌, ◌≢◌, ◌↔◌, ◌⊎◌, inl, inr, refl, arith, true, false, some, List, [], ◌∷◌, str_eq,
  eq_iff, if◌then◌else◌, ◌&&◌, ◌||◌, not, Bool-cases, sym, subst, Option-cases,
}
use vault.ClientIp.{Proxies, client_ip}
use vault.IpAccess.{
  Net, AccessLists, AccessRequest, is_empty, any_contains, deny_by_cidr, deny_by_geo, listed,
  country, ip_access,
}

is_empty_iff : {A : Type 0} (xs : List A) → is_empty xs ≡ true ↔ xs ≡ []
is_empty_iff [] = ground arith
is_empty_iff (x ∷ xs) = ground arith

module _ {I N : Type 0} (net : Net I N) (proxies : Proxies) (lists : AccessLists N) where
  -- No address list is set; or the client's address parses, lies in the allowlist if that is set, and
  -- in no network of the blocklist.
  abbrev pub PassesCidrs : String → Type 0
  PassesCidrs client =
      ((lists.ip_allow ≡ []) × (lists.ip_block ≡ []))
      ⊎ ((ip : I) × (net.parse_ip client ≡ some ip)
          × ((lists.ip_allow ≡ []) ⊎ (any_contains net lists.ip_allow ip ≡ true))
          × (any_contains net lists.ip_block ip ≡ false))

  -- The country is what the configured header says if the peer is a trusted proxy, and unknown
  -- otherwise.
  abbrev pub IsTold : AccessRequest → String → Type 0
  IsTold r c =
      ((proxies.contains r.source.remote_ip ≡ true)
        × (c ≡ net.to_upper (net.trim_space (r.headers lists.geo_header))))
      ⊎ ((proxies.contains r.source.remote_ip ≡ false) × (c ≡ ""))

  -- No header is configured or no country list set; or the country is unknown and there is no
  -- allowlist; or it is known, allowed if there is an allowlist, and not blocked.
  abbrev pub PassesCountries : String → Type 0
  PassesCountries c =
      (lists.geo_header ≡ "")
      ⊎ ((lists.geo_allow ≡ []) × (lists.geo_block ≡ []))
      ⊎ ((c ≡ "") × (lists.geo_allow ≡ []))
      ⊎ ((c ≢ "")
          × ((lists.geo_allow ≡ []) ⊎ (listed net c lists.geo_allow ≡ true))
          × (listed net c lists.geo_block ≡ false))

  country-IsTold : (r : AccessRequest) (c : String) → IsTold r c → country net proxies lists r ≡ c
  country-IsTold r c told = elim told [
    | inl (trusted, said) ↦ rw trusted (sym said)
    | inr (foreign, unknown) ↦ rw foreign (sym unknown)
  ]

  listed-nil : (c : String) (cs : List String) → is_empty cs ≡ true → listed net c cs ≡ false
  listed-nil c [] h = refl
  listed-nil c (x ∷ xs) h = absurd (ground arith)

  contains-nil : (ip : I) (ns : List N) → is_empty ns ≡ true → any_contains net ns ip ≡ false
  contains-nil ip [] h = refl
  contains-nil ip (x ∷ xs) h = absurd (ground arith)

  deny_by_cidr-PassesCidrs :
      (client : String)
      → deny_by_cidr net client lists.ip_allow lists.ip_block ≡ false ↔ PassesCidrs client
  unfolding deny_by_cidr
  deny_by_cidr-PassesCidrs client = elim (Option-cases (net.parse_ip client)) [
    | inl n ↦ ground (arith, is_empty_iff lists.ip_allow, is_empty_iff lists.ip_block)
    | inr (ip, e) ↦ (
      λ h. elim (Bool-cases (is_empty lists.ip_allow && is_empty lists.ip_block)) [
        | inl q ↦ inl (ground (arith, is_empty_iff lists.ip_allow, is_empty_iff lists.ip_block))
        | inr q ↦ inr (ip, e, ground (arith, is_empty_iff lists.ip_allow), ground arith)
      ],
      λ p. elim p [
        | inl q ↦ ground (arith, is_empty_iff lists.ip_allow, is_empty_iff lists.ip_block)
        | inr (ip', e', a, b) ↦ ground (arith, is_empty_iff lists.ip_allow)
      ],
    )
  ]

  deny_by_geo-PassesCountries :
      (r : AccessRequest)
      → deny_by_geo net proxies lists r ≡ false ↔ PassesCountries (country net proxies lists r)
  unfolding deny_by_geo
  deny_by_geo-PassesCountries r =
      let c = country net proxies lists r in
      ground (
        arith,
        is_empty_iff lists.geo_allow,
        is_empty_iff lists.geo_block,
        eq_iff lists.geo_header "",
        eq_iff c "",
        listed-nil c lists.geo_block,
      )

  -- What the two fences and the short cuts before them come to.
  ip_access-denies :
      (r : AccessRequest)
      → ip_access net proxies lists r ≡ (
          if str_eq r.path "/healthz" || str_eq r.path "/readyz"
          then true
          else not (deny_by_cidr net (client_ip proxies r.source) lists.ip_allow lists.ip_block)
            && not (deny_by_geo net proxies lists r))
  unfolding ip_access deny_by_cidr deny_by_geo
  ip_access-denies r = ground arith

  -- A request reaches the next handler exactly if it is a health probe, or passes the address lists
  -- and the country lists, by its country c: what the configured header says if the peer is a trusted
  -- proxy, and unknown otherwise.
  pub ip_access-PassesCountries :
      (r : AccessRequest) (c : String)
      → IsTold r c
      → ip_access net proxies lists r ≡ true
        ↔ (r.path ≡ "/healthz")
          ⊎ (r.path ≡ "/readyz")
          ⊎ (PassesCidrs (client_ip proxies r.source) × PassesCountries c)
  ip_access-PassesCountries r c told =
      let client = client_ip proxies r.source in
      let cidrs = deny_by_cidr-PassesCidrs client in
      let countries =
        subst (λ d. deny_by_geo net proxies lists r ≡ false ↔ PassesCountries d)
          (country-IsTold r c told) (deny_by_geo-PassesCountries r) in
      let shape = ip_access-denies r in
      (
        λ h. elim (Bool-cases (str_eq r.path "/healthz")) [
          | inl p ↦ inl ((eq_iff r.path "/healthz").0 p)
          | inr p ↦ elim (Bool-cases (str_eq r.path "/readyz")) [
            | inl q ↦ inr (inl ((eq_iff r.path "/readyz").0 q))
            | inr q ↦ inr (inr (cidrs.0 (ground arith), countries.0 (ground arith)))
          ]
        ],
        λ p. elim p [
          | inl q ↦ ground (arith, eq_iff r.path "/healthz")
          | inr (inl q) ↦ ground (arith, eq_iff r.path "/readyz")
          | inr (inr (a, b)) ↦ let x = cidrs.1 a in let y = countries.1 b in ground arith
        ],
      )
