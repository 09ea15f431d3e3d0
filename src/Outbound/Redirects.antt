-- ===== src/Outbound/Redirects.antt =====
-- Where a client of ClientForIssuer sends a request (outbound.go): the first URL and the redirects
-- that CheckRedirect lets it follow.
use vault.Common.{
  ℕ, suc, ◌≤◌, Bool, true, Option, some, List, [], ◌∷◌, length, ok, ◌≡◌, arith, All, All-mono, inl,
  inr,
}
use vault.Common.Results.{Result-cases}
use vault.Outbound.{Net, Policy, new, host_of, fetchable_endpoint, check_derived, check_redirect}
use vault.Outbound.Domains.{IsTrusted, check_derived-IsTrusted}

module _ {I C : Type 0} (net : Net I C) (p : Option Policy) (issuer : List ℕ) where
  -- The requests of one fetch, the latest first.
  pub data Followed (first : List ℕ) : List (List ℕ) → Type 0 where
    sent : Followed first (first ∷ [])
    redirected :
        {urls : List (List ℕ)}
        → Followed first urls
        → (url : List ℕ) → check_redirect net p issuer (length urls) url ≡ true
        → Followed first (url ∷ urls)

  abbrev pub IsChecked : List ℕ → Type 0
  IsChecked url = (fetchable_endpoint net url ≡ true) × (check_derived net p issuer url ≡ ok tt)

  check_redirect-IsChecked :
      (via : ℕ) (url : List ℕ)
      → check_redirect net p issuer via url ≡ true
      → (suc via ≤ 10) × IsChecked url
  unfolding check_redirect
  check_redirect-IsChecked via url h = elim (Result-cases (check_derived net p issuer url)) [
    | inl (tt, e) ↦ ground (arith, e)
    | inr (bad, e) ↦ absurd (ground (arith, e))
  ]

  Followed-IsChecked :
      (first : List ℕ) (urls : List (List ℕ))
      → IsChecked first
      → Followed first urls
      → (length urls ≤ 10) × All IsChecked urls
  Followed-IsChecked first urls checked sent = (omega arith, (checked, tt))
  Followed-IsChecked first urls checked (redirected {urls = before} f url h) =
      let (few, rest) = Followed-IsChecked first before checked f in
      let (fits, this) = check_redirect-IsChecked (length before) url h in
      (omega (arith, fits), (this, rest))

module _ {I C : Type 0} (net : Net I C) where
  -- A first URL that is fetchable and passes CheckDerived, and redirects that the client follows: at
  -- most ten requests are sent, each to an https endpoint or, over http, to loopback, whose host
  -- is loopback, on the operator's list or under the issuer's domain.
  pub Followed-IsTrusted :
      (hosts : List (List ℕ)) (private : Bool) (issuer first : List ℕ) (urls : List (List ℕ))
      → fetchable_endpoint net first ≡ true
      → check_derived net (some (new net hosts private)) issuer first ≡ ok tt
      → Followed net (some (new net hosts private)) issuer first urls
      → (length urls ≤ 10)
        × All
            (λ url.
              (fetchable_endpoint net url ≡ true)
              × ((host : List ℕ) × (host_of net url ≡ ok host) × IsTrusted net hosts issuer host))
            urls
  Followed-IsTrusted hosts private issuer first urls fetches derived f =
      let p = some (new net hosts private) in
      let (few, checked) = Followed-IsChecked net p issuer first urls (fetches, derived) f in
      (
        few,
        All-mono (λ url (a, b). (a, (check_derived-IsTrusted net hosts private issuer url).0 b))
            urls checked,
      )
