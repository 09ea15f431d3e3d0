-- ===== src/Outbound/Domains.antt =====
-- Which endpoints of a discovery document may be fetched (CheckDerived), said without the order of the
-- tests.
use vault.Common.{
  ℕ, zero, suc, ◌-◌, Bool, true, some, List, [], ◌∷◌, ◌++◌, leb, exists, length, length-append, ok,
  ◌≡◌, ◌≢◌, ◌↔◌, ◌⊎◌, inl, inr, refl, sym, ap, ◌∙◌, subst, arith, Bool-cases,
}
use vault.Common.Results.{Result-cases}
use vault.Outbound.{
  Net, bytes_eq, drop, has_suffix, dot, under_domain, allows, add_host, allowed_from, new, host_of,
  is_loopback_host, judge_domain, judge_host, check_derived,
}

pub bytes_eq→eq : (xs ys : List ℕ) → bytes_eq xs ys ≡ true → xs ≡ ys
bytes_eq→eq [] [] h = refl
bytes_eq→eq [] (y ∷ ys) h = absurd (ground arith)
bytes_eq→eq (x ∷ xs) [] h = absurd (ground arith)
bytes_eq→eq (x ∷ xs) (y ∷ ys) h =
    let head_eq : x ≡ y = ground arith in
    let tail_eq = bytes_eq→eq xs ys (ground arith) in rw (head_eq, tail_eq) refl

pub bytes_eq_refl : (xs : List ℕ) → bytes_eq xs xs ≡ true
bytes_eq_refl [] = refl
bytes_eq_refl (x ∷ xs) = ground (arith, bytes_eq_refl xs)

pub eq→bytes_eq : (xs ys : List ℕ) → xs ≡ ys → bytes_eq xs ys ≡ true
eq→bytes_eq xs ys h = subst (λ zs. bytes_eq xs zs ≡ true) h (bytes_eq_refl xs)

drop-split : (n : ℕ) (xs : List ℕ) → (front : List ℕ) × (xs ≡ front ++ drop n xs)
drop-split zero xs = ([], refl)
drop-split (suc n) [] = ([], refl)
drop-split (suc n) (x ∷ xs) =
    let (front, split) = drop-split n xs in (x ∷ front, ap (λ t. x ∷ t) split)

drop-length : (xs ys : List ℕ) → drop (length xs) (xs ++ ys) ≡ ys
drop-length [] ys = refl
drop-length (x ∷ xs) ys = drop-length xs ys

has_suffix→front : (s t : List ℕ) → has_suffix s t ≡ true → (front : List ℕ) × (s ≡ front ++ t)
unfolding has_suffix
has_suffix→front s t h =
    let (front, split) = drop-split (length s - length t) s in
    let ends = bytes_eq→eq (drop (length s - length t) s) t (ground arith) in
    (front, split ∙ ap (λ r. front ++ r) ends)

has_suffix-append : (front t : List ℕ) → has_suffix (front ++ t) t ≡ true
unfolding has_suffix
has_suffix-append front t =
    let size = length-append {0} front t in
    let cut : length (front ++ t) - length t ≡ length front = omega (arith, size) in
    let fits : leb (length t) (length (front ++ t)) ≡ true = ground (arith, size) in
    rw (cut, drop-length front t, bytes_eq_refl t, fits) refl

-- The host is the domain, or ends in it behind a dot.
abbrev pub IsUnder : (host base : List ℕ) → Type 0
IsUnder host base = (host ≡ base) ⊎ ((labels : List ℕ) × (host ≡ labels ++ dot ∷ base))

pub under_domain_iff : (host base : List ℕ) → under_domain host base ≡ true ↔ IsUnder host base
unfolding under_domain
under_domain_iff host base = (
  λ h. elim (Bool-cases (bytes_eq host base)) [
    | inl e ↦ inl (bytes_eq→eq host base e)
    | inr e ↦ inr (has_suffix→front host (dot ∷ base) (ground (arith, e)))
  ],
  λ u. elim u [
    | inl e ↦ let same = eq→bytes_eq host base e in ground (arith, same)
    | inr (labels, e) ↦
        let ends : has_suffix host (dot ∷ base) ≡ true =
          subst (λ t. has_suffix t (dot ∷ base) ≡ true) (sym e)
            (has_suffix-append labels (dot ∷ base)) in
        ground (arith, ends)
  ],
)

module _ {I C : Type 0} (net : Net I C) where
  -- An entry of the list, trimmed and in lower case, is the host.
  abbrev pub IsNamed : List (List ℕ) → List ℕ → Type 0
  IsNamed [] host = ⊥
  IsNamed (h ∷ hs) host = ((host ≡ net.to_lower (net.trim_space h)) × (host ≢ [])) ⊎ IsNamed hs host

  add_host_iff :
      (t host : List ℕ) (allowed : List (List ℕ))
      → exists (bytes_eq host) (add_host net t allowed) ≡ true
        ↔ ((host ≡ t) × (host ≢ [])) ⊎ (exists (bytes_eq host) allowed ≡ true)
  add_host_iff [] host allowed =
      (λ h. inr h, λ u. elim u [ inl (e, filled) ↦ absurd (filled e) | inr h ↦ h ])
  add_host_iff (x ∷ t) host allowed = (
    λ h. elim (Bool-cases (bytes_eq host (x ∷ t))) [
      | inl e ↦
          let same = bytes_eq→eq host (x ∷ t) e in inl (same, λ gone. ground (arith, same, gone))
      | inr e ↦ inr (ground (arith, e))
    ],
    λ u. elim u [
      | inl (e, filled) ↦ let same = eq→bytes_eq host (x ∷ t) e in ground (arith, same)
      | inr h ↦ ground arith
    ],
  )

  exists_IsNamed :
      (hs : List (List ℕ)) (host : List ℕ)
      → exists (bytes_eq host) (allowed_from net hs) ≡ true ↔ IsNamed hs host
  exists_IsNamed [] host = ground arith
  exists_IsNamed (h ∷ hs) host =
      let (there, back) =
        add_host_iff (net.to_lower (net.trim_space h)) host (allowed_from net hs) in
      let (rest_there, rest_back) = exists_IsNamed hs host in
      (
        λ found. elim (there found) [ inl named ↦ inl named | inr later ↦ inr (rest_there later) ],
        λ u. elim u [ inl named ↦ back (inl named) | inr later ↦ back (inr (rest_back later)) ],
      )

  allows_iff :
      (hs : List (List ℕ)) (private : Bool) (host : List ℕ)
      → allows (some (new net hs private)) host ≡ true ↔ IsNamed hs host
  unfolding allows new
  allows_iff hs private host = exists_IsNamed hs host

  judge_domain_iff :
      (host issuer : List ℕ)
      → judge_domain net host (host_of net issuer) ≡ ok tt
        ↔ ((base : List ℕ) × (host_of net issuer ≡ ok base) × IsUnder host base)
  judge_domain_iff host issuer = elim (Result-cases (host_of net issuer)) [
    | inl (base, e) ↦
        let (there, back) = under_domain_iff host base in
        (
          λ h. (base, e, there (ground (arith, e))),
          λ (other, told, under).
              let same : other ≡ base = cc in
              let found = back (subst (IsUnder host) same under) in ground (arith, e, found),
        )
    | inr (bad, e) ↦ (λ h. absurd (ground (arith, e)), λ (base, told, under). absurd (cc))
  ]

  -- Loopback, or on the operator's list, or under the issuer's domain.
  abbrev pub IsTrusted : List (List ℕ) → (issuer host : List ℕ) → Type 0
  IsTrusted hosts issuer host =
      (is_loopback_host net host ≡ true)
      ⊎ IsNamed hosts host
      ⊎ ((base : List ℕ) × (host_of net issuer ≡ ok base) × IsUnder host base)

  judge_host-IsTrusted :
      (hosts : List (List ℕ)) (private : Bool) (issuer host : List ℕ)
      → judge_host net (some (new net hosts private)) issuer (ok host) ≡ ok tt
        ↔ IsTrusted hosts issuer host
  judge_host-IsTrusted hosts private issuer host =
      let (listed, listed_back) = allows_iff hosts private host in
      let (under, under_back) = judge_domain_iff host issuer in
      (
        λ h. elim (Bool-cases (is_loopback_host net host)) [
          | inl near ↦ inl near
          | inr far ↦ elim (Bool-cases (allows (some (new net hosts private)) host)) [
            | inl found ↦ inr (inl (listed found))
            | inr missing ↦ inr (inr (under (ground (arith, far, missing))))
          ]
        ],
        λ t. elim t [
          | inl near ↦ ground (arith, near)
          | inr (inl named) ↦ let found = listed_back named in ground (arith, found)
          | inr (inr domain) ↦ let found = under_back domain in ground (arith, found)
        ],
      )

  -- With the operator's list of hosts, an endpoint may be fetched exactly when its host can be read
  -- and is loopback, or on that list, or the issuer's host or a subdomain of it, on a label boundary.
  pub check_derived-IsTrusted :
      (hosts : List (List ℕ)) (private : Bool) (issuer endpoint : List ℕ)
      → check_derived net (some (new net hosts private)) issuer endpoint ≡ ok tt
        ↔ ((host : List ℕ) × (host_of net endpoint ≡ ok host) × IsTrusted hosts issuer host)
  unfolding check_derived
  check_derived-IsTrusted hosts private issuer endpoint =
      elim (Result-cases (host_of net endpoint)) [
        | inl (host, e) ↦
            let (there, back) = judge_host-IsTrusted hosts private issuer host in
            (
              λ h. (host, e, there (rw e at h)),
              λ (other, told, trusted).
                  let same : other ≡ host = cc in
                  rw e (back (subst (IsTrusted hosts issuer) same trusted)),
            )
        | inr (bad, e) ↦ (λ h. absurd (ground (arith, e)), λ (host, told, trusted). absurd (cc))
      ]
