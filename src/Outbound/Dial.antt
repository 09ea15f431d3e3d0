-- ===== src/Outbound/Dial.antt =====
-- Which address a connection is opened to (DialContext of outbound.go).
use vault.Common.{
  ℕ, true, false, Option, none, some, List, [], ◌∷◌, ok, ◌≡◌, ◌↔◌, ◌⊎◌, inl, inr, refl, arith, All,
  Option-cases,
}
use vault.Outbound.{
  Net, Policy, private_allowed, in_shared_space, refuse_address, resolve, first_refused, dial_first,
  judge_answer, dial_context,
}

module _ {I C : Type 0} (net : Net I C) (p : Option Policy) where
  -- Never one of these; inside the deployment if the operator allows it.
  abbrev pub IsOutside : I → Type 0
  IsOutside ip =
      (net.is_unspecified ip ≡ false)
      × (net.is_link_local_unicast ip ≡ false)
      × (net.is_link_local_multicast ip ≡ false)
      × (net.is_multicast ip ≡ false)
      × ((private_allowed p ≡ true)
          ⊎ ((net.is_loopback ip ≡ false)
              × (net.is_private ip ≡ false)
              × (in_shared_space (net.to4 ip) ≡ false)))

  refuse_address-IsOutside : (ip : I) → refuse_address net p ip ≡ none ↔ IsOutside ip
  unfolding refuse_address
  refuse_address-IsOutside ip = (λ h. ground arith, λ o. ground arith)

  first_refused-All : (ips : List I) → first_refused net p ips ≡ none ↔ All IsOutside ips
  first_refused-All [] = ground arith
  first_refused-All (ip ∷ ips) =
      let (here, here_back) = refuse_address-IsOutside ip in
      let (rest, rest_back) = first_refused-All ips in
      elim (Option-cases (refuse_address net p ip)) [
        | inl fine ↦ (
          λ h. (here fine, rest (ground (arith, fine))),
          λ (o, os). let later = rest_back os in ground (arith, fine, later),
        )
        | inr (e, bad) ↦
            (λ h. absurd (ground (arith, bad)), λ (o, os). let fine = here_back o in absurd (cc))
      ]

  dial_first_iff :
      (port : List ℕ) (ips : List I) (ip : I) (conn : C)
      → dial_first net port ips ≡ ok (ip, conn)
        ↔ ((rest : List I) × (ips ≡ ip ∷ rest) × (net.dial ip port ≡ some conn))
  dial_first_iff port [] ip conn =
      (λ h. absurd (ground arith), λ (rest, e, d). absurd (ground arith))
  dial_first_iff port (x ∷ xs) ip conn = elim (Option-cases (net.dial x port)) [
    | inl failed ↦ (
      λ h. absurd (ground (arith, failed)),
      λ (rest, e, d). let same : x ≡ ip = ground arith in absurd (cc),
    )
    | inr (c, done) ↦ (
      λ h.
          let same : x ≡ ip = ground (arith, done) in
          let that : c ≡ conn = ground (arith, done) in (xs, cc, cc),
      λ (rest, e, d).
          let same : x ≡ ip = ground arith in
          let that : c ≡ conn = cc in rw (done, same, that) refl,
    )
  ]

  judge_answer_iff :
      (port : List ℕ) (ips : List I) (ip : I) (conn : C)
      → judge_answer net p port (some ips) ≡ ok (ip, conn)
        ↔ All IsOutside ips × ((rest : List I) × (ips ≡ ip ∷ rest) × (net.dial ip port ≡ some conn))
  judge_answer_iff port ips ip conn =
      let (outside, outside_back) = first_refused-All ips in
      let (opened, opened_back) = dial_first_iff port ips ip conn in
      elim (Option-cases (first_refused net p ips)) [
        | inl fine ↦ (
          λ h. (outside fine, opened (ground (arith, fine))),
          λ (o, r). let done = opened_back r in ground (arith, fine, done),
        )
        | inr ((bad, e), found) ↦ (
          λ h. absurd (ground (arith, found)),
          λ (o, r). let fine = outside_back o in absurd (cc),
        )
      ]

  -- The addresses of the destination, the first of which a connection was opened to.
  abbrev pub Answers : (addr : List ℕ) → List I → I → C → Type 0
  Answers addr ips ip conn =
      (host : List ℕ) × (port : List ℕ) × (rest : List I) × (net.split_host_port addr
        ≡ some (host, port))
      × (resolve net host ≡ some ips)
      × (ips ≡ ip ∷ rest)
      × (net.dial ip port ≡ some conn)

  -- A connection is opened exactly to the first of the addresses that the destination resolved to, if
  -- dialing it succeeds and every one of them, not only that one, is outside: not unspecified, link-local or
  -- multicast and, unless the operator allows the private ranges, not loopback, private or shared.
  pub dial_context-IsOutside :
      (addr : List ℕ) (ip : I) (conn : C)
      → dial_context net p addr ≡ ok (ip, conn)
        ↔ ((ips : List I) × Answers addr ips ip conn × All IsOutside ips)
  unfolding dial_context
  dial_context-IsOutside addr ip conn = (
    λ h. elim (Option-cases (net.split_host_port addr)) [
      | inl bad ↦ absurd (ground (arith, bad))
      | inr ((host, port), split) ↦ elim (Option-cases (resolve net host)) [
        | inl bad ↦ absurd (ground (arith, split, bad))
        | inr (ips, found) ↦
            let judged : judge_answer net p port (some ips) ≡ ok (ip, conn) =
              ground (arith, split, found) in
            let (o, (rest, e, d)) = (judge_answer_iff port ips ip conn).0 judged in
            (ips, (host, port, rest, split, found, e, d), o)
      ]
    ],
    λ (ips, (host, port, rest, split, found, e, d), o).
        let judged = (judge_answer_iff port ips ip conn).1 (o, (rest, e, d)) in
        ground (arith, split, found, judged),
  )
