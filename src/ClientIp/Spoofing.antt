-- ===== src/ClientIp/Spoofing.antt =====
-- What a client can do to the address that it is counted under.
use vault.Common.{
  ℕ, zero, suc, ◌-◌, ◌≤◌, ◌<◌, String, ◌≡◌, refl, true, false, ◌&&◌, none, some, List, [], ◌∷◌,
  ◌++◌, arith, length, length-append, All-mono, ◌≢◌, All, eq_iff, ap, ◌∙◌,
}
use vault.ClientIp.{
  Proxies, Request, max_xff_hops, drop, capped, is_foreign, last_foreign, forwarded, from_real_ip,
  client_ip,
}

drop-append : (n : ℕ) (xs ys : List String) → n ≤ length xs → drop n (xs ++ ys) ≡ drop n xs ++ ys
drop-append zero xs ys h = refl
drop-append (suc n) [] ys h = absurd (omega (arith, h))
drop-append (suc n) (x ∷ xs) ys h = drop-append n xs ys (omega arith)

drop-zero : (n : ℕ) (xs : List String) → n ≡ 0 → drop n xs ≡ xs
drop-zero n xs h = rw h refl

-- The cap cuts into what stands before the last parts only.
capped-append :
    (xs ys : List String)
    → length ys ≤ max_xff_hops
    → (kept : List String) × (capped (xs ++ ys) ≡ kept ++ ys)
capped-append xs ys h = (
  drop (length (xs ++ ys) - max_xff_hops) xs,
  drop-append (length (xs ++ ys) - max_xff_hops) xs ys (omega (arith, length-append xs ys)),
)

module _ (p : Proxies) where
  last_foreign-hops :
      (hops : List String) → All (λ h. is_foreign p h ≡ false) hops → last_foreign p hops ≡ none
  last_foreign-hops [] h = refl
  last_foreign-hops (x ∷ xs) (a, h) = rw (last_foreign-hops xs h, a) refl

  last_foreign-append :
      (sent : List String) (client : String) (hops : List String)
      → is_foreign p client ≡ true
      → All (λ h. is_foreign p h ≡ false) hops
      → last_foreign p (sent ++ client ∷ hops) ≡ some (p.normalize_ip client)
  last_foreign-append [] client hops f h = rw (last_foreign-hops hops h, f) refl
  last_foreign-append (x ∷ sent) client hops f h =
      rw (last_foreign-append sent client hops f h) refl

  forwarded-appended :
      (remote : String) (sent : List String) (client : String) (hops : List String)
      → is_foreign p client ≡ true
      → All (λ h. is_foreign p h ≡ false) hops
      → length hops < max_xff_hops
      → forwarded p remote (sent ++ client ∷ hops) ≡ p.normalize_ip client
  unfolding forwarded
  forwarded-appended remote sent client hops f h b =
      let (kept, cut) = capped-append sent (client ∷ hops) (omega arith) in
      rw (cut, last_foreign-append kept client hops f h, forwarded) refl

  -- A peer that is no trusted proxy is counted under its own address, whatever headers it sends.
  client_ip-untrusted :
      (r : Request) → (p.has_cidrs && p.contains r.remote_ip) ≡ false → client_ip p r ≡ r.remote_ip
  unfolding client_ip
  client_ip-untrusted r h = ground arith

  -- Behind trusted proxies, and with no usable real-address header, the address that the first of
  -- them appended is the answer if it is none of theirs: whatever the client sent before it, and
  -- however much, within a path of at most 32 hops.
  pub client_ip-appended :
      (r : Request) (sent : List String) (client : String) (hops : List String)
      → (p.has_cidrs && p.contains r.remote_ip) ≡ true
      → from_real_ip p r.real_ip ≡ ""
      → r.forwarded_for ≡ sent ++ client ∷ hops
      → p.normalize_ip client ≢ ""
      → p.contains (p.normalize_ip client) ≡ false
      → All (λ h. p.contains (p.normalize_ip h) ≡ true) hops
      → length hops < max_xff_hops
      → client_ip p r ≡ p.normalize_ip client
  unfolding client_ip
  client_ip-appended r sent client hops t n e valid f h b =
      let foreign : is_foreign p client ≡ true =
        ground (arith, eq_iff (p.normalize_ip client) "", valid, f) in
      let trusted : All (λ h. is_foreign p h ≡ false) hops =
        All-mono (λ a q. ground (arith, q)) hops h in
      let same : forwarded p r.remote_ip r.forwarded_for ≡ p.normalize_ip client =
        ap (forwarded p r.remote_ip) e
        ∙ forwarded-appended r.remote_ip sent client hops foreign trusted b in
      ground (arith, same, eq_iff (from_real_ip p r.real_ip) "")
