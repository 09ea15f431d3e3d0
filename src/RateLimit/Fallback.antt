-- ===== src/RateLimit/Fallback.antt =====
-- The fallback while the cache is away: one key against its limit.
use vault.Common.{
  ℕ, ◌-◌, ◌≤◌, ◌<◌, ◌^◌, ◌+◌, ◌%◌, ◌*◌, String, ◌≡◌, ◌≢◌, refl, true, false, none, some, List, [],
  ◌∷◌, arith, err, if◌then◌else◌, length, All, All-mono, ◌⊎◌, eq_refl, Bool-cases, Option-cases,
  eq_iff, str_eq, ◌∙◌, sym, subst, inl, inr,
}
use vault.Common.Dict.{
  lookup, lookup-insert_self, lookup-insert_ne, lookup-sweep_live, lookup-sweep-none,
}
use vault.RateLimit.Counted.{answer-counted}
use vault.RateLimit.Saturated.{answer-odd}
use vault.Cache.{unavailable}
use vault.RateLimit.{
  LocalRateLimiter, RateLimitConfig, Answer, served, rate_limit, judge, answer, increment, evict,
  is_over, max_int64,
}

-- What happens to the fallback while the cache is away, at an instant.
pub data Event : Type 0 where
  requests : (now : ℕ) (key : String) → Event
  evicts : (now : ℕ) → Event

abbrev pub instant : Event → ℕ
instant (requests now key) = now
instant (evicts now) = now

abbrev is_served : Answer → ℕ
is_served (served r) = 1
is_served _ = 0

other_text : {k key : String} → str_eq k key ≡ false → k ≢ key
other_text {k = k} {key = key} e = ground (arith, eq_iff k key, e)

module _ (cfg : RateLimitConfig) (key : String) where
  -- How many of the key's requests, each of weight 1, are served.
  unfoldable pub served_count : LocalRateLimiter → List Event → ℕ
  unfolding rate_limit evict
  served_count l [] = 0
  served_count l (evicts now ∷ es) = served_count (evict now l) es
  served_count l (requests now k ∷ es) =
      let (m, a) = rate_limit cfg true now k 1 (err unavailable) l in
      let rest = served_count m es in if str_eq k key then is_served a + rest else rest

  increment-other :
      (l : LocalRateLimiter) (now : ℕ) (k : String)
      → k ≢ key
      → lookup key (increment now k cfg.window l).0.entries ≡ lookup key l.entries
  unfolding increment
  increment-other l now k n = elim (Option-cases (lookup k l.entries)) [
    | inl a ↦ ground (
      arith,
      lookup-insert_ne k key (record { count = 1; window_end = now + cfg.window }) l.entries n,
    )
    | inr (e, a) ↦ ground (
      arith,
      lookup-insert_ne k key (record { count = 1; window_end = now + cfg.window }) l.entries n,
      lookup-insert_ne k key (record { count = (e.count + 1) % 2 ^ 64; window_end = e.window_end })
          l.entries n,
    )
  ]

  increment-counts :
      (l : LocalRateLimiter) (now c end : ℕ)
      → now ≤ end
      → c + 1 < 2 ^ 62
      → lookup key l.entries ≡ some (record { count = c; window_end = end })
      → ((increment now key cfg.window l).1 ≡ c + 1)
        × (lookup key (increment now key cfg.window l).0.entries
            ≡ some (record { count = c + 1; window_end = end }))
  unfolding increment
  increment-counts l now c end t b found =
      rw (found, increment)
        (ground
          (arith, lookup-insert_self key (record { count = c + 1; window_end = end }) l.entries))

  degraded :
      (now : ℕ) (k : String) (l : LocalRateLimiter)
      → cfg.fail_closed ≡ false
      → rate_limit cfg true now k 1 (err unavailable) l ≡ (
        (increment now k cfg.window l).0,
        answer cfg.limit (increment now k cfg.window l).1 ((increment now k cfg.window l).1 * 1),
      )
  unfolding rate_limit judge
  degraded now k l f = rw f refl

  served-count :
      (c : ℕ)
      → c + 1 < 2 ^ 62
      → cfg.limit < 2 ^ 62
      → is_served (answer cfg.limit (c + 1) ((c + 1) * 1)) + (cfg.limit - (c + 1)) ≤ cfg.limit - c
  served-count c b b2 = ground (
    arith,
    answer-counted cfg.limit (c + 1) ((c + 1) * 1) (omega arith) (omega arith) (omega arith),
  )

  own_request :
      (l : LocalRateLimiter) (now : ℕ) (es : List Event)
      → cfg.fail_closed ≡ false
      → served_count l (requests now key ∷ es)
        ≡ is_served (
            answer cfg.limit
              (increment now key cfg.window l).1
              ((increment now key cfg.window l).1 * 1))
          + served_count (increment now key cfg.window l).0 es
  unfolding served_count
  own_request l now es f = rw (degraded now key l f, eq_refl key) refl

  other_request :
      (l : LocalRateLimiter) (now : ℕ) (k : String) (es : List Event)
      → cfg.fail_closed ≡ false
      → str_eq k key ≡ false
      → served_count l (requests now k ∷ es) ≡ served_count (increment now k cfg.window l).0 es
  unfolding served_count
  other_request l now k es f e = rw (degraded now k l f, e) refl

  live_bound :
      (l : LocalRateLimiter) (es : List Event) (c end : ℕ)
      → cfg.fail_closed ≡ false
      → All (λ e. instant e ≤ end) es
      → c + length es < 2 ^ 62
      → cfg.limit < 2 ^ 62
      → lookup key l.entries ≡ some (record { count = c; window_end = end })
      → served_count l es ≤ cfg.limit - c
  unfolding served_count
  live_bound l [] c end f h b b2 found = omega arith
  live_bound l (evicts now ∷ es) c end f (t, h) b b2 found =
      live_bound (evict now l) es c end f h (omega arith) b2 (
        unfold evict in
        lookup-sweep_live (is_over now) key (record { count = c; window_end = end }) l.entries
          (ground arith) found)
  live_bound l (requests now k ∷ es) c end f (t, h) b b2 found = elim (Bool-cases (str_eq k key)) [
    | inl e ↦
        let same : key ≡ k = sym ((eq_iff k key).0 e) in
        let (n, next) = increment-counts l now c end t (omega arith) found in
        let rest =
          live_bound (increment now key cfg.window l).0 es (c + 1) end f h (omega arith) b2 next in
        let one = served-count c (omega arith) b2 in
        subst (λ j. served_count l (requests now j ∷ es) ≤ cfg.limit - c) same
          (rw (own_request l now es f, n) (omega (arith, one, rest)))
    | inr e ↦ rw (other_request l now k es f e) (
        live_bound (increment now k cfg.window l).0 es c end f h (omega arith) b2
          (increment-other l now k (other_text e) ∙ found))
  ]

  increment-opens :
      (l : LocalRateLimiter) (now : ℕ)
      → lookup key l.entries ≡ none
      → ((increment now key cfg.window l).1 ≡ max_int64)
          × (lookup key (increment now key cfg.window l).0.entries ≡ none)
        ⊎ ((increment now key cfg.window l).1 ≡ 1)
          × (lookup key (increment now key cfg.window l).0.entries
              ≡ some (record { count = 1; window_end = now + cfg.window }))
  unfolding increment
  increment-opens l now absent =
      rw (absent, increment)
        (ground (
          arith,
          absent,
          lookup-insert_self key (record { count = 1; window_end = now + cfg.window }) l.entries,
        ))

  -- While the cache is away, a limiter that does not fail closed and has no entry of a key at the
  -- start serves at most its limit of the requests under that key, each of weight 1 and all within
  -- one window's length: whatever requests of other keys and whatever evictions come in between,
  -- and whether or not the map is at its cap. The events are fewer than 2 ^ 61, and the limit is
  -- below 2 ^ 62.
  pub fallback_bound :
      (l : LocalRateLimiter) (es : List Event) (first : ℕ)
      → cfg.fail_closed ≡ false
      → All (λ e. (first ≤ instant e) × (instant e ≤ first + cfg.window)) es
      → length es < 2 ^ 61
      → cfg.limit < 2 ^ 62
      → lookup key l.entries ≡ none
      → served_count l es ≤ cfg.limit
  unfolding served_count
  fallback_bound l [] first f h b b2 absent = omega arith
  fallback_bound l (evicts now ∷ es) first f (t, h) b b2 absent =
      fallback_bound (evict now l) es first f h (omega arith) b2
        (unfold evict in lookup-sweep-none (is_over now) key l.entries absent)
  fallback_bound l (requests now k ∷ es) first f (t, h) b b2 absent =
      elim (Bool-cases (str_eq k key)) [
        | inl e ↦
            let same : key ≡ k = sym ((eq_iff k key).0 e) in
            subst (λ j. served_count l (requests now j ∷ es) ≤ cfg.limit) same
              (rw (own_request l now es f) (elim (increment-opens l now absent) [
                | inl (n, still) ↦
                    let rest =
                      fallback_bound (increment now key cfg.window l).0 es first f h (omega arith)
                        b2 still in
                    let refused = answer-odd cfg.limit 0 (omega arith) b2 in
                    rw n (ground (arith, rest, refused))
                | inr (n, next) ↦
                    let rest =
                      live_bound (increment now key cfg.window l).0 es 1 (now + cfg.window) f
                        (All-mono (λ a p. omega (arith, p.1, t.0)) es h) (omega arith) b2 next in
                    rw n (omega (arith, rest, served-count 0 (omega arith) b2))
              ]))
        | inr e ↦ rw (other_request l now k es f e) (
            fallback_bound (increment now k cfg.window l).0 es first f h (omega arith) b2
              (increment-other l now k (other_text e) ∙ absent))
      ]
