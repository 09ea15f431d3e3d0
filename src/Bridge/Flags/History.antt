-- ===== src/Bridge/Flags/History.antt =====
-- The map of the flag store against the history of its calls (cmd/bridge/state.go).
use vault.Common.{
  ℕ, ◌+◌, ◌≤◌, String, ◌≡◌, refl, arith, Bool, true, false, Option, none, some, List, [], ◌∷◌, ◌⊎◌,
  inl, inr, str_eq, eq_iff, sym, subst, ◌∙◌, ap, ltb, if◌then◌else◌, Option-cases,
}
use vault.Common.Lists.{All}
use vault.Common.Dict.{
  lookup, insert, Distinct, lookup-insert, lookup-erase, lookup-sweep, lookup-sweep-none,
  insert-Distinct, erase-Distinct, sweep-Distinct,
}
use vault.Bridge.Flags.{
  Render, FlagEntry, FlagStore, Command, sets, flag_key, encode_flag_value, flag, unflag, reap,
  is_flagged, send,
}

pub data Op : Type 0 where
  flags : (at : ℕ) (ip : String) (reason : List ℕ) (score : ℕ) → Op
  unflags : (ip : String) → Op
  reaps : (at : ℕ) → Op

-- The call stands no later than `now`.
abbrev pub IsPast : ℕ → Op → Type 0
IsPast now (flags at ip reason score) = at ≤ now
IsPast now (unflags ip) = Unit
IsPast now (reaps at) = at ≤ now

send-flags :
    (render : Render) (c : Command) (fs : FlagStore)
    → ((send render c fs).flags ≡ fs.flags) × ((send render c fs).ttl ≡ fs.ttl)
send-flags render c fs = ground arith

module _ (render : Render) where
  unfoldable pub step : FlagStore → Op → FlagStore
  step fs (flags at ip reason score) = flag render at ip reason score fs
  step fs (unflags ip) = (unflag render ip fs).0
  step fs (reaps at) = reap at fs

  unfoldable pub run : FlagStore → List Op → FlagStore
  run fs [] = fs
  run fs (o ∷ os) = run (step fs o) os

  -- What the history says of one address: when its flag lapses, if it has one. No call of Reap
  -- plays a part.
  abbrev pub judged : ℕ → String → Option ℕ → Op → Option ℕ
  judged ttl ip o (flags at j reason score) = if str_eq j ip then some (at + ttl) else o
  judged ttl ip o (unflags j) = if str_eq j ip then none else o
  judged ttl ip o (reaps at) = o

  unfoldable pub replay : ℕ → String → Option ℕ → List Op → Option ℕ
  replay ttl ip o [] = o
  replay ttl ip o (c ∷ cs) = replay ttl ip (judged ttl ip o c) cs

  -- The map and the history say the same of an address from `now` on.
  abbrev Agrees : ℕ → Option FlagEntry → Option ℕ → Type 0
  Agrees now (some e) o = o ≡ some e.expires_at
  Agrees now none o = (o ≡ none) ⊎ ((t : ℕ) × (o ≡ some t) × (t ≤ now))

  step-ttl : (fs : FlagStore) (o : Op) → (step fs o).ttl ≡ fs.ttl
  unfolding step flag unflag reap
  step-ttl fs (flags at ip reason score) = ground arith
  step-ttl fs (unflags ip) = ground arith
  step-ttl fs (reaps at) = refl

  step-Distinct : (fs : FlagStore) (o : Op) → Distinct fs.flags → Distinct (step fs o).flags
  unfolding step flag unflag reap
  step-Distinct fs (flags at ip reason score) d =
      subst Distinct
        (sym (
          (send-flags render (sets (flag_key ip) (encode_flag_value render reason score at) fs.ttl)
            _).0))
        (insert-Distinct ip _ fs.flags d)
  step-Distinct fs (unflags ip) d = ground (arith, erase-Distinct ip fs.flags d)
  step-Distinct fs (reaps at) d = sweep-Distinct _ fs.flags d

  flag-lookup :
      (at : ℕ) (ip j : String) (reason : List ℕ) (score : ℕ) (fs : FlagStore)
      → (e : FlagEntry) × (e.expires_at ≡ at + fs.ttl)
        × (lookup ip (flag render at j reason score fs).flags
            ≡ (if str_eq j ip then some e else lookup ip fs.flags))
  unfolding flag
  flag-lookup at ip j reason score fs =
      let e : FlagEntry = record {
        ip = j;
        reason = reason;
        score = score;
        flagged_at = at;
        expires_at = at + fs.ttl;
      } in
      (
        e,
        refl,
        ap (lookup ip) ((send-flags render _ (record fs { flags = insert j e fs.flags })).0)
            ∙ lookup-insert j ip e fs.flags,
      )

  unflag-lookup :
      (ip j : String) (fs : FlagStore)
      → lookup ip (unflag render j fs).0.flags ≡ (if str_eq j ip then none else lookup ip fs.flags)
  unfolding unflag
  unflag-lookup ip j fs = ground (arith, lookup-erase j ip fs.flags, eq_iff j ip)

  Agrees-if :
      (now : ℕ) (b : Bool) (x y : Option FlagEntry) (h k : Option ℕ)
      → Agrees now x h
      → Agrees now y k
      → Agrees now (if b then x else y) (if b then h else k)
  Agrees-if now true x y h k p q = p
  Agrees-if now false x y h k p q = q

  Agrees-reaped :
      (now : ℕ) (b : Bool) (e : FlagEntry) (h : Option ℕ)
      → h ≡ some e.expires_at
      → (b ≡ true → e.expires_at ≤ now)
      → Agrees now (if b then none else some e) h
  Agrees-reaped now true e h q late = inr (e.expires_at, q, late refl)
  Agrees-reaped now false e h q late = q

  reap-Agrees :
      (now at : ℕ) (ip : String) (fs : FlagStore) (h : Option ℕ)
      → Distinct fs.flags
      → at ≤ now
      → Agrees now (lookup ip fs.flags) h
      → Agrees now (lookup ip (reap at fs).flags) h
  unfolding reap
  reap-Agrees now at ip fs h d p a =
      let dead : FlagEntry → Bool = λ e. ltb e.expires_at at in
      elim (Option-cases (lookup ip fs.flags)) [
        | inl n ↦
            subst (λ x. Agrees now x h) (sym (lookup-sweep-none dead ip fs.flags n))
              (subst (λ x. Agrees now x h) n a)
        | inr (e, x) ↦
            subst (λ y. Agrees now y h) (sym (lookup-sweep dead ip e fs.flags d x))
              (Agrees-reaped now (dead e) e h (subst (λ y. Agrees now y h) x a)
                (λ late. ground arith))
      ]

  step-Agrees :
      (now : ℕ) (ip : String) (fs : FlagStore) (h : Option ℕ) (o : Op)
      → Distinct fs.flags
      → IsPast now o
      → Agrees now (lookup ip fs.flags) h
      → Agrees now (lookup ip (step fs o).flags) (judged fs.ttl ip h o)
  unfolding step flag unflag reap
  step-Agrees now ip fs h (flags at j reason score) d p a =
      let (e, lapse, found) = flag-lookup at ip j reason score fs in
      subst (λ x. Agrees now x (if str_eq j ip then some (at + fs.ttl) else h)) (sym found)
        (Agrees-if now (str_eq j ip) (some e) (lookup ip fs.flags) (some (at + fs.ttl)) h
          (ap some (sym lapse)) a)
  step-Agrees now ip fs h (unflags j) d p a =
      subst (λ x. Agrees now x (if str_eq j ip then none else h)) (sym (unflag-lookup ip j fs))
        (Agrees-if now (str_eq j ip) none (lookup ip fs.flags) none h (inl refl) a)
  step-Agrees now ip fs h (reaps at) d p a = reap-Agrees now at ip fs h d p a

  run-Agrees :
      (now : ℕ) (ip : String) (fs : FlagStore) (h : Option ℕ) (os : List Op)
      → Distinct fs.flags
      → All (IsPast now) os
      → Agrees now (lookup ip fs.flags) h
      → Agrees now (lookup ip (run fs os).flags) (replay fs.ttl ip h os)
  unfolding run replay
  run-Agrees now ip fs h [] d ps a = a
  run-Agrees now ip fs h (o ∷ os) d (p, ps) a =
      subst
        (λ t.
          Agrees now (lookup ip (run (step fs o) os).flags) (replay t ip (judged fs.ttl ip h o) os))
        (step-ttl fs o)
        (run-Agrees now ip (step fs o) (judged fs.ttl ip h o) os (step-Distinct fs o d) ps
          (step-Agrees now ip fs h o d p a))

  abbrev pub lapses_after : ℕ → Option ℕ → Bool
  lapses_after now none = false
  lapses_after now (some t) = ltb now t

  is_flagged-Agrees :
      (now : ℕ) (ip : String) (fs : FlagStore) (h : Option ℕ)
      → Agrees now (lookup ip fs.flags) h
      → is_flagged now ip fs ≡ lapses_after now h
  unfolding is_flagged
  is_flagged-Agrees now ip fs h a = elim (Option-cases (lookup ip fs.flags)) [
    | inl n ↦
        let q : (h ≡ none) ⊎ ((t : ℕ) × (h ≡ some t) × (t ≤ now)) =
          subst (λ y. Agrees now y h) n a in
        elim q [ inl z ↦ ground arith | inr (t, z, l) ↦ ground arith ]
    | inr (e, x) ↦ let q : h ≡ some e.expires_at = subst (λ y. Agrees now y h) x a in ground arith
  ]

  -- The store refines the history of its calls: from an empty map, after any calls of Flag, Unflag and
  -- Reap that lie in the past, IsFlagged says of every address what the calls that name it say
  -- alone: it is flagged exactly if its last Flag came after its last Unflag and its TTL has not
  -- passed. When, and how often, expired entries were reaped makes no difference.
  pub is_flagged-run :
      (now ttl : ℕ) (redis : Bool) (sent : List Command) (ip : String) (os : List Op)
      → All (IsPast now) os
      → is_flagged now ip (run (record { flags = []; ttl = ttl; redis = redis; sent = sent }) os)
        ≡ lapses_after now (replay ttl ip none os)
  unfolding lookup
  is_flagged-run now ttl redis sent ip os ps =
      let fs : FlagStore = record { flags = []; ttl = ttl; redis = redis; sent = sent } in
      is_flagged-Agrees now ip (run fs os) (replay ttl ip none os)
        (run-Agrees now ip fs none os tt ps (inl refl))
