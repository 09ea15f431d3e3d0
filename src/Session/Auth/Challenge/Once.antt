-- ===== src/Session/Auth/Challenge/Once.antt =====
-- A challenge token completes one login (auth.go, CompleteMFALogin, over internal/cache/memory.go).
use Prim.Native.String
use text.Mathlib.TextLemmas.{append_assoc, append_inj}
use vault.Common.{
  ℕ, ◌+◌, ◌<◌, String, ◌≡◌, ◌≢◌, refl, arith, true, false, Option, none, some, List, [], ◌∷◌, ◌++◌,
  inl, inr, ok, err, Option-cases, Bool-cases, ap, ◌∙◌, eq_iff, ◌==◌,
}
use vault.Common.Lists.{All}
use vault.Common.Steps.{continue-eq-ok}
use vault.Cache.{Strconv}
use vault.Cache.Memory.{MemoryCache, Call, deletes, run, step, set_if_not_exists}
use vault.Cache.Memory.Bound.{IsWithinCap}
use vault.Cache.Memory.Locks.{Spares, claimed_once}
use vault.Lockout.{source_lockout_key, clear_lockout, lockout_generation}
use vault.Lockout.OnMemory.{memory_ops}
use vault.Session.Store.{User, get_user}
use vault.Session.World.{challenge_consumed, attempt}
use vault.Session.Refresh.{reading, check_session_limit}
use vault.Session.Opening.{Caller, find_or_create_device}
use vault.Session.Auth.{AuthService, AuthState, LoginResult, on_world, clear_account_source}
use vault.Session.Auth.Challenge.{
  MfaCompletion, subject_of, complete_subject, judge_subject, challenge_key, challenge_used_ttl,
  claim_challenge, complete_claimed, complete_mfa_login,
}

-- The keys of the lockout are no challenge's.
lockout-ne-challenge :
    (x jti : String) → ◌≢◌ {A = String} (String.◌++◌ "lockout:" x) (challenge_key jti)
lockout-ne-challenge x jti h =
    let split : challenge_key jti ≡ String.◌++◌ "challeng" (String.◌++◌ "e_used:" jti) =
      append_assoc "challeng" "e_used:" jti in
    let (heads, tails) = append_inj {s₁ = "lockout:"} {s₂ = "challeng"} (h ∙ split) refl in
    ground (arith, eq_iff "lockout:" "challeng")

module _ (conv : Strconv) (s : AuthService MemoryCache) where
  source-ne-challenge :
      (user ip jti : String) (g : ℕ)
      → source_lockout_key s.format s.scan s.ops user ip g ≢ challenge_key jti
  unfolding source_lockout_key
  source-ne-challenge user ip jti g h = elim (Bool-cases (g == 0)) [
    | inl z ↦ lockout-ne-challenge (String.◌++◌ user (String.◌++◌ "|" ip)) jti (ground arith)
    | inr z ↦
        lockout-ne-challenge
          (String.◌++◌ user (String.◌++◌ "|g" (String.◌++◌ (s.format g) (String.◌++◌ "|" ip)))) jti
          (ground arith)
  ]

  -- What a completed login did to the cache after its claim.
  clear_lockout-Spares :
      (ops_are : s.ops ≡ memory_ops conv) (at : Caller) (user jti : String) (t : ℕ)
      (m : MemoryCache) (a : AuthState MemoryCache)
      → a.cache ≡ some m
      → (cs : List Call) × All (Spares (challenge_key jti) t) cs
        × ((clear_account_source s at user a).cache ≡ some (run conv m cs))
  unfolding clear_lockout run step
  clear_lockout-Spares ops_are at user jti t m a h =
      elim (Option-cases (lockout_generation s.format s.scan s.ops at.now user m)) [
        | inl none_known ↦ ([], tt, ground arith)
        | inr (g, known) ↦
            let key = source_lockout_key s.format s.scan s.ops user at.ip g in
            (
              deletes key ∷ [],
              (source-ne-challenge user at.ip jti g, tt),
              ground (arith, ap (λ o. o.delete at.now key m) ops_are),
            )
      ]

  run-append :
      (m : MemoryCache) (cs ds : List Call) → run conv (run conv m cs) ds ≡ run conv m (cs ++ ds)
  unfolding run
  run-append m [] ds = refl
  run-append m (c ∷ cs) ds = run-append (step conv m c) cs ds

  All-append : (P : Call → Type 0) (cs ds : List Call) → All P cs → All P ds → All P (cs ++ ds)
  All-append P [] ds p q = q
  All-append P (c ∷ cs) ds (p, ps) q = (p, All-append P cs ds ps q)

  complete_subject-cache :
      (at : Caller) (user : String) (comp : MfaCompletion) (device : String) (o : Option User)
      (a b : AuthState MemoryCache) (res : LoginResult)
      → complete_subject s at user comp device o a ≡ (b, ok res)
      → b.cache ≡ a.cache
  unfolding complete_subject judge_subject
  complete_subject-cache at user comp device none a b res h = absurd (ground arith)
  complete_subject-cache at user comp device (some u) a b res h = ground arith

  complete_claimed-cache :
      (at : Caller) (user : String) (comp : MfaCompletion) (a b : AuthState MemoryCache)
      (res : LoginResult)
      → complete_claimed s at user comp a ≡ (b, ok res)
      → b.cache ≡ (clear_account_source s at user a).cache
  unfolding complete_claimed
  complete_claimed-cache at user comp a b res h =
      let c = clear_account_source s at user a in
      let (d, u, p, h₁) =
        continue-eq-ok (on_world (check_session_limit s.max_sessions s.strict at.now user) c) _ h in
      let (e, device, p₁, h₂) = continue-eq-ok (on_world (find_or_create_device at user) d) _ h₁ in
      let (f, r, p₂, h₃) =
        continue-eq-ok (on_world (attempt (reading (get_user user))) e)
          (λ found. complete_subject s at user comp device (subject_of found)) {last = b} {b = res}
          h₂ in
      let last = complete_subject-cache at user comp device (subject_of r) f b res h₃ in
      ground arith

  claim-cache :
      (ops_are : s.ops ≡ memory_ops conv) (at : Caller) (jti : String) (a c : AuthState MemoryCache)
      (m : MemoryCache) (u : Unit {0})
      → a.cache ≡ some m
      → jti ≢ ""
      → claim_challenge s at jti a ≡ (c, ok u)
      → let p = set_if_not_exists at.now (challenge_key jti) "1" challenge_used_ttl m in
        (c.cache ≡ some p.0) × (p.1 ≡ ok true)
  unfolding claim_challenge
  claim-cache ops_are at jti a c m u h n q =
      let claims =
        ap (λ o. o.set_if_not_exists at.now (challenge_key jti) "1" challenge_used_ttl m) ops_are in
      (ground (arith, claims, eq_iff jti ""), ground (arith, claims, eq_iff jti ""))

  -- Where the first login left the cache, as calls that spare the challenge's key.
  completed-cache :
      (ops_are : s.ops ≡ memory_ops conv) (at : Caller) (user jti : String) (comp : MfaCompletion)
      (a b : AuthState MemoryCache) (m : MemoryCache) (res : LoginResult) (t : ℕ)
      → a.cache ≡ some m
      → jti ≢ ""
      → complete_mfa_login s at user jti comp a ≡ (b, ok res)
      → let p = set_if_not_exists at.now (challenge_key jti) "1" challenge_used_ttl m in
        (p.1 ≡ ok true)
        × (cs : List Call) × All (Spares (challenge_key jti) t) cs
        × (b.cache ≡ some (run conv p.0 cs))
  unfolding complete_mfa_login
  completed-cache ops_are at user jti comp a b m res t h n q =
      let (c, u, p, h₁) =
        continue-eq-ok (claim_challenge s at jti a) (λ v. complete_claimed s at user comp)
          {last = b} {b = res} q in
      let (held, won) = claim-cache ops_are at jti a c m u h n p in
      let m' = (set_if_not_exists at.now (challenge_key jti) "1" challenge_used_ttl m).0 in
      let (cs, spares, cleared) = clear_lockout-Spares ops_are at user jti t m' c held in
      (won, cs, spares, complete_claimed-cache at user comp c b res h₁ ∙ cleared)

  claim-consumed :
      (ops_are : s.ops ≡ memory_ops conv) (at : Caller) (jti : String) (a : AuthState MemoryCache)
      (m : MemoryCache)
      → a.cache ≡ some m
      → jti ≢ ""
      → (set_if_not_exists at.now (challenge_key jti) "1" challenge_used_ttl m).1 ≡ ok false
      → (claim_challenge s at jti a).1 ≡ err challenge_consumed
  unfolding claim_challenge
  claim-consumed ops_are at jti a m h n q =
      let claims =
        ap (λ o. o.set_if_not_exists at.now (challenge_key jti) "1" challenge_used_ttl m) ops_are in
      ground (arith, claims, eq_iff jti "")

  reached-again :
      (m n : MemoryCache) (cs ds : List Call) (o last : Option MemoryCache)
      → o ≡ some (run conv m cs)
      → o ≡ some n
      → last ≡ some (run conv n ds)
      → last ≡ some (run conv m (cs ++ ds))
  reached-again m n cs ds o last p q r =
      let same : n ≡ run conv m cs = ground arith in
      r ∙ ap (λ x. some (run conv x ds)) same ∙ ap some (run-append m cs ds)

  refused-consumed :
      (at : Caller) (user jti : String) (comp : MfaCompletion) (a : AuthState MemoryCache)
      → (claim_challenge s at jti a).1 ≡ err challenge_consumed
      → (complete_mfa_login s at user jti comp a).1 ≡ err challenge_consumed
  unfolding complete_mfa_login
  refused-consumed at user jti comp a h = ground arith

  -- Over the memory cache, a challenge token completes one login: once CompleteMFALogin has handed out
  -- a pair for a token with an identifier, a second call with it, of any user, source and factor,
  -- before the token's five minutes are over, fails with ErrChallengeConsumed, whatever calls that
  -- spare the token's key the cache has seen in between.
  pub complete_mfa_login-once :
      (ops_are : s.ops ≡ memory_ops conv) (at later : Caller) (user other jti : String)
      (comp second : MfaCompletion) (a b d : AuthState MemoryCache) (m n : MemoryCache)
      (res : LoginResult) (cs : List Call)
      → a.cache ≡ some m
      → IsWithinCap m
      → jti ≢ ""
      → complete_mfa_login s at user jti comp a ≡ (b, ok res)
      → b.cache ≡ some n
      → All (Spares (challenge_key jti) (at.now + challenge_used_ttl)) cs
      → later.now < at.now + challenge_used_ttl
      → d.cache ≡ some (run conv n cs)
      → (complete_mfa_login s later other jti second d).1 ≡ err challenge_consumed
  complete_mfa_login-once ops_are at later user other jti comp second a b d m n res cs h cap named q
        left spares l reached =
      let t = at.now + challenge_used_ttl in
      let (won, ds, clear, after) =
        completed-cache ops_are at user jti comp a b m res t h named q in
      let all = ds ++ cs in
      let m' = (set_if_not_exists at.now (challenge_key jti) "1" challenge_used_ttl m).0 in
      let held : d.cache ≡ some (run conv m' all) =
        reached-again m' n ds cs b.cache d.cache after left reached in
      let taken =
        claimed_once conv m at.now later.now (challenge_key jti) "1" "1" challenge_used_ttl
          challenge_used_ttl all cap won
          (All-append (Spares (challenge_key jti) t) ds cs clear spares) l in
      refused-consumed later other jti second d
        (claim-consumed ops_are later jti d (run conv m' all) held named taken)
