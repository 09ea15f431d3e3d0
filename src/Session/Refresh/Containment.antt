-- ===== src/Session/Refresh/Containment.antt =====
-- What a rotation that is refused leaves behind (containRefreshReuse, revokeFamilyBestEffort).
use vault.Common.{
  ℕ, String, ◌≡◌, Bool, true, false, Option, none, some, List, [], arith, inl, inr, Result, ok, err,
  Bool-cases, exists, ltb,
}
use vault.Session.Store.{Token, Db, StoreError, create, get_by_token_hash, mark_used, revoke_family}
use vault.Session.Store.Burned.{live_in, revoke_family-no_live}
use vault.Session.Tokens.{TokenService, TokenPair, issue_rotated_pair}
use vault.Session.World.{
  World, Error, replay_detected, account_banned, account_disabled, account_locked, session_expired,
  session_idle, M, attempt, continue-eq-err, continue-eq-ok, ◌>>=◌,
}
use vault.Session.Refresh.Steps.{call-ok}
use vault.Session.Refresh.{
  Env, Request, reading, updating, call, enforce_session_lifetime, enforce_session_inactivity,
  verify_fingerprint, enforce_dpop_binding, account_still_holds_sessions, rotate, spend,
  judge_insert, issued, drawn, rotation_grant, successor_token, rotate_stored, refresh,
  reject_replay, checked, found,
}

-- The errors that tell a caller that the session is over.
abbrev pub ends_session : Error → Bool
ends_session replay_detected = true
ends_session account_banned = true
ends_session account_disabled = true
ends_session account_locked = true
ends_session session_expired = true
ends_session session_idle = true
ends_session _ = false

-- Every row of the family is revoked.
abbrev pub IsOver : String → World → Type 0
IsOver f v = exists (live_in f) v.db.tokens ≡ false

-- The family was revoked, and nothing has been written since.
abbrev Burns : String → World → Type 0
Burns f v = (d : Db) × (v.db ≡ revoke_family f d)

-- Without an outage, `m` ends the family with each error that says so.
abbrev Contains : {A : Type 0} → String → M A → Type 0
Contains {A = A} f m =
    (w v : World)
    → w.faults ≡ []
    → ((e : Error) → m w ≡ (v, err e) → ends_session e ≡ true → Burns f v)
      × ((a : A) → m w ≡ (v, ok a) → v.faults ≡ [])

bind-Contains :
    {A B : Type 0} (f : String) (m : M A) (k : A → M B)
    → Contains f m
    → ((a : A) → Contains f (k a))
    → Contains f (m >>= k)
bind-Contains f m k c d w v n = (
  (λ e h y. elim (continue-eq-err (m w) k h) [
    | inl p ↦ (c w v n).0 e p y
    | inr (u, a, p, q) ↦ (d a u v ((c w u n).1 a p)).0 e q y
  ]),
  λ b h. let (u, a, p, q) = continue-eq-ok (m w) k h in (d a u v ((c w u n).1 a p)).1 b q,
)

module _ (s : TokenService) (req : Request) (t : Token) where
  lifetime-Contains : Contains t.family_id (enforce_session_lifetime s req t)
  unfolding enforce_session_lifetime attempt
  lifetime-Contains w v n = ((λ e h y. (w.db, ground arith)), λ a h. ground arith)

  inactivity-Contains : Contains t.family_id (enforce_session_inactivity s req t)
  unfolding enforce_session_inactivity attempt
  inactivity-Contains w v n = ((λ e h y. (w.db, ground arith)), λ a h. ground arith)

  fingerprint-Contains : Contains t.family_id (verify_fingerprint req t)
  unfolding verify_fingerprint attempt
  fingerprint-Contains w v n = ((λ e h y. (w.db, ground arith)), λ a h. ground arith)

  dpop-Contains : Contains t.family_id (enforce_dpop_binding req t)
  unfolding enforce_dpop_binding attempt
  dpop-Contains w v n = ((λ e h y. (w.db, ground arith)), λ a h. ground arith)

  account-Contains : Contains t.family_id (account_still_holds_sessions req t)
  unfolding account_still_holds_sessions attempt
  account-Contains w v n = ((λ e h y. (w.db, ground arith)), λ a h. ground arith)

  mark-Contains : Contains t.family_id (call (updating (mark_used t.id)))
  unfolding attempt
  mark-Contains w v n = ((λ e h y. (w.db, ground arith)), λ a h. ground arith)

issued-Contains : {E A : Type 0} (f : String) (r : Result E A) → Contains f (issued r)
issued-Contains f (ok a) w v n = ((λ e h y. absurd (ground arith)), λ b h. ground arith)
issued-Contains f (err x) w v n = ((λ e h y. absurd (ground arith)), λ b h. ground arith)

drawn-Contains : (f : String) (o : Option String) → Contains f (drawn o)
drawn-Contains f none w v n = ((λ e h y. absurd (ground arith)), λ b h. ground arith)
drawn-Contains f (some x) w v n = ((λ e h y. absurd (ground arith)), λ b h. ground arith)

module _ (env : Env) (s : TokenService) (req : Request) (t : Token) where
  judge_insert-Contains :
      (pair : TokenPair) (r : Result StoreError (Unit {0}))
      → Contains t.family_id (judge_insert env s req t pair r)
  unfolding attempt judge_insert
  judge_insert-Contains pair r w v n = ((λ e h y. (w.db, ground arith)), λ a h. ground arith)

  attempt-Contains :
      {A : Type 0} (op : Db → Db × Result StoreError A) → Contains t.family_id (attempt op)
  unfolding attempt
  attempt-Contains op w v n = ((λ e h y. absurd (ground arith)), λ a h. ground arith)

  rotate-Contains :
      (roles : List String) (origin : ℕ) → Contains t.family_id (rotate env s req t roles origin)
  unfolding rotate
  rotate-Contains roles origin =
      bind-Contains t.family_id
        (issued (
          issue_rotated_pair env.sign s req.now req.draws (rotation_grant env s req t roles)
            origin))
        _ (issued-Contains t.family_id _)
        (λ pair.
          bind-Contains t.family_id (drawn req.draws.row_id) _
            (drawn-Contains t.family_id req.draws.row_id)
            (λ id.
              bind-Contains t.family_id
                (attempt (create env.collate (successor_token env s req t pair id))) _
                (attempt-Contains (create env.collate (successor_token env s req t pair id)))
                (judge_insert-Contains pair)))

  reject-Contains :
      {A : Type 0} (reason : String) → Contains t.family_id (reject_replay {A = A} t reason)
  unfolding attempt reject_replay
  reject-Contains reason w v n = ((λ e h y. (w.db, ground arith)), λ a h. absurd (ground arith))

  spend-Contains : (origin : ℕ) (won : Bool) → Contains t.family_id (spend env s req t origin won)
  unfolding spend
  spend-Contains origin false = reject-Contains "concurrent_replay_detected"
  spend-Contains origin true =
      bind-Contains t.family_id (account_still_holds_sessions req t) _ (account-Contains s req t)
        (λ user.
          bind-Contains t.family_id (rotate env s req t (env.effective_roles user.roles) origin) _
            (rotate-Contains (env.effective_roles user.roles) origin)
            (λ pair w v n. ((λ e h y. absurd (ground arith)), λ a h. ground arith)))

  checked-Contains : Contains t.family_id (checked env s req t)
  checked-Contains =
      bind-Contains t.family_id (enforce_session_lifetime s req t) _ (lifetime-Contains s req t)
        (λ origin.
          bind-Contains t.family_id (enforce_session_inactivity s req t) _
            (inactivity-Contains s req t)
            (λ u₁.
              bind-Contains t.family_id (verify_fingerprint req t) _ (fingerprint-Contains s req t)
                (λ u₂.
                  bind-Contains t.family_id (enforce_dpop_binding req t) _ (dpop-Contains s req t)
                    (λ u₃.
                      bind-Contains t.family_id (call (updating (mark_used t.id))) _
                        (mark-Contains s req t) (spend-Contains origin)))))

  stored-Contains : Contains t.family_id (rotate_stored env s req t)
  unfolding rotate_stored
  stored-Contains w v n = elim (Bool-cases t.revoked) [
    | inl a ↦ rw a ((λ e h y. absurd (ground arith)), λ b h. absurd (ground arith))
    | inr a ↦ elim (Bool-cases t.used) [
      | inl b ↦ rw (a, b) (reject-Contains "replay_detected" w v n)
      | inr b ↦ elim (Bool-cases (ltb t.expires_at req.now)) [
        | inl c ↦ rw (a, b, c) ((λ e h y. absurd (ground arith)), λ b h. absurd (ground arith))
        | inr c ↦ (
          (λ e h y. (checked-Contains w v n).0 e (ground arith) y),
          λ x h. (checked-Contains w v n).1 x (ground arith),
        )
      ]
    ]
  ]

module _ (env : Env) (s : TokenService) (req : Request) where
  -- When Refresh, without an outage, answers that the session is over (a replay, a banned, disabled
  -- or locked account, the session lifetime, the inactivity timeout), then no row of the family of
  -- the token presented is live.
  pub refused-IsOver :
      (t : Token) (w v : World) (e : Error)
      → w.faults ≡ []
      → get_by_token_hash (env.hash req.refresh_token) w.db ≡ some t
      → refresh env s req w ≡ (v, err e)
      → ends_session e ≡ true
      → IsOver t.family_id v
  unfolding refresh attempt revoke_family
  refused-IsOver t w v e n q h y =
      let look = reading (get_by_token_hash (env.hash req.refresh_token)) in
      elim (continue-eq-err (call look w) (found env s req) h) [
        | inl p ↦ absurd (ground arith)
        | inr (u, o, p, k) ↦
            let (a, same) = call-ok look w u o p in
            let (d, b) = (stored-Contains env s req t u v (ground arith)).0 e (ground arith) y in
            rw b (revoke_family-no_live t.family_id d.tokens)
      ]
