-- ===== src/Session/Auth/Login/Success.antt =====
-- What a login that is let through has proved and done (auth.go, Login).
use vault.Common.{
  String, ◌≡◌, refl, arith, true, false, [], ◌∷◌, List, Option, none, some, ◌⊎◌, inl, inr, Result,
  ok, err, Bool-cases, Option-cases, ap, ◌∙◌, sym,
}
use vault.Common.Results.{Result-cases}
use vault.Common.Steps.{continue-eq-ok}
use vault.Mfa.{MfaService, MfaStatus, get_status, has_methods, method_password, method_email_otp}
use vault.Session.Store.{User}
use vault.Session.Store.Accounts.{get_by_email, reset_failed_login}
use vault.Session.Tokens.{issue_challenge_token, TokenPair}
use vault.Session.World.{World, Error, attempt}
use vault.Session.Refresh.{reading, call, check_session_limit}
use vault.Session.Opening.{Caller, find_or_create_device, open_session}
use vault.Session.Auth.{
  verified, AuthService, AuthState, LoginResult, on_world, ◌>>=◌, is_ip_locked, account_locked_now,
  clear_identity_failures, clear_account_source, defer, statement, email_otp_mail,
}
use vault.Session.Auth.Login.{
  LoginInput, address, is_held, judge_proven, judge_user, judge_ip, settle, login, second_factor,
  single_step, password_login, session_result, challenge,
}
use vault.Session.Auth.Login.Steps.{
  IsQuiet, IsQuiet-then, call-IsQuiet, is_ip_locked-IsQuiet, account_locked_now-same, limit-unmoved,
  device-unmoved, Opens, open_session-Opens,
}

clear_identity_failures-world :
    {C : Type 0} (s : AuthService C) (at : Caller) (email : String) (a : AuthState C)
    → (clear_identity_failures s at email a).world ≡ a.world
unfolding clear_identity_failures
clear_identity_failures-world s at email a = ground arith

reset-unmoved :
    {C : Type 0} (user : String) (a : AuthState C)
    → (statement (reset_failed_login user) a).world.db.tokens ≡ a.world.db.tokens
unfolding attempt reset_failed_login
reset-unmoved user a = ground arith

module _ {C : Type 0} (s : AuthService C) (inp : LoginInput) where
  -- What was checked of the account before its second factor.
  pub record Admits (u : User) (a : AuthState C) : Type 0 where
    pub not_held : is_held inp.at.now u ≡ false
    pub unlocked : account_locked_now s inp.at u.user_id a ≡ false
    pub kept : u.deleted ≡ false
    pub claimed : u.import_pending ≡ false
    pub usable : u.must_reset_password ≡ false
    pub proven : inp.verify inp.password u.password_hash ≡ verified
    pub not_banned : u.banned ≡ false
    pub not_disabled : u.disabled ≡ false
    pub confirmed : u.email_verified ≡ true

  -- Every read of the account's factors answered; it has none, and none is required of it.
  abbrev pub OwesNothing : User → Type 0
  OwesNothing u =
      (s.mfa ≡ none)
      ⊎ ((m : MfaService) × (st : MfaStatus) × (s.mfa ≡ some m)
          × (get_status m u.user_id ≡ some st)
          × (has_methods st ≡ false)
          × (m.mfa_required ≡ false))

  -- The answer is a challenge, and the table of sessions is as it was.
  pub record IsChallenged (u : User) (a b : AuthState C) (res : LoginResult) : Type 0 where
    pub challenge_signed :
        issue_challenge_token s.env.sign s.tokens inp.at.now inp.at.draws.jti u.user_id
          inp.at.fingerprint inp.at.thumbprint
          (method_password ∷ [])
        ≡ ok res.challenge_token
    pub no_access : res.access_token ≡ ""
    pub no_refresh : res.refresh_token ≡ ""
    pub marked : res.requires_2fa ≡ true
    pub no_session : b.world.db.tokens ≡ a.world.db.tokens

  -- The answer is a session, whose row is the one that the table gained.
  pub record IsOpened (u : User) (a b : AuthState C) (res : LoginResult) : Type 0 where
    pub before : World
    pub unmoved : before.db.tokens ≡ a.world.db.tokens
    pub final : World
    pub device : String
    pub pair : TokenPair
    pub opens :
        Opens s.env s.tokens s.max_sessions inp.at (password_login s inp u) device before final pair
    pub table : b.world.db.tokens ≡ final.db.tokens
    pub answer : res ≡ session_result s.tokens inp.at.now pair

  single_step-IsOpened :
      (u : User) (a b : AuthState C) (res : LoginResult)
      → single_step s inp u a ≡ (b, ok res)
      → IsOpened u a b res
  unfolding single_step
  single_step-IsOpened u a b res h =
      let c =
        clear_identity_failures s inp.at (address s inp)
          (clear_account_source s inp.at u.user_id a) in
      let (d, u₁, p₁, h₁) =
        continue-eq-ok
          (on_world (check_session_limit s.max_sessions s.strict inp.at.now u.user_id) c) _ h in
      let (e, device, p₂, h₂) =
        continue-eq-ok (on_world (find_or_create_device inp.at u.user_id) d) _ h₁ in
      let (f, pair, p₃, h₃) =
        continue-eq-ok
          (on_world
            (open_session s.env s.tokens s.max_sessions inp.at (password_login s inp u) device) e)
          _ h₂ in
      record {
        before = e.world;
        unmoved =
            device-unmoved inp.at u.user_id d.world e.world device (ground arith)
            ∙ ap (λ db. db.tokens)
                (limit-unmoved s.max_sessions s.strict inp.at.now u.user_id c.world d.world u₁
                  (ground arith))
            ∙ ap (λ w. w.db.tokens)
                (clear_identity_failures-world s inp.at (address s inp)
                  (clear_account_source s inp.at u.user_id a));
        final = f.world;
        device = device;
        pair = pair;
        opens =
            open_session-Opens s.env s.tokens s.max_sessions inp.at (password_login s inp u) device
              e.world f.world pair (ground arith);
        table = ground arith;
        answer = ground arith;
      }

  challenge-IsChallenged :
      (u : User) (methods : List String) (fallback : String) (a b : AuthState C) (res : LoginResult)
      → challenge s inp u methods fallback a ≡ (b, ok res)
      → IsChallenged u a b res
  challenge-IsChallenged u methods fallback a b res h =
      elim (Result-cases (
        issue_challenge_token s.env.sign s.tokens inp.at.now inp.at.draws.jti u.user_id
          inp.at.fingerprint inp.at.thumbprint (method_password ∷ []))) [
            | inr (e, q) ↦ absurd (ground arith)
            | inl (t, q) ↦ record {
              challenge_signed = ground arith;
              no_access = ground arith;
              no_refresh = ground arith;
              marked = ground arith;
              no_session = ground arith;
            }
          ]

  abbrev pub Outcome : User → AuthState C → AuthState C → LoginResult → Type 0
  Outcome u a b res = IsChallenged u a b res ⊎ (OwesNothing u × IsOpened u a b res)

  Outcome-since :
      (u : User) (a c b : AuthState C) (res : LoginResult)
      → c.world.db.tokens ≡ a.world.db.tokens
      → Outcome u c b res
      → Outcome u a b res
  Outcome-since u a c b res same (inl o) = inl (record {
    challenge_signed = o.challenge_signed;
    no_access = o.no_access;
    no_refresh = o.no_refresh;
    marked = o.marked;
    no_session = o.no_session ∙ same;
  })
  Outcome-since u a c b res same (inr (n, o)) = inr (
    n,
    record {
      before = o.before;
      unmoved = o.unmoved ∙ same;
      final = o.final;
      device = o.device;
      pair = o.pair;
      opens = o.opens;
      table = o.table;
      answer = o.answer;
    },
  )

  second_factor-Outcome :
      (u : User) (a b : AuthState C) (res : LoginResult)
      → second_factor s inp u a ≡ (b, ok res)
      → Outcome u a b res
  unfolding second_factor
  second_factor-Outcome u a b res h = elim (Option-cases s.mfa) [
    | inl q ↦ inr (inl q, single_step-IsOpened u a b res (ground arith))
    | inr (m, q) ↦ elim (Option-cases (get_status m u.user_id)) [
      | inl q₂ ↦ absurd (ground arith)
      | inr (st, q₂) ↦ elim (Bool-cases (has_methods st)) [
        | inl q₃ ↦ inl (challenge-IsChallenged u st.methods "" a b res (ground arith))
        | inr q₃ ↦ elim (Bool-cases m.mfa_required) [
          | inl q₄ ↦
              let c = defer (email_otp_mail u.user_id u.email) a in
              Outcome-since u a c b res refl (
                inl (
                  challenge-IsChallenged u (method_email_otp ∷ []) "email_otp" c b res
                    (ground arith)))
          | inr q₄ ↦ inr (inr (m, st, q, q₂, q₃, q₄), single_step-IsOpened u a b res (ground arith))
        ]
      ]
    ]
  ]

  judge_proven-Outcome :
      (u : User) (a b : AuthState C) (res : LoginResult)
      → judge_proven s inp u a ≡ (b, ok res)
      → (u.banned ≡ false) × (u.disabled ≡ false) × (u.email_verified ≡ true) × Outcome u a b res
  unfolding judge_proven
  judge_proven-Outcome u a b res h =
      let c = statement (reset_failed_login u.user_id) a in
      let outcome = second_factor-Outcome u c b res (ground arith) in
      (
        ground arith,
        ground arith,
        ground arith,
        Outcome-since u a c b res (reset-unmoved u.user_id a) outcome,
      )

  judge_user-Admits :
      (o : Option User) (a b : AuthState C) (res : LoginResult)
      → judge_user s inp o a ≡ (b, ok res)
      → (u : User) × (o ≡ some u) × Admits u a × Outcome u a b res
  unfolding judge_user
  judge_user-Admits none a b res h = ground arith
  judge_user-Admits (some u) a b res h =
      let proven = judge_proven-Outcome u a b res (ground arith) in
      (
        u,
        refl,
        record {
          not_held = ground arith;
          unlocked = ground arith;
          kept = ground arith;
          claimed = ground arith;
          usable = ground arith;
          proven = ground arith;
          not_banned = proven.0;
          not_disabled = proven.1;
          confirmed = proven.2;
        },
        proven.3,
      )

  settle-ok :
      (p : AuthState C × Result Error LoginResult) (b : AuthState C) (res : LoginResult)
      → settle s inp p ≡ (b, ok res)
      → p ≡ (b, ok res)
  settle-ok (a, ok r) b res h = h
  settle-ok (a, err e) b res h = absurd (ground arith)

  Admits-before : (u : User) (a d : AuthState C) → IsQuiet a d → Admits u d → Admits u a
  Admits-before u a d q x = record {
    not_held = x.not_held;
    unlocked = sym (account_locked_now-same s inp.at u.user_id a d q) ∙ x.unlocked;
    kept = x.kept;
    claimed = x.claimed;
    usable = x.usable;
    proven = x.proven;
    not_banned = x.not_banned;
    not_disabled = x.not_disabled;
    confirmed = x.confirmed;
  }

  abbrev Found : AuthState C → AuthState C → LoginResult → Type 0
  Found a b res =
      (u : User) × (get_by_email (address s inp) a.world.db ≡ some u)
      × Admits u a
      × Outcome u a b res

  judge_user-Found :
      (a d b : AuthState C) (o : Option User) (res : LoginResult)
      → o ≡ get_by_email (address s inp) a.world.db
      → IsQuiet a d
      → judge_user s inp o d ≡ (b, ok res)
      → Found a b res
  judge_user-Found a d b o res row quiet h =
      let (u, e, admits, outcome) = judge_user-Admits o d b res h in
      (
        u,
        sym row ∙ e,
        Admits-before u a d quiet admits,
        Outcome-since u a d b res (ap (λ db. db.tokens) quiet.db) outcome,
      )

  judge_ip-Found :
      (a c b : AuthState C) (res : LoginResult)
      → IsQuiet a c
      → judge_ip s inp false c ≡ (b, ok res)
      → Found a b res
  judge_ip-Found a c b res q h =
      let (d, o, p, h₁) =
        continue-eq-ok (on_world (call (reading (get_by_email (address s inp)))) c)
          (judge_user s inp) {last = b} {b = res} h in
      let (row, q₁) = call-IsQuiet (get_by_email (address s inp)) c d o p in
      judge_user-Found a d b o res (row ∙ ap (get_by_email (address s inp)) q.db)
        (IsQuiet-then a c d q q₁) h₁

  -- A login is answered without an error only if the address is not locked out; the account that the
  -- submitted address names exists, is neither held by an administrator nor locked out, nor deleted,
  -- nor an unclaimed import, nor due a forced reset; the submitted password was verified against its
  -- stored hash; and it is neither banned nor disabled, and its address is confirmed. The answer is a
  -- signed challenge, without tokens, and the table of sessions is as it was; or the account's
  -- factors were read, it has none and owes none, and the answer is the pair whose row the table
  -- gained.
  pub login-Admits :
      (a b : AuthState C) (res : LoginResult)
      → login s inp a ≡ (b, ok res)
      → (u : User) × ((is_ip_locked s inp.at a).1 ≡ ok false)
        × (get_by_email (address s inp) a.world.db ≡ some u)
        × Admits u a
        × Outcome u a b res
  unfolding login
  login-Admits a b res h =
      let settled = settle-ok ((is_ip_locked s inp.at >>= judge_ip s inp) a) b res h in
      let (c, locked, p, q) = is_ip_locked-IsQuiet s inp.at a in
      let open_ip : locked ≡ false = ground arith in
      let (u, found, admits, outcome) = judge_ip-Found a c b res q (ground arith) in
      (u, ground arith, found, admits, outcome)
