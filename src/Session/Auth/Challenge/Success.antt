-- ===== src/Session/Auth/Challenge/Success.antt =====
-- What a second-factor login that is let through has checked and done (auth.go, CompleteMFALogin).
use vault.Common.{
  String, ◌≡◌, arith, false, Option, none, some, inl, inr, ok, Result, ap, ◌∙◌, sym, subst,
}
use vault.Common.Results.{Result-cases}
use vault.Common.Steps.{continue-eq-ok}
use vault.Session.Store.{User, StoreError, get_user}
use vault.Session.Tokens.{TokenPair}
use vault.Session.World.{World, attempt}
use vault.Session.Refresh.{reading, check_session_limit}
use vault.Session.Opening.{Caller, find_or_create_device, open_session}
use vault.Session.Auth.{AuthService, AuthState, LoginResult, on_world, clear_account_source}
use vault.Session.Auth.Login.{session_result, is_held}
use vault.Session.Auth.Login.Steps.{
  limit-unmoved, Opens, open_session-Opens, device-unmoved, device-unmoved_users,
}
use vault.Session.Auth.Challenge.{
  MfaCompletion, subject_of, claim_challenge, judge_subject, complete_subject, mfa_login,
  complete_claimed, complete_mfa_login,
}

module _ {C : Type 0} (s : AuthService C) (at : Caller) (user : String)
    (completion : MfaCompletion) where
  -- The account, as it was read again, may have a session.
  pub record IsLive (u : User) : Type 0 where
    pub kept : u.deleted ≡ false
    pub usable : u.must_reset_password ≡ false
    pub claimed : u.import_pending ≡ false
    pub not_banned : u.banned ≡ false
    pub not_disabled : u.disabled ≡ false
    pub not_held : is_held at.now u ≡ false

  -- From the account that was read to the answer.
  pub record Follows (o : Option User) (device : String) (a b : AuthState C) (res : LoginResult)
      : Type 0 where
    pub u : User
    pub account : o ≡ some u
    pub live : IsLive u
    pub final : World
    pub pair : TokenPair
    pub opens :
        Opens s.env s.tokens s.max_sessions at
          (mfa_login s at user completion u)
          device
          a.world
          final
          pair
    pub table : b.world.db.tokens ≡ final.db.tokens
    pub answer : res ≡ session_result s.tokens at.now pair

  -- The answer is a pair of the account, at the level of all its factors, whose row the table gained.
  pub record Completes (w : World) (b : AuthState C) (res : LoginResult) : Type 0 where
    pub before : AuthState C
    pub unmoved : before.world.db.tokens ≡ w.db.tokens
    pub device : String
    pub follows : Follows (get_user user w.db) device before b res

  judge_subject-IsLive :
      (o : Option User) (a b : AuthState C) (u : User)
      → judge_subject s at o a ≡ (b, ok u)
      → (b ≡ a) × (o ≡ some u) × IsLive u
  unfolding judge_subject
  judge_subject-IsLive none a b u h = absurd (ground arith)
  judge_subject-IsLive (some x) a b u h = (
    ground arith,
    ground arith,
    record {
      kept = ground arith;
      usable = ground arith;
      claimed = ground arith;
      not_banned = ground arith;
      not_disabled = ground arith;
      not_held = ground arith;
    },
  )

  -- The read of the account, through the devices' step and the limit's.
  account-read :
      (d e f : World) (device : String) (r : Result StoreError (Option User)) (u : User)
      → find_or_create_device at user d ≡ (e, ok device)
      → attempt (reading (get_user user)) e ≡ (f, ok r)
      → subject_of r ≡ some u
      → (get_user user d.db ≡ some u) × (f.db.tokens ≡ d.db.tokens)
  unfolding attempt get_user
  account-read d e f device r u p q h =
      let users = device-unmoved_users at user d e device p in
      let tokens = device-unmoved at user d e device p in
      elim (Result-cases r) [
        | inl (o, x) ↦ (ground arith, ground arith)
        | inr (y, x) ↦ absurd (ground arith)
      ]

  complete_subject-Follows :
      (device : String) (o : Option User) (a b : AuthState C) (res : LoginResult)
      → complete_subject s at user completion device o a ≡ (b, ok res)
      → Follows o device a b res
  unfolding complete_subject
  complete_subject-Follows device o a b res h =
      let (d, u, p, h₁) = continue-eq-ok (judge_subject s at o a) _ h in
      let o₁ = mfa_login s at user completion u in
      let (e, pair, p₁, h₂) =
        continue-eq-ok (on_world (open_session s.env s.tokens s.max_sessions at o₁ device) d) _
          h₁ in
      let (same, account, live) = judge_subject-IsLive o a d u p in
      record {
        u = u;
        account = account;
        live = live;
        final = e.world;
        pair = pair;
        opens =
            open_session-Opens s.env s.tokens s.max_sessions at o₁ device a.world e.world pair
              (ground arith);
        table = ground arith;
        answer = ground arith;
      }

  Follows-Completes :
      (a b d e f : AuthState C) (device : String) (r : Result StoreError (Option User))
      (res : LoginResult)
      → d.world.db ≡ a.world.db
      → find_or_create_device at user d.world ≡ (e.world, ok device)
      → attempt (reading (get_user user)) e.world ≡ (f.world, ok r)
      → Follows (subject_of r) device f b res
      → Completes a.world b res
  Follows-Completes a b d e f device r res same p q fl =
      let (row, kept) = account-read d.world e.world f.world device r fl.u p q fl.account in
      record {
        before = f;
        unmoved = kept ∙ ap (λ db. db.tokens) same;
        device = device;
        follows = record {
          u = fl.u;
          account = ap (get_user user) (sym same) ∙ row;
          live = fl.live;
          final = fl.final;
          pair = fl.pair;
          opens = fl.opens;
          table = fl.table;
          answer = fl.answer;
        };
      }

  complete_claimed-Completes :
      (a b : AuthState C) (res : LoginResult)
      → complete_claimed s at user completion a ≡ (b, ok res)
      → Completes a.world b res
  unfolding complete_claimed
  complete_claimed-Completes a b res h =
      let c = clear_account_source s at user a in
      let (d, u, p, h₁) =
        continue-eq-ok (on_world (check_session_limit s.max_sessions s.strict at.now user) c) _ h in
      let (e, device, p₁, h₂) = continue-eq-ok (on_world (find_or_create_device at user) d) _ h₁ in
      let (f, r, p₂, h₃) =
        continue-eq-ok (on_world (attempt (reading (get_user user))) e)
          (λ found. complete_subject s at user completion device (subject_of found)) {last = b}
          {b = res} h₂ in
      Follows-Completes a b d e f device r res
        (limit-unmoved s.max_sessions s.strict at.now user c.world d.world u (ground arith))
        (ground arith) (ground arith) (complete_subject-Follows device (subject_of r) f b res h₃)

  claim-world :
      (jti : String) (a b : AuthState C) (u : Unit {0})
      → claim_challenge s at jti a ≡ (b, ok u)
      → b.world ≡ a.world
  unfolding claim_challenge
  claim-world jti a b u h = ground arith

  -- CompleteMFALogin hands out a pair only if the account, read again after the second factor, is
  -- there and neither deleted, due a reset, an unclaimed import, banned, disabled nor held; the pair
  -- is the account's, issued for the factors before the challenge and the one just verified, and the
  -- table of sessions gained its row.
  pub complete_mfa_login-Completes :
      (jti : String) (a b : AuthState C) (res : LoginResult)
      → complete_mfa_login s at user jti completion a ≡ (b, ok res)
      → Completes a.world b res
  unfolding complete_mfa_login
  complete_mfa_login-Completes jti a b res h =
      let (c, u, p, h₁) =
        continue-eq-ok (claim_challenge s at jti a) (λ v. complete_claimed s at user completion)
          {last = b} {b = res} h in
      subst (λ w. Completes w b res) (claim-world jti a c u p)
        (complete_claimed-Completes c b res h₁)
