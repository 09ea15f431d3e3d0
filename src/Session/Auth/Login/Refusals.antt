-- ===== src/Session/Auth/Login/Refusals.antt =====
-- What the errors of a login tell, and what an overloaded verification leaves (auth.go, Login).
use vault.Common.{
  ℕ, String, ◌≡◌, ◌≢◌, arith, Bool, true, false, Option, none, some, ◌⊎◌, inl, inr, Result, ok, err,
  sym, subst,
}
use vault.Common.Steps.{continue-eq-err}
use vault.Session.Store.{User, Db, StoreError}
use vault.Session.Store.Accounts.{get_by_email, reset_failed_login}
use vault.Session.Tokens.{TokenService}
use vault.Session.World.{World, Error, attempt, overloaded, invalid_credentials}
use vault.Session.Refresh.{
  Env, reading, call, check_session_limit, judge_count, store_refresh_token,
}
use vault.Session.Opening.{Caller, Opening, find_or_create_device, open_session}
use vault.Session.Auth.{
  wrong, unreadable, AuthService, AuthState, LoginResult, on_world, ◌>>=◌, is_ip_locked,
  clear_identity_failures, clear_account_source, statement,
}
use vault.Session.Auth.Login.{
  LoginInput, address, judge_proven, judge_user, judge_ip, settle, login, second_factor,
  single_step, password_login,
}
use vault.Session.Auth.Login.Steps.{IsQuiet, IsQuiet-then, call-IsQuiet, is_ip_locked-IsQuiet}

pub limit_is_no_overload :
    (limit : ℕ) (strict : Bool) (now : ℕ) (user : String) (w v : World)
    → check_session_limit limit strict now user w ≢ (v, err overloaded)
unfolding check_session_limit judge_count attempt
limit_is_no_overload limit strict now user w v h = ground arith

call_is_no_overload :
    {X : Type 0} (op : Db → Db × Result StoreError X) (w v : World)
    → call op w ≢ (v, err overloaded)
unfolding attempt
call_is_no_overload op w v h = ground arith

device_is_no_overload :
    (at : Caller) (user : String) (w v : World)
    → find_or_create_device at user w ≢ (v, err overloaded)
unfolding find_or_create_device attempt
device_is_no_overload at user w v h = ground arith

open_is_no_overload :
    (env : Env) (tokens : TokenService) (limit : ℕ) (at : Caller) (o : Opening) (device : String)
    (w v : World)
    → open_session env tokens limit at o device w ≢ (v, err overloaded)
unfolding open_session store_refresh_token attempt
open_is_no_overload env tokens limit at o device w v h = ground arith

module _ {C : Type 0} (s : AuthService C) (inp : LoginInput) where
  -- The verification ran, and did not find the password to be the one hashed.
  abbrev pub IsUnproven : Type 0
  IsUnproven =
      (h : String) → (inp.verify inp.password h ≡ wrong) ⊎ (inp.verify inp.password h ≡ unreadable)

  judge_user-masked :
      (o : Option User) (a : AuthState C)
      → inp.disclose_status ≡ false
      → IsUnproven
      → (judge_user s inp o a).1 ≡ err invalid_credentials
  unfolding judge_user
  judge_user-masked none a q wrongly = ground (arith, wrongly s.dummy_hash)
  judge_user-masked (some u) a q wrongly =
      ground (arith, wrongly s.dummy_hash, wrongly u.password_hash)

  settle-masked :
      (p : AuthState C × Result Error LoginResult) (e : Error)
      → p.1 ≡ err e
      → (settle s inp p).1 ≡ err e
  settle-masked (a, ok r) e h = absurd (ground arith)
  settle-masked (a, err f) e h = ground arith

  -- A caller who does not know the password learns nothing from the error: from an address that is
  -- not locked out, to a caller without the login:status scope, if the account could be looked up,
  -- the answer is ErrInvalidCredentials whatever the lookup found, be it no account, or one
  -- that is locked, deleted, imported, due a reset, banned, disabled, unconfirmed or in order.
  pub login-masked :
      (a c d : AuthState C) (o : Option User)
      → is_ip_locked s inp.at a ≡ (c, ok false)
      → on_world (call (reading (get_by_email (address s inp)))) c ≡ (d, ok o)
      → inp.disclose_status ≡ false
      → IsUnproven
      → (login s inp a).1 ≡ err invalid_credentials
  unfolding login
  login-masked a c d o h g q wrongly =
      settle-masked ((is_ip_locked s inp.at >>= judge_ip s inp) a) invalid_credentials
        (ground (arith, judge_user-masked o d q wrongly))

  single_step_is_no_overload :
      (u : User) (a b : AuthState C) → single_step s inp u a ≢ (b, err overloaded)
  unfolding single_step
  single_step_is_no_overload u a b h =
      let c =
        clear_identity_failures s inp.at (address s inp)
          (clear_account_source s inp.at u.user_id a) in
      let user = u.user_id in
      elim (continue-eq-err
        (on_world (check_session_limit s.max_sessions s.strict inp.at.now user) c) _ h) [
          | inl p ↦
              limit_is_no_overload s.max_sessions s.strict inp.at.now user c.world b.world
                (ground arith)
          | inr (d, u₁, p, h₁) ↦
              elim (continue-eq-err (on_world (find_or_create_device inp.at user) d) _ h₁) [
                | inl p₁ ↦ device_is_no_overload inp.at user d.world b.world (ground arith)
                | inr (e, device, p₁, h₂) ↦
                    elim (continue-eq-err
                      (on_world
                        (open_session s.env s.tokens s.max_sessions inp.at (password_login s inp u)
                          device)
                        e)
                      _ h₂) [
                        | inl p₂ ↦
                            open_is_no_overload s.env s.tokens s.max_sessions inp.at
                              (password_login s inp u) device e.world b.world (ground arith)
                        | inr (f, pair, p₂, h₃) ↦ ground arith
                      ]
              ]
        ]

  second_factor_is_no_overload :
      (u : User) (a b : AuthState C) → second_factor s inp u a ≢ (b, err overloaded)
  unfolding second_factor
  second_factor_is_no_overload u a b h = ground (arith, single_step_is_no_overload u a b)

  judge_proven_is_no_overload :
      (u : User) (a b : AuthState C) → judge_proven s inp u a ≢ (b, err overloaded)
  unfolding judge_proven
  judge_proven_is_no_overload u a b h =
      ground (arith, second_factor_is_no_overload u (statement (reset_failed_login u.user_id) a) b)

  judge_user-overload :
      (o : Option User) (a b : AuthState C) → judge_user s inp o a ≡ (b, err overloaded) → b ≡ a
  unfolding judge_user
  judge_user-overload none a b h = ground arith
  judge_user-overload (some u) a b h = ground (arith, judge_proven_is_no_overload u a b)

  settle-overload :
      (p : AuthState C × Result Error LoginResult) (b : AuthState C)
      → settle s inp p ≡ (b, err overloaded)
      → p ≡ (b, err overloaded)
  settle-overload (a, ok r) b h = absurd (ground arith)
  settle-overload (a, err e) b h = ground arith

  judge_ip-overload :
      (l : Bool) (a b : AuthState C) → judge_ip s inp l a ≡ (b, err overloaded) → IsQuiet a b
  judge_ip-overload true a b h = absurd (ground arith)
  judge_ip-overload false a b h =
      elim (continue-eq-err (on_world (call (reading (get_by_email (address s inp)))) a)
        (judge_user s inp) {last = b} {e = overloaded} h) [
          | inl p ↦ absurd (
              call_is_no_overload (reading (get_by_email (address s inp))) a.world b.world
                (ground arith))
          | inr (d, o, p, h₁) ↦
              subst (IsQuiet a) (sym (judge_user-overload o d b h₁))
                ((call-IsQuiet (get_by_email (address s inp)) a d o p).1)
        ]

  -- A login that is refused because the hashing is overloaded has changed nothing: the database, the
  -- audit log, the cache with its counters, the latch and the deferred work are as they were.
  pub login-overload : (a b : AuthState C) → login s inp a ≡ (b, err overloaded) → IsQuiet a b
  unfolding login
  login-overload a b h =
      let (c, locked, p, q) = is_ip_locked-IsQuiet s inp.at a in
      let settled = settle-overload ((is_ip_locked s inp.at >>= judge_ip s inp) a) b h in
      IsQuiet-then a c b q (judge_ip-overload locked c b (ground arith))
