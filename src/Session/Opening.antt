-- ===== src/Session/Opening.antt =====
-- internal/service/auth.go and token.go: the end of a login, which Login and CompleteMFALogin share:
-- the device, the claims about the authentication, the pair and its row.
use vault.Common.{ℕ, String, Bool, Option, none, some, List, [], ◌∷◌, Result, ok, err}
use vault.Mfa.{aal_for_methods, acr_for_aal, amr_for_methods}
use vault.Session.Store.{Device, StoreError, unique_violation}
use vault.Session.Store.Accounts.{
  get_by_fingerprint, create_device, update_last_seen, set_last_login,
}
use vault.Session.Tokens.{
  TokenService, AuthContext, TokenPair, Draws, Grant, issue_token_pair_with_auth,
}
use vault.Session.World.{M, ◌>>=◌, pure, log, attempt, login_success}
use vault.Session.Refresh.{Env, reading, writing, issued, store_refresh_token}

-- Where a request comes from, and what it draws.
pub record Caller : Type 0 where
  pub now : ℕ
  pub ip : String
  pub user_agent : String
  pub fingerprint : String
  pub thumbprint : String
  pub draws : Draws
  pub device_draw : Option String

unfoldable pub new_auth_context : ℕ → List String → Bool → AuthContext
new_auth_context now methods user_verified = record {
  acr = acr_for_aal (aal_for_methods methods user_verified);
  amr = amr_for_methods methods user_verified;
  auth_time = now;
}

-- The device that was read, an error standing with no device.
abbrev device_of : Result StoreError (Option Device) → Option Device
device_of (ok d) = d
device_of (err e) = none

module _ (at : Caller) (user : String) where
  abbrev new_device : String → Device
  new_device id = record {
    id = id;
    user_id = user;
    fingerprint_hash = at.fingerprint;
    ip = at.ip;
    user_agent = at.user_agent;
    first_seen_at = at.now;
    last_seen_at = at.now;
  }

  abbrev or_drawn : String → Option Device → String
  or_drawn id none = id
  or_drawn id (some d) = d.id

  -- What the insert answered: another request may have inserted the device first.
  abbrev after_create : String → Result StoreError (Unit {0}) → M String
  after_create id (err unique_violation) = do
    again ← attempt (reading (get_by_fingerprint user at.fingerprint))
    pure (or_drawn id (device_of again))
  after_create id r = pure id

  abbrev make_device : Option String → M String
  make_device none = pure ""
  make_device (some id) = do r ← attempt (create_device (new_device id)); after_create id r

  abbrev resolve_device : Option Device → M String
  resolve_device none = make_device at.device_draw
  resolve_device (some d) = do _ ← attempt (writing (update_last_seen at.now d.id at.ip)); pure d.id

  unfoldable pub find_or_create_device : M String
  find_or_create_device = do
    found ← attempt (reading (get_by_fingerprint user at.fingerprint))
    resolve_device (device_of found)

-- A login that has all its factors, as it is handed to the issuer.
pub record Opening : Type 0 where
  pub user_id : String
  pub roles : List String
  pub client_id : String
  pub remember_me : Bool
  pub methods : List String
  pub user_verified : Bool
  pub mfa_completed : Bool

unfoldable pub login_grant : Caller → Opening → Grant
unfolding new_auth_context
login_grant at o = record {
  user_id = o.user_id;
  roles = o.roles;
  scopes = "read" ∷ "write" ∷ [];
  client_id = o.client_id;
  fingerprint = at.fingerprint;
  family_id = "";
  remember_me = o.remember_me;
  auth = new_auth_context at.now o.methods o.user_verified;
  jkt = at.thumbprint;
}

-- From the issue of the pair to the audit entry.
unfoldable pub open_session : Env → TokenService → ℕ → Caller → Opening → String → M TokenPair
open_session env tokens limit at o device = do
  pair ← issued (issue_token_pair_with_auth env.sign tokens at.now at.draws (login_grant at o))
  _ ←
      store_refresh_token env limit at.now at.draws.row_id o.user_id o.client_id device
        at.fingerprint at.thumbprint pair
  _ ← attempt (writing (set_last_login at.now o.user_id))
  _ ← log (login_success o.user_id o.client_id device o.mfa_completed)
  pure pair
