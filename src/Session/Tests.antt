-- ===== src/Session/Tests.antt =====
-- The session service on a small database: one user, one login, and its rotations.
use vault.Common.{
  ℕ, ◌≤◌, ◌<◌, String, ◌≡◌, ◌≢◌, refl, Bool, true, false, Option, none, some, [], ◌∷◌, arith, inr,
  ◌⊎◌, ok, err, if◌then◌else◌, leb, eq_iff, map, length, exists, keep,
}
use vault.Session.Store.{
  Token, Row, User, Db, family_revoked, session_limit_reached, create, create_within_cap, is_active,
  in_family, count_active_families, mark_used, revoke_family, get_by_token_hash, family_origin,
  get_user,
}
use vault.Session.Store.Statements.{creates, marks_used, exec, here, next}
use vault.Session.Store.Burned.{revoked_for_good}
use vault.Session.Store.Spent.{spent_once}
use vault.Session.Store.Family.{AreCoherent, family_fixed}
use vault.Session.Store.Cap.{within_cap}
use vault.Session.Store.Reap.{
  is_spent_expired, is_unused_expired, delete_expired, delete_expired_unused, reap_rounds,
}
use vault.Session.Store.Listing.{list_active_families}
use vault.Session.Store.Listing.Agreement.{lists_family, IsNewestFirst, list_active_families-count}
use vault.Session.Store.Reap.Batches.{Sweeps, delete_expired-Sweeps}
use vault.Session.Tokens.{
  TokenService, Claims, TokenPair, Draws, Grant, access_claims, issue_token_pair_with_auth,
  issue_rotated_pair,
}
use vault.Session.Tokens.Expiry.{IsEarliest, rotated, rotated_expiry}
use vault.Session.World.{World, attempt, replay_detected, token_refresh, refresh_token_replayed}
use vault.Session.Refresh.{
  Env, Request, RefreshResult, refresh, response, rotate_stored, enforce_session_lifetime,
  enforce_session_inactivity, verify_fingerprint, enforce_dpop_binding, spend,
  account_still_holds_sessions, rotate,
}
use vault.Session.Refresh.Success.{Rotation, refresh-Rotation, Passes}
use vault.Session.Refresh.Onward.{healthy}
use vault.Session.Refresh.Progress.{IsServed, IsRotated, refresh_goes_through}
use vault.Session.Refresh.Containment.{IsOver, refused-IsOver}

abbrev by_length : String → String → Bool
by_length a b = true

abbrev signer : Claims → Option String
signer c = some "jwt"

abbrev env : Env
env = record { collate = by_length; hash = λ x. x; sign = signer; effective_roles = λ rs. rs }

abbrev service : TokenService
service = record {
  issuer = "vault";
  audience = "api";
  access_token_ttl = 100;
  refresh_token_ttl = 5_000;
  remember_me_ttl = 9_000;
  max_session_lifetime = 10_000;
  inactivity_timeout = 4_000;
}

abbrev draws : Draws
draws = record { jti = some "j2"; refresh_token = some "r2"; family_id = none; row_id = some "id2" }

abbrev alice : Bool → User
alice banned = record {
  user_id = "alice";
  email = "alice@vault.test";
  email_verified = true;
  password_hash = "secret";
  roles = "user" ∷ [];
  deleted = false;
  banned = banned;
  disabled = false;
  locked_until = none;
  failed_login_count = 0;
  import_pending = false;
  must_reset_password = false;
  last_login_at = 0;
}

abbrev first_token : Token
first_token = record {
  id = "id1";
  user_id = "alice";
  client_id = "web";
  token_hash = "r1";
  family_id = "f1";
  device_id = "d1";
  fingerprint_hash = "fp";
  dpop_jkt = "key";
  expires_at = 4_001;
  created_at = 1;
  used = false;
  revoked = false;
}

abbrev first_row : Row
first_row = record { token = first_token; family_created_at = 1 }

abbrev first_db : Db
first_db = record {
  tokens = first_row ∷ [];
  users = alice false ∷ [];
  devices = [];
  rate_limits = [];
  history = [];
}

abbrev request : Request
request = record {
  now = 3_001;
  refresh_token = "r1";
  fingerprint = "fp";
  thumbprint = "key";
  draws = draws;
}

abbrev first_world : World
first_world = record { db = first_db; faults = []; audit = [] }

abbrev grant : String → Grant
grant f = record {
  user_id = "alice";
  roles = [];
  scopes = [];
  client_id = "web";
  fingerprint = "fp";
  family_id = f;
  remember_me = false;
  auth = record { acr = ""; amr = []; auth_time = 0 };
  jkt = "key";
}

abbrev second_token : Token
second_token = record first_token {
  id = "id2";
  token_hash = "r2";
  expires_at = 7_001;
  created_at = 3_001;
}

abbrev spent_row : Row
spent_row = record first_row { token = record first_token { used = true } }

abbrev rotated_db : Db
rotated_db = record first_db {
  tokens = record { token = second_token; family_created_at = 1 } ∷ spent_row ∷ [];
}

abbrev rotated_world : World
rotated_world = record { db = rotated_db; faults = []; audit = token_refresh "alice" ∷ [] }

abbrev result : RefreshResult
result = record {
  access_token = "jwt";
  token_type = "Bearer";
  expires_in = 0;
  refresh_token = "r2";
  cookie_max_age = 0;
}

refresh_rotates : refresh env service request first_world ≡ (rotated_world, ok result)
unfolding refresh attempt get_by_token_hash rotate_stored enforce_session_lifetime family_origin
    enforce_session_inactivity verify_fingerprint enforce_dpop_binding spend mark_used
    account_still_holds_sessions get_user rotate issue_rotated_pair create
refresh_rotates = refl

refresh-Rotation_example :
    (t : Token) × (get_by_token_hash "r1" first_db ≡ some t)
    × (looked : World) × (looked.db ≡ first_db)
    × Rotation env service request t looked rotated_world result
refresh-Rotation_example =
    refresh-Rotation env service request first_world rotated_world result refresh_rotates

first_found : get_by_token_hash "r1" first_db ≡ some first_token
unfolding get_by_token_hash
first_found = refl

first-Passes : Passes env service request first_token 1 first_db
unfolding family_origin
first-Passes = record {
  not_revoked = refl;
  not_used = refl;
  not_expired = omega arith;
  in_lifetime = inr (omega arith, omega arith);
  true_origin = inr refl;
  active = inr (omega arith, omega arith);
  same_device = inr refl;
  same_key = inr refl;
}

first_origin : family_origin "f1" first_db ≡ 1
unfolding family_origin
first_origin = refl

named : ◌≢◌ {A = String} "f1" ""
named = ground (arith, eq_iff "f1" "")

first-IsServed : IsServed env service request first_token first_db
unfolding get_user
first-IsServed = record {
  user = alice false;
  account = refl;
  holds = record { kept = refl; not_banned = refl; not_disabled = refl; not_locked = refl };
  named = named;
  signs = λ c h. absurd (ground arith);
  jti = "j2";
  jti_drawn = refl;
  token = "r2";
  token_drawn = refl;
  id = "id2";
  id_drawn = refl;
  one_row = refl;
  unrevoked = refl;
  free = refl;
}

refresh_goes_through_example :
    (pair : TokenPair) × (d : Db) × (refresh env service request (healthy first_db [])
      ≡ (healthy d (token_refresh "alice" ∷ []), ok (response env service request pair)))
    × IsRotated env service request first_token first_db first-IsServed d pair
refresh_goes_through_example =
    refresh_goes_through env service request first_token first_db first-IsServed [] first_found
      (rw first_origin first-Passes)

-- The same token again.
abbrev burned_world : World
burned_world = record {
  db = record first_db {
    tokens =
        record { token = record second_token { revoked = true }; family_created_at = 1 }
        ∷ record first_row { token = record first_token { used = true; revoked = true } }
        ∷ [];
  };
  faults = [];
  audit = token_refresh "alice" ∷ refresh_token_replayed "alice" "replay_detected" "f1" true ∷ [];
}

refresh_replays : refresh env service request rotated_world ≡ (burned_world, err replay_detected)
unfolding refresh attempt get_by_token_hash rotate_stored revoke_family
refresh_replays = refl

replayed_hash : get_by_token_hash "r1" rotated_db ≡ some (record first_token { used = true })
unfolding get_by_token_hash
replayed_hash = refl

refused-IsOver_example : IsOver "f1" burned_world
refused-IsOver_example =
    refused-IsOver env service request (record first_token { used = true }) rotated_world
      burned_world replay_detected refl replayed_hash refresh_replays refl

-- A thief without the key neither gets a pair nor spends the token.
refresh_without_key :
    (refresh env service (record request { thumbprint = "other" }) first_world).0.db ≡ first_db
unfolding refresh attempt get_by_token_hash rotate_stored enforce_session_lifetime family_origin
    enforce_session_inactivity verify_fingerprint enforce_dpop_binding
refresh_without_key = refl

abbrev after_burn : Db
after_burn = exec by_length (revoke_family "f1" rotated_db) (creates second_token)

found_after_burn : get_by_token_hash "r2" after_burn ≡ some (record second_token { revoked = true })
unfolding get_by_token_hash exec revoke_family create
found_after_burn = refl

revoked_for_good_example :
    ((record second_token { revoked = true }).revoked ≡ true)
    × (create by_length second_token after_burn ≡ (after_burn, err family_revoked))
revoked_for_good_example =
    revoked_for_good by_length "f1" "alice" "r2" rotated_db after_burn
      (record second_token { revoked = true }) second_token refl
      (next here (creates second_token) (inr refl)) found_after_burn refl refl refl

other_id : ◌≢◌ {A = String} "id2" "id1"
other_id = ground (arith, eq_iff "id2" "id1")

abbrev raced : Db
raced =
    exec by_length (exec by_length (mark_used "id1" first_db).0 (creates second_token))
      (marks_used "id1")

spent_once_example : (mark_used "id1" raced).1 ≡ false
spent_once_example =
    spent_once by_length "id1" first_db raced
      (next (next here (creates second_token) other_id) (marks_used "id1") tt)

abbrev grown : Db
grown =
    exec by_length
      (exec by_length
        (record {
          tokens = [];
          users = alice false ∷ [];
          devices = [];
          rate_limits = [];
          history = [];
        })
        (creates first_token))
      (creates second_token)

family_fixed_example : AreCoherent grown.tokens
family_fixed_example =
    family_fixed by_length (alice false ∷ []) [] [] [] grown
      (next (next here (creates first_token) tt) (creates second_token) tt)

-- Two generations, both unspent, are one session, as its latest row shows it.
grown_listed :
    map {B = String × ℕ} (λ x. (x.family_id, x.last_used_at)) (list_active_families 3 "alice" grown)
    ≡ ("f1", 3_001) ∷ []
unfolding list_active_families exec create
grown_listed = refl

list_active_families-count_example :
    (length (list_active_families 3 "alice" grown) ≡ count_active_families 3 "alice" grown)
    × ((f : String)
        → exists (lists_family f) (list_active_families 3 "alice" grown)
          ≡ exists (in_family f) (keep (is_active 3 "alice") grown.tokens))
    × IsNewestFirst (list_active_families 3 "alice" grown)
list_active_families-count_example = list_active_families-count 3 "alice" grown

within_cap_example :
    let held = count_active_families 3 "alice" first_db in
    let p = create_within_cap by_length 3 (record second_token { family_id = "f2" }) 1 first_db in
    ((count_active_families 3 "alice" p.0 ≤ 1) ⊎ (1 < held))
    × (p ≡ (
        if leb 1 held
        then (first_db, err session_limit_reached)
        else create by_length (record second_token { family_id = "f2" }) first_db))
within_cap_example =
    within_cap by_length 3 (record second_token { family_id = "f2" }) 1 first_db (omega arith)

abbrev login_draws : Draws
login_draws = record draws { family_id = some "f9" }

abbrev login_pair : TokenPair
login_pair = record {
  access_token = "jwt";
  refresh_token = "r2";
  expires_at = 107;
  refresh_exp_at = 4_007;
  family_id = "f9";
}

login_issues : issue_token_pair_with_auth signer service 7 login_draws (grant "") ≡ ok login_pair
unfolding issue_token_pair_with_auth
login_issues = refl

abbrev rotated_pair : TokenPair
rotated_pair = record {
  access_token = "jwt";
  refresh_token = "r2";
  expires_at = 9_100;
  refresh_exp_at = 10_001;
  family_id = "f1";
}

rotation_issues : issue_rotated_pair signer service 9_000 draws (grant "f1") 1 ≡ ok rotated_pair
unfolding issue_rotated_pair
rotation_issues = refl

rotated_expiry_example :
    IsEarliest 10_001 14_000 1 10_000 9_000 4_000
    × (rotated_pair.family_id ≡ "f1")
    × ((jti : String) × (signer (access_claims service 9_000 jti (rotated signer (grant "f1") 1))
          ≡ some "jwt"))
rotated_expiry_example =
    rotated_expiry signer service 9_000 draws (grant "f1") 1 rotated_pair rotation_issues named

-- At instant 5000 the one row, which nobody used, has expired.
delete_expired-Sweeps_example :
    Sweeps by_length
      (is_spent_expired 5_000)
      first_db
      (delete_expired by_length 5_000 (healthy first_db []))
      0
    × Sweeps by_length
        (is_unused_expired 5_000)
        first_db
        (delete_expired_unused by_length 5_000 (healthy first_db []))
        0
delete_expired-Sweeps_example =
    delete_expired-Sweeps by_length 5_000 first_db [] (refl, tt) (omega arith) (omega arith)

unused_swept : (delete_expired_unused by_length 5_000 (healthy first_db [])).1 ≡ ok 1
unfolding delete_expired_unused reap_rounds attempt
unused_swept = refl
