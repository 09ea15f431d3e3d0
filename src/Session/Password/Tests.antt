-- ===== src/Session/Password/Tests.antt =====
-- A reset of one account, and the link that a second request retires.
use vault.Common.{
  ◌≤◌, ◌≡◌, refl, true, false, none, some, [], ◌∷◌, str_eq, arith, Result, ok, err, if◌then◌else◌,
  eq_iff,
}
use vault.Common.Dict.{lookup, insert}
use vault.Common.Sort.{sort_func}
use vault.Cache.Memory.{MemoryCache, get_and_delete, set}
use vault.Cache.Unary.{unary, print, read}
use vault.Lockout.OnMemory.{memory_ops}
use vault.Session.Store.{Row, User, get_user}
use vault.Session.Store.Accounts.{get_by_email}
use vault.Session.Store.Passwords
use vault.Session.Store.Passwords.{
  get_recent_by_user, create_past, clear_import_pending, clear_must_reset_password,
}
use vault.Session.World.{invalid_or_expired_token, attempt}
use vault.Session.Auth.{wrong, verified, AuthState}
use vault.Session.Password.{
  PasswordHandler, NewPassword, hashed, one_hour, reset_user_key, reset_key, reset_confirm,
}
use vault.Session.Password.Requests.{reset_request}
use vault.Session.Password.Resets.{Redeemed, reset_confirm-Resets}
use vault.Session.Password.Links.{reset_request-retires}

abbrev handler : PasswordHandler MemoryCache
handler = record {
  format = print;
  scan = read;
  ops = memory_ops unary;
  sha256 = λ x. x;
  min_length = 8;
  hibp_enabled = false;
  is_breached = λ x. false;
  rune_count = λ x. 10;
  normalize = λ x. x;
  has_mailer = true;
  deliver = λ x. true;
}

abbrev renewal : NewPassword
renewal = record {
  now = 60;
  password = "new secret";
  verify = λ p stored. if str_eq stored "old" then wrong else verified;
  hashing = hashed "fresh";
  history_id = some "past1";
}

-- An unclaimed import that owes a reset, with one session.
abbrev bea : User
bea = record {
  user_id = "bea";
  email = "bea@vault.test";
  email_verified = true;
  password_hash = "";
  roles = [];
  deleted = false;
  banned = false;
  disabled = false;
  locked_until = none;
  failed_login_count = 3;
  import_pending = true;
  must_reset_password = true;
  last_login_at = 0;
}

abbrev session : Row
session = record {
  token = record {
    id = "id1";
    user_id = "bea";
    client_id = "";
    token_hash = "t1";
    family_id = "f1";
    device_id = "";
    fingerprint_hash = "fp";
    dpop_jkt = "";
    expires_at = 500;
    created_at = 1;
    used = false;
    revoked = false;
  };
  family_created_at = 1;
}

abbrev start : AuthState MemoryCache
start = record {
  world = record {
    db = record {
      tokens = session ∷ [];
      users = bea ∷ [];
      devices = [];
      rate_limits = [];
      history = [];
    };
    faults = [];
    audit = [];
  };
  cache = some (record { entries = []; max_entries = 8; at_cap = false });
  refused_at = 0;
  readable = true;
  deferred = [];
}

abbrev requested : AuthState MemoryCache
requested = (reset_request handler 50 "bea@vault.test" (some "one") start).0

abbrev reset : AuthState MemoryCache × Result vault.Session.World.Error (Unit {0})
reset = reset_confirm handler "one" renewal requested

reset_done : reset_confirm handler "one" renewal requested ≡ (reset.0, ok tt)
unfolding reset_confirm reset_request attempt get_by_email get_and_delete lookup set insert get_user
    get_recent_by_user sort_func Passwords.update_password
reset_done = refl

reset_confirm-Resets_example :
    (8 ≤ handler.rune_count renewal.password) × Redeemed handler renewal "one" requested reset.0
reset_confirm-Resets_example =
    reset_confirm-Resets handler renewal "one" requested reset.0 tt reset_done

abbrev held : MemoryCache
held =
    (set 50 (reset_user_key "bea") "one" one_hour
      (set 50 (reset_key "one") "bea" one_hour
        (record { entries = []; max_entries = 8; at_cap = false })).0).0

requested_held : requested.cache ≡ some held
unfolding reset_request attempt get_by_email get_and_delete lookup
requested_held = refl

requested_quiet : requested.world.faults ≡ []
unfolding reset_request attempt get_by_email
requested_quiet = refl

requested_known : get_by_email "bea@vault.test" requested.world.db ≡ some bea
unfolding reset_request attempt get_by_email
requested_known = refl

held_mapped : (get_and_delete 55 (reset_user_key "bea") held).1 ≡ ok "one"
unfolding get_and_delete lookup set insert
held_mapped = refl

reset_request-retires_example :
    (reset_confirm handler "one" renewal
      (reset_request handler 55 "bea@vault.test" (some "two") requested).0).1
    ≡ err invalid_or_expired_token
reset_request-retires_example =
    reset_request-retires unary handler refl 55 "bea@vault.test" "two" "one" renewal requested held
      bea requested_held requested_quiet (ground (arith, eq_iff "bea@vault.test" ""))
      requested_known refl held_mapped (ground (arith, eq_iff "one" ""))
      (ground (arith, eq_iff "two" "one")) refl (omega arith)
