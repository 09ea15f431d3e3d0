-- ===== src/ClientIp/Tests.antt =====
-- One trusted proxy in front of the service, and a client that forges its header.
use vault.Common.{String, ◌≢◌, eq_iff, ◌≡◌, refl, true, none, [], ◌∷◌, arith, str_eq}
use vault.ClientIp.{Proxies, Request, client_ip}
use vault.ClientIp.Spoofing.{client_ip-appended}

abbrev behind_one : Proxies
behind_one = record {
  normalize_ip = λ part. part;
  is_blank = λ part. str_eq part "";
  has_cidrs = true;
  contains = λ ip. str_eq ip "10.0.0.1";
}

abbrev forged : Request
forged = record {
  remote_ip = "10.0.0.1";
  real_ip = none;
  forwarded_for = "192.0.2.9" ∷ "203.0.113.7" ∷ "10.0.0.1" ∷ [];
}

is_named : ◌≢◌ {A = String} "203.0.113.7" ""
is_named = ground (arith, eq_iff "203.0.113.7" "")

client_ip-appended_example : client_ip behind_one forged ≡ "203.0.113.7"
client_ip-appended_example =
    client_ip-appended behind_one forged ("192.0.2.9" ∷ []) "203.0.113.7" ("10.0.0.1" ∷ []) refl
      refl refl is_named refl (refl, tt) (omega arith)

abbrev direct : Request
direct = record forged { remote_ip = "198.51.100.4" }

direct_counted : client_ip behind_one direct ≡ "198.51.100.4"
unfolding client_ip
direct_counted = refl
