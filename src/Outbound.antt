-- ===== src/Outbound.antt =====
-- internal/outbound/outbound.go: which destinations the service may open a connection to. A text is
-- its bytes. Packages net, net/url and strings are a parameter: the parser of a URL and of an address, the
-- classes of an address, its four bytes, the resolver's answer, the dial and the mapping to lower case. The
-- name of a document's field only goes into the error's text and is left out.
pub mod Domains
pub mod Redirects
pub mod Dial
mod Tests
use vault.Common.{
  ℕ, zero, suc, ◌-◌, ◌+◌, ◌*◌, ◌/◌, ◌^◌, Bool, true, false, ◌&&◌, ◌||◌, not, Option, none, some,
  List, [], ◌∷◌, ◌==◌, ltb, leb, if◌then◌else◌, exists, length, Result, ok, err, ◌≡◌,
}

-- Its host may have a port, its hostname has none.
pub record Url : Type 0 where
  pub scheme : List ℕ
  pub host : List ℕ
  pub hostname : List ℕ

-- `lookup_ip` and `dial` answer none for an error.
pub record Net (I C : Type 0) : Type 0 where
  pub parse_url : List ℕ → Option Url
  pub parse_ip : List ℕ → Option I
  pub is_unspecified : I → Bool
  pub is_link_local_unicast : I → Bool
  pub is_link_local_multicast : I → Bool
  pub is_multicast : I → Bool
  pub is_loopback : I → Bool
  pub is_private : I → Bool
  pub to4 : I → Option ℕ
  pub to_lower : List ℕ → List ℕ
  pub trim_space : List ℕ → List ℕ
  pub split_host_port : List ℕ → Option (List ℕ × List ℕ)
  pub lookup_ip : List ℕ → Option (List I)
  pub dial : I → List ℕ → Option C

pub record Policy : Type 0 where
  pub allowed_hosts : List (List ℕ)
  pub allow_private : Bool

pub data HostError : Type 0 where
  not_a_url : HostError
  no_host : HostError
  not_ascii : HostError

pub data DerivedError : Type 0 where
  endpoint_refused : HostError → DerivedError
  issuer_refused : HostError → DerivedError
  outside : (host issuer_host : List ℕ) → DerivedError

pub data AddressError : Type 0 where
  unspecified : AddressError
  link_local : AddressError
  multicast : AddressError
  loopback : AddressError
  private_network : AddressError

pub data DialError (I : Type 0) : Type 0 where
  not_host_port : DialError I
  unresolved : DialError I
  refused : I → AddressError → DialError I
  -- `ips[0]` of an empty answer: a panic.
  no_answer : DialError I
  not_connected : DialError I

abbrev pub bytes_eq : List ℕ → List ℕ → Bool
bytes_eq [] [] = true
bytes_eq [] (y ∷ ys) = false
bytes_eq (x ∷ xs) [] = false
bytes_eq (x ∷ xs) (y ∷ ys) = (x == y) && bytes_eq xs ys

abbrev pub is_empty : List ℕ → Bool
is_empty [] = true
is_empty (x ∷ xs) = false

abbrev pub drop : ℕ → List ℕ → List ℕ
drop zero xs = xs
drop (suc n) [] = []
drop (suc n) (x ∷ xs) = drop n xs

-- strings.HasSuffix
unfoldable pub has_suffix : List ℕ → List ℕ → Bool
has_suffix s suffix =
    leb (length suffix) (length s) && bytes_eq (drop (length s - length suffix) s) suffix

-- 100.64.0.0/10, on the four bytes of an address as one number.
abbrev pub shared_address_space : ℕ
shared_address_space = 100 * 2 ^ 24 + 64 * 2 ^ 16

abbrev pub in_shared_space : Option ℕ → Bool
in_shared_space none = false
in_shared_space (some n) = n / 2 ^ 22 == shared_address_space / 2 ^ 22

-- The bytes of "localhost", "https" and "http".
abbrev pub localhost : List ℕ
localhost = 108 ∷ 111 ∷ 99 ∷ 97 ∷ 108 ∷ 104 ∷ 111 ∷ 115 ∷ 116 ∷ []

abbrev pub https : List ℕ
https = 104 ∷ 116 ∷ 116 ∷ 112 ∷ 115 ∷ []

abbrev pub http : List ℕ
http = 104 ∷ 116 ∷ 116 ∷ 112 ∷ []

abbrev pub dot : ℕ
dot = 46

unfoldable pub is_ascii_host : List ℕ → Bool
is_ascii_host [] = true
is_ascii_host (b ∷ bs) =
    let rest = is_ascii_host bs in if ltb b 33 || ltb 126 b then false else rest

unfoldable pub under_domain : List ℕ → List ℕ → Bool
unfolding has_suffix
under_domain host base = bytes_eq host base || has_suffix host (dot ∷ base)

-- A nil policy has no list and allows nothing private.
unfoldable pub allows : Option Policy → List ℕ → Bool
allows none host = false
allows (some p) host = exists (bytes_eq host) p.allowed_hosts

abbrev pub private_allowed : Option Policy → Bool
private_allowed none = false
private_allowed (some p) = p.allow_private

module _ {I C : Type 0} (net : Net I C) where
  abbrev pub add_host : List ℕ → List (List ℕ) → List (List ℕ)
  add_host h allowed = if is_empty h then allowed else h ∷ allowed

  abbrev pub allowed_from : List (List ℕ) → List (List ℕ)
  allowed_from [] = []
  allowed_from (h ∷ hs) = add_host (net.to_lower (net.trim_space h)) (allowed_from hs)

  unfoldable pub new : List (List ℕ) → Bool → Policy
  new hosts private = record { allowed_hosts = allowed_from hosts; allow_private = private }

  unfoldable pub validate_allowed_hosts : List (List ℕ) → Bool
  unfolding is_ascii_host
  validate_allowed_hosts [] = true
  validate_allowed_hosts (h ∷ hs) =
      let rest = validate_allowed_hosts hs in
      if is_empty (net.trim_space h)
      then rest
      else if is_ascii_host (net.trim_space h)
      then rest
      else false

  abbrev pub judge_url : Option Url → Result HostError (List ℕ)
  judge_url none = err not_a_url
  judge_url (some u) =
      if is_empty u.hostname
      then err no_host
      else if is_ascii_host u.hostname
      then ok (net.to_lower u.hostname)
      else err not_ascii

  unfoldable pub host_of : List ℕ → Result HostError (List ℕ)
  unfolding is_ascii_host
  host_of raw = judge_url (net.parse_url raw)

  abbrev pub is_loopback_ip : Option I → Bool
  is_loopback_ip none = false
  is_loopback_ip (some ip) = net.is_loopback ip

  unfoldable pub is_loopback_host : List ℕ → Bool
  is_loopback_host host =
      if bytes_eq host localhost then true else is_loopback_ip (net.parse_ip host)

  abbrev pub judge_domain : List ℕ → Result HostError (List ℕ) → Result DerivedError Unit
  judge_domain host (err e) = err (issuer_refused e)
  judge_domain host (ok issuer_host) =
      if under_domain host issuer_host then ok tt else err (outside host issuer_host)

  abbrev pub judge_host :
      Option Policy → List ℕ → Result HostError (List ℕ) → Result DerivedError Unit
  judge_host p issuer (err e) = err (endpoint_refused e)
  judge_host p issuer (ok host) =
      if is_loopback_host host
      then ok tt
      else if allows p host
      then ok tt
      else judge_domain host (host_of issuer)

  unfoldable pub check_derived :
      Option Policy → (issuer endpoint : List ℕ) → Result DerivedError Unit
  unfolding host_of is_loopback_host allows under_domain
  check_derived p issuer endpoint = judge_host p issuer (host_of endpoint)

  abbrev pub fetchable : Option Url → Bool
  fetchable none = false
  fetchable (some u) =
      if is_empty u.host
      then false
      else if bytes_eq u.scheme https
      then true
      else if bytes_eq u.scheme http
      then is_loopback_host u.hostname
      else false

  unfoldable pub fetchable_endpoint : List ℕ → Bool
  unfolding is_loopback_host
  fetchable_endpoint raw = fetchable (net.parse_url raw)

  abbrev pub is_ok : Result DerivedError Unit → Bool
  is_ok (ok u) = true
  is_ok (err e) = false

  -- The client's CheckRedirect, with the number of requests that were sent.
  unfoldable pub check_redirect : Option Policy → List ℕ → ℕ → List ℕ → Bool
  unfolding check_derived fetchable_endpoint
  check_redirect p issuer via url =
      if leb 10 via
      then false
      else if not (fetchable_endpoint url)
      then false
      else is_ok (check_derived p issuer url)

  unfoldable pub refuse_address : Option Policy → I → Option AddressError
  refuse_address p ip =
      if net.is_unspecified ip
      then some unspecified
      else if net.is_link_local_unicast ip || net.is_link_local_multicast ip
      then some link_local
      else if net.is_multicast ip
      then some multicast
      else if private_allowed p
      then none
      else if net.is_loopback ip
      then some loopback
      else if net.is_private ip || in_shared_space (net.to4 ip)
      then some private_network
      else none

  abbrev pub resolved : List ℕ → Option I → Option (List I)
  resolved host (some ip) = some (ip ∷ [])
  resolved host none = net.lookup_ip host

  unfoldable pub resolve : List ℕ → Option (List I)
  resolve host = resolved host (net.parse_ip host)

  abbrev pub or_refuse :
      I → Option AddressError → Option (I × AddressError) → Option (I × AddressError)
  or_refuse ip none rest = rest
  or_refuse ip (some e) rest = some (ip, e)

  abbrev pub first_refused : Option Policy → List I → Option (I × AddressError)
  first_refused p [] = none
  first_refused p (ip ∷ ips) = or_refuse ip (refuse_address p ip) (first_refused p ips)

  -- The address that is connected to, with the connection.
  abbrev pub connected : I → Option C → Result (DialError I) (I × C)
  connected ip none = err not_connected
  connected ip (some conn) = ok (ip, conn)

  abbrev pub dial_first : List ℕ → List I → Result (DialError I) (I × C)
  dial_first port [] = err no_answer
  dial_first port (ip ∷ ips) = connected ip (net.dial ip port)

  abbrev pub judge_all : List ℕ → List I → Option (I × AddressError) → Result (DialError I) (I × C)
  judge_all port ips (some (ip, e)) = err (refused ip e)
  judge_all port ips none = dial_first port ips

  abbrev pub judge_answer : Option Policy → List ℕ → Option (List I) → Result (DialError I) (I × C)
  judge_answer p port none = err unresolved
  judge_answer p port (some ips) = judge_all port ips (first_refused p ips)

  abbrev pub judge_split : Option Policy → Option (List ℕ × List ℕ) → Result (DialError I) (I × C)
  judge_split p none = err not_host_port
  judge_split p (some (host, port)) = judge_answer p port (resolve host)

  unfoldable pub dial_context : Option Policy → List ℕ → Result (DialError I) (I × C)
  unfolding resolve refuse_address
  dial_context p addr = judge_split p (net.split_host_port addr)
