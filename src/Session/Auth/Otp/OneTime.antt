-- ===== src/Session/Auth/Otp/OneTime.antt =====
-- A code by email is accepted once (auth.go, over internal/cache/memory.go).
use vault.Common.{
  ℕ, ◌+◌, ◌%◌, ◌≤◌, String, ◌≡◌, ◌≢◌, arith, true, some, inl, inr, ok, err, ap, ◌∙◌, eq_iff,
  Option-cases,
}
use vault.Common.Results.{Result-cases}
use vault.Cache.{Strconv, not_found}
use vault.Cache.Memory.{MemoryCache, set, get, get_and_delete, admit, expiry}
use vault.Common.Dict.{lookup-insert_self}
use vault.Cache.Memory.Reads.{get-get_and_delete}
use vault.Lockout.OnMemory.{memory_ops}
use vault.Session.World.{invalid_credentials}
use vault.Session.Auth.{AuthService, AuthState}
use vault.Session.Auth.Otp.{
  OtpKeys, otp_key, otp_ttl, email_otp_allowed, send_email_otp, verify_email_otp,
}

pub get_and_delete-get :
    (now : ℕ) (key : String) (m : MemoryCache) → (get_and_delete now key m).1 ≡ get now key m
unfolding get_and_delete get
get_and_delete-get now key m = ground arith

get-stored :
    (now later : ℕ) (key value : String) (ttl : ℕ) (m : MemoryCache)
    → (set now key value ttl m).1 ≡ ok tt
    → later ≤ now + ttl
    → get later key (set now key value ttl m).0 ≡ ok value
unfolding set get admit
get-stored now later key value ttl m h l = ground (
  arith,
  lookup-insert_self key (record { value = value; expires_at = expiry now ttl }) m.entries,
)

module _ (conv : Strconv) (s : AuthService MemoryCache) (keys : OtpKeys) where
  refused-missing :
      (now : ℕ) (user code : String) (a : AuthState MemoryCache) (m : MemoryCache)
      → a.cache ≡ some m
      → s.ops.get_and_delete now (otp_key user) m ≡ get_and_delete now (otp_key user) m
      → (get_and_delete now (otp_key user) m).1 ≡ err not_found
      → (verify_email_otp s keys now user code a).1 ≡ err invalid_credentials
  unfolding verify_email_otp
  refused-missing now user code a m h taken gone = ground arith

  -- An accepted code is one whose signature the cache held for the user, who has no other factor and
  -- owes one. Whoever then asks next, with whatever code and at whatever time, is refused, until a new
  -- code is sent: the cache no longer holds a signature.
  verify_email_otp-once :
      (ops_are : s.ops ≡ memory_ops conv) (now later : ℕ) (user code other : String)
      (a b : AuthState MemoryCache) (m : MemoryCache)
      → a.cache ≡ some m
      → verify_email_otp s keys now user code a ≡ (b, ok tt)
      → (email_otp_allowed s user ≡ true)
        × ((signature : String) × (get now (otp_key user) m ≡ ok signature)
            × (keys.verify code signature ≡ true))
        × ((verify_email_otp s keys later user other b).1 ≡ err invalid_credentials)
  unfolding verify_email_otp
  verify_email_otp-once ops_are now later user code other a b m h q =
      let taken = ap (λ o. o.get_and_delete now (otp_key user) m) ops_are in
      elim (Result-cases (get_and_delete now (otp_key user) m).1) [
        | inr (e, p) ↦ absurd (ground arith)
        | inl (signature, p) ↦
            let (read, gone) = get-get_and_delete now later (otp_key user) signature m p in
            let left = (get_and_delete now (otp_key user) m).0 in
            let again = ap (λ o. o.get_and_delete later (otp_key user) left) ops_are in
            let missing = get_and_delete-get later (otp_key user) left ∙ gone in
            let held : b.cache ≡ some left = ground arith in
            (
              ground arith,
              (signature, read, ground arith),
              refused-missing later user other b left held again missing,
            )
      ]

  sent-stored :
      (ops_are : s.ops ≡ memory_ops conv) (now : ℕ) (user email : String) (draw : ℕ)
      (a b : AuthState MemoryCache)
      → send_email_otp s keys now user email (some draw) a ≡ (b, ok tt)
      → (m : MemoryCache) × (let p =
            set now (otp_key user) (keys.sign (keys.render (draw % 1_000_000))) otp_ttl m in
          (b.cache ≡ some p.0) × (p.1 ≡ ok tt))
        × (email_otp_allowed s user ≡ true)
  unfolding send_email_otp
  sent-stored ops_are now user email draw a b q = elim (Option-cases a.cache) [
    | inl e ↦ absurd (ground arith)
    | inr (m, e) ↦
        let stores =
          ap (λ o. o.set now (otp_key user) (keys.sign (keys.render (draw % 1_000_000))) otp_ttl m)
            ops_are in
        elim (Result-cases
          (s.ops.set now (otp_key user) (keys.sign (keys.render (draw % 1_000_000))) otp_ttl m).1) [
            | inr (x, w) ↦ absurd (ground arith)
            | inl (x, w) ↦ (m, (ground arith, ground arith), ground arith)
          ]
  ]

  accepted :
      (now : ℕ) (user code signature : String) (a : AuthState MemoryCache) (m : MemoryCache)
      → email_otp_allowed s user ≡ true
      → a.cache ≡ some m
      → s.ops.get_and_delete now (otp_key user) m ≡ get_and_delete now (otp_key user) m
      → (get_and_delete now (otp_key user) m).1 ≡ ok signature
      → signature ≢ ""
      → keys.verify code signature ≡ true
      → (verify_email_otp s keys now user code a).1 ≡ ok tt
  unfolding verify_email_otp
  accepted now user code signature a m permitted h same found named passes =
      ground (arith, eq_iff signature "")

  -- A code that was sent is accepted once: until its five minutes are over, as long as the account has
  -- no other factor, and with a signature that its own code passes and that is not empty, the code
  -- is accepted; and from then on every code, the same one included, is refused at any time until
  -- another is sent.
  pub verify_email_otp-send :
      (ops_are : s.ops ≡ memory_ops conv) (now later last : ℕ) (user email other : String)
      (draw : ℕ) (a b : AuthState MemoryCache)
      → let code = keys.render (draw % 1_000_000) in
        keys.verify code (keys.sign code) ≡ true
        → keys.sign code ≢ ""
        → send_email_otp s keys now user email (some draw) a ≡ (b, ok tt)
        → later ≤ now + otp_ttl
        → let (c, r) = verify_email_otp s keys later user code b in
          (r ≡ ok tt) × ((verify_email_otp s keys last user other c).1 ≡ err invalid_credentials)
  verify_email_otp-send ops_are now later last user email other draw a b passes named q l =
      let code = keys.render (draw % 1_000_000) in
      let (m, stored, permitted) = sent-stored ops_are now user email draw a b q in
      let left = (set now (otp_key user) (keys.sign code) otp_ttl m).0 in
      let reads =
        get_and_delete-get later (otp_key user) left
        ∙ get-stored now later (otp_key user) (keys.sign code) otp_ttl m stored.1 l in
      let first =
        accepted later user code (keys.sign code) b left permitted stored.0
          (ap (λ o. o.get_and_delete later (otp_key user) left) ops_are) reads named passes in
      let p = verify_email_otp s keys later user code b in
      let (allowed, found, refused) =
        verify_email_otp-once ops_are later last user code other b p.0 left stored.0
          (ap (λ r. (p.0, r)) first) in
      (first, refused)
