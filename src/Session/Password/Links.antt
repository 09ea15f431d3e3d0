-- ===== src/Session/Password/Links.antt =====
-- A newer reset link retires the older one, and a link is used once (password.go, over
-- internal/cache/memory.go).
use Prim.Native.String
use text.Mathlib.TextLemmas.{append_assoc, append_inj}
use vault.Common.{
  ℕ, ◌≤◌, String, ◌≡◌, ◌≢◌, refl, arith, false, ◌||◌, some, [], str_eq, eq_iff, ok, err, ap, ◌∙◌,
  sym,
}
use vault.Common.Dict.{lookup-erase}
use vault.Cache.{Strconv, not_found}
use vault.Cache.Memory.{MemoryCache, set, get, delete, get_and_delete}
use vault.Cache.Memory.Reads.{get-set}
use vault.Lockout.OnMemory.{memory_ops}
use vault.Session.Store.{User}
use vault.Session.Store.Accounts.{get_by_email}
use vault.Session.Auth.Otp.OneTime.{get_and_delete-get}
use vault.Session.World.{invalid_or_expired_token, attempt}
use vault.Session.Auth.{AuthState}
use vault.Session.Password.{
  PasswordHandler, NewPassword, reset_key, reset_user_key, one_hour, retire_link, is_refused,
  reset_confirm,
}
use vault.Session.Password.Requests.{store_link, reset_request}

-- The two prefixes of a link and of its reverse map.
user-ne-link : (user hash : String) → reset_user_key user ≢ reset_key hash
user-ne-link user hash h =
    let split : reset_user_key user ≡ String.◌++◌ "pwrese" (String.◌++◌ "t_user:" user) =
      append_assoc "pwrese" "t_user:" user in
    let (heads, tails) = append_inj {s₁ = "pwrese"} {s₂ = "reset:"} (sym split ∙ h) refl in
    ground (arith, eq_iff "pwrese" "reset:")

links-ne : (a b : String) → a ≢ b → reset_key a ≢ reset_key b
links-ne a b ne h =
    let (heads, tails) = append_inj {s₁ = "reset:"} {s₂ = "reset:"} h refl in ne tails

get-delete :
    (later : ℕ) (key : String) (m : MemoryCache) → get later key (delete key m) ≡ err not_found
unfolding get delete
get-delete later key m = ground (arith, lookup-erase key key m.entries, eq_iff key key)

module _ (conv : Strconv) (h : PasswordHandler MemoryCache)
    (ops_are : h.ops ≡ memory_ops conv) where
  retire_link-memory :
      (now : ℕ) (user old : String) (m : MemoryCache)
      → old ≢ ""
      → (get_and_delete now (reset_user_key user) m).1 ≡ ok old
      → retire_link h now user m
        ≡ delete (reset_key old) (get_and_delete now (reset_user_key user) m).0
  retire_link-memory now user old m named found =
      let taken = ap (λ o. o.get_and_delete now (reset_user_key user) m) ops_are in
      let left = (get_and_delete now (reset_user_key user) m).0 in
      let deleted = ap (λ o. o.delete now (reset_key old) left) ops_are in
      ground (arith, taken, deleted, found, eq_iff old "")

  store_link-memory :
      (now : ℕ) (user hash : String) (m : MemoryCache)
      → store_link h now user hash m
        ≡ (set now
            (reset_user_key user)
            hash
            one_hour
            (set now (reset_key hash) user one_hour m).0).0
  store_link-memory now user hash m =
      ap
        (λ o.
          (o.set now (reset_user_key user) hash one_hour
            (o.set now (reset_key hash) user one_hour m).0).0)
        ops_are

  -- The older link is gone from the cache.
  linked-retires :
      (now later : ℕ) (user old hash : String) (m : MemoryCache)
      → old ≢ ""
      → hash ≢ old
      → (get_and_delete now (reset_user_key user) m).1 ≡ ok old
      → get later (reset_key old) (store_link h now user hash (retire_link h now user m))
        ≡ err not_found
  linked-retires now later user old hash m named other found =
      let d = (get_and_delete now (reset_user_key user) m).0 in
      let gone = delete (reset_key old) d in
      let first = (set now (reset_key hash) user one_hour gone).0 in
      ap (λ c. get later (reset_key old) (store_link h now user hash c))
        (retire_link-memory now user old m named found)
      ∙ ap (get later (reset_key old)) (store_link-memory now user hash gone)
      ∙ (get-set now later (reset_user_key user) (reset_key old) hash one_hour first
          (user-ne-link user old)).1
      ∙ (get-set now later (reset_key hash) (reset_key old) user one_hour gone
          (links-ne hash old other)).1
      ∙ get-delete later (reset_key old) d

  reset_confirm-missing :
      (token : String) (n : NewPassword) (a : AuthState MemoryCache) (m : MemoryCache)
      → a.cache ≡ some m
      → (str_eq token "" || str_eq n.password "") ≡ false
      → h.min_length ≤ h.rune_count n.password
      → get n.now (reset_key (h.sha256 token)) m ≡ err not_found
      → (reset_confirm h token n a).1 ≡ err invalid_or_expired_token
  unfolding reset_confirm
  reset_confirm-missing token n a m cached given long gone =
      let taken = ap (λ o. o.get_and_delete n.now (reset_key (h.sha256 token)) m) ops_are in
      let missing = get_and_delete-get n.now (reset_key (h.sha256 token)) m ∙ gone in
      ground (arith, taken, missing, cached, given)

  requested-cache :
      (now : ℕ) (email new : String) (a : AuthState MemoryCache) (m : MemoryCache) (u : User)
      → a.cache ≡ some m
      → a.world.faults ≡ []
      → email ≢ ""
      → get_by_email (h.normalize email) a.world.db ≡ some u
      → is_refused u ≡ false
      → (reset_request h now email (some new) a).0.cache
        ≡ some (store_link h now u.user_id (h.sha256 new) (retire_link h now u.user_id m))
  unfolding reset_request attempt
  requested-cache now email new a m u cached quiet given found accepted =
      ground (arith, cached, quiet, eq_iff email "", found, accepted)

  -- A newer link retires the older one: when an account that is in order has a link, as the reverse map
  -- of the cache says, and another is requested for its address while the database answers, then the
  -- older token is refused as invalid or expired, at any time and with any password that is long
  -- enough.
  pub reset_request-retires :
      (now : ℕ) (email new token : String) (n : NewPassword) (a : AuthState MemoryCache)
      (m : MemoryCache) (u : User)
      → a.cache ≡ some m
      → a.world.faults ≡ []
      → email ≢ ""
      → get_by_email (h.normalize email) a.world.db ≡ some u
      → is_refused u ≡ false
      → (get_and_delete now (reset_user_key u.user_id) m).1 ≡ ok (h.sha256 token)
      → h.sha256 token ≢ ""
      → h.sha256 new ≢ h.sha256 token
      → (str_eq token "" || str_eq n.password "") ≡ false
      → h.min_length ≤ h.rune_count n.password
      → (reset_confirm h token n (reset_request h now email (some new) a).0).1
        ≡ err invalid_or_expired_token
  reset_request-retires now email new token n a m u cached quiet given found accepted mapped named
        other sound long =
      reset_confirm-missing token n (reset_request h now email (some new) a).0
        (store_link h now u.user_id (h.sha256 new) (retire_link h now u.user_id m))
        (requested-cache now email new a m u cached quiet given found accepted) sound long
        (linked-retires now n.now u.user_id (h.sha256 token) (h.sha256 new) m named other mapped)
