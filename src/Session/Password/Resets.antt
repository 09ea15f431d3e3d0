-- ===== src/Session/Password/Resets.antt =====
-- A reset that is answered ok (password.go, ResetConfirm and updatePassword).
use vault.Common.{
  ◌≤◌, ℕ, String, ◌≡◌, inl, inr, refl, arith, Bool, false, ◌||◌, ◌&&◌, Option, none, some, List,
  str_eq, eq_iff, ltb, exists, ok, Bool-cases, Option-cases, ap, ◌∙◌, sym, subst,
}
use vault.Common.Results.{Result-cases}
use vault.Common.Steps.{continue-eq-ok}
use vault.Session.Refresh.Steps.{attempt-reading}
use vault.Session.Store.{User, Db, PastPassword, find_user, get_user, revoke_all_for_user}
use vault.Session.Store.Accounts.{reset_failed_login}
use vault.Session.Store.Passwords
use vault.Session.Store.Passwords.{
  set_password, get_recent_by_user, create_past, clear_import_pending, clear_must_reset_password,
}
use vault.Lockout.{clear_account_lockout}
use vault.Session.World.{
  password_reset, attempt, store_failed, import_claim_failed, forced_reset_clear_failed,
}
use vault.Session.Refresh.{reading, writing}
use vault.Session.Auth.{audited, AuthState, audited, change, ◌>>=◌}
use vault.Session.Auth.Login.Steps.{attempt-answers, reading-IsQuiet}
use vault.Session.Password.{
  PasswordHandler, NewPassword, Hashing, hashed, hash_overloaded, hash_failed, must, remember,
  invalidate, entries, judge_hash, store_password, judge_past, update_password, clear_lockouts,
  claim, lift, confirmed, is_refused, account_read, judge_target, redeemed, reset_confirm,
  reset_key, was_used,
}
use vault.Session.Password.Outcome.{
  find_user-named, HasNoSession, is_live_of, HoldsPassword, must-ok, statement-cases, revoked-none,
  find_user-set_password, reset_failed_login-HoldsPassword, clear_import_pending-HoldsPassword,
  clear_must_reset_password-HoldsPassword,
}

judge_hash-ok :
    {C : Type 0} (g : Hashing) (a b : AuthState C) (hash : String)
    → judge_hash g a ≡ (b, ok hash)
    → (g ≡ hashed hash) × (b ≡ a)
judge_hash-ok (hashed k) a b hash h = ground arith
judge_hash-ok hash_overloaded a b hash h = absurd (ground arith)
judge_hash-ok hash_failed a b hash h = absurd (ground arith)

module _ {C : Type 0} (h : PasswordHandler C) (n : NewPassword) where
  remember-db :
      (i hash : String) (a : AuthState C)
      → ((remember n i hash a).world.db.users ≡ a.world.db.users)
        × ((remember n i hash a).world.db.tokens ≡ a.world.db.tokens)
  unfolding create_past attempt
  remember-db i hash a = ground arith

  invalidate-db : (t : ℕ) (i : String) (a : AuthState C) → (invalidate h t i a).world ≡ a.world
  invalidate-db t i a = ground arith

  store_password-HoldsPassword :
      (i hash : String) (a b : AuthState C) (u : User) (x : Unit {0})
      → find_user i a.world.db.users ≡ some u
      → u.deleted ≡ false
      → store_password h n i hash a ≡ (b, ok x)
      → HoldsPassword i hash u.import_pending u.must_reset_password b.world.db
        × HasNoSession i b.world.db
  unfolding store_password revoke_all_for_user Passwords.update_password
  store_password-HoldsPassword i hash a b u x found live q =
      let (c, y, p₁, h₁) =
        continue-eq-ok (must store_failed (Passwords.update_password i hash) a) _ q in
      let (written, done, kept) =
        must-ok store_failed (Passwords.update_password i hash) a c y p₁ in
      let d = remember n i hash c in
      let (e, z, p₂, h₂) =
        continue-eq-ok (must store_failed (writing (revoke_all_for_user i)) d) _ h₁ in
      let (revoked, done', kept') =
        must-ok store_failed (writing (revoke_all_for_user i)) d e z p₂ in
      let (users, tokens) = remember-db i hash c in
      let same : b.world ≡ e.world = sym (ap (λ r. r.0.world) h₂) ∙ invalidate-db n.now i e in
      let final : b.world.db.users ≡ set_password i hash a.world.db.users =
        ap (λ w. w.db.users) same
        ∙ ap (λ db. db.users) revoked
        ∙ users
        ∙ ap (λ db. db.users) written in
      (
        record {
          account = record u { password_hash = hash };
          found =
              ap (find_user i) final ∙ find_user-set_password i hash a.world.db.users u found live;
          stored = refl;
          claimed = refl;
          lifted = refl;
        },
        ap (λ w. exists (is_live_of i) w.db.tokens) same
            ∙ ap (λ db. exists (is_live_of i) db.tokens) revoked
            ∙ revoked-none i d.world.db.tokens,
      )

  judge_past-HoldsPassword :
      (i : String) (past : List PastPassword) (a b : AuthState C) (u : User) (x : Unit {0})
      → find_user i a.world.db.users ≡ some u
      → u.deleted ≡ false
      → judge_past h n i past a ≡ (b, ok x)
      → (hash : String) × (n.hashing ≡ hashed hash)
        × (was_used n past ≡ false)
        × HoldsPassword i hash u.import_pending u.must_reset_password b.world.db
        × HasNoSession i b.world.db
  unfolding judge_past
  judge_past-HoldsPassword i past a b u x found live q = elim (Bool-cases (was_used n past)) [
    | inl used ↦ absurd (ground arith)
    | inr fresh ↦
        let left : (judge_hash n.hashing >>= store_password h n i) a ≡ (b, ok x) =
          ground (arith, fresh) in
        let (c, hash, p, q') =
          continue-eq-ok (judge_hash n.hashing a) (store_password h n i) left in
        let (known, same) = judge_hash-ok n.hashing a c hash p in
        let again : find_user i c.world.db.users ≡ some u = ground arith in
        let (set, none_left) = store_password-HoldsPassword i hash c b u x again live q' in
        (hash, known, fresh, set, none_left)
  ]

  update_password-HoldsPassword :
      (i : String) (a b : AuthState C) (u : User) (x : Unit {0})
      → find_user i a.world.db.users ≡ some u
      → u.deleted ≡ false
      → update_password h n i a ≡ (b, ok x)
      → (hash : String) × (n.hashing ≡ hashed hash)
        × HoldsPassword i hash u.import_pending u.must_reset_password b.world.db
        × HasNoSession i b.world.db
  unfolding update_password
  update_password-HoldsPassword i a b u x found live q =
      elim (Bool-cases (h.hibp_enabled && h.is_breached n.password)) [
        | inl breached ↦ absurd (ground arith)
        | inr unknown ↦
            let (w, r, p) = attempt-answers (reading (get_recent_by_user i 5)) a.world in
            let quiet = reading-IsQuiet (get_recent_by_user i 5) a w r p in
            let left : judge_past h n i (entries r) (record a { world = w }) ≡ (b, ok x) =
              ground (arith, unknown, p) in
            let (hash, known, fresh, set, none_left) =
              judge_past-HoldsPassword i (entries r) (record a { world = w }) b u x
                (ap (λ db. find_user i db.users) quiet.db ∙ found) live left in
            (hash, known, set, none_left)
      ]

  clear_lockouts-HoldsPassword :
      (t : ℕ) (i hash : String) (p q : Bool) (a : AuthState C)
      → HoldsPassword i hash p q a.world.db
      → HasNoSession i a.world.db
      → HoldsPassword i hash p q (clear_lockouts h t i a).world.db
        × HasNoSession i (clear_lockouts h t i a).world.db
  unfolding reset_failed_login
  clear_lockouts-HoldsPassword t i hash p q a s none_left =
      let d = record a { cache = (clear_account_lockout h.format h.scan h.ops t i a.cache).0 } in
      elim (statement-cases (reset_failed_login i) d) [
        | inl same ↦ (
          subst (HoldsPassword i hash p q) (sym same) s,
          subst (HasNoSession i) (sym same) none_left,
        )
        | inr moved ↦ (
          subst (HoldsPassword i hash p q) (sym moved)
              (reset_failed_login-HoldsPassword i hash p q a.world.db s),
          subst (HasNoSession i) (sym moved) none_left,
        )
      ]

  claim-HoldsPassword :
      (u : User) (hash : String) (q : Bool) (a b : AuthState C) (x : Unit {0})
      → HoldsPassword u.user_id hash u.import_pending q a.world.db
      → HasNoSession u.user_id a.world.db
      → claim h u a ≡ (b, ok x)
      → HoldsPassword u.user_id hash false q b.world.db × HasNoSession u.user_id b.world.db
  unfolding clear_import_pending
  claim-HoldsPassword u hash q a b x s none_left k = elim (Bool-cases u.import_pending) [
    | inl pending ↦
        let ran : must import_claim_failed (writing (clear_import_pending u.user_id)) a
            ≡ (b, ok x) =
          ground (arith, pending) in
        let (moved, done, kept) =
          must-ok import_claim_failed (writing (clear_import_pending u.user_id)) a b x ran in
        (
          subst (HoldsPassword u.user_id hash false q) (sym moved)
              (clear_import_pending-HoldsPassword u.user_id hash u.import_pending q a.world.db s),
          subst (HasNoSession u.user_id) (sym moved) none_left,
        )
    | inr claimed ↦
        let same : b ≡ a = ground (arith, claimed) in
        (
          subst (λ c. HoldsPassword u.user_id hash false q c.world.db) (sym same)
              (subst (λ p. HoldsPassword u.user_id hash p q a.world.db) claimed s),
          subst (λ c. HasNoSession u.user_id c.world.db) (sym same) none_left,
        )
  ]

  lift-HoldsPassword :
      (u : User) (hash : String) (p : Bool) (a b : AuthState C) (x : Unit {0})
      → HoldsPassword u.user_id hash p u.must_reset_password a.world.db
      → HasNoSession u.user_id a.world.db
      → lift h u a ≡ (b, ok x)
      → HoldsPassword u.user_id hash p false b.world.db × HasNoSession u.user_id b.world.db
  unfolding clear_must_reset_password
  lift-HoldsPassword u hash p a b x s none_left k = elim (Bool-cases u.must_reset_password) [
    | inl forced ↦
        let ran : (must forced_reset_clear_failed (writing (clear_must_reset_password u.user_id))
                >>= λ y. change (audited (password_reset u.user_id "forced_reset_completed")))
              a
            ≡ (b, ok x) =
          ground (arith, forced) in
        let (c, y, p₁, h₁) =
          continue-eq-ok
            (must forced_reset_clear_failed (writing (clear_must_reset_password u.user_id)) a) _
            ran in
        let (moved, done, kept) =
          must-ok forced_reset_clear_failed (writing (clear_must_reset_password u.user_id)) a c y
            p₁ in
        let final = sym (ap (λ r. r.0.world.db) h₁) ∙ moved in
        (
          subst (HoldsPassword u.user_id hash p false) (sym final) (
              clear_must_reset_password-HoldsPassword u.user_id hash p u.must_reset_password
                a.world.db s),
          subst (HasNoSession u.user_id) (sym final) none_left,
        )
    | inr lifted ↦
        let same : b ≡ a = ground (arith, lifted) in
        (
          subst (λ c. HoldsPassword u.user_id hash p false c.world.db) (sym same)
              (subst (λ q. HoldsPassword u.user_id hash p q a.world.db) lifted s),
          subst (λ c. HasNoSession u.user_id c.world.db) (sym same) none_left,
        )
  ]

  -- The account that the token named is in order, its password is the new one, it is neither pending
  -- nor due a reset, and none of its sessions is left.
  pub record Resets (o : Option User) (b : AuthState C) : Type 0 where
    pub u : User
    pub account : o ≡ some u
    pub accepted : is_refused u ≡ false
    pub hash : String
    pub hashes : n.hashing ≡ hashed hash
    pub set : HoldsPassword u.user_id hash false false b.world.db
    pub no_session : HasNoSession u.user_id b.world.db

  confirmed-HoldsPassword :
      (u : User) (a b : AuthState C) (x : Unit {0})
      → find_user u.user_id a.world.db.users ≡ some u
      → u.deleted ≡ false
      → confirmed h n u a ≡ (b, ok x)
      → (hash : String) × (n.hashing ≡ hashed hash)
        × HoldsPassword u.user_id hash false false b.world.db
        × HasNoSession u.user_id b.world.db
  unfolding confirmed
  confirmed-HoldsPassword u a b x found live q =
      let (c, y, p₁, h₁) = continue-eq-ok (update_password h n u.user_id a) _ q in
      let (hash, known, set, none_left) =
        update_password-HoldsPassword u.user_id a c u y found live p₁ in
      let (set₂, none₂) =
        clear_lockouts-HoldsPassword n.now u.user_id hash u.import_pending u.must_reset_password c
          set none_left in
      let d = clear_lockouts h n.now u.user_id c in
      let (e, z, p₂, h₂) = continue-eq-ok (claim h u d) _ h₁ in
      let (set₃, none₃) = claim-HoldsPassword u hash u.must_reset_password d e z set₂ none₂ p₂ in
      let (f, v, p₃, h₃) = continue-eq-ok (lift h u e) _ h₂ in
      let (set₄, none₄) = lift-HoldsPassword u hash false e f v set₃ none₃ p₃ in
      let final = sym (ap (λ r. r.0.world.db) h₃) in
      (
        hash,
        known,
        subst (HoldsPassword u.user_id hash false false) (sym final) set₄,
        subst (HasNoSession u.user_id) (sym final) none₄,
      )

  judge_target-Resets :
      (o : Option User) (a b : AuthState C) (x : Unit {0})
      → ((u : User) → o ≡ some u → find_user u.user_id a.world.db.users ≡ some u)
      → judge_target h n o a ≡ (b, ok x)
      → Resets o b
  judge_target-Resets none a b x stored q = absurd (ground arith)
  judge_target-Resets (some u) a b x stored q = elim (Bool-cases (is_refused u)) [
    | inl refused ↦ absurd (ground (arith, refused))
    | inr accepted ↦
        let live : u.deleted ≡ false = ground (arith, accepted) in
        let ran : confirmed h n u a ≡ (b, ok x) = ground (arith, accepted) in
        let (hash, known, set, none_left) =
          confirmed-HoldsPassword u a b x (stored u refl) live ran in
        record {
          u = u;
          account = refl;
          accepted = accepted;
          hash = hash;
          hashes = known;
          set = set;
          no_session = none_left;
        }
  ]

  -- What a redeemed token names.
  abbrev pub Redeemed : String → AuthState C → AuthState C → Type 0
  Redeemed token a b =
      (c : C) × (user : String) × (a.cache ≡ some c)
      × ((h.ops.get_and_delete n.now (reset_key (h.sha256 token)) c).1 ≡ ok user)
      × Resets (get_user user a.world.db) b

  get_user-named :
      (user : String) (db : Db) (u : User)
      → get_user user db ≡ some u
      → find_user u.user_id db.users ≡ some u
  unfolding get_user
  get_user-named user db u found =
      let same = (eq_iff u.user_id user).0 (find_user-named user db.users u found) in
      ap (λ i. find_user i db.users) same ∙ found

  redeemed-Resets :
      (user : String) (a b : AuthState C) (x : Unit {0})
      → redeemed h n (ok user) a ≡ (b, ok x)
      → Resets (get_user user a.world.db) b
  redeemed-Resets user a b x q = elim (Bool-cases (str_eq user "")) [
    | inl empty ↦ absurd (ground (arith, empty))
    | inr named ↦
        let (w, r, p) = attempt-answers (reading (get_user user)) a.world in
        let quiet = reading-IsQuiet (get_user user) a w r p in
        let left : judge_target h n (account_read r) (record a { world = w }) ≡ (b, ok x) =
          ground (arith, named, p) in
        let (same, answers) = attempt-reading (get_user user) a.world w r p in
        elim answers [
          | inr outage ↦ absurd (
              refused_read (record a { world = w }) b x
                (ap (λ s. judge_target h n (account_read s) (record a { world = w })) (sym outage)
                  ∙ left))
          | inl known ↦
              judge_target-Resets (get_user user a.world.db) (record a { world = w }) b x
                (λ u found.
                  ap (λ db. find_user u.user_id db.users) quiet.db
                  ∙ get_user-named user a.world.db u found)
                (ap (λ s. judge_target h n (account_read s) (record a { world = w })) (sym known)
                  ∙ left)
        ]
  ]
    where
      refused_read : (c d : AuthState C) (y : Unit {0}) → judge_target h n none c ≡ (d, ok y) → ⊥
      refused_read c d y k = ground arith

  -- A reset is answered ok only for a token under which the cache held the name of an account that is
  -- neither deleted nor banned nor disabled, and only with a password that was hashed and is not too
  -- short. The account then has that hash as its password, its pending import and its forced reset
  -- are over, and each of its refresh tokens is revoked; whatever outages the request met.
  pub reset_confirm-Resets :
      (token : String) (a b : AuthState C) (x : Unit {0})
      → reset_confirm h token n a ≡ (b, ok x)
      → (h.min_length ≤ h.rune_count n.password) × Redeemed token a b
  unfolding reset_confirm
  reset_confirm-Resets token a b x q = elim (Bool-cases (str_eq token "" || str_eq n.password "")) [
    | inl empty ↦ absurd (ground (arith, empty))
    | inr given ↦ elim (Bool-cases (ltb (h.rune_count n.password) h.min_length)) [
      | inl short ↦ absurd (ground (arith, given, short))
      | inr long ↦ elim (Option-cases a.cache) [
        | inl no_cache ↦ absurd (ground (arith, given, long, no_cache))
        | inr (c, cached) ↦
            let p = h.ops.get_and_delete n.now (reset_key (h.sha256 token)) c in
            elim (Result-cases p.1) [
              | inr (e, missing) ↦ absurd (ground (arith, given, long, cached, missing))
              | inl (user, found) ↦
                  let left : redeemed h n (ok user) (record a { cache = some p.0 }) ≡ (b, ok x) =
                    ground (arith, given, long, cached, found) in
                  (
                    ground (arith, long),
                    (
                      c,
                      user,
                      cached,
                      found,
                      redeemed-Resets user (record a { cache = some p.0 }) b x left,
                    ),
                  )
            ]
      ]
    ]
  ]
