-- ===== src/Session/Store/Family.antt =====
-- The sender constraint and the birth date of a family (dpop_jkt, family_created_at).
use vault.Common.{
  ℕ, String, ◌≡◌, ◌≢◌, refl, Bool, List, [], ◌∷◌, arith, inl, inr, ◌⊎◌, keep, eq_iff, str_eq,
  Result, All, All-mono, Bool-cases, ap, ◌∙◌, eq_refl, sym, some,
}
use vault.Session.Store.{
  Token, Row, User, Device, Window, PastPassword, Db, successor, family_jkt, family_birth, min_jkt,
  min_origin, min_text, update, set_used, set_revoked, mark_used, revoke_by_id, revoke_by_device_id,
  revoke_family, revoke_all_for_user, delete_all_for_user, revoke_all, StoreError, in_family,
}
use vault.Session.Store.Inserts.{Inserts, Refuses, create-cases, create_within_cap-cases}
use vault.Session.Store.Statements.{
  Statement, creates, creates_within_cap, marks_used, revokes_id, revokes_device, revokes_family,
  revokes_user, revokes_all, deletes_user, changes, exec, Reach, Reach-invariant,
}

-- The two rows are of different families, or carry the same binding and birth date.
abbrev pub Agrees : Row → Row → Type 0
Agrees r s =
    (r.family_id ≢ s.family_id)
    ⊎ ((r.dpop_jkt ≡ s.dpop_jkt) × (r.family_created_at ≡ s.family_created_at))

abbrev pub AreCoherent : List Row → Type 0
AreCoherent [] = Unit {0}
AreCoherent (r ∷ rs) = All (Agrees r) rs × AreCoherent rs

-- The row is outside the family `f`, or carries the binding `j` and the birth date `o`.
abbrev Carries : String → String → ℕ → Row → Type 0
Carries f j o s = (s.family_id ≢ f) ⊎ ((s.dpop_jkt ≡ j) × (s.family_created_at ≡ o))

-- The row carries the binding `j` and the birth date `o`.
abbrev Has : String → ℕ → Row → Type 0
Has j o s = (s.dpop_jkt ≡ j) × (s.family_created_at ≡ o)

Carries-of_Agrees :
    (f : String) (r s : Row)
    → r.family_id ≡ f
    → Agrees r s
    → Carries f r.dpop_jkt r.family_created_at s
Carries-of_Agrees f r s q (inl n) = inl (λ e. n (q ∙ sym e))
Carries-of_Agrees f r s q (inr (a, b)) = inr (sym a, sym b)

Has-keep :
    (f j : String) (o : ℕ) (rs : List Row)
    → All (Carries f j o) rs
    → All (Has j o) (keep (in_family f) rs)
Has-keep f j o [] h = tt
Has-keep f j o (r ∷ rs) (h, hs) = elim (Bool-cases (str_eq r.family_id f)) [
  | inl b ↦ rw b (ours h ((eq_iff r.family_id f).0 b), Has-keep f j o rs hs)
  | inr b ↦ rw b (Has-keep f j o rs hs)
]
  where
    ours : Carries f j o r → r.family_id ≡ f → Has j o r
    ours (inl n) q = absurd (n q)
    ours (inr p) q = p

module _ (f : String) where
  -- A coherent table has no row of the family, or one binding and one birth date for it.
  uniform :
      (rs : List Row)
      → AreCoherent rs
      → All (λ s. s.family_id ≢ f) rs
        ⊎ ((j : String) × (o : ℕ) × All (Carries f j o) rs × (keep (in_family f) rs ≢ []))
  uniform [] h = inl tt
  uniform (r ∷ rs) (h, hs) = elim (Bool-cases (str_eq r.family_id f)) [
    | inl b ↦
        let q : r.family_id ≡ f = (eq_iff r.family_id f).0 b in
        inr (
          r.dpop_jkt,
          r.family_created_at,
          (inr (refl, refl), All-mono (λ s a. Carries-of_Agrees f r s q a) rs h),
          ground arith,
        )
    | inr b ↦
        let n : r.family_id ≢ f = ground (arith, eq_iff r.family_id f) in
        elim (uniform rs hs) [
          | inl a ↦ inl (n, a)
          | inr (j, o, a, some_row) ↦ inr (j, o, (inl n, a), rw b some_row)
        ]
  ]

module _ (collate : String → String → Bool) (j : String) (o : ℕ) where
  min_text_self : min_text collate j j ≡ j
  min_text_self = ground arith

  min_text-null : min_text collate j "" ≡ j
  min_text-null = ground (arith, eq_iff j "", eq_refl "")

  min-const :
      (r : Row) (rs : List Row)
      → All (Has j o) (r ∷ rs)
      → (min_jkt collate (r ∷ rs) ≡ j) × (min_origin (r ∷ rs) ≡ some o)
  min-const r [] ((a, b), h) = (rw a min_text-null, ground arith)
  min-const r (s ∷ rs) ((a, b), h) =
      let (x, y) = min-const s rs h in (rw (a, x) min_text_self, rw (y, b) (ap some (omega arith)))

  family-const :
      (rs : List Row) (jkt : String) (created : ℕ)
      → rs ≢ []
      → All (Has j o) rs
      → (family_jkt collate rs jkt ≡ j) × (family_birth rs created ≡ o)
  family-const [] jkt created n h = absurd (n refl)
  family-const (r ∷ rs) jkt created n h = let (x, y) = min-const r rs h in (x, ground (arith, y))

module _ (collate : String → String → Bool) where
  -- The new row agrees with every row of a coherent table.
  successor-Agrees :
      (t : Token) (rs : List Row)
      → AreCoherent rs
      → All (Agrees (successor collate (keep (in_family t.family_id) rs) t)) rs
  unfolding successor
  successor-Agrees t rs h = elim (uniform t.family_id rs h) [
    | inl a ↦ All-mono (λ s n. inl (λ q. n (sym q))) rs a
    | inr (j, o, a, some_row) ↦ All-mono (agree j o a some_row) rs a
  ]
    where
      agree :
          (j : String) (o : ℕ)
          → All (Carries t.family_id j o) rs
          → keep (in_family t.family_id) rs ≢ []
          → (s : Row) → Carries t.family_id j o s
          → Agrees (successor collate (keep (in_family t.family_id) rs) t) s
      agree j o a some_row s (inl n) = inl (λ q. n (sym q))
      agree j o a some_row s (inr (x, y)) =
          let (p, q) =
            family-const collate j o (keep (in_family t.family_id) rs) t.dpop_jkt t.created_at
              some_row (Has-keep t.family_id j o rs a) in
          inr (p ∙ sym x, q ∙ sym y)

  insert-AreCoherent :
      (t : Token) (db : Db) (p : Db × Result StoreError (Unit {0}))
      → AreCoherent db.tokens
      → Refuses collate db p ⊎ Inserts collate t db p
      → AreCoherent p.0.tokens
  insert-AreCoherent t db p h (inl (e, q)) = rw q h
  insert-AreCoherent t db p h (inr i) = rw i.table (successor-Agrees t db.tokens h, h)

module _ (p : Row → Bool) where
  Agrees-update_used :
      (r : Row) (rs : List Row) → All (Agrees r) rs → All (Agrees r) (update p set_used rs)
  Agrees-update_used r [] h = tt
  Agrees-update_used r (s ∷ rs) (h, hs) = (ground (arith, h), Agrees-update_used r rs hs)

  AreCoherent-update_used : (rs : List Row) → AreCoherent rs → AreCoherent (update p set_used rs)
  AreCoherent-update_used [] h = tt
  AreCoherent-update_used (r ∷ rs) (h, hs) = elim (Bool-cases (p r)) [
    | inl b ↦ rw b (Agrees-update_used r rs h, AreCoherent-update_used rs hs)
    | inr b ↦ rw b (Agrees-update_used r rs h, AreCoherent-update_used rs hs)
  ]

  Agrees-update_revoked :
      (r : Row) (rs : List Row) → All (Agrees r) rs → All (Agrees r) (update p set_revoked rs)
  Agrees-update_revoked r [] h = tt
  Agrees-update_revoked r (s ∷ rs) (h, hs) = (ground (arith, h), Agrees-update_revoked r rs hs)

  AreCoherent-update_revoked :
      (rs : List Row) → AreCoherent rs → AreCoherent (update p set_revoked rs)
  AreCoherent-update_revoked [] h = tt
  AreCoherent-update_revoked (r ∷ rs) (h, hs) = elim (Bool-cases (p r)) [
    | inl b ↦ rw b (Agrees-update_revoked r rs h, AreCoherent-update_revoked rs hs)
    | inr b ↦ rw b (Agrees-update_revoked r rs h, AreCoherent-update_revoked rs hs)
  ]

  Agrees-keep : (r : Row) (rs : List Row) → All (Agrees r) rs → All (Agrees r) (keep p rs)
  Agrees-keep r [] h = tt
  Agrees-keep r (s ∷ rs) (h, hs) = elim (Bool-cases (p s)) [
    | inl b ↦ rw b (h, Agrees-keep r rs hs)
    | inr b ↦ rw b (Agrees-keep r rs hs)
  ]

  AreCoherent-keep : (rs : List Row) → AreCoherent rs → AreCoherent (keep p rs)
  AreCoherent-keep [] h = tt
  AreCoherent-keep (r ∷ rs) (h, hs) = elim (Bool-cases (p r)) [
    | inl b ↦ rw b (Agrees-keep r rs h, AreCoherent-keep rs hs)
    | inr b ↦ rw b (AreCoherent-keep rs hs)
  ]

module _ (collate : String → String → Bool) where
  exec-AreCoherent :
      (db : Db) (s : Statement) → AreCoherent db.tokens → AreCoherent (exec collate db s).tokens
  unfolding exec mark_used revoke_by_id revoke_by_device_id revoke_family revoke_all_for_user
      delete_all_for_user revoke_all
  exec-AreCoherent db (creates t) h =
      insert-AreCoherent collate t db _ h (create-cases collate t db)
  exec-AreCoherent db (creates_within_cap now t cap) h =
      insert-AreCoherent collate t db _ h (create_within_cap-cases collate now t cap db)
  exec-AreCoherent db (marks_used j) h = AreCoherent-update_used _ db.tokens h
  exec-AreCoherent db (revokes_id j) h = AreCoherent-update_revoked _ db.tokens h
  exec-AreCoherent db (revokes_device d) h = AreCoherent-update_revoked _ db.tokens h
  exec-AreCoherent db (revokes_family g) h = AreCoherent-update_revoked _ db.tokens h
  exec-AreCoherent db (revokes_user w) h = AreCoherent-update_revoked _ db.tokens h
  exec-AreCoherent db revokes_all h = AreCoherent-update_revoked _ db.tokens h
  exec-AreCoherent db (deletes_user w) h = AreCoherent-keep _ db.tokens h
  exec-AreCoherent db (changes us) h = h

  -- In every table that statements reach from an empty one, in any order and whatever values the
  -- callers supply, two rows of one family carry the same DPoP binding and the same birth date: no
  -- rotation moves either.
  pub family_fixed :
      (us : List User) (ds : List Device) (ws : List Window) (hs : List PastPassword) (d : Db)
      → Reach collate
          (λ db s. Unit {0})
          (record { tokens = []; users = us; devices = ds; rate_limits = ws; history = hs })
          d
      → AreCoherent d.tokens
  family_fixed us ds ws hs d r =
      Reach-invariant collate (λ db s. Unit {0}) (λ db. AreCoherent db.tokens)
        (λ db s h. exec-AreCoherent db s) tt r
