-- ===== src/Keystore/Served.antt =====
-- Which keys a process verifies and signs with after a Refresh of keystore.go.
use vault.Common.{
  ℕ, String, Bool, true, false, some, List, [], ◌∷◌, str_eq, eq_iff, if◌then◌else◌, ok, err, ◌≡◌,
  ◌⊎◌, inl, inr, refl, sym, ap, ◌∙◌, subst, arith, All, Bool-cases, Option-cases,
}
use vault.Common.Results.{>>=-eq-ok, Result-cases}
use vault.Common.Dict.{insert, lookup, lookup-insert}
use vault.Keystore.{
  active, KeyRow, Crypto, KeyStore, KeyError, Loaded, is_active, is_served, served_rows, open_key,
  publish, skip, load_row, load_rows, nothing_loaded, refresh,
}
use vault.Keystore.Rows.{Has, served_rows-Has, is_active→active}

module _ {P K : Type 0} (c : Crypto P K) where
  -- A row of the table that is neither revoked nor expired, whose private key opens under its kid, and
  -- whose public key is the published one and that of the private key.
  abbrev pub IsBacked : ℕ → List KeyRow → String → K → Type 0
  IsBacked now rows kid k =
      (r : KeyRow) × (p : P) × Has r rows
      × (r.kid ≡ kid)
      × (is_served now r ≡ true)
      × (c.open_pem r.private_key kid ≡ some p)
      × (c.parse_public r.public_key ≡ some k)
      × (c.equal (c.public_of p) k ≡ true)

  -- An active row that opens to the key.
  abbrev pub IsSigner : ℕ → List KeyRow → String → P → Type 0
  IsSigner now rows kid p =
      (r : KeyRow) × Has r rows
      × (r.kid ≡ kid)
      × (r.status ≡ active)
      × (is_served now r ≡ true)
      × (c.open_pem r.private_key kid ≡ some p)

  abbrev AllBacked : ℕ → List KeyRow → Loaded P K → Type 0
  AllBacked now rows l =
      ((kid : String) (k : K) → lookup kid l.public_keys ≡ some k → IsBacked now rows kid k)
      × ((p : P) → l.active_key ≡ some p → IsSigner now rows l.active_kid p)

  publish-public_keys :
      (r : KeyRow) (k : K) (p : P) (l : Loaded P K)
      → (publish c r k p l).public_keys ≡ insert r.kid k l.public_keys
  publish-public_keys r k p l = elim (Bool-cases (is_active r.status)) [
    | inl signs ↦ rw signs refl
    | inr rests ↦ rw rests refl
  ]

  module _ (now : ℕ) (rows : List KeyRow) where
    publish-AllBacked :
        (r : KeyRow) (k : K) (p : P) (l : Loaded P K)
        → Has r rows
        → is_served now r ≡ true
        → c.open_pem r.private_key r.kid ≡ some p
        → c.parse_public r.public_key ≡ some k
        → c.equal (c.public_of p) k ≡ true
        → AllBacked now rows l
        → AllBacked now rows (publish c r k p l)
    publish-AllBacked r k p l has served opens parses equals (backed, signed) = (
      λ kid k' found.
          let seen : (if str_eq r.kid kid then some k else lookup kid l.public_keys) ≡ some k' =
            sym (lookup-insert r.kid kid k l.public_keys)
            ∙ ap (λ m. lookup kid m) (sym (publish-public_keys r k p l))
            ∙ found in
          elim (Bool-cases (str_eq r.kid kid)) [
            | inl hit ↦
                let same : r.kid ≡ kid = ground (arith, eq_iff r.kid kid) in
                let that : k ≡ k' = ground (arith, hit, seen) in
                (
                  r,
                  p,
                  has,
                  same,
                  served,
                  subst (λ t. c.open_pem r.private_key t ≡ some p) same opens,
                  parses ∙ ap (λ t. some t) that,
                  subst (λ t. c.equal (c.public_of p) t ≡ true) that equals,
                )
            | inr miss ↦ backed kid k' (ground (arith, miss, seen))
          ],
      λ p' signs. elim (Bool-cases (is_active r.status)) [
        | inl act ↦
            let that : p ≡ p' = ground (arith, act, signs) in
            rw act
              (r, has, refl, is_active→active r.status act, served, opens ∙ ap (λ t. some t) that)
        | inr rests ↦ rw rests (signed p' (rw rests at signs))
      ],
    )

    skip-same : (r : KeyRow) (l m : Loaded P K) → skip c r l ≡ ok m → l ≡ m
    skip-same r l m h = elim (Bool-cases (is_active r.status)) [
      | inl act ↦ absurd (ground (arith, act))
      | inr rests ↦ ground (arith, rests)
    ]

    open_key-some :
        (gone : Bool) (r : KeyRow) (p : P)
        → open_key c gone r ≡ some p
        → c.open_pem r.private_key r.kid ≡ some p
    unfolding open_key
    open_key-some true r p h = absurd (ground arith)
    open_key-some false r p h = h

    load_row-AllBacked :
        (gone : Bool) (r : KeyRow) (l m : Loaded P K)
        → Has r rows × (is_served now r ≡ true)
        → AllBacked now rows l
        → load_row c gone r l ≡ ok m
        → AllBacked now rows m
    unfolding open_key
    load_row-AllBacked gone r l m (has, served) b h =
        elim (Option-cases (c.parse_public r.public_key)) [
          | inl bad ↦ let same : l ≡ m = ground (arith, bad) in subst (AllBacked now rows) same b
          | inr (k, parses) ↦ elim (Option-cases (open_key c gone r)) [
            | inl bad ↦
                let skipped : skip c r l ≡ ok m = ground (arith, parses, bad) in
                subst (AllBacked now rows) (skip-same r l m skipped) b
            | inr (p, opened) ↦ elim (Bool-cases (c.equal (c.public_of p) k)) [
              | inl equals ↦
                  let same : publish c r k p l ≡ m = ground (arith, parses, opened, equals) in
                  subst (AllBacked now rows) same (
                    publish-AllBacked r k p l has served (open_key-some gone r p opened) parses
                      equals b)
              | inr differs ↦
                  let skipped : skip c r l ≡ ok m = ground (arith, parses, opened, differs) in
                  subst (AllBacked now rows) (skip-same r l m skipped) b
            ]
          ]
        ]

    load_rows-AllBacked :
        (gone : Bool) (xs : List KeyRow) (l m : Loaded P K)
        → All (λ r. Has r rows × (is_served now r ≡ true)) xs
        → AllBacked now rows l
        → load_rows c gone xs l ≡ ok m
        → AllBacked now rows m
    load_rows-AllBacked gone [] l m h b e =
        let same : l ≡ m = ground arith in subst (AllBacked now rows) same b
    load_rows-AllBacked gone (x ∷ xs) l m (hx, hxs) b e =
        let (mid, first, rest) = >>=-eq-ok (load_row c gone x l) (load_rows c gone xs) e in
        load_rows-AllBacked gone xs mid m hxs (load_row-AllBacked gone x l mid hx b first) rest

    nothing-AllBacked : AllBacked now rows (nothing_loaded c)
    unfolding lookup
    nothing-AllBacked = (λ kid k h. absurd (ground arith), λ p h. absurd (ground arith))

    -- A refresh that succeeds publishes no other keys: each verification key is a row's that is neither
    -- revoked nor expired, whose private key opens under its kid and belongs to the published key, and
    -- the signing key is an active row's. A refresh that fails leaves the keys as they were.
    pub refresh-IsBacked :
        (queried : Bool) (ks : KeyStore P K)
        → (((refresh c queried now rows ks).0 ≡ ok tt)
            × ((kid : String) (k : K)
                → lookup kid (refresh c queried now rows ks).1.public_keys ≡ some k
                → IsBacked now rows kid k)
            × ((p : P)
                → (refresh c queried now rows ks).1.active_key ≡ some p
                → IsSigner now rows (refresh c queried now rows ks).1.active_kid p))
          ⊎ ((e : KeyError) × (refresh c queried now rows ks ≡ (err e, ks)))
    unfolding refresh
    refresh-IsBacked false ks = inr (_, refl)
    refresh-IsBacked true ks =
        elim (Result-cases
          (load_rows c ks.master_key_gone (served_rows now rows) (nothing_loaded c))) [
            | inr (bad, e) ↦ rw e (inr (bad, refl))
            | inl (l, e) ↦
                let (backed, signed) =
                  load_rows-AllBacked ks.master_key_gone (served_rows now rows) (nothing_loaded c) l
                    (served_rows-Has now rows) nothing-AllBacked e in
                rw e (inl (refl, backed, signed))
          ]
