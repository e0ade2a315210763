-- ===== src/Rolesanywhere/Selector/Laws.antt =====
-- The identity that FindIdentity selects (pkg/rolesanywhere/selector.go).
use pinsync.Base.{
  Bool, true, false, ◌≡◌, refl, sym, subst, ap, List, [], ◌∷◌, ◌++◌, map, Option, none, some,
  Result, ok, err, length, All,
}
use pinsync.Base.Text.{Text}
use pinsync.Rolesanywhere.Match.{CertField, StoreLoc, Cert, match_cert}
use pinsync.Rolesanywhere.Selector.{
  CertStores, Closed, closed_identity, closed_store, SelectError, no_match, is_machine, scan,
  selected, find_in, find_identity,
}

module _ {Handle Ident : Type 0} (stores : CertStores Handle Ident) (matches : Text → Bool)
    (field : CertField) where
  -- Whether an identity has a certificate that parses and matches.
  abbrev pub suits : Ident → Bool
  suits i = elim (stores.certificate i) [ none ↦ false | some c ↦ match_cert matches field c ]

  -- The first that suits, after others that do not.
  abbrev pub IsFirst : List Ident → List Ident → Ident → Cert → List Ident → Type 0
  IsFirst idents before i c after =
      (idents ≡ before ++ (i ∷ after))
      × All (λ j. suits j ≡ false) before
      × (stores.certificate i ≡ some c)
      × (match_cert matches field c ≡ true)

  abbrev Scanned : List Ident → Option (Ident × Cert) → List (Closed Ident) → Type 0
  Scanned idents none closed =
      All (λ j. suits j ≡ false) idents × (closed ≡ map closed_identity idents)
  Scanned idents (some (i, c)) closed =
      (before : List Ident) × (after : List Ident) × IsFirst idents before i c after
      × (closed ≡ map closed_identity (before ++ after))

  Scanned-skip :
      (i : Ident) (idents : List Ident) (found : Option (Ident × Cert))
      (closed : List (Closed Ident))
      → suits i ≡ false
      → Scanned idents found closed
      → Scanned (i ∷ idents) found (closed_identity i ∷ closed)
  Scanned-skip i idents none closed unfit (all, e) =
      ((unfit, all), ap (λ l. closed_identity i ∷ l) e)
  Scanned-skip i idents (some (j, c)) closed unfit (before, after, (e, all, k, m), shut) = (
    i ∷ before,
    after,
    (ap (λ l. i ∷ l) e, (unfit, all), k, m),
    ap (λ l. closed_identity i ∷ l) shut,
  )

  -- The identity ahead of the others, by its certificate and whether that matches.
  abbrev passed : Ident → List Ident → Option (Ident × Cert) × List (Closed Ident)
  passed i rest =
      let found : Option (Ident × Cert) × List (Closed Ident) = scan stores matches field rest in
      (found.0, closed_identity i ∷ found.1)

  abbrev taken : Ident → List Ident → Cert → Bool → Option (Ident × Cert) × List (Closed Ident)
  taken i rest c true = (some (i, c), map closed_identity rest)
  taken i rest c false = passed i rest

  abbrev looked : Ident → List Ident → Option Cert → Option (Ident × Cert) × List (Closed Ident)
  looked i rest none = passed i rest
  looked i rest (some c) = taken i rest c (match_cert matches field c)

  scan-looked :
      (i : Ident) (rest : List Ident) (c : Option Cert) (b : Bool)
      → stores.certificate i ≡ c
      → (elim c [ none ↦ false | some c ↦ match_cert matches field c ]) ≡ b
      → scan stores matches field (i ∷ rest) ≡ looked i rest c
  unfolding scan
  scan-looked i rest none b e m = rw (e, scan) refl
  scan-looked i rest (some c) true e m = rw (e, scan, m) refl
  scan-looked i rest (some c) false e m = rw (e, scan, m) refl

  taken-Scanned :
      (i : Ident) (rest : List Ident) (c : Cert) (b : Bool)
      → stores.certificate i ≡ some c
      → match_cert matches field c ≡ b
      → Scanned rest (scan stores matches field rest).0 (scan stores matches field rest).1
      → Scanned (i ∷ rest) (taken i rest c b).0 (taken i rest c b).1
  taken-Scanned i rest c true e m h = ([], rest, (refl, tt, e, m), refl)
  taken-Scanned i rest c false e m h =
      Scanned-skip i rest (scan stores matches field rest).0 (scan stores matches field rest).1
        (rw (e, suits) m) h

  looked-Scanned :
      (i : Ident) (rest : List Ident) (c : Option Cert)
      → stores.certificate i ≡ c
      → Scanned rest (scan stores matches field rest).0 (scan stores matches field rest).1
      → Scanned (i ∷ rest) (looked i rest c).0 (looked i rest c).1
  looked-Scanned i rest none e h =
      Scanned-skip i rest (scan stores matches field rest).0 (scan stores matches field rest).1
        (rw (e, suits) refl) h
  looked-Scanned i rest (some c) e h = taken-Scanned i rest c (match_cert matches field c) e refl h

  scan-Scanned :
      (idents : List Ident)
      → Scanned idents (scan stores matches field idents).0 (scan stores matches field idents).1
  unfolding scan
  scan-Scanned [] = (tt, refl)
  scan-Scanned (i ∷ rest) =
      subst (λ x. Scanned (i ∷ rest) x.0 x.1)
        (sym (scan-looked i rest (stores.certificate i) (suits i) refl refl))
        (looked-Scanned i rest (stores.certificate i) refl (scan-Scanned rest))

  -- What a run gives that could list the identities of the store.
  abbrev pub Selected :
      List Ident → Result SelectError (Ident × Cert) × List (Closed Ident) → Type 0
  Selected idents (err e, closed) =
      (e ≡ no_match field (length idents))
      × All (λ j. suits j ≡ false) idents
      × (closed ≡ map closed_identity idents ++ (closed_store ∷ []))
  Selected idents (ok (i, c), closed) =
      (before : List Ident) × (after : List Ident) × IsFirst idents before i c after
      × (closed ≡ map closed_identity (before ++ after) ++ (closed_store ∷ []))

  selected-Selected :
      (idents : List Ident) (found : Option (Ident × Cert)) (closed : List (Closed Ident))
      → Scanned idents found closed
      → Selected idents
          (selected stores matches field (length idents) found, closed ++ (closed_store ∷ []))
  selected-Selected idents none closed (all, e) = (refl, all, ap (λ l. l ++ (closed_store ∷ [])) e)
  selected-Selected idents (some (i, c)) closed (before, after, first, e) =
      (before, after, first, ap (λ l. l ++ (closed_store ∷ [])) e)

  -- When the store opens and lists its identities, FindIdentity returns the first that has a
  -- certificate which parses and matches, and closes every other identity once and then the store;
  -- or none suits, and it closes them all.
  pub find_identity-IsFirst :
      (loc : StoreLoc) (store : Handle) (idents : List Ident)
      → stores.open_store (is_machine loc) ≡ ok store
      → stores.identities store ≡ ok idents
      → Selected idents (find_identity stores matches field loc)
  unfolding find_identity find_in
  find_identity-IsFirst loc store idents o l = rw o (
      rw l (
        selected-Selected idents (scan stores matches field idents).0
          (scan stores matches field idents).1 (scan-Scanned idents)))
