-- ===== src/Manifest/Walk/Laws.antt =====
-- What `Build` (pkg/manifest/build.go) returns is valid and leaves the manifest's own name free.
use pinsync.Base.{
  not, ◌≡◌, ◌≢◌, refl, sym, ap, subst, ◌∙◌, List, [], ◌∷◌, Option, none, some, Result, ok, ◌>>=◌,
  >>=-eq-ok, ◌==◌, eq_iff, nat_eq, list_eq, Bool-cases, inl, inr, All,
}
use pinsync.Base.Text.{Text}
use pinsync.Manifest.Path.{Casing}
use pinsync.Manifest.Entry.{File, Manifest, manifest_name, schema_version}
use pinsync.Manifest.Validate.{Violation, validate}
use pinsync.Manifest.Validate.Laws.{IsValid, validate_iff}
use pinsync.Manifest.Walk.{
  Opened, Walked, Visit, unreadable, directory, visited, WalkError, hash_file, build_entry,
  build_files, if_clean, build,
}

abbrev result {ℓ} : {A : Type ℓ} → A → Result WalkError A
result a = ok a

is_same {ℓ} : {A : Type ℓ} (a b : A) → result a ≡ result b → a ≡ b
is_same a b h = cc

-- No entry has the name reserved for the manifest.
abbrev pub IsUnreserved : List File → Type 0
IsUnreserved = All (λ (f : File). f.path ≢ manifest_name)

module _ (casing : Casing) (sha256_hex : Text → Text) where
  hash_file-path :
      (path : Text) (o : Option Opened) (f : File)
      → hash_file casing sha256_hex path o ≡ ok f
      → f.path ≡ path
  unfolding hash_file
  hash_file-path path none f h = cc
  hash_file-path path (some o) f h = elim (Bool-cases o.broken) [
    | inl e ↦ absurd (cc (rw e at h))
    | inr e ↦ ap (λ (f : File). f.path) (sym (is_same _ f (rw e at h)))
  ]

  build_entry-path :
      (w : Walked) (f : File) → build_entry casing sha256_hex w ≡ ok f → f.path ≢ manifest_name
  unfolding build_entry
  build_entry-path w f h = elim (Bool-cases (not w.regular)) [
    | inl e ↦ absurd (cc (rw e at h))
    | inr e ↦ elim (Bool-cases (w.path == manifest_name)) [
      | inl r ↦ absurd (cc (rw (e, r) at h))
      | inr r ↦ λ same. absurd (
          cc (
            r,
            (eq_iff w.path manifest_name).1
                (sym (hash_file-path w.path w.opened f (rw (e, r) at h)) ∙ same),
          ))
    ]
  ]

  build_files-IsUnreserved :
      (vs : List Visit) (fs : List File)
      → build_files casing sha256_hex vs ≡ ok fs
      → IsUnreserved fs
  unfolding build_files
  build_files-IsUnreserved [] fs h = subst IsUnreserved (is_same [] fs h) tt
  build_files-IsUnreserved (unreadable ∷ vs) fs h = absurd (cc h)
  build_files-IsUnreserved (directory ∷ vs) fs h = build_files-IsUnreserved vs fs h
  build_files-IsUnreserved (visited w ∷ vs) fs h =
      let (f, e, k) =
        >>=-eq-ok (build_entry casing sha256_hex w)
          (λ f. build_files casing sha256_hex vs >>= λ gs. ok (f ∷ gs)) fs h in
      let (gs, e', k') = >>=-eq-ok (build_files casing sha256_hex vs) (λ gs. ok (f ∷ gs)) fs k in
      subst IsUnreserved (is_same (f ∷ gs) fs k')
        (build_entry-path w f e, build_files-IsUnreserved vs gs e')

  if_clean_same :
      (m n : Manifest) (vs : List Violation)
      → if_clean casing sha256_hex m vs ≡ ok n
      → (m ≡ n) × (vs ≡ [])
  if_clean_same m n [] h = (is_same m n h, refl)
  if_clean_same m n (v ∷ vs) h = absurd (cc h)

  -- A manifest that was built has the current version, is valid, and has no entry of the name that
  -- is reserved for the manifest.
  pub build-IsValid :
      (vs : List Visit) (m : Manifest)
      → build casing sha256_hex vs ≡ ok m
      → (m.version ≡ schema_version) × (IsValid casing m × IsUnreserved m.files)
  unfolding build
  build-IsValid vs m h =
      let (fs, e, k) = >>=-eq-ok (build_files casing sha256_hex vs) _ m h in
      let built : Manifest = record { version = schema_version; files = fs } in
      let clean = if_clean_same built m (validate casing built) k in
      subst
        (λ (m : Manifest). (m.version ≡ schema_version) × (IsValid casing m × IsUnreserved m.files))
        clean.0 (refl, ((validate_iff casing built).0 clean.1, build_files-IsUnreserved vs fs e))
