-- ===== src/Push/Key/Laws.antt =====
-- The manifest's key is no content file's (`resolveManifestKey` of pkg/push/push.go).
use pinsync.Base.{
  Bool, true, false, ◌≡◌, ◌≢◌, subst, refl, sym, ap, ◌∙◌, List, [], ◌∷◌, arith, if◌then◌else◌,
  Result, ok, err, ◌==◌, eq_iff, nat_eq, list_eq, Bool-cases, inl, inr, All,
}
use pinsync.Base.Slash.{join_path}
use pinsync.Base.Slash.Laws.{IsPlain, join_path-injective}
use pinsync.Base.Text.{Text, split}
use pinsync.Manifest.Path.{Casing}
use pinsync.Manifest.Path.Laws.{IsPortable-IsPlain}
use pinsync.Manifest.Entry.{File, Manifest, manifest_name}
use pinsync.Manifest.Validate.Laws.{IsSound, IsValid}
use pinsync.Push.Key.{custom_key, resolve_manifest_key}

manifest_name-IsPlain : IsPlain manifest_name
unfolding split pinsync.Base.contains pinsync.Base.list_beq
manifest_name-IsPlain = record {
  segments = (record { no_slash = refl; not_empty = refl; not_dot = refl; not_dots = refl }, tt);
}

module _ (prefix : Text) where
  -- No content file has the key.
  abbrev pub IsApart : Text → List File → Type 0
  IsApart key = All (λ (f : File). join_path prefix f.path ≢ key)

  custom_key-IsApart :
      (custom key : Text) (fs : List File)
      → custom_key prefix custom fs ≡ ok key
      → (key ≡ custom) × IsApart custom fs
  unfolding custom_key
  custom_key-IsApart custom key [] h = (cc, tt)
  custom_key-IsApart custom key (f ∷ fs) h = elim (Bool-cases (join_path prefix f.path == custom)) [
    | inl e ↦ absurd (cc (rw e at h))
    | inr e ↦
        let rest = custom_key-IsApart custom key fs (rw e at h) in
        (
          rest.0,
          (λ same. absurd (cc (e, (eq_iff (join_path prefix f.path) custom).1 same)), rest.1),
        )
  ]

  default-IsApart :
      (casing : Casing) (fs : List File)
      → All (IsSound casing) fs
      → All (λ (f : File). f.path ≢ manifest_name) fs
      → IsApart (join_path prefix manifest_name) fs
  default-IsApart casing [] h k = tt
  default-IsApart casing (f ∷ fs) h k = (
    λ same. k.0 (
        join_path-injective prefix f.path manifest_name
          (IsPortable-IsPlain casing f.path h.0.portable) manifest_name-IsPlain same),
    default-IsApart casing fs h.1 k.1,
  )

  -- For a valid manifest without an entry of the reserved name, the key that is resolved is none of
  -- the content files': neither upload can overwrite the other.
  pub resolve_manifest_key-IsApart :
      (casing : Casing) (custom key : Text) (m : Manifest)
      → IsValid casing m
      → All (λ (f : File). f.path ≢ manifest_name) m.files
      → resolve_manifest_key prefix custom m.files ≡ ok key
      → IsApart key m.files
  unfolding resolve_manifest_key
  resolve_manifest_key-IsApart casing custom key m v k h = elim (Bool-cases (custom == [])) [
    | inl e ↦
        let default : ok (join_path prefix manifest_name) ≡ ok key = rw e at h in
        subst (λ k. IsApart k m.files) (cc default) (default-IsApart casing m.files v.sound k)
    | inr e ↦
        let rest = custom_key-IsApart custom key m.files (rw e at h) in
        subst (λ k. IsApart k m.files) (sym rest.0) rest.1
  ]
