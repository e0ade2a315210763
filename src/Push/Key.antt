-- ===== src/Push/Key.antt =====
-- `resolveManifestKey` of pkg/push/push.go: a manifest key that no content file has.
pub mod Laws
use pinsync.Base.{
  Bool, true, false, not, ◌≡◌, ◌≢◌, refl, sym, ap, ◌∙◌, List, [], ◌∷◌, arith, if◌then◌else◌, Result,
  ok, err, ◌==◌, eq_iff, nat_eq, list_eq, Bool-cases, inl, inr, All,
}
use pinsync.Base.Slash.{join_path}
use pinsync.Base.Slash.Laws.{IsPlain, join_path-injective}
use pinsync.Base.Text.{Text}
use pinsync.Manifest.Entry.{File, manifest_name}

-- A key that collides with a content file.
pub data KeyError : Type 0 where
  key_collision : Text → KeyError

-- The loop over the content files.
unfoldable pub custom_key : Text → Text → List File → Result KeyError Text
custom_key prefix custom [] = ok custom
custom_key prefix custom (f ∷ fs) =
    let rest = custom_key prefix custom fs in
    if join_path prefix f.path == custom then err (key_collision custom) else rest

unfoldable pub resolve_manifest_key : Text → Text → List File → Result KeyError Text
unfolding custom_key
resolve_manifest_key prefix custom files =
    if custom == [] then ok (join_path prefix manifest_name) else custom_key prefix custom files
