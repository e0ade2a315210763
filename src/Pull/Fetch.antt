-- ===== src/Pull/Fetch.antt =====
-- `checkContentSize` and `fetchManifest` of pkg/pull/pull.go.
pub mod Laws
use pinsync.Base.{
  Bool, true, false, ◌≡◌, ◌↔◌, refl, sym, ap, ◌∙◌, List, [], ◌∷◌, ℕ, ◌+◌, ◌-◌, ◌≤◌, arith,
  if◌then◌else◌, Result, ok, err, ◌==◌, nat_eq, list_eq, length, take, leb, ◌&&◌, Bool-cases, inl,
  inr, All,
}
use pinsync.Base.Int.{ℤ, pos, negsuc, pos_part, neg_part, sub_ℕ, ◌+ℤ◌, ◌-ℤ◌, ltb_ℤ, ◌≤ℤ◌}
use pinsync.Base.Action.{Action}
use pinsync.Base.Slash.{join_path}
use pinsync.Base.Text.{Text}
use pinsync.Manifest.Path.{Casing}
use pinsync.Manifest.Entry.{File, Manifest, manifest_name}
use pinsync.Manifest.Codec.{Json, DecodeError, decode}
use pinsync.Store.{S3, ApiError, Body, GetOutput, whole_object}

pub data FetchError : Type 0 where
  content_too_large : ℤ → FetchError
  get_failed : Text → ApiError → FetchError
  read_failed : Text → FetchError
  manifest_too_large : Text → ℕ → FetchError
  not_decoded : DecodeError → FetchError

-- The loop of `checkContentSize` with the total so far.
unfoldable pub check_sizes : ℤ → ℤ → List File → Result FetchError (Unit {0})
check_sizes max total [] = ok tt
check_sizes max total (f ∷ fs) =
    let rest = check_sizes max (total +ℤ f.size) fs in
    if ltb_ℤ (max -ℤ total) f.size then err (content_too_large max) else rest

unfoldable pub check_content_size : ℤ → Manifest → Result FetchError (Unit {0})
check_content_size max m = check_sizes max (pos 0) m.files

-- Reading one byte more than the limit: a body that is longer is not read to where it breaks.
abbrev pub decoded : Json → Casing → Text → Text → Result FetchError (Text × Manifest)
decoded json casing key raw = elim (decode json casing raw) [
  | ok m ↦ ok (raw, m)
  | err e ↦ err (not_decoded e)
]

unfoldable pub read_manifest :
    Json → Casing → ℕ → Text → Result ApiError GetOutput → Result FetchError (Text × Manifest)
read_manifest json casing max key (err e) = err (get_failed key e)
read_manifest json casing max key (ok out) =
    let raw = take (max + 1) out.body.bytes in
    if out.body.broken && leb (length out.body.bytes) max
    then err (read_failed key)
    else if leb (length raw) max
    then decoded json casing key raw
    else err (manifest_too_large key max)

module _ (json : Json) (casing : Casing) (s3 : S3) where
  unfoldable pub fetch_manifest : ℕ → Text → Text → Action s3.State FetchError (Text × Manifest)
  fetch_manifest max prefix custom s =
      let key = if custom == [] then join_path prefix manifest_name else custom in
      let (r, s') = s3.get_object (whole_object key) s in (read_manifest json casing max key r, s')
