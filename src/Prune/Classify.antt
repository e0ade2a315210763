-- ===== src/Prune/Classify.antt =====
-- `classify` of pkg/prune/prune.go: which listed objects are kept and which may go.
use pinsync.Base.{
  Bool, false, List, [], ◌∷◌, ◌++◌, map, none, some, ℕ, ◌+◌, if◌then◌else◌, Result, ok, err, ◌==◌,
  nat_eq, list_eq, contains,
}
use pinsync.Base.Int.{ℤ, ◌-ℤ◌, ltb_ℤ}
use pinsync.Base.Action.{Action, ◌>>=◌}
use pinsync.Base.Slash.{join_path, slash}
use pinsync.Base.Sort.{sort}
use pinsync.Base.Text.{Text, text_lt, trim_suffix}
use pinsync.Manifest.Path.{Casing}
use pinsync.Manifest.Entry.{File, Manifest, manifest_name}
use pinsync.Manifest.Codec.{Json, DecodeError, decode}
use pinsync.Store.{S3, ApiError, GetOutput, Object, whole_object}

-- `manifest_key` empty means <prefix>/manifest.json; `min_age` is in nanoseconds.
pub record Options : Type 0 where
  pub manifest_key : Text
  pub min_age : ℤ

pub data PruneError : Type 0 where
  no_manifest : Text → PruneError
  fetch_failed : Text → ApiError → PruneError
  bad_manifest : Text → DecodeError → PruneError
  list_failed : ApiError → PruneError
  delete_failed : ApiError → PruneError
  keys_failed : List Text → PruneError

-- The result variables of `classify`.
pub record Tally : Type 0 where
  pub delete : List Text
  pub protected : ℕ
  pub referenced : ℕ
  pub listed : ℕ

abbrev pub no_objects : Tally
no_objects = record { delete = []; protected = 0; referenced = 0; listed = 0 }

-- manifestKey
unfoldable pub manifest_key : Text → Text → Text
manifest_key prefix custom = if custom == [] then join_path prefix manifest_name else custom

-- obj.LastModified != nil && obj.LastModified.After(cutoff)
unfoldable pub is_young : ℤ → Object → Bool
is_young cutoff o = elim o.modified [ none ↦ false | some t ↦ ltb_ℤ cutoff t ]

-- The keys of the map `keep`.
unfoldable pub keep_set : Text → Text → List File → List Text
keep_set prefix key files = key ∷ map (λ (f : File). join_path prefix f.path) files

module _ (keep : List Text) (cutoff : ℤ) where
  -- The body of the loop over one page.
  unfoldable pub tally_object : Tally → Object → Tally
  tally_object t o =
      if contains keep o.key
      then record t { listed = t.listed + 1; referenced = t.referenced + 1 }
      else if is_young cutoff o
      then record t { listed = t.listed + 1; protected = t.protected + 1 }
      else record t { listed = t.listed + 1; delete = t.delete ++ (o.key ∷ []) }

  unfoldable pub tally_page : Tally → List Object → Tally
  tally_page t [] = t
  tally_page t (o ∷ os) = tally_page (tally_object t o) os

  -- The loop over the pages.
  unfoldable pub tally_pages :
      Tally → List (Result ApiError (List Object)) → Result PruneError Tally
  tally_pages t [] = ok t
  tally_pages t (err e ∷ pages) = err (list_failed e)
  tally_pages t (ok page ∷ pages) = tally_pages (tally_page t page) pages

abbrev pub list_prefix : Text → Text
list_prefix prefix = if prefix == [] then [] else prefix ++ slash

-- slices.Sort(del)
abbrev pub sort_keys : Tally → Tally
sort_keys t = record t { delete = sort text_lt t.delete }

unfoldable pub sorted_tally : Result PruneError Tally → Result PruneError Tally
sorted_tally (ok t) = ok (sort_keys t)
sorted_tally (err e) = err e

module _ (s3 : S3) (casing : Casing) (json : Json) where
  -- fetchManifest
  abbrev pub fetched : Text → Result ApiError GetOutput → Result PruneError Manifest
  fetched key (err e) = err (if e.no_such_key then no_manifest key else fetch_failed key e)
  fetched key (ok out) = elim (decode json casing out.body.bytes) [
    | ok m ↦ ok m
    | err e ↦ err (bad_manifest key e)
  ]

  unfoldable pub fetch_manifest : Text → Action s3.State PruneError Manifest
  fetch_manifest key s = let (r, s') = s3.get_object (whole_object key) s in (fetched key r, s')

  -- The listing after the manifest is at hand; `now` is the clock's reading.
  unfoldable pub classify_listing :
      Text → Text → Options → ℤ → Manifest → Action s3.State PruneError Tally
  classify_listing prefix key opts now m s =
      let (pages, s') = s3.list_pages (list_prefix prefix) s in
      (
        sorted_tally
            (tally_pages (keep_set prefix key m.files) (now -ℤ opts.min_age) no_objects pages),
        s',
      )

  unfoldable pub classify : Text → Options → ℤ → Action s3.State PruneError Tally
  classify raw_prefix opts now =
      let prefix = trim_suffix raw_prefix b'/' in
      let key = manifest_key prefix opts.manifest_key in
      fetch_manifest key >>= λ m. classify_listing prefix key opts now m
