-- ===== src/Pull/DryRun.antt =====
-- `DryRun` of pkg/pull/dryrun.go, with `hashPartial` of pull.go: the preview of a pull.
pub mod Agree
pub mod Laws
use pinsync.Base.{
  Bool, true, false, not, ◌&&◌, List, [], ◌∷◌, ◌++◌, map, Option, none, some, ℕ, ◌+◌, if◌then◌else◌,
  Result, ok, err, ◌>>=◌, map_err, nat_eq, list_eq, contains, length,
}
use pinsync.Base.Action.{Action, lift}
use pinsync.Base.Dict.{Dict, keys}
use pinsync.Base.Int.{pos_part}
use pinsync.Base.Sort.{sort}
use pinsync.Base.Text.{Text, lit, text_lt, trim_suffix}
use pinsync.Manifest.Entry.{File, Manifest}
use pinsync.Manifest.Mode.{ModeError}
use pinsync.Manifest.Path.{Casing}
use pinsync.Manifest.Codec.{Json}
use pinsync.Store.{S3}
use pinsync.Pull.Classify.{
  LocalFile, ContentKey, Leftover, Act, download, copy, link, reuse, TreeVisit, HashError,
  hash_tree, by_content, classify, resume_dir, Slots, resume_slots, resumable,
}
use pinsync.Pull.Fetch.{FetchError, fetch_manifest}
use pinsync.Pull.Options.{Options, Syncer, OptionsError, new_syncer}

pub record Plan : Type 0 where
  pub download : List Text
  pub copy : List Text
  pub remove : List Text
  pub linked : ℕ
  pub reused : ℕ
  pub resumed : ℕ
  pub total : ℕ

pub data PlanError : Type 0 where
  bad_options : OptionsError → PlanError
  not_fetched : FetchError → PlanError
  not_hashed : HashError → PlanError
  bad_mode : ModeError → PlanError

abbrev pub empty_plan : ℕ → Plan
empty_plan n = record {
  download = [];
  copy = [];
  remove = [];
  linked = 0;
  reused = 0;
  resumed = 0;
  total = n;
}

-- A partial tree that cannot be read counts as empty.
unfoldable pub partial_index : Result HashError (Dict Text LocalFile) → Dict ContentKey Leftover
partial_index (ok files) = by_content files
partial_index (err e) = []

-- The paths of the live tree that the manifest lacks.
unfoldable pub removed : List Text → List Text → List Text
removed wanted [] = []
removed wanted (p ∷ live) =
    let rest = removed wanted live in if contains wanted p then rest else p ∷ rest

abbrev pub paths_of : List File → List Text
paths_of = map (λ (f : File). f.path)

abbrev pub sort_paths : Plan → Plan
sort_paths p = record p {
  download = sort text_lt p.download;
  copy = sort text_lt p.copy;
  remove = sort text_lt p.remove;
}

-- `kept` is what `inspect` reports of a content's prefix in the partial tree, which stays as it is.
module _ (windows : Bool) (kept : File → Bool) where
  -- One turn of the loop, with the slots claimed so far.
  unfoldable pub note_entry : File → Act → Plan × Slots → Plan × Slots
  note_entry f download (p, slots) =
      let (free, next) = resumable slots f in
      let more : Plan = record p { download = p.download ++ (f.path ∷ []) } in
      (if free && kept f then record more { resumed = p.resumed + 1 } else more, next)
  note_entry f reuse (p, slots) =
      (record p { download = p.download ++ (f.path ∷ []); reused = p.reused + 1 }, slots)
  note_entry f copy (p, slots) = (record p { copy = p.copy ++ (f.path ∷ []) }, slots)
  note_entry f link (p, slots) = (record p { linked = p.linked + 1 }, slots)

  unfoldable pub note_entries :
      Dict Text LocalFile
      → Dict ContentKey Leftover
      → List File
      → Plan × Slots
      → Result ModeError (Plan × Slots)
  unfolding note_entry
  note_entries live index [] noted = ok noted
  note_entries live index (f ∷ fs) noted = do
    decided ← classify windows f live index
    note_entries live index fs (note_entry f decided.0 noted)

  unfoldable pub plan_files :
      (Text → Text → Bool)
      → Dict Text LocalFile
      → Dict ContentKey Leftover
      → Manifest
      → Result ModeError Plan
  unfolding note_entries
  plan_files equal_fold live index m = do
    noted ←
        note_entries live index m.files
          (empty_plan (length m.files), resume_slots equal_fold m.files)
    ok (sort_paths (record noted.0 { remove = removed (paths_of m.files) (keys live) }))

  module _ (json : Json) (casing : Casing) (s3 : S3) (sha256_hex : Text → Text) where
    -- After the manifest is fetched, from what walking the two trees gives.
    unfoldable pub plan_trees :
        (Text → Text → Bool) → List TreeVisit → List TreeVisit → Manifest → Result PlanError Plan
    plan_trees equal_fold live_tree partial_tree m = do
      live ← map_err not_hashed (hash_tree sha256_hex (lit "") live_tree)
      let index = partial_index (hash_tree sha256_hex resume_dir partial_tree) in
          map_err bad_mode (plan_files equal_fold live index m)

    abbrev pub fetched :
        (Text → Text → Bool)
        → List TreeVisit
        → List TreeVisit
        → Result FetchError (Text × Manifest)
        → Result PlanError Plan
    fetched equal_fold live_tree partial_tree (err e) = err (not_fetched e)
    fetched equal_fold live_tree partial_tree (ok (raw, m)) =
        plan_trees equal_fold live_tree partial_tree m

    unfoldable pub dry_run :
        (Text → Text → Bool)
        → List TreeVisit
        → List TreeVisit
        → Text
        → Text
        → Options
        → Action s3.State PlanError Plan
    dry_run equal_fold live_tree partial_tree prefix dest opts s = elim (new_syncer dest opts) [
      | err e ↦ (err (bad_options e), s)
      | ok y ↦
          let (r, s') =
            fetch_manifest json casing s3 (pos_part y.max_manifest) (trim_suffix prefix b'/')
              y.manifest_key s in
          (fetched equal_fold live_tree partial_tree r, s')
    ]
