-- ===== src/Push/Diff.antt =====
-- `diffRemote` and `remoteManifest` of pkg/push/push.go: which files a push uploads.
pub mod Laws
pub mod Choice
use pinsync.Base.{
  Bool, true, false, List, [], ◌∷◌, ◌++◌, Option, none, some, ℕ, ◌+◌, if◌then◌else◌, Result, ok,
  err, ◌==◌, nat_eq, list_eq,
}
use pinsync.Base.Action.{Action, pure, ◌>>=◌}
use pinsync.Base.Dict.{Dict, get, put, erase, keys}
use pinsync.Base.Sort.{sort}
use pinsync.Base.Text.{Text, text_lt}
use pinsync.Manifest.Path.{Casing}
use pinsync.Manifest.Entry.{File, Manifest}
use pinsync.Manifest.Codec.{Json, encode, decode}
use pinsync.Store.{S3, ApiError, GetOutput, whole_object}
use pinsync.Push.Verify.{
  PushError, remote_fetch_failed, remote_malformed, Reason, Digests, verify_objects,
}

pub record Diff : Type 0 where
  pub upload : List File
  pub repair : List Text
  pub orphan : List Text
  pub verified : ℕ
  pub same_manifest : Bool

-- The map `remote`: a later entry of a path replaces an earlier one.
unfoldable pub remote_sums : Dict Text Text → List File → Dict Text Text
remote_sums remote [] = remote
remote_sums remote (f ∷ fs) = remote_sums (put remote f.path f.sha256) fs

abbrev pub or_empty : Option Text → Text
or_empty none = []
or_empty (some t) = t

-- The variables of the loop over the local files.
pub record Sorted : Type 0 where
  pub candidates : List File
  pub upload : List File
  pub remote : Dict Text Text

unfoldable pub sort_out : Sorted → List File → Sorted
sort_out v [] = v
sort_out v (f ∷ fs) =
    let same = or_empty (get v.remote f.path) == f.sha256 in
    sort_out
      (record {
        candidates = if same then v.candidates ++ (f ∷ []) else v.candidates;
        upload = if same then v.upload else v.upload ++ (f ∷ []);
        remote = erase v.remote f.path;
      })
      fs

-- The loop over the verdicts.
unfoldable pub apply_verdicts : Diff → List File → List (Option Reason) → Diff
apply_verdicts d [] vs = d
apply_verdicts d (f ∷ fs) [] = d
apply_verdicts d (f ∷ fs) (none ∷ vs) =
    apply_verdicts (record d { verified = d.verified + 1 }) fs vs
apply_verdicts d (f ∷ fs) (some r ∷ vs) =
    apply_verdicts (record d { upload = d.upload ++ (f ∷ []); repair = d.repair ++ (f.path ∷ []) })
      fs vs

abbrev pub sort_repairs : Diff → Diff
sort_repairs d = record d { repair = sort text_lt d.repair }

module _ (json : Json) where
  abbrev pub same_as : Text → Option Manifest → Bool
  same_as bytes none = false
  same_as bytes (some rm) = bytes == encode json rm

  abbrev pub files_in : Option Manifest → List File
  files_in none = []
  files_in (some rm) = rm.files

  unfoldable pub sorted_out : Option Manifest → List File → Sorted
  sorted_out rm files =
      sort_out (record { candidates = []; upload = []; remote = remote_sums [] (files_in rm) })
        files

  -- The result before the verdicts.
  abbrev pub unverified : Text → Option Manifest → List File → Diff
  unverified bytes rm files = record {
    upload = (sorted_out rm files).upload;
    repair = [];
    orphan = sort text_lt (keys (sorted_out rm files).remote);
    verified = 0;
    same_manifest = same_as bytes rm;
  }

  module _ (casing : Casing) (digests : Digests) (s3 : S3) where
    abbrev read_remote : Text → Result ApiError GetOutput → Result PushError (Option Manifest)
    read_remote key (err e) = if e.no_such_key then ok none else err (remote_fetch_failed key e)
    read_remote key (ok out) = elim (decode json casing out.body.bytes) [
      | ok m ↦ ok (some m)
      | err e ↦ err (remote_malformed key e)
    ]

    unfoldable pub remote_manifest : Text → Action s3.State PushError (Option Manifest)
    remote_manifest key s =
        let (r, s') = s3.get_object (whole_object key) s in (read_remote key r, s')

    unfoldable pub diff_remote : Text → Text → Text → List File → Action s3.State PushError Diff
    diff_remote prefix key bytes files = remote_manifest key >>= λ rm.
        verify_objects digests s3 prefix (sorted_out rm files).candidates >>= λ vs. pure (
          sort_repairs
            (apply_verdicts (unverified bytes rm files) (sorted_out rm files).candidates vs))
