-- ===== src/Push/Diff/Choice.antt =====
-- Which files a push uploads (`diffRemote` of pkg/push/push.go), by the published manifest and the
-- verdicts on the objects.
use pinsync.Base.{
  Bool, false, not, ◌≡◌, List, [], ◌∷◌, ◌++◌, map, Option, none, some, ◌+◌, if◌then◌else◌, ok, ◌==◌,
  nat_eq, list_eq, length, All,
}
use pinsync.Base.Dict.{Dict, get, erase}
use pinsync.Base.Sort.{sort}
use pinsync.Base.Text.{Text, text_lt}
use pinsync.Manifest.Path.{Casing}
use pinsync.Manifest.Entry.{File, Manifest}
use pinsync.Manifest.Codec.{Json}
use pinsync.Store.{S3}
use pinsync.Push.Verify.{Reason, Digests, verify_objects}
use pinsync.Push.Diff.{or_empty, remote_sums, files_in, same_as, Diff, Sorted, remote_manifest}

-- The files that pass a test, in order.
abbrev pub passing : (File → Bool) → List File → List File
passing test [] = []
passing test (f ∷ fs) = let rest = passing test fs in if test f then f ∷ rest else rest

-- The published manifest has the file's content under its path.
abbrev pub is_published : Dict Text Text → File → Bool
is_published remote f = or_empty (get remote f.path) == f.sha256

abbrev pub is_changed : Dict Text Text → File → Bool
is_changed remote f = not (is_published remote f)

-- No path twice.
abbrev pub IsDistinct : List File → Type 0
IsDistinct [] = Unit {0}
IsDistinct (f ∷ fs) = All (λ (g : File). (f.path == g.path) ≡ false) fs × IsDistinct fs

-- The files whose object was found wanting.
abbrev pub refuted : List File → List (Option Reason) → List File
refuted [] vs = []
refuted (f ∷ fs) [] = []
refuted (f ∷ fs) (none ∷ vs) = refuted fs vs
refuted (f ∷ fs) (some r ∷ vs) = f ∷ refuted fs vs

abbrev pub paths : List File → List Text
paths = map (λ (f : File). f.path)

abbrev SameFor : Dict Text Text → Dict Text Text → List File → Type 0
SameFor left remote = All (λ (g : File). get left g.path ≡ get remote g.path)

-- One turn of the loop, by whether the file is published.
abbrev turned : Sorted → File → Bool → Sorted
turned v f same = record {
  candidates = if same then v.candidates ++ (f ∷ []) else v.candidates;
  upload = if same then v.upload else v.upload ++ (f ∷ []);
  remote = erase v.remote f.path;
}

abbrev Passes : Sorted → Sorted → Dict Text Text → List File → Type 0
Passes v w remote fs =
    (w.candidates ≡ v.candidates ++ passing (is_published remote) fs)
    × (w.upload ≡ v.upload ++ passing (is_changed remote) fs)

module _ (json : Json) (casing : Casing) (digests : Digests) (s3 : S3) where
  -- What the code decides of the local files, from the published manifest and the verdicts on the
  -- objects of the files that it has.
  pub record Chooses (prefix key bytes : Text) (files : List File) (s : s3.State) (d : Diff)
      : Type 0 where
    pub published : Option Manifest
    pub fetched : (remote_manifest json casing digests s3 key s).0 ≡ ok published
    pub verdicts : List (Option Reason)
    pub verified :
        (verify_objects digests s3 prefix
          (passing (is_published (remote_sums [] (files_in json published))) files)
          (remote_manifest json casing digests s3 key s).1).0
        ≡ ok verdicts
    pub one_each :
        length verdicts
        ≡ length (passing (is_published (remote_sums [] (files_in json published))) files)
    pub uploads :
        d.upload
        ≡ passing (is_changed (remote_sums [] (files_in json published))) files
          ++ refuted
              (passing (is_published (remote_sums [] (files_in json published))) files)
              verdicts
    pub repairs :
        d.repair
        ≡ sort text_lt (
            paths (
              refuted
                (passing (is_published (remote_sums [] (files_in json published))) files)
                verdicts))
    pub counted :
        d.verified
          + length (
              refuted
                (passing (is_published (remote_sums [] (files_in json published))) files)
                verdicts)
        ≡ length (passing (is_published (remote_sums [] (files_in json published))) files)
    pub same_bytes : d.same_manifest ≡ same_as json bytes published
