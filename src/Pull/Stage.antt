-- ===== src/Pull/Stage.antt =====
-- `stageEntry` and `stageAll` of pkg/pull/stage.go. The jobs of a phase run
-- one after the other, as with one worker; like the group's workers, they all run whether one of
-- them failed or not.
pub mod Trees
pub mod Phases
pub mod Counts
pub mod Split
pub mod Stats
pub mod Safety
use pinsync.Base.{
  Bool, true, false, not, ◌&&◌, ◌||◌, List, [], ◌∷◌, ◌++◌, Option, none, some, ℕ, ◌+◌,
  if◌then◌else◌, Result, ok, err, map_err, ◌==◌, nat_eq, list_eq, contains, length,
}
use pinsync.Base.Action.{Action, pure, fail, lift, on_err, ◌>>=◌, ◌>>◌}
use pinsync.Base.Dict.{Dict, get, erase}
use pinsync.Base.Slash.{join_path}
use pinsync.Base.Text.{Text, lit, has_prefix}
use pinsync.Manifest.Entry.{File, Manifest}
use pinsync.Store.{S3}
use pinsync.Pull.Classify.{
  ContentKey, Leftover, key_eq, Act, download, copy, link, reuse, wanted_key, resume_dir,
}
use pinsync.Pull.Files.{Fs, Calls, FileError, failed, tick, has_name, make_dirs, rename, remove}
use pinsync.Pull.Jobs.{Job, Jobs}
use pinsync.Pull.Resume.Download.{World, on_files}
use pinsync.Pull.Resume.Prefix.{adopt_prefixes}
use pinsync.Pull.Write.{StageError, io, stale_staging, link_or_copy, read_only_on_windows}

-- `taken` holds the leftovers' paths already linked.
pub record Counters : Type 0 where
  pub downloaded : ℕ
  pub linked : ℕ
  pub copied : ℕ
  pub reused : ℕ
  pub resumed : ℕ
  pub taken : List Text

abbrev pub no_counts : Counters
no_counts = record { downloaded = 0; linked = 0; copied = 0; reused = 0; resumed = 0; taken = [] }

abbrev pub Staging : S3 → Type 0
Staging s3 = World s3 × Counters

-- The leftover of an index, its zero value where there is none.
abbrev pub leftover_in : Option Leftover → Leftover
leftover_in none = record { path = []; mode = 0 }
leftover_in (some lo) = lo

abbrev pub count_download : Bool → Counters → Counters
count_download resumed c =
    let more : Counters = record c { downloaded = c.downloaded + 1 } in
    if resumed then record more { resumed = c.resumed + 1 } else more

abbrev pub count_local : Bool → Counters → Counters
count_local linked c =
    if linked then record c { linked = c.linked + 1 } else record c { copied = c.copied + 1 }

-- goos != "windows" && lo.mode != j.mode
abbrev pub other_mode : Bool → Leftover → Job → Bool
other_mode windows lo j = not windows && not (lo.mode == j.mode)

-- The first error of a group is the group's.
abbrev pub first_error :
    Result StageError (Unit {0}) → Result StageError (Unit {0}) → Result StageError (Unit {0})
first_error (err e) r = err e
first_error (ok _) r = r

module _ (s3 : S3) where
  abbrev pub noted :
      {A : Type 0}
      → (A → Counters → Counters)
      → Counters
      → Result StageError A × World s3
      → Result StageError (Unit {0}) × Staging s3
  noted note c (ok a, w) = (ok tt, (w, note a c))
  noted note c (err e, w) = (err e, (w, c))

  -- A call that leaves the counters alone, and what it counts when it succeeds.
  abbrev pub counting :
      {A : Type 0}
      → (A → Counters → Counters)
      → Action (World s3) StageError A
      → Action (Staging s3) StageError (Unit {0})
  counting note m (w, c) = noted note c (m w)

  abbrev pub stage_local :
      Calls → (Text → Text) → Bool → Text → Job → Text → Bool → Action (World s3) StageError Bool
  stage_local os sha256_hex windows tmp j src copy_only =
      on_files s3
        (link_or_copy os sha256_hex windows src j.file j.mode (join_path tmp j.file.path) copy_only)

  module _ (os : Calls) (sha256_hex : Text → Text) (windows : Bool) (dest tmp partial : Text)
      (index : Dict ContentKey Leftover)
      (fetch : Job → Text → Action (World s3) StageError Bool) where
    unfoldable pub stage_reuse : Job → Action (Staging s3) StageError (Unit {0})
    stage_reuse j (w, c) =
        let lo = leftover_in (get index (wanted_key j.file)) in
        let copy_only =
          contains c.taken lo.path
          || j.in_live
          || other_mode windows lo j
          || read_only_on_windows windows lo.mode in
        counting (λ linked n. record n { reused = n.reused + 1 })
          (stage_local os sha256_hex windows tmp j (join_path partial lo.path) copy_only)
          (w, record c { taken = lo.path ∷ c.taken })

    -- The switch of `stageEntry`.
    unfoldable pub stage_act : Act → Job → Action (Staging s3) StageError (Unit {0})
    unfolding stage_reuse
    stage_act download j = counting count_download (fetch j (join_path tmp j.file.path))
    stage_act reuse j = stage_reuse j
    stage_act copy j =
        counting count_local
          (stage_local os sha256_hex windows tmp j (join_path dest j.file.path) true)
    stage_act link j = counting count_local (
        stage_local os sha256_hex windows tmp j (join_path dest j.file.path)
          (read_only_on_windows windows j.live))

    unfoldable pub stage_entry : Job → Action (Staging s3) StageError (Unit {0})
    unfolding stage_act
    stage_entry j =
        counting (λ _ c. c) (on_files s3 (on_err io (make_dirs os))) >> stage_act j.act j

    unfoldable pub stage_all : List Job → Action (Staging s3) StageError (Unit {0})
    unfolding stage_entry
    stage_all [] s = (ok tt, s)
    stage_all (j ∷ js) s =
        let (r, s') = stage_entry j s in
        let (rest, s'') = stage_all js s' in (first_error r rest, s'')
