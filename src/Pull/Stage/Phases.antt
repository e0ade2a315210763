-- ===== src/Pull/Stage/Phases.antt =====
-- `stage` of pkg/pull/stage.go: the whole staging tree, in two phases.
use pinsync.Base.{Bool, false, List, [], ◌∷◌, ◌||◌, if◌then◌else◌, Result, ok, err, map_err}
use pinsync.Base.Action.{Action, pure, lift, ◌>>=◌, ◌>>◌}
use pinsync.Base.Dict.{Dict}
use pinsync.Base.Text.{Text}
use pinsync.Manifest.Entry.{Manifest}
use pinsync.Manifest.Mode.{ModeError}
use pinsync.Store.{S3}
use pinsync.Pull.Classify.{LocalFile, ContentKey, Leftover}
use pinsync.Pull.Files.{Fs, Calls, FileError, failed, present, tick, make_dirs}
use pinsync.Pull.Jobs.{Job, Jobs, make_jobs}
use pinsync.Pull.Resume.Download.{World}
use pinsync.Pull.Resume.Prefix.{adopt_prefixes}
use pinsync.Pull.Write.{StageError, io}
use pinsync.Pull.Stage.{Counters, no_counts, Staging, stage_all}
use pinsync.Pull.Stage.Trees.{any_under, release_partial, clear_resume_dir}

pub data TreeError : Type 0 where
  bad_mode : ModeError → TreeError
  failed_at : StageError → TreeError

abbrev pub any_resume : List Job → Bool
any_resume [] = false
any_resume (j ∷ js) = j.resume || any_resume js

module _ (s3 : S3) where
  abbrev pub on_tree {ℓ} : {A : Type ℓ} → Action Fs FileError A → Action (Staging s3) StageError A
  on_tree m ((fs, st), c) = (map_err io (m fs).0, (((m fs).1, st), c))

  abbrev pub change_tree : (Fs → Fs) → Action (Staging s3) StageError (Unit {0})
  change_tree f ((fs, st), c) = (ok tt, ((f fs, st), c))

  module _ (os : Calls) (sha256_hex : Text → Text) (windows from_s3 : Bool)
      (dest tmp partial : Text) (index : Dict ContentKey Leftover)
      (fetch : Job → Text → Action (World s3) StageError Bool) where
    -- os.Mkdir of the staging tree, which must not be there.
    unfoldable pub make_tmp : Action Fs FileError (Unit {0})
    make_tmp s =
        if os.fails s.calls
        then (err (failed s.calls), tick s)
        else if any_under tmp s.names
        then (err (present tmp), tick s)
        else (ok tt, tick s)

    abbrev pub clear_after : List Job → Action (Staging s3) StageError (Unit {0})
    clear_after remote =
        if any_resume remote then on_tree (clear_resume_dir os tmp partial) else pure tt

    abbrev pub phase : List Job → Action (Staging s3) StageError (Unit {0})
    phase = stage_all s3 os sha256_hex windows dest tmp partial index fetch

    -- From the jobs on.
    unfoldable pub stage_jobs : Jobs → Action (Staging s3) StageError (Unit {0})
    unfolding make_tmp
    stage_jobs jobs =
        on_tree (make_dirs os)
        >> (on_tree make_tmp
            >> (phase jobs.local
                >> (change_tree (adopt_prefixes os partial tmp jobs.remote)
                    >> (on_tree (release_partial os partial)
                        >> (phase jobs.remote >> clear_after jobs.remote)))))

    abbrev pub counted :
        Result StageError (Unit {0}) × Staging s3 → Result TreeError Counters × World s3
    counted (ok _, (w, c)) = (ok c, w)
    counted (err e, (w, c)) = (err (failed_at e), w)

    unfoldable pub stage :
        (Text → Text → Bool) → Manifest → Dict Text LocalFile → Action (World s3) TreeError Counters
    stage equal_fold m live =
        lift (map_err bad_mode (make_jobs windows from_s3 live index equal_fold m)) >>= λ jobs w.
        counted (stage_jobs jobs (w, no_counts))
