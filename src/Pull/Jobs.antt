-- ===== src/Pull/Jobs.antt =====
-- The jobs that `stage` of pkg/pull/stage.go makes of a manifest before it touches the disk.
use pinsync.Base.{
  Bool, false, ◌&&◌, List, [], ◌∷◌, ◌++◌, none, some, Option, ℕ, if◌then◌else◌, Result, ok, ◌>>=◌,
  nat_eq, list_eq, contains,
}
use pinsync.Base.Dict.{Dict, get}
use pinsync.Base.Text.{Text}
use pinsync.Manifest.Entry.{File, Manifest}
use pinsync.Manifest.Mode.{ModeError}
use pinsync.Pull.Classify.{
  LocalFile, ContentKey, Leftover, key_eq, key_of, Act, download, copy, link, reuse, wanted_key,
  classify, Slots, resume_slots, resumable,
}

pub record Job : Type 0 where
  pub file : File
  pub act : Act
  pub mode : ℕ
  pub live : ℕ
  pub in_live : Bool
  pub resume : Bool

-- Entries already on disk, and entries to download.
pub record Jobs : Type 0 where
  pub local : List Job
  pub remote : List Job

abbrev pub no_jobs : Jobs
no_jobs = record { local = []; remote = [] }

-- live[f.Path].mode
abbrev pub live_mode : Option LocalFile → ℕ
live_mode none = 0
live_mode (some lf) = lf.mode

-- The keys of the map `liveContent`.
unfoldable pub live_content : Dict Text LocalFile → List ContentKey
live_content [] = []
live_content ((p, lf) ∷ live) = key_of lf ∷ live_content live

-- `from_s3` where `s.client != nil`: the function of the slots is not called otherwise.
module _ (windows from_s3 : Bool) (live : Dict Text LocalFile)
    (index : Dict ContentKey Leftover) where
  abbrev pub plain_job : File → Act → ℕ → Bool → Bool → Job
  plain_job f act mode in_live resume = record {
    file = f;
    act = act;
    mode = mode;
    live = live_mode (get live f.path);
    in_live = in_live;
    resume = resume;
  }

  -- One turn of the loop, with the slots claimed so far.
  unfoldable pub add_job : File → Act → ℕ → Jobs × Slots → Jobs × Slots
  add_job f download mode (jobs, slots) =
      let (free, next) = resumable slots f in
      let job = plain_job f download mode false (from_s3 && free) in
      (record jobs { remote = jobs.remote ++ (job ∷ []) }, if from_s3 then next else slots)
  add_job f reuse mode (jobs, slots) =
      let job = plain_job f reuse mode (contains (live_content live) (wanted_key f)) false in
      (record jobs { local = jobs.local ++ (job ∷ []) }, slots)
  add_job f copy mode (jobs, slots) =
      (record jobs { local = jobs.local ++ (plain_job f copy mode false false ∷ []) }, slots)
  add_job f link mode (jobs, slots) =
      (record jobs { local = jobs.local ++ (plain_job f link mode false false ∷ []) }, slots)

  unfoldable pub add_jobs : List File → Jobs × Slots → Result ModeError (Jobs × Slots)
  unfolding add_job
  add_jobs [] made = ok made
  add_jobs (f ∷ fs) made = do
    decided ← classify windows f live index
    add_jobs fs (add_job f decided.0 decided.1 made)

  unfoldable pub make_jobs : (Text → Text → Bool) → Manifest → Result ModeError Jobs
  unfolding add_jobs
  make_jobs equal_fold m = do
    made ← add_jobs m.files (no_jobs, resume_slots equal_fold m.files)
    ok (made.0)
