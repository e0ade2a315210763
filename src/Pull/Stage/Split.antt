-- ===== src/Pull/Stage/Split.antt =====
-- How the jobs of a manifest divide into those on the disk and those to download (pkg/pull/stage.go).
use pinsync.Base.{
  Bool, false, ◌≡◌, refl, subst, List, [], ◌∷◌, ◌++◌, ℕ, ◌+◌, arith, ok, ◌&&◌, contains, length,
  length-append, >>=-eq-ok,
}
use pinsync.Base.Dict.{Dict}
use pinsync.Base.Text.{Text}
use pinsync.Manifest.Entry.{File, Manifest}
use pinsync.Pull.Classify.{
  LocalFile, ContentKey, Leftover, Act, download, copy, link, reuse, Slots, resume_slots, resumable,
  classify, wanted_key, key_eq,
}
use pinsync.Pull.DryRun.Agree.{is_reuse}
use pinsync.Pull.Jobs.{Job, Jobs, no_jobs, plain_job, live_content, add_job, add_jobs, make_jobs}
use pinsync.Pull.Stage.Counts.{is_download, is_kept, count}

-- The local jobs stage what is on the disk, and the remote ones download.
pub record IsSplit (n : ℕ) (jobs : Jobs) : Type 0 where
  pub local_downloads : count is_download jobs.local ≡ 0
  pub local_rest : count is_kept jobs.local + count is_reuse jobs.local ≡ length jobs.local
  pub remote_downloads : count is_download jobs.remote ≡ length jobs.remote
  pub remote_rest : count is_kept jobs.remote + count is_reuse jobs.remote ≡ 0
  pub entries : length jobs.local + length jobs.remote ≡ n

count-snoc :
    (test : Job → Bool) (js : List Job) (j : Job)
    → count test (js ++ (j ∷ [])) ≡ count test js + count test (j ∷ [])
count-snoc test [] j = omega arith
count-snoc test (k ∷ js) j = ground (arith, count-snoc test js j)

module _ (windows from_s3 : Bool) (live : Dict Text LocalFile)
    (index : Dict ContentKey Leftover) where
  IsSplit-local :
      (n : ℕ) (jobs : Jobs) (j : Job)
      → (count is_download (j ∷ []) ≡ 0)
      → (count is_kept (j ∷ []) + count is_reuse (j ∷ []) ≡ 1)
      → IsSplit n jobs
      → IsSplit (n + 1) (record jobs { local = jobs.local ++ (j ∷ []) })
  IsSplit-local n jobs j none_here one h = record {
    local_downloads =
        omega (arith, h.local_downloads, none_here, count-snoc is_download jobs.local j);
    local_rest = omega (
      arith,
      h.local_rest,
      one,
      count-snoc is_kept jobs.local j,
      count-snoc is_reuse jobs.local j,
      length-append jobs.local (j ∷ []),
    );
    remote_downloads = h.remote_downloads;
    remote_rest = h.remote_rest;
    entries = omega (arith, h.entries, length-append jobs.local (j ∷ []));
  }

  IsSplit-remote :
      (n : ℕ) (jobs : Jobs) (j : Job)
      → (count is_download (j ∷ []) ≡ 1)
      → (count is_kept (j ∷ []) + count is_reuse (j ∷ []) ≡ 0)
      → IsSplit n jobs
      → IsSplit (n + 1) (record jobs { remote = jobs.remote ++ (j ∷ []) })
  IsSplit-remote n jobs j one none_here h = record {
    local_downloads = h.local_downloads;
    local_rest = h.local_rest;
    remote_downloads = omega (
      arith,
      h.remote_downloads,
      one,
      count-snoc is_download jobs.remote j,
      length-append jobs.remote (j ∷ []),
    );
    remote_rest = omega (
      arith,
      h.remote_rest,
      none_here,
      count-snoc is_kept jobs.remote j,
      count-snoc is_reuse jobs.remote j,
    );
    entries = omega (arith, h.entries, length-append jobs.remote (j ∷ []));
  }

  IsSplit-add_job :
      (n : ℕ) (f : File) (act : Act) (mode : ℕ) (jobs : Jobs) (slots : Slots)
      → IsSplit n jobs
      → IsSplit (n + 1) (add_job windows from_s3 live index f act mode (jobs, slots)).0
  unfolding add_job
  IsSplit-add_job n f download mode jobs slots h =
      IsSplit-remote n jobs
        (plain_job windows from_s3 live index f download mode false
          (from_s3 && (resumable slots f).0))
        (omega arith) (omega arith) h
  IsSplit-add_job n f reuse mode jobs slots h =
      IsSplit-local n jobs
        (plain_job windows from_s3 live index f reuse mode
          (contains (live_content live) (wanted_key f)) false)
        (omega arith) (omega arith) h
  IsSplit-add_job n f copy mode jobs slots h =
      IsSplit-local n jobs (plain_job windows from_s3 live index f copy mode false false)
        (omega arith) (omega arith) h
  IsSplit-add_job n f link mode jobs slots h =
      IsSplit-local n jobs (plain_job windows from_s3 live index f link mode false false)
        (omega arith) (omega arith) h

  IsSplit-add_jobs :
      (fs : List File) (n : ℕ) (made done : Jobs × Slots)
      → IsSplit n made.0
      → add_jobs windows from_s3 live index fs made ≡ ok done
      → IsSplit (n + length fs) done.0
  unfolding add_jobs
  IsSplit-add_jobs [] n made done h e =
      let same : made ≡ done = cc in
      let count : n ≡ n + 0 = omega arith in
      subst (λ k. IsSplit k done.0) count (subst (λ q. IsSplit n q.0) same h)
  IsSplit-add_jobs (f ∷ fs) n made done h e =
      let (decided, _, rest) =
        >>=-eq-ok (classify windows f live index)
          (λ d.
            add_jobs windows from_s3 live index fs
              (add_job windows from_s3 live index f d.0 d.1 made))
          done e in
      let count : n + 1 + length fs ≡ n + length (f ∷ fs) = omega arith in
      subst (λ k. IsSplit k done.0) count
        (IsSplit-add_jobs fs (n + 1) (add_job windows from_s3 live index f decided.0 decided.1 made)
          done (IsSplit-add_job n f decided.0 decided.1 made.0 made.1 h) rest)

  pub make_jobs-IsSplit :
      (equal_fold : Text → Text → Bool) (m : Manifest) (jobs : Jobs)
      → make_jobs windows from_s3 live index equal_fold m ≡ ok jobs
      → IsSplit (length m.files) jobs
  unfolding make_jobs
  make_jobs-IsSplit equal_fold m jobs e =
      let (made, run, last) =
        >>=-eq-ok
          (add_jobs windows from_s3 live index m.files (no_jobs, resume_slots equal_fold m.files))
          (λ (n : Jobs × Slots). ok n.0) jobs e in
      let same : made.0 ≡ jobs = cc in
      let count : 0 + length m.files ≡ length m.files = omega arith in
      subst (λ q. IsSplit (length m.files) q) same
        (subst (λ k. IsSplit k made.0) count
          (IsSplit-add_jobs m.files 0 (no_jobs, resume_slots equal_fold m.files) made
            (record {
              local_downloads = refl;
              local_rest = omega arith;
              remote_downloads = refl;
              remote_rest = omega arith;
              entries = omega arith;
            })
            run))
