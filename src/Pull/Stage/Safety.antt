-- ===== src/Pull/Stage/Safety.antt =====
-- Staging writes to no file that was on the disk before it (pkg/pull/stage.go).
use pinsync.Base.{
  Bool, true, false, ◌||◌, ◌≡◌, List, [], ◌∷◌, ◌+◌, if◌then◌else◌, Result, ok, err, map_err, ◌==◌,
  nat_eq, list_eq, contains, All,
}
use pinsync.Base.Action.{
  Action, pure, on_err, ◌>>◌, Meets, Meets-bind, Meets-if, Meets-on_err, Meets-weaken,
}
use pinsync.Base.Dict.{Dict, get}
use pinsync.Base.Slash.{join_path}
use pinsync.Base.Text.{Text}
use pinsync.Store.{S3}
use pinsync.Pull.Classify.{
  ContentKey, Leftover, key_eq, Act, download, copy, link, reuse, wanted_key,
}
use pinsync.Pull.Files.{Fs, Calls, FileError, failed, present, tick, make_dirs}
use pinsync.Pull.Files.Rules.{Untouched}
use pinsync.Pull.Files.Names.{make_dirs_rule}
use pinsync.Pull.Jobs.{Job, Jobs}
use pinsync.Pull.Resume.Download.{World, on_files, download_job}
use pinsync.Pull.Resume.Download.Laws.{SafeThere, on_files_rule}
use pinsync.Pull.Resume.Download.Staged.{download_job-IsStaged}
use pinsync.Pull.Resume.Prefix.{Sidecar, prefix_files_in, adopt_prefixes}
use pinsync.Pull.Write.{StageError, io, link_or_copy, read_only_on_windows}
use pinsync.Pull.Write.Laws.{IsStaged, Untouched-tick, link_or_copy_rule}
use pinsync.Pull.Stage.{
  Counters, Staging, leftover_in, count_download, count_local, other_mode, noted, counting,
  stage_local, stage_reuse, stage_act, stage_entry, first_error, stage_all,
}
use pinsync.Pull.Stage.Phases.{any_resume, on_tree, change_tree, make_tmp, clear_after, stage_jobs}
use pinsync.Pull.Stage.Trees.Laws.{
  Safe, release_partial_rule, clear_resume_dir_rule, adopt_prefixes_rule,
}
use pinsync.Pull.Stage.Trees.{any_under, release_partial, clear_resume_dir}

module _ (s3 : S3) (old : Fs) (os : Calls) (sha256_hex : Text → Text) (windows from_s3 : Bool)
    (dest tmp partial : Text) (index : Dict ContentKey Leftover) (sidecar : Sidecar)
    (prefix : Text) where
  abbrev Kept {ℓ} : {E : Type ℓ} → E → Staging s3 → Type 0
  Kept e s = Untouched old s.0.0

  abbrev fetch : Job → Text → Action (World s3) StageError Bool
  fetch = download_job s3 os sha256_hex windows sidecar prefix tmp

  -- A download that may resume does not end at its own sidecar.
  abbrev pub IsApartFrom : Text → Job → Type 0
  IsApartFrom root j =
      j.resume ≡ true
      → ((prefix_files_in root j.file.sha256).info == join_path root j.file.path) ≡ false

  counting_safe :
      {A : Type 0} (note : A → Counters → Counters) (m : Action (World s3) StageError A)
      (s : Staging s3)
      → Meets (SafeThere s3 old os) (SafeThere s3 old os) (m s.0)
      → Meets Kept Kept (counting s3 note m s)
  counting_safe {A} note m (w, c) h = go (m w) h
    where
      go :
          (x : Result StageError A × World s3)
          → Meets (SafeThere s3 old os) (SafeThere s3 old os) x
          → Meets Kept Kept (noted s3 note c x)
      go (ok a, v) u = u
      go (err e, v) u = u

  stage_local_safe :
      (j : Job) (src : Text) (copy_only : Bool) (w : World s3)
      → Untouched old w.0
      → Meets
          (SafeThere s3 old os)
          (SafeThere s3 old os)
          (stage_local s3 os sha256_hex windows tmp j src copy_only w)
  stage_local_safe j src copy_only w h =
      on_files_rule s3 old os (λ _. Untouched old)
        (link_or_copy os sha256_hex windows src j.file j.mode (join_path tmp j.file.path) copy_only)
        w
        (link_or_copy_rule old os sha256_hex windows src j.file j.mode (join_path tmp j.file.path)
          copy_only w.0 h)

  stage_act_safe :
      (act : Act) (j : Job) (s : Staging s3)
      → IsApartFrom tmp j
      → Untouched old s.0.0
      → Meets Kept Kept (stage_act s3 os sha256_hex windows dest tmp partial index fetch act j s)
  unfolding stage_act stage_reuse
  stage_act_safe download j (w, c) apart h =
      counting_safe count_download (fetch j (join_path tmp j.file.path)) (w, c)
        (Meets-weaken (SafeThere s3 old os) (SafeThere s3 old os)
          (λ resumed v.
            Untouched old v.0
            × IsStaged sha256_hex windows old j.file (join_path tmp j.file.path) j.mode v.0)
          (SafeThere s3 old os) (λ e v u. u) (λ a v u. u.0) (fetch j (join_path tmp j.file.path) w)
          (download_job-IsStaged s3 old os sha256_hex windows sidecar prefix tmp j
            (join_path tmp j.file.path) w apart h))
  stage_act_safe reuse j (w, c) apart h =
      let lo = leftover_in (get index (wanted_key j.file)) in
      let copy_only =
        contains c.taken lo.path
        || j.in_live
        || other_mode windows lo j
        || read_only_on_windows windows lo.mode in
      counting_safe (λ linked n. record n { reused = n.reused + 1 })
        (stage_local s3 os sha256_hex windows tmp j (join_path partial lo.path) copy_only)
        (w, record c { taken = lo.path ∷ c.taken })
        (stage_local_safe j (join_path partial lo.path) copy_only w h)
  stage_act_safe copy j (w, c) apart h =
      counting_safe count_local
        (stage_local s3 os sha256_hex windows tmp j (join_path dest j.file.path) true) (w, c)
        (stage_local_safe j (join_path dest j.file.path) true w h)
  stage_act_safe link j (w, c) apart h =
      counting_safe count_local
        (stage_local s3 os sha256_hex windows tmp j (join_path dest j.file.path)
          (read_only_on_windows windows j.live))
        (w, c)
        (stage_local_safe j (join_path dest j.file.path) (read_only_on_windows windows j.live) w h)

  stage_entry_safe :
      (j : Job) (s : Staging s3)
      → IsApartFrom tmp j
      → Untouched old s.0.0
      → Meets Kept Kept (stage_entry s3 os sha256_hex windows dest tmp partial index fetch j s)
  unfolding stage_entry
  stage_entry_safe j s apart h =
      Meets-bind Kept Kept Kept (counting s3 (λ _ c. c) (on_files s3 (on_err io (make_dirs os))))
        (λ _. stage_act s3 os sha256_hex windows dest tmp partial index fetch j.act j) s
        (counting_safe (λ _ c. c) (on_files s3 (on_err io (make_dirs os))) s
          (on_files_rule s3 old os (λ _. Untouched old) (on_err io (make_dirs os)) s.0
            (Meets-on_err (λ e. Untouched old) (λ _. Untouched old) io (make_dirs os s.0.0)
              (make_dirs_rule old os s.0.0 h))))
        (λ _ t u. stage_act_safe j.act j t apart u)

  settled :
      (x : Result StageError (Unit {0}) × Staging s3) → Meets Kept Kept x → Untouched old x.1.0.0
  settled (ok _, s) u = u
  settled (err e, s) u = u

  from_settled :
      (r : Result StageError (Unit {0})) (s : Staging s3)
      → Untouched old s.0.0
      → Meets Kept Kept (r, s)
  from_settled (ok _) s u = u
  from_settled (err e) s u = u

  stage_all_safe :
      (js : List Job) (s : Staging s3)
      → All (IsApartFrom tmp) js
      → Untouched old s.0.0
      → Meets Kept Kept (stage_all s3 os sha256_hex windows dest tmp partial index fetch js s)
  unfolding stage_all
  stage_all_safe [] s apart h = h
  stage_all_safe (j ∷ js) s apart h =
      let first = stage_entry s3 os sha256_hex windows dest tmp partial index fetch j s in
      let after = stage_all s3 os sha256_hex windows dest tmp partial index fetch js first.1 in
      from_settled (first_error first.0 after.0) after.1 (
        settled after
          (stage_all_safe js first.1 apart.1 (settled first (stage_entry_safe j s apart.0 h))))

  on_tree-Safe :
      {A : Type 0} (m : Action Fs FileError A) (s : Staging s3)
      → Meets (Safe old os) (Safe old os) (m s.0.0)
      → Meets Kept Kept (on_tree s3 m s)
  on_tree-Safe {A} m ((fs, st), c) h = go (m fs) h
    where
      go :
          (x : Result FileError A × Fs)
          → Meets (Safe old os) (Safe old os) x
          → Meets Kept Kept (map_err io x.0, ((x.1, st), c))
      go (ok a, t) u = u
      go (err e, t) u = u

  make_tmp-Safe :
      (s : Fs)
      → Untouched old s
      → Meets
          (Safe old os)
          (Safe old os)
          (make_tmp s3 os sha256_hex windows from_s3 dest tmp partial index fetch s)
  unfolding make_tmp
  make_tmp-Safe s h =
      let idle = Untouched-tick old os s h in
      Meets-if (Safe old os) (Safe old os) (os.fails s.calls) (err (failed s.calls), tick s)
        (if any_under tmp s.names then (err (present tmp), tick s) else (ok tt, tick s)) (λ _. idle)
        (λ _.
          Meets-if (Safe old os) (Safe old os) (any_under tmp s.names) (err (present tmp), tick s)
            (ok tt, tick s) (λ _. idle) (λ _. idle))

  clear_after_safe :
      (remote : List Job) (s : Staging s3)
      → Untouched old s.0.0
      → Meets Kept Kept
          (clear_after s3 os sha256_hex windows from_s3 dest tmp partial index fetch remote s)
  clear_after_safe remote s h = choose (any_resume remote)
    where
      choose :
          (b : Bool)
          → Meets Kept Kept
              ((if b then on_tree s3 (clear_resume_dir os tmp partial) else pure tt) s)
      choose true =
          on_tree-Safe (clear_resume_dir os tmp partial) s
            (clear_resume_dir_rule old os tmp partial s.0.0 h)
      choose false = h

  -- Whatever calls fail and whatever the server answers: staging the jobs of a manifest from S3 does
  -- not change a byte or the mode of any file that was there before, neither in the live tree nor
  -- in the partial one, though it links to them. No download that may resume may have the name of
  -- its own sidecar for its target.
  pub stage_jobs-Untouched :
      (jobs : Jobs) (s : Staging s3)
      → All (IsApartFrom tmp) jobs.local
      → All (IsApartFrom tmp) jobs.remote
      → Untouched old s.0.0
      → Untouched old
          (stage_jobs s3 os sha256_hex windows from_s3 dest tmp partial index fetch jobs s).1.0.0
  unfolding stage_jobs
  stage_jobs-Untouched jobs s apart apart_too h =
      settled (stage_jobs s3 os sha256_hex windows from_s3 dest tmp partial index fetch jobs s) (
        Meets-bind Kept Kept Kept (on_tree s3 (make_dirs os)) (λ _. from_mkdir) s
          (on_tree-Safe (make_dirs os) s (make_dirs_rule old os s.0.0 h))
          (λ _ t u.
            Meets-bind Kept Kept Kept
              (on_tree s3 (make_tmp s3 os sha256_hex windows from_s3 dest tmp partial index fetch))
              (λ _. from_local) t
              (on_tree-Safe (make_tmp s3 os sha256_hex windows from_s3 dest tmp partial index fetch)
                t (make_tmp-Safe t.0.0 u))
              (λ _ v x.
                Meets-bind Kept Kept Kept (run_phase jobs.local) (λ _. from_adopt) v
                  (stage_all_safe jobs.local v apart x)
                  (λ _ y z.
                    Meets-bind Kept Kept Kept (on_tree s3 (release_partial os partial))
                      (λ _. from_remote) (adopted y)
                      (on_tree-Safe (release_partial os partial) (adopted y) (
                        release_partial_rule old os partial (adopted y).0.0
                          (adopt_prefixes_rule old os partial tmp jobs.remote y.0.0 z)))
                      (λ _ a b.
                        Meets-bind Kept Kept Kept (run_phase jobs.remote)
                          (λ _.
                            clear_after s3 os sha256_hex windows from_s3 dest tmp partial index
                              fetch jobs.remote)
                          a (stage_all_safe jobs.remote a apart_too b)
                          (λ _ d e. clear_after_safe jobs.remote d e))))))
    where
      run_phase : List Job → Action (Staging s3) StageError (Unit {0})
      run_phase = stage_all s3 os sha256_hex windows dest tmp partial index fetch

      adopted : Staging s3 → Staging s3
      adopted y = (change_tree s3 (adopt_prefixes os partial tmp jobs.remote) y).1

      from_remote : Action (Staging s3) StageError (Unit {0})
      from_remote =
          run_phase jobs.remote
          >> clear_after s3 os sha256_hex windows from_s3 dest tmp partial index fetch jobs.remote

      from_adopt : Action (Staging s3) StageError (Unit {0})
      from_adopt =
          change_tree s3 (adopt_prefixes os partial tmp jobs.remote)
          >> (on_tree s3 (release_partial os partial) >> from_remote)

      from_local : Action (Staging s3) StageError (Unit {0})
      from_local = run_phase jobs.local >> from_adopt

      from_mkdir : Action (Staging s3) StageError (Unit {0})
      from_mkdir =
          on_tree s3 (make_tmp s3 os sha256_hex windows from_s3 dest tmp partial index fetch)
          >> from_local
