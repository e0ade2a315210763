-- ===== src/Pull/Stage/Stats.antt =====
-- The statistics of a staging that succeeded (pkg/pull/stage.go) against the preview of the same trees
-- (dryrun.go).
use pinsync.Base.{
  Bool, true, false, ◌≡◌, refl, sym, ap, subst, ◌∙◌, List, ◌+◌, ◌≤◌, arith, if◌then◌else◌, Result,
  ok, err, map_err, length,
}
use pinsync.Base.Sort.{sort}
use pinsync.Base.Sort.Laws.{length-sort}
use pinsync.Manifest.Mode.{ModeError}
use pinsync.Manifest.Entry.{File, Manifest}
use pinsync.Pull.DryRun.{Plan, plan_files}
use pinsync.Pull.DryRun.Agree.{is_copy, is_link, is_reuse, select, Agrees, plan_files-Agrees}
use pinsync.Pull.DryRun.Laws.{plan_files-Covers}
use pinsync.Base.Action.{Action, pure, lift, ◌>>=◌, ◌>>◌, Meets, Meets-bind, Meets-weaken}
use pinsync.Base.Dict.{Dict}
use pinsync.Base.Text.{Text, text_lt}
use pinsync.Store.{S3}
use pinsync.Pull.Classify.{LocalFile, ContentKey, Leftover}
use pinsync.Pull.Files.{Fs, Calls, FileError, make_dirs}
use pinsync.Pull.Jobs.{Job, Jobs, make_jobs}
use pinsync.Pull.Stage.Split.{make_jobs-IsSplit}
use pinsync.Pull.Resume.Download.{World}
use pinsync.Pull.Resume.Prefix.{adopt_prefixes}
use pinsync.Pull.Write.{StageError, io}
use pinsync.Pull.Stage.{Counters, no_counts, Staging}
use pinsync.Pull.Stage.Counts.{count, count-is_kept, Counted, Failed, stage_all_rule}
use pinsync.Pull.Stage.Phases.{
  any_resume, on_tree, change_tree, make_tmp, clear_after, phase, stage_jobs, bad_mode, counted,
  stage,
}
use pinsync.Pull.Stage.Trees.{release_partial, clear_resume_dir}

module _ (s3 : S3) where
  on_tree_rule :
      {A : Type 0} (m : Action Fs FileError A) (s : Staging s3)
      → Meets (Failed s3) (λ r t. t.1 ≡ s.1) (on_tree s3 m s)
  on_tree_rule {A} m ((fs, st), c) = go (m fs)
    where
      go :
          (x : Result FileError A × Fs)
          → Meets (Failed s3) (λ (r : A) t. t.1 ≡ c) (map_err io x.0, ((x.1, st), c))
      go (ok a, t) = refl
      go (err e, t) = tt

  -- A step that leaves the counters alone.
  then_same :
      (R : Unit {0} → Staging s3 → Type 0) (m k : Action (Staging s3) StageError (Unit {0}))
      (s : Staging s3) (c : Counters)
      → s.1 ≡ c
      → Meets (Failed s3) (λ r t. t.1 ≡ s.1) (m s)
      → ((t : Staging s3) → t.1 ≡ c → Meets (Failed s3) R (k t))
      → Meets (Failed s3) R ((m >> k) s)
  then_same R m k s c e h rest =
      Meets-bind (Failed s3) (λ (r : Unit {0}) t. t.1 ≡ s.1) R m (λ _. k) s h
        (λ _ t same. rest t (same ∙ e))

  module _ (os : Calls) (sha256_hex : Text → Text) (windows from_s3 : Bool)
      (dest tmp partial : Text) (index : Dict ContentKey Leftover)
      (fetch : Job → Text → Action (World s3) StageError Bool) where
    clear_after_rule :
        (remote : List Job) (s : Staging s3)
        → Meets
            (Failed s3)
            (λ r t. t.1 ≡ s.1)
            (clear_after s3 os sha256_hex windows from_s3 dest tmp partial index fetch remote s)
    clear_after_rule remote s = choose (any_resume remote)
      where
        choose :
            (b : Bool)
            → Meets
                (Failed s3)
                (λ (r : Unit {0}) t. t.1 ≡ s.1)
                ((if b then on_tree s3 (clear_resume_dir os tmp partial) else pure tt) s)
        choose true = on_tree_rule (clear_resume_dir os tmp partial) s
        choose false = refl

    abbrev run_phase : List Job → Action (Staging s3) StageError (Unit {0})
    run_phase = phase s3 os sha256_hex windows from_s3 dest tmp partial index fetch

    abbrev clear : List Job → Action (Staging s3) StageError (Unit {0})
    clear = clear_after s3 os sha256_hex windows from_s3 dest tmp partial index fetch

    -- The counters that both phases leave.
    abbrev Totals : Jobs → Counters → Unit {0} → Staging s3 → Type 0
    Totals jobs c r t = (mid : Counters) × Counted jobs.local c mid × Counted jobs.remote mid t.1

    stage_jobs_rule :
        (jobs : Jobs) (w : World s3) (c : Counters)
        → Meets
            (Failed s3)
            (Totals jobs c)
            (stage_jobs s3 os sha256_hex windows from_s3 dest tmp partial index fetch jobs (w, c))
    unfolding stage_jobs
    stage_jobs_rule jobs w c =
        then_same (Totals jobs c) (on_tree s3 (make_dirs os)) from_mkdir (w, c) c refl
          (on_tree_rule (make_dirs os) (w, c))
          (λ s e.
            then_same (Totals jobs c)
              (on_tree s3 (make_tmp s3 os sha256_hex windows from_s3 dest tmp partial index fetch))
              from_local s c e
              (on_tree_rule (make_tmp s3 os sha256_hex windows from_s3 dest tmp partial index fetch)
                s)
              (λ t e2.
                Meets-bind (Failed s3) (λ r u. Counted jobs.local c u.1) (Totals jobs c)
                  (run_phase jobs.local) (λ _. from_adopt) t
                  (subst
                    (λ d.
                      Meets (Failed s3) (λ (r : Unit {0}) u. Counted jobs.local d u.1)
                        (run_phase jobs.local t))
                    e2
                    (stage_all_rule s3 os sha256_hex windows dest tmp partial index fetch jobs.local
                      t.0 t.1))
                  (λ _ u h. from_adopt_rule u h)))
      where
        from_remote : Action (Staging s3) StageError (Unit {0})
        from_remote = run_phase jobs.remote >> clear jobs.remote

        from_adopt : Action (Staging s3) StageError (Unit {0})
        from_adopt =
            change_tree s3 (adopt_prefixes os partial tmp jobs.remote)
            >> (on_tree s3 (release_partial os partial) >> from_remote)

        from_local : Action (Staging s3) StageError (Unit {0})
        from_local = run_phase jobs.local >> from_adopt

        from_mkdir : Action (Staging s3) StageError (Unit {0})
        from_mkdir =
            on_tree s3 (make_tmp s3 os sha256_hex windows from_s3 dest tmp partial index fetch)
            >> from_local

        from_remote_rule :
            (u : Staging s3)
            → Counted jobs.local c u.1
            → Meets (Failed s3) (Totals jobs c) (from_remote u)
        from_remote_rule u h =
            Meets-bind (Failed s3) (λ r v. Counted jobs.remote u.1 v.1) (Totals jobs c)
              (run_phase jobs.remote) (λ _. clear jobs.remote) u
              (stage_all_rule s3 os sha256_hex windows dest tmp partial index fetch jobs.remote u.0
                u.1)
              (λ _ v k.
                Meets-weaken (Failed s3) (Failed s3) (λ r x. x.1 ≡ v.1) (Totals jobs c)
                  (λ e x y. tt)
                  (λ r x e. (u.1, h, subst (λ d. Counted jobs.remote u.1 d) (sym e) k))
                  (clear jobs.remote v) (clear_after_rule jobs.remote v))

        from_adopt_rule :
            (u : Staging s3)
            → Counted jobs.local c u.1
            → Meets (Failed s3) (Totals jobs c) (from_adopt u)
        from_adopt_rule u h =
            then_same (Totals jobs c) (change_tree s3 (adopt_prefixes os partial tmp jobs.remote))
              (on_tree s3 (release_partial os partial) >> from_remote) u u.1 refl refl
              (λ v e.
                then_same (Totals jobs c) (on_tree s3 (release_partial os partial)) from_remote v
                  u.1 e (on_tree_rule (release_partial os partial) v)
                  (λ x e2. from_remote_rule x (subst (λ d. Counted jobs.local c d) (sym e2) h)))

    -- The counters of a staging that succeeded, from the jobs that it made.
    pub stage-counts :
        (equal_fold : Text → Text → Bool) (m : Manifest) (live : Dict Text LocalFile) (w : World s3)
        (c : Counters)
        → (stage s3 os sha256_hex windows from_s3 dest tmp partial index fetch equal_fold m live
            w).0
          ≡ ok c
        → (jobs : Jobs) × (make_jobs windows from_s3 live index equal_fold m ≡ ok jobs)
          × (c.downloaded ≡ length jobs.remote)
          × (c.reused ≡ count is_reuse jobs.local)
          × (c.downloaded + c.linked + c.copied + c.reused ≡ length m.files)
          × (c.resumed ≤ c.downloaded)
          × (c.linked + c.copied ≡ count is_copy jobs.local + count is_link jobs.local)
          × (c.linked ≤ count is_link jobs.local)
    unfolding stage
    stage-counts equal_fold m live w c h =
        go (make_jobs windows from_s3 live index equal_fold m) refl h
      where
        ended :
            (x : Result StageError (Unit {0}) × Staging s3) (jobs : Jobs)
            → Meets (Failed s3) (Totals jobs no_counts) x
            → (counted s3 os sha256_hex windows from_s3 dest tmp partial index fetch x).0 ≡ ok c
            → Totals jobs no_counts tt (w, c)
        ended (ok _, (v, d)) jobs t e =
            let same : d ≡ c = cc in subst (λ q. Totals jobs no_counts tt (w, q)) same t
        ended (err x, s) jobs t e = cc

        go :
            (r : Result ModeError Jobs)
            → make_jobs windows from_s3 live index equal_fold m ≡ r
            → ((lift (map_err bad_mode r) >>= λ jobs v.
                  counted s3 os sha256_hex windows from_s3 dest tmp partial index fetch (
                    stage_jobs s3 os sha256_hex windows from_s3 dest tmp partial index fetch jobs
                      (v, no_counts)))
                w).0
              ≡ ok c
            → (jobs : Jobs) × (make_jobs windows from_s3 live index equal_fold m ≡ ok jobs)
              × (c.downloaded ≡ length jobs.remote)
              × (c.reused ≡ count is_reuse jobs.local)
              × (c.downloaded + c.linked + c.copied + c.reused ≡ length m.files)
              × (c.resumed ≤ c.downloaded)
              × (c.linked + c.copied ≡ count is_copy jobs.local + count is_link jobs.local)
              × (c.linked ≤ count is_link jobs.local)
        go (err e) made k = cc
        go (ok jobs) made k =
            let split = make_jobs-IsSplit windows from_s3 live index equal_fold m jobs made in
            let (mid, local, remote) =
              ended
                (stage_jobs s3 os sha256_hex windows from_s3 dest tmp partial index fetch jobs
                  (w, no_counts))
                jobs (stage_jobs_rule jobs w no_counts) k in
            (
              jobs,
              made,
              omega (arith, split.local_downloads, split.remote_downloads, local.0, remote.0),
              omega (arith, split.remote_rest, local.1, remote.1),
              omega (
                arith, split.local_downloads, split.local_rest, split.remote_downloads,
                split.remote_rest, split.entries, local.0, local.1, local.2, remote.0, remote.1,
                remote.2,
              ),
              remote.3 (local.3 (omega arith)),
              omega (arith, split.remote_rest, local.2, remote.2, count-is_kept jobs.local),
              omega (arith, split.remote_rest, local.4, remote.4, count-is_kept jobs.remote),
            )

-- If a pull stages from the trees that a preview saw, and both succeed, then its downloads and
-- reuses are as many as the downloads that the preview lists, its reuses as many as the preview's,
-- its links and copies together as many as the preview's, with no more links than the preview tells,
-- for a link that fails becomes a copy; all its entries together are the preview's total, and no
-- more downloads are resumed than there are.
pub stage-dry_run :
    (s3 : S3) (os : Calls) (sha256_hex : Text → Text) (windows : Bool) (kept : File → Bool)
    (dest tmp partial : Text) (index : Dict ContentKey Leftover)
    (fetch : Job → Text → Action (World s3) StageError Bool) (equal_fold : Text → Text → Bool)
    (m : Manifest) (live : Dict Text LocalFile) (w : World s3) (p : Plan) (c : Counters)
    → plan_files windows kept equal_fold live index m ≡ ok p
    → (stage s3 os sha256_hex windows true dest tmp partial index fetch equal_fold m live w).0
      ≡ ok c
    → (c.downloaded + c.reused ≡ length p.download)
      × (c.reused ≡ p.reused)
      × (c.downloaded + c.linked + c.copied + c.reused ≡ p.total)
      × (c.resumed ≤ c.downloaded)
      × (c.linked + c.copied ≡ p.linked + length p.copy)
      × (c.linked ≤ p.linked)
stage-dry_run s3 os sha windows kept dest tmp partial index fetch equal_fold m live w p c planned
      staged =
    let (jobs, made, downloads, reuses, all, resumes, kept_all, links) =
      stage-counts s3 os sha windows true dest tmp partial index fetch equal_fold m live w c
        staged in
    let (seen, also, agrees) = plan_files-Agrees kept windows live index equal_fold m p planned in
    let same : seen ≡ jobs = cc in
    let agreed : Agrees kept (sort text_lt) p jobs =
      subst (λ q. Agrees kept (sort text_lt) p q) same agrees in
    let total = plan_files-Covers windows kept live index equal_fold m p planned in
    (
      omega (arith, downloads, reuses, agreed.count_downloads, agreed.same_reuses),
      omega (arith, reuses, agreed.same_reuses),
      omega (arith, all, total),
      resumes,
      omega (
        arith,
        kept_all,
        agreed.same_links,
        ap length agreed.same_copies,
        length-sort text_lt (select is_copy jobs.local),
      ),
      omega (arith, links, agreed.same_links),
    )
