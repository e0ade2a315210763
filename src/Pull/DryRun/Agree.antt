-- ===== src/Pull/DryRun/Agree.antt =====
-- A preview (pkg/pull/dryrun.go) against the jobs that a pull from the same trees stages (stage.go).
use pinsync.Base.{
  Bool, true, false, ◌&&◌, ◌||◌, ◌≡◌, refl, ap, ◌∙◌, subst, List, [], ◌∷◌, ◌++◌, ℕ, ◌+◌, arith,
  if◌then◌else◌, ok, ◌>>=◌, nat_eq, list_eq, contains, contains-append, length, length-append,
  Bool-cases, >>=-eq-ok, inl, inr,
}
use pinsync.Base.Dict.{Dict, keys}
use pinsync.Base.Sort.{sort}
use pinsync.Base.Sort.Laws.{length-sort, contains-sort}
use pinsync.Base.Text.{Text, text_lt}
use pinsync.Manifest.Entry.{File, Manifest}
use pinsync.Pull.Classify.{
  LocalFile, ContentKey, Leftover, Act, download, copy, link, reuse, classify, Slots, resume_slots,
  resumable, wanted_key, key_eq,
}
use pinsync.Pull.Jobs.{Job, Jobs, no_jobs, plain_job, live_content, add_job, add_jobs, make_jobs}
use pinsync.Pull.DryRun.{
  Plan, empty_plan, removed, paths_of, sort_paths, note_entry, note_entries, plan_files,
}

abbrev pub any_job : Job → Bool
any_job j = true

abbrev pub is_copy : Job → Bool
is_copy j = elim j.act [ copy ↦ true | _ ↦ false ]

abbrev pub is_link : Job → Bool
is_link j = elim j.act [ link ↦ true | _ ↦ false ]

abbrev pub is_reuse : Job → Bool
is_reuse j = elim j.act [ reuse ↦ true | _ ↦ false ]

-- The paths of the jobs that pass a test.
abbrev pub select : (Job → Bool) → List Job → List Text
select test [] = []
select test (j ∷ js) = let rest = select test js in if test j then j.file.path ∷ rest else rest

select-snoc :
    (test : Job → Bool) (js : List Job) (j : Job)
    → select test (js ++ (j ∷ []))
      ≡ (if test j then select test js ++ (j.file.path ∷ []) else select test js)
select-snoc test [] j = refl
select-snoc test (k ∷ js) j = ground (arith, select-snoc test js j)

length-snoc : {A : Type 0} (xs : List A) (x : A) → length (xs ++ (x ∷ [])) ≡ length xs + 1
length-snoc xs x = omega (arith, length-append xs (x ∷ []))

-- The same members after the same member is added.
add_member :
    (xs ys zs : List Text) (a q : Text)
    → contains xs q ≡ (contains ys q || contains zs q)
    → (contains (xs ++ (a ∷ [])) q ≡ (contains (ys ++ (a ∷ [])) q || contains zs q))
      × (contains (xs ++ (a ∷ [])) q ≡ (contains ys q || contains (zs ++ (a ∷ [])) q))
add_member xs ys zs a q h = (
  ground (arith, contains-append xs (a ∷ []) q, contains-append ys (a ∷ []) q),
  ground (arith, contains-append xs (a ∷ []) q, contains-append zs (a ∷ []) q),
)

module _ (kept : File → Bool) where
  abbrev pub resumes : Job → Bool
  resumes j = j.resume && kept j.file

  -- What the plan lists, with its copies arranged, is what the jobs do.
  pub record Agrees (arrange : List Text → List Text) (p : Plan) (jobs : Jobs) : Type 0 where
    pub same_copies : p.copy ≡ arrange (select is_copy jobs.local)
    pub same_links : p.linked ≡ length (select is_link jobs.local)
    pub same_reuses : p.reused ≡ length (select is_reuse jobs.local)
    pub same_resumes : p.resumed ≡ length (select resumes jobs.remote)
    pub count_downloads : length p.download ≡ length jobs.remote + p.reused
    pub same_downloads :
        (q : Text)
        → contains p.download q
          ≡ (contains (select any_job jobs.remote) q || contains (select is_reuse jobs.local) q)

  module _ (windows : Bool) (live : Dict Text LocalFile) (index : Dict ContentKey Leftover) where
    Agrees-step :
        (f : File) (act : Act) (mode : ℕ) (p : Plan) (jobs : Jobs) (slots : Slots)
        → Agrees (λ c. c) p jobs
        → Agrees
            (λ c. c)
            (note_entry windows kept f act (p, slots)).0
            (add_job windows true live index f act mode (jobs, slots)).0
          × ((note_entry windows kept f act (p, slots)).1
              ≡ (add_job windows true live index f act mode (jobs, slots)).1)
    unfolding note_entry add_job
    Agrees-step f copy mode p jobs slots h =
        let j : Job = plain_job windows true live index f copy mode false false in
        (
          record {
            same_copies =
                rw (select-snoc is_copy jobs.local j) (ap (λ c. c ++ (f.path ∷ [])) h.same_copies);
            same_links = rw (select-snoc is_link jobs.local j) h.same_links;
            same_reuses = rw (select-snoc is_reuse jobs.local j) h.same_reuses;
            same_resumes = h.same_resumes;
            count_downloads = h.count_downloads;
            same_downloads = λ q. rw (select-snoc is_reuse jobs.local j) (h.same_downloads q);
          },
          refl,
        )
    Agrees-step f link mode p jobs slots h =
        let j : Job = plain_job windows true live index f link mode false false in
        (
          record {
            same_copies = rw (select-snoc is_copy jobs.local j) h.same_copies;
            same_links =
                rw (select-snoc is_link jobs.local j)
                  (omega (arith, h.same_links, length-snoc (select is_link jobs.local) f.path));
            same_reuses = rw (select-snoc is_reuse jobs.local j) h.same_reuses;
            same_resumes = h.same_resumes;
            count_downloads = h.count_downloads;
            same_downloads = λ q. rw (select-snoc is_reuse jobs.local j) (h.same_downloads q);
          },
          refl,
        )
    Agrees-step f reuse mode p jobs slots h =
        let j : Job =
          plain_job windows true live index f reuse mode
            (contains (live_content live) (wanted_key f)) false in
        (
          record {
            same_copies = rw (select-snoc is_copy jobs.local j) h.same_copies;
            same_links = rw (select-snoc is_link jobs.local j) h.same_links;
            same_reuses =
                rw (select-snoc is_reuse jobs.local j)
                  (omega (arith, h.same_reuses, length-snoc (select is_reuse jobs.local) f.path));
            same_resumes = h.same_resumes;
            count_downloads = omega (arith, h.count_downloads, length-snoc p.download f.path);
            same_downloads = λ q.
                rw (select-snoc is_reuse jobs.local j)
                  (add_member p.download (select any_job jobs.remote) (select is_reuse jobs.local)
                    f.path q (h.same_downloads q)).1;
          },
          refl,
        )
    Agrees-step f download mode p jobs slots h =
        let j : Job =
          plain_job windows true live index f download mode false (resumable slots f).0 in
        let count = length-snoc jobs.remote j in
        let downloads = length-snoc p.download f.path in
        let members = λ (q : Text).
          add_member p.download (select any_job jobs.remote) (select is_reuse jobs.local) f.path q
            (h.same_downloads q) in
        elim (Bool-cases ((resumable slots f).0 && kept f)) [
          | inl e ↦ rw e (
            record {
              same_copies = h.same_copies;
              same_links = h.same_links;
              same_reuses = h.same_reuses;
              same_resumes =
                  rw (select-snoc resumes jobs.remote j, e)
                    (omega
                      (arith, h.same_resumes, length-snoc (select resumes jobs.remote) f.path));
              count_downloads = omega (arith, h.count_downloads);
              same_downloads = λ q. rw (select-snoc any_job jobs.remote j) (members q).0;
            },
            refl,
          )
          | inr e ↦ rw e (
            record {
              same_copies = h.same_copies;
              same_links = h.same_links;
              same_reuses = h.same_reuses;
              same_resumes = rw (select-snoc resumes jobs.remote j, e) h.same_resumes;
              count_downloads = omega (arith, h.count_downloads);
              same_downloads = λ q. rw (select-snoc any_job jobs.remote j) (members q).0;
            },
            refl,
          )
        ]

    Agrees-loop :
        (fs : List File) (noted : Plan × Slots) (made : Jobs × Slots) (shown : Plan × Slots)
        → Agrees (λ c. c) noted.0 made.0
        → noted.1 ≡ made.1
        → note_entries windows kept live index fs noted ≡ ok shown
        → (done : Jobs × Slots) × (add_jobs windows true live index fs made ≡ ok done)
          × Agrees (λ c. c) shown.0 done.0
    unfolding note_entries add_jobs
    Agrees-loop [] noted made shown h same e =
        let final : noted ≡ shown = cc in
        (made, refl, subst (λ n. Agrees (λ c. c) n.0 made.0) final h)
    Agrees-loop (f ∷ fs) noted (jobs, slots) shown h same e =
        let (decided, chosen, rest) =
          >>=-eq-ok (classify windows f live index)
            (λ d. note_entries windows kept live index fs (note_entry windows kept f d.0 noted))
            shown e in
        let (agrees, next) = Agrees-step f decided.0 decided.1 noted.0 jobs noted.1 h in
        let here =
          subst
            (λ t.
              Agrees (λ c. c) (note_entry windows kept f decided.0 noted).0
                (add_job windows true live index f decided.0 decided.1 (jobs, t)).0
              × ((note_entry windows kept f decided.0 noted).1
                  ≡ (add_job windows true live index f decided.0 decided.1 (jobs, t)).1))
            same (agrees, next) in
        let (done, run, result) =
          Agrees-loop fs (note_entry windows kept f decided.0 noted)
            (add_job windows true live index f decided.0 decided.1 (jobs, slots)) shown here.0
            here.1 rest in
        (
          done,
          ap
                (λ r. r >>= λ d.
                  add_jobs windows true live index fs
                    (add_job windows true live index f d.0 d.1 (jobs, slots)))
                chosen
              ∙ run,
          result,
        )

    -- Where a preview succeeds, the pull makes its jobs without error from the same trees, and the
    -- preview counts what they do: its copies are their sorted copies, its links and reuses as many
    -- as theirs, its downloads those of the jobs and the reuses, and its resumed downloads the jobs
    -- that may resume and have a kept prefix.
    pub plan_files-Agrees :
        (equal_fold : Text → Text → Bool) (m : Manifest) (p : Plan)
        → plan_files windows kept equal_fold live index m ≡ ok p
        → (jobs : Jobs) × (make_jobs windows true live index equal_fold m ≡ ok jobs)
          × Agrees (sort text_lt) p jobs
    unfolding plan_files make_jobs contains
    plan_files-Agrees equal_fold m p h =
        let start : Plan × Slots = (empty_plan (length m.files), resume_slots equal_fold m.files) in
        let final = λ (n : Plan × Slots).
          sort_paths (record n.0 { remove = removed (paths_of m.files) (keys live) }) in
        let (shown, run, rest) =
          >>=-eq-ok (note_entries windows kept live index m.files start) (λ n. ok (final n)) p h in
        let (done, made, agrees) =
          Agrees-loop m.files start (no_jobs, start.1) shown none_yet refl run in
        let same : final shown ≡ p = cc in
        (
          done.0,
          ap (λ r. r >>= λ (n : Jobs × Slots). ok n.0) made,
          subst (λ q. Agrees (sort text_lt) q done.0) same
              (record {
                same_copies = ap (sort text_lt) agrees.same_copies;
                same_links = agrees.same_links;
                same_reuses = agrees.same_reuses;
                same_resumes = agrees.same_resumes;
                count_downloads = length-sort text_lt shown.0.download ∙ agrees.count_downloads;
                same_downloads =
                    λ q. contains-sort text_lt shown.0.download q ∙ agrees.same_downloads q;
              }),
        )
      where
        none_yet : Agrees (λ c. c) (empty_plan (length m.files)) no_jobs
        none_yet = record {
          same_copies = refl;
          same_links = refl;
          same_reuses = refl;
          same_resumes = refl;
          count_downloads = omega arith;
          same_downloads = λ q. refl;
        }
