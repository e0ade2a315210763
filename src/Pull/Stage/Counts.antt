-- ===== src/Pull/Stage/Counts.antt =====
-- What the counters of a staging that succeeded say of its jobs (pkg/pull/stage.go).
use pinsync.Base.{
  Bool, true, false, ◌||◌, ◌≡◌, refl, subst, List, [], ◌∷◌, ℕ, ◌+◌, ◌≤◌, arith, Result, ok, err,
  nat_eq, list_eq, contains, length,
}
use pinsync.Base.Action.{Action, pure, continue, on_err, Meets, Meets-bind}
use pinsync.Base.Dict.{Dict, get}
use pinsync.Base.Slash.{join_path}
use pinsync.Base.Text.{Text}
use pinsync.Store.{S3}
use pinsync.Pull.Classify.{
  ContentKey, Leftover, key_eq, Act, download, copy, link, reuse, wanted_key,
}
use pinsync.Pull.DryRun.Agree.{is_copy, is_link, is_reuse, select}
use pinsync.Pull.Files.{Fs, Calls, make_dirs}
use pinsync.Pull.Jobs.{Job}
use pinsync.Pull.Resume.Download.{World, on_files}
use pinsync.Pull.Write.{StageError, io, read_only_on_windows, copy_file, link_or_copy}
use pinsync.Pull.Stage.{
  Counters, Staging, leftover_in, count_download, count_local, other_mode, noted, counting,
  stage_local, stage_reuse, stage_act, stage_entry, first_error, stage_all,
}

abbrev pub is_download : Job → Bool
is_download j = elim j.act [ download ↦ true | _ ↦ false ]

abbrev pub is_kept : Job → Bool
is_kept j = elim j.act [ copy ↦ true | link ↦ true | _ ↦ false ]

abbrev pub count : (Job → Bool) → List Job → ℕ
count test js = length (select test js)

pub count-cons :
    (test : Job → Bool) (j : Job) (js : List Job)
    → count test (j ∷ js) ≡ count test (j ∷ []) + count test js
count-cons test j js = ground arith

-- From the counters `c` to the counters `d` the jobs were counted.
abbrev pub Counted : List Job → Counters → Counters → Type 0
Counted js c d =
    (d.downloaded ≡ c.downloaded + count is_download js)
    × (d.reused ≡ c.reused + count is_reuse js)
    × (d.linked + d.copied ≡ c.linked + c.copied + count is_kept js)
    × (c.resumed ≤ c.downloaded → d.resumed ≤ d.downloaded)
    × (d.linked ≤ c.linked + count is_link js)

pub count-is_kept : (js : List Job) → count is_kept js ≡ count is_copy js + count is_link js
count-is_kept [] = omega arith
count-is_kept (j ∷ js) = by_act (count-is_kept js) j.act refl
  where
    by_act :
        count is_kept js ≡ count is_copy js + count is_link js
        → (act : Act) → j.act ≡ act
        → count is_kept (j ∷ js) ≡ count is_copy (j ∷ js) + count is_link (j ∷ js)
    by_act h download e = rw e h
    by_act h reuse e = rw e h
    by_act h copy e = rw e (omega arith)
    by_act h link e = rw e (omega arith)

-- One more entry was linked or copied, linked at most `n` times.
abbrev Kept : ℕ → Counters → Counters → Type 0
Kept n c d =
    (d.downloaded ≡ c.downloaded + 0)
    × (d.reused ≡ c.reused + 0)
    × (d.linked + d.copied ≡ c.linked + c.copied + 1)
    × (c.resumed ≤ c.downloaded → d.resumed ≤ d.downloaded)
    × (d.linked ≤ c.linked + n)

module _ (s3 : S3) where
  abbrev pub Failed : StageError → Staging s3 → Type 0
  Failed e s = Unit {0}

  counting_rule :
      {A : Type 0} (Q : Counters → Type 0) (note : A → Counters → Counters)
      (m : Action (World s3) StageError A) (w : World s3) (c : Counters)
      → ((a : A) → Q (note a c))
      → Meets Failed (λ r s. Q s.1) (counting s3 note m (w, c))
  counting_rule {A} Q note m w c h = go (m w)
    where
      go :
          (x : Result StageError A × World s3)
          → Meets Failed (λ (r : Unit {0}) s. Q s.1) (noted s3 note c x)
      go (ok a, v) = h a
      go (err e, v) = tt

  -- The same of a call whose result is known.
  counting_rule_where :
      {A : Type 0} (P : A → Type 0) (Q : Counters → Type 0) (note : A → Counters → Counters)
      (m : Action (World s3) StageError A) (w : World s3) (c : Counters)
      → ((a : A) → P a → Q (note a c))
      → Meets (λ e v. Unit {0}) (λ a v. P a) (m w)
      → Meets Failed (λ r s. Q s.1) (counting s3 note m (w, c))
  counting_rule_where {A} P Q note m w c h k = go (m w) k
    where
      go :
          (x : Result StageError A × World s3)
          → Meets (λ e v. Unit {0}) (λ (a : A) v. P a) x
          → Meets Failed (λ (r : Unit {0}) s. Q s.1) (noted s3 note c x)
      go (ok a, v) p = h a p
      go (err e, v) p = tt

  module _ (os : Calls) (sha256_hex : Text → Text) (windows : Bool) (dest tmp partial : Text)
      (index : Dict ContentKey Leftover)
      (fetch : Job → Text → Action (World s3) StageError Bool) where
    -- A copy is no link.
    stage_local-copies :
        (j : Job) (src : Text) (w : World s3)
        → Meets
            (λ (e : StageError) (v : World s3). Unit {0})
            (λ linked v. linked ≡ false)
            (stage_local s3 os sha256_hex windows tmp j src true w)
    unfolding link_or_copy
    stage_local-copies j src (fs, st) =
        go (copy_file os sha256_hex windows src j.file (join_path tmp j.file.path) j.mode fs)
      where
        go :
            (x : Result StageError (Unit {0}) × Fs)
            → Meets {E = StageError}
                (λ e (v : World s3). Unit {0})
                (λ linked v. linked ≡ false)
                (
                  (continue x.0 (λ _. pure false) x.1).0,
                  ((continue x.0 (λ _. pure false) x.1).1, st),
                )
        go (ok _, t) = refl
        go (err e, t) = tt

    stage_act_rule :
        (act : Act) (j : Job) (w : World s3) (c : Counters)
        → j.act ≡ act
        → Meets Failed
            (λ r s. Counted (j ∷ []) c s.1)
            (stage_act s3 os sha256_hex windows dest tmp partial index fetch act j (w, c))
    unfolding stage_act stage_reuse
    stage_act_rule download j w c e =
        counting_rule (Counted (j ∷ []) c) count_download (fetch j (join_path tmp j.file.path)) w c
          (λ resumed. rw e (more resumed))
      where
        more :
            (resumed : Bool)
            → ((count_download resumed c).downloaded ≡ c.downloaded + 1)
              × ((count_download resumed c).reused ≡ c.reused + 0)
              × ((count_download resumed c).linked + (count_download resumed c).copied
                  ≡ c.linked + c.copied + 0)
              × (c.resumed ≤ c.downloaded
                  → (count_download resumed c).resumed ≤ (count_download resumed c).downloaded)
              × ((count_download resumed c).linked ≤ c.linked + 0)
        more true = (refl, omega arith, omega arith, λ h. omega arith, omega arith)
        more false = (refl, omega arith, omega arith, λ h. omega arith, omega arith)
    stage_act_rule reuse j w c e =
        let lo = leftover_in (get index (wanted_key j.file)) in
        counting_rule (Counted (j ∷ []) c) (λ linked n. record n { reused = n.reused + 1 })
          (stage_local s3 os sha256_hex windows tmp j (join_path partial lo.path) (
            contains c.taken lo.path
            || j.in_live
            || other_mode windows lo j
            || read_only_on_windows windows lo.mode))
          w (record c { taken = lo.path ∷ c.taken })
          (λ linked. rw e (omega arith, refl, omega arith, λ h. h, omega arith))
    stage_act_rule copy j w c e =
        counting_rule_where (λ linked. linked ≡ false) (Counted (j ∷ []) c) count_local
          (stage_local s3 os sha256_hex windows tmp j (join_path dest j.file.path) true) w c
          (λ linked copied. rw e (rw copied kept_one))
          (stage_local-copies j (join_path dest j.file.path) w)
      where
        kept_one : Kept 0 c (count_local false c)
        kept_one = (omega arith, omega arith, omega arith, λ h. h, omega arith)
    stage_act_rule link j w c e =
        counting_rule (Counted (j ∷ []) c) count_local
          (stage_local s3 os sha256_hex windows tmp j (join_path dest j.file.path)
            (read_only_on_windows windows j.live))
          w c (λ linked. rw e (kept_one linked))
      where
        kept_one : (linked : Bool) → Kept 1 c (count_local linked c)
        kept_one true = (omega arith, omega arith, omega arith, λ h. h, omega arith)
        kept_one false = (omega arith, omega arith, omega arith, λ h. h, omega arith)

    stage_entry_rule :
        (j : Job) (w : World s3) (c : Counters)
        → Meets Failed
            (λ r s. Counted (j ∷ []) c s.1)
            (stage_entry s3 os sha256_hex windows dest tmp partial index fetch j (w, c))
    unfolding stage_entry
    stage_entry_rule j w c =
        Meets-bind Failed (λ r s. s.1 ≡ c) (λ r s. Counted (j ∷ []) c s.1)
          (counting s3 (λ _ c. c) (on_files s3 (on_err io (make_dirs os))))
          (λ _. stage_act s3 os sha256_hex windows dest tmp partial index fetch j.act j) (w, c)
          (counting_rule (λ d. d ≡ c) (λ _ c. c) (on_files s3 (on_err io (make_dirs os))) w c
            (λ _. refl))
          (λ _ s h.
            subst
              (λ d.
                Meets Failed (λ r t. Counted (j ∷ []) d t.1)
                  (stage_act s3 os sha256_hex windows dest tmp partial index fetch j.act j s))
              h (stage_act_rule j.act j s.0 s.1 refl))

    -- A phase that succeeded counted each of its jobs once.
    pub stage_all_rule :
        (js : List Job) (w : World s3) (c : Counters)
        → Meets Failed
            (λ r s. Counted js c s.1)
            (stage_all s3 os sha256_hex windows dest tmp partial index fetch js (w, c))
    unfolding stage_all
    stage_all_rule [] w c = (omega arith, omega arith, omega arith, λ h. h, omega arith)
    stage_all_rule (j ∷ js) w c =
        both (λ v d. stage_all_rule js v d)
          (stage_entry s3 os sha256_hex windows dest tmp partial index fetch j (w, c))
          (stage_entry_rule j w c)
      where
        join : (d d' : Counters) → Counted (j ∷ []) c d → Counted js d d' → Counted (j ∷ js) c d'
        join d d' h k = (
          omega (arith, h.0, k.0, count-cons is_download j js),
          omega (arith, h.1, k.1, count-cons is_reuse j js),
          omega (arith, h.2, k.2, count-cons is_kept j js),
          λ le. k.3 (h.3 le),
          omega (arith, h.4, k.4, count-cons is_link j js),
        )

        second :
            (d : Counters)
            → Counted (j ∷ []) c d
            → (y : Result StageError (Unit {0}) × Staging s3)
            → Meets Failed (λ r s. Counted js d s.1) y
            → Meets Failed (λ r s. Counted (j ∷ js) c s.1) (y.0, y.1)
        second d h (ok _, (v, d')) k = join d d' h k
        second d h (err e, s) k = tt

        both :
            ((v : World s3) (d : Counters)
              → Meets Failed
                  (λ r s. Counted js d s.1)
                  (stage_all s3 os sha256_hex windows dest tmp partial index fetch js (v, d)))
            → (x : Result StageError (Unit {0}) × Staging s3)
            → Meets Failed (λ r s. Counted (j ∷ []) c s.1) x
            → Meets Failed
                (λ r s. Counted (j ∷ js) c s.1)
                (
                  first_error x.0
                      (stage_all s3 os sha256_hex windows dest tmp partial index fetch js x.1).0,
                  (stage_all s3 os sha256_hex windows dest tmp partial index fetch js x.1).1,
                )
        both rest (ok _, (v, d)) h =
            second d h (stage_all s3 os sha256_hex windows dest tmp partial index fetch js (v, d))
              (rest v d)
        both rest (err e, s) h = tt
