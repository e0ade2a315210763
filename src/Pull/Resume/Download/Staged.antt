-- ===== src/Pull/Resume/Download/Staged.antt =====
-- A download with a kept prefix or without one (`resumeOrFetch`, `downloadResumable` and `download` of
-- pkg/pull).
use pinsync.Base.{
  Bool, true, false, ◌≡◌, refl, Option, none, some, ℕ, if◌then◌else◌, Result, ok, err, ◌==◌, nat_eq,
  list_eq,
}
use pinsync.Base.Action.{pure, on_err, ◌>>◌, Meets, Meets-bind, Meets-on_err}
use pinsync.Base.Int.{int_eq}
use pinsync.Base.Slash.{join_path}
use pinsync.Base.Text.{Text, lit}
use pinsync.Manifest.Entry.{File}
use pinsync.Store.{S3, GetOutput}
use pinsync.Pull.Files.{Fs, Calls, make_dirs}
use pinsync.Pull.Files.Rules.{Untouched}
use pinsync.Pull.Files.Names.{make_dirs_rule}
use pinsync.Pull.Jobs.{Job}
use pinsync.Pull.Write.{
  StageError, io, mismatch, not_fetched, source_failed, not_regular, discard_prefix, stuck,
  stale_staging,
}
use pinsync.Pull.Write.Laws.{IsStaged, Stages}
use pinsync.Pull.Resume.Prefix.{PrefixInfo, Sidecar, PrefixFiles, prefix_files_in, load, discard}
use pinsync.Pull.Resume.Extend.{keep_whole}
use pinsync.Pull.Resume.Extend.Laws.{IsApart, discard_rule}
use pinsync.Pull.Resume.Extend.Whole.{keep_whole_rule}
use pinsync.Pull.Resume.Download.Laws.{
  longer_differs, SafeThere, on_files_rule, get_whole_rule, load_rule, StagesThere, Continued,
  download_whole_rule, continue_prefix_rule,
}
use pinsync.Pull.Resume.Download.{
  World, on_files, get_whole, download_whole, continue_prefix, fetch_whole, start_over,
  after_continuing, after_load, load_then, resume_or_fetch, unless_stuck, download_resumable,
  download_job,
}

module _ (s3 : S3) (old : Fs) (os : Calls) (sha256_hex : Text → Text) (windows : Bool)
    (sidecar : Sidecar) where
  fetch_whole_rule :
      (key : Text) (p : PrefixFiles) (f : File) (whole : Option GetOutput) (dst : Text) (mode : ℕ)
      (w : World s3)
      → IsApart p dst
      → Untouched old w.0
      → Meets
          (SafeThere s3 old os)
          (StagesThere s3 old os sha256_hex windows f dst mode)
          (fetch_whole s3 os sha256_hex windows sidecar key p f whole dst mode w)
  unfolding fetch_whole
  fetch_whole_rule key p f whole dst mode w apart h = from whole
    where
      keeps :
          (out : GetOutput) (v : World s3)
          → Untouched old v.0
          → Meets
              (SafeThere s3 old os)
              (StagesThere s3 old os sha256_hex windows f dst mode)
              (on_files s3 (keep_whole os sha256_hex windows sidecar p f out dst mode) v)
      keeps out v u =
          on_files_rule s3 old os (Stages old os sha256_hex windows f dst mode)
            (keep_whole os sha256_hex windows sidecar p f out dst mode) v
            (keep_whole_rule old os sha256_hex windows sidecar p f out dst mode v.0 apart.beside u)

      from :
          (o : Option GetOutput)
          → Meets
              (SafeThere s3 old os)
              (StagesThere s3 old os sha256_hex windows f dst mode)
              (fetch_whole s3 os sha256_hex windows sidecar key p f o dst mode w)
      from (some out) = keeps out w h
      from none =
          Meets-bind (SafeThere s3 old os) (SafeThere s3 old os)
            (StagesThere s3 old os sha256_hex windows f dst mode) (get_whole s3 key)
            (λ out. on_files s3 (keep_whole os sha256_hex windows sidecar p f out dst mode)) w
            (get_whole_rule s3 old os key w h) (λ out v u. keeps out v u)

  start_over_rule :
      (key : Text) (p : PrefixFiles) (f : File) (whole : Option GetOutput) (dst : Text) (mode : ℕ)
      (w : World s3)
      → IsApart p dst
      → Untouched old w.0
      → Meets
          (SafeThere s3 old os)
          (StagesThere s3 old os sha256_hex windows f dst mode)
          (start_over s3 os sha256_hex windows sidecar key p f whole dst mode w)
  unfolding start_over
  start_over_rule key p f whole dst mode w apart h =
      Meets-bind (SafeThere s3 old os) (SafeThere s3 old os)
        (StagesThere s3 old os sha256_hex windows f dst mode)
        (on_files s3 (on_err stuck (discard os p)))
        (λ _. fetch_whole s3 os sha256_hex windows sidecar key p f whole dst mode >> pure false) w
        (on_files_rule s3 old os (λ _. Untouched old) (on_err stuck (discard os p)) w
          (Meets-on_err (λ e. Untouched old) (λ _. Untouched old) stuck (discard os p w.0)
            (discard_rule old os p w.0 h)))
        (λ _ v u.
          Meets-bind (SafeThere s3 old os) (StagesThere s3 old os sha256_hex windows f dst mode)
            (StagesThere s3 old os sha256_hex windows f dst mode)
            (fetch_whole s3 os sha256_hex windows sidecar key p f whole dst mode) (λ _. pure false)
            v (fetch_whole_rule key p f whole dst mode v apart u) (λ _ x y. y))

  after_continuing_rule :
      (key : Text) (p : PrefixFiles) (f : File) (dst : Text) (mode : ℕ)
      (x : Result StageError (Option GetOutput) × World s3)
      → IsApart p dst
      → Meets (SafeThere s3 old os) (Continued s3 old os sha256_hex windows f dst mode) x
      → Meets
          (SafeThere s3 old os)
          (StagesThere s3 old os sha256_hex windows f dst mode)
          (after_continuing s3 os sha256_hex windows sidecar key p f dst mode x)
  after_continuing_rule key p f dst mode (ok none, w) apart h = h
  after_continuing_rule key p f dst mode (ok (some out), w) apart h =
      start_over_rule key p f (some out) dst mode w apart h
  after_continuing_rule key p f dst mode (err (discard_prefix e), w) apart h =
      start_over_rule key p f none dst mode w apart h
  after_continuing_rule key p f dst mode (err (io e), w) apart h = h
  after_continuing_rule key p f dst mode (err (mismatch q d), w) apart h = h
  after_continuing_rule key p f dst mode (err (not_fetched q e), w) apart h = h
  after_continuing_rule key p f dst mode (err (source_failed q), w) apart h = h
  after_continuing_rule key p f dst mode (err (not_regular q), w) apart h = h
  after_continuing_rule key p f dst mode (err (stuck e), w) apart h = h
  after_continuing_rule key p f dst mode (err (stale_staging q), w) apart h = h

  load_then_rule :
      (key : Text) (p : PrefixFiles) (f : File) (dst : Text) (mode : ℕ) (w : World s3)
      → IsApart p dst
      → Untouched old w.0
      → Meets
          (SafeThere s3 old os)
          (StagesThere s3 old os sha256_hex windows f dst mode)
          (load_then s3 os sha256_hex windows sidecar key p f dst mode w)
  unfolding load_then
  load_then_rule key p f dst mode (fs, st) apart h =
      from (load os sidecar p f fs).0 ((load os sidecar p f fs).1, st)
        (load_rule s3 old os sidecar p f fs h)
    where
      from :
          (o : Option (ℕ × PrefixInfo)) (v : World s3)
          → Untouched old v.0
          → Meets
              (SafeThere s3 old os)
              (StagesThere s3 old os sha256_hex windows f dst mode)
              (after_load s3 os sha256_hex windows sidecar key p f dst mode o v)
      from none v u = start_over_rule key p f none dst mode v apart u
      from (some (n, info)) v u =
          after_continuing_rule key p f dst mode
            (continue_prefix s3 os sha256_hex windows key p f n info dst mode v) apart
            (continue_prefix_rule s3 old os sha256_hex windows key p f n info dst mode v apart u)

  resume_or_fetch_rule :
      (prefix tmp : Text) (f : File) (dst : Text) (mode : ℕ) (w : World s3)
      → ((prefix_files_in tmp f.sha256).info == dst) ≡ false
      → Untouched old w.0
      → Meets
          (SafeThere s3 old os)
          (StagesThere s3 old os sha256_hex windows f dst mode)
          (resume_or_fetch s3 os sha256_hex windows sidecar prefix tmp f dst mode w)
  unfolding resume_or_fetch prefix_files_in
  resume_or_fetch_rule prefix tmp f dst mode w ne h =
      Meets-bind (SafeThere s3 old os) (SafeThere s3 old os)
        (StagesThere s3 old os sha256_hex windows f dst mode)
        (on_files s3 (on_err stuck (make_dirs os)))
        (λ _. load_then s3 os sha256_hex windows sidecar (join_path prefix f.path) p f dst mode) w
        (on_files_rule s3 old os (λ _. Untouched old) (on_err stuck (make_dirs os)) w
          (Meets-on_err (λ e. Untouched old) (λ _. Untouched old) stuck (make_dirs os w.0)
            (make_dirs_rule old os w.0 h)))
        (λ _ v u.
          load_then_rule (join_path prefix f.path) p f dst mode v
            (record { previous = longer_differs p.content (lit "prev") b'.'; beside = ne }) u)
    where
      p : PrefixFiles
      p = prefix_files_in tmp f.sha256

  whole_rule :
      (prefix : Text) (f : File) (dst : Text) (mode : ℕ) (w : World s3)
      → Untouched old w.0
      → Meets
          (SafeThere s3 old os)
          (StagesThere s3 old os sha256_hex windows f dst mode)
          ((download_whole s3 os sha256_hex windows prefix f dst mode >> pure false) w)
  whole_rule prefix f dst mode w h =
      Meets-bind (SafeThere s3 old os) (StagesThere s3 old os sha256_hex windows f dst mode)
        (StagesThere s3 old os sha256_hex windows f dst mode)
        (download_whole s3 os sha256_hex windows prefix f dst mode) (λ _. pure false) w
        (download_whole_rule s3 old os sha256_hex windows prefix f dst mode w h) (λ _ v u. u)

  -- The whole object is fetched where the prefix files cannot be used.
  unless_stuck_rule :
      (prefix : Text) (f : File) (dst : Text) (mode : ℕ) (x : Result StageError Bool × World s3)
      → Meets (SafeThere s3 old os) (StagesThere s3 old os sha256_hex windows f dst mode) x
      → Meets
          (SafeThere s3 old os)
          (StagesThere s3 old os sha256_hex windows f dst mode)
          (unless_stuck s3 os sha256_hex windows sidecar prefix f dst mode x)
  unless_stuck_rule prefix f dst mode (ok b, w) h = h
  unless_stuck_rule prefix f dst mode (err (stuck e), w) h = whole_rule prefix f dst mode w h
  unless_stuck_rule prefix f dst mode (err (discard_prefix e), w) h = h
  unless_stuck_rule prefix f dst mode (err (io e), w) h = h
  unless_stuck_rule prefix f dst mode (err (mismatch q d), w) h = h
  unless_stuck_rule prefix f dst mode (err (not_fetched q e), w) h = h
  unless_stuck_rule prefix f dst mode (err (source_failed q), w) h = h
  unless_stuck_rule prefix f dst mode (err (not_regular q), w) h = h
  unless_stuck_rule prefix f dst mode (err (stale_staging q), w) h = h

  -- Whatever calls fail and whatever the server answers, and wherever a kept prefix came from: a
  -- download changes no file that was there before, and one that succeeds leaves at its target a
  -- new file with the entry's size and digest, off Windows with its mode. The target of a
  -- download that may resume must not be the name of the prefix's sidecar.
  pub download_job-IsStaged :
      (prefix tmp : Text) (j : Job) (dst : Text) (w : World s3)
      → (j.resume ≡ true → ((prefix_files_in tmp j.file.sha256).info == dst) ≡ false)
      → Untouched old w.0
      → Meets
          (λ e v. Untouched old v.0)
          (λ resumed v. Untouched old v.0 × IsStaged sha256_hex windows old j.file dst j.mode v.0)
          (download_job s3 os sha256_hex windows sidecar prefix tmp j dst w)
  unfolding download_job download_resumable
  download_job-IsStaged prefix tmp j dst w ne h = choose j.resume ne
    where
      choose :
          (b : Bool)
          → (b ≡ true → ((prefix_files_in tmp j.file.sha256).info == dst) ≡ false)
          → Meets
              (SafeThere s3 old os)
              (StagesThere s3 old os sha256_hex windows j.file dst j.mode)
              ((if b
                  then download_resumable s3 os sha256_hex windows sidecar prefix tmp j.file dst
                      j.mode
                  else (download_whole s3 os sha256_hex windows prefix j.file dst j.mode
                      >> pure false))
                w)
      choose true differs =
          unless_stuck_rule prefix j.file dst j.mode
            (resume_or_fetch s3 os sha256_hex windows sidecar prefix tmp j.file dst j.mode w)
            (resume_or_fetch_rule prefix tmp j.file dst j.mode w (differs refl) h)
      choose false differs = whole_rule prefix j.file dst j.mode w h
