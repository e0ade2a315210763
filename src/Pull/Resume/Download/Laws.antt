-- ===== src/Pull/Resume/Download/Laws.antt =====
-- The steps of a download (`downloadResumable`, `downloadWhole` of pkg/pull): what each does to the
-- files that were there, and when one that succeeds has staged its entry.
use pinsync.Base.{
  Bool, true, false, ◌≡◌, refl, [], ◌∷◌, ◌++◌, ◌&&◌, Option, none, some, ℕ, if◌then◌else◌, arith,
  Result, ok, err, ◌==◌, nat_eq, list_eq, list_beq,
}
use pinsync.Base.Action.{Action, pure, lift, ◌>>=◌, ◌>>◌, Meets, Meets-bind}
use pinsync.Base.Int.{pos, int_eq}
use pinsync.Base.Slash.{join_path}
use pinsync.Base.Text.{Text}
use pinsync.Manifest.Entry.{File}
use pinsync.Store.{S3, Body, GetOutput, whole_object}
use pinsync.Pull.Files.{Fs, Calls, FileError, has_name, read_file, rename}
use pinsync.Pull.Files.Rules.{Untouched}
use pinsync.Pull.Files.Names.{read_file_keeps, rename_keeps}
use pinsync.Pull.Write.{StageError, Discard, write_verified}
use pinsync.Pull.Write.Laws.{Untouched-tick, Stages, write_verified_rule}
use pinsync.Pull.Resume.Prefix.{
  PrefixInfo, Sidecar, PrefixFiles, check_continues, inspect, inspect_after, load,
}
use pinsync.Pull.Resume.Extend.{extend}
use pinsync.Pull.Resume.Extend.Laws.{IsApart, extend_rule}
use pinsync.Pull.Resume.Download.{
  continuing, extended, World, on_files, requested, get_whole, range_result, get_rest, rest_of,
  download_whole, is_missing, continue_with, continue_prefix,
}

pub longer_differs : (xs ys : Text) (c : ℕ) → ((xs ++ (c ∷ ys)) == xs) ≡ false
unfolding list_beq
longer_differs [] ys c = refl
longer_differs (x ∷ xs) ys c = ground (arith, longer_differs xs ys c)

module _ (s3 : S3) (old : Fs) (os : Calls) where
  -- What fails leaves the old files alone, whatever is behind the client.
  abbrev pub SafeThere {ℓ} : {E : Type ℓ} → E → World s3 → Type 0
  SafeThere e w = Untouched old w.0

  pub on_files_rule :
      {A : Type 0} (Q : A → Fs → Type 0) (m : Action Fs StageError A) (w : World s3)
      → Meets (λ e. Untouched old) Q (m w.0)
      → Meets SafeThere (λ a v. Q a v.0) (on_files s3 m w)
  on_files_rule {A} Q m (fs, st) h = go (m fs) h
    where
      go :
          (x : Result StageError A × Fs)
          → Meets (λ e. Untouched old) Q x
          → Meets SafeThere (λ a v. Q a v.0) (x.0, (x.1, st))
      go (ok a, t) q = q
      go (err e, t) u = u

  -- A request to the server touches no file.
  asked :
      {A : Type 0} (r : Result StageError A) (w : World s3)
      → Untouched old w.0
      → Meets SafeThere SafeThere (r, w)
  asked (ok a) w h = h
  asked (err e) w h = h

  pub get_whole_rule :
      (key : Text) (w : World s3)
      → Untouched old w.0
      → Meets SafeThere SafeThere (get_whole s3 key w)
  get_whole_rule key (fs, st) h =
      asked (requested key (s3.get_object (whole_object key) st).0)
        (fs, (s3.get_object (whole_object key) st).1) h

  get_rest_rule :
      (key : Text) (n : ℕ) (info : PrefixInfo) (w : World s3)
      → Untouched old w.0
      → Meets SafeThere SafeThere (get_rest s3 key n info w)
  get_rest_rule key n info (fs, st) h =
      asked (range_result key (s3.get_object (rest_of key n info) st).0)
        (fs, (s3.get_object (rest_of key n info) st).1) h

  settled :
      {A : Type 0} (x : Result FileError A × Fs)
      → Meets (λ e. Untouched old) (λ a. Untouched old) x
      → Untouched old x.1
  settled (ok a, t) u = u
  settled (err e, t) u = u

  inspect_rule :
      (sidecar : Sidecar) (p : PrefixFiles) (f : File) (s : Fs)
      → Untouched old s
      → Untouched old (inspect os sidecar p f s).1
  unfolding inspect
  inspect_rule sidecar p f s h =
      settled (read_file os p.info s)
        (read_file_keeps old os (Untouched old) p.info s (Untouched-tick old os s h))

  pub load_rule :
      (sidecar : Sidecar) (p : PrefixFiles) (f : File) (s : Fs)
      → Untouched old s
      → Untouched old (load os sidecar p f s).1
  unfolding load
  load_rule sidecar p f s h = choose (has_name p.prev s)
    where
      after :
          (x : Result FileError (Unit {0}) × Fs)
          → Meets (λ e. Untouched old) (λ a. Untouched old) x
          → Untouched old (inspect_after os sidecar p f x).1
      after (ok _, t) u = inspect_rule sidecar p f t u
      after (err e, t) u = u

      choose :
          (b : Bool)
          → Untouched old
              (if b
                then inspect_after os sidecar p f (rename os p.prev p.content s)
                else inspect os sidecar p f s).1
      choose true = after (rename os p.prev p.content s) (rename_keeps old os p.prev p.content s h)
      choose false = inspect_rule sidecar p f s h

  module _ (sha256_hex : Text → Text) (windows : Bool) where
    abbrev pub StagesThere {ℓ} : {A : Type ℓ} → File → Text → ℕ → A → World s3 → Type 0
    StagesThere f dst mode a w = Stages old os sha256_hex windows f dst mode tt w.0

    -- The file is staged from the prefix, or the server's output is at hand and nothing is.
    abbrev pub Continued : File → Text → ℕ → Option GetOutput → World s3 → Type 0
    Continued f dst mode none w = Stages old os sha256_hex windows f dst mode tt w.0
    Continued f dst mode (some out) w = Untouched old w.0

    pub download_whole_rule :
        (prefix : Text) (f : File) (dst : Text) (mode : ℕ) (w : World s3)
        → Untouched old w.0
        → Meets SafeThere
            (StagesThere f dst mode)
            (download_whole s3 os sha256_hex windows prefix f dst mode w)
    unfolding download_whole
    download_whole_rule prefix f dst mode w h =
        Meets-bind SafeThere SafeThere (StagesThere f dst mode)
          (get_whole s3 (join_path prefix f.path))
          (λ out. on_files s3 (write_verified os sha256_hex windows out.body f dst mode)) w
          (get_whole_rule (join_path prefix f.path) w h)
          (λ out v u.
            on_files_rule (Stages old os sha256_hex windows f dst mode)
              (write_verified os sha256_hex windows out.body f dst mode) v
              (write_verified_rule old os sha256_hex windows out.body f dst mode v.0 u))

    extended_rule :
        (p : PrefixFiles) (f : File) (n : ℕ) (rest : Body) (dst : Text) (mode : ℕ) (w : World s3)
        → IsApart p dst
        → Untouched old w.0
        → Meets SafeThere
            (Continued f dst mode)
            (extended s3 os sha256_hex windows p f n rest dst mode w)
    extended_rule p f n rest dst mode w apart h =
        Meets-bind SafeThere (λ (u : Unit {0}). StagesThere f dst mode u) (Continued f dst mode)
          (on_files s3 (extend os sha256_hex windows p f n rest dst mode)) (λ _. pure none) w
          (on_files_rule (Stages old os sha256_hex windows f dst mode)
            (extend os sha256_hex windows p f n rest dst mode) w
            (extend_rule old os sha256_hex windows p f n rest dst mode w.0 apart h))
          (λ _ v q. q)

    continue_with_rule :
        (p : PrefixFiles) (f : File) (n : ℕ) (info : PrefixInfo) (dst : Text) (mode : ℕ)
        (out : GetOutput) (w : World s3)
        → IsApart p dst
        → Untouched old w.0
        → Meets SafeThere
            (Continued f dst mode)
            (continue_with s3 os sha256_hex windows p f n info dst mode out w)
    unfolding continue_with
    continue_with_rule p f n info dst mode out w apart h =
        choose (is_missing out.content_range && out.content_length == f.size)
      where
        ranged : Action (World s3) StageError (Option GetOutput)
        ranged =
            lift (continuing (check_continues out f n info))
            >> extended s3 os sha256_hex windows p f n out.body dst mode

        checked :
            (r : Result Discard (Unit {0}))
            → Meets SafeThere (Continued f dst mode) (
                (lift (continuing r) >> extended s3 os sha256_hex windows p f n out.body dst mode)
                  w)
        checked (ok _) = extended_rule p f n out.body dst mode w apart h
        checked (err e) = h

        choose :
            (b : Bool)
            → Meets SafeThere (Continued f dst mode) ((if b then pure (some out) else ranged) w)
        choose true = h
        choose false = checked (check_continues out f n info)

    pub continue_prefix_rule :
        (key : Text) (p : PrefixFiles) (f : File) (n : ℕ) (info : PrefixInfo) (dst : Text)
        (mode : ℕ) (w : World s3)
        → IsApart p dst
        → Untouched old w.0
        → Meets SafeThere
            (Continued f dst mode)
            (continue_prefix s3 os sha256_hex windows key p f n info dst mode w)
    unfolding continue_prefix
    continue_prefix_rule key p f n info dst mode w apart h = choose (pos n == f.size)
      where
        choose :
            (b : Bool)
            → Meets SafeThere (Continued f dst mode) (
                (if b
                    then extended s3 os sha256_hex windows p f n
                        (record { bytes = []; broken = false })
                        dst
                        mode
                    else (get_rest s3 key n info
                        >>= continue_with s3 os sha256_hex windows p f n info dst mode))
                  w)
        choose true = extended_rule p f n (record { bytes = []; broken = false }) dst mode w apart h
        choose false =
            Meets-bind SafeThere SafeThere (Continued f dst mode) (get_rest s3 key n info)
              (continue_with s3 os sha256_hex windows p f n info dst mode) w
              (get_rest_rule key n info w h)
              (λ out v u. continue_with_rule p f n info dst mode out v apart u)
