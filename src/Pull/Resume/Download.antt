-- ===== src/Pull/Resume/Download.antt =====
-- `continuePrefix`, `resumeOrFetch` and `downloadResumable` of pkg/pull/resume.go, `download`,
-- `downloadWhole` and `copyFromSource` of stage.go: one entry's bytes from S3 or from a directory.
pub mod Laws
pub mod Staged
use pinsync.Base.{
  Bool, true, false, not, ◌&&◌, List, [], ◌∷◌, Option, none, some, ℕ, if◌then◌else◌, Result, ok,
  err, ◌==◌, nat_eq, list_eq,
}
use pinsync.Base.Action.{Action, pure, fail, lift, on_err, ◌>>=◌, ◌>>◌}
use pinsync.Base.Int.{ℤ, pos, int_eq}
use pinsync.Base.Slash.{join_path}
use pinsync.Base.Text.{Text}
use pinsync.Manifest.Entry.{File}
use pinsync.Manifest.Walk.{Opened, Walked}
use pinsync.Store.{S3, ApiError, Body, GetInput, GetOutput, whole_object}
use pinsync.Pull.Files.{Fs, Calls, FileError, make_dirs}
use pinsync.Pull.Jobs.{Job}
use pinsync.Pull.Write.{
  StageError, io, stuck, not_fetched, source_failed, not_regular, discard_prefix, Discard, refused,
  write_verified,
}
use pinsync.Pull.Resume.Prefix.{
  PrefixInfo, Sidecar, PrefixFiles, prefix_files_in, range_refused, check_continues, load, discard,
}
use pinsync.Pull.Resume.Extend.{extend, keep_whole}

-- The files beside what stands behind the client.
abbrev pub World : S3 → Type 0
World s3 = Fs × s3.State

abbrev pub requested : Text → Result ApiError GetOutput → Result StageError GetOutput
requested key (ok out) = ok out
requested key (err e) = err (not_fetched key e)

abbrev pub range_result : Text → Result ApiError GetOutput → Result StageError GetOutput
range_result key (ok out) = ok out
range_result key (err e) =
    err (if range_refused e then discard_prefix (refused e) else not_fetched key e)

abbrev pub rest_of : Text → ℕ → PrefixInfo → GetInput
rest_of key n info = record { key = key; range_from = some n; if_match = info.etag }

abbrev pub is_missing : Option Text → Bool
is_missing none = true
is_missing (some t) = false

abbrev pub continuing : Result Discard (Unit {0}) → Result StageError (Unit {0})
continuing (ok _) = ok tt
continuing (err e) = err (discard_prefix e)

-- `Lstat` and `Open` of the source's file come as what walking it gives.
abbrev pub source_body : File → Option Walked → Result StageError Body
source_body f none = err (source_failed f.path)
source_body f (some w) = if not w.regular then err (not_regular f.path) else elim w.opened [
  | none ↦ err (source_failed f.path)
  | some o ↦ ok (record { bytes = o.bytes; broken = o.broken })
]

module _ (s3 : S3) where
  abbrev pub on_files {ℓ κ} : {E : Type ℓ} {A : Type κ} → Action Fs E A → Action (World s3) E A
  on_files m (fs, st) = ((m fs).0, ((m fs).1, st))

  -- client.GetObject of a whole object
  abbrev pub get_whole : Text → Action (World s3) StageError GetOutput
  get_whole key (fs, st) = (
    requested key (s3.get_object (whole_object key) st).0,
    (fs, (s3.get_object (whole_object key) st).1),
  )

  -- client.GetObject of the bytes from an offset on, if the object is still the same.
  abbrev pub get_rest : Text → ℕ → PrefixInfo → Action (World s3) StageError GetOutput
  get_rest key n info (fs, st) = (
    range_result key (s3.get_object (rest_of key n info) st).0,
    (fs, (s3.get_object (rest_of key n info) st).1),
  )

module _ (s3 : S3) (os : Calls) (sha256_hex : Text → Text) (windows : Bool) where
  unfoldable pub download_whole : Text → File → Text → ℕ → Action (World s3) StageError (Unit {0})
  download_whole prefix f dst mode = get_whole s3 (join_path prefix f.path) >>= λ out.
      on_files s3 (write_verified os sha256_hex windows out.body f dst mode)

  unfoldable pub copy_from_source :
      (Text → Option Walked) → File → Text → ℕ → Action (World s3) StageError Bool
  copy_from_source source f dst mode = lift (source_body f (source f.path)) >>= λ body.
      on_files s3 (write_verified os sha256_hex windows body f dst mode) >> pure false

  abbrev pub extended :
      PrefixFiles → File → ℕ → Body → Text → ℕ → Action (World s3) StageError (Option GetOutput)
  extended p f n rest dst mode =
      on_files s3 (extend os sha256_hex windows p f n rest dst mode) >> pure none

  -- The answer to a ranged request: none once the file is staged, the output where the server
  -- ignored the range.
  unfoldable pub continue_with :
      PrefixFiles
      → File
      → ℕ
      → PrefixInfo
      → Text
      → ℕ
      → GetOutput
      → Action (World s3) StageError (Option GetOutput)
  continue_with p f n info dst mode out =
      if is_missing out.content_range && out.content_length == f.size
      then pure (some out)
      else (lift (continuing (check_continues out f n info)) >> extended p f n out.body dst mode)

  unfoldable pub continue_prefix :
      Text
      → PrefixFiles
      → File
      → ℕ
      → PrefixInfo
      → Text
      → ℕ
      → Action (World s3) StageError (Option GetOutput)
  continue_prefix key p f n info dst mode =
      if pos n == f.size
      then extended p f n (record { bytes = []; broken = false }) dst mode
      else (get_rest s3 key n info >>= continue_with p f n info dst mode)

  module _ (sidecar : Sidecar) where
    -- fetchWhole
    unfoldable pub fetch_whole :
        Text
        → PrefixFiles
        → File
        → Option GetOutput
        → Text
        → ℕ
        → Action (World s3) StageError (Unit {0})
    fetch_whole key p f (some out) dst mode =
        on_files s3 (keep_whole os sha256_hex windows sidecar p f out dst mode)
    fetch_whole key p f none dst mode = get_whole s3 key >>= λ out.
        on_files s3 (keep_whole os sha256_hex windows sidecar p f out dst mode)

    -- From no prefix, with the whole object if the server sent it.
    unfoldable pub start_over :
        Text → PrefixFiles → File → Option GetOutput → Text → ℕ → Action (World s3) StageError Bool
    start_over key p f whole dst mode =
        on_files s3 (on_err stuck (discard os p))
        >> (fetch_whole key p f whole dst mode >> pure false)

    -- What becomes of the attempt to continue a prefix.
    abbrev pub after_continuing :
        Text
        → PrefixFiles
        → File
        → Text
        → ℕ
        → Result StageError (Option GetOutput) × World s3
        → Result StageError Bool × World s3
    after_continuing key p f dst mode (ok none, w) = (ok true, w)
    after_continuing key p f dst mode (ok (some out), w) = start_over key p f (some out) dst mode w
    after_continuing key p f dst mode (err (discard_prefix e), w) =
        start_over key p f none dst mode w
    after_continuing key p f dst mode (err e, w) = (err e, w)

    abbrev pub after_load :
        Text
        → PrefixFiles
        → File
        → Text
        → ℕ
        → Option (ℕ × PrefixInfo)
        → Action (World s3) StageError Bool
    after_load key p f dst mode none w = start_over key p f none dst mode w
    after_load key p f dst mode (some (n, info)) w =
        after_continuing key p f dst mode (continue_prefix key p f n info dst mode w)

    unfoldable pub load_then :
        Text → PrefixFiles → File → Text → ℕ → Action (World s3) StageError Bool
    load_then key p f dst mode (fs, st) =
        after_load key p f dst mode (load os sidecar p f fs).0 ((load os sidecar p f fs).1, st)

    unfoldable pub resume_or_fetch :
        Text → Text → File → Text → ℕ → Action (World s3) StageError Bool
    resume_or_fetch prefix tmp f dst mode =
        let p = prefix_files_in tmp f.sha256 in
        on_files s3 (on_err stuck (make_dirs os))
        >> load_then (join_path prefix f.path) p f dst mode

    abbrev pub unless_stuck :
        Text
        → File
        → Text
        → ℕ
        → Result StageError Bool × World s3
        → Result StageError Bool × World s3
    unless_stuck prefix f dst mode (err (stuck e), w) =
        (download_whole prefix f dst mode >> pure false) w
    unless_stuck prefix f dst mode (r, w) = (r, w)

    unfoldable pub download_resumable :
        Text → Text → File → Text → ℕ → Action (World s3) StageError Bool
    download_resumable prefix tmp f dst mode w =
        unless_stuck prefix f dst mode (resume_or_fetch prefix tmp f dst mode w)

    unfoldable pub download_job : Text → Text → Job → Text → Action (World s3) StageError Bool
    download_job prefix tmp j dst =
        if j.resume
        then download_resumable prefix tmp j.file dst j.mode
        else (download_whole prefix j.file dst j.mode >> pure false)
