-- ===== src/Pull/Write.antt =====
-- Writing one staged file: `writeVerified`, `checkStaged`, `copyFile`, `chmod`, `linkOrCopy`,
-- `readOnlyOnWindows` of pkg/pull/stage.go.
pub mod Laws
use pinsync.Base.{
  Bool, true, false, not, ◌&&◌, List, [], ◌∷◌, ℕ, ◌+◌, ◌/◌, ◌%◌, if◌then◌else◌, Result, ok, err,
  ◌==◌, nat_eq, list_eq, length,
}
use pinsync.Base.Action.{Action, pure, lift, on_err, ◌>>=◌, ◌>>◌}
use pinsync.Base.Int.{ℤ, pos, pos_part, ◌+ℤ◌, ltb_ℤ}
use pinsync.Base.Text.{Text}
use pinsync.Manifest.Entry.{File}
use pinsync.Store.{ApiError, Body}
use pinsync.Pull.Files.{
  Fs, Calls, FileError, create, copy_in, close, read_file, link_file, chmod_file,
}

-- The detail of a stagedMismatchError.
pub data Detail : Type 0 where
  exceeds : ℤ → Detail
  falls_short : ℕ → ℤ → Detail
  hashes : Text → Text → Detail

-- Why a kept prefix is discarded (errDiscardPrefix).
pub data Discard : Type 0 where
  refused : ApiError → Discard
  range_differs etag_differs version_differs : Text → Text → Discard
  shrank : ℕ → Discard
  bad_result : Text → Detail → Discard

-- `stuck` wraps errPrefixStuck; texts that an error is wrapped in are left out.
pub data StageError : Type 0 where
  io : FileError → StageError
  mismatch : Text → Detail → StageError
  not_fetched : Text → ApiError → StageError
  source_failed not_regular : Text → StageError
  discard_prefix : Discard → StageError
  stuck : FileError → StageError
  stale_staging : Text → StageError

-- f.Size + k, as the limit of an io.LimitReader.
abbrev pub limit_from : ℤ → ℤ → ℕ
limit_from size k = pos_part (size +ℤ k)

abbrev pub prefer {ℓ} :
    {A : Type ℓ} → Result StageError A → Result FileError (Unit {0}) → Result StageError A
prefer (err e) c = err e
prefer (ok a) (err e) = err (io e)
prefer (ok a) (ok _) = ok a

-- The file is closed whether the work on it failed or not; the work's error comes first.
abbrev pub closing {ℓ} : {A : Type ℓ} → Calls → Action Fs StageError A → Action Fs StageError A
closing os m s = let (r, s') = m s in let (c, s'') = close os s' in (prefer r c, s'')

-- mode & 0o200 == 0
unfoldable pub read_only_on_windows : Bool → ℕ → Bool
read_only_on_windows windows mode = windows && (mode / 128) % 2 == 0

module _ (sha256_hex : Text → Text) where
  unfoldable pub check_staged : File → Text → Result StageError (Unit {0})
  check_staged f staged =
      let n = pos (length staged) in
      if ltb_ℤ f.size n
      then err (mismatch f.path (exceeds f.size))
      else if ltb_ℤ n f.size
      then err (mismatch f.path (falls_short (length staged) f.size))
      else if sha256_hex staged == f.sha256
      then ok tt
      else err (mismatch f.path (hashes (sha256_hex staged) f.sha256))

-- An error of os.Chmod counts only off Windows.
abbrev pub chmod_result : Bool → Result FileError (Unit {0}) → Result StageError (Unit {0})
chmod_result windows (ok _) = ok tt
chmod_result windows (err e) = if windows then ok tt else err (io e)

module _ (os : Calls) (windows : Bool) where
  unfoldable pub chmod : Text → ℕ → Action Fs StageError (Unit {0})
  chmod name mode s = let (r, s') = chmod_file os name mode s in (chmod_result windows r, s')

module _ (os : Calls) (sha256_hex : Text → Text) (windows : Bool) where
  unfoldable pub write_verified : Body → File → Text → ℕ → Action Fs StageError (Unit {0})
  write_verified body f dst mode = on_err io (create os dst mode) >>= λ i.
      closing os (on_err io (copy_in os i (limit_from f.size (pos 1)) body)) >>= λ staged.
      lift (check_staged sha256_hex f staged) >> chmod os windows dst mode

  -- A source that breaks while it is copied counts as a write that fails.
  unfoldable pub copy_file : Text → File → Text → ℕ → Action Fs StageError (Unit {0})
  copy_file src f dst mode = on_err io (read_file os src) >>= λ bytes.
      write_verified (record { bytes = bytes; broken = false }) f dst mode

  abbrev pub or_copy :
      Action Fs StageError Bool → Result FileError (Unit {0}) × Fs → Result StageError Bool × Fs
  or_copy copied (ok _, s) = (ok true, s)
  or_copy copied (err e, s) = copied s

  -- Whether it linked.
  unfoldable pub link_or_copy : Text → File → ℕ → Text → Bool → Action Fs StageError Bool
  link_or_copy src f mode dst copy_only s =
      let copied = copy_file src f dst mode >> pure false in
      if copy_only then copied s else or_copy copied (link_file os src dst s)
