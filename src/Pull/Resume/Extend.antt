-- ===== src/Pull/Resume/Extend.antt =====
-- `extend`, `copyPrefix` and `fetchWhole` of pkg/pull/resume.go: the bytes of a download, from a kept
-- prefix or from none.
pub mod Laws
pub mod Whole
use pinsync.Base.{
  Bool, true, false, not, List, [], ◌∷◌, ◌++◌, Option, none, some, ℕ, if◌then◌else◌, Result, ok,
  err, ◌==◌, nat_eq, list_eq, length, take,
}
use pinsync.Base.Action.{Action, pure, fail, lift, on_err, ◌>>=◌, ◌>>◌}
use pinsync.Base.Int.{ℤ, pos, ◌-ℤ◌, ◌+ℤ◌}
use pinsync.Base.Text.{Text}
use pinsync.Manifest.Entry.{File}
use pinsync.Store.{Body, GetOutput}
use pinsync.Pull.Files.{Fs, Calls, FileError, copy_in, close, read_file, rename, remove}
use pinsync.Pull.Write.{
  StageError, io, stuck, mismatch, discard_prefix, Discard, shrank, bad_result, Detail, limit_from,
  closing, check_staged, write_verified,
}
use pinsync.Pull.Resume.Prefix.{
  PrefixInfo, Sidecar, PrefixFiles, discard, write_info, create_data, install,
}

-- copyPrefix: the kept bytes again in a new file, with what was read of them.
abbrev pub whole_prefix : ℕ → Text → Result StageError Text
whole_prefix n kept =
    if length kept == n then ok kept else err (discard_prefix (shrank (length kept)))

-- A mismatch of the result must not read as a staged mismatch.
abbrev pub as_discard : StageError → StageError
as_discard (mismatch path d) = discard_prefix (bad_result path d)
as_discard e = e

abbrev pub discarding : Result StageError (Unit {0}) → Result StageError (Unit {0})
discarding (ok _) = ok tt
discarding (err e) = err (as_discard e)

module _ (os : Calls) where
  -- _ = p.discard()
  abbrev pub discard_after :
      PrefixFiles → Result StageError (Unit {0}) → Action Fs StageError (Unit {0})
  discard_after p (ok _) s = (ok tt, s)
  discard_after p (err e) s = (err e, (discard os p s).1)

  unfoldable pub copy_prefix : ℕ → Text → ℕ → Action Fs StageError Text
  copy_prefix i prev n = on_err stuck (read_file os prev) >>= λ bytes.
      on_err stuck (copy_in os i n (record { bytes = bytes; broken = false })) >>= λ kept.
      lift (whole_prefix n kept)

  -- What is done while the new file is open: all bytes that the digest is of.
  unfoldable pub refill : ℕ → PrefixFiles → File → ℕ → Body → Action Fs StageError Text
  refill i p f n rest = copy_prefix i p.prev n >>= λ kept.
      on_err stuck (remove os p.prev)
      >> (on_err io (copy_in os i (limit_from (f.size -ℤ pos n) (pos 1)) rest) >>= λ got.
          pure (kept ++ got))

abbrev pub info_of : File → GetOutput → PrefixInfo
info_of f out = record {
  sha256 = f.sha256;
  size = f.size;
  etag = out.etag;
  version_id = out.version_id;
}

module _ (os : Calls) (sha256_hex : Text → Text) (windows : Bool) where
  unfoldable pub extend : PrefixFiles → File → ℕ → Body → Text → ℕ → Action Fs StageError (Unit {0})
  extend p f n rest dst mode =
      on_err stuck (rename os p.content p.prev)
      >> (on_err stuck (create_data os p.content mode) >>= λ i.
          closing os (refill os i p f n rest) >>= λ all.
          lift (discarding (check_staged sha256_hex f all)) >> install os windows p dst mode)

  module _ (sidecar : Sidecar) where
    -- fetchWhole once the server's output is at hand.
    unfoldable pub keep_whole :
        PrefixFiles → File → GetOutput → Text → ℕ → Action Fs StageError (Unit {0})
    keep_whole p f out dst mode =
        if out.etag == []
        then write_verified os sha256_hex windows out.body f dst mode
        else (on_err stuck (write_info os sidecar p (info_of f out))
            >> (on_err stuck (create_data os p.content mode) >>= λ i.
                closing os (on_err io (copy_in os i (limit_from f.size (pos 1)) out.body))
                >>= λ all.
                    discard_after os p (check_staged sha256_hex f all)
                    >> install os windows p dst mode))
