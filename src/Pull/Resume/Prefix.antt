-- ===== src/Pull/Resume/Prefix.antt =====
-- The files of a kept prefix: `prefixFilesIn`, `inspect`, `load`, `discard`, `writeInfo`, `install`,
-- `adoptPrefixes`, `checkContinues` and `rangeRefused` of pkg/pull/resume.go.
use pinsync.Base.{
  Bool, false, not, ◌&&◌, ◌||◌, List, [], ◌∷◌, ◌++◌, Option, none, some, ℕ, ◌+◌, ◌/◌, ◌%◌,
  if◌then◌else◌, Result, ok, err, ◌==◌, nat_eq, list_eq, length, take,
}
use pinsync.Base.Action.{Action, pure, on_err, ◌>>=◌, ◌>>◌}
use pinsync.Base.Decimal.{decimal}
use pinsync.Base.Int.{ℤ, pos, pos_part, ◌-ℤ◌, ltb_ℤ, int_eq}
use pinsync.Base.Slash.{join_path}
use pinsync.Base.Text.{Text, lit}
use pinsync.Manifest.Entry.{File}
use pinsync.Store.{ApiError, GetOutput}
use pinsync.Pull.Classify.{resume_dir}
use pinsync.Pull.Files.{
  Inode, Fs, Calls, FileError, missing, find, has_name, create, copy_in, close, read_file,
  make_dirs, rename, remove,
}
use pinsync.Pull.Jobs.{Job}
use pinsync.Pull.Write.{
  StageError, stuck, Discard, range_differs, etag_differs, version_differs, chmod,
}

pub record PrefixInfo : Type 0 where
  pub sha256 : Text
  pub size : ℤ
  pub etag : Text
  pub version_id : Text

-- encoding/json on the sidecar.
pub record Sidecar : Type 0 where
  pub write : PrefixInfo → Text
  pub read : Text → Option PrefixInfo

pub record PrefixFiles : Type 0 where
  pub content : Text
  pub prev : Text
  pub info : Text

unfoldable pub prefix_files_in : Text → Text → PrefixFiles
prefix_files_in root sum =
    let base = join_path (join_path root resume_dir) sum in
    record { content = base; prev = base ++ lit ".prev"; info = base ++ lit ".json" }

abbrev pub info_tmp : PrefixFiles → Text
info_tmp p = p.info ++ lit ".tmp"

-- rangeRefused
unfoldable pub range_refused : ApiError → Bool
range_refused e = elim e.status [ none ↦ false | some n ↦ n == 412 || n == 416 ] || elim e.code [
  | none ↦ false
  | some c ↦ c == lit "PreconditionFailed" || c == lit "InvalidRange"
]

abbrev pub text_of : Option Text → Text
text_of none = []
text_of (some t) = t

-- fmt.Sprintf("bytes %d-%d/%d", n, size-1, size) for a size that is not zero.
abbrev pub range_of : ℕ → ℤ → Text
range_of n size =
    lit "bytes "
    ++ (decimal n
        ++ (lit "-"
            ++ (decimal (pos_part (size -ℤ pos 1)) ++ (lit "/" ++ decimal (pos_part size)))))

unfoldable pub check_continues : GetOutput → File → ℕ → PrefixInfo → Result Discard (Unit {0})
check_continues out f n info =
    let want = range_of n f.size in
    if not (text_of out.content_range == want)
    then err (range_differs (text_of out.content_range) want)
    else if not (out.etag == info.etag)
    then err (etag_differs out.etag info.etag)
    else if not (out.version_id == [])
        && not (info.version_id == [])
        && not (out.version_id == info.version_id)
    then err (version_differs out.version_id info.version_id)
    else ok tt

-- mode|0o200
abbrev pub owner_writable : ℕ → ℕ
owner_writable mode = if (mode / 128) % 2 == 0 then mode + 128 else mode

-- os.Lstat of the content's file, with what the sidecar was read as.
abbrev pub fits : File → PrefixInfo → Option Inode → Option (ℕ × PrefixInfo)
fits f info none = none
fits f info (some nd) =
    if not nd.regular || length nd.bytes == 0 || ltb_ℤ f.size (pos (length nd.bytes))
    then none
    else some (length nd.bytes, info)

abbrev pub described : File → Option PrefixInfo → Option Inode → Option (ℕ × PrefixInfo)
described f none nd = none
described f (some info) nd =
    if not (info.sha256 == f.sha256) || not (info.size == f.size) || info.etag == []
    then none
    else fits f info nd

-- os.Remove where fs.ErrNotExist is no error.
abbrev pub unless_missing : Result FileError (Unit {0}) → Result FileError (Unit {0})
unless_missing (ok _) = ok tt
unless_missing (err (missing n)) = ok tt
unless_missing (err e) = err e

module _ (os : Calls) where
  unfoldable pub remove_old : Text → Action Fs FileError (Unit {0})
  remove_old name s = let (r, s') = remove os name s in (unless_missing r, s')

  unfoldable pub remove_each : List Text → Action Fs FileError (Unit {0})
  remove_each [] = pure tt
  remove_each (n ∷ ns) = remove_old n >> remove_each ns

  unfoldable pub discard : PrefixFiles → Action Fs FileError (Unit {0})
  discard p = remove_each (p.content ∷ p.prev ∷ p.info ∷ info_tmp p ∷ [])

  -- The file is closed after the write whether it failed or not.
  abbrev pub closed_write : Result FileError Text × Fs → Result FileError (Unit {0}) × Fs
  closed_write (err e, s) = (err e, (close os s).1)
  closed_write (ok t, s) = close os s

  abbrev pub write_closed : ℕ → Text → Action Fs FileError (Unit {0})
  write_closed i raw s =
      closed_write (copy_in os i (length raw) (record { bytes = raw; broken = false }) s)

  -- createData
  unfoldable pub create_data : Text → ℕ → Action Fs FileError ℕ
  create_data name mode = create os name (owner_writable mode)

  -- _ = removeFn(p.info)
  abbrev pub remove_quietly : Text → Action Fs StageError (Unit {0})
  remove_quietly name s = (ok tt, (remove os name s).1)

  unfoldable pub install : Bool → PrefixFiles → Text → ℕ → Action Fs StageError (Unit {0})
  install windows p dst mode =
      on_err stuck (rename os p.content dst) >> (remove_quietly p.info >> chmod os windows dst mode)

  -- One of the moves of `adoptPrefixes`; a failure only costs the resume.
  unfoldable pub adopt_file : Text → Text → Fs → Fs
  adopt_file from to s = if has_name from s then ((make_dirs os >> rename os from to) s).1 else s

  unfoldable pub adopt_prefixes : Text → Text → List Job → Fs → Fs
  adopt_prefixes partial tmp [] s = s
  adopt_prefixes partial tmp (j ∷ js) s =
      let from = prefix_files_in partial j.file.sha256 in
      let to = prefix_files_in tmp j.file.sha256 in
      let moved =
        adopt_file from.info to.info
          (adopt_file from.prev to.prev (adopt_file from.content to.content s)) in
      adopt_prefixes partial tmp js (if j.resume then moved else s)

module _ (os : Calls) (sidecar : Sidecar) where
  abbrev pub inspected : File → Result FileError Text → Option Inode → Option (ℕ × PrefixInfo)
  inspected f (err e) nd = none
  inspected f (ok raw) nd = described f (sidecar.read (take 4096 raw)) nd

  unfoldable pub inspect : PrefixFiles → File → Fs → Option (ℕ × PrefixInfo) × Fs
  inspect p f s =
      let content = if has_name p.prev s then p.prev else p.content in
      let (raw, s') = read_file os p.info s in (inspected f raw (find content s'), s')

  abbrev pub inspect_after :
      PrefixFiles → File → Result FileError (Unit {0}) × Fs → Option (ℕ × PrefixInfo) × Fs
  inspect_after p f (ok _, s) = inspect p f s
  inspect_after p f (err e, s) = (none, s)

  unfoldable pub load : PrefixFiles → File → Fs → Option (ℕ × PrefixInfo) × Fs
  load p f s =
      if has_name p.prev s then inspect_after p f (rename os p.prev p.content s) else inspect p f s

  unfoldable pub write_info : PrefixFiles → PrefixInfo → Action Fs FileError (Unit {0})
  write_info p info =
      let raw = sidecar.write info in
      remove_old os (info_tmp p)
      >> (create os (info_tmp p) 420 >>= λ i.
          write_closed os i raw >> rename os (info_tmp p) p.info)
