-- ===== src/Pull/Files.antt =====
-- Files as a pull stages them: names that stand for inodes, the calls of package os on them, and the
-- copies of io.Copy. A name that two trees share is a hard link. A call may fail at any time, and a
-- write that fails has written some of its bytes. Directories are made along the way and not modelled.
pub mod Names
pub mod Rules
use pinsync.Base.{
  Bool, true, false, not, ◌&&◌, ◌||◌, List, [], ◌∷◌, ◌++◌, Option, none, some, ℕ, ◌+◌, ◌/◌, ◌%◌,
  if◌then◌else◌, ltb, Result, ok, err, ◌==◌, nat_eq, list_eq, length, take,
}
use pinsync.Base.Action.{Action}
use pinsync.Base.Dict.{Dict, get, put, erase}
use pinsync.Base.Text.{Text}
use pinsync.Store.{Body}

pub record Inode : Type 0 where
  pub bytes : Text
  pub mode : ℕ
  pub regular : Bool

-- `fresh` is the first inode not in use; `calls` counts the calls that may fail.
pub record Fs : Type 0 where
  pub names : Dict Text ℕ
  pub inodes : Dict ℕ Inode
  pub fresh : ℕ
  pub calls : ℕ

-- Which calls fail, by number, how many bytes a write that fails has written, and which names stay
-- where the removal of a tree fails.
pub record Calls : Type 0 where
  pub fails : ℕ → Bool
  pub written : ℕ → ℕ
  pub stays : ℕ → Text → Bool

-- fs.ErrNotExist, fs.ErrExist, any other failure of a call, and a source that breaks.
pub data FileError : Type 0 where
  missing present : Text → FileError
  failed : ℕ → FileError
  broken : FileError

abbrev pub tick : Fs → Fs
tick s = record s { calls = s.calls + 1 }

abbrev pub has_name : Text → Fs → Bool
has_name name s = elim (get s.names name) [ none ↦ false | some i ↦ true ]

-- The file that a name stands for.
abbrev pub find : Text → Fs → Option Inode
find name s = elim (get s.names name) [ none ↦ none | some i ↦ get s.inodes i ]

abbrev pub store_inode : ℕ → Inode → Fs → Fs
store_inode i nd s = record s { inodes = put s.inodes i nd; calls = s.calls + 1 }

abbrev pub with_bytes : Text → Inode → Inode
with_bytes more nd = record nd { bytes = nd.bytes ++ more }

-- More bytes at the end of a file that is open.
abbrev pub append_inode : ℕ → Text → Option Inode → Fs → Fs
append_inode i more none s = tick s
append_inode i more (some nd) s = store_inode i (with_bytes more nd) s

unfoldable pub append_to : ℕ → Text → Fs → Fs
append_to i more s = append_inode i more (get s.inodes i) s

abbrev pub set_mode : ℕ → ℕ → Option Inode → Fs → Fs
set_mode i mode none s = tick s
set_mode i mode (some nd) s = store_inode i (record nd { mode = mode }) s

-- The calls on a name, with what it stands for.
abbrev pub read_inode : Text → Option Inode → Action Fs FileError Text
read_inode name none s = (err (missing name), tick s)
read_inode name (some nd) s = (ok nd.bytes, tick s)

abbrev pub rename_inode : Text → Text → Option ℕ → Action Fs FileError (Unit {0})
rename_inode from to none s = (err (missing from), tick s)
rename_inode from to (some i) s =
    (ok tt, record s { names = put (erase s.names from) to i; calls = s.calls + 1 })

abbrev pub link_inode : Text → Text → Option ℕ → Action Fs FileError (Unit {0})
link_inode from to none s = (err (missing from), tick s)
link_inode from to (some i) s = (ok tt, record s { names = put s.names to i; calls = s.calls + 1 })

abbrev pub chmod_inode : Text → ℕ → Option ℕ → Action Fs FileError (Unit {0})
chmod_inode name mode none s = (err (missing name), tick s)
chmod_inode name mode (some i) s = (ok tt, set_mode i mode (get s.inodes i) s)

module _ (os : Calls) where
  -- os.OpenFile with O_WRONLY, O_CREATE and O_EXCL: a new file, never one that is there.
  unfoldable pub create : Text → ℕ → Action Fs FileError ℕ
  create name mode s =
      if os.fails s.calls
      then (err (failed s.calls), tick s)
      else if has_name name s
      then (err (present name), tick s)
      else (
        ok s.fresh,
        record {
          names = put s.names name s.fresh;
          inodes = put s.inodes s.fresh (record { bytes = []; mode = mode; regular = true });
          fresh = s.fresh + 1;
          calls = s.calls + 1;
        },
      )

  -- io.Copy from an io.LimitReader of a body, with what was read.
  unfoldable pub copy_in : ℕ → ℕ → Body → Action Fs FileError Text
  copy_in i limit body s =
      let read = take limit body.bytes in
      if os.fails s.calls
      then (err (failed s.calls), append_to i (take (os.written s.calls) read) s)
      else if body.broken && ltb (length body.bytes) limit
      then (err broken, append_to i read s)
      else (ok read, append_to i read s)

  unfoldable pub close : Action Fs FileError (Unit {0})
  close s = if os.fails s.calls then (err (failed s.calls), tick s) else (ok tt, tick s)

  -- os.MkdirAll
  unfoldable pub make_dirs : Action Fs FileError (Unit {0})
  make_dirs s = if os.fails s.calls then (err (failed s.calls), tick s) else (ok tt, tick s)

  -- os.Open and reading to the end.
  unfoldable pub read_file : Text → Action Fs FileError Text
  read_file name s =
      if os.fails s.calls then (err (failed s.calls), tick s) else read_inode name (find name s) s

  -- os.Rename of a file, over one that is there.
  unfoldable pub rename : Text → Text → Action Fs FileError (Unit {0})
  rename from to s =
      if os.fails s.calls
      then (err (failed s.calls), tick s)
      else rename_inode from to (get s.names from) s

  -- os.Link, refused where the target is there.
  unfoldable pub link_file : Text → Text → Action Fs FileError (Unit {0})
  link_file from to s =
      if os.fails s.calls
      then (err (failed s.calls), tick s)
      else if has_name to s
      then (err (present to), tick s)
      else link_inode from to (get s.names from) s

  -- os.Remove
  unfoldable pub remove : Text → Action Fs FileError (Unit {0})
  remove name s =
      if not (has_name name s)
      then (err (missing name), tick s)
      else if os.fails s.calls
      then (err (failed s.calls), tick s)
      else (ok tt, record s { names = erase s.names name; calls = s.calls + 1 })

  -- os.Chmod
  unfoldable pub chmod_file : Text → ℕ → Action Fs FileError (Unit {0})
  chmod_file name mode s =
      if os.fails s.calls
      then (err (failed s.calls), tick s)
      else chmod_inode name mode (get s.names name) s
