-- ===== src/Pull/Disk.antt =====
-- The directory that a pull owns and its siblings (pkg/pull/pull.go, `Siblings`), with the calls of
-- package os on them. A call may fail at any time: `Os` says which do. Every state that the calls
-- pass through is recorded, for a kill can leave any of them behind.
pub mod Rules
use pinsync.Base.{
  Bool, true, false, not, ◌&&◌, ◌||◌, List, [], ◌∷◌, ◌++◌, Option, none, some, ℕ, zero, suc, ◌+◌,
  if◌then◌else◌, ltb, Result, ok, err, ◌==◌, nat_eq, list_eq,
}
use pinsync.Base.Action.{Action}
use pinsync.Base.Text.{Text, lit}

-- A file's name in a tree, and the file that it names: two names of one inode are hard links.
pub record Node : Type 0 where
  pub path : Text
  pub inode : ℕ

-- The files of a tree in walk order.
abbrev pub Tree : Type 0
Tree = List Node

pub data Place : Type 0 where
  dest tmp old partial : Place

-- The trees at the four places, and the inodes that have a name elsewhere, once for each name.
pub record Disk : Type 0 where
  pub at_dest : Option Tree
  pub at_tmp : Option Tree
  pub at_old : Option Tree
  pub at_partial : Option Tree
  pub elsewhere : List ℕ

abbrev pub at : Disk → Place → Option Tree
at d dest = d.at_dest
at d tmp = d.at_tmp
at d old = d.at_old
at d partial = d.at_partial

abbrev pub place : Disk → Place → Option Tree → Disk
place d dest t = record d { at_dest = t }
place d tmp t = record d { at_tmp = t }
place d old t = record d { at_old = t }
place d partial t = record d { at_partial = t }

-- Which calls fail, by their number in the run; the trees that removing one passes through; and
-- what a removal that fails leaves.
pub record Os : Type 0 where
  pub fails : ℕ → Bool
  pub crumbs : ℕ → Tree → List Tree
  pub remains : ℕ → Tree → Tree

pub record Run : Type 0 where
  pub disk : Disk
  pub calls : ℕ
  pub passed : List Disk

-- `no_error` is the nil that is wrapped where no attempt was made.
pub data FsError : Type 0 where
  no_error : FsError
  call_failed : ℕ → FsError
  rename_gave_up : Place → Place → FsError → FsError
  rollback_failed : FsError → FsError → FsError
  stale_old : FsError → FsError
  not_restored : FsError → FsError
  stale_tmp : FsError → FsError
  may_share : FsError → FsError
  joined : FsError → FsError → FsError

-- The run goes on from a new state of the disk.
abbrev pub pass : Disk → Run → Run
pass d r = record { disk = d; calls = r.calls + 1; passed = r.passed ++ (d ∷ []) }

-- A call that changes nothing.
abbrev pub idle : Run → Run
idle r = record r { calls = r.calls + 1 }

abbrev pub is_some {ℓ} : {A : Type ℓ} → Option A → Bool
is_some none = false
is_some (some a) = true

-- exists
abbrev pub exists : Place → Run → Bool
exists p r = is_some (at r.disk p)

-- A directory with files is in the way of a rename.
abbrev pub blocks : Option Tree → Bool
blocks none = false
blocks (some []) = false
blocks (some (n ∷ ns)) = true

-- The states that removing a tree passes through.
abbrev pub crumble : List Tree → Place → Run → Run
crumble [] p r = r
crumble (t ∷ ts) p r = crumble ts p (pass (place r.disk p (some t)) r)

module _ (os : Os) where
  -- os.Rename of a whole tree: atomic, refused where the source is missing or the target in the way.
  abbrev pub rename_tree : Place → Place → Option Tree → Action Run FsError (Unit {0})
  rename_tree from to none r = (err (call_failed r.calls), idle r)
  rename_tree from to (some t) r =
      if os.fails r.calls || blocks (at r.disk to)
      then (err (call_failed r.calls), idle r)
      else (ok tt, pass (place (place r.disk from none) to (some t)) r)

  unfoldable pub rename : Place → Place → Action Run FsError (Unit {0})
  rename from to r = rename_tree from to (at r.disk from) r

  -- os.RemoveAll: file by file, and no error where there is nothing.
  abbrev pub remove_tree : Place → Option Tree → Action Run FsError (Unit {0})
  remove_tree p none r = (ok tt, idle r)
  remove_tree p (some t) r =
      let r' = crumble (os.crumbs r.calls t) p r in
      if os.fails r'.calls
      then (err (call_failed r'.calls), pass (place r'.disk p (some (os.remains r'.calls t))) r')
      else (ok tt, pass (place r'.disk p none) r')

  unfoldable pub remove_all : Place → Action Run FsError (Unit {0})
  remove_all p r = remove_tree p (at r.disk p) r
