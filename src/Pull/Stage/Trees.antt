-- ===== src/Pull/Stage/Trees.antt =====
-- Whole trees of files while a pull stages: os.RemoveAll, and `dropShared` and `stashPrefixes` of
-- pkg/pull/recover.go on names that stand for inodes.
pub mod Laws
use pinsync.Base.{
  Bool, true, false, not, ◌&&◌, ◌||◌, List, [], ◌∷◌, ◌++◌, ℕ, ◌+◌, if◌then◌else◌, Result, ok, err,
  ◌==◌, nat_eq, list_eq, length, drop,
}
use pinsync.Base.Action.{Action, ◌>>◌}
use pinsync.Base.Dict.{Dict}
use pinsync.Base.Slash.{join_path}
use pinsync.Base.Text.{Text, lit, has_prefix}
use pinsync.Pull.Classify.{resume_dir}
use pinsync.Pull.Files.{Fs, Calls, FileError, failed, tick, has_name, make_dirs, rename, remove}

-- The names of a tree's files.
abbrev pub under : Text → Text → Bool
under root name = has_prefix name (root ++ lit "/")

unfoldable pub any_under : Text → Dict Text ℕ → Bool
any_under root [] = false
any_under root ((n, i) ∷ names) =
    let rest = any_under root names in if under root n then true else rest

unfoldable pub erase_under : Text → (Text → Bool) → Dict Text ℕ → Dict Text ℕ
erase_under root stays [] = []
erase_under root stays ((n, i) ∷ names) =
    let rest = erase_under root stays names in
    if under root n && not (stays n) then rest else (n, i) ∷ rest

-- How many names stand for an inode.
unfoldable pub names_of : ℕ → Dict Text ℕ → ℕ
names_of i [] = 0
names_of i ((n, k) ∷ names) = let rest = names_of i names in if k == i then rest + 1 else rest

abbrev pub with_names : Dict Text ℕ → Fs → Fs
with_names names s = record s { names = names; calls = s.calls + 1 }

module _ (os : Calls) where
  -- os.RemoveAll: a removal that fails may have removed a part.
  unfoldable pub remove_tree : Text → Action Fs FileError (Unit {0})
  remove_tree root s =
      if os.fails s.calls
      then (err (failed s.calls), with_names (erase_under root (os.stays s.calls) s.names) s)
      else (ok tt, with_names (erase_under root (λ n. false) s.names) s)

  -- `dropShared` at the names of a tree: a call of `soleName`, which may fail, and the removal.
  unfoldable pub drop_names : Text → Dict Text ℕ → Action Fs FileError (Unit {0})
  drop_names root [] s = (ok tt, s)
  drop_names root ((n, i) ∷ names) s = elim (under root n) [
    | false ↦ drop_names root names s
    | true ↦ elim (not (os.fails s.calls) && names_of i s.names == 1) [
      | true ↦ drop_names root names (tick s)
      | false ↦ (remove os n >> drop_names root names) (tick s)
    ]
  ]

  -- What `stage` does between its phases: the partial tree goes, or at least its names of shared files.
  abbrev pub after_removal :
      Text → Result FileError (Unit {0}) × Fs → Result FileError (Unit {0}) × Fs
  after_removal root (ok _, s) = (ok tt, s)
  after_removal root (err e, s) = drop_names root s.names s

  unfoldable pub release_partial : Text → Action Fs FileError (Unit {0})
  release_partial partial s = after_removal partial (remove_tree partial s)

  -- The loop of `stashPrefixes` from one resume directory to another.
  unfoldable pub stash_names : Text → Text → Dict Text ℕ → Fs → Fs
  stash_names from to [] s = s
  stash_names from to ((n, i) ∷ names) s =
      let moved = to ++ drop (length from) n in
      let next = if not (under from n) || has_name moved s then s else (rename os n moved s).1 in
      stash_names from to names next

  abbrev pub after_mkdir : Text → Text → Result FileError (Unit {0}) × Fs → Fs
  after_mkdir from to (ok _, s) = stash_names from to s.names s
  after_mkdir from to (err e, s) = s

  -- `stashPrefixes`; the reading of the directory may fail too.
  unfoldable pub stash : Text → Text → Fs → Fs
  stash tmp partial s =
      let from = join_path tmp resume_dir in
      let to = join_path partial resume_dir in
      if os.fails s.calls || not (any_under from s.names)
      then tick s
      else after_mkdir from to (make_dirs os (tick s))

  abbrev pub removed_or :
      Text → Text → Result FileError (Unit {0}) × Fs → Result FileError (Unit {0}) × Fs
  removed_or tmp partial (ok _, s) = (ok tt, s)
  removed_or tmp partial (err e, s) = remove_tree (join_path tmp resume_dir) (stash tmp partial s)

  unfoldable pub clear_resume_dir : Text → Text → Action Fs FileError (Unit {0})
  clear_resume_dir tmp partial s = removed_or tmp partial (remove_tree (join_path tmp resume_dir) s)
