-- ===== src/Pull/Recover.antt =====
-- pkg/pull/recover.go, with `soleName` of link_unix.go: what a pull does first, for a kill may have
-- cut the last one off at any state.
pub mod Frame
pub mod Links
pub mod Safety
use pinsync.Base.{
  Bool, true, false, not, ◌&&◌, List, [], ◌∷◌, ◌++◌, Option, none, some, ℕ, zero, suc, ◌+◌,
  if◌then◌else◌, Result, ok, err, ◌==◌, nat_eq, list_eq,
}
use pinsync.Base.Action.{Action}
use pinsync.Base.Text.{Text, lit, has_prefix}
use pinsync.Pull.Disk.{
  Os, Node, Disk, Run, Tree, Place, dest, tmp, old, partial, at, place, pass, idle, FsError,
  call_failed, not_restored, stale_old, stale_tmp, may_share, joined, exists, rename, remove_all,
}

-- The names in a tree that are hard links of one file.
abbrev pub names : ℕ → Tree → ℕ
names i [] = 0
names i (n ∷ ns) = let rest = names i ns in if n.inode == i then rest + 1 else rest

abbrev pub names_at : ℕ → Option Tree → ℕ
names_at i none = 0
names_at i (some t) = names i t

abbrev pub others : ℕ → List ℕ → ℕ
others i [] = 0
others i (j ∷ js) = let rest = others i js in if j == i then rest + 1 else rest

-- Nlink
unfoldable pub links : ℕ → Disk → ℕ
links i d =
    names_at i d.at_dest
    + names_at i d.at_tmp
    + names_at i d.at_old
    + names_at i d.at_partial
    + others i d.elsewhere

-- errors.Join of the error so far and the next result.
abbrev pub also : Result FsError (Unit {0}) → Result FsError (Unit {0}) → Result FsError (Unit {0})
also (ok _) s = s
also (err e) (ok _) = err e
also (err e) (err f) = err (joined e f)

abbrev pub wrapped :
    (FsError → FsError) → Result FsError (Unit {0}) × Run → Result FsError (Unit {0}) × Run
wrapped f (ok u, r) = (ok u, r)
wrapped f (err e, r) = (err (f e), r)

-- resumeDir and a slash
abbrev pub resume_prefix : Text
resume_prefix = lit ".pinsync-resume/"

abbrev pub has_path : Text → Tree → Bool
has_path p [] = false
has_path p (n ∷ ns) = if n.path == p then true else has_path p ns

abbrev pub without : Text → Tree → Tree
without p [] = []
without p (n ∷ ns) = let rest = without p ns in if n.path == p then rest else n ∷ rest

abbrev pub prefixes : Tree → Tree
prefixes [] = []
prefixes (n ∷ ns) =
    let rest = prefixes ns in if has_prefix n.path resume_prefix then n ∷ rest else rest

abbrev pub files_of : Option Tree → Tree
files_of none = []
files_of (some t) = t

module _ (os : Os) where
  -- The walk at one file: a call for its entry, a call of `soleName`, and the removal of its name
  -- where there is another or `soleName` fails.
  unfoldable pub drop_walk : Place → Tree → Tree → Action Run FsError (Unit {0})
  drop_walk p kept [] r = (ok tt, r)
  drop_walk p kept (n ∷ ns) r =
      let looked = idle (idle r) in
      let removed = pass (place r.disk p (some (kept ++ ns))) looked in
      elim (os.fails r.calls) [
        | true ↦ (err (call_failed r.calls), idle r)
        | false ↦ elim (not (os.fails (r.calls + 1)) && links n.inode r.disk == 1) [
          | true ↦ drop_walk p (kept ++ (n ∷ [])) ns looked
          | false ↦ elim (os.fails looked.calls) [
            | true ↦ (err (call_failed looked.calls), idle looked)
            | false ↦ drop_walk p kept ns removed
          ]
        ]
      ]

  -- A walk over a missing root fails.
  abbrev pub drop_tree : Place → Option Tree → Action Run FsError (Unit {0})
  drop_tree p none r = (err (call_failed r.calls), idle r)
  drop_tree p (some t) r = drop_walk p [] t r

  unfoldable pub drop_shared : Place → Action Run FsError (Unit {0})
  drop_shared p r = drop_tree p (at r.disk p) r

  -- The loop of `stashPrefixes`: a rename of one file each, unless the name is taken.
  unfoldable pub stash_loop : Tree → Run → Run
  stash_loop [] r = r
  stash_loop (n ∷ ns) r =
      let from = files_of r.disk.at_tmp in
      let to = files_of r.disk.at_partial in
      let moved =
        pass (place (place r.disk tmp (some (without n.path from))) partial (some (to ++ (n ∷ []))))
          r in
      let next = if has_path n.path to then r else if os.fails r.calls then idle r else moved in
      stash_loop ns next

  -- MkdirAll of the resume directory, then the loop, where there is an entry.
  abbrev pub stash_entries : Tree → Run → Run
  stash_entries [] r = r
  stash_entries (n ∷ ns) r =
      if os.fails r.calls
      then idle r
      else stash_loop (n ∷ ns) (pass (place r.disk partial (some (files_of r.disk.at_partial))) r)

  unfoldable pub stash_prefixes : Run → Run
  stash_prefixes r =
      if os.fails r.calls
      then idle r
      else stash_entries (prefixes (files_of r.disk.at_tmp)) (idle r)

  abbrev pub remove_tmp : Action Run FsError (Unit {0})
  remove_tmp r = wrapped stale_tmp (remove_all os tmp r)

  -- The renaming of a tree without shared names, and what follows where it cannot be.
  unfoldable pub keep_or_stash : Action Run FsError (Unit {0})
  keep_or_stash r =
      if exists partial r then remove_tmp (stash_prefixes r) else elim (rename os tmp partial r).0 [
        | ok _ ↦ (ok tt, (rename os tmp partial r).1)
        | err e ↦ remove_tmp (stash_prefixes (rename os tmp partial r).1)
      ]

  unfoldable pub keep_staged : Action Run FsError (Unit {0})
  unfolding keep_or_stash drop_shared
  keep_staged r = if not (exists tmp r) then (ok tt, r) else elim (drop_shared tmp r).0 [
    | ok _ ↦ keep_or_stash (drop_shared tmp r).1
    | err e ↦ remove_tmp (drop_shared tmp r).1
  ]

  unfoldable pub unshare_partial : Action Run FsError (Unit {0})
  unfolding drop_shared
  unshare_partial r =
      if not (exists partial r) then (ok tt, r) else elim (drop_shared partial r).0 [
        | ok _ ↦ (ok tt, (drop_shared partial r).1)
        | err e ↦ wrapped may_share (remove_all os partial (drop_shared partial r).1)
      ]

  -- The switch on the old tree.
  unfoldable pub settle_old : Action Run FsError (Unit {0})
  settle_old r =
      if not (exists old r)
      then (ok tt, r)
      else if exists dest r
      then wrapped stale_old (remove_all os old r)
      else wrapped not_restored (rename os old dest r)

  -- recoverInterrupted
  unfoldable pub recover : Action Run FsError (Unit {0})
  unfolding settle_old keep_staged unshare_partial
  recover r =
      let (first, r₁) = settle_old r in
      let (second, r₂) = keep_staged r₁ in
      let (third, r₃) = unshare_partial r₂ in (also (also first second) third, r₃)
