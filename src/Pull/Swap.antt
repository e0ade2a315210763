-- ===== src/Pull/Swap.antt =====
-- pkg/pull/swap.go: replacing the destination by the staging tree.
pub mod Safety
use pinsync.Base.{
  Bool, true, false, Option, none, some, ℕ, zero, suc, if◌then◌else◌, Result, ok, err,
}
use pinsync.Base.Action.{Action}
use pinsync.Pull.Disk.{
  Os, Run, Place, dest, tmp, old, FsError, no_error, rename_gave_up, rollback_failed, exists, idle,
  rename, remove_all,
}

module _ (os : Os) where
  -- The loop of `renameRetry` with the attempts left and the last error; its pauses are left out.
  unfoldable pub rename_attempts : ℕ → Place → Place → FsError → Action Run FsError (Unit {0})
  rename_attempts zero from to last r = (err (rename_gave_up from to last), r)
  rename_attempts (suc n) from to last r = elim (rename os from to r).0 [
    | ok _ ↦ (ok tt, (rename os from to r).1)
    | err e ↦ rename_attempts n from to e (rename os from to r).1
  ]

  unfoldable pub rename_retry : ℕ → Place → Place → Action Run FsError (Unit {0})
  unfolding rename_attempts
  rename_retry attempts from to = rename_attempts attempts from to no_error

  -- The end of `swap` once the new tree is in: an old tree that stays is left to the next pull.
  unfoldable pub drop_old : Bool → Action Run FsError (Unit {0})
  drop_old false r = (ok tt, r)
  drop_old true r = (ok tt, (remove_all os old r).1)

  -- The answer to a failed second rename.
  unfoldable pub roll_back : Bool → FsError → Action Run FsError (Unit {0})
  roll_back false e r = (err e, r)
  roll_back true e r = elim (rename os old dest r).0 [
    | ok _ ↦ (err e, (rename os old dest r).1)
    | err rb ↦ (err (rollback_failed e rb), (rename os old dest r).1)
  ]

  -- The second rename and what follows it.
  unfoldable pub move_in : ℕ → Bool → Action Run FsError (Unit {0})
  unfolding drop_old roll_back
  move_in attempts dest_existed r = elim (rename_retry attempts tmp dest r).0 [
    | ok _ ↦ drop_old dest_existed (rename_retry attempts tmp dest r).1
    | err e ↦ roll_back dest_existed e (rename_retry attempts tmp dest r).1
  ]

  unfoldable pub move_aside : ℕ → Bool → Action Run FsError (Unit {0})
  move_aside attempts false r = (ok tt, r)
  move_aside attempts true r = rename_retry attempts dest old r

  unfoldable pub swap : ℕ → Action Run FsError (Unit {0})
  unfolding move_in move_aside
  swap attempts r =
      let dest_existed = exists dest r in
      elim (move_aside attempts dest_existed r).0 [
        | err e ↦ (err e, (move_aside attempts dest_existed r).1)
        | ok _ ↦ move_in attempts dest_existed (move_aside attempts dest_existed r).1
      ]
