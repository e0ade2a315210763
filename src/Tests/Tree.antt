-- ===== src/Tests/Tree.antt =====
-- The laws of swaps and of recovery at a small tree.
use pinsync.Base.{false, ◌≡◌, refl, inl, inr, [], ◌∷◌, none, some, Result, ok, err, All}
use pinsync.Base.Text.{lit}
use pinsync.Pull.Disk.{Os, Run, Tree, at, partial}
use pinsync.Pull.Disk.Rules.{Ensures}
use pinsync.Pull.Swap.{swap}
use pinsync.Pull.Swap.Safety.{Swapped, Unswapped, swap-IsSafe}
use pinsync.Pull.Recover.{drop_shared, recover, files_of}
use pinsync.Pull.Recover.Frame.{IsUnstaged}
use pinsync.Pull.Recover.Safety.{AlwaysSafe, IsRestored, recover-IsSafe}
use pinsync.Pull.Recover.Links.{IsSole, drop_shared-IsSole, recover-IsSole}

abbrev old_tree : Tree
old_tree = record { path = lit "motd"; inode = 1 } ∷ []

abbrev new_tree : Tree
new_tree = record { path = lit "motd"; inode = 2 } ∷ []

abbrev failing : Os
failing = record { fails = λ n. false; crumbs = λ n t. [] ∷ []; remains = λ n t. t }

abbrev staged : Run
staged = record {
  disk = record {
    at_dest = some old_tree;
    at_tmp = some new_tree;
    at_old = none;
    at_partial = none;
    elsewhere = [];
  };
  calls = 0;
  passed = [];
}

swap-IsSafe_example :
    Ensures
      (Unswapped failing (some old_tree) new_tree)
      (Swapped failing (some old_tree) new_tree)
      (swap failing 3 staged)
swap-IsSafe_example =
    swap-IsSafe failing (some old_tree) new_tree 3 staged refl refl
      (record { now = inl (refl, inl refl); past = tt })

-- A kill between the renames of a swap: the old tree aside, and a partial tree with a live file's second name.
abbrev killed : Run
killed = record {
  disk = record {
    at_dest = none;
    at_tmp = some new_tree;
    at_old = some old_tree;
    at_partial = some (record { path = lit "copy"; inode = 1 } ∷ []);
    elsewhere = [];
  };
  calls = 0;
  passed = [];
}

recover-IsSafe_example :
    Ensures
      (AlwaysSafe (some old_tree) new_tree)
      (λ s.
        AlwaysSafe (some old_tree) new_tree s
        × (IsRestored (some old_tree) new_tree s × IsUnstaged s))
      (recover failing killed)
recover-IsSafe_example =
    recover-IsSafe (some old_tree) new_tree failing killed
      (record { now = inr (refl, refl); past = tt })

recovered : (recover failing killed).0 ≡ ok tt
unfolding recover pinsync.Pull.Disk.rename pinsync.Pull.Disk.remove_all
    pinsync.Pull.Recover.drop_walk pinsync.Pull.Recover.links pinsync.Pull.Recover.drop_shared
    pinsync.Pull.Recover.stash_prefixes pinsync.Pull.Recover.stash_loop
    pinsync.Pull.Recover.keep_or_stash pinsync.Pull.Recover.settle_old
    pinsync.Pull.Recover.keep_staged pinsync.Pull.Recover.unshare_partial
    pinsync.Base.Text.has_prefix
recovered = refl

recover-IsSole_example :
    All
      (IsSole (recover failing killed).1.disk)
      (files_of (recover failing killed).1.disk.at_partial)
recover-IsSole_example = recover-IsSole failing killed recovered

dropped : (drop_shared failing partial killed).0 ≡ ok tt
unfolding drop_shared pinsync.Pull.Recover.drop_walk pinsync.Pull.Recover.links
dropped = refl

drop_shared-IsSole_example :
    All
      (IsSole (drop_shared failing partial killed).1.disk)
      (files_of (at (drop_shared failing partial killed).1.disk partial))
drop_shared-IsSole_example = drop_shared-IsSole failing partial killed dropped
