-- ===== src/Pull/Recover/Links.antt =====
-- `dropShared` (pkg/pull/recover.go): what is left has one name each.
use pinsync.Base.{
  Bool, true, false, not, ◌&&◌, ◌≡◌, refl, sym, ap, subst, ◌∙◌, [], ◌∷◌, ◌++◌, Option, none, some,
  ℕ, ◌+◌, ◌≤◌, arith, if◌then◌else◌, Result, ok, err, ◌==◌, nat_eq, All, All-map, All-append,
}
use pinsync.Pull.Disk.{
  Os, Disk, Node, Run, Tree, Place, dest, tmp, old, partial, at, place, pass, idle, FsError,
  call_failed, may_share, is_some, remove_all,
}
use pinsync.Pull.Disk.Rules.{at-place, remove_all_gone}
use pinsync.Pull.Recover.{
  names, names_at, links, drop_walk, drop_tree, drop_shared, files_of, also, wrapped, settle_old,
  keep_staged, unshare_partial, recover,
}

-- The file has no other name.
abbrev pub IsSole : Disk → Node → Type 0
IsSole d n = links n.inode d ≡ 1

names-append : (i : ℕ) (s t : Tree) → names i (s ++ t) ≡ names i s + names i t
names-append i [] t = omega arith
names-append i (n ∷ s) t = ground (arith, names-append i s t)

names_self : (n : Node) (t : Tree) → names n.inode (n ∷ t) ≡ names n.inode t + 1
names_self n t = ground arith

names_up : (i : ℕ) (n : Node) (t : Tree) → 1 ≤ names i t → 1 ≤ names i (n ∷ t)
names_up i n t h = ground arith

present : (t : Tree) → All (λ (n : Node). 1 ≤ names n.inode t) t
present [] = tt
present (n ∷ t) = (
  omega (arith, names_self n t),
  All-map {P = λ (m : Node). 1 ≤ names m.inode t} {Q = λ (m : Node). 1 ≤ names m.inode (n ∷ t)}
      (λ m h. names_up m.inode n t h) t (present t),
)

links-place :
    (i : ℕ) (d : Disk) (p : Place) (t : Option Tree)
    → links i (place d p t) + names_at i (at d p) ≡ links i d + names_at i t
unfolding links
links-place i d dest t = omega arith
links-place i d tmp t = omega arith
links-place i d old t = omega arith
links-place i d partial t = omega arith

links-lower : (i : ℕ) (d : Disk) (p : Place) → names_at i (at d p) ≤ links i d
unfolding links
links-lower i d dest = omega arith
links-lower i d tmp = omega arith
links-lower i d old = omega arith
links-lower i d partial = omega arith

-- A name that goes takes nothing from a file that is still there with its only name.
links_kept :
    (i : ℕ) (d : Disk) (p : Place) (kept ns : Tree) (n : Node)
    → at d p ≡ some (kept ++ (n ∷ ns))
    → 1 ≤ names i kept
    → links i d ≡ 1
    → links i (place d p (some (kept ++ ns))) ≡ 1
links_kept i d p kept ns n e here sole =
    let whole = ap (names_at i) e in
    omega (
      arith,
      links-place i d p (some (kept ++ ns)),
      links-lower i d p,
      whole,
      names-append i kept (n ∷ ns),
      names-append i kept ns,
      names_le i n ns,
    )
  where
    names_le : (i : ℕ) (n : Node) (ns : Tree) → names i ns ≤ names i (n ∷ ns)
    names_le i n ns = ground arith

All-kept :
    (d : Disk) (p : Place) (kept ns : Tree) (n : Node)
    → at d p ≡ some (kept ++ (n ∷ ns))
    → (part : Tree) → All (λ (m : Node). 1 ≤ names m.inode kept) part
    → All (IsSole d) part
    → All (IsSole (place d p (some (kept ++ ns)))) part
All-kept d p kept ns n e [] here sole = tt
All-kept d p kept ns n e (m ∷ part) here sole =
    (links_kept m.inode d p kept ns n e here.0 sole.0, All-kept d p kept ns n e part here.1 sole.1)

append_snoc : (xs : Tree) (n : Node) (ns : Tree) → (xs ++ (n ∷ [])) ++ ns ≡ xs ++ (n ∷ ns)
append_snoc [] n ns = refl
append_snoc (x ∷ xs) n ns = ap (λ (t : Tree). x ∷ t) (append_snoc xs n ns)

append_end : (xs : Tree) → xs ++ [] ≡ xs
append_end [] = refl
append_end (x ∷ xs) = ap (λ (t : Tree). x ∷ t) (append_end xs)

branch :
    (P : Result FsError (Unit {0}) × Run → Type 0) (b : Bool)
    (x y : Result FsError (Unit {0}) × Run)
    → (b ≡ true → P x)
    → (b ≡ false → P y)
    → P (elim b [ true ↦ x | false ↦ y ])
branch P true x y f g = f refl
branch P false x y f g = g refl

-- If the walk succeeded, every file left in the tree has its only name there.
abbrev AllSole : Place → Result FsError (Unit {0}) × Run → Type 0
AllSole p x = x.0 ≡ ok tt → All (IsSole x.1.disk) (files_of (at x.1.disk p))

failed : (p : Place) (e : FsError) (r : Run) → AllSole p (err e, r)
failed p e r h = cc

sole_links : (b : Bool) (l : ℕ) → (not b && l == 1) ≡ true → l ≡ 1
sole_links b l h = ground arith

wrapped_sole :
    (x : Result FsError (Unit {0}) × Run)
    → (x.0 ≡ ok tt → at x.1.disk partial ≡ none)
    → AllSole partial (wrapped may_share x)
wrapped_sole (ok u, r) f h = subst (λ o. All (IsSole r.disk) (files_of o)) (sym (f refl)) tt
wrapped_sole (err e, r) f h = cc

last_ok : (a b : Result FsError (Unit {0})) → also a b ≡ ok tt → b ≡ ok tt
last_ok (ok u) b h = h
last_ok (err e) (ok u) h = refl
last_ok (err e) (err f) h = cc

module _ (os : Os) where
  drop_walk-IsSole :
      (p : Place) (kept ns : Tree) (r : Run)
      → at r.disk p ≡ some (kept ++ ns)
      → All (IsSole r.disk) kept
      → AllSole p (drop_walk os p kept ns r)
  unfolding drop_walk
  drop_walk-IsSole p kept [] r e sole = λ h.
      subst (λ o. All (IsSole r.disk) (files_of o))
        (sym (e ∙ ap {B = Option Tree} some (append_end kept))) sole
  drop_walk-IsSole p kept (n ∷ ns) r e sole =
      let looked : Run = idle (idle r) in
      let removed : Run = pass (place r.disk p (some (kept ++ ns))) looked in
      branch (AllSole p) (os.fails r.calls) _ _ (λ f. failed p (call_failed r.calls) (idle r))
        (λ f.
          branch (AllSole p) (not (os.fails (r.calls + 1)) && links n.inode r.disk == 1) _ _
            (λ one.
              drop_walk-IsSole p (kept ++ (n ∷ [])) ns looked
                (e ∙ ap {B = Option Tree} some (sym (append_snoc kept n ns)))
                (All-append (IsSole r.disk) kept (n ∷ []) sole
                  (sole_links (os.fails (r.calls + 1)) (links n.inode r.disk) one, tt)))
            (λ more.
              branch (AllSole p) (os.fails looked.calls) _ _
                (λ g. failed p (call_failed looked.calls) (idle looked))
                (λ g.
                  drop_walk-IsSole p kept ns removed (at-place r.disk p (some (kept ++ ns)))
                    (All-kept r.disk p kept ns n e kept (present kept) sole))))

  -- After a success, no file that is left under the root has a second name, there or anywhere else.
  pub drop_shared-IsSole :
      (p : Place) (r : Run)
      → (drop_shared os p r).0 ≡ ok tt
      → All (IsSole (drop_shared os p r).1.disk) (files_of (at (drop_shared os p r).1.disk p))
  unfolding drop_shared
  drop_shared-IsSole p r = go (at r.disk p) refl
    where
      go : (o : Option Tree) → at r.disk p ≡ o → AllSole p (drop_tree os p o r)
      go none e = failed p (call_failed r.calls) (idle r)
      go (some t) e = drop_walk-IsSole p [] t r e tt

  gone_sole : (r : Run) → AllSole partial (wrapped may_share (remove_all os partial r))
  gone_sole r = wrapped_sole (remove_all os partial r) (remove_all_gone os partial r)

  unshare_partial-IsSole : (r : Run) → AllSole partial (unshare_partial os r)
  unfolding unshare_partial
  unshare_partial-IsSole r = go r.disk.at_partial refl
    where
      tried : Result FsError (Unit {0}) × Run
      tried = elim (drop_shared os partial r).0 [
        | ok _ ↦ (ok tt, (drop_shared os partial r).1)
        | err x ↦ wrapped may_share (remove_all os partial (drop_shared os partial r).1)
      ]

      after :
          (x : Result FsError (Unit {0}))
          → AllSole partial (x, (drop_shared os partial r).1)
          → AllSole partial (elim x [
            | ok _ ↦ (ok tt, (drop_shared os partial r).1)
            | err x ↦ wrapped may_share (remove_all os partial (drop_shared os partial r).1)
          ])
      after (ok u) h = h
      after (err x) h = gone_sole (drop_shared os partial r).1

      tried_sole : AllSole partial tried
      tried_sole = after (drop_shared os partial r).0 (drop_shared-IsSole partial r)

      go :
          (o : Option Tree)
          → r.disk.at_partial ≡ o
          → AllSole partial (if not (is_some o) then (ok tt, r) else tried)
      go none e = λ h. subst (λ o. All (IsSole r.disk) (files_of o)) (sym e) tt
      go (some t) e = tried_sole

  -- A recovery that succeeds leaves no file in the partial tree that has a second name, so that no
  -- file kept there is a live one.
  pub recover-IsSole :
      (r : Run)
      → (recover os r).0 ≡ ok tt
      → All (IsSole (recover os r).1.disk) (files_of (recover os r).1.disk.at_partial)
  unfolding recover
  recover-IsSole r h =
      unshare_partial-IsSole (keep_staged os (settle_old os r).1).1
        (last_ok (also (settle_old os r).0 (keep_staged os (settle_old os r).1).0) _ h)
