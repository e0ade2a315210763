-- ===== src/Pull/Recover/Frame.antt =====
-- What the steps of recovery (pkg/pull/recover.go) keep, and what their successes leave.
use pinsync.Base.{
  Bool, true, false, not, ◌≡◌, refl, sym, subst, [], ◌∷◌, ◌++◌, Option, none, some, arith,
  if◌then◌else◌, Result, ok, err, nat_eq, Bool-cases, Option-cases, inl, inr,
}
use pinsync.Pull.Disk.{
  Os, Run, Tree, Place, tmp, partial, at, place, pass, idle, FsError, stale_tmp, may_share, exists,
  is_some, rename, remove_all,
}
use pinsync.Pull.Disk.Rules.{
  Ensures, Ensures-then, IsClosed, rename_rule, rename_cases, remove_all_rule, remove_all_gone,
}
use pinsync.Pull.Recover.{
  wrapped, drop_walk, drop_tree, drop_shared, stash_loop, stash_entries, stash_prefixes, remove_tmp,
  keep_or_stash, keep_staged, unshare_partial, files_of, prefixes, without, has_path,
}

wrapped_run : (f : FsError → FsError) (x : Result FsError (Unit {0}) × Run) → (wrapped f x).1 ≡ x.1
wrapped_run f (ok u, r) = refl
wrapped_run f (err e, r) = refl

-- What no change at the staging and the partial tree can make false.
pub record IsBeside (I : Run → Type 0) : Type 0 where
  pub at_tmp_closed : IsClosed I tmp
  pub at_partial_closed : IsClosed I partial
  pub moves :
      (r : Run) (t u : Option Tree) → I r → I (pass (place (place r.disk tmp t) partial u) r)

pub if_rule {ℓ κ} :
    {A : Type ℓ} (P : A → Type κ) (b : Bool) (x y : A) → P x → P y → P (if b then x else y)
if_rule P true x y hx hy = hx
if_rule P false x y hx hy = hy

-- Whatever a call's result is, what follows it keeps `P`.
after_rule :
    (P : Result FsError (Unit {0}) × Run → Type 0) (x : Result FsError (Unit {0}))
    (f : Result FsError (Unit {0}) × Run) (g : FsError → Result FsError (Unit {0}) × Run)
    → P f
    → ((e : FsError) → P (g e))
    → P (elim x [ ok _ ↦ f | err e ↦ g e ])
after_rule P (ok _) f g hf hg = hf
after_rule P (err e) f g hf hg = hg e

module _ (os : Os) where
  module _ (I : Run → Type 0) where
    drop_walk_rule :
        (p : Place)
        → IsClosed I p
        → (kept ns : Tree) (r : Run) → I r
        → I (drop_walk os p kept ns r).1
    unfolding drop_walk
    drop_walk_rule p c kept [] r h = h
    drop_walk_rule p c kept (n ∷ ns) r h =
        let h₁ = c.idles r h in
        let looked : Run = idle (idle r) in
        let h₂ = c.idles (idle r) h₁ in
        ground (
          arith,
          drop_walk_rule p c (kept ++ (n ∷ [])) ns looked h₂,
          c.idles looked h₂,
          drop_walk_rule p c kept ns (pass (place r.disk p (some (kept ++ ns))) looked)
              (c.passes looked (some (kept ++ ns)) h₂),
        )

    drop_shared_rule : (p : Place) → IsClosed I p → (r : Run) → I r → I (drop_shared os p r).1
    unfolding drop_shared
    drop_shared_rule p c r h = go (at r.disk p)
      where
        go : (o : Option Tree) → I (drop_tree os p o r).1
        go none = c.idles r h
        go (some t) = drop_walk_rule p c [] t r h

    pub unshare_partial_rule : IsClosed I partial → (r : Run) → I r → I (unshare_partial os r).1
    unfolding unshare_partial
    unshare_partial_rule c r h =
        let h' = drop_shared_rule partial c r h in
        let gone = remove_all os partial (drop_shared os partial r).1 in
        if_rule (λ (x : Result FsError (Unit {0}) × Run). I x.1) (not (exists partial r)) _ _ h
          (after_rule (λ x. I x.1) (drop_shared os partial r).0
            (ok tt, (drop_shared os partial r).1) (λ e. wrapped may_share gone) h'
            (λ e. subst I (sym (wrapped_run may_share gone)) (remove_all_rule os I partial c _ h')))

    module _ (b : IsBeside I) where
      beside_idle : (r : Run) → I r → I (idle r)
      beside_idle r h = b.at_tmp_closed.idles r h

      stash_loop_rule : (ns : Tree) (r : Run) → I r → I (stash_loop os ns r)
      unfolding stash_loop
      stash_loop_rule [] r h = h
      stash_loop_rule (n ∷ ns) r h =
          let from = files_of r.disk.at_tmp in
          let to = files_of r.disk.at_partial in
          let moved =
            pass
              (place (place r.disk tmp (some (without n.path from))) partial
                (some (to ++ (n ∷ []))))
              r in
          let tried = if os.fails r.calls then idle r else moved in
          stash_loop_rule ns (if has_path n.path to then r else tried) (
            if_rule I (has_path n.path to) r tried h (
              if_rule I (os.fails r.calls) (idle r) moved (beside_idle r h)
                (b.moves r (some (without n.path from)) (some (to ++ (n ∷ []))) h)))

      stash_entries_rule : (ns : Tree) (r : Run) → I r → I (stash_entries os ns r)
      stash_entries_rule [] r h = h
      stash_entries_rule (n ∷ ns) r h = elim (Bool-cases (os.fails r.calls)) [
        | inl e ↦ rw e (beside_idle r h)
        | inr e ↦ rw e (
            stash_loop_rule (n ∷ ns) _
              (b.at_partial_closed.passes r (some (files_of r.disk.at_partial)) h))
      ]

      stash_prefixes_rule : (r : Run) → I r → I (stash_prefixes os r)
      unfolding stash_prefixes
      stash_prefixes_rule r h = elim (Bool-cases (os.fails r.calls)) [
        | inl e ↦ rw e (beside_idle r h)
        | inr e ↦
            rw e (stash_entries_rule (prefixes (files_of r.disk.at_tmp)) (idle r) (beside_idle r h))
      ]

      remove_tmp_rule : (r : Run) → I r → I (remove_tmp os r).1
      remove_tmp_rule r h =
          subst I (sym (wrapped_run stale_tmp (remove_all os tmp r)))
            (remove_all_rule os I tmp b.at_tmp_closed r h)

      rename_run : (r : Run) → I r → I (rename os tmp partial r).1
      rename_run r h = elim (rename_cases os tmp partial r) [
        | inl e ↦ subst (λ x. I x.1) (sym e) (beside_idle r h)
        | inr (t, e, k) ↦ subst (λ x. I x.1) (sym k) (b.moves r none (some t) h)
      ]

      keep_or_stash_rule : (r : Run) → I r → I (keep_or_stash os r).1
      unfolding keep_or_stash
      keep_or_stash_rule r h =
          if_rule (λ (x : Result FsError (Unit {0}) × Run). I x.1) (exists partial r) _ _
            (remove_tmp_rule (stash_prefixes os r) (stash_prefixes_rule r h))
            (let h' = rename_run r h in
              after_rule (λ x. I x.1) (rename os tmp partial r).0
                (ok tt, (rename os tmp partial r).1)
                (λ e. remove_tmp os (stash_prefixes os (rename os tmp partial r).1)) h'
                (λ e. remove_tmp_rule _ (stash_prefixes_rule _ h')))

      pub keep_staged_rule : (r : Run) → I r → I (keep_staged os r).1
      unfolding keep_staged
      keep_staged_rule r h =
          let h' = drop_shared_rule tmp b.at_tmp_closed r h in
          if_rule (λ (x : Result FsError (Unit {0}) × Run). I x.1) (not (exists tmp r)) _ _ h
            (after_rule (λ x. I x.1) (drop_shared os tmp r).0
              (keep_or_stash os (drop_shared os tmp r).1)
              (λ e. remove_tmp os (drop_shared os tmp r).1) (keep_or_stash_rule _ h')
              (λ e. remove_tmp_rule _ h'))

pub wrapped-Ensures :
    (P Q : Run → Type 0) (f : FsError → FsError) (x : Result FsError (Unit {0}) × Run)
    → Ensures P Q x
    → Ensures P Q (wrapped f x)
wrapped-Ensures P Q f (ok u, r) h = h
wrapped-Ensures P Q f (err e, r) h = h

pub Ensures-ok :
    (P Q : Run → Type 0) (x : Result FsError (Unit {0}) × Run) → Ensures P Q x → x.0 ≡ ok tt → Q x.1
Ensures-ok P Q (ok u, r) h e = h
Ensures-ok P Q (err x, r) h e = cc

-- From what a call leaves in either case, and what it leaves after a success.
pub to-Ensures :
    (P Q : Run → Type 0) (x : Result FsError (Unit {0}) × Run)
    → P x.1
    → (x.0 ≡ ok tt → Q x.1)
    → Ensures P Q x
to-Ensures P Q (ok u, r) p q = q refl
to-Ensures P Q (err x, r) p q = p

abbrev pub Any : Run → Type 0
Any r = Unit {0}

-- There is no staging tree.
abbrev pub IsUnstaged : Run → Type 0
IsUnstaged r = r.disk.at_tmp ≡ none

module _ (os : Os) where
  remove_tmp-IsUnstaged : (r : Run) → Ensures Any IsUnstaged (remove_tmp os r)
  remove_tmp-IsUnstaged r =
      wrapped-Ensures Any IsUnstaged stale_tmp (remove_all os tmp r)
        (to-Ensures Any IsUnstaged (remove_all os tmp r) tt (remove_all_gone os tmp r))

  keep_or_stash-IsUnstaged : (r : Run) → Ensures Any IsUnstaged (keep_or_stash os r)
  unfolding keep_or_stash
  keep_or_stash-IsUnstaged r =
      if_rule (Ensures Any IsUnstaged) (exists partial r) _ _
        (remove_tmp-IsUnstaged (stash_prefixes os r))
        (Ensures-then Any IsUnstaged Any IsUnstaged (λ e r'. remove_tmp os (stash_prefixes os r'))
          (λ r'. (ok tt, r')) (λ e r' p. remove_tmp-IsUnstaged (stash_prefixes os r')) (λ r' q. q)
          (rename os tmp partial r) (rename_rule os Any IsUnstaged tmp partial r tt (λ t m. refl)))

  pub keep_staged-IsUnstaged : (r : Run) → Ensures Any IsUnstaged (keep_staged os r)
  unfolding keep_staged
  keep_staged-IsUnstaged r = elim (Option-cases r.disk.at_tmp) [
    | inl e ↦ rw e refl
    | inr (t, e) ↦
        subst
          (λ o. Ensures Any IsUnstaged (
            if not (is_some o) then (ok tt, r) else elim (drop_shared os tmp r).0 [
              | ok _ ↦ keep_or_stash os (drop_shared os tmp r).1
              | err e ↦ remove_tmp os (drop_shared os tmp r).1
            ]))
          (sym e)
          (after_rule (Ensures Any IsUnstaged) (drop_shared os tmp r).0
            (keep_or_stash os (drop_shared os tmp r).1)
            (λ e. remove_tmp os (drop_shared os tmp r).1) (keep_or_stash-IsUnstaged _)
            (λ e. remove_tmp-IsUnstaged _))
  ]
