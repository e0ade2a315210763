-- ===== src/Pull/Disk/Rules.antt =====
-- How to reason about the calls on the disk: what a result ensures, and a rule for each call.
use pinsync.Base.{
  refl, ◌||◌, ◌≡◌, ◌⊎◌, sym, ap, subst, ◌∙◌, List, [], ◌∷◌, Option, none, some, Result, ok, err,
  Bool-cases, Option-cases, All, All-append, inl, inr,
}
use pinsync.Pull.Disk.{
  dest, tmp, old, partial, crumble, Os, Disk, Run, Tree, Place, at, place, crumble, pass, idle,
  FsError, call_failed, rename, rename_tree, remove_all, remove_tree, blocks,
}

-- `P` holds of the run after an error, `Q` after a success.
abbrev pub Ensures : (Run → Type 0) → (Run → Type 0) → Result FsError (Unit {0}) × Run → Type 0
Ensures P Q (ok _, r) = Q r
Ensures P Q (err _, r) = P r

-- Every state of the run so far satisfies `S`, the present one too.
pub record Always (S : Disk → Type 0) (r : Run) : Type 0 where
  pub now : S r.disk
  pub past : All S r.passed

pub Always-pass : (S : Disk → Type 0) (d : Disk) (r : Run) → S d → Always S r → Always S (pass d r)
Always-pass S d r s h = record { now = s; past = All-append S r.passed (d ∷ []) h.past (s, tt) }

pub Always-idle : (S : Disk → Type 0) (r : Run) → Always S r → Always S (idle r)
Always-idle S r h = record { now = h.now; past = h.past }

-- What a failed call and any change at the place leave true.
pub record IsClosed (I : Run → Type 0) (p : Place) : Type 0 where
  pub idles : (r : Run) → I r → I (idle r)
  pub passes : (r : Run) (t : Option Tree) → I r → I (pass (place r.disk p t) r)

pub at-place : (d : Disk) (p : Place) (t : Option Tree) → at (place d p t) p ≡ t
at-place d dest t = refl
at-place d tmp t = refl
at-place d old t = refl
at-place d partial t = refl

-- The rule for a call and what follows its error or its success.
pub Ensures-then :
    (P Q P' Q' : Run → Type 0) (f : FsError → Run → Result FsError (Unit {0}) × Run)
    (g : Run → Result FsError (Unit {0}) × Run)
    → ((e : FsError) (r : Run) → P r → Ensures P' Q' (f e r))
    → ((r : Run) → Q r → Ensures P' Q' (g r))
    → (x : Result FsError (Unit {0}) × Run) → Ensures P Q x
    → Ensures P' Q' (elim x.0 [ ok _ ↦ g x.1 | err e ↦ f e x.1 ])
Ensures-then P Q P' Q' f g hf hg (ok _, r) h = hg r h
Ensures-then P Q P' Q' f g hf hg (err e, r) h = hf e r h

module _ (os : Os) where
  pub rename_cases :
      (from to : Place) (r : Run)
      → (rename os from to r ≡ (err (call_failed r.calls), idle r))
        ⊎ ((t : Tree) × (at r.disk from ≡ some t)
            × (rename os from to r ≡ (ok tt, pass (place (place r.disk from none) to (some t)) r)))
  unfolding rename
  rename_cases from to r = elim (Option-cases (at r.disk from)) [
    | inl e ↦ inl (ap (λ o. rename_tree os from to o r) e)
    | inr (t, e) ↦ elim (Bool-cases (os.fails r.calls || blocks (at r.disk to))) [
      | inl b ↦ inl (ap (λ o. rename_tree os from to o r) e ∙ rw b)
      | inr b ↦ inr (t, e, ap (λ o. rename_tree os from to o r) e ∙ rw b)
    ]
  ]

  -- The rule for a rename: nothing happened, or the source moved.
  pub rename_rule :
      (P Q : Run → Type 0) (from to : Place) (r : Run)
      → P (idle r)
      → ((t : Tree)
          → at r.disk from ≡ some t
          → Q (pass (place (place r.disk from none) to (some t)) r))
      → Ensures P Q (rename os from to r)
  rename_rule P Q from to r p q = elim (rename_cases from to r) [
    | inl e ↦ subst (Ensures P Q) (sym e) p
    | inr (t, e, k) ↦ subst (Ensures P Q) (sym k) (q t e)
  ]

  crumble_rule :
      (I : Run → Type 0) (p : Place)
      → IsClosed I p
      → (ts : List Tree) (r : Run) → I r
      → I (crumble ts p r)
  crumble_rule I p c [] r h = h
  crumble_rule I p c (t ∷ ts) r h =
      crumble_rule I p c ts (pass (place r.disk p (some t)) r) (c.passes r (some t) h)

  -- The rule for a removal, which may end at any state of its place.
  pub remove_all_rule :
      (I : Run → Type 0) (p : Place) → IsClosed I p → (r : Run) → I r → I (remove_all os p r).1
  unfolding remove_all
  remove_all_rule I p c r h = go (at r.disk p)
    where
      go : (o : Option Tree) → I (remove_tree os p o r).1
      go none = c.idles r h
      go (some t) =
          let r' = crumble (os.crumbs r.calls t) p r in
          let h' = crumble_rule I p c (os.crumbs r.calls t) r h in
          elim (Bool-cases (os.fails r'.calls)) [
            | inl e ↦ rw e (c.passes r' (some (os.remains r'.calls t)) h')
            | inr e ↦ rw e (c.passes r' none h')
          ]

  -- A removal that succeeds leaves nothing.
  pub remove_all_gone :
      (p : Place) (r : Run) → (remove_all os p r).0 ≡ ok tt → at (remove_all os p r).1.disk p ≡ none
  unfolding remove_all
  remove_all_gone p r = go (at r.disk p) refl
    where
      go :
          (o : Option Tree)
          → at r.disk p ≡ o
          → (remove_tree os p o r).0 ≡ ok tt
          → at (remove_tree os p o r).1.disk p ≡ none
      go none e h = e
      go (some t) e h =
          let r' = crumble (os.crumbs r.calls t) p r in
          elim (Bool-cases (os.fails r'.calls)) [
            | inl f ↦ absurd (cc (rw f at h))
            | inr f ↦ rw f (at-place r'.disk p none)
          ]
