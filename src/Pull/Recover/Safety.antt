-- ===== src/Pull/Recover/Safety.antt =====
-- Recovery after a kill: every state on the way is safe, and a success has the live tree in place.
use pinsync.Base.{
  true, false, not, ◌≡◌, ◌⊎◌, refl, sym, ap, ◌∙◌, Option, none, some, if◌then◌else◌, Result, ok,
  err, inl, inr,
}
use pinsync.Pull.Disk.{
  Os, Disk, Run, Tree, dest, tmp, old, partial, place, FsError, not_restored, stale_old, is_some,
  rename, remove_all,
}
use pinsync.Pull.Disk.Rules.{
  Ensures, Always, Always-pass, Always-idle, IsClosed, rename_rule, remove_all_rule,
  remove_all_gone,
}
use pinsync.Pull.Swap.Safety.{IsSafe, IsLive}
use pinsync.Pull.Recover.{also, wrapped, keep_staged, unshare_partial, settle_old, recover}
use pinsync.Pull.Recover.Frame.{
  IsBeside, wrapped-Ensures, Ensures-ok, to-Ensures, Any, IsUnstaged, unshare_partial_rule,
  keep_staged_rule, keep_staged-IsUnstaged,
}

module _ (before : Option Tree) (new : Tree) where
  abbrev pub AlwaysSafe : Run → Type 0
  AlwaysSafe = Always (IsSafe before new)

  -- The destination is the tree from before the replacement or the new one, and no old tree is left.
  abbrev pub IsRestored : Run → Type 0
  IsRestored r = ((r.disk.at_dest ≡ before) ⊎ (r.disk.at_dest ≡ some new)) × (r.disk.at_old ≡ none)

  abbrev Restored : Run → Type 0
  Restored r = AlwaysSafe r × IsRestored r

  abbrev Lively : Run → Type 0
  Lively r = AlwaysSafe r × IsLive before new r.disk

  Lively-IsClosed : IsClosed Lively old
  Lively-IsClosed = record {
    idles = λ r h. (Always-idle (IsSafe before new) r h.0, h.1);
    passes = λ r t h. (Always-pass (IsSafe before new) (place r.disk old t) r (inl h.1) h.0, h.1);
  }

  AlwaysSafe-IsBeside : IsBeside AlwaysSafe
  AlwaysSafe-IsBeside = record {
    at_tmp_closed = record {
      idles = λ r h. Always-idle (IsSafe before new) r h;
      passes = λ r t h. Always-pass (IsSafe before new) (place r.disk tmp t) r h.now h;
    };
    at_partial_closed = record {
      idles = λ r h. Always-idle (IsSafe before new) r h;
      passes = λ r t h. Always-pass (IsSafe before new) (place r.disk partial t) r h.now h;
    };
    moves =
        λ r t u h. Always-pass (IsSafe before new) (place (place r.disk tmp t) partial u) r h.now h;
  }

  IsRestored-IsBeside : IsBeside IsRestored
  IsRestored-IsBeside = record {
    at_tmp_closed = record { idles = λ r h. h; passes = λ r t h. h };
    at_partial_closed = record { idles = λ r h. h; passes = λ r t h. h };
    moves = λ r t u h. h;
  }

  IsUnstaged-IsClosed : IsClosed IsUnstaged partial
  IsUnstaged-IsClosed = record { idles = λ r h. h; passes = λ r t h. h }

  -- What stands at the destination when there is no old tree.
  settled :
      (d : Disk)
      → IsSafe before new d
      → d.at_old ≡ none
      → (d.at_dest ≡ before) ⊎ (d.at_dest ≡ some new)
  settled d (inl live) e = live.1
  settled d (inr aside) e = inl (aside.0 ∙ sym e ∙ aside.1)

  IsLive-dest :
      (d : Disk) (t : Tree) → IsSafe before new d → d.at_dest ≡ some t → IsLive before new d
  IsLive-dest d t (inl live) e = live
  IsLive-dest d t (inr aside) e = let p : none ≡ some t = sym aside.0 ∙ e in absurd (cc p)

  aside_dest : (d : Disk) → IsSafe before new d → d.at_dest ≡ none → d.at_old ≡ before
  aside_dest d (inl live) e = let p : true ≡ false = sym live.0 ∙ ap is_some e in absurd (cc p)
  aside_dest d (inr aside) e = aside.1

  to_any : (x : Result FsError (Unit {0}) × Run) → Ensures AlwaysSafe Restored x → AlwaysSafe x.1
  to_any (ok u, r) h = h.0
  to_any (err e, r) h = h

  module _ (os : Os) where
    removed_old :
        (r : Run)
        → AlwaysSafe r
        → IsLive before new r.disk
        → Ensures AlwaysSafe Restored (wrapped stale_old (remove_all os old r))
    removed_old r h live =
        let kept = remove_all_rule os Lively old Lively-IsClosed r (h, live) in
        wrapped-Ensures AlwaysSafe Restored stale_old (remove_all os old r) (
          to-Ensures AlwaysSafe Restored (remove_all os old r) kept.0
            (λ e. (kept.0, (kept.1.1, remove_all_gone os old r e))))

    renamed_old :
        (r : Run)
        → AlwaysSafe r
        → r.disk.at_old ≡ before
        → Ensures AlwaysSafe Restored (wrapped not_restored (rename os old dest r))
    renamed_old r h e = wrapped-Ensures AlwaysSafe Restored not_restored (rename os old dest r) (
        rename_rule os AlwaysSafe Restored old dest r (Always-idle (IsSafe before new) r h) (λ t m.
          let back = sym m ∙ e in
          (
            Always-pass (IsSafe before new) (place (place r.disk old none) dest (some t)) r
                (inl (refl, inl back)) h,
            (inl back, refl),
          )))

    settle_old_rule : (r : Run) → AlwaysSafe r → Ensures AlwaysSafe Restored (settle_old os r)
    unfolding settle_old
    settle_old_rule r h = go r.disk.at_old r.disk.at_dest refl refl
      where
        go :
            (o d : Option Tree)
            → r.disk.at_old ≡ o
            → r.disk.at_dest ≡ d
            → Ensures AlwaysSafe Restored (
                if not (is_some o)
                then (ok tt, r)
                else if is_some d
                then wrapped stale_old (remove_all os old r)
                else wrapped not_restored (rename os old dest r))
        go none d e k = (h, (settled r.disk h.now e, e))
        go (some t) (some u) e k = removed_old r h (IsLive-dest r.disk u h.now k)
        go (some t) none e k = renamed_old r h (aside_dest r.disk h.now k)

    joined_end :
        (a b c : Result FsError (Unit {0})) (r : Run)
        → AlwaysSafe r
        → (a ≡ ok tt → IsRestored r)
        → (b ≡ ok tt → IsUnstaged r)
        → Ensures AlwaysSafe
            (λ s. AlwaysSafe s × (IsRestored s × IsUnstaged s))
            (also (also a b) c, r)
    joined_end (ok _) (ok _) (ok _) r h f g = (h, (f refl, g refl))
    joined_end (ok _) (ok _) (err z) r h f g = h
    joined_end (ok _) (err y) (ok _) r h f g = h
    joined_end (ok _) (err y) (err z) r h f g = h
    joined_end (err x) (ok _) (ok _) r h f g = h
    joined_end (err x) (ok _) (err z) r h f g = h
    joined_end (err x) (err y) (ok _) r h f g = h
    joined_end (err x) (err y) (err z) r h f g = h

    -- Whatever state a kill left of a replacement, and however often recovery itself is killed, every
    -- state that recovery passes through is one from which the old or the new tree can be had back.
    -- If it succeeds, one of the two is in place, no old tree is left and no staging tree.
    pub recover-IsSafe :
        (r : Run)
        → AlwaysSafe r
        → Ensures AlwaysSafe (λ s. AlwaysSafe s × (IsRestored s × IsUnstaged s)) (recover os r)
    unfolding recover
    recover-IsSafe r h =
        let r₁ = (settle_old os r).1 in
        let r₂ = (keep_staged os r₁).1 in
        let first = settle_old_rule r h in
        let h₁ = to_any (settle_old os r) first in
        let h₂ = keep_staged_rule os AlwaysSafe AlwaysSafe-IsBeside r₁ h₁ in
        joined_end (settle_old os r).0 (keep_staged os r₁).0 (unshare_partial os r₂).0
          (unshare_partial os r₂).1
          (unshare_partial_rule os AlwaysSafe AlwaysSafe-IsBeside.at_partial_closed r₂ h₂)
          (λ e. unshare_partial_rule os IsRestored IsRestored-IsBeside.at_partial_closed r₂ (
            keep_staged_rule os IsRestored IsRestored-IsBeside r₁
              (Ensures-ok AlwaysSafe Restored (settle_old os r) first e).1))
          (λ e.
            unshare_partial_rule os IsUnstaged IsUnstaged-IsClosed r₂
              (Ensures-ok Any IsUnstaged (keep_staged os r₁) (keep_staged-IsUnstaged os r₁) e))
