-- ===== src/Pull/Swap/Safety.antt =====
-- Whatever a swap (pkg/pull/swap.go) passes through, the old or the new tree can be had back.
use pinsync.Base.{
  Bool, true, false, ◌≡◌, ◌⊎◌, refl, sym, ap, ◌∙◌, Option, none, some, ℕ, zero, suc, arith, ok, err,
  inl, inr,
}
use pinsync.Pull.Disk.{
  Os, Disk, Run, Tree, Place, dest, tmp, old, at, place, pass, idle, FsError, no_error,
  rollback_failed, exists, is_some, rename,
}
use pinsync.Pull.Disk.Rules.{
  Ensures, Ensures-then, IsClosed, Always, Always-pass, Always-idle, rename_rule, remove_all_rule,
}
use pinsync.Pull.Swap.{
  rename_attempts, rename_retry, drop_old, roll_back, move_in, move_aside, swap,
}

-- The destination is whole, from before the replacement or after it.
abbrev pub IsLive : Option Tree → Tree → Disk → Type 0
IsLive before new d = (is_some d.at_dest ≡ true) × ((d.at_dest ≡ before) ⊎ (d.at_dest ≡ some new))

-- There is no destination, and what it was stands in the old place.
abbrev pub IsAside : Option Tree → Disk → Type 0
IsAside before d = (d.at_dest ≡ none) × (d.at_old ≡ before)

abbrev pub IsSafe : Option Tree → Tree → Disk → Type 0
IsSafe before new d = IsLive before new d ⊎ IsAside before d

module _ (os : Os) where
  -- The rule for retries: `P` outlives a failed call, and a success leads from `P` to `Q`.
  pub rename_attempts_rule :
      (P Q : Run → Type 0) (from to : Place)
      → ((r : Run) → P r → P (idle r))
      → ((r : Run) (t : Tree)
          → P r
          → at r.disk from ≡ some t
          → Q (pass (place (place r.disk from none) to (some t)) r))
      → (n : ℕ) (e : FsError) (r : Run) → P r
      → Ensures P Q (rename_attempts os n from to e r)
  unfolding rename_attempts
  rename_attempts_rule P Q from to h q zero e r p = p
  rename_attempts_rule P Q from to h q (suc n) e r p =
      Ensures-then P Q P Q (λ e'. rename_attempts os n from to e') (λ r'. (ok tt, r'))
        (λ e' r' p'. rename_attempts_rule P Q from to h q n e' r' p') (λ r' q'. q')
        (rename os from to r) (rename_rule os P Q from to r (h r p) (λ t m. q r t p m))

  module _ (before : Option Tree) (new : Tree) where
    -- Both trees are in hand, the old one in its place.
    record Ready (r : Run) : Type 0 where
      safe : Always (IsSafe before new) r
      live : r.disk.at_dest ≡ before
      staged : r.disk.at_tmp ≡ some new

    -- Both trees are in hand, the old one aside.
    record Open (r : Run) : Type 0 where
      safe : Always (IsSafe before new) r
      aside : IsAside before r.disk
      staged : r.disk.at_tmp ≡ some new

    abbrev pub Swapped : Run → Type 0
    Swapped r = Always (IsSafe before new) r × (r.disk.at_dest ≡ some new)

    abbrev pub Unswapped : Run → Type 0
    Unswapped r = Always (IsSafe before new) r × ((r.disk.at_dest ≡ before) ⊎ IsAside before r.disk)

    Ready-idle : (r : Run) → Ready r → Ready (idle r)
    Ready-idle r h = record {
      safe = Always-idle (IsSafe before new) r h.safe;
      live = h.live;
      staged = h.staged;
    }

    Open-idle : (r : Run) → Open r → Open (idle r)
    Open-idle r h = record {
      safe = Always-idle (IsSafe before new) r h.safe;
      aside = h.aside;
      staged = h.staged;
    }

    Open-moved :
        (r : Run) (t : Tree)
        → Ready r
        → r.disk.at_dest ≡ some t
        → Open (pass (place (place r.disk dest none) old (some t)) r)
    Open-moved r t h e =
        let aside : IsAside before (place (place r.disk dest none) old (some t)) =
          (refl, sym e ∙ h.live) in
        record {
          safe =
              Always-pass (IsSafe before new) (place (place r.disk dest none) old (some t)) r
                (inr aside) h.safe;
          aside = aside;
          staged = h.staged;
        }

    Swapped-moved :
        (r : Run) (t : Tree)
        → Open r
        → r.disk.at_tmp ≡ some t
        → Swapped (pass (place (place r.disk tmp none) dest (some t)) r)
    Swapped-moved r t h e =
        let new_in = sym e ∙ h.staged in
        (
          Always-pass (IsSafe before new) (place (place r.disk tmp none) dest (some t)) r
              (inl (refl, inr new_in)) h.safe,
          new_in,
        )

    Open-Unswapped : (r : Run) → Open r → Unswapped r
    Open-Unswapped r h = (h.safe, inr h.aside)

    rolled_back :
        (r : Run) (t : Tree)
        → Open r
        → r.disk.at_old ≡ some t
        → Unswapped (pass (place (place r.disk old none) dest (some t)) r)
    rolled_back r t h e =
        let back = sym e ∙ h.aside.1 in
        (
          Always-pass (IsSafe before new) (place (place r.disk old none) dest (some t)) r
              (inl (refl, inl back)) h.safe,
          inl back,
        )

    absent-IsAside : (r : Run) → Ready r → exists dest r ≡ false → IsAside before r.disk
    absent-IsAside r h e = elim h.safe.now [
      | inl l ↦ let p : true ≡ false = sym l.0 ∙ e in ground arith
      | inr a ↦ a
    ]

    move_aside_rule :
        (n : ℕ) (r : Run) → Ready r → Ensures Ready Open (move_aside os n (exists dest r) r)
    unfolding move_aside rename_retry
    move_aside_rule n r h = go (exists dest r) refl
      where
        go : (b : Bool) → exists dest r ≡ b → Ensures Ready Open (move_aside os n b r)
        go true e = rename_attempts_rule Ready Open dest old Ready-idle Open-moved n no_error r h
        go false e = record { safe = h.safe; aside = absent-IsAside r h e; staged = h.staged }

    roll_back_rule :
        (b : Bool) (e : FsError) (r : Run) → Open r → Ensures Unswapped Swapped (roll_back os b e r)
    unfolding roll_back
    roll_back_rule false e r h = Open-Unswapped r h
    roll_back_rule true e r h =
        Ensures-then Open Unswapped Unswapped Swapped (λ rb r'. (err (rollback_failed e rb), r'))
          (λ r'. (err e, r')) (λ rb r' o. Open-Unswapped r' o) (λ r' u. u) (rename os old dest r)
          (rename_rule os Open Unswapped old dest r (Open-idle r h) (λ t m. rolled_back r t h m))

    Swapped-IsClosed : IsClosed Swapped old
    Swapped-IsClosed = record {
      idles = λ r h. (Always-idle (IsSafe before new) r h.0, h.1);
      passes = λ r t h. (
        Always-pass (IsSafe before new) (place r.disk old t) r (inl (ap is_some h.1, inr h.1)) h.0,
        h.1,
      );
    }

    drop_old_rule : (b : Bool) (r : Run) → Swapped r → Ensures Unswapped Swapped (drop_old os b r)
    unfolding drop_old
    drop_old_rule false r h = h
    drop_old_rule true r h = remove_all_rule os Swapped old Swapped-IsClosed r h

    move_in_rule :
        (n : ℕ) (b : Bool) (r : Run) → Open r → Ensures Unswapped Swapped (move_in os n b r)
    unfolding move_in rename_retry
    move_in_rule n b r h =
        Ensures-then Open Swapped Unswapped Swapped (λ e. roll_back os b e) (λ r'. drop_old os b r')
          (λ e. roll_back_rule b e) (drop_old_rule b) (rename_retry os n tmp dest r)
          (rename_attempts_rule Open Swapped tmp dest Open-idle Swapped-moved n no_error r h)

    -- A swap that begins where both trees are in hand passes through no state from which neither can
    -- be had back; after a success the new tree is in place, after an error the old one is, or stands aside.
    pub swap-IsSafe :
        (n : ℕ) (r : Run)
        → r.disk.at_dest ≡ before
        → r.disk.at_tmp ≡ some new
        → Always (IsSafe before new) r
        → Ensures Unswapped Swapped (swap os n r)
    unfolding swap
    swap-IsSafe n r d t h =
        Ensures-then Ready Open Unswapped Swapped (λ e r'. (err e, r'))
          (λ r'. move_in os n (exists dest r) r') (λ e r' k. (k.safe, inl k.live))
          (λ r' k. move_in_rule n (exists dest r) r' k) (move_aside os n (exists dest r) r)
          (move_aside_rule n r (record { safe = h; live = d; staged = t }))
