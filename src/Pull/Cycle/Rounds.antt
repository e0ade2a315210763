-- ===== src/Pull/Cycle/Rounds.antt =====
-- The rounds of a pull (`PullWithManifest` of pkg/pull/pull.go).
use pinsync.Base.{
  Bool, true, false, ◌≡◌, refl, ap, none, some, ℕ, zero, suc, ◌≤◌, arith, Result, ok, err,
}
use pinsync.Base.Int.{ℤ}
use pinsync.Base.Text.{Text}
use pinsync.Pull.Cycle.{Errors, Installed, Steps, Failure, sync_once, sync_loop}

module _ (errors : Errors) {State Stats : Type 0} (steps : Steps errors State Stats) where
  abbrev pub Answer : Type 0
  Answer = Result errors.Error (Installed Stats)

  -- How a pull goes from a state in so many rounds, each but the last of which met a mismatch; and
  -- whether the last one did too.
  pub data Tries (max : ℤ) (attempts : ℕ) : ℕ → Bool → State → Answer → State → Type 0 where
    installs :
        (s t : State) (r : Installed Stats)
        → sync_once errors steps max s ≡ (ok r, t)
        → Tries max attempts 1 false s (ok r) t
    stops :
        (s t : State) (e : errors.Error)
        → sync_once errors steps max s ≡ (err (e, none), t)
        → Tries max attempts 1 false s (err e) t
    gives_up :
        (s t : State) (e : errors.Error) (q : Text)
        → sync_once errors steps max s ≡ (err (e, some q), t)
        → Tries max attempts 1 true s (err (errors.gave_up q attempts)) t
    tries_again :
        (n : ℕ) (over : Bool) (s t u : State) (e : errors.Error) (q : Text) (r : Answer)
        → sync_once errors steps max s ≡ (err (e, some q), t)
        → Tries max attempts n over t r u
        → Tries max attempts (suc n) over s r u

  -- Some number of rounds from one to `left` leads to the answer, all of them if the pull gave up.
  abbrev pub Ends : ℤ → ℕ → ℕ → State → Answer × State → Type 0
  Ends max attempts left s x =
      (n : ℕ) × (over : Bool) × (1 ≤ n)
      × (n ≤ left)
      × (over ≡ true → n ≡ left)
      × Tries max attempts n over s x.0 x.1

  -- One round, with what follows a mismatch.
  round-Ends :
      (max : ℤ) (attempts left : ℕ) (s : State)
      (x : Result (Failure errors) (Installed Stats) × State)
      → sync_once errors steps max s ≡ x
      → ((f : errors.Error) (q : Text) (t : State)
          → sync_once errors steps max s ≡ (err (f, some q), t)
          → Ends max attempts (suc left) s (sync_loop errors steps max attempts left q t))
      → Ends max attempts (suc left) s (elim x.0 [
        | ok installed ↦ (ok installed, x.1)
        | err failure ↦ elim failure.1 [
          | none ↦ (err failure.0, x.1)
          | some q ↦ sync_loop errors steps max attempts left q x.1
        ]
      ])
  round-Ends max attempts left s (ok r, t) e rest =
      (1, false, omega arith, omega arith, λ h. absurd cc, installs s t r e)
  round-Ends max attempts left s (err (f, none), t) e rest =
      (1, false, omega arith, omega arith, λ h. absurd cc, stops s t f e)
  round-Ends max attempts left s (err (f, some q), t) e rest = rest f q t e

  sync_loop-Ends :
      (max : ℤ) (attempts left : ℕ) (last : Text) (s : State)
      → Ends max attempts (suc left) s (sync_loop errors steps max attempts (suc left) last s)
  unfolding sync_loop
  sync_loop-Ends max attempts zero last s =
      round-Ends max attempts zero s (sync_once errors steps max s) refl
        (λ f q t e. (1, true, omega arith, omega arith, λ h. refl, gives_up s t f q e))
  sync_loop-Ends max attempts (suc left) last s =
      round-Ends max attempts (suc left) s (sync_once errors steps max s) refl (λ f q t e.
        let (n, over, low, high, all, tries) = sync_loop-Ends max attempts left q t in
        (
          suc n,
          over,
          omega arith,
          omega (arith, high),
          λ h. ap suc (all h),
          tries_again n over s t (sync_loop errors steps max attempts (suc left) q t).1 f q
              (sync_loop errors steps max attempts (suc left) q t).0 e tries,
        ))

  -- The loop of a pull always ends, after at least one and at most the allowed rounds: each but the
  -- last met a mismatch that could be tried again, the last one installed a tree, met another
  -- error, or was the last allowed one and met a mismatch too; then the pull gave up.
  pub sync_loop_rounds :
      (max : ℤ) (attempts : ℕ) (last : Text) (s : State)
      → 1 ≤ attempts
      → Ends max attempts attempts s (sync_loop errors steps max attempts attempts last s)
  sync_loop_rounds max zero last s h = absurd (omega arith)
  sync_loop_rounds max (suc n) last s h = sync_loop-Ends max (suc n) n last s
