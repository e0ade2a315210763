-- ===== src/Pull/Cycle.antt =====
-- `replace`, `syncOnce` and `PullWithManifest` of pkg/pull/pull.go, over the steps that they call. What
-- the steps do to the disk and to the store is theirs: the state here is any.
pub mod Rounds
pub mod Laws
use pinsync.Base.{
  Bool, List, [], Option, none, some, ℕ, zero, suc, ◌+◌, if◌then◌else◌, Result, ok, err, ◌==◌,
  nat_eq, length, map_err,
}
use pinsync.Base.Action.{Action, pure, lift, on_err, ◌>>=◌, ◌>>◌}
use pinsync.Base.Dict.{Dict}
use pinsync.Base.Int.{ℤ}
use pinsync.Base.Text.{Text}
use pinsync.Manifest.Entry.{File, Manifest}
use pinsync.Pull.Classify.{LocalFile}
use pinsync.Pull.Fetch.{FetchError, check_content_size}
use pinsync.Pull.Options.{Options, OptionsError, Syncer, new_syncer}

-- The errors of the steps, with errors.As for a stagedMismatchError and errors.Join.
pub record Errors : Type 1 where
  pub Error : Type 0
  pub bad_options : OptionsError → Error
  pub too_large : FetchError → Error
  pub gave_up : Text → ℕ → Error
  pub mismatch_of : Error → Option Text
  pub joined : Error → Error → Error

-- Stats without its total, and what a successful replacement returns.
pub record Installed (Stats : Type 0) : Type 0 where
  pub stats : Stats
  pub total : ℕ
  pub manifest : Text

pub record Steps (errors : Errors) (State Stats : Type 0) : Type 0 where
  pub recover : Action State errors.Error (Unit {0})
  pub fetch_manifest : Action State errors.Error (Text × Manifest)
  pub hash_live : Action State errors.Error (Dict Text LocalFile)
  pub stage : Manifest → Dict Text LocalFile → Action State errors.Error Stats
  pub verify_tree : Manifest → Action State errors.Error (Unit {0})
  pub before_replace : Option (Text → Action State errors.Error (Unit {0}))
  pub swap : Action State errors.Error (Unit {0})
  pub keep_staged : Action State errors.Error (Unit {0})

module _ (errors : Errors) where
  -- An error, and the path of a mismatch that may be tried again.
  abbrev pub Failure : Type 0
  Failure = errors.Error × Option Text

  abbrev pub final : errors.Error → Failure
  final e = (e, none)

  module _ {State Stats : Type 0} (steps : Steps errors State Stats) where
    abbrev pub run_hook :
        Option (Text → Action State errors.Error (Unit {0}))
        → Text
        → Action State errors.Error (Unit {0})
    run_hook none raw = pure tt
    run_hook (some hook) raw = hook raw

    -- After staging: nothing that fails here is tried again.
    unfoldable pub settle : Text → Manifest → Stats → Action State Failure (Installed Stats)
    settle raw m stats =
        on_err final (steps.verify_tree m >> (run_hook steps.before_replace raw >> steps.swap))
        >> pure (record { stats = stats; total = length m.files; manifest = raw })

    abbrev pub stage_failure : errors.Error → Failure
    stage_failure e = (e, errors.mismatch_of e)

    unfoldable pub install :
        Text → Manifest → Dict Text LocalFile → Action State Failure (Installed Stats)
    install raw m live = on_err stage_failure (steps.stage m live) >>= λ stats. settle raw m stats

    abbrev pub after_keeping :
        Failure → Result errors.Error (Unit {0}) × State → Result Failure (Installed Stats) × State
    after_keeping (e, again) (ok _, s) = (err (e, again), s)
    after_keeping (e, again) (err k, s) = (err (errors.joined e k, none), s)

    -- What an error leaves: the staging tree is kept or deleted, or there is no retry.
    abbrev pub cleared :
        Result Failure (Installed Stats) × State → Result Failure (Installed Stats) × State
    cleared (ok r, s) = (ok r, s)
    cleared (err failure, s) = after_keeping failure (steps.keep_staged s)

    unfoldable pub replace_live :
        Text → Manifest → Dict Text LocalFile → Action State Failure (Installed Stats)
    replace_live raw m live s = cleared (install raw m live s)

    unfoldable pub replace : ℤ → Text → Manifest → Action State Failure (Installed Stats)
    replace max raw m =
        lift (map_err (λ e. final (errors.too_large e)) (check_content_size max m))
        >> (on_err final steps.hash_live >>= λ live. replace_live raw m live)

    unfoldable pub sync_once : ℤ → Action State Failure (Installed Stats)
    sync_once max = on_err final steps.fetch_manifest >>= λ fetched. replace max fetched.0 fetched.1

    -- The loop with the attempts left; `last` is the path of the last mismatch. The pauses between
    -- attempts are left out.
    unfoldable pub sync_loop : ℤ → ℕ → ℕ → Text → Action State errors.Error (Installed Stats)
    sync_loop max attempts zero last s = (err (errors.gave_up last attempts), s)
    sync_loop max attempts (suc left) last s =
        let (r, s') = sync_once max s in
        let again = λ (q : Text). sync_loop max attempts left q s' in
        elim r [
          | ok installed ↦ (ok installed, s')
          | err failure ↦ elim failure.1 [ none ↦ (err failure.0, s') | some q ↦ again q ]
        ]

    abbrev pub attempts_of : ℕ → ℕ
    attempts_of retries = if retries == 0 then 3 else retries

    unfoldable pub pull_with_manifest :
        Text → Options → ℕ → Action State errors.Error (Installed Stats)
    pull_with_manifest dest opts retries =
        lift (map_err errors.bad_options (new_syncer dest opts)) >>= λ syncer.
        steps.recover >> sync_loop syncer.max_content (attempts_of retries) (attempts_of retries) []
