-- ===== src/Prune/Delete.antt =====
-- `deleteBatched`, `Prune` and `DryRun` of pkg/prune/prune.go.
use pinsync.Base.{List, [], ◌∷◌, ◌++◌, Option, none, some, ℕ, ok, err, length}
use pinsync.Base.Int.{ℤ, pos, ◌+ℤ◌, ◌-ℤ◌}
use pinsync.Base.Action.{Action, pure, ◌>>=◌}
use pinsync.Base.Chunks.{chunks}
use pinsync.Base.Text.{Text}
use pinsync.Manifest.Path.{Casing}
use pinsync.Manifest.Codec.{Json}
use pinsync.Store.{S3}
use pinsync.Prune.Classify.{Options, PruneError, delete_failed, keys_failed, Tally, classify}

-- The count of deleted objects, with the error if there is one.
pub record Deletion : Type 0 where
  pub deleted : ℤ
  pub failure : Option PruneError

-- What DryRun and Prune return.
pub record Plan : Type 0 where
  pub delete : List Text
  pub protected : ℕ
  pub referenced : ℕ
  pub listed : ℕ

pub record Stats : Type 0 where
  pub deleted : ℤ
  pub protected : ℕ
  pub referenced : ℕ
  pub listed : ℕ

-- batchSize
abbrev pub batch_size : ℕ
batch_size = 1000

abbrev pub keys_error : List Text → Option PruneError
keys_error [] = none
keys_error (k ∷ ks) = some (keys_failed (k ∷ ks))

module _ (s3 : S3) where
  -- The loop over the batches: the keys that failed so far, and the count so far.
  unfoldable pub delete_chunks : ℤ → List Text → List (List Text) → s3.State → Deletion × s3.State
  delete_chunks deleted errs [] s = (record { deleted = deleted; failure = keys_error errs }, s)
  delete_chunks deleted errs (chunk ∷ rest) s = elim (s3.delete_objects chunk s).0 [
    | err e ↦ (
      record { deleted = deleted; failure = some (delete_failed e) },
      (s3.delete_objects chunk s).1,
    )
    | ok failed ↦
        delete_chunks (deleted +ℤ (pos (length chunk) -ℤ pos (length failed))) (errs ++ failed) rest
          (s3.delete_objects chunk s).1
  ]

  unfoldable pub delete_batched : List Text → s3.State → Deletion × s3.State
  delete_batched keys s = delete_chunks (pos 0) [] (chunks batch_size keys) s

  -- Prune's statistics come back beside an error of the deletion.
  pub record Outcome : Type 0 where
    pub stats : Option Stats
    pub failure : Option PruneError

  module _ (casing : Casing) (json : Json) where
    -- DryRun
    abbrev pub plan_of : Tally → Plan
    plan_of t = record {
      delete = t.delete;
      protected = t.protected;
      referenced = t.referenced;
      listed = t.listed;
    }

    unfoldable pub dry_run : Text → Options → ℤ → Action s3.State PruneError Plan
    dry_run prefix opts now = classify s3 casing json prefix opts now >>= λ t. pure (plan_of t)

    -- Prune after `classify`.
    unfoldable pub apply_tally : Tally → s3.State → Outcome × s3.State
    apply_tally t s =
        let (d, s') = delete_batched t.delete s in
        (
          record {
            stats = some (record {
              deleted = d.deleted;
              protected = t.protected;
              referenced = t.referenced;
              listed = t.listed;
            });
            failure = d.failure;
          },
          s',
        )

    unfoldable pub prune : Text → Options → ℤ → s3.State → Outcome × s3.State
    prune prefix opts now s = elim (classify s3 casing json prefix opts now s).0 [
      | err e ↦
          (record { stats = none; failure = some e }, (classify s3 casing json prefix opts now s).1)
      | ok t ↦ apply_tally t (classify s3 casing json prefix opts now s).1
    ]
