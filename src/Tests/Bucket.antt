-- ===== src/Tests/Bucket.antt =====
-- The laws of `Prune` and of the in-memory store at the sample bucket.
use pinsync.Base.{
  Bool, true, false, ◌≡◌, refl, List, [], ◌∷◌, Option, none, some, ℕ, Result, ok, err, contains,
  nat_eq, list_eq, arith,
}
use pinsync.Base.Int.{ℤ, pos}
use pinsync.Base.Text.{Text, lit, trim_suffix}
use pinsync.Store.{S3, Object, PutInput, whole_object}
use pinsync.Store.Fake.{Fake, no_key, new_fake, put_object, fake_store}
use pinsync.Store.Fake.Laws.{
  body_of, put_object-body, fake_store-IsQuiet, fake_store-IsDeleting, IsBucket,
  fake_store-IsBucket,
}
use pinsync.Prune.Classify.{
  Options, PruneError, no_manifest, Tally, manifest_key, keep_set, no_objects, tally_pages,
  sorted_tally, fetch_manifest, classify,
}
use pinsync.Prune.Delete.{Plan, Outcome, delete_batched, apply_tally, prune, dry_run}
use pinsync.Prune.Laws.{IsTally, listing, classify-IsTally}
use pinsync.Prune.Safety.{prune-keeps, prune_refuses, prune-dry_run}
use pinsync.Prune.Count.{delete_batched-all}
use pinsync.Tests.Format.{format}
use pinsync.Tests.Samples.{ascii, sample, setup, bucket}

abbrev s3 : S3
s3 = fake_store setup

abbrev defaults : Options
defaults = record { manifest_key = []; min_age = pos 0 }

abbrev motd_key : Text
motd_key = lit "os/etc/motd"

abbrev listed : List Object
listed =
    record { key = motd_key; modified = none }
    ∷ record { key = lit "os/stray"; modified = none }
    ∷ []

fetched_sample : (fetch_manifest s3 ascii format (lit "os/manifest.json") bucket).0 ≡ ok sample
unfolding fetch_manifest pinsync.Store.Fake.get_object pinsync.Base.Dict.get pinsync.Base.list_beq
    pinsync.Manifest.Codec.decode pinsync.Manifest.Codec.accept pinsync.Base.Int.int_beq
    pinsync.Manifest.Validate.validate pinsync.Manifest.Validate.validate_from
    pinsync.Manifest.Validate.field_violations pinsync.Manifest.Validate.is_sha256
    pinsync.Manifest.Mode.file_mode pinsync.Manifest.Validate.check_path
    pinsync.Manifest.Path.validate_path contains pinsync.Base.Text.has_prefix
    pinsync.Base.Text.split pinsync.Base.Text.ends_in pinsync.Base.Text.before pinsync.Base.Dict.put
    pinsync.Base.Text.add_to_head pinsync.Manifest.Validate.enter pinsync.Store.Fake.serve
fetched_sample = refl

named : contains (keep_set (lit "os") (lit "os/manifest.json") sample.files) motd_key ≡ true
unfolding keep_set manifest_key pinsync.Base.list_beq pinsync.Base.Slash.join_path trim_suffix
    pinsync.Base.Slash.render pinsync.Base.Text.has_prefix pinsync.Base.Text.join
    pinsync.Base.Slash.clean_segments pinsync.Base.Text.split pinsync.Base.Slash.clean
    pinsync.Base.Slash.clean_step pinsync.Base.Slash.go_up pinsync.Base.Text.add_to_head contains
named = refl

fake_store-IsBucket_example : IsBucket (fake_store setup) body_of
fake_store-IsBucket_example = fake_store-IsBucket setup (λ k f. refl)

prune-keeps_example :
    body_of (prune s3 ascii format (lit "os/") defaults (pos 9) bucket).1 motd_key
    ≡ body_of bucket motd_key
unfolding manifest_key pinsync.Base.list_beq pinsync.Base.Slash.join_path trim_suffix
    pinsync.Base.Slash.render pinsync.Base.Text.has_prefix pinsync.Base.Text.join
    pinsync.Base.Slash.clean_segments pinsync.Base.Text.split pinsync.Base.Slash.clean
    pinsync.Base.Slash.clean_step pinsync.Base.Slash.go_up pinsync.Base.Text.add_to_head
prune-keeps_example =
    prune-keeps s3 ascii format body_of (fake_store-IsQuiet setup (λ k f. refl)) motd_key
      (lit "os/") defaults (pos 9) bucket sample fetched_sample named

not_fetched : (s3.get_object (whole_object (lit "os/manifest.json")) new_fake).0 ≡ err no_key
unfolding pinsync.Store.Fake.get_object pinsync.Base.Dict.get
not_fetched = refl

prune_refuses_example : prune s3 ascii format (lit "os/") defaults (pos 9) new_fake ≡ (
  record { stats = none; failure = some (no_manifest (lit "os/manifest.json")) },
  (s3.get_object (whole_object (lit "os/manifest.json")) new_fake).1,
)
unfolding manifest_key pinsync.Base.list_beq pinsync.Base.Slash.join_path trim_suffix
    pinsync.Base.Slash.render pinsync.Base.Text.has_prefix pinsync.Base.Text.join
    pinsync.Base.Slash.clean_segments pinsync.Base.Text.split pinsync.Base.Slash.clean
    pinsync.Base.Slash.clean_step pinsync.Base.Slash.go_up pinsync.Base.Text.add_to_head
prune_refuses_example =
    prune_refuses s3 ascii format (lit "os/") defaults (pos 9) new_fake (err no_key) tt not_fetched

abbrev preview : Plan
preview = record { delete = lit "os/stray" ∷ []; protected = 0; referenced = 2; listed = 3 }

previewed : (dry_run s3 ascii format (lit "os/") defaults (pos 9) bucket).0 ≡ ok preview
unfolding dry_run classify pinsync.Prune.Classify.classify_listing pinsync.Prune.Classify.is_young
    keep_set sorted_tally pinsync.Prune.Classify.tally_object pinsync.Prune.Classify.tally_page
    tally_pages pinsync.Base.Sort.insert pinsync.Base.Sort.sort pinsync.Base.Int.◌-ℤ◌
    pinsync.Base.Text.text_lt pinsync.Store.Fake.list_pages pinsync.Store.Fake.pages
    pinsync.Store.Fake.list_page pinsync.Store.Fake.listed_keys pinsync.Store.Fake.keys_after
    pinsync.Base.Dict.keys manifest_key pinsync.Base.list_beq pinsync.Base.Slash.join_path
    trim_suffix pinsync.Base.Slash.render pinsync.Base.Text.has_prefix pinsync.Base.Text.join
    pinsync.Base.Slash.clean_segments pinsync.Base.Text.split pinsync.Base.Slash.clean
    pinsync.Base.Slash.clean_step pinsync.Base.Slash.go_up pinsync.Base.Text.add_to_head
    fetch_manifest pinsync.Store.Fake.get_object pinsync.Base.Dict.get pinsync.Manifest.Codec.decode
    pinsync.Manifest.Codec.accept pinsync.Base.Int.int_beq pinsync.Manifest.Validate.validate
    pinsync.Manifest.Validate.validate_from pinsync.Manifest.Validate.field_violations
    pinsync.Manifest.Validate.is_sha256 pinsync.Manifest.Mode.file_mode
    pinsync.Manifest.Validate.check_path pinsync.Manifest.Path.validate_path contains
    pinsync.Base.Text.ends_in pinsync.Base.Text.before pinsync.Base.Dict.put
    pinsync.Manifest.Validate.enter
previewed = refl

prune-dry_run_example : prune s3 ascii format (lit "os/") defaults (pos 9) bucket ≡ (
    let (d, s') =
      delete_batched s3
        (lit "os/stray" ∷ [])
        (dry_run s3 ascii format (lit "os/") defaults (pos 9) bucket).1 in
    (
      record {
        stats = some (record { deleted = d.deleted; protected = 0; referenced = 2; listed = 3 });
        failure = d.failure;
      },
      s',
    ))
prune-dry_run_example =
    prune-dry_run s3 ascii format (lit "os/") defaults (pos 9) bucket preview previewed

classify-IsTally_example :
    (t : Tally) × (sorted_tally (tally_pages (motd_key ∷ []) (pos 9) no_objects (ok listed ∷ []))
      ≡ ok t)
    × IsTally (motd_key ∷ []) (pos 9) listed t
unfolding listing
classify-IsTally_example = classify-IsTally (motd_key ∷ []) (pos 9) (ok listed ∷ []) listed refl

deleted : (delete_batched s3 (lit "os/stray" ∷ []) bucket).0.failure ≡ none
unfolding delete_batched pinsync.Prune.Delete.delete_chunks pinsync.Base.Chunks.chunks
    pinsync.Store.Fake.delete_objects
deleted = refl

delete_batched-all_example :
    ((delete_batched s3 (lit "os/stray" ∷ []) bucket).0.deleted ≡ pos 1)
    × ((k : Text)
        → contains (lit "os/stray" ∷ []) k ≡ true
        → body_of (delete_batched s3 (lit "os/stray" ∷ []) bucket).1 k ≡ none)
delete_batched-all_example =
    delete_batched-all s3 body_of (fake_store-IsDeleting setup) (lit "os/stray" ∷ []) bucket deleted

abbrev good_put : PutInput
good_put = record { key = motd_key; body = lit "hi"; content_length = pos 2; checksum = lit "hi" }

put_object-body_example :
    body_of (put_object setup good_put bucket).1 motd_key
    ≡ elim (put_object setup good_put bucket).0 [
      | ok _ ↦ some (lit "hi")
      | err _ ↦ body_of bucket motd_key
    ]
unfolding pinsync.Base.list_beq
put_object-body_example = put_object-body setup good_put bucket motd_key
