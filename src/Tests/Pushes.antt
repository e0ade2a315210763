-- ===== src/Tests/Pushes.antt =====
-- The laws of a push at a first push of one file.
use pinsync.Base.{
  true, false, ◌≡◌, ◌≢◌, ◌≤◌, ◌+◌, refl, List, [], ◌∷◌, Option, none, some, Result, ok, err, All,
  length,
}
use pinsync.Base.Text.{Text, lit}
use pinsync.Store.{S3}
use pinsync.Store.Fake.{Setup, fake_store}
use pinsync.Manifest.Entry.{Manifest, schema_version}
use pinsync.Manifest.Validate.{validate}
use pinsync.Manifest.Validate.Laws.{validate_iff}
use pinsync.Push.Key.{resolve_manifest_key}
use pinsync.Push.Key.Laws.{IsApart, resolve_manifest_key-IsApart}
use pinsync.Push.Verify.{Digests}
use pinsync.Push.Diff.{Diff}
use pinsync.Push.Publish.{Options, Stats, Plan}
use pinsync.Tests.Samples.{ascii, motd, setup}

abbrev s3 : S3
s3 = fake_store (record setup { b64_sha256 = λ b. motd.sha256 })

abbrev digests : Digests
digests = record { hex_to_b64 = λ t. some t; b64_sha256 = λ b. motd.sha256 }

abbrev root : Text → Option Text
root path = some (lit "hello")

abbrev one : Manifest
one = record { version = schema_version; files = motd ∷ [] }

abbrev defaults : Options
defaults = record { manifest_key = []; full = false; adopt = false }

abbrev plan : Plan
plan = record {
  upload = motd.path ∷ [];
  repair = [];
  orphan = [];
  unchanged = 0;
  total = 1;
  manifest_only = false;
}

abbrev stats : Stats
stats = record { uploaded = 1; repaired = 0; skipped = 0; total = 1 }

abbrev first_diff : Diff
first_diff = record {
  upload = motd ∷ [];
  repair = [];
  orphan = [];
  verified = 0;
  same_manifest = false;
}

one-passes : validate ascii one ≡ []
unfolding validate pinsync.Manifest.Validate.validate_from
    pinsync.Manifest.Validate.field_violations pinsync.Manifest.Validate.is_sha256
    pinsync.Manifest.Mode.file_mode pinsync.Base.list_beq pinsync.Manifest.Validate.check_path
    pinsync.Manifest.Path.validate_path pinsync.Base.contains pinsync.Base.Text.has_prefix
    pinsync.Base.Text.split pinsync.Base.Text.ends_in pinsync.Base.Text.before
    pinsync.Manifest.Validate.enter pinsync.Base.Dict.get pinsync.Base.Dict.put
one-passes = refl

custom_accepted : resolve_manifest_key (lit "os") (lit "snap.json") one.files ≡ ok (lit "snap.json")
unfolding resolve_manifest_key pinsync.Push.Key.custom_key pinsync.Base.list_beq
    pinsync.Base.Slash.join_path pinsync.Base.Text.trim_suffix pinsync.Base.Slash.render
    pinsync.Base.Text.has_prefix pinsync.Base.Text.join pinsync.Base.Slash.clean_segments
    pinsync.Base.Text.split pinsync.Base.Slash.clean pinsync.Base.Slash.clean_step
    pinsync.Base.Slash.go_up pinsync.Base.Text.add_to_head
custom_accepted = refl

resolve_manifest_key-IsApart_example : IsApart (lit "os") (lit "snap.json") one.files
resolve_manifest_key-IsApart_example =
    resolve_manifest_key-IsApart (lit "os") ascii (lit "snap.json") (lit "snap.json") one
      ((validate_iff ascii one).0 one-passes) (λ e. cc, tt) custom_accepted
