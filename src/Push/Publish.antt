-- ===== src/Push/Publish.antt =====
-- `Push`, `DryRun`, `uploadFiles`, `putFile` and `putManifest` of pkg/push/push.go, from the manifest
-- that `manifest.Build` returned on. Uploads and HEADs run in the order of the files, as with a
-- limit of one in flight.
pub mod Uploads
pub mod Sent
pub mod Laws
use pinsync.Base.{
  Bool, true, false, not, ◌&&◌, List, [], ◌∷◌, map, Option, none, some, ℕ, if◌then◌else◌, Result,
  ok, err, ◌==◌, nat_eq, list_eq, length,
}
use pinsync.Base.Int.{ℤ, pos}
use pinsync.Base.Action.{Action, pure, lift, fail, ◌>>=◌, ◌>>◌}
use pinsync.Base.Slash.{join_path}
use pinsync.Base.Sort.{sort}
use pinsync.Base.Text.{Text, text_lt, trim_suffix}
use pinsync.Manifest.Path.{Casing}
use pinsync.Manifest.Entry.{File, Manifest}
use pinsync.Manifest.Codec.{Json, sorted, encode}
use pinsync.Store.{S3, ApiError, PutInput}
use pinsync.Push.Key.{KeyError, resolve_manifest_key}
use pinsync.Push.Verify.{
  PushError, bad_hex, open_failed, upload_failed, manifest_failed, refused, Digests,
}
use pinsync.Push.Diff.{Diff, diff_remote}

pub record Options : Type 0 where
  pub manifest_key : Text
  pub full : Bool
  pub adopt : Bool

pub record Stats : Type 0 where
  pub uploaded : ℕ
  pub repaired : ℕ
  pub skipped : ℕ
  pub total : ℕ

pub record Plan : Type 0 where
  pub upload : List Text
  pub repair : List Text
  pub orphan : List Text
  pub unchanged : ℕ
  pub total : ℕ
  pub manifest_only : Bool

-- The key error as the push's.
abbrev pub key_of : Result KeyError Text → Result PushError Text
key_of (ok key) = ok key
key_of (err e) = err (refused e)

module _ (json : Json) (casing : Casing) (digests : Digests) (s3 : S3) where
  abbrev put_result :
      (ApiError → PushError) → Result ApiError (Unit {0}) → Result PushError (Unit {0})
  put_result f (ok _) = ok tt
  put_result f (err e) = err (f e)

  unfoldable pub put_manifest : Text → Text → Action s3.State PushError (Unit {0})
  put_manifest key bytes s =
      let (r, s') =
        s3.put_object
          (record {
            key = key;
            body = bytes;
            content_length = pos (length bytes);
            checksum = digests.b64_sha256 bytes;
          })
          s in
      (put_result manifest_failed r, s')

  -- The files under the root as they are when they are opened; none if that fails.
  module _ (root : Text → Option Text) where
    abbrev put_body : Text → File → Text → Option Text → Action s3.State PushError (Unit {0})
    put_body prefix f sum none s = (err (open_failed f.path), s)
    put_body prefix f sum (some body) s =
        let (r, s') =
          s3.put_object
            (record {
              key = join_path prefix f.path;
              body = body;
              content_length = f.size;
              checksum = sum;
            })
            s in
        (put_result (upload_failed f.path) r, s')

    abbrev put_summed : Text → File → Option Text → Action s3.State PushError (Unit {0})
    put_summed prefix f none s = (err (bad_hex f.path), s)
    put_summed prefix f (some sum) s = put_body prefix f sum (root f.path) s

    unfoldable pub put_file : Text → File → Action s3.State PushError (Unit {0})
    put_file prefix f = put_summed prefix f (digests.hex_to_b64 f.sha256)

    unfoldable pub upload_files : Text → List File → Action s3.State PushError (Unit {0})
    upload_files prefix [] = pure tt
    upload_files prefix (f ∷ fs) = put_file prefix f >> upload_files prefix fs

    -- The uploads, then the manifest if it changed.
    unfoldable pub publish :
        Text → Text → Text → List File → Stats → Bool → Action s3.State PushError Stats
    publish prefix key bytes todo stats put_m =
        upload_files prefix todo
        >> ((if put_m then put_manifest key bytes else pure tt)
            >> pure (record stats { uploaded = length todo }))

    -- What follows the diff.
    unfoldable pub publish_diff : Text → Text → Text → ℕ → Diff → Action s3.State PushError Stats
    publish_diff prefix key bytes total d =
        if d.same_manifest && length d.upload == 0
        then pure (record { uploaded = 0; repaired = 0; skipped = total; total = total })
        else publish prefix key bytes d.upload
            (record {
              uploaded = 0;
              repaired = length d.repair;
              skipped = d.verified;
              total = total;
            })
            (not d.same_manifest)

    unfoldable pub push_from : Text → Options → Manifest → Text → Action s3.State PushError Stats
    push_from prefix opts m key =
        let bytes = encode json m in
        let total = length m.files in
        if opts.adopt
        then put_manifest key bytes
          >> pure (record { uploaded = 0; repaired = 0; skipped = total; total = total })
        else if opts.full
        then publish prefix key bytes m.files
            (record { uploaded = 0; repaired = 0; skipped = 0; total = total }) true
        else diff_remote json casing digests s3 prefix key bytes m.files >>= λ d.
            publish_diff prefix key bytes total d

    -- `prepare` resolves the key first and then encodes the manifest, which sorts its files.
    unfoldable pub push : Text → Options → Manifest → Action s3.State PushError Stats
    push raw_prefix opts m =
        let prefix = trim_suffix raw_prefix b'/' in
        lift (key_of (resolve_manifest_key prefix opts.manifest_key m.files)) >>= λ key.
        push_from prefix opts (sorted m) key

  abbrev pub paths : List File → List Text
  paths = map (λ (f : File). f.path)

  abbrev pub plan_diff : ℕ → Diff → Plan
  plan_diff total d = record {
    upload = sort text_lt (paths d.upload);
    repair = d.repair;
    orphan = d.orphan;
    unchanged = d.verified;
    total = total;
    manifest_only = false;
  }

  unfoldable pub plan_from : Text → Options → Manifest → Text → Action s3.State PushError Plan
  plan_from prefix opts m key =
      let total = length m.files in
      if opts.adopt
      then pure (record {
        upload = [];
        repair = [];
        orphan = [];
        unchanged = 0;
        total = total;
        manifest_only = true;
      })
      else if opts.full
      then pure (record {
        upload = sort text_lt (paths m.files);
        repair = [];
        orphan = [];
        unchanged = 0;
        total = total;
        manifest_only = false;
      })
      else diff_remote json casing digests s3 prefix key (encode json m) m.files >>= λ d.
          pure (plan_diff total d)

  unfoldable pub dry_run : Text → Options → Manifest → Action s3.State PushError Plan
  dry_run raw_prefix opts m =
      let prefix = trim_suffix raw_prefix b'/' in
      lift (key_of (resolve_manifest_key prefix opts.manifest_key m.files)) >>= λ key.
      plan_from prefix opts (sorted m) key
