-- ===== src/Push/Verify.antt =====
-- `verifyObject` and `forbidden` of pkg/push/push.go: whether a remote object is the local file's.
use pinsync.Base.{
  Bool, false, not, ◌||◌, List, [], ◌∷◌, Option, none, some, ℕ, if◌then◌else◌, Result, ok, err,
  ◌==◌, nat_eq, list_eq, contains,
}
use pinsync.Base.Int.{int_eq}
use pinsync.Base.Action.{Action, pure, ◌>>=◌}
use pinsync.Base.Slash.{join_path}
use pinsync.Base.Text.{Text, lit}
use pinsync.Manifest.Entry.{File}
use pinsync.Manifest.Codec.{DecodeError}
use pinsync.Store.{S3, ApiError, HeadOutput}
use pinsync.Push.Key.{KeyError}

pub data PushError : Type 0 where
  remote_fetch_failed : Text → ApiError → PushError
  remote_malformed : Text → DecodeError → PushError
  head_failed : Text → ApiError → PushError
  bad_hex open_failed : Text → PushError
  upload_failed : Text → ApiError → PushError
  manifest_failed : ApiError → PushError
  refused : KeyError → PushError

-- The reason of a verdict.
pub data Reason : Type 0 where
  missing forbidden_head size_mismatch no_checksum composite_checksum checksum_mismatch : Reason

abbrev has_status : ℕ → Option ℕ → Bool
has_status n none = false
has_status n (some m) = m == n

abbrev has_code : Text → Option Text → Bool
has_code c none = false
has_code c (some d) = d == c

unfoldable pub forbidden : ApiError → Bool
forbidden e =
    has_status 403 e.status
    || (has_code (lit "Forbidden") e.code || has_code (lit "AccessDenied") e.code)

-- hex.DecodeString and then base64's standard encoding, or none where the first fails; and that
-- encoding of a SHA256 digest.
pub record Digests : Type 0 where
  pub hex_to_b64 : Text → Option Text
  pub b64_sha256 : Text → Text

module _ (digests : Digests) where
  abbrev pub compare_sum : File → Text → Option Text → Result PushError (Option Reason)
  compare_sum f got none = err (bad_hex f.path)
  compare_sum f got (some want) = if got == want then ok none else ok (some checksum_mismatch)

  -- The verdict on the reply to a HEAD.
  unfoldable pub judge_head : File → HeadOutput → Result PushError (Option Reason)
  judge_head f out =
      if not (out.content_length == f.size)
      then ok (some size_mismatch)
      else if out.checksum == []
      then ok (some no_checksum)
      else if out.composite || contains out.checksum b'-'
      then ok (some composite_checksum)
      else compare_sum f out.checksum (digests.hex_to_b64 f.sha256)

  unfoldable pub judge : Text → File → Result ApiError HeadOutput → Result PushError (Option Reason)
  unfolding judge_head forbidden
  judge key f (ok out) = judge_head f out
  judge key f (err e) =
      if e.not_found
      then ok (some missing)
      else if forbidden e
      then ok (some forbidden_head)
      else err (head_failed key e)

  module _ (s3 : S3) where
    unfoldable pub verify_object : Text → File → Action s3.State PushError (Option Reason)
    verify_object key f s = let (r, s') = s3.head_object key s in (judge key f r, s')

    -- The HEADs in the order of the files, up to the first that fails.
    unfoldable pub verify_objects :
        Text → List File → Action s3.State PushError (List (Option Reason))
    verify_objects prefix [] = pure []
    verify_objects prefix (f ∷ fs) = verify_object (join_path prefix f.path) f >>= λ v.
        verify_objects prefix fs >>= λ vs. pure (v ∷ vs)
