-- ===== src/Store.antt =====
-- The S3 client as the packages use it: their `S3API` interfaces, and the aws-sdk-go-v2 types of
-- requests, replies and errors, cut to the fields that the code reads or sets. The bucket behind the
-- client is an unknown state; other writers may change it between calls, so every call returns one.
pub mod Fake
use pinsync.Base.{
  Bool, true, false, ◌||◌, ◌≡◌, List, Option, none, some, ℕ, Result, ok, err, ◌==◌, nat_eq, list_eq,
  contains,
}
use pinsync.Base.Int.{ℤ}
use pinsync.Base.Text.{Text, lit}
use pinsync.Base.Action.{Action}

-- What `errors.As` finds in an SDK error: `types.NoSuchKey` or `types.NotFound`, an HTTP status and
-- a `smithy.APIError` code.
pub record ApiError : Type 0 where
  pub no_such_key : Bool
  pub not_found : Bool
  pub status : Option ℕ
  pub code : Option Text

-- A response body: the bytes it yields, and whether reading it then fails instead of ending.
pub record Body : Type 0 where
  pub bytes : Text
  pub broken : Bool

-- GetObject. An absent text is the empty one, as `aws.ToString` gives; Content-Range keeps nil.
pub record GetInput : Type 0 where
  pub key : Text
  pub range_from : Option ℕ
  pub if_match : Text

pub record GetOutput : Type 0 where
  pub body : Body
  pub content_range : Option Text
  pub content_length : ℤ
  pub etag : Text
  pub version_id : Text

-- HeadObject with checksum mode enabled.
pub record HeadOutput : Type 0 where
  pub content_length : ℤ
  pub checksum : Text
  pub composite : Bool

-- PutObject with a SHA256 checksum.
pub record PutInput : Type 0 where
  pub key : Text
  pub body : Text
  pub content_length : ℤ
  pub checksum : Text

-- One listed object; its time is in nanoseconds, none for a nil LastModified.
pub record Object : Type 0 where
  pub key : Text
  pub modified : Option ℤ

pub record S3 : Type 1 where
  pub State : Type 0
  pub get_object : GetInput → Action State ApiError GetOutput
  pub head_object : Text → Action State ApiError HeadOutput
  pub put_object : PutInput → Action State ApiError (Unit {0})
  -- The pages that the paginator yields for a prefix, up to the first that fails.
  pub list_pages : Text → State → List (Result ApiError (List Object)) × State
  -- The keys that the reply names as failed.
  pub delete_objects : List Text → Action State ApiError (List Text)

-- A whole-object GET with checksum mode enabled.
abbrev pub whole_object : Text → GetInput
whole_object key = record { key = key; range_from = none; if_match = lit "" }
