-- ===== src/Manifest/Codec.antt =====
-- `Encode` and `Decode` of pkg/manifest/manifest.go, over encoding/json as a parameter.
pub mod Laws
use pinsync.Base.{
  Bool, not, List, [], ◌∷◌, Option, none, some, if◌then◌else◌, Result, ok, err, ◌==◌, nat_eq,
  list_eq,
}
use pinsync.Base.Int.{ℤ, int_eq}
use pinsync.Base.Text.{Text, text_lt}
use pinsync.Base.Sort.{sort}
use pinsync.Manifest.Path.{Casing}
use pinsync.Manifest.Entry.{File, Manifest, schema_version}
use pinsync.Manifest.Validate.{Violation, validate}

-- The bytes that `json.Encoder` writes for a manifest, and the manifest that `json.Decoder` reads.
pub record Json : Type 0 where
  pub write : Manifest → Text
  pub read : Text → Option Manifest

pub data DecodeError : Type 0 where
  malformed : DecodeError
  unsupported_version : ℤ → DecodeError
  invalid : List Violation → DecodeError

abbrev pub by_path : File → File → Bool
by_path a b = text_lt a.path b.path

-- The manifest with its files sorted by path, as `Encode` leaves it.
unfoldable pub sorted : Manifest → Manifest
sorted m = record m { files = sort by_path m.files }

module _ (json : Json) where
  unfoldable pub encode : Manifest → Text
  unfolding sorted
  encode m = json.write (sorted m)

  module _ (casing : Casing) where
    abbrev pub if_valid : Manifest → List Violation → Result DecodeError Manifest
    if_valid m [] = ok m
    if_valid m (v ∷ vs) = err (invalid (v ∷ vs))

    -- What `Decode` makes of a manifest that was read.
    unfoldable pub accept : Manifest → Result DecodeError Manifest
    accept m =
        if not (m.version == schema_version)
        then err (unsupported_version m.version)
        else if_valid m (validate casing m)

    unfoldable pub decode : Text → Result DecodeError Manifest
    decode raw = elim (json.read raw) [ none ↦ err malformed | some m ↦ accept m ]
