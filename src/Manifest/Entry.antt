-- ===== src/Manifest/Entry.antt =====
-- The types `File` and `Manifest` of pkg/manifest/manifest.go.
use pinsync.Base.{List, nat_eq, list_eq}
use pinsync.Base.Int.{ℤ, pos, int_eq}
use pinsync.Base.Text.{Text, lit}

pub record File : Type 0 where
  pub path : Text
  pub sha256 : Text
  pub size : ℤ
  pub mode : Text

pub record Manifest : Type 0 where
  pub version : ℤ
  pub files : List File

-- manifest.Name
abbrev pub manifest_name : Text
manifest_name = lit "manifest.json"

-- manifest.Version
abbrev pub schema_version : ℤ
schema_version = pos 1
