-- ===== src/Pull/Options.antt =====
-- The options of pkg/pull/pull.go and `newSyncer`, which checks them and applies the defaults.
use pinsync.Base.{◌++◌, ◌||◌, if◌then◌else◌, Result, ok, err, ◌==◌, nat_eq, list_eq}
use pinsync.Base.Int.{ℤ, pos, ltb_ℤ, int_eq}
use pinsync.Base.Slash.{clean}
use pinsync.Base.Text.{Text, lit}

-- Without the logger and the callback, which are passed apart.
pub record Options : Type 0 where
  pub parallel : ℤ
  pub manifest_key : Text
  pub max_manifest_bytes : ℤ
  pub max_content_bytes : ℤ
  pub mismatch_retries : ℤ
  pub swap_retries : ℤ

-- DefaultMaxManifestBytes, DefaultMaxContentBytes
abbrev pub default_max_manifest_bytes : ℤ
default_max_manifest_bytes = pos 67108864

abbrev pub default_max_content_bytes : ℤ
default_max_content_bytes = pos 68719476736

pub record Syncer : Type 0 where
  pub dest : Text
  pub tmp : Text
  pub old : Text
  pub partial : Text
  pub parallel : ℤ
  pub swap_attempts : ℤ
  pub manifest_key : Text
  pub max_manifest : ℤ
  pub max_content : ℤ

pub data OptionsError : Type 0 where
  negative_limit : ℤ → ℤ → OptionsError

abbrev pub or_default : ℤ → ℤ → ℤ
or_default n d = if n == pos 0 then d else n

abbrev pub at_least_zero : ℤ → ℤ
at_least_zero n = if ltb_ℤ n (pos 0) then pos 0 else n

unfoldable pub new_syncer : Text → Options → Result OptionsError Syncer
new_syncer dest opts =
    let d = clean dest in
    if ltb_ℤ opts.max_manifest_bytes (pos 0) || ltb_ℤ opts.max_content_bytes (pos 0)
    then err (negative_limit opts.max_manifest_bytes opts.max_content_bytes)
    else ok (record {
      dest = d;
      tmp = d ++ lit ".pinsync-tmp";
      old = d ++ lit ".pinsync-old";
      partial = d ++ lit ".pinsync-partial";
      parallel = or_default (at_least_zero opts.parallel) (pos 16);
      swap_attempts = or_default opts.swap_retries (pos 5);
      manifest_key = opts.manifest_key;
      max_manifest = or_default opts.max_manifest_bytes default_max_manifest_bytes;
      max_content = or_default opts.max_content_bytes default_max_content_bytes;
    })
