-- ===== src/Tests/Manifests.antt =====
-- The laws of manifests at the sample manifest.
use mathlib.Core.List.{Permᴰ}
use pinsync.Base.{
  ◌≤◌, Bool, true, false, ◌&&◌, ltb, All, ◌≡◌, ◌↔◌, refl, List, [], ◌∷◌, Option, some, ℕ, arith,
  ◌<◌, Result, ok, err, ◌^◌,
}
use pinsync.Base.Text.{Text, lit}
use pinsync.Manifest.Path.{validate_path}
use pinsync.Manifest.Path.Laws.{IsPortable, validate_path_iff}
use pinsync.Manifest.Mode.{file_mode, format_mode}
use pinsync.Manifest.Mode.Laws.{file_mode-lt, file_mode-format_mode}
use pinsync.Base.Int.{pos}
use pinsync.Manifest.Entry.{Manifest, schema_version}
use pinsync.Manifest.Walk.{Visit, directory, visited, build}
use pinsync.Manifest.Walk.Laws.{IsUnreserved, build-IsValid}
use pinsync.Manifest.Validate.{validate}
use pinsync.Manifest.Validate.Laws.{IsValid, validate_iff}
use pinsync.Manifest.Codec.{sorted, encode, decode}
use pinsync.Manifest.Codec.Laws.{IsWritableFile, IsWritable, encode-perm, decode_iff, decode-encode}
use pinsync.Pull.Fetch.{check_content_size}
use pinsync.Pull.Fetch.Laws.{content_size, check_content_size_iff}
use pinsync.Tests.Format.{format, format-IsFaithful}
use pinsync.Tests.Samples.{ascii, sample, shuffled, motd, tool}

sample-passes : validate ascii sample ≡ []
unfolding validate pinsync.Manifest.Validate.validate_from
    pinsync.Manifest.Validate.field_violations pinsync.Manifest.Validate.is_sha256 file_mode
    pinsync.Base.list_beq pinsync.Manifest.Validate.check_path validate_path pinsync.Base.contains
    pinsync.Base.Text.has_prefix pinsync.Base.Text.split pinsync.Base.Text.ends_in
    pinsync.Base.Text.before pinsync.Manifest.Validate.enter pinsync.Base.Dict.get
    pinsync.Base.Dict.put
sample-passes = refl

sample-IsValid : IsValid ascii sample
sample-IsValid = (validate_iff ascii sample).0 sample-passes

is_ascii : Text → Bool
is_ascii [] = true
is_ascii (c ∷ s) = ltb c 128 && is_ascii s

is_ascii_sound : (t : Text) → is_ascii t ≡ true → All (λ c. c < 128) t
unfolding is_ascii
is_ascii_sound [] h = tt
is_ascii_sound (c ∷ s) h = ground (arith, is_ascii_sound s)

motd-IsWritable : IsWritableFile motd
unfolding is_ascii
motd-IsWritable = record {
  path = is_ascii_sound motd.path refl;
  sha256 = is_ascii_sound motd.sha256 refl;
  mode = is_ascii_sound motd.mode refl;
  fits = omega arith;
  fits_below = omega arith;
}

tool-IsWritable : IsWritableFile tool
unfolding is_ascii
tool-IsWritable = record {
  path = is_ascii_sound tool.path refl;
  sha256 = is_ascii_sound tool.sha256 refl;
  mode = is_ascii_sound tool.mode refl;
  fits = omega arith;
  fits_below = omega arith;
}

sample-IsWritable : IsWritable sample
sample-IsWritable = record {
  version = omega arith;
  version_below = omega arith;
  files = (motd-IsWritable, (tool-IsWritable, tt));
}

validate_path-iff_example :
    (validate_path ascii (lit "etc/motd") ≡ ok tt) ↔ IsPortable ascii (lit "etc/motd")
validate_path-iff_example = validate_path_iff ascii (lit "etc/motd")

validate-iff_example : (validate ascii sample ≡ []) ↔ IsValid ascii sample
validate-iff_example = validate_iff ascii sample

decode-iff_example : (decode format ascii (format.write sample) ≡ ok sample) ↔ (
    (format.read (format.write sample) ≡ some sample)
    × (schema_version ≡ schema_version)
    × IsValid ascii sample)
decode-iff_example = decode_iff format ascii (format.write sample) sample

decode-encode_example : decode format ascii (encode format sample) ≡ ok (sorted sample)
decode-encode_example =
    decode-encode format ascii format-IsFaithful sample sample-IsWritable refl sample-IsValid

encode-perm_example : encode format sample ≡ encode format shuffled
encode-perm_example =
    encode-perm format ascii sample shuffled sample-IsValid refl (Permᴰ.swap refl refl)

mode_0644 : file_mode (lit "0644") ≡ ok 420
unfolding file_mode pinsync.Base.list_beq
mode_0644 = refl

file_mode-lt_example : 420 < 2 ^ 9
file_mode-lt_example = file_mode-lt (lit "0644") 420 mode_0644

file_mode-format_mode_example : file_mode (format_mode 420) ≡ ok 420
file_mode-format_mode_example = file_mode-format_mode 420 (omega arith)

abbrev tree : List Visit
tree =
    directory
    ∷ visited (record {
      path = motd.path;
      regular = true;
      opened = some (record {
        regular = true;
        same_file = true;
        size = pos 5;
        perm = 420;
        bytes = lit "hello";
        broken = false;
      });
    })
    ∷ []

abbrev built : Manifest
built = record { version = schema_version; files = motd ∷ [] }

tree_builds : build ascii (λ b. motd.sha256) tree ≡ ok built
unfolding build validate pinsync.Manifest.Validate.validate_from
    pinsync.Manifest.Validate.field_violations pinsync.Manifest.Validate.is_sha256 file_mode
    format_mode pinsync.Base.list_beq pinsync.Manifest.Validate.check_path validate_path
    pinsync.Base.contains pinsync.Base.Text.has_prefix pinsync.Base.Text.split
    pinsync.Base.Text.ends_in pinsync.Base.Text.before pinsync.Manifest.Validate.enter
    pinsync.Base.Dict.get pinsync.Base.Dict.put
tree_builds = refl

build-IsValid_example :
    (built.version ≡ schema_version) × (IsValid ascii built × IsUnreserved built.files)
build-IsValid_example = build-IsValid ascii (λ b. motd.sha256) tree built tree_builds

check_content_size_iff_example :
    (check_content_size (pos 12) sample ≡ ok tt) ↔ (content_size sample.files ≤ 12)
check_content_size_iff_example = check_content_size_iff 12 sample (refl, (refl, tt))
