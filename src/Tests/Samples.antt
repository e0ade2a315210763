-- ===== src/Tests/Samples.antt =====
-- The sample manifest, casing and store that the examples run on.
use pinsync.Base.{false, ◌&&◌, [], ◌∷◌, map, none, ℕ, zero, suc, ◌+◌, ◌-◌, if◌then◌else◌, leb}
use pinsync.Base.Int.{pos}
use pinsync.Base.Text.{Text, lit}
use pinsync.Manifest.Path.{Casing}
use pinsync.Manifest.Entry.{File, Manifest, schema_version}
use pinsync.Store.Fake.{Setup, Fake, new_fake}
use pinsync.Tests.Format.{format}

abbrev lower : ℕ → ℕ
lower c = if leb b'A' c && leb c b'Z' then c + 32 else c

abbrev upper : ℕ → ℕ
upper c = if leb b'a' c && leb c b'z' then c - 32 else c

abbrev pub ascii : Casing
ascii = record { to_lower = map lower; to_upper = map upper }

abbrev repeat : ℕ → ℕ → Text
repeat zero c = []
repeat (suc n) c = c ∷ repeat n c

abbrev pub motd : File
motd = record { path = lit "etc/motd"; sha256 = repeat 64 b'a'; size = pos 5; mode = lit "0644" }

abbrev pub tool : File
tool = record { path = lit "bin/tool"; sha256 = repeat 64 b'0'; size = pos 7; mode = lit "0755" }

abbrev pub sample : Manifest
sample = record { version = schema_version; files = motd ∷ tool ∷ [] }

abbrev pub shuffled : Manifest
shuffled = record { version = schema_version; files = tool ∷ motd ∷ [] }

abbrev pub setup : Setup
setup = record {
  b64_sha256 = λ b. b;
  md5_etag = λ b. b;
  put_err = λ k n. none;
  head_err = λ k. none;
  delete_err = λ k. false;
  get_body = λ k b. b;
  head_checksum = λ k s. s;
  before_get = λ k f. f;
  ignore_range = false;
}

-- The sample's tree under the prefix `os`, with a stray object.
abbrev pub bucket : Fake
bucket = record new_fake {
  objects =
      (lit "os/manifest.json", format.write sample)
      ∷ (lit "os/etc/motd", lit "hello")
      ∷ (lit "os/stray", lit "x")
      ∷ [];
}
