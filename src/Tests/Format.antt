-- ===== src/Tests/Format.antt =====
-- A concrete format in the place of encoding/json, and that it is faithful: lengths before texts.
use pinsync.Base.{
  ◌≡◌, refl, ◌∙◌, ap, List, [], ◌∷◌, ◌++◌, Option, none, some, ℕ, zero, suc, length, take, drop,
}
use pinsync.Base.Int.{ℤ, pos, negsuc}
use pinsync.Base.Text.{Text}
use pinsync.Manifest.Entry.{File, Manifest}
use pinsync.Manifest.Codec.{Json}
use pinsync.Manifest.Codec.Laws.{IsFaithful}

abbrev write_text : Text → Text → Text
write_text t rest = length t ∷ t ++ rest

abbrev write_int : ℤ → Text → Text
write_int (pos n) rest = 0 ∷ n ∷ rest
write_int (negsuc n) rest = 1 ∷ n ∷ rest

abbrev write_file : File → Text → Text
write_file f rest =
    write_text f.path (write_text f.sha256 (write_text f.mode (write_int f.size rest)))

abbrev write_files : List File → Text
write_files [] = []
write_files (f ∷ fs) = write_file f (write_files fs)

abbrev write_manifest : Manifest → Text
write_manifest m = write_int m.version (length m.files ∷ write_files m.files)

abbrev read_text : Text → Option (Text × Text)
read_text [] = none
read_text (n ∷ s) = some (take n s, drop n s)

abbrev read_int : Text → Option (ℤ × Text)
read_int (zero ∷ n ∷ s) = some (pos n, s)
read_int (suc sign ∷ n ∷ s) = some (negsuc n, s)
read_int s = none

abbrev file_of : Text → Text → Text → Option (ℤ × Text) → Option (File × Text)
file_of path sum mode none = none
file_of path sum mode (some (n, s)) =
    some (record { path = path; sha256 = sum; size = n; mode = mode }, s)

abbrev after_mode : Text → Text → Option (Text × Text) → Option (File × Text)
after_mode path sum none = none
after_mode path sum (some (mode, s)) = file_of path sum mode (read_int s)

abbrev after_sum : Text → Option (Text × Text) → Option (File × Text)
after_sum path none = none
after_sum path (some (sum, s)) = after_mode path sum (read_text s)

abbrev after_path : Option (Text × Text) → Option (File × Text)
after_path none = none
after_path (some (path, s)) = after_sum path (read_text s)

abbrev read_file : Text → Option (File × Text)
read_file s = after_path (read_text s)

abbrev with_file : File → Option (List File) → Option (List File)
with_file f none = none
with_file f (some fs) = some (f ∷ fs)

abbrev read_files : ℕ → Text → Option (List File)
read_files zero s = some []
read_files (suc n) s = elim (read_file s) [
  | none ↦ none
  | some p ↦ with_file p.0 (read_files n p.1)
]

abbrev manifest_of : ℤ → Option (List File) → Option Manifest
manifest_of v none = none
manifest_of v (some fs) = some (record { version = v; files = fs })

abbrev after_version : Option (ℤ × Text) → Option Manifest
after_version none = none
after_version (some (v, [])) = none
after_version (some (v, n ∷ s)) = manifest_of v (read_files n s)

abbrev pub format : Json
format = record { write = write_manifest; read = λ s. after_version (read_int s) }

take_whole : (t rest : Text) → take (length t) (t ++ rest) ≡ t
take_whole [] rest = refl
take_whole (x ∷ t) rest = ap (λ (s : Text). x ∷ s) (take_whole t rest)

drop_whole : (t rest : Text) → drop (length t) (t ++ rest) ≡ rest
drop_whole [] rest = refl
drop_whole (x ∷ t) rest = drop_whole t rest

read-write_text : (t rest : Text) → read_text (write_text t rest) ≡ some (t, rest)
read-write_text t rest = rw (take_whole t rest, drop_whole t rest)

read-write_int : (n : ℤ) (rest : Text) → read_int (write_int n rest) ≡ some (n, rest)
read-write_int (pos n) rest = refl
read-write_int (negsuc n) rest = refl

read-write_file : (f : File) (rest : Text) → read_file (write_file f rest) ≡ some (f, rest)
read-write_file f rest =
    let after_size = write_int f.size rest in
    let after_m = write_text f.mode after_size in
    ap after_path (read-write_text f.path (write_text f.sha256 after_m))
    ∙ ap (after_sum f.path) (read-write_text f.sha256 after_m)
    ∙ ap (after_mode f.path f.sha256) (read-write_text f.mode after_size)
    ∙ ap (file_of f.path f.sha256 f.mode) (read-write_int f.size rest)

read-write_files : (fs : List File) → read_files (length fs) (write_files fs) ≡ some fs
read-write_files [] = refl
read-write_files (f ∷ fs) =
    ap
      (λ (o : Option (File × Text)). elim o [
        | none ↦ none
        | some p ↦ with_file p.0 (read_files (length fs) p.1)
      ])
      (read-write_file f (write_files fs))
    ∙ ap (with_file f) (read-write_files fs)

pub format-IsFaithful : IsFaithful format
format-IsFaithful = record {
  read-write = λ m w.
      ap after_version (read-write_int m.version (length m.files ∷ write_files m.files))
      ∙ ap (manifest_of m.version) (read-write_files m.files);
}
