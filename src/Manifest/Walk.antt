-- ===== src/Manifest/Walk.antt =====
-- `Build` and `hashFile` of pkg/manifest/build.go, `VerifyTree` and below of pkg/manifest/verify.go,
-- over the entries that `filepath.WalkDir` visits, with their slash-separated paths.
pub mod Laws
use pinsync.Base.{
  Bool, true, false, not, ◌&&◌, List, [], ◌∷◌, Option, none, some, ℕ, ◌+◌, if◌then◌else◌, leb,
  Result, ok, err, guard, ◌>>=◌, ◌>>◌, ◌==◌, nat_eq, list_eq, length, take,
}
use pinsync.Base.Int.{ℤ, pos, pos_part, int_eq}
use pinsync.Base.Dict.{Dict, get, put}
use pinsync.Base.Sort.{sort}
use pinsync.Base.Text.{Text, text_lt}
use pinsync.Manifest.Path.{Casing}
use pinsync.Manifest.Entry.{File, Manifest, manifest_name, schema_version}
use pinsync.Manifest.Mode.{ModeError, file_mode, format_mode}
use pinsync.Manifest.Validate.{Violation, validate}

-- What opening an entry without following links gives: its kind and whether it is the walked file,
-- its size and permission bits, and its bytes, up to where reading breaks if it does.
pub record Opened : Type 0 where
  pub regular : Bool
  pub same_file : Bool
  pub size : ℤ
  pub perm : ℕ
  pub bytes : Text
  pub broken : Bool

-- A file that was walked; `opened` is none where a call on it fails.
pub record Walked : Type 0 where
  pub path : Text
  pub regular : Bool
  pub opened : Option Opened

pub data Visit : Type 0 where
  unreadable directory : Visit
  visited : Walked → Visit

pub data WalkError : Type 0 where
  walk_failed root_missing root_not_directory : WalkError
  not_regular reserved_manifest open_failed hash_failed : Text → WalkError
  invalid_manifest : List Violation → WalkError
  version_mismatch : ℤ → WalkError
  not_in_manifest changed size_differs mode_differs hash_differs : Text → WalkError
  entries_missing : List Text → WalkError

module _ (casing : Casing) (sha256_hex : Text → Text) where
  -- hashFile
  unfoldable pub hash_file : Text → Option Opened → Result WalkError File
  hash_file path none = err (open_failed path)
  hash_file path (some o) =
      if o.broken
      then err (hash_failed path)
      else ok (record {
        path = path;
        sha256 = sha256_hex o.bytes;
        size = pos (length o.bytes);
        mode = format_mode o.perm;
      })

  unfoldable pub build_entry : Walked → Result WalkError File
  unfolding hash_file
  build_entry w =
      if not w.regular
      then err (not_regular w.path)
      else if w.path == manifest_name
      then err (reserved_manifest w.path)
      else hash_file w.path w.opened

  unfoldable pub build_files : List Visit → Result WalkError (List File)
  unfolding build_entry
  build_files [] = ok []
  build_files (unreadable ∷ vs) = err walk_failed
  build_files (directory ∷ vs) = build_files vs
  build_files (visited w ∷ vs) = do f ← build_entry w; fs ← build_files vs; ok (f ∷ fs)

  abbrev pub if_clean : Manifest → List Violation → Result WalkError Manifest
  if_clean m [] = ok m
  if_clean m (v ∷ vs) = err (invalid_manifest (v ∷ vs))

  unfoldable pub build : List Visit → Result WalkError Manifest
  unfolding build_files
  build vs = do
    fs ← build_files vs
    let m : Manifest = record { version = schema_version; files = fs } in
        if_clean m (validate casing m)

  abbrev pub same_mode : Result ModeError ℕ → ℕ → Bool
  same_mode (ok n) perm = n == perm
  same_mode (err e) perm = 0 == perm

  -- One byte more than the declared size is read at most.
  unfoldable pub verify_bytes : File → Opened → Result WalkError (Unit {0})
  verify_bytes f o =
      let read = take (pos_part f.size + 1) o.bytes in
      if o.broken && leb (length o.bytes) (pos_part f.size)
      then err (hash_failed f.path)
      else if not (pos (length read) == f.size)
      then err (size_differs f.path)
      else if sha256_hex read == f.sha256
      then ok tt
      else err (hash_differs f.path)

  unfoldable pub verify_file : File → Option Opened → Result WalkError (Unit {0})
  unfolding verify_bytes
  verify_file f none = err (open_failed f.path)
  verify_file f (some o) =
      if not o.regular
      then err (not_regular f.path)
      else if not o.same_file
      then err (changed f.path)
      else if not (o.size == f.size)
      then err (size_differs f.path)
      else if not (same_mode (file_mode f.mode) o.perm)
      then err (mode_differs f.path)
      else verify_bytes f o

  abbrev verify_wanted : Text → Option File → Option Opened → Result WalkError (Unit {0})
  verify_wanted path none o = err (not_in_manifest path)
  verify_wanted path (some f) o = verify_file f o

  unfoldable pub verify_entry : Dict Text File → Walked → Result WalkError (Unit {0})
  verify_entry want w =
      if not w.regular
      then err (not_regular w.path)
      else verify_wanted w.path (get want w.path) w.opened

  -- The walk, with the map of the paths seen.
  unfoldable pub verify_walk :
      Dict Text File → Dict Text Bool → List Visit → Result WalkError (Dict Text Bool)
  unfolding verify_entry
  verify_walk want seen [] = ok seen
  verify_walk want seen (unreadable ∷ vs) = err walk_failed
  verify_walk want seen (directory ∷ vs) = verify_walk want seen vs
  verify_walk want seen (visited w ∷ vs) = do
    verify_entry want w
    verify_walk want (put seen w.path true) vs

  unfoldable pub wanted : Dict Text File → List File → Dict Text File
  wanted want [] = want
  wanted want (f ∷ fs) = wanted (put want f.path f) fs

  abbrev unseen : Dict Text Bool → Dict Text File → List Text
  unseen seen [] = []
  unseen seen ((p, f) ∷ want) =
      let rest = unseen seen want in elim (get seen p) [ none ↦ p ∷ rest | some _ ↦ rest ]

  pub data Root : Type 0 where
    absent other tree : Root

  abbrev pub check_root : Root → Result WalkError (Unit {0})
  check_root absent = err root_missing
  check_root other = err root_not_directory
  check_root tree = ok tt

  unfoldable pub verify_seen : Dict Text File → Dict Text Bool → Result WalkError (Unit {0})
  verify_seen want seen =
      if length seen == length want
      then ok tt
      else err (entries_missing (sort text_lt (unseen seen want)))

  -- VerifyTree, not on Windows.
  unfoldable pub verify_tree : Root → List Visit → Manifest → Result WalkError (Unit {0})
  unfolding verify_walk
  verify_tree root vs m = do
    guard (m.version == schema_version) (version_mismatch m.version)
    valid ← if_clean m (validate casing m)
    check_root root
    seen ← verify_walk (wanted [] m.files) [] vs
    verify_seen (wanted [] m.files) seen
