-- ===== src/Manifest/Validate.antt =====
-- `Manifest.Validate` and `isSHA256` of pkg/manifest/validate.go. The joined error is the list of
-- all violations, empty for a nil error.
pub mod Laws
use pinsync.Base.{
  Bool, true, false, not, ◌&&◌, List, [], ◌∷◌, ◌++◌, Option, none, some, ℕ, if◌then◌else◌, Result,
  ok, err, ◌==◌, nat_eq, list_eq, length,
}
use pinsync.Base.Int.{ℤ, pos, ltb_ℤ}
use pinsync.Base.Text.{Text}
use pinsync.Base.Dict.{Dict, get, put}
use pinsync.Manifest.Path.{Casing, PathError, validate_path, all_hex}
use pinsync.Manifest.Mode.{ModeError, file_mode}
use pinsync.Manifest.Entry.{File, Manifest}

-- One violation, with what its message names.
pub data Violation : Type 0 where
  bad_sha256 : Text → Text → Violation
  negative_size : Text → ℤ → Violation
  bad_mode : Text → ModeError → Violation
  bad_path : PathError → Violation
  duplicate_path : Text → Violation
  case_collision : Text → Text → Violation

unfoldable pub is_sha256 : Text → Bool
unfolding all_hex
is_sha256 s = (length s == 64) && all_hex s

abbrev pub report : Bool → Violation → List Violation
report bad v = if bad then v ∷ [] else []

abbrev pub mode_violation : Text → Result ModeError ℕ → List Violation
mode_violation p (ok n) = []
mode_violation p (err e) = bad_mode p e ∷ []

-- The checks of one entry before its path.
unfoldable pub field_violations : File → List Violation
field_violations f =
    report (not (is_sha256 f.sha256)) (bad_sha256 f.path f.sha256)
    ++ (report (ltb_ℤ f.size (pos 0)) (negative_size f.path f.size)
        ++ mode_violation f.path (file_mode f.mode))

module _ (casing : Casing) where
  open casing use {to_lower}

  -- The switch on `lower[key]`, with the map after it.
  unfoldable pub enter : Dict Text Text → Text → Option Text → List Violation × Dict Text Text
  enter seen path none = ([], put seen (to_lower path) path)
  enter seen path (some prev) =
      if prev == path
      then (duplicate_path path ∷ [], seen)
      else (case_collision prev path ∷ [], seen)

  unfoldable pub check_path : Dict Text Text → Text → List Violation × Dict Text Text
  check_path seen path = elim (validate_path casing path) [
    | err e ↦ (bad_path e ∷ [], seen)
    | ok _ ↦ enter seen path (get seen (to_lower path))
  ]

  unfoldable pub validate_from : Dict Text Text → List File → List Violation
  validate_from seen [] = []
  validate_from seen (f ∷ fs) =
      field_violations f
      ++ ((check_path seen f.path).0 ++ validate_from (check_path seen f.path).1 fs)

  unfoldable pub validate : Manifest → List Violation
  validate m = validate_from [] m.files
