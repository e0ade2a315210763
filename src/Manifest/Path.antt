-- ===== src/Manifest/Path.antt =====
-- The path rules of pkg/manifest/validate.go: `validatePath`, `validateSegment`, `reservedName`.
pub mod Laws
use pinsync.Base.{
  Bool, true, false, List, [], ◌∷◌, map, ◌||◌, ◌&&◌, not, Option, none, some, ℕ, ◌+◌, ◌-◌, zero,
  suc, if◌then◌else◌, leb, Result, ok, err, guard, ◌>>=◌, ◌>>◌, ◌==◌, nat_eq, list_eq, contains,
}
use pinsync.Base.Text.{Byte, Text, lit, has_prefix, ends_in, before, split}

-- Unicode case mapping of `strings.ToLower` and `strings.ToUpper`, whose tables are not modelled.
pub record Casing : Type 0 where
  pub to_lower : Text → Text
  pub to_upper : Text → Text

-- The errors of `validatePath`, with what each message names.
pub data PathError : Type 0 where
  empty_path : PathError
  backslash absolute empty_segment : Text → PathError
  dot_segment windows_ending : Text → Text → PathError
  reserved_device : Text → Text → Text → PathError

abbrev pub device_names : List Text
device_names = map lit (
    "CON" ∷ "PRN" ∷ "AUX" ∷ "NUL" ∷ "COM1" ∷ "COM2" ∷ "COM3" ∷ "COM4" ∷ "COM5" ∷ "COM6" ∷ "COM7"
    ∷ "COM8" ∷ "COM9" ∷ "LPT1" ∷ "LPT2" ∷ "LPT3" ∷ "LPT4" ∷ "LPT5" ∷ "LPT6" ∷ "LPT7" ∷ "LPT8"
    ∷ "LPT9" ∷ [])

-- for len(s) == n and every rune a lowercase hex digit
unfoldable pub is_hex_digit : Byte → Bool
is_hex_digit c = (leb b'0' c && leb c b'9') || (leb b'a' c && leb c b'f')

unfoldable pub all_hex : Text → Bool
unfolding is_hex_digit
all_hex [] = true
all_hex (c ∷ s) = is_hex_digit c && all_hex s

module _ (casing : Casing) where
  open casing use {to_upper}

  unfoldable pub reserved_name : Text → Option Text
  reserved_name seg =
      let base = to_upper (before seg b'.') in
      if contains device_names base then some base else none

  unfoldable pub validate_segment : Text → Text → Result PathError (Unit {0})
  unfolding reserved_name
  validate_segment p seg =
      if seg == []
      then err (empty_segment p)
      else if seg == lit "." || seg == lit ".."
      then err (dot_segment p seg)
      else if ends_in seg b'.' || ends_in seg b' '
      then err (windows_ending p seg)
      else elim (reserved_name seg) [ none ↦ ok tt | some base ↦ err (reserved_device p seg base) ]

  unfoldable pub validate_segments : Text → List Text → Result PathError (Unit {0})
  unfolding validate_segment
  validate_segments p [] = ok tt
  validate_segments p (seg ∷ segs) = do validate_segment p seg; validate_segments p segs

  unfoldable pub validate_path : Text → Result PathError (Unit {0})
  unfolding validate_segments
  validate_path p =
      if p == []
      then err empty_path
      else if contains p b'\\'
      then err (backslash p)
      else if has_prefix p (lit "/")
      then err (absolute p)
      else validate_segments p (split p b'/')
