-- ===== src/Manifest/Mode.antt =====
-- Mode strings: `FileMode` of pkg/manifest/manifest.go, and how `hashFile` of build.go writes them.
pub mod Laws
use pinsync.Base.{
  Bool, List, [], ◌∷◌, ◌&&◌, ℕ, zero, suc, ◌+◌, ◌-◌, ◌*◌, ◌/◌, ◌%◌, ◌^◌, if◌then◌else◌, ltb, leb,
  Result, ok, err, guard, ◌>>=◌, ◌>>◌, ◌==◌, nat_eq, list_eq,
}
use pinsync.Base.Text.{Text}

-- What `strconv.ParseUint(s, 8, 32)` refuses, and bits beyond `fs.ModePerm`.
pub data ModeError : Type 0 where
  bad_syntax out_of_range extra_bits : ModeError

unfoldable pub parse_octal : ℕ → Text → Result ModeError ℕ
parse_octal n [] = ok n
parse_octal n (c ∷ s) =
    let n' = n * 8 + (c - b'0') in
    let rest = parse_octal n' s in
    if leb b'0' c && leb c b'7'
    then (if ltb n' (2 ^ 32) then rest else err out_of_range)
    else err bad_syntax

unfoldable pub parse_uint : Text → Result ModeError ℕ
unfolding parse_octal
parse_uint s = if s == [] then err bad_syntax else parse_octal 0 s

-- n &^ fs.ModePerm, with ModePerm = 0o777
abbrev pub beyond_perm : ℕ → ℕ
beyond_perm n = n - n % 2 ^ 9

-- The body of `File.FileMode`, on the entry's mode string.
unfoldable pub file_mode : Text → Result ModeError ℕ
unfolding parse_uint
file_mode mode = do n ← parse_uint mode; guard (beyond_perm n == 0) extra_bits; ok n

-- The octal digits of `n`, before `acc`; eleven digits hold 32 bits.
unfoldable pub octal_digits : ℕ → ℕ → Text → Text
octal_digits zero n acc = acc
octal_digits (suc fuel) n acc =
    let acc' = (b'0' + n % 8) ∷ acc in
    let more = octal_digits fuel (n / 8) acc' in if ltb n 8 then acc' else more

abbrev pub with_leading_zero : Text → Text
with_leading_zero [] = []
with_leading_zero (c ∷ s) = if c == b'0' then c ∷ s else b'0' ∷ c ∷ s

-- fmt.Sprintf("%#o", perm)
unfoldable pub format_mode : ℕ → Text
unfolding octal_digits
format_mode perm = with_leading_zero (octal_digits 11 perm [])
