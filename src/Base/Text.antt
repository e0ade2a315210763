-- ===== src/Base/Text.antt =====
-- Go strings as lists of bytes, with the functions of `strings` that the program calls.
pub mod Order
use Prim.Native.Nat.{ℕ, zero, suc, ◌+◌, ◌-◌, ◌≤◌, ◌<◌}
use Prim.Native.Char.{code}
use Prim.Native.String.{String}
use mathlib.Core.Path.{◌≡◌, refl}
use mathlib.Core.Bool.{Bool, true, false, ◌&&◌, ◌||◌}
use mathlib.Core.List.{List, [], ◌∷◌, ◌++◌, reverse}
use mathlib.Core.Option.{Option, none, some}
use native.Mathlib.Omega.{arith}
use pinsync.Base.Tests.{ltb, leb, if◌then◌else◌}
use pinsync.Base.Equality.{Eq, ◌==◌, nat_eq}

abbrev pub Byte : Type 0
Byte = ℕ

abbrev pub Text : Type 0
Text = List ℕ

-- The bytes of an ASCII literal.
abbrev pub lit : String → Text
lit String.[] = []
lit (String.◌∷◌ c s) = code c ∷ lit s

-- a < b: bytewise lexical order.
unfoldable pub text_lt : Text → Text → Bool
text_lt xs [] = false
text_lt [] (y ∷ ys) = true
text_lt (x ∷ xs) (y ∷ ys) = elim (text_lt xs ys) [ true ↦ leb x y | false ↦ ltb x y ]

-- strings.HasPrefix(s, p)
unfoldable pub has_prefix : Text → Text → Bool
has_prefix s [] = true
has_prefix [] (p ∷ ps) = false
has_prefix (c ∷ s) (p ∷ ps) = (c == p) && has_prefix s ps

-- The last byte is `c`: strings.HasSuffix with a suffix of one byte.
unfoldable pub ends_in : Text → Byte → Bool
ends_in [] c = false
ends_in (x ∷ []) c = x == c
ends_in (x ∷ y ∷ s) c = ends_in (y ∷ s) c

-- strings.TrimSuffix with a suffix of one byte.
unfoldable pub trim_suffix : Text → Byte → Text
trim_suffix [] c = []
trim_suffix (x ∷ []) c = if x == c then [] else x ∷ []
trim_suffix (x ∷ y ∷ s) c = x ∷ trim_suffix (y ∷ s) c

-- The text before the first byte `c`, all of it where there is none.
unfoldable pub before : Text → Byte → Text
before [] c = []
before (x ∷ s) c = let rest = before s c in if x == c then [] else x ∷ rest

-- strings.Split(s, sep) with a separator of one byte: never empty.
unfoldable pub add_to_head : Byte → List Text → List Text
add_to_head x [] = (x ∷ []) ∷ []
add_to_head x (s ∷ ss) = (x ∷ s) ∷ ss

unfoldable pub split : Text → Byte → List Text
unfolding add_to_head
split [] c = [] ∷ []
split (x ∷ s) c = let rest = split s c in if x == c then [] ∷ rest else add_to_head x rest

-- strings.Join(ss, sep)
unfoldable pub join : List Text → Text → Text
join [] sep = []
join (s ∷ []) sep = s
join (s ∷ t ∷ ss) sep = s ++ (sep ++ join (t ∷ ss) sep)
