-- ===== src/Base/Slash.antt =====
-- Go's package `path`: `Clean` and `Join` on slash-separated paths (and `filepath` where the
-- separator is a slash).
pub mod Laws
use mathlib.Core.Bool.{Bool, true, false, ◌||◌}
use mathlib.Core.List.{List, [], ◌∷◌, ◌++◌, reverse}
use pinsync.Base.Tests.{if◌then◌else◌}
use pinsync.Base.Equality.{◌==◌, nat_eq, list_eq}
use pinsync.Base.Text.{Text, lit, has_prefix, split, join}

abbrev pub slash : Text
slash = lit "/"

-- A `..` segment on the reversed output of `Clean`.
unfoldable pub go_up : Bool → List Text → List Text
go_up rooted [] = if rooted then [] else lit ".." ∷ []
go_up rooted (t ∷ out) = if t == lit ".." then lit ".." ∷ t ∷ out else out

unfoldable pub clean_step : Bool → List Text → Text → List Text
unfolding go_up
clean_step rooted out s =
    if s == [] || s == lit "." then out else if s == lit ".." then go_up rooted out else s ∷ out

unfoldable pub clean_segments : Bool → List Text → List Text → List Text
unfolding clean_step
clean_segments rooted out [] = out
clean_segments rooted out (s ∷ ss) = clean_segments rooted (clean_step rooted out s) ss

unfoldable pub render : Bool → List Text → Text
render rooted ss =
    let body = join ss slash in
    if rooted then slash ++ body else if body == [] then lit "." else body

unfoldable pub clean : Text → Text
clean p =
    let rooted = has_prefix p slash in
    render rooted (reverse (clean_segments rooted [] (split p b'/')))

-- path.Join(prefix, p)
unfoldable pub join_path : Text → Text → Text
unfolding clean
join_path [] [] = []
join_path [] (c ∷ p) = clean (c ∷ p)
join_path (d ∷ prefix) p = clean ((d ∷ prefix) ++ (slash ++ p))
