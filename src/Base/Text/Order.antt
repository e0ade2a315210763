-- ===== src/Base/Text/Order.antt =====
-- The lexical order of texts is strict and total.
use mathlib.Core.Path.{◌≡◌, refl}
use mathlib.Core.Logic.{◌⊎◌, inl, inr}
use mathlib.Core.Bool.{true, false}
use mathlib.Core.List.{[], ◌∷◌}
use native.Mathlib.Omega.{arith}
use pinsync.Base.Equality.{◌==◌, nat_eq, list_eq, list_beq}
use pinsync.Base.Text.{Text, text_lt}
use pinsync.Base.Sort.Laws.{IsStrictOrder}

pub text_lt_asymm : (s t : Text) → text_lt s t ≡ true → text_lt t s ≡ false
unfolding text_lt
text_lt_asymm [] [] h = refl
text_lt_asymm [] (y ∷ ys) h = refl
text_lt_asymm (x ∷ xs) [] h = cc
text_lt_asymm (x ∷ xs) (y ∷ ys) h = ground (arith, text_lt_asymm xs ys)

-- From t ≤ s and s < u follows t < u.
pub text_lt_of_le : (s t u : Text) → text_lt s t ≡ false → text_lt s u ≡ true → text_lt t u ≡ true
unfolding text_lt
text_lt_of_le [] [] u h k = k
text_lt_of_le [] (y ∷ ys) u h k = cc
text_lt_of_le (x ∷ xs) [] [] h k = cc
text_lt_of_le (x ∷ xs) [] (z ∷ zs) h k = refl
text_lt_of_le (x ∷ xs) (y ∷ ys) [] h k = cc
text_lt_of_le (x ∷ xs) (y ∷ ys) (z ∷ zs) h k = ground (arith, text_lt_of_le xs ys zs)

pub text_lt_total : (s t : Text) → (s == t) ≡ false → (text_lt s t ≡ true) ⊎ (text_lt t s ≡ true)
unfolding text_lt list_beq
text_lt_total [] [] h = cc
text_lt_total [] (y ∷ ys) h = inl refl
text_lt_total (x ∷ xs) [] h = inr refl
text_lt_total (x ∷ xs) (y ∷ ys) h = ground (arith, text_lt_total xs ys)

pub text_order : IsStrictOrder text_lt
text_order = record { asymm = text_lt_asymm; of_le = text_lt_of_le }
