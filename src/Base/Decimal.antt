-- ===== src/Base/Decimal.antt =====
-- Numbers in decimal, as fmt's %d prints them.
use Prim.Native.Nat.{ℕ, zero, suc, ◌+◌, ◌/◌, ◌%◌}
use mathlib.Core.List.{[], ◌∷◌}
use pinsync.Base.Tests.{ltb, if◌then◌else◌}
use pinsync.Base.Text.{Text}

-- The digits of `n` before `acc`; a number has no more digits than its value plus one.
unfoldable pub decimal_digits : ℕ → ℕ → Text → Text
decimal_digits zero n acc = acc
decimal_digits (suc fuel) n acc =
    let acc' = (b'0' + n % 10) ∷ acc in
    let more = decimal_digits fuel (n / 10) acc' in if ltb n 10 then acc' else more

unfoldable pub decimal : ℕ → Text
unfolding decimal_digits
decimal n = decimal_digits (suc n) n []
