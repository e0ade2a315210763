-- ===== src/Manifest/Mode/Laws.antt =====
-- What a parsed mode is, and the round trip of the modes that `Build` writes.
use pinsync.Base.{
  if◌then◌else◌, Bool, true, false, ◌≡◌, refl, ℕ, zero, suc, ◌<◌, ◌^◌, arith, Result, ok, err, ◌==◌,
  nat_eq, list_beq,
}
use pinsync.Base.Text.{Text}
use pinsync.Manifest.Mode.{ModeError, file_mode, format_mode}

-- An accepted mode has permission bits alone.
pub file_mode-lt : (mode : Text) (n : ℕ) → file_mode mode ≡ ok n → n < 2 ^ 9
unfolding file_mode
file_mode-lt mode n h = ground arith

-- A test that passes at every number of a range.
passes : (ℕ → Bool) → ℕ → Bool
passes test zero = true
passes test (suc bound) = if test bound then passes test bound else false

passes_at : (test : ℕ → Bool) (bound k : ℕ) → k < bound → passes test bound ≡ true → test k ≡ true
unfolding passes
passes_at test zero k below all = absurd (omega arith)
passes_at test (suc bound) k below all = ground (arith, passes_at test bound k)

abbrev is_ok : Result ModeError ℕ → ℕ → Bool
is_ok (ok n) x = n == x
is_ok (err e) x = false

mode_table : passes (λ x. is_ok (file_mode (format_mode x)) x) (2 ^ 9) ≡ true
unfolding passes file_mode format_mode list_beq
mode_table = refl

is_ok_sound : (r : Result ModeError ℕ) (x : ℕ) → is_ok r x ≡ true → r ≡ ok x
is_ok_sound (ok n) x h = ground arith
is_ok_sound (err e) x h = cc

-- Reading back the mode string written for permission bits, a number below 2 ^ 9, gives those bits.
pub file_mode-format_mode : (perm : ℕ) → perm < 2 ^ 9 → file_mode (format_mode perm) ≡ ok perm
file_mode-format_mode perm h =
    is_ok_sound (file_mode (format_mode perm)) perm
      (passes_at (λ x. is_ok (file_mode (format_mode x)) x) (2 ^ 9) perm h mode_table)
