-- ===== src/Tests/Cycles.antt =====
-- The laws of a pull's rounds at steps that count their calls.
use pinsync.Base.{
  Bool, true, ◌≡◌, ◌≤◌, ◌+◌, refl, List, [], ◌∷◌, Option, none, some, ℕ, Result, ok, err, arith,
}
use pinsync.Base.Action.{Action}
use pinsync.Base.Dict.{Dict}
use pinsync.Base.Int.{ℤ, pos}
use pinsync.Base.Text.{Text, lit}
use pinsync.Manifest.Entry.{Manifest, schema_version}
use pinsync.Pull.Classify.{LocalFile}
use pinsync.Pull.Fetch.{FetchError}
use pinsync.Pull.Options.{OptionsError}
use pinsync.Pull.Cycle.{Errors, Installed, Steps, replace, sync_once, sync_loop}
use pinsync.Pull.Cycle.Rounds.{Ends, sync_loop_rounds}
use pinsync.Pull.Cycle.Laws.{Passed, replace-Passed, replace-retries}

data Trouble : Type 0 where
  options : OptionsError → Trouble
  size : FetchError → Trouble
  tired : Text → ℕ → Trouble
  mismatched : Text → Trouble
  both : Trouble → Trouble → Trouble

abbrev mismatch_path : Trouble → Option Text
mismatch_path (mismatched p) = some p
mismatch_path t = none

abbrev troubles : Errors
troubles = record {
  Error = Trouble;
  bad_options = options;
  too_large = size;
  gave_up = tired;
  mismatch_of = mismatch_path;
  joined = both;
}

abbrev one : Manifest
one = record {
  version = schema_version;
  files = record { path = lit "motd"; sha256 = lit "x"; size = pos 5; mode = lit "0644" } ∷ [];
}

abbrev step {ℓ} : {A : Type ℓ} → A → Action ℕ Trouble A
step a n = (ok a, n + 1)

-- Staging meets a mismatch or not.
abbrev steps : Result Trouble ℕ → Steps troubles ℕ ℕ
steps staged = record {
  recover = step tt;
  fetch_manifest = step (lit "raw", one);
  hash_live = step [];
  stage = λ m live n. (staged, n + 1);
  verify_tree = λ m. step tt;
  before_replace = some (λ raw. step tt);
  swap = step tt;
  keep_staged = step tt;
}

abbrev unlucky : Steps troubles ℕ ℕ
unlucky = steps (err (mismatched (lit "motd")))

installed :
    replace troubles (steps (ok 7)) (pos 5) (lit "raw") one 0
    ≡ (ok (record { stats = 7; total = 1; manifest = lit "raw" }), 5)
unfolding replace pinsync.Pull.Fetch.check_content_size pinsync.Pull.Fetch.check_sizes
    pinsync.Base.Int.◌-ℤ◌ pinsync.Pull.Cycle.replace_live pinsync.Pull.Cycle.install
    pinsync.Pull.Cycle.settle
installed = refl

refused :
    replace troubles unlucky (pos 5) (lit "raw") one 0
    ≡ (err (mismatched (lit "motd"), some (lit "motd")), 3)
unfolding replace pinsync.Pull.Fetch.check_content_size pinsync.Pull.Fetch.check_sizes
    pinsync.Base.Int.◌-ℤ◌ pinsync.Pull.Cycle.replace_live pinsync.Pull.Cycle.install
refused = refl

sync_loop_rounds_example :
    Ends troubles unlucky (pos 5) 3 3 0 (sync_loop troubles unlucky (pos 5) 3 3 [] 0)
sync_loop_rounds_example = sync_loop_rounds troubles unlucky (pos 5) 3 [] 0 (omega arith)

replace-Passed_example :
    Passed troubles
      (steps (ok 7))
      (pos 5)
      (lit "raw")
      one
      0
      (record { stats = 7; total = 1; manifest = lit "raw" })
      5
replace-Passed_example =
    replace-Passed troubles (steps (ok 7)) (pos 5) (lit "raw") one 0 5
      (record { stats = 7; total = 1; manifest = lit "raw" }) installed

replace-retries_example :
    (live : Dict Text LocalFile) × ((unlucky.hash_live 0).0 ≡ ok live)
    × ((unlucky.stage one live (unlucky.hash_live 0).1).0 ≡ err (mismatched (lit "motd")))
    × (mismatch_path (mismatched (lit "motd")) ≡ some (lit "motd"))
    × (unlucky.keep_staged (unlucky.stage one live (unlucky.hash_live 0).1).1 ≡ (ok tt, 3))
replace-retries_example =
    replace-retries troubles unlucky (pos 5) (lit "raw") one 0 3 (mismatched (lit "motd"))
      (lit "motd") refused
