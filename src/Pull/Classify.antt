-- ===== src/Pull/Classify.antt =====
-- What a pull makes of each manifest entry: `hashTree` and `byContent` of pkg/pull/hash.go, `classify`
-- of stage.go and `resumeSlots` of resume.go.
pub mod Laws
use pinsync.Base.{
  Bool, true, false, not, ◌&&◌, ◌||◌, ◌≡◌, ◌↔◌, refl, ap, List, [], ◌∷◌, ◌++◌, Option, none, some,
  ℕ, arith, if◌then◌else◌, Result, ok, err, ◌>>=◌, ◌==◌, Eq, eq_iff, nat_eq, list_eq, contains,
}
use pinsync.Base.Int.{ℤ, pos, ltb_ℤ, int_eq}
use pinsync.Base.Dict.{Dict, get, put}
use pinsync.Base.Text.{Text, lit, text_lt, has_prefix, before}
use pinsync.Manifest.Entry.{File, Manifest}
use pinsync.Manifest.Mode.{ModeError, file_mode}
use pinsync.Manifest.Walk.{Opened, Walked}

pub record LocalFile : Type 0 where
  pub hash : Text
  pub size : ℤ
  pub mode : ℕ

pub record ContentKey : Type 0 where
  pub hash : Text
  pub size : ℤ

pub record Leftover : Type 0 where
  pub path : Text
  pub mode : ℕ

abbrev key_beq : ContentKey → ContentKey → Bool
key_beq a b = (a.hash == b.hash) && (a.size == b.size)

pub key_beq_iff : (a b : ContentKey) → (key_beq a b ≡ true) ↔ (a ≡ b)
key_beq_iff a b = ground (arith, eq_iff a.hash b.hash, eq_iff a.size b.size)

instance abbrev pub key_eq : Eq ContentKey
key_eq = record { same = key_beq; same_iff = key_beq_iff }

-- What WalkDir visits where nothing is skipped: no root, a folder that cannot be read, a folder, an
-- entry.
pub data TreeVisit : Type 0 where
  no_root : TreeVisit
  walk_error folder : Text → TreeVisit
  entry : Walked → TreeVisit

pub data HashError : Type 0 where
  not_walked not_hashed : Text → HashError

-- Inside the top-level directory `skip`, which the walk leaves out.
abbrev pub inside_skipped : Text → Text → Bool
inside_skipped skip p = not (skip == []) && has_prefix p (skip ++ lit "/")

module _ (sha256_hex : Text → Text) (skip : Text) where
  -- d.Info and hashContent of a regular file.
  unfoldable pub hash_opened : Text → Option Opened → Result HashError LocalFile
  hash_opened p none = err (not_hashed p)
  hash_opened p (some o) =
      if o.broken
      then err (not_hashed p)
      else ok (record { hash = sha256_hex o.bytes; size = o.size; mode = o.perm })

  unfoldable pub hash_visits :
      Dict Text LocalFile → List TreeVisit → Result HashError (Dict Text LocalFile)
  unfolding hash_opened
  hash_visits files [] = ok files
  hash_visits files (no_root ∷ vs) = ok files
  hash_visits files (walk_error p ∷ vs) =
      let rest = hash_visits files vs in
      if not (skip == []) && p == skip || inside_skipped skip p then rest else err (not_walked p)
  hash_visits files (folder p ∷ vs) = hash_visits files vs
  hash_visits files (entry w ∷ vs) =
      let rest = hash_visits files vs in
      if inside_skipped skip w.path || not w.regular
      then rest
      else (hash_opened w.path w.opened >>= λ lf. hash_visits (put files w.path lf) vs)

  unfoldable pub hash_tree : List TreeVisit → Result HashError (Dict Text LocalFile)
  hash_tree vs = hash_visits [] vs

abbrev pub key_of : LocalFile → ContentKey
key_of lf = record { hash = lf.hash; size = lf.size }

abbrev pub leftover_of : Text → LocalFile → Leftover
leftover_of p lf = record { path = p; mode = lf.mode }

-- The entry of the index that a file leaves at its own content.
unfoldable pub better : Text → LocalFile → Option Leftover → Leftover
better p lf none = leftover_of p lf
better p lf (some have) = if text_lt p have.path then leftover_of p lf else have

unfoldable pub index_files :
    Dict ContentKey Leftover → Dict Text LocalFile → Dict ContentKey Leftover
index_files index [] = index
index_files index ((p, lf) ∷ files) =
    index_files (put index (key_of lf) (better p lf (get index (key_of lf)))) files

unfoldable pub by_content : Dict Text LocalFile → Dict ContentKey Leftover
by_content files = index_files [] files

pub data Act : Type 0 where
  download copy link reuse : Act

abbrev pub wanted_key : File → ContentKey
wanted_key f = record { hash = f.sha256; size = f.size }

-- The live file, if there is one, has the entry's content.
abbrev pub is_current : File → Option LocalFile → Bool
is_current f none = false
is_current f (some lf) = (lf.hash == f.sha256) && (lf.size == f.size)

abbrev pub has_mode : ℕ → Option LocalFile → Bool
has_mode mode none = false
has_mode mode (some lf) = lf.mode == mode

abbrev pub is_known {ℓ} : {A : Type ℓ} → Option A → Bool
is_known none = false
is_known (some a) = true

module _ (windows : Bool) where
  unfoldable pub choose : ℕ → File → Option LocalFile → Dict ContentKey Leftover → Act
  choose mode f lf index =
      if not (is_current f lf)
      then (if is_known (get index (wanted_key f)) then reuse else download)
      else if not windows && not (has_mode mode lf)
      then copy
      else link

  unfoldable pub classify :
      File → Dict Text LocalFile → Dict ContentKey Leftover → Result ModeError (Act × ℕ)
  unfolding choose
  classify f live index = do
    mode ← file_mode f.mode
    ok (choose mode f (get live f.path) index, mode)

-- minResumeSize
abbrev pub min_resume_size : ℤ
min_resume_size = pos 1048576

-- resumeDir
abbrev pub resume_dir : Text
resume_dir = lit ".pinsync-resume"

-- The contents claimed so far, or no resuming at all.
pub data Slots : Type 0 where
  closed : Slots
  claimed : List Text → Slots

-- `strings.EqualFold`, whose case tables are not modelled.
module _ (equal_fold : Text → Text → Bool) where
  unfoldable pub resume_slots : List File → Slots
  resume_slots [] = claimed []
  resume_slots (f ∷ fs) =
      let rest = resume_slots fs in
      if equal_fold (before f.path b'/') resume_dir then closed else rest

-- A call of the function that `resumeSlots` returns.
unfoldable pub resumable : Slots → File → Bool × Slots
resumable closed f = (false, closed)
resumable (claimed sums) f =
    if ltb_ℤ f.size min_resume_size || contains sums f.sha256
    then (false, claimed sums)
    else (true, claimed (f.sha256 ∷ sums))
