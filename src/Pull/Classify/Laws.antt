-- ===== src/Pull/Classify/Laws.antt =====
-- The index of a tree by content, and which entries a pull downloads (pkg/pull/hash.go, stage.go).
use pinsync.Base.{
  Bool, true, false, not, ◌&&◌, ◌||◌, ◌≡◌, refl, sym, ap, ◌∙◌, subst, [], ◌∷◌, Option, none, some,
  ℕ, arith, if◌then◌else◌, ok, ◌==◌, eq_iff, eq_refl, nat_eq, list_eq, Bool-cases, Option-cases,
  >>=-eq-ok, inl, inr, ◌⊎◌,
}
use pinsync.Base.Dict.{Dict, get, put, get-put}
use pinsync.Base.Text.{Text, text_lt}
use pinsync.Base.Text.Order.{text_lt_asymm, text_lt_of_le}
use pinsync.Manifest.Entry.{File}
use pinsync.Manifest.Mode.{file_mode}
use pinsync.Pull.Classify.{
  LocalFile, ContentKey, Leftover, key_eq, key_of, better, index_files, by_content, Act, download,
  copy, link, reuse, wanted_key, is_current, has_mode, choose, classify,
}

-- What the loop of `byContent` does to the index at one content.
pick : ContentKey → Option Leftover → Dict Text LocalFile → Option Leftover
pick k best [] = best
pick k best ((p, lf) ∷ files) =
    pick k (if key_of lf == k then some (better p lf best) else best) files

get-put-better :
    (p : Text) (lf : LocalFile) (index : Dict ContentKey Leftover) (j k : ContentKey)
    → get (put index j (better p lf (get index j))) k
      ≡ (if j == k then some (better p lf (get index k)) else get index k)
get-put-better p lf index j k =
    ground (arith, get-put index j k (better p lf (get index j)), eq_iff j k)

get-index_files :
    (k : ContentKey) (index : Dict ContentKey Leftover) (files : Dict Text LocalFile)
    → get (index_files index files) k ≡ pick k (get index k) files
unfolding index_files pick
get-index_files k index [] = refl
get-index_files k index ((p, lf) ∷ files) =
    get-index_files k (put index (key_of lf) (better p lf (get index (key_of lf)))) files
    ∙ ap (λ best. pick k best files) (get-put-better p lf index (key_of lf) k)

-- `lo` is one of the files with the content `k`.
abbrev pub has_file : ContentKey → Leftover → Dict Text LocalFile → Bool
has_file k lo [] = false
has_file k lo ((p, lf) ∷ files) =
    ((p == lo.path) && (lf.mode == lo.mode) && (key_of lf == k)) || has_file k lo files

-- No file with the content `k` lies below the path.
abbrev pub none_below : ContentKey → Text → Dict Text LocalFile → Bool
none_below k q [] = true
none_below k q ((p, lf) ∷ files) = not ((key_of lf == k) && text_lt p q) && none_below k q files

abbrev pub lacks : ContentKey → Dict Text LocalFile → Bool
lacks k [] = true
lacks k ((p, lf) ∷ files) = not (key_of lf == k) && lacks k files

-- What comes after `better p lf best` comes after `p` and after the path of `best`.
after-better :
    (p q : Text) (lf : LocalFile) (best : Option Leftover)
    → text_lt (better p lf best).path q ≡ false
    → (text_lt p q ≡ false) × ((b : Leftover) → best ≡ some b → text_lt b.path q ≡ false)
unfolding better
after-better p q lf none h = (h, λ b e. cc)
after-better p q lf (some have) h = elim (Bool-cases (text_lt p have.path)) [
  | inl e ↦
      let first : text_lt p q ≡ false = rw e at h in
      (first, λ b same. ground (arith, text_lt_asymm p have.path, text_lt_of_le have.path p q))
  | inr e ↦
      let kept : text_lt have.path q ≡ false = rw e at h in
      (ground (arith, text_lt_of_le p have.path q), λ b same. ground arith)
]

better-IsFile :
    (p : Text) (lf : LocalFile) (best : Option Leftover)
    → (((p == (better p lf best).path) && (lf.mode == (better p lf best).mode)) ≡ true)
      ⊎ (best ≡ some (better p lf best))
unfolding better
better-IsFile p lf none = inl (ground (arith, eq_refl p))
better-IsFile p lf (some have) = ground (arith, eq_refl p)

pick_least :
    (k : ContentKey) (best : Option Leftover) (files : Dict Text LocalFile) (lo : Leftover)
    → pick k best files ≡ some lo
    → (none_below k lo.path files ≡ true)
      × ((has_file k lo files ≡ true) ⊎ (best ≡ some lo))
      × ((b : Leftover) → best ≡ some b → text_lt b.path lo.path ≡ false)
unfolding pick
pick_least k best [] lo h = (refl, inr h, λ b e. ground (arith, text_lt_asymm b.path b.path))
pick_least k best ((p, lf) ∷ files) lo h = elim (Bool-cases (key_of lf == k)) [
  | inl e ↦
      let (below, found, over) = pick_least k (some (better p lf best)) files lo (rw e at h) in
      let (here, before) = after-better p lo.path lf best (over (better p lf best) refl) in
      (ground arith, ground (arith, better-IsFile p lf best), before)
  | inr e ↦
      let (below, found, over) = pick_least k best files lo (rw e at h) in
      (ground arith, ground arith, over)
]

pick-lacks :
    (k : ContentKey) (best : Option Leftover) (files : Dict Text LocalFile)
    → pick k best files ≡ none
    → (best ≡ none) × (lacks k files ≡ true)
unfolding pick
pick-lacks k best [] h = (h, refl)
pick-lacks k best ((p, lf) ∷ files) h = elim (Bool-cases (key_of lf == k)) [
  | inl e ↦
      let (none_yet, rest) = pick-lacks k (some (better p lf best)) files (rw e at h) in absurd cc
  | inr e ↦ let (none_yet, rest) = pick-lacks k best files (rw e at h) in (none_yet, ground arith)
]

-- What the index holds for a content: a file that has it, with none of those below it by path, or
-- nothing where no file has it.
abbrev pub IsLeast : ContentKey → Option Leftover → Dict Text LocalFile → Type 0
IsLeast k none files = lacks k files ≡ true
IsLeast k (some lo) files = (has_file k lo files ≡ true) × (none_below k lo.path files ≡ true)

-- For every content the index of a tree holds a file of the tree with that content whose path is
-- the least of those, in whatever order the tree's files came, and nothing if no file has it.
pub get-by_content-IsLeast :
    (files : Dict Text LocalFile) (k : ContentKey) → IsLeast k (get (by_content files) k) files
unfolding by_content get
get-by_content-IsLeast files k =
    subst (λ o. IsLeast k o files) (sym (get-index_files k [] files)) (go (pick k none files) refl)
  where
    go : (o : Option Leftover) → pick k none files ≡ o → IsLeast k o files
    go none h = (pick-lacks k none files h).1
    go (some lo) h =
        let (below, found, over) = pick_least k none files lo h in (ground arith, below)

-- The live file at the entry's path has its content.
abbrev pub IsCurrent : File → Dict Text LocalFile → Type 0
IsCurrent f live = is_current f (get live f.path) ≡ true

-- What is decided for an entry says of the live tree and of the files kept from a failed pull.
abbrev pub IsSparing : Bool → File → ℕ → Dict Text LocalFile → Dict Text LocalFile → Act → Type 0
IsSparing windows f mode live kept download =
    (¬ IsCurrent f live) × (lacks (wanted_key f) kept ≡ true)
IsSparing windows f mode live kept reuse =
    (¬ IsCurrent f live)
    × (lo : Leftover) × (get (by_content kept) (wanted_key f) ≡ some lo)
    × IsLeast (wanted_key f) (some lo) kept
IsSparing windows f mode live kept copy =
    IsCurrent f live × (windows ≡ false) × (has_mode mode (get live f.path) ≡ false)
IsSparing windows f mode live kept link =
    IsCurrent f live × ((windows ≡ true) ⊎ (has_mode mode (get live f.path) ≡ true))

choose-IsSparing :
    (windows : Bool) (f : File) (mode : ℕ) (live kept : Dict Text LocalFile)
    → IsSparing windows f mode live kept (choose windows mode f (get live f.path) (by_content kept))
unfolding choose
choose-IsSparing windows f mode live kept = elim (Bool-cases (is_current f (get live f.path))) [
  | inl now ↦ elim (Bool-cases (not windows && not (has_mode mode (get live f.path)))) [
    | inl e ↦ rw (now, e) (now, ground arith, ground arith)
    | inr e ↦ rw (now, e) (now, ground arith)
  ]
  | inr stale ↦ elim (Option-cases (get (by_content kept) (wanted_key f))) [
    | inl e ↦ rw (stale, e) (λ now. cc, subst (λ o. IsLeast (wanted_key f) o kept) e least)
    | inr (lo, e) ↦
        rw (stale, e) (λ now. cc, lo, e, subst (λ o. IsLeast (wanted_key f) o kept) e least)
  ]
]
  where
    least : IsLeast (wanted_key f) (get (by_content kept) (wanted_key f)) kept
    least = get-by_content-IsLeast kept (wanted_key f)

-- An entry whose mode can be read is downloaded only if neither the live file at its path nor any
-- kept file has its content; the kept file with its content and the least path is used only if the
-- live file has not; the live file is copied only to change its mode, never on Windows; otherwise
-- the live file has content and mode (on Windows, content) and is linked.
pub classify-IsSparing :
    (windows : Bool) (f : File) (live kept : Dict Text LocalFile) (act : Act) (mode : ℕ)
    → classify windows f live (by_content kept) ≡ ok (act, mode)
    → (file_mode f.mode ≡ ok mode) × IsSparing windows f mode live kept act
unfolding classify
classify-IsSparing windows f live kept act mode h =
    let (m, read, rest) =
      >>=-eq-ok (file_mode f.mode)
        (λ m. ok (choose windows m f (get live f.path) (by_content kept), m)) (act, mode) h in
    let acts : choose windows m f (get live f.path) (by_content kept) ≡ act = cc in
    let modes : m ≡ mode = cc in
    (
      subst (λ n. file_mode f.mode ≡ ok n) modes read,
      subst (λ n. IsSparing windows f n live kept act) modes
          (subst (IsSparing windows f m live kept) acts (choose-IsSparing windows f m live kept)),
    )
