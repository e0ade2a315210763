-- ===== src/Manifest/Codec/Laws.antt =====
-- What a decoded manifest is, and what encoding forgets: the order of the files.
use mathlib.Core.List.{Permᴰ}
use pinsync.Base.{
  false, ◌≡◌, ◌↔◌, refl, sym, ap, subst, ◌∙◌, List, [], ◌∷◌, map, Option, some, arith, ◌≤◌, ◌<◌,
  ◌^◌, All, Bool-cases, Option-cases, inl, inr, ok, ◌==◌, nat_eq, list_eq, contains,
  not-contains-cons, eq_iff,
}
use pinsync.Base.Int.{int_eq, pos_part, neg_part}
use pinsync.Base.Text.{Text}
use pinsync.Base.Text.Order.{text_lt_asymm, text_lt_of_le, text_lt_total}
use pinsync.Base.Sort.{insert, sort}
use pinsync.Base.Sort.Laws.{IsStrictOrder, All-sort}
use pinsync.Base.Sort.Shuffle.{Differ, Apart, sort-perm}
use pinsync.Manifest.Path.{Casing}
use pinsync.Manifest.Entry.{File, Manifest, schema_version}
use pinsync.Manifest.Validate.{Violation, validate}
use pinsync.Manifest.Validate.Laws.{IsSound, IsValid, Distinct, validate_iff}
use pinsync.Manifest.Codec.{Json, by_path, sorted, encode, decode, accept, if_valid}

by_path_order : IsStrictOrder by_path
by_path_order = record {
  asymm = λ a b h. text_lt_asymm a.path b.path h;
  of_le = λ a b c h k. text_lt_of_le a.path b.path c.path h k;
}

module _ (to_lower : Text → Text) where
  abbrev low : File → Text
  low f = to_lower f.path

  apart_from :
      (f : File) (fs : List File)
      → contains (map low fs) (low f) ≡ false
      → All (Differ by_path f) fs
  apart_from f [] h = tt
  apart_from f (g ∷ gs) h =
      let parts = (not-contains-cons (low g) (low f) (map low gs)).0 h in
      (
        text_lt_total f.path g.path (
            ground (
              arith,
              eq_iff f.path g.path,
              eq_iff (low g) (low f),
              ap {B = Text} to_lower {x = f.path} {y = g.path},
            )),
        apart_from f gs parts.1,
      )

  Distinct-Apart : (fs : List File) → Distinct (map low fs) → Apart by_path fs
  Distinct-Apart [] h = tt
  Distinct-Apart (f ∷ fs) h = (apart_from f fs h.0, Distinct-Apart fs h.1)

module _ (json : Json) (casing : Casing) where
  -- Two manifests of one version and with the same entries, in whatever order, have the same bytes,
  -- if the first is valid.
  pub encode-perm :
      (m n : Manifest)
      → IsValid casing m
      → m.version ≡ n.version
      → Permᴰ m.files n.files
      → encode json m ≡ encode json n
  unfolding encode
  encode-perm m n v same p = λ i. json.write (record {
    version = same i;
    files = sort-perm by_path by_path_order p (Distinct-Apart casing.to_lower m.files v.distinct) i;
  })

  if_valid_iff :
      (m n : Manifest)
      → (if_valid json casing m (validate casing m) ≡ ok n) ↔ ((n ≡ m) × IsValid casing m)
  if_valid_iff m n = go (validate casing m) (validate_iff casing m)
    where
      go :
          (vs : List Violation)
          → (vs ≡ []) ↔ IsValid casing m
          → (if_valid json casing m vs ≡ ok n) ↔ ((n ≡ m) × IsValid casing m)
      go [] valid = (λ h. (cc, valid.0 refl), λ h. cc (h.0))
      go (v ∷ vs) valid = (λ h. cc, λ h. cc (valid.1 h.1))

  accept_iff :
      (m n : Manifest)
      → (accept json casing m ≡ ok n) ↔ ((n ≡ m) × (m.version ≡ schema_version) × IsValid casing m)
  unfolding accept
  accept_iff m n = elim (Bool-cases (m.version == schema_version)) [
    | inl e ↦ rw e (
      λ h. let k = (if_valid_iff m n).0 h in (k.0, (eq_iff m.version schema_version).0 e, k.1),
      λ h. (if_valid_iff m n).1 (h.0, h.2),
    )
    | inr e ↦ rw e (λ h. cc, λ h. cc (e, (eq_iff m.version schema_version).1 h.1))
  ]

  -- `Decode` accepts exactly the valid manifests of its version.
  pub decode_iff :
      (raw : Text) (m : Manifest)
      → (decode json casing raw ≡ ok m)
        ↔ ((json.read raw ≡ some m) × (m.version ≡ schema_version) × IsValid casing m)
  unfolding decode
  decode_iff raw m = elim (Option-cases (json.read raw)) [
    | inl e ↦ rw (e, decode) (λ h. cc, λ h. cc (h.0))
    | inr (n, e) ↦ (
      λ h.
          let k = (accept_iff n m).0 (rw (e, decode) at h) in
          (
            e ∙ ap {B = Option Manifest} some (sym k.0),
            ap (λ (x : Manifest). x.version) k.0 ∙ k.1,
            subst (IsValid casing) (sym k.0) k.2,
          ),
      λ h. rw (h.0, decode) ((accept_iff m m).1 (refl, h.1, h.2)),
    )
  ]

beq_symm : (s t : Text) → (s == t) ≡ false → (t == s) ≡ false
beq_symm s t h = ground (arith, eq_iff s t, eq_iff t s)

module _ (casing : Casing) where
  open casing use {to_lower}

  abbrev lowered : List File → List Text
  lowered = map (λ f. to_lower f.path)

  contains-lowered-insert :
      (f : File) (fs : List File) (k : Text)
      → contains (lowered (insert by_path f fs)) k ≡ contains (lowered (f ∷ fs)) k
  unfolding insert contains
  contains-lowered-insert f [] k = refl
  contains-lowered-insert f (g ∷ gs) k = ground (arith, contains-lowered-insert f gs k)

  Distinct-insert :
      (f : File) (fs : List File)
      → contains (lowered fs) (to_lower f.path) ≡ false
      → Distinct (lowered fs)
      → Distinct (lowered (insert by_path f fs))
  unfolding insert
  Distinct-insert f [] h d = (h, tt)
  Distinct-insert f (g ∷ gs) h d =
      let parts = (not-contains-cons (to_lower g.path) (to_lower f.path) (lowered gs)).0 h in
      elim (Bool-cases (by_path g f)) [
        | inl e ↦ rw e (
          contains-lowered-insert f gs (to_lower g.path)
              ∙ (not-contains-cons (to_lower f.path) (to_lower g.path) (lowered gs)).1
                  (beq_symm (to_lower g.path) (to_lower f.path) parts.0, d.0),
          Distinct-insert f gs parts.1 d.1,
        )
        | inr e ↦ rw e (h, d)
      ]

  contains-lowered-sort :
      (fs : List File) (k : Text) → contains (lowered (sort by_path fs)) k ≡ contains (lowered fs) k
  unfolding sort contains
  contains-lowered-sort [] k = refl
  contains-lowered-sort (f ∷ fs) k =
      ground (arith, contains-lowered-insert f (sort by_path fs) k, contains-lowered-sort fs k)

  Distinct-sort : (fs : List File) → Distinct (lowered fs) → Distinct (lowered (sort by_path fs))
  unfolding sort
  Distinct-sort [] d = tt
  Distinct-sort (f ∷ fs) d =
      Distinct-insert f (sort by_path fs) (contains-lowered-sort fs (to_lower f.path) ∙ d.0)
        (Distinct-sort fs d.1)

  pub sorted-IsValid : (m : Manifest) → IsValid casing m → IsValid casing (sorted m)
  unfolding sorted
  sorted-IsValid m v = record {
    sound = All-sort by_path (IsSound casing) m.files v.sound;
    distinct = Distinct-sort m.files v.distinct;
  }

-- ASCII texts and 64-bit numbers.
abbrev IsAscii : Text → Type 0
IsAscii = All (λ b. b < 128)

pub record IsWritableFile (f : File) : Type 0 where
  pub path : IsAscii f.path
  pub sha256 : IsAscii f.sha256
  pub mode : IsAscii f.mode
  pub fits : pos_part f.size < 2 ^ 63
  pub fits_below : neg_part f.size ≤ 2 ^ 63

pub record IsWritable (m : Manifest) : Type 0 where
  pub version : pos_part m.version < 2 ^ 63
  pub version_below : neg_part m.version ≤ 2 ^ 63
  pub files : All IsWritableFile m.files

sorted-IsWritable : (m : Manifest) → IsWritable m → IsWritable (sorted m)
unfolding sorted
sorted-IsWritable m w = record {
  version = w.version;
  version_below = w.version_below;
  files = All-sort by_path IsWritableFile m.files w.files;
}

-- encoding/json gives back what it wrote, where no text holds a byte that it would replace and no
-- number is out of range.
pub record IsFaithful (json : Json) : Type 0 where
  pub read-write : (m : Manifest) → IsWritable m → json.read (json.write m) ≡ some m

module _ (json : Json) (casing : Casing) where
  -- Over a faithful JSON library, a valid manifest of the current version, with ASCII texts and
  -- 64-bit numbers, is read back with its files sorted.
  pub decode-encode :
      IsFaithful json
      → (m : Manifest) → IsWritable m
      → m.version ≡ schema_version
      → IsValid casing m
      → decode json casing (encode json m) ≡ ok (sorted m)
  unfolding encode sorted
  decode-encode faithful m w current v =
      (decode_iff json casing (encode json m) (sorted m)).1
        (faithful.read-write (sorted m) (sorted-IsWritable m w), current, sorted-IsValid casing m v)
