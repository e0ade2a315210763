-- ===== src/Manifest/Path/Laws.antt =====
-- What an accepted path is.
use pinsync.Base.{
  false, ◌≡◌, ◌≢◌, ◌↔◌, refl, List, [], ◌∷◌, ok, ◌==◌, nat_eq, list_eq, contains, arith, All,
  Bool-cases, list_beq_iff, >>-eq-ok_iff, inl, inr,
}
use pinsync.Base.Text.{Byte, Text, lit, has_prefix, ends_in, before, split, add_to_head}
use pinsync.Base.Slash.Laws.{IsNormal, IsPlain}
use pinsync.Manifest.Path.{Casing, device_names, validate_segment, validate_segments, validate_path}

module _ (casing : Casing) where
  open casing use {to_upper}

  -- A segment that every supported system can store under its own name.
  pub record IsPortableSegment (seg : Text) : Type 0 where
    pub not_empty : seg ≢ []
    pub not_dot : seg ≢ lit "."
    pub not_dots : seg ≢ lit ".."
    pub no_dot_ending : ends_in seg b'.' ≡ false
    pub no_space_ending : ends_in seg b' ' ≡ false
    pub not_device : contains device_names (to_upper (before seg b'.')) ≡ false

  pub record IsPortable (p : Text) : Type 0 where
    pub not_empty : p ≢ []
    pub no_backslash : contains p b'\\' ≡ false
    pub relative : has_prefix p (lit "/") ≡ false
    pub segments : All IsPortableSegment (split p b'/')

  validate_segment_iff :
      (p seg : Text) → (validate_segment casing p seg ≡ ok tt) ↔ IsPortableSegment seg
  unfolding validate_segment
  validate_segment_iff p seg =
      ground (arith, list_beq_iff seg [], list_beq_iff seg (lit "."), list_beq_iff seg (lit ".."))

  validate_segments_iff :
      (p : Text) (segs : List Text)
      → (validate_segments casing p segs ≡ ok tt) ↔ All IsPortableSegment segs
  unfolding validate_segments
  validate_segments_iff p [] = (λ _. tt, λ _. refl)
  validate_segments_iff p (seg ∷ segs) =
      let split_ok =
        >>-eq-ok_iff (validate_segment casing p seg) (validate_segments casing p segs) tt in
      (
        λ h.
            let both = split_ok.0 h in
            ((validate_segment_iff p seg).0 both.0, (validate_segments_iff p segs).0 both.1),
        λ h. split_ok.1 ((validate_segment_iff p seg).1 h.0, (validate_segments_iff p segs).1 h.1),
      )

  -- `validatePath` accepts exactly the portable paths.
  pub validate_path_iff : (p : Text) → (validate_path casing p ≡ ok tt) ↔ IsPortable p
  unfolding validate_path
  validate_path_iff p = ground (arith, list_beq_iff p [], validate_segments_iff p (split p b'/'))

add_to_head-no_sep :
    (x c : Byte) (ss : List Text)
    → (x == c) ≡ false
    → All (λ seg. contains seg c ≡ false) ss
    → All (λ seg. contains seg c ≡ false) (add_to_head x ss)
unfolding add_to_head contains
add_to_head-no_sep x c [] e h = (rw (e, contains), tt)
add_to_head-no_sep x c (t ∷ ss) e h = (rw (e, contains) h.0, h.1)

split-no_sep : (s : Text) (c : Byte) → All (λ seg. contains seg c ≡ false) (split s c)
unfolding split contains
split-no_sep [] c = (refl, tt)
split-no_sep (x ∷ s) c = elim (Bool-cases (x == c)) [
  | inl e ↦ rw e (refl, split-no_sep s c)
  | inr e ↦ rw e (add_to_head-no_sep x c (split s c) e (split-no_sep s c))
]

ne→beq : (s t : Text) → s ≢ t → (s == t) ≡ false
ne→beq s t h = ground (arith, list_beq_iff s t)

module _ (casing : Casing) where
  IsNormal-segments :
      (ss : List Text)
      → All (λ seg. contains seg b'/' ≡ false) ss
      → All (IsPortableSegment casing) ss
      → All IsNormal ss
  IsNormal-segments [] h k = tt
  IsNormal-segments (s ∷ ss) h k = (
    record {
      no_slash = h.0;
      not_empty = ne→beq s [] k.0.not_empty;
      not_dot = ne→beq s (lit ".") k.0.not_dot;
      not_dots = ne→beq s (lit "..") k.0.not_dots;
    },
    IsNormal-segments ss h.1 k.1,
  )

  -- No segment of a portable path leads out of the directory that it is joined to.
  pub IsPortable-IsPlain : (p : Text) → IsPortable casing p → IsPlain p
  IsPortable-IsPlain p h = record {
    segments = IsNormal-segments (split p b'/') (split-no_sep p b'/') h.segments;
  }
