-- ===== src/Base/Slash/Laws.antt =====
-- `split` and `join` are inverse, and joining onto a fixed prefix is injective on normal paths.
use mathlib.Core.Bool.{Bool, true, false}
use mathlib.Core.Path.{◌≡◌, refl, sym, ap, ◌∙◌}
use mathlib.Core.Logic.{◌≢◌, inl, inr}
use mathlib.Core.List.{
  List, [], ◌∷◌, ◌++◌, reverse, reverse_aux, reverse-append, reverse-reverse, reverse_aux-eq,
  append_assoc, append_cancel_left,
}
use native.Mathlib.Omega.{arith}
use pinsync.Base.Tests.{if◌then◌else◌, Bool-cases, nat_beq_iff}
use pinsync.Base.Lists.{All}
use pinsync.Base.Equality.{◌==◌, nat_eq, list_eq, contains, list_beq}
use pinsync.Base.Text.{Byte, Text, lit, has_prefix, split, join, add_to_head}
use pinsync.Base.Slash.{slash, clean_step, clean_segments, render, clean, join_path}

-- A segment that `Clean` keeps: no slash, not empty, not a dot name.
pub record IsNormal (s : Text) : Type 0 where
  pub no_slash : contains s b'/' ≡ false
  pub not_empty : (s == []) ≡ false
  pub not_dot : (s == lit ".") ≡ false
  pub not_dots : (s == lit "..") ≡ false

split-ne-nil : (s : Text) (c : Byte) → split s c ≢ []
unfolding split
split-ne-nil [] c = λ e. cc
split-ne-nil (x ∷ s) c = elim (Bool-cases (x == c)) [
  | inl e ↦ rw e (λ h. cc)
  | inr e ↦ rw e (go (split s c))
]
  where
    go : (ss : List Text) → add_to_head x ss ≢ []
    go [] = λ e. cc
    go (t ∷ ss) = λ e. cc

add_to_head-append :
    (x : Byte) (ss ts : List Text) → ss ≢ [] → add_to_head x (ss ++ ts) ≡ add_to_head x ss ++ ts
unfolding add_to_head
add_to_head-append x [] ts h = absurd (h refl)
add_to_head-append x (s ∷ ss) ts h = refl

pub split-append : (s t : Text) (c : Byte) → split (s ++ (c ∷ t)) c ≡ split s c ++ split t c
unfolding split
split-append [] t c = ground (arith, nat_beq_iff c c)
split-append (x ∷ s) t c =
    rw (split-append s t c)
      (ground (arith, add_to_head-append x (split s c) (split t c) (split-ne-nil s c)))

join-add_to_head :
    (x : Byte) (ss : List Text) (sep : Text)
    → ss ≢ []
    → join (add_to_head x ss) sep ≡ x ∷ join ss sep
unfolding join add_to_head
join-add_to_head x [] sep h = absurd (h refl)
join-add_to_head x (s ∷ []) sep h = refl
join-add_to_head x (s ∷ t ∷ ss) sep h = refl

join-nil-cons : (ss : List Text) (sep : Text) → ss ≢ [] → join ([] ∷ ss) sep ≡ sep ++ join ss sep
unfolding join
join-nil-cons [] sep h = absurd (h refl)
join-nil-cons (s ∷ ss) sep h = refl

pub join-split : (s : Text) (c : Byte) → join (split s c) (c ∷ []) ≡ s
unfolding split
join-split [] c = unfold join in refl
join-split (x ∷ s) c = elim (Bool-cases (x == c)) [
  | inl e ↦ rw e (
      join-nil-cons (split s c) (c ∷ []) (split-ne-nil s c)
      ∙ cc (join-split s c, (nat_beq_iff x c).0 e))
  | inr e ↦ rw e (
      join-add_to_head x (split s c) (c ∷ []) (split-ne-nil s c) ∙ ap (λ r. x ∷ r) (join-split s c))
]

-- The text that `join ss` puts before what follows.
lead_of : List Text → Text
lead_of [] = []
lead_of (s ∷ ss) = s ++ (slash ++ lead_of ss)

join-append_lead :
    (ss ts : List Text) → ts ≢ [] → join (ss ++ ts) slash ≡ lead_of ss ++ join ts slash
unfolding lead_of join
join-append_lead [] ts h = refl
join-append_lead (s ∷ []) [] h = absurd (h refl)
join-append_lead (s ∷ []) (t ∷ ts) h = sym (append_assoc s slash (join (t ∷ ts) slash))
join-append_lead (s ∷ u ∷ ss) ts h =
    ap (λ r. s ++ (slash ++ r)) (join-append_lead (u ∷ ss) ts h)
    ∙ sym (append_assoc s (slash ++ lead_of (u ∷ ss)) (join ts slash))

clean_segments-append :
    (r : Bool) (out xs ys : List Text)
    → clean_segments r out (xs ++ ys) ≡ clean_segments r (clean_segments r out xs) ys
unfolding clean_segments
clean_segments-append r out [] ys = refl
clean_segments-append r out (x ∷ xs) ys = clean_segments-append r (clean_step r out x) xs ys

clean_step-normal :
    (r : Bool) (out : List Text) (y : Text) → IsNormal y → clean_step r out y ≡ y ∷ out
unfolding clean_step
clean_step-normal r out y h = rw (h.not_empty, h.not_dot, h.not_dots)

clean_segments-normal :
    (r : Bool) (out ys : List Text) → All IsNormal ys → clean_segments r out ys ≡ reverse_aux ys out
unfolding clean_segments
clean_segments-normal r out [] h = refl
clean_segments-normal r out (y ∷ ys) h =
    rw (clean_step-normal r out y h.0) (clean_segments-normal r (y ∷ out) ys h.1)

reverse-reverse_aux : (ys out : List Text) → reverse (reverse_aux ys out) ≡ reverse out ++ ys
reverse-reverse_aux ys out =
    rw (reverse_aux-eq ys out)
      (reverse-append (reverse ys) out ∙ ap (λ r. reverse out ++ r) (reverse-reverse ys))

-- What `path.Join` puts before a normal path.
pub lead : Text → Text
lead [] = []
lead (d ∷ prefix) =
    let r = has_prefix (d ∷ prefix) slash in
    let body = lead_of (reverse (clean_segments r [] (split (d ∷ prefix) b'/'))) in
    if r then slash ++ body else body

-- A path of normal segments, as manifest paths are.
pub record IsPlain (p : Text) : Type 0 where
  pub segments : All IsNormal (split p b'/')

IsPlain-ne-nil : (p : Text) → IsPlain p → p ≢ []
unfolding split list_beq
IsPlain-ne-nil [] h = absurd (cc (h.segments.0.not_empty))
IsPlain-ne-nil (c ∷ p) h = λ e. cc

append-ne-nil : (s p : Text) → p ≢ [] → (s ++ p == []) ≡ false
unfolding list_beq
append-ne-nil [] [] h = absurd (h refl)
append-ne-nil [] (c ∷ p) h = refl
append-ne-nil (d ∷ s) p h = refl

segments-append :
    (r : Bool) (xs ys : List Text)
    → All IsNormal ys
    → reverse (clean_segments r [] (xs ++ ys)) ≡ reverse (clean_segments r [] xs) ++ ys
segments-append r xs ys h =
    rw (clean_segments-append r [] xs ys, clean_segments-normal r (clean_segments r [] xs) ys h)
      (reverse-reverse_aux ys (clean_segments r [] xs))

render-lead :
    (r : Bool) (ss : List Text) (p : Text)
    → IsPlain p
    → render r (ss ++ split p b'/') ≡ (if r then slash ++ lead_of ss else lead_of ss) ++ p
unfolding render
render-lead r ss p h =
    rw (join-append_lead ss (split p b'/') (split-ne-nil p b'/'), join-split p b'/')
      (go r (append-ne-nil (lead_of ss) p (IsPlain-ne-nil p h)))
  where
    go :
        (r : Bool)
        → (lead_of ss ++ p == []) ≡ false
        → (if r
            then slash ++ (lead_of ss ++ p)
            else if lead_of ss ++ p == []
            then lit "."
            else lead_of ss ++ p)
          ≡ (if r then slash ++ lead_of ss else lead_of ss) ++ p
    go true e = refl
    go false e = rw e

clean-plain :
    (d : Byte) (prefix p : Text)
    → IsPlain p
    → clean ((d ∷ prefix) ++ (slash ++ p)) ≡ lead (d ∷ prefix) ++ p
unfolding lead clean has_prefix
clean-plain d prefix p h =
    ap
      (λ ss.
        render (has_prefix (d ∷ prefix) slash)
          (reverse (clean_segments (has_prefix (d ∷ prefix) slash) [] ss)))
      (split-append (d ∷ prefix) p b'/')
    ∙ ap (render (has_prefix (d ∷ prefix) slash)) (
        segments-append (has_prefix (d ∷ prefix) slash) (split (d ∷ prefix) b'/') (split p b'/')
          h.segments)
    ∙ render-lead (has_prefix (d ∷ prefix) slash) _ p h

not_rooted : (c : Byte) (p : Text) → IsPlain (c ∷ p) → has_prefix (c ∷ p) slash ≡ false
unfolding has_prefix split list_beq
not_rooted c p h = elim (Bool-cases (c == b'/')) [
  | inl e ↦ absurd (cc ((rw e at h.segments).0.not_empty))
  | inr e ↦ rw e
]

clean-plain_nil : (c : Byte) (p : Text) → IsPlain (c ∷ p) → clean (c ∷ p) ≡ c ∷ p
unfolding clean render clean_segments lead_of
clean-plain_nil c p h = rw (not_rooted c p h) (
    ap (render false) (segments-append false [] (split (c ∷ p) b'/') h.segments)
    ∙ render-lead false [] (c ∷ p) h)

-- Joining a plain path onto a prefix puts a text that depends on the prefix alone before it.
pub join_path-plain : (prefix p : Text) → IsPlain p → join_path prefix p ≡ lead prefix ++ p
unfolding join_path lead
join_path-plain [] [] h = absurd (IsPlain-ne-nil [] h refl)
join_path-plain [] (c ∷ p) h = clean-plain_nil c p h
join_path-plain (d ∷ prefix) p h = clean-plain d prefix p h

-- Distinct plain paths have distinct keys under one prefix.
pub join_path-injective :
    (prefix p q : Text) → IsPlain p → IsPlain q → join_path prefix p ≡ join_path prefix q → p ≡ q
join_path-injective prefix p q hp hq e =
    append_cancel_left (lead prefix) p q
      (sym (join_path-plain prefix p hp) ∙ e ∙ join_path-plain prefix q hq)
