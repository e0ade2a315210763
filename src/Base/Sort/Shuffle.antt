-- ===== src/Base/Sort/Shuffle.antt =====
-- A list whose elements are told apart by the order has one sorted form, whatever its own order.
use mathlib.Core.Path.{◌≡◌, refl, ap, subst, ◌∙◌}
use mathlib.Core.Logic.{◌⊎◌, inl, inr}
use mathlib.Core.Bool.{Bool, true}
use mathlib.Core.List.{List, [], ◌∷◌, Permᴰ}
use pinsync.Base.Lists.{All}
use pinsync.Base.Sort.{insert, sort}
use pinsync.Base.Sort.Laws.{IsStrictOrder, insert-insert}

All-perm {ℓ κ} : {A : Type ℓ} (P : A → Type κ) {xs ys : List A} → Permᴰ xs ys → All P xs → All P ys
All-perm P Permᴰ.nil h = h
All-perm P (Permᴰ.cons e p) h = (subst P e h.0, All-perm P p h.1)
All-perm P (Permᴰ.swap e d) h = (subst P d h.1.0, (subst P e h.0, h.1.1))
All-perm P (Permᴰ.trans p q) h = All-perm P q (All-perm P p h)

module _ {ℓ} {A : Type ℓ} (less : A → A → Bool) where
  abbrev pub Differ : A → A → Type 0
  Differ a b = (less a b ≡ true) ⊎ (less b a ≡ true)

  -- Any two elements at different places are told apart.
  abbrev pub Apart : List A → Type ℓ
  Apart [] = Unit
  Apart (x ∷ xs) = All (Differ x) xs × Apart xs

  Differ-symm : (a b : A) → Differ a b → Differ b a
  Differ-symm a b (inl e) = inr e
  Differ-symm a b (inr e) = inl e

  Apart-perm : {xs ys : List A} → Permᴰ xs ys → Apart xs → Apart ys
  Apart-perm Permᴰ.nil h = h
  Apart-perm (Permᴰ.cons {l₂ = ys} e p) h =
      (subst (λ a. All (Differ a) ys) e (All-perm (Differ _) p h.0), Apart-perm p h.1)
  Apart-perm (Permᴰ.swap {a = a} {b = b} {a' = a'} {b' = b'} {l = l} e d) h = (
    (
      subst (λ x. Differ x b') d (subst (Differ b) e (Differ-symm a b h.0.0)),
      subst (λ x. All (Differ x) l) d h.1.0,
    ),
    (subst (λ x. All (Differ x) l) e h.0.1, h.1.1),
  )
  Apart-perm (Permᴰ.trans p q) h = Apart-perm q (Apart-perm p h)

  module _ (order : IsStrictOrder less) where
    pub sort-perm : {xs ys : List A} → Permᴰ xs ys → Apart xs → sort less xs ≡ sort less ys
    unfolding sort
    sort-perm Permᴰ.nil h = refl
    sort-perm (Permᴰ.cons {a = a} {l₂ = ys} e p) h =
        ap (insert less a) (sort-perm p h.1) ∙ ap (λ x. insert less x (sort less ys)) e
    sort-perm (Permᴰ.swap {a = a} {b = b} {a' = a'} {l = l} e d) h =
        insert-insert less order a b (sort less l) h.0.0
        ∙ ap (λ x. insert less x (insert less a (sort less l))) d
        ∙ ap (λ x. insert less a' (insert less x (sort less l))) e
    sort-perm (Permᴰ.trans p q) h = sort-perm p h ∙ sort-perm q (Apart-perm p h)
