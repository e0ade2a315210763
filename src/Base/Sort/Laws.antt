-- ===== src/Base/Sort/Laws.antt =====
-- Sorting by a strict order: the elements stay, they ascend, and a list of elements that are told
-- apart by the order is sorted to one result whatever its order was.
use Prim.Native.Nat.{suc}
use mathlib.Core.Path.{◌≡◌, refl}
use mathlib.Core.Logic.{◌⊎◌, inl, inr}
use mathlib.Core.Bool.{Bool, true, false}
use mathlib.Core.List.{List, [], ◌∷◌}
use native.Mathlib.Omega.{arith}
use pinsync.Base.Tests.{Bool-cases}
use pinsync.Base.Lists.{length, All}
use pinsync.Base.Equality.{Eq, contains}
use pinsync.Base.Sort.{insert, sort}

module _ {ℓ} {A : Type ℓ} (less : A → A → Bool) where
  length-insert : (a : A) (xs : List A) → length (insert less a xs) ≡ suc (length xs)
  unfolding insert
  length-insert a [] = refl
  length-insert a (x ∷ xs) = ground (arith, length-insert a xs)

  pub length-sort : (xs : List A) → length (sort less xs) ≡ length xs
  unfolding sort
  length-sort [] = refl
  length-sort (x ∷ xs) = omega (arith, length-insert x (sort less xs), length-sort xs)

  All-insert {κ} :
      (P : A → Type κ) (a : A) (xs : List A) → P a → All P xs → All P (insert less a xs)
  unfolding insert
  All-insert P a [] p h = (p, tt)
  All-insert P a (x ∷ xs) p h = elim (Bool-cases (less x a)) [
    | inl e ↦ rw e (h.0, All-insert P a xs p h.1)
    | inr e ↦ rw e (p, h)
  ]

  pub All-sort {κ} : (P : A → Type κ) (xs : List A) → All P xs → All P (sort less xs)
  unfolding sort
  All-sort P [] h = tt
  All-sort P (x ∷ xs) h = All-insert P x (sort less xs) h.0 (All-sort P xs h.1)

  -- No element comes after a greater one.
  abbrev pub Ascending : List A → Type ℓ
  Ascending [] = Unit
  Ascending (x ∷ xs) = All (λ y. less y x ≡ false) xs × Ascending xs

module _ {ℓ} {A : Type ℓ} ⦃e : Eq A⦄ (less : A → A → Bool) where
  contains-insert : (a b : A) (xs : List A) → contains (insert less a xs) b ≡ contains (a ∷ xs) b
  unfolding insert contains
  contains-insert a b [] = refl
  contains-insert a b (x ∷ xs) = ground (arith, contains-insert a b xs)

  pub contains-sort : (xs : List A) (b : A) → contains (sort less xs) b ≡ contains xs b
  unfolding sort contains
  contains-sort [] b = refl
  contains-sort (x ∷ xs) b = ground (arith, contains-insert x b (sort less xs), contains-sort xs b)

-- A strict total order, on the elements that differ by `apart`.
pub record IsStrictOrder {ℓ} {A : Type ℓ} (less : A → A → Bool) : Type ℓ where
  pub asymm : (a b : A) → less a b ≡ true → less b a ≡ false
  pub of_le : (a b c : A) → less a b ≡ false → less a c ≡ true → less b c ≡ true

module _ {ℓ} {A : Type ℓ} (less : A → A → Bool) (order : IsStrictOrder less) where
  pub insert-insert :
      (a b : A) (xs : List A)
      → (less a b ≡ true) ⊎ (less b a ≡ true)
      → insert less a (insert less b xs) ≡ insert less b (insert less a xs)
  unfolding insert
  insert-insert a b [] h = ground (arith, order.asymm a b, order.asymm b a)
  insert-insert a b (x ∷ xs) h = ground (
    arith,
    order.asymm a b,
    order.asymm b a,
    order.of_le x a b,
    order.of_le x b a,
    insert-insert a b xs h,
  )

  Ascending-insert : (a : A) (xs : List A) → Ascending less xs → Ascending less (insert less a xs)
  unfolding insert
  Ascending-insert a [] h = (tt, tt)
  Ascending-insert a (x ∷ xs) h = elim (Bool-cases (less x a)) [
    | inl e ↦ rw e (
      All-insert less (λ y. less y x ≡ false) a xs (order.asymm x a e) h.0,
      Ascending-insert a xs h.1,
    )
    | inr e ↦ rw e ((e, later x xs e h.0), h)
  ]
    where
      later :
          (x : A) (xs : List A)
          → less x a ≡ false
          → All (λ y. less y x ≡ false) xs
          → All (λ y. less y a ≡ false) xs
      later x [] e h = tt
      later x (y ∷ ys) e h = (ground (arith, order.of_le y x a), later x ys e h.1)

  pub Ascending-sort : (xs : List A) → Ascending less (sort less xs)
  unfolding sort
  Ascending-sort [] = tt
  Ascending-sort (x ∷ xs) = Ascending-insert x (sort less xs) (Ascending-sort xs)

  -- Sorting an ascending list changes nothing.
  insert_least : (a : A) (xs : List A) → All (λ y. less y a ≡ false) xs → insert less a xs ≡ a ∷ xs
  unfolding insert
  insert_least a [] h = refl
  insert_least a (x ∷ xs) h = rw (h.0)

  pub sort-Ascending : (xs : List A) → Ascending less xs → sort less xs ≡ xs
  unfolding sort
  sort-Ascending [] h = refl
  sort-Ascending (x ∷ xs) h = rw (sort-Ascending xs h.1) (insert_least x xs h.0)
