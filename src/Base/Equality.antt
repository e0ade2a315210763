-- ===== src/Base/Equality.antt =====
-- Equality tests as an interface: one `==` for numbers, texts and the records built from them.
use mathlib.Core.Path.{◌≡◌, refl}
use mathlib.Core.Logic.{◌↔◌, ◌⊎◌}
use mathlib.Core.Bool.{Bool, true, false, ◌&&◌, ◌||◌}
use mathlib.Core.List.{List, [], ◌∷◌, ◌++◌}
use Prim.Native.Nat.{ℕ}
use native.Mathlib.Omega.{arith}
use pinsync.Base.Tests.{nat_beq, nat_beq_iff}

-- A test, and that it decides equality.
pub record Eq {ℓ} (Item : Type ℓ) : Type ℓ where
  pub same : (x y : Item) → Bool
  pub same_iff : (x y : Item) → (same x y ≡ true) ↔ (x ≡ y)

module _ {ℓ} {A : Type ℓ} ⦃e : Eq A⦄ where
  infix 50 ◌==◌
  abbrev pub ◌==◌ : A → A → Bool
  x == y = e.same x y

instance abbrev pub nat_eq : Eq ℕ
nat_eq = record { same_iff = nat_beq_iff; same = nat_beq }

module _ {ℓ} {A : Type ℓ} ⦃e : Eq A⦄ where
  pub eq_iff : (a b : A) → ((a == b) ≡ true) ↔ (a ≡ b)
  eq_iff a b = e.same_iff a b

  pub eq_refl : (a : A) → (a == a) ≡ true
  eq_refl a = (e.same_iff a a).1 refl

  unfoldable pub list_beq : List A → List A → Bool
  list_beq [] [] = true
  list_beq [] (y ∷ ys) = false
  list_beq (x ∷ xs) [] = false
  list_beq (x ∷ xs) (y ∷ ys) = (x == y) && list_beq xs ys

  pub list_beq_iff : (xs ys : List A) → (list_beq xs ys ≡ true) ↔ (xs ≡ ys)
  unfolding list_beq
  list_beq_iff [] [] = ground arith
  list_beq_iff [] (y ∷ ys) = ground arith
  list_beq_iff (x ∷ xs) [] = ground arith
  list_beq_iff (x ∷ xs) (y ∷ ys) = ground (arith, list_beq_iff xs ys, e.same_iff x y)

  instance abbrev pub list_eq : Eq (List A)
  list_eq = record { same_iff = list_beq_iff; same = list_beq }

  -- Whether a list holds a value.
  unfoldable pub contains : List A → A → Bool
  contains [] a = false
  contains (x ∷ xs) a = elim (x == a) [ true ↦ true | false ↦ contains xs a ]

  pub not-contains-cons :
      (x a : A) (xs : List A)
      → (contains (x ∷ xs) a ≡ false) ↔ (((x == a) ≡ false) × (contains xs a ≡ false))
  unfolding contains
  not-contains-cons x a xs = ground arith

  pub contains-cons :
      (x a : A) (xs : List A)
      → (contains (x ∷ xs) a ≡ true) ↔ (((x == a) ≡ true) ⊎ (contains xs a ≡ true))
  unfolding contains
  contains-cons x a xs = ground arith

  pub contains-append :
      (xs ys : List A) (a : A) → contains (xs ++ ys) a ≡ (contains xs a || contains ys a)
  unfolding contains
  contains-append [] ys a = refl
  contains-append (x ∷ xs) ys a = ground (arith, contains-append xs ys a)
