-- ===== src/Base/Action.antt =====
-- Calls that change a state and may fail. The state comes back beside the error too.
use mathlib.Core.Path.{◌≡◌, refl, ap, ◌∙◌, subst}
use mathlib.Core.Logic.{◌⊎◌, inl, inr}
use mathlib.Core.Bool.{Bool, true, false}
use pinsync.Base.Tests.{if◌then◌else◌}
use pinsync.Base.Outcome.{Result, ok, err, map_err}

abbrev pub Action {ℓ κ μ} : Type ℓ → Type κ → Type μ → Type (ℓ ⊔ κ ⊔ μ)
Action S E A = S → Result E A × S

module _ {ℓ κ μ} {S : Type ℓ} {E : Type κ} {A : Type μ} where
  abbrev pub pure : A → Action S E A
  pure a s = (ok a, s)

  abbrev pub fail : E → Action S E A
  fail e s = (err e, s)

  abbrev pub lift : Result E A → Action S E A
  lift r s = (r, s)

module _ {ℓ κ μ ν} {S : Type ℓ} {E : Type κ} {A : Type μ} {B : Type ν} where
  abbrev pub continue : Result E A → (A → Action S E B) → Action S E B
  continue (ok a) f s = f a s
  continue (err e) f s = (err e, s)

  infixl 5 ◌>>=◌ ◌>>◌
  abbrev pub ◌>>=◌ : Action S E A → (A → Action S E B) → Action S E B
  ◌>>=◌ m f s = continue (m s).0 f (m s).1

  abbrev pub ◌>>◌ : Action S E A → Action S E B → Action S E B
  m >> k = m >>= λ _. k

  pub bind_ok :
      (m : Action S E A) (f : A → Action S E B) (s : S) (a : A)
      → (m s).0 ≡ ok a
      → (m >>= f) s ≡ f a (m s).1
  bind_ok m f s a h = ap (λ r. continue r f (m s).1) h

  pub bind_err :
      (m : Action S E A) (f : A → Action S E B) (s : S) (e : E)
      → (m s).0 ≡ err e
      → (m >>= f) s ≡ (err e, (m s).1)
  bind_err m f s e h = ap (λ r. continue r f (m s).1) h

  -- A chain that succeeded succeeded at its first step.
  pub bind_inversion :
      (m : Action S E A) (f : A → Action S E B) (s : S) (b : B)
      → ((m >>= f) s).0 ≡ ok b
      → (a : A) × ((m s).0 ≡ ok a) × ((f a (m s).1).0 ≡ ok b)
  bind_inversion m f s b h = go (m s).0 refl h
    where
      go :
          (r : Result E A)
          → (m s).0 ≡ r
          → (continue r f (m s).1).0 ≡ ok b
          → (a : A) × ((m s).0 ≡ ok a) × ((f a (m s).1).0 ≡ ok b)
      go (ok a) e h = (a, e, h)
      go (err x) e h = cc

-- `P` holds of the error and the state after a failure, `Q` of the value and the state otherwise.
module _ {ℓ κ μ ν} {S : Type ℓ} {E : Type κ} {A : Type μ} where
  abbrev pub Meets : (E → S → Type ν) → (A → S → Type ν) → Result E A × S → Type ν
  Meets P Q (ok a, s) = Q a s
  Meets P Q (err e, s) = P e s

  pub Meets-weaken :
      (P P' : E → S → Type ν) (Q Q' : A → S → Type ν)
      → ((e : E) (s : S) → P e s → P' e s)
      → ((a : A) (s : S) → Q a s → Q' a s)
      → (x : Result E A × S) → Meets P Q x
      → Meets P' Q' x
  Meets-weaken P P' Q Q' f g (ok a, s) h = g a s h
  Meets-weaken P P' Q Q' f g (err e, s) h = f e s h

  pub Meets-if :
      (P : E → S → Type ν) (Q : A → S → Type ν) (b : Bool) (x y : Result E A × S)
      → (b ≡ true → Meets P Q x)
      → (b ≡ false → Meets P Q y)
      → Meets P Q (if b then x else y)
  Meets-if P Q true x y f g = f refl
  Meets-if P Q false x y f g = g refl

  pub Meets-choose :
      (P : E → S → Type ν) (Q : A → S → Type ν) (b : Bool) (a : A) (e : E) (s : S)
      → (b ≡ true → Q a s)
      → (b ≡ false → P e s)
      → Meets P Q (if b then ok a else err e, s)
  Meets-choose P Q true a e s f g = f refl
  Meets-choose P Q false a e s f g = g refl

  -- A run that succeeded has what is met on success.
  pub Meets-ok :
      (P : E → S → Type ν) (Q : A → S → Type ν) (x : Result E A × S) (a : A)
      → Meets P Q x
      → x.0 ≡ ok a
      → Q a x.1
  Meets-ok P Q (ok b, s) a h e = let same : b ≡ a = cc in subst (λ v. Q v s) same h
  Meets-ok P Q (err f, s) a h e = cc

module _ {ℓ κ μ ν ξ} {S : Type ℓ} {E : Type κ} {A : Type μ} {B : Type ν} where
  -- The rule for a sequence.
  pub Meets-bind :
      (P : E → S → Type ξ) (Q : A → S → Type ξ) (R : B → S → Type ξ) (m : Action S E A)
      (f : A → Action S E B) (s : S)
      → Meets P Q (m s)
      → ((a : A) (s' : S) → Q a s' → Meets P R (f a s'))
      → Meets P R ((m >>= f) s)
  Meets-bind P Q R m f s h k = go (m s) h
    where
      go : (x : Result E A × S) → Meets P Q x → Meets P R (continue x.0 f x.1)
      go (ok a, s') q = k a s' q
      go (err e, s') p = p

module _ {ℓ κ μ ν} {S : Type ℓ} {E : Type κ} {F : Type μ} {A : Type ν} where
  -- The call with its error wrapped.
  abbrev pub on_err : (E → F) → Action S E A → Action S F A
  on_err f m s = (map_err f (m s).0, (m s).1)

  pub Meets-on_err {ξ} :
      (P : F → S → Type ξ) (Q : A → S → Type ξ) (f : E → F) (x : Result E A × S)
      → Meets (λ e. P (f e)) Q x
      → Meets P Q (map_err f x.0, x.1)
  Meets-on_err P Q f (ok a, s) h = h
  Meets-on_err P Q f (err e, s) h = h

module _ {ℓ κ μ ν} {S : Type ℓ} {E : Type κ} {A : Type μ} {B : Type ν} where
  -- Where a sequence ended: after its first step, or at it.
  pub bind_cases :
      (m : Action S E A) (f : A → Action S E B) (s : S) (x : Result E B × S)
      → (m >>= f) s ≡ x
      → ((a : A) × ((m s).0 ≡ ok a) × (f a (m s).1 ≡ x))
        ⊎ ((e : E) × ((m s).0 ≡ err e) × ((err e, (m s).1) ≡ x))
  bind_cases m f s x h = go (m s) refl h
    where
      go :
          (y : Result E A × S)
          → m s ≡ y
          → continue y.0 f y.1 ≡ x
          → ((a : A) × ((m s).0 ≡ ok a) × (f a (m s).1 ≡ x))
            ⊎ ((e : E) × ((m s).0 ≡ err e) × ((err e, (m s).1) ≡ x))
      go (ok a, t) e k = inl (a, ap (λ z. z.0) e, ap (λ (z : Result E A × S). f a z.1) e ∙ k)
      go (err b, t) e k = inr (b, ap (λ z. z.0) e, ap (λ (z : Result E A × S). (err b, z.1)) e ∙ k)

  -- A sequence that succeeded went through both steps.
  pub bind_both :
      (m : Action S E A) (f : A → Action S E B) (s t : S) (b : B)
      → (m >>= f) s ≡ (ok b, t)
      → (a : A) × ((m s).0 ≡ ok a) × (f a (m s).1 ≡ (ok b, t))
  bind_both m f s t b h = elim (bind_cases m f s (ok b, t) h) [
    | inl (a, e, k) ↦ (a, e, k)
    | inr (e, _, k) ↦ absurd cc
  ]

pub map_err-eq-ok {ℓ κ μ} :
    {E : Type ℓ} {F : Type κ} {A : Type μ} (f : E → F) (r : Result E A) (a : A)
    → map_err f r ≡ ok a
    → r ≡ ok a
map_err-eq-ok f (ok b) a h = cc
map_err-eq-ok f (err e) a h = cc
