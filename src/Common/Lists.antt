-- ===== src/Common/Lists.antt =====
-- Lists measured by native numbers, and predicates on their elements.
use Prim.Native.Nat.{ℕ, zero, suc, ◌+◌}
use mathlib.Core.Path.{◌≡◌, refl}
use mathlib.Core.Logic.{◌↔◌, ◌⊎◌, inl, inr}
use mathlib.Core.Bool.{Bool, true, false, ◌||◌}
use mathlib.Core.List.{List, [], ◌∷◌, ◌++◌}
use native.Mathlib.Omega.{arith}
use dumbarp.Common.Tests.{Eq, ◌==◌}

module _ {ℓ} {A : Type ℓ} where
  abbrev pub length : List A → ℕ
  length [] = 0
  length (x ∷ xs) = suc (length xs)

  abbrev pub is_empty : List A → Bool
  is_empty [] = true
  is_empty (x ∷ xs) = false

  abbrev pub get_or : List A → ℕ → A → A
  get_or [] i d = d
  get_or (x ∷ xs) zero d = x
  get_or (x ∷ xs) (suc i) d = get_or xs i d

  pub length-append : (xs ys : List A) → length (xs ++ ys) ≡ length xs + length ys
  length-append [] ys = omega arith
  length-append (x ∷ xs) ys = omega (arith, length-append xs ys)

  -- Every element has the property.
  abbrev pub All {κ} : (A → Type κ) → List A → Type κ
  All P [] = Unit
  All P (x ∷ xs) = P x × All P xs

  pub All-append {κ} : (P : A → Type κ) (xs ys : List A) → All P xs → All P ys → All P (xs ++ ys)
  All-append P [] ys hx hy = hy
  All-append P (x ∷ xs) ys hx hy = (hx.0, All-append P xs ys hx.1 hy)

  pub All-always {κ} : (P : A → Type κ) → ((a : A) → P a) → (l : List A) → All P l
  All-always P h [] = tt
  All-always P h (a ∷ l) = (h a, All-always P h l)

module _ {ℓ} {A : Type ℓ} ⦃e : Eq A⦄ where
  abbrev pub contains : List A → A → Bool
  contains [] a = false
  contains (x ∷ xs) a = (x == a) || contains xs a

  -- No element stands twice.
  abbrev pub NoRepeat : List A → Type 0
  NoRepeat [] = Unit
  NoRepeat (x ∷ xs) = (contains xs x ≡ false) × NoRepeat xs

  pub contains-append :
      (xs ys : List A) (a : A) → contains (xs ++ ys) a ≡ (contains xs a || contains ys a)
  contains-append [] ys a = refl
  contains-append (x ∷ xs) ys a = ground (arith, contains-append xs ys a)

module _ {ℓ κ} {A : Type ℓ} {K : Type κ} ⦃e : Eq K⦄ (f : A → K) where
  abbrev pub images : List A → List K
  images [] = []
  images (a ∷ l) = f a ∷ images l

  -- Images are new after `x` has been seen if they were new before and are not `x`.
  pub contains-images :
      (x : K) (seen : List K) (l : List A)
      → All (λ (a : A). contains (x ∷ seen) (f a) ≡ false) l
        ↔ ((contains (images l) x ≡ false) × All (λ (a : A). contains seen (f a) ≡ false) l)
  contains-images x seen [] = ground arith
  contains-images x seen (a ∷ l) =
      ground (arith, e.equal_iff x (f a), e.equal_iff (f a) x, contains-images x seen l)

abbrev pub Among : {A : Type 0} → A → List A → Type 0
Among a [] = ⊥
Among a (x ∷ l) = (a ≡ x) ⊎ Among a l

pub Among-append :
    {A : Type 0} (a : A) (xs ys : List A) → Among a (xs ++ ys) ↔ (Among a xs ⊎ Among a ys)
Among-append a [] ys = ground arith
Among-append a (x ∷ xs) ys = ground (arith, Among-append a xs ys)

pub All-Among : {A : Type 0} (P : A → Type 0) (l : List A) → ((a : A) → Among a l → P a) → All P l
All-Among P [] h = tt
All-Among P (x ∷ l) h = (h x (inl refl), All-Among P l (λ a m. h a (inr m)))

pub contains-Among :
    {A : Type 0} ⦃e : Eq A⦄ (l : List A) (a : A) → (contains l a ≡ true) ↔ Among a l
contains-Among [] a = ground arith
contains-Among ⦃e⦄ (x ∷ l) a = ground (arith, e.equal_iff x a, e.equal_iff a x, contains-Among l a)

pub Among-All : {A : Type 0} (P : A → Type 0) (l : List A) (a : A) → All P l → Among a l → P a
Among-All P [] a all h = absurd h
Among-All P (x ∷ l) a all h = elim h [
  | inl here ↦ rw here all.0
  | inr later ↦ Among-All P l a all.1 later
]
