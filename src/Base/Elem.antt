-- ===== src/Base/Elem.antt =====
-- `x in xs` of Python, as a Boolean, and its laws.
use es_kaq_translator_v.Base.Tests.{Bool-cases, if◌then◌else◌}
use es_kaq_translator_v.Base.Lists.{filter_b, All}
use es_kaq_translator_v.Base.Equality.{Eq, ◌=?◌, beq_refl}
use mathlib.Core.Path.{◌≡◌, refl}
use mathlib.Core.Logic.{inl, inr}
use mathlib.Core.Bool.{Bool, true, false, ◌&&◌, ◌||◌}
use mathlib.Core.List.{List, [], ◌∷◌, ◌++◌}
use native.Mathlib.Omega.{arith}

module _ {ℓ} {A : Type ℓ} ⦃e : Eq A⦄ where
  abbrev pub elem : A → List A → Bool
  elem a [] = false
  elem a (x ∷ xs) = if x =? a then true else elem a xs

  -- No element occurs twice.
  abbrev pub IsDistinct : List A → Type 0
  IsDistinct [] = Unit
  IsDistinct (x ∷ xs) = (elem x xs ≡ false) × IsDistinct xs

  pub elem-append : (a : A) (xs ys : List A) → elem a (xs ++ ys) ≡ (elem a xs || elem a ys)
  elem-append a [] ys = refl
  elem-append a (x ∷ xs) ys = ground (arith, elem-append a xs ys)

  pub elem-filter :
      (p : A → Bool) (a : A) (xs : List A) → elem a (filter_b p xs) ≡ (p a && elem a xs)
  elem-filter p a [] = ground arith
  elem-filter p a (x ∷ xs) = ground (arith, elem-filter p a xs, e.beq_iff x a)

  pub IsDistinct-filter : (p : A → Bool) (xs : List A) → IsDistinct xs → IsDistinct (filter_b p xs)
  IsDistinct-filter p [] h = h
  IsDistinct-filter p (x ∷ xs) h = ground (arith, IsDistinct-filter p xs h.1, elem-filter p x xs)

  pub All-of_elem {κ} :
      (P : A → Type κ) (xs : List A) → ((a : A) → elem a xs ≡ true → P a) → All P xs
  All-of_elem P [] h = tt
  All-of_elem P (x ∷ xs) h =
      (h x (ground (arith, beq_refl x)), All-of_elem P xs (λ a m. h a (ground arith)))

  pub elem_of_All {κ} : (P : A → Type κ) (xs : List A) (a : A) → All P xs → elem a xs ≡ true → P a
  elem_of_All P [] a h m = cc
  elem_of_All P (x ∷ xs) a h m = elim (Bool-cases (x =? a)) [
    | inl t ↦ ground (arith, (e.beq_iff x a).0 t)
    | inr f ↦ elem_of_All P xs a h.1 (ground arith)
  ]
