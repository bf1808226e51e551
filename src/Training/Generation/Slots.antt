-- ===== src/Training/Generation/Slots.antt =====
-- ml/training/train.py: the slots that generate_translations fills.
use es_kaq_translator_v.Base.{
  ℕ, zero, suc, ◌<◌, ◌≡◌, refl, ap, ◌∙◌, true, false, Option, none, some, List, [], ◌∷◌, ◌++◌, map,
  length, get_elem?, elem, nat_eq, ◌==◌, arith, Bool-cases, inl, inr,
}
use es_kaq_translator_v.Text.{Text}
use es_kaq_translator_v.Training.Generation.{ok, set_slot, all_filled, empty_slots}

module _ (text_at : ℕ → Text) where
  abbrev pub IsFilled : ℕ → List (Option Text) → Type 0
  IsFilled j slots = get_elem? slots j ≡ some (some (text_at j))

  abbrev pub set_all : List ℕ → List (Option Text) → List (Option Text)
  set_all [] slots = slots
  set_all (i ∷ is) slots = set_all is (set_slot i (text_at i) slots)

  pub set_all-append :
      (is js : List ℕ) (slots : List (Option Text))
      → set_all (is ++ js) slots ≡ set_all js (set_all is slots)
  set_all-append [] js slots = refl
  set_all-append (i ∷ is) js slots = set_all-append is js (set_slot i (text_at i) slots)

length-set_slot :
    (i : ℕ) (t : Text) (slots : List (Option Text)) → length (set_slot i t slots) ≡ length slots
unfolding set_slot
length-set_slot i t [] = refl
length-set_slot zero t (s ∷ slots) = refl
length-set_slot (suc i) t (s ∷ slots) = ap suc (length-set_slot i t slots)

get-set_same :
    (i : ℕ) (t : Text) (slots : List (Option Text))
    → i < length slots
    → get_elem? (set_slot i t slots) i ≡ some (some t)
unfolding set_slot
get-set_same i t [] h = absurd (omega arith)
get-set_same zero t (s ∷ slots) h = refl
get-set_same (suc i) t (s ∷ slots) h = get-set_same i t slots (omega arith)

get-set_other :
    (i j : ℕ) (t : Text) (slots : List (Option Text))
    → (i == j) ≡ false
    → get_elem? (set_slot i t slots) j ≡ get_elem? slots j
unfolding set_slot
get-set_other i j t [] h = refl
get-set_other zero zero t (s ∷ slots) h = absurd (ground arith)
get-set_other zero (suc j) t (s ∷ slots) h = refl
get-set_other (suc i) zero t (s ∷ slots) h = refl
get-set_other (suc i) (suc j) t (s ∷ slots) h = get-set_other i j t slots (ground arith)

pub get-inside :
    {A : Type 0} (xs : List A) (j : ℕ) (x : A) → get_elem? xs j ≡ some x → j < length xs
get-inside [] j x e = absurd cc
get-inside (y ∷ ys) zero x e = omega arith
get-inside (y ∷ ys) (suc j) x e = omega (arith, get-inside ys j x e)

module _ (text_at : ℕ → Text) where
  keep_slot :
      (i j : ℕ) (slots : List (Option Text))
      → IsFilled text_at j slots
      → IsFilled text_at j (set_slot i (text_at i) slots)
  keep_slot i j slots h = elim (Bool-cases (i == j)) [
    | inl same ↦
        let i_j : i ≡ j = ground arith in
        let inside = get-inside slots j _ h in rw i_j (get-set_same j (text_at j) slots inside)
    | inr other ↦ get-set_other i j (text_at i) slots other ∙ h
  ]

  pub keep_all :
      (is : List ℕ) (j : ℕ) (slots : List (Option Text))
      → IsFilled text_at j slots
      → IsFilled text_at j (set_all text_at is slots)
  keep_all [] j slots h = h
  keep_all (i ∷ is) j slots h = keep_all is j (set_slot i (text_at i) slots) (keep_slot i j slots h)

  pub length-set_all :
      (is : List ℕ) (slots : List (Option Text)) → length (set_all text_at is slots) ≡ length slots
  length-set_all [] slots = refl
  length-set_all (i ∷ is) slots =
      length-set_all is (set_slot i (text_at i) slots) ∙ length-set_slot i (text_at i) slots

  pub all-IsFilled :
      (is : List ℕ) (j : ℕ) (slots : List (Option Text))
      → elem j is ≡ true
      → j < length slots
      → IsFilled text_at j (set_all text_at is slots)
  all-IsFilled [] j slots e h = absurd cc
  all-IsFilled (i ∷ is) j slots e h = elim (Bool-cases (i == j)) [
    | inl same ↦
        let i_j : i ≡ j = ground arith in
        keep_all is j (set_slot i (text_at i) slots) (rw i_j (get-set_same j (text_at j) slots h))
    | inr other ↦
        all-IsFilled is j (set_slot i (text_at i) slots) (rw other at e)
          (let l = length-set_slot i (text_at i) slots in omega arith)
  ]

-- Slots that all hold what is wanted for the element at their place.
pub all_filled-wanted :
    {A : Type 0} (want : A → Text) (xs : List A) (slots : List (Option Text))
    → length slots ≡ length xs
    → ((j : ℕ) (x : A) → get_elem? xs j ≡ some x → get_elem? slots j ≡ some (some (want x)))
    → all_filled slots ≡ ok (map want xs)
unfolding all_filled
all_filled-wanted want [] [] l h = refl
all_filled-wanted want [] (s ∷ slots) l h = absurd (omega arith)
all_filled-wanted want (x ∷ xs) [] l h = absurd (omega arith)
all_filled-wanted want (x ∷ xs) (none ∷ slots) l h = absurd (let e = h 0 x refl in cc)
all_filled-wanted want (x ∷ xs) (some t ∷ slots) l h =
    let here : t ≡ want x = (let e = h 0 x refl in cc) in
    let rest = all_filled-wanted want xs slots (omega arith) (λ j y e. h (suc j) y e) in
    rw (rest, here) refl

pub length-empty_slots : {A : Type 0} (xs : List A) → length (empty_slots xs) ≡ length xs
unfolding empty_slots
length-empty_slots [] = refl
length-empty_slots (x ∷ xs) = ap suc (length-empty_slots xs)
