-- ===== src/Training/Generation/Groups.antt =====
-- ml/training/train.py: the indices of the examples, grouped by target language.
use es_kaq_translator_v.Base.{
  ℕ, zero, suc, ◌+◌, ◌<◌, ◌≡◌, refl, Bool, true, some, List, [], ◌∷◌, length, get_elem?, elem,
  nat_eq, ◌=?◌, arith, Bool-cases, inl, inr, All, All-append, any_b, elem-append, beq_refl,
}
use es_kaq_translator_v.Base.Dict.{Dict}
use es_kaq_translator_v.Text.{Text, text_eq}
use es_kaq_translator_v.Training.Direction.{TranslationExample}
use es_kaq_translator_v.Training.Generation.{append_index, grouped}

abbrev pub in_groups : ℕ → Dict Text (List ℕ) → Bool
in_groups j = any_b (λ g. elem j g.1)

append_index-in :
    (language : Text) (i : ℕ) (groups : Dict Text (List ℕ))
    → in_groups i (append_index language i groups) ≡ true
unfolding append_index
append_index-in language i [] = rw (beq_refl i) refl
append_index-in language i ((k, is) ∷ groups) = elim (Bool-cases (k =? language)) [
  | inl same ↦ rw (same, elem-append i is (i ∷ []), beq_refl i) (ground arith)
  | inr other ↦ rw (other, append_index-in language i groups) (ground arith)
]

append_index-kept :
    (language : Text) (i j : ℕ) (groups : Dict Text (List ℕ))
    → in_groups j groups ≡ true
    → in_groups j (append_index language i groups) ≡ true
unfolding append_index
append_index-kept language i j [] h = absurd cc
append_index-kept language i j ((k, is) ∷ groups) h = elim (Bool-cases (k =? language)) [
  | inl same ↦ rw (same, elem-append j is (i ∷ [])) (ground arith)
  | inr other ↦ rw other (ground (arith, append_index-kept language i j groups))
]

grouped-kept :
    (j : ℕ) (groups : Dict Text (List ℕ)) (i : ℕ) (xs : List TranslationExample)
    → in_groups j groups ≡ true
    → in_groups j (grouped groups i xs) ≡ true
unfolding grouped
grouped-kept j groups i [] h = h
grouped-kept j groups i (x ∷ xs) h =
    grouped-kept j (append_index x.target_lang i groups) (i + 1) xs
      (append_index-kept x.target_lang i j groups h)

-- Every index from the first on is in a group.
pub grouped-in :
    (k j : ℕ) (groups : Dict Text (List ℕ)) (i : ℕ) (xs : List TranslationExample)
    → j < length xs
    → k ≡ i + j
    → in_groups k (grouped groups i xs) ≡ true
unfolding grouped
grouped-in k j groups i [] h e = absurd (omega arith)
grouped-in k zero groups i (x ∷ xs) h e =
    let k_i : k ≡ i = omega arith in
    rw k_i (
      grouped-kept i (append_index x.target_lang i groups) (i + 1) xs
        (append_index-in x.target_lang i groups))
grouped-in k (suc j) groups i (x ∷ xs) h e =
    grouped-in k j (append_index x.target_lang i groups) (i + 1) xs (omega arith) (omega arith)

-- A property of a language and an index, for all in the groups.
abbrev pub AllGroups : (Text → Type 0) → (Text → ℕ → Type 0) → Dict Text (List ℕ) → Type 0
AllGroups L P groups = All (λ g. L g.0 × All (P g.0) g.1) groups

append_index-AllGroups :
    (L : Text → Type 0) (P : Text → ℕ → Type 0) (language : Text) (i : ℕ)
    (groups : Dict Text (List ℕ))
    → L language
    → P language i
    → AllGroups L P groups
    → AllGroups L P (append_index language i groups)
unfolding append_index
append_index-AllGroups L P language i [] l p h = ((l, (p, tt)), tt)
append_index-AllGroups L P language i ((k, is) ∷ groups) l p h = elim (Bool-cases (k =? language)) [
  | inl same ↦
      let e = (text_eq.beq_iff k language).0 same in
      let p' : P k i = rw e p in rw same ((h.0.0, All-append (P k) is (i ∷ []) h.0.1 (p', tt)), h.1)
  | inr other ↦ rw other (h.0, append_index-AllGroups L P language i groups l p h.1)
]

pub grouped-AllGroups :
    (L : Text → Type 0) (P : Text → ℕ → Type 0) (examples : List TranslationExample)
    (groups : Dict Text (List ℕ)) (i : ℕ) (xs : List TranslationExample)
    → ((j : ℕ) (x : TranslationExample)
        → get_elem? examples j ≡ some x
        → L x.target_lang × P x.target_lang j)
    → ((j k : ℕ) → k ≡ i + j → get_elem? examples k ≡ get_elem? xs j)
    → AllGroups L P groups
    → AllGroups L P (grouped groups i xs)
unfolding grouped
grouped-AllGroups L P examples groups i [] good shift h = h
grouped-AllGroups L P examples groups i (x ∷ xs) good shift h =
    let (l, p) = good i x (shift 0 i (omega arith)) in
    grouped-AllGroups L P examples (append_index x.target_lang i groups) (i + 1) xs good
      (λ j k e. shift (suc j) k (omega arith))
      (append_index-AllGroups L P x.target_lang i groups l p h)
