-- ===== src/Training/Extension/Texts.antt =====
-- ml/training/tokenizer_extension.py: the new tokens depend on the set of the texts alone.
use es_kaq_translator_v.Base.{
  ℕ, ◌≡◌, refl, ap, ap₂, subst, sym, ◌∙◌, Bool, true, false, List, [], ◌∷◌, ◌++◌, map, elem, any_b,
  Bool-cases, inl, inr, arith, not, ◌&&◌, ◌||◌, elem-append, ◌=?◌, nat_eq, elem_of_All, beq_refl,
  list_beq,
}
use es_kaq_translator_v.Base.Dict.{Dict, has_key}
use es_kaq_translator_v.Text.{Text, text_eq}
use es_kaq_translator_v.Text.Space.{is_space}
use es_kaq_translator_v.Training.Gap.{
  find_missing_characters, find_missing_words, find_missing_lem, words,
}
use es_kaq_translator_v.Training.Vocab.{before}
use es_kaq_translator_v.Training.Vocab.Order.{
  IsSorted, select_new_tokens_lem, before_irrefl, before_trans, not_after,
}
use es_kaq_translator_v.Training.Tokenizer.{compute_new_tokens_for_texts, single_characters}

-- The same elements, whatever their order and number.
abbrev pub SameSet : List Text → List Text → Type 0
SameSet xs ys = (a : Text) → elem a xs ≡ elem a ys

same-head :
    (x y : Text) (xs ys : List Text)
    → IsSorted (x ∷ xs)
    → IsSorted (y ∷ ys)
    → SameSet (x ∷ xs) (y ∷ ys)
    → x ≡ y
same-head x y xs ys h k same = elim (Bool-cases (x =? y)) [
  | inl e ↦ (text_eq.beq_iff x y).0 e
  | inr apart ↦
      let apart' : (y =? x) ≡ false = ground (arith, text_eq.beq_iff x y, text_eq.beq_iff y x) in
      let x_in : elem x ys ≡ true = (rw apart' at (sym (same x))) ∙ (rw (beq_refl x) refl) in
      let y_in : elem y xs ≡ true = (rw apart at (same y)) ∙ (rw (beq_refl y) refl) in
      let up = elem_of_All (λ u. before y u ≡ true) ys x k.0 x_in in
      let down = elem_of_All (λ u. before x u ≡ true) xs y h.0 y_in in
      absurd (let loop = before_trans x y x down up in let no = before_irrefl x in cc)
]

same-tail :
    (x : Text) (xs ys : List Text)
    → IsSorted (x ∷ xs)
    → IsSorted (x ∷ ys)
    → SameSet (x ∷ xs) (x ∷ ys)
    → SameSet xs ys
same-tail x xs ys h k same a = elim (Bool-cases (x =? a)) [
  | inl e ↦
      let x_a = (text_eq.beq_iff x a).0 e in
      rw (← x_a) (not_after x xs h.0 ∙ sym (not_after x ys k.0))
  | inr apart ↦ rw apart at (same a)
]

sorted_unique : (xs ys : List Text) → IsSorted xs → IsSorted ys → SameSet xs ys → xs ≡ ys
sorted_unique [] [] h k same = refl
sorted_unique [] (y ∷ ys) h k same =
    absurd (let e : false ≡ true = same y ∙ (rw (beq_refl y) refl) in cc)
sorted_unique (x ∷ xs) [] h k same =
    absurd (let e : true ≡ false = sym (rw (beq_refl x) refl) ∙ same x in cc)
sorted_unique (x ∷ xs) (y ∷ ys) h k same =
    let x_y = same-head x y xs ys h k same in
    let k' : IsSorted (x ∷ ys) = rw x_y k in
    let same' : SameSet (x ∷ xs) (x ∷ ys) = subst (λ z. SameSet (x ∷ xs) (z ∷ ys)) (sym x_y) same in
    ap (◌∷◌ x) (sorted_unique xs ys h.1 k.1 (same-tail x xs ys h k' same')) ∙ ap (λ z. z ∷ ys) x_y

any_b_intro :
    (p : Text → Bool) (xs : List Text) (a : Text)
    → elem a xs ≡ true
    → p a ≡ true
    → any_b p xs ≡ true
any_b_intro p [] a e h = absurd cc
any_b_intro p (x ∷ xs) a e h = ground (arith, any_b_intro p xs a, text_eq.beq_iff x a)

any_b_elim :
    (p : Text → Bool) (xs : List Text)
    → any_b p xs ≡ true
    → (a : Text) × (elem a xs ≡ true) × (p a ≡ true)
any_b_elim p [] h = absurd cc
any_b_elim p (x ∷ xs) h = elim (Bool-cases (p x)) [
  | inl here ↦ (x, rw (beq_refl x) refl, here)
  | inr later ↦ let (a, e, q) = any_b_elim p xs (rw later at h) in (a, ground arith, q)
]

any_b-same : (p : Text → Bool) (xs ys : List Text) → SameSet xs ys → any_b p xs ≡ any_b p ys
any_b-same p xs ys same = elim (Bool-cases (any_b p xs)) [
  | inl t ↦ let (a, e, q) = any_b_elim p xs t in t ∙ sym (any_b_intro p ys a (sym (same a) ∙ e) q)
  | inr f ↦ elim (Bool-cases (any_b p ys)) [
    | inr g ↦ f ∙ sym g
    | inl t ↦
        let (a, e, q) = any_b_elim p ys t in
        absurd (let u = any_b_intro p xs a (same a ∙ e) q in cc)
  ]
]

none-empty : (xs : List ℕ) → elem [] (map (λ c. c ∷ []) xs) ≡ false
unfolding list_beq
none-empty [] = refl
none-empty (x ∷ xs) = none-empty xs

one-point : (c : ℕ) (xs : List ℕ) → elem (c ∷ []) (map (λ d. d ∷ []) xs) ≡ elem c xs
unfolding list_beq
one-point c [] = refl
one-point c (x ∷ xs) = ground (arith, one-point c xs)

none-longer : (c d : ℕ) (s : Text) (xs : List ℕ) → elem (c ∷ d ∷ s) (map (λ e. e ∷ []) xs) ≡ false
unfolding list_beq
none-longer c d s [] = refl
none-longer c d s (x ∷ xs) = ground (arith, none-longer c d s xs)

elem-singletons :
    (t : Text) (xs ys : List ℕ)
    → ((c : ℕ) → elem c xs ≡ elem c ys)
    → elem t (map (λ c. c ∷ []) xs) ≡ elem t (map (λ c. c ∷ []) ys)
elem-singletons [] xs ys same = none-empty xs ∙ sym (none-empty ys)
elem-singletons (c ∷ []) xs ys same = one-point c xs ∙ same c ∙ sym (one-point c ys)
elem-singletons (c ∷ d ∷ s) xs ys same = none-longer c d s xs ∙ sym (none-longer c d s ys)

-- Texts with the same set of elements give the same new tokens.
pub compute_new_tokens-same :
    (texts others : List Text) (base_vocab : Dict Text ℕ)
    → SameSet texts others
    → compute_new_tokens_for_texts texts base_vocab ≡ compute_new_tokens_for_texts others base_vocab
unfolding compute_new_tokens_for_texts
compute_new_tokens-same texts others base_vocab same =
    let tokens = map (λ p. p.0) base_vocab in
    let singles = single_characters tokens in
    let a = find_missing_lem texts singles tokens in
    let b = find_missing_lem others singles tokens in
    let candidates : List Text → List Text = λ ts.
      map (λ c. c ∷ []) (find_missing_characters ts singles) ++ find_missing_words ts tokens in
    let chars : (c : ℕ)
        → elem c (find_missing_characters texts singles)
          ≡ elem c (find_missing_characters others singles) =
      λ c.
        a.0 c
        ∙ ap (λ m. (not (elem c singles) && not (is_space c)) && m)
            (any_b-same (elem c) texts others same)
        ∙ sym (b.0 c) in
    let found : (w : Text)
        → elem w (find_missing_words texts tokens) ≡ elem w (find_missing_words others tokens) =
      λ w.
        a.1 w
        ∙ ap (λ m. not (elem w tokens) && m) (any_b-same (λ t. elem w (words t)) texts others same)
        ∙ sym (b.1 w) in
    let both : SameSet (candidates texts) (candidates others) = λ t.
      elem-append t (map (λ c. c ∷ []) (find_missing_characters texts singles))
        (find_missing_words texts tokens)
      ∙ ap₂ (λ l r. l || r) (elem-singletons t _ _ chars) (found t)
      ∙ sym (
          elem-append t (map (λ c. c ∷ []) (find_missing_characters others singles))
            (find_missing_words others tokens)) in
    let (in_a, sorted_a, distinct_a) = select_new_tokens_lem (candidates texts) base_vocab in
    let (in_b, sorted_b, distinct_b) = select_new_tokens_lem (candidates others) base_vocab in
    sorted_unique _ _ sorted_a sorted_b
      (λ t. in_a t ∙ ap (λ m. not (has_key t base_vocab) && m) (both t) ∙ sym (in_b t))
