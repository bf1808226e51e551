-- ===== src/Training/Gap.antt =====
-- ml/training/vocab_gap.py: the characters and the words that a vocabulary does not hold.
use es_kaq_translator_v.Base.{
  ℕ, ◌≡◌, refl, ap, ◌∙◌, Bool, false, List, [], ◌∷◌, ◌++◌, not, ◌&&◌, if◌then◌else◌, elem, filter_b,
  elem-filter, any_b, All, arith, elem-append, Bool-cases, inl, inr, Eq, list_eq, nat_eq,
  IsDistinct, IsDistinct-filter,
}
use es_kaq_translator_v.Text.{Text, text_eq}
use es_kaq_translator_v.Text.Space.{is_space}
use es_kaq_translator_v.Data.Dedup.{deduplicate_pairs, deduplicate_pairs_lem}

-- A word is put before the others, unless it is empty.
unfoldable pub flush : Text → List Text → List Text
flush [] ws = ws
flush (c ∷ w) ws = (c ∷ w) ∷ ws

-- The word that a text starts with, if any, and the other words.
unfoldable pub first_word : Text → Text × List Text
first_word [] = ([], [])
first_word (c ∷ s) =
    let rest = first_word s in
    if is_space c then ([], flush rest.0 rest.1) else (c ∷ rest.0, rest.1)

-- `s.split()`
unfoldable pub words : Text → List Text
words s = flush (first_word s).0 (first_word s).1

-- All elements of the lists, in order.
unfoldable pub all_of : {A B : Type 0} → (A → List B) → List A → List B
all_of f [] = []
all_of f (x ∷ xs) = f x ++ all_of f xs

unfoldable pub extract_characters : List Text → List ℕ
extract_characters texts = deduplicate_pairs (all_of (λ t. t) texts)

unfoldable pub find_missing_characters : List Text → List ℕ → List ℕ
find_missing_characters texts vocab_characters =
    filter_b (λ c. not (elem c vocab_characters) && not (is_space c)) (extract_characters texts)

unfoldable pub find_missing_words : List Text → List Text → List Text
find_missing_words texts vocab_tokens =
    filter_b (λ w. not (elem w vocab_tokens)) (deduplicate_pairs (all_of words texts))

-- A code point that is part of a word.
IsInk : ℕ → Type 0
IsInk c = is_space c ≡ false

flush-IsInk :
    (w : Text) (ws : List Text) → All IsInk w → All (All IsInk) ws → All (All IsInk) (flush w ws)
unfolding flush
flush-IsInk [] ws h k = k
flush-IsInk (c ∷ w) ws h k = (h, k)

first_word-IsInk : (s : Text) → All IsInk (first_word s).0 × All (All IsInk) (first_word s).1
unfolding first_word IsInk
first_word-IsInk [] = (tt, tt)
first_word-IsInk (c ∷ s) = elim (Bool-cases (is_space c)) [
  | inl space ↦ rw space (tt, flush-IsInk _ _ (first_word-IsInk s).0 (first_word-IsInk s).1)
  | inr ink ↦ rw ink ((ink, (first_word-IsInk s).0), (first_word-IsInk s).1)
]

elem-all_of :
    {A B : Type 0} ⦃e : Eq B⦄ (f : A → List B) (xs : List A) (b : B)
    → elem b (all_of f xs) ≡ any_b (λ x. elem b (f x)) xs
unfolding all_of
elem-all_of f [] b = refl
elem-all_of f (x ∷ xs) b =
    elem-append b (f x) (all_of f xs) ∙ rw (elem-all_of f xs b) (ground arith)

-- The words of a text are not empty, and hold no white space.
words-IsInk : (s : Text) → All (All IsInk) (words s)
unfolding words
words-IsInk s = flush-IsInk _ _ (first_word-IsInk s).0 (first_word-IsInk s).1

-- The missing characters are exactly those that occur in some text, are not known and are no white
-- space; the missing words are exactly those that some text splits into and are not known. Neither
-- list has a repetition.
pub find_missing_lem :
    (texts : List Text) (characters : List ℕ) (tokens : List Text)
    → ((c : ℕ)
        → elem c (find_missing_characters texts characters)
          ≡ ((not (elem c characters) && not (is_space c)) && any_b (elem c) texts))
      × ((w : Text)
          → elem w (find_missing_words texts tokens)
            ≡ (not (elem w tokens) && any_b (λ t. elem w (words t)) texts))
      × IsDistinct (find_missing_characters texts characters)
      × IsDistinct (find_missing_words texts tokens)
unfolding find_missing_characters find_missing_words extract_characters
find_missing_lem texts characters tokens =
    let (chars, distinct_chars, c_tail, c_more) =
      deduplicate_pairs_lem (all_of (λ t. t) texts) [] in
    let (found, distinct_found, w_tail, w_more) = deduplicate_pairs_lem (all_of words texts) [] in
    let new_c : ℕ → Bool = λ c. not (elem c characters) && not (is_space c) in
    let new_w : Text → Bool = λ w. not (elem w tokens) in
    (
      λ c. elem-filter new_c c _ ∙ ap (◌&&◌ (new_c c)) (chars c ∙ elem-all_of (λ t. t) texts c),
      λ w. elem-filter new_w w _ ∙ ap (◌&&◌ (new_w w)) (found w ∙ elem-all_of words texts w),
      IsDistinct-filter new_c _ distinct_chars,
      IsDistinct-filter new_w _ distinct_found,
    )
