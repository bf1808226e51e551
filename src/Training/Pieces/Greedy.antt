-- ===== src/Training/Pieces/Greedy.antt =====
-- ml/training/vocab_extension.py: maximum matching, as a specification of the greedy cutting.
use es_kaq_translator_v.Base.{
  ℕ, zero, suc, ◌+◌, ◌≤◌, ◌≡◌, refl, sym, ap, ◌∙◌, true, false, Option, none, some, List, [], ◌∷◌,
  ◌++◌, length, take, drop, arith, Bool-cases, Option-cases, inl, inr, ◌⊎◌, subst, leb,
}
use es_kaq_translator_v.Base.Dict.{Dict, has_key}
use es_kaq_translator_v.Text.{Text, text_eq}
use es_kaq_translator_v.Training.Pieces.{
  longest_prefix, with_piece, pieces_from, decompose_token_into_known_pieces,
}

unfoldable pub concat : List Text → Text
concat [] = []
concat (t ∷ ts) = t ++ concat ts

take-drop : {A : Type 0} (n : ℕ) (s : List A) → take n s ++ drop n s ≡ s
take-drop zero s = refl
take-drop (suc n) [] = refl
take-drop (suc n) (c ∷ s) = ap (◌∷◌ c) (take-drop n s)

length-take_le : {A : Type 0} (n : ℕ) (s : List A) → n ≤ length s → length (take n s) ≡ n
length-take_le zero s h = refl
length-take_le (suc n) [] h = omega arith
length-take_le (suc n) (c ∷ s) h = ap suc (length-take_le n s (omega arith))

length-drop : {A : Type 0} (n : ℕ) (s : List A) → n ≤ length s → length (drop n s) + n ≡ length s
length-drop zero s h = omega arith
length-drop (suc n) [] h = omega arith
length-drop (suc n) (c ∷ s) h = let e = length-drop n s (omega arith) in omega arith

le_suc-cases : (m n : ℕ) → m ≤ suc n → (m ≤ n) ⊎ (m ≡ suc n)
le_suc-cases m n h = elim (Bool-cases (leb m n)) [
  | inl below ↦ inl (ground arith)
  | inr above ↦ inr (ground arith)
]

module _ {V : Type 0} (vocab : Dict Text V) where
  -- None of the prefixes of `s` of lengths from `m` to `n` is a key.
  abbrev pub NoKey : ℕ → ℕ → Text → Type 0
  NoKey m n s = (k : ℕ) → m ≤ k → k ≤ n → has_key (take k s) vocab ≡ false

  NoKey-suc :
      (m n : ℕ) (s : Text)
      → NoKey m n s
      → has_key (take (suc n) s) vocab ≡ false
      → NoKey m (suc n) s
  NoKey-suc m n s h e k a b = elim (le_suc-cases k n b) [
    | inl below ↦ h k a below
    | inr last ↦ subst (λ i. has_key (take i s) vocab ≡ false) (sym last) e
  ]

  longest_prefix-none : (n : ℕ) (s : Text) → longest_prefix vocab n s ≡ none → NoKey 1 n s
  unfolding longest_prefix
  longest_prefix-none zero s h = λ k a b. let no : ⊥ = omega arith in elim no [ ]
  longest_prefix-none (suc n) s h = elim (Bool-cases (has_key (take (suc n) s) vocab)) [
    | inl known ↦ cc (rw known at h)
    | inr unknown ↦ NoKey-suc 1 n s (longest_prefix-none n s (rw unknown at h)) unknown
  ]

  -- A found prefix is a key, and every longer prefix is none.
  longest_prefix-some :
      (n : ℕ) (s : Text) {p : Text}
      → longest_prefix vocab n s ≡ some p
      → (k : ℕ) × (p ≡ take k s) × (has_key p vocab ≡ true) × (1 ≤ k) × (k ≤ n) × NoKey (suc k) n s
  unfolding longest_prefix
  longest_prefix-some zero s h = cc
  longest_prefix-some (suc n) s {p} h = elim (Bool-cases (has_key (take (suc n) s) vocab)) [
    | inl known ↦
        let e : take (suc n) s ≡ p = cc (rw known at h) in
        (
          suc n,
          sym e,
          subst (λ q. has_key q vocab ≡ true) e known,
          omega arith,
          omega arith,
          λ k a b. let no : ⊥ = omega arith in elim no [ ],
        )
    | inr unknown ↦
        let (k, e, known, low, high, none_longer) = longest_prefix-some n s (rw unknown at h) in
        (k, e, known, low, omega arith, NoKey-suc (suc k) n s none_longer unknown)
  ]

  -- Pieces by maximum matching: each is a non-empty key of the vocabulary, and no key is a longer
  -- prefix of what is left of the token.
  unfoldable pub IsGreedy : Text → List Text → Type 0
  IsGreedy s [] = s ≡ []
  IsGreedy s (p ∷ ps) =
      (rest : Text) × (s ≡ p ++ rest)
      × (has_key p vocab ≡ true)
      × (1 ≤ length p)
      × NoKey (suc (length p)) (length s) s
      × IsGreedy rest ps

  with_piece-some :
      (p : Text) (r : Option (List Text)) {pieces : List Text}
      → with_piece p r ≡ some pieces
      → (ps : List Text) × (r ≡ some ps) × (pieces ≡ p ∷ ps)
  unfolding with_piece
  with_piece-some p none h = cc
  with_piece-some p (some ps) h = (ps, refl, cc)

  -- What is known of a piece that was found in `s`, in terms of its own length.
  found_piece :
      (s : Text) {p : Text}
      → longest_prefix vocab (length s) s ≡ some p
      → (s ≡ p ++ drop (length p) s)
        × (has_key p vocab ≡ true)
        × (1 ≤ length p)
        × NoKey (suc (length p)) (length s) s
        × (length (drop (length p) s) + length p ≡ length s)
  found_piece s {p} h =
      let (k, e, known, low, high, none_longer) = longest_prefix-some (length s) s h in
      let same : k ≡ length p = sym (length-take_le k s high) ∙ ap length (sym e) in
      let whole : s ≡ p ++ drop k s = sym (take-drop k s) ∙ ap (λ t. t ++ drop k s) (sym e) in
      (
        subst (λ i. s ≡ p ++ drop i s) same whole,
        known,
        subst (λ i. 1 ≤ i) same low,
        subst (λ i. NoKey (suc i) (length s) s) same none_longer,
        subst (λ i. length (drop i s) + i ≡ length s) same (length-drop k s high),
      )

  concat-IsGreedy : (s : Text) (pieces : List Text) → IsGreedy s pieces → concat pieces ≡ s
  unfolding IsGreedy concat
  concat-IsGreedy s [] h = sym h
  concat-IsGreedy s (p ∷ ps) h =
      let (rest, e, known, low, none_longer, more) = h in
      ap (λ t. p ++ t) (concat-IsGreedy rest ps more) ∙ sym e

  with_piece-none : (p : Text) (r : Option (List Text)) → with_piece p r ≡ none → r ≡ none
  unfolding with_piece
  with_piece-none p none h = refl
  with_piece-none p (some ps) h = cc

  pieces_from-IsGreedy :
      (fuel : ℕ) (s : Text) (pieces : List Text)
      → pieces_from fuel vocab s ≡ some pieces
      → IsGreedy s pieces
  unfolding pieces_from IsGreedy
  pieces_from-IsGreedy fuel [] [] h = refl
  pieces_from-IsGreedy fuel [] (p ∷ ps) h = cc
  pieces_from-IsGreedy zero (c ∷ s) pieces h = cc
  pieces_from-IsGreedy (suc fuel) (c ∷ s) pieces h =
      elim (Option-cases (longest_prefix vocab (length (c ∷ s)) (c ∷ s))) [
        | inl absent ↦ cc (rw (absent, pieces_from) at h)
        | inr (p, found) ↦
            let rest = drop (length p) (c ∷ s) in
            let (ps, r, e) =
              with_piece-some p (pieces_from fuel vocab rest) (rw (found, pieces_from) at h) in
            let (whole, known, low, none_longer, shorter) = found_piece (c ∷ s) found in
            rw e (rest, whole, known, low, none_longer, pieces_from-IsGreedy fuel rest ps r)
      ]

  -- Maximum matching cuts these pieces off and then stops: what is left is not empty, and no
  -- non-empty prefix of it is a key.
  unfoldable pub IsStuck : Text → (done : List Text) → Type 0
  IsStuck s [] = (1 ≤ length s) × NoKey 1 (length s) s
  IsStuck s (p ∷ ps) =
      (rest : Text) × (s ≡ p ++ rest)
      × (has_key p vocab ≡ true)
      × (1 ≤ length p)
      × NoKey (suc (length p)) (length s) s
      × IsStuck rest ps

  pieces_from-none :
      (fuel : ℕ) (s : Text)
      → length s ≤ fuel
      → pieces_from fuel vocab s ≡ none
      → (done : List Text) × IsStuck s done
  unfolding pieces_from IsStuck
  pieces_from-none fuel [] b h = cc
  pieces_from-none zero (c ∷ s) b h = let no : ⊥ = omega arith in elim no [ ]
  pieces_from-none (suc fuel) (c ∷ s) b h =
      elim (Option-cases (longest_prefix vocab (length (c ∷ s)) (c ∷ s))) [
        | inl absent ↦ ([], (omega arith, longest_prefix-none _ (c ∷ s) absent))
        | inr (p, found) ↦
            let rest = drop (length p) (c ∷ s) in
            let (whole, known, low, none_longer, shorter) = found_piece (c ∷ s) found in
            let left =
              with_piece-none p (pieces_from fuel vocab rest) (rw (found, pieces_from) at h) in
            let (done, stuck) = pieces_from-none fuel rest (omega arith) left in
            (p ∷ done, (rest, whole, known, low, none_longer, stuck))
      ]

  -- The pieces of a token are those of maximum matching from the left, and they are cut out of a
  -- token that is not empty.
  pub decompose-IsGreedy :
      (token : Text) (pieces : List Text)
      → decompose_token_into_known_pieces token vocab ≡ some pieces
      → IsGreedy token pieces × (concat pieces ≡ token) × (1 ≤ length token)
  unfolding decompose_token_into_known_pieces
  decompose-IsGreedy [] pieces h = cc
  decompose-IsGreedy (c ∷ token) pieces h =
      let greedy = pieces_from-IsGreedy _ (c ∷ token) pieces h in
      (greedy, concat-IsGreedy (c ∷ token) pieces greedy, omega arith)

  -- There are no pieces only for an empty token and for one on which maximum matching from the left
  -- comes to a place of which no non-empty prefix is a key: the loop is never cut short.
  pub decompose-none :
      (token : Text)
      → decompose_token_into_known_pieces token vocab ≡ none
      → (token ≡ []) ⊎ ((done : List Text) × IsStuck token done)
  unfolding decompose_token_into_known_pieces
  decompose-none [] h = inl refl
  decompose-none (c ∷ token) h = inr (pieces_from-none _ (c ∷ token) (omega arith) h)
