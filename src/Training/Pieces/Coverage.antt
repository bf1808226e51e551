-- ===== src/Training/Pieces/Coverage.antt =====
-- ml/training/vocab_extension.py: tokens whose characters the vocabulary holds.
use es_kaq_translator_v.Base.{
  ℕ, ◌≡◌, true, some, List, [], ◌∷◌, ◌++◌, All, arith, Option-cases, inl, inr, subst,
}
use es_kaq_translator_v.Base.Dict.{Dict, has_key}
use es_kaq_translator_v.Text.{Text, text_eq}
use es_kaq_translator_v.Training.Pieces.{decompose_token_into_known_pieces}
use es_kaq_translator_v.Training.Pieces.Greedy.{IsStuck, decompose-none}

All-right : {A : Type 0} (P : A → Type 0) (xs ys : List A) → All P (xs ++ ys) → All P ys
All-right P [] ys h = h
All-right P (x ∷ xs) ys h = All-right P xs ys h.1

module _ {V : Type 0} (vocab : Dict Text V) where
  covered-not_stuck :
      (done : List Text) (s : Text)
      → All (λ c. has_key (c ∷ []) vocab ≡ true) s
      → IsStuck vocab s done
      → ⊥
  unfolding IsStuck
  covered-not_stuck [] [] h (n, no_key) = omega arith
  covered-not_stuck [] (c ∷ s) h (n, no_key) =
      let here = h.0 in let absent = no_key 1 (omega arith) n in cc
  covered-not_stuck (p ∷ done) s h (rest, e, known, low, none_longer, stuck) =
      let chars = subst (All (λ c. has_key (c ∷ []) vocab ≡ true)) e h in
      covered-not_stuck done rest (All-right _ p rest chars) stuck

  -- A token that is not empty has pieces whenever each of its characters is a key by itself.
  pub decompose_of_characters :
      (c : ℕ) (token : Text)
      → All (λ d. has_key (d ∷ []) vocab ≡ true) (c ∷ token)
      → (pieces : List Text) × (decompose_token_into_known_pieces (c ∷ token) vocab ≡ some pieces)
  decompose_of_characters c token h =
      elim (Option-cases (decompose_token_into_known_pieces (c ∷ token) vocab)) [
        | inr found ↦ found
        | inl absent ↦ elim (decompose-none vocab (c ∷ token) absent) [
          | inl no_token ↦ cc
          | inr (done, stuck) ↦ elim (covered-not_stuck done (c ∷ token) h stuck) [ ]
        ]
      ]
