-- ===== src/Training/Vocab.antt =====
-- ml/training/vocab_extension.py: which tokens are new, and the ids that they get.
pub mod Order
pub mod Ids
use es_kaq_translator_v.Base.{
  ℕ, suc, ◌+◌, ◌≡◌, Bool, true, false, Option, none, some, List, [], ◌∷◌, ◌++◌, ◌==◌, ltb, max,
  filter_b, not, if◌then◌else◌, ◌=?◌, elem, ◌&&◌,
}
use es_kaq_translator_v.Base.Dict.{Dict, lookup, insert, has_key}
use es_kaq_translator_v.Text.{Text, text, text_eq}
use es_kaq_translator_v.Text.Space.{is_space}

-- `s < t` on strings: by code points, and a proper prefix comes first.
unfoldable pub before : Text → Text → Bool
before s [] = false
before [] (d ∷ t) = true
before (c ∷ s) (d ∷ t) = if c == d then before s t else ltb c d

unfoldable pub put : Text → List Text → List Text
put t [] = t ∷ []
put t (u ∷ us) =
    let rest = put t us in if t =? u then u ∷ us else if before t u then t ∷ u ∷ us else u ∷ rest

-- `sorted(set(tokens))`
unfoldable pub sorted_set : List Text → List Text
sorted_set [] = []
sorted_set (t ∷ ts) = put t (sorted_set ts)

unfoldable pub select_new_tokens : List Text → Dict Text ℕ → List Text
select_new_tokens candidate_tokens existing_vocab =
    filter_b (λ token. not (has_key token existing_vocab)) (sorted_set candidate_tokens)

unfoldable pub next_id : Dict Text ℕ → ℕ
next_id [] = 0
next_id ((token, n) ∷ vocab) = max (suc n) (next_id vocab)

-- The loop over the new tokens, with the id of the next one.
unfoldable pub assign_ids : Dict Text ℕ → ℕ → List Text → Dict Text ℕ
assign_ids extended n [] = extended
assign_ids extended n (token ∷ tokens) = assign_ids (insert token n extended) (n + 1) tokens

unfoldable pub extend_vocab : Dict Text ℕ → List Text → Dict Text ℕ
extend_vocab base_vocab new_tokens =
    assign_ids base_vocab (next_id base_vocab) (select_new_tokens new_tokens base_vocab)
