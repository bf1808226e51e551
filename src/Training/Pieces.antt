-- ===== src/Training/Pieces.antt =====
-- ml/training/vocab_extension.py: a new token is cut, greedily, into pieces of the vocabulary.
pub mod Greedy
pub mod Coverage
use es_kaq_translator_v.Base.{
  ℕ, zero, suc, ◌+◌, ◌≡◌, Bool, true, false, Option, none, some, List, [], ◌∷◌, ◌++◌, map, length,
  take, drop, leb, if◌then◌else◌,
}
use es_kaq_translator_v.Base.Dict.{Dict, insert, has_key}
use es_kaq_translator_v.Text.{Text, text_eq}

unfoldable pub with_piece : Text → Option (List Text) → Option (List Text)
with_piece piece none = none
with_piece piece (some pieces) = some (piece ∷ pieces)

-- The keys of a dictionary are all that is read of it here: its values are of any type.
module _ {V : Type 0} where
  -- The inner loop: the longest of the first `n` prefixes of what is left of the token.
  unfoldable pub longest_prefix : Dict Text V → ℕ → Text → Option Text
  longest_prefix vocab zero rest = none
  longest_prefix vocab (suc n) rest =
      let shorter = longest_prefix vocab n rest in
      let candidate = take (suc n) rest in
      if has_key candidate vocab then some candidate else shorter

  -- The outer loop, on what is left of the token. Each turn needs one unit of fuel.
  unfoldable pub pieces_from : ℕ → Dict Text V → Text → Option (List Text)
  pieces_from fuel vocab [] = some []
  pieces_from zero vocab (c ∷ rest) = none
  pieces_from (suc fuel) vocab (c ∷ rest) =
      elim (longest_prefix vocab (length (c ∷ rest)) (c ∷ rest)) [
        | none ↦ none
        | some piece ↦ with_piece piece (pieces_from fuel vocab (drop (length piece) (c ∷ rest)))
      ]

  unfoldable pub decompose_token_into_known_pieces : Text → Dict Text V → Option (List Text)
  decompose_token_into_known_pieces [] vocab = none
  decompose_token_into_known_pieces (c ∷ token) vocab =
      pieces_from (length (c ∷ token)) vocab (c ∷ token)

-- `range(len(tokens))`, each index with its token
unfoldable pub numbered : ℕ → List Text → List (ℕ × Text)
numbered n [] = []
numbered n (t ∷ ts) = (n, t) ∷ numbered (n + 1) ts

unfoldable pub put_by_length : ℕ × Text → List (ℕ × Text) → List (ℕ × Text)
put_by_length t [] = t ∷ []
put_by_length t (u ∷ us) =
    let rest = put_by_length t us in if leb (length t.1) (length u.1) then t ∷ u ∷ us else u ∷ rest

unfoldable pub by_length : List (ℕ × Text) → List (ℕ × Text)
by_length [] = []
by_length (t ∷ ts) = put_by_length t (by_length ts)

-- `sorted(range(len(tokens)), key=lambda i: (len(tokens[i]), i))`; a token of the same length stays
-- behind those of smaller indices.
unfoldable pub processing_order : List Text → List (ℕ × Text)
processing_order tokens = by_length (numbered 0 tokens)

-- A token becomes a piece for the later ones.
unfoldable pub made_available : {V : Type 0} → Text → V → Dict Text V → Dict Text V
made_available token v pieces = if has_key token pieces then pieces else insert token v pieces

unfoldable pub bit : Option (List Text) → ℕ
bit none = 0
bit (some pieces) = 1

-- The loop of `count_decomposable_tokens`, and its sum. No value of the dictionary is read, so that the
-- placeholder -1 is 0 here.
unfoldable pub count_from : Dict Text ℕ → List (ℕ × Text) → ℕ
count_from available [] = 0
count_from available ((index, token) ∷ order) =
    bit (decompose_token_into_known_pieces token available)
    + count_from (made_available token 0 available) order

unfoldable pub count_decomposable_tokens : List Text → Dict Text ℕ → ℕ
count_decomposable_tokens tokens vocab = count_from vocab (processing_order tokens)
