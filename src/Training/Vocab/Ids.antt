-- ===== src/Training/Vocab/Ids.antt =====
-- ml/training/vocab_extension.py: the ids of the extended vocabulary.
use es_kaq_translator_v.Base.{
  ℕ, suc, ◌+◌, ◌<◌, ◌≡◌, refl, true, none, some, List, [], ◌∷◌, if◌then◌else◌, ◌=?◌, elem, arith,
  Bool-cases, inl, inr, ◌⊎◌, IsDistinct, length,
}
use es_kaq_translator_v.Base.Dict.{Dict, lookup, insert, has_key, lookup-insert}
use es_kaq_translator_v.Text.{Text, text_eq}
use es_kaq_translator_v.Training.Vocab.{next_id, assign_ids, select_new_tokens, extend_vocab}
use es_kaq_translator_v.Training.Vocab.Order.{select_new_tokens_lem}

-- The place of a token in a list.
unfoldable pub index : Text → List Text → ℕ
index t [] = 0
index t (u ∷ us) = let rest = index t us in if u =? t then 0 else suc rest

-- No two tokens of a vocabulary have the same id.
abbrev pub IsInjective : Dict Text ℕ → Type 0
IsInjective vocab = (s t : Text) (n : ℕ) → lookup s vocab ≡ some n → lookup t vocab ≡ some n → s ≡ t

lookup-assign_ids :
    (vocab : Dict Text ℕ) (n : ℕ) (ts : List Text) (t : Text)
    → IsDistinct ts
    → lookup t (assign_ids vocab n ts)
      ≡ (if elem t ts then some (n + index t ts) else lookup t vocab)
unfolding assign_ids index
lookup-assign_ids vocab n [] t d = refl
lookup-assign_ids vocab n (u ∷ us) t d = ground (
  arith,
  lookup-assign_ids (insert u n vocab) (n + 1) us t,
  lookup-insert u t n vocab,
  text_eq.beq_iff u t,
)

below_next_id :
    (vocab : Dict Text ℕ) (t : Text) {n : ℕ} → lookup t vocab ≡ some n → n < next_id vocab
unfolding lookup next_id
below_next_id [] t h = cc
below_next_id ((u, m) ∷ vocab) t {n} h = elim (Bool-cases (u =? t)) [
  | inl here ↦ let e : some m ≡ some n = rw here at h in ground arith
  | inr later ↦
      let e : lookup t vocab ≡ some n = rw later at h in
      let below = below_next_id vocab t e in omega arith
]

index_below : (t : Text) (ts : List Text) → elem t ts ≡ true → index t ts < length ts
unfolding index
index_below t [] h = cc
index_below t (u ∷ us) h = ground (arith, index_below t us)

index_injective :
    (s t : Text) (ts : List Text)
    → elem s ts ≡ true
    → elem t ts ≡ true
    → index s ts ≡ index t ts
    → s ≡ t
unfolding index
index_injective s t [] h k e = cc
index_injective s t (u ∷ us) h k e =
    ground (arith, text_eq.beq_iff u s, text_eq.beq_iff u t, index_injective s t us)

-- Tokens of the base vocabulary keep their ids, and the new tokens, in order, get the ids from one
-- past the largest on; no other token gets an id.
pub extend_vocab_lem :
    (vocab : Dict Text ℕ) (tokens : List Text) (t : Text)
    → let new = select_new_tokens tokens vocab in
      lookup t (extend_vocab vocab tokens) ≡ (
        if has_key t vocab
        then lookup t vocab
        else if elem t tokens
        then some (next_id vocab + index t new)
        else none)
unfolding extend_vocab
extend_vocab_lem vocab tokens t =
    let (members, sorted, distinct) = select_new_tokens_lem tokens vocab in
    let found =
      lookup-assign_ids vocab (next_id vocab) (select_new_tokens tokens vocab) t distinct in
    ground (arith, found, members t)

origin :
    (vocab : Dict Text ℕ) (tokens : List Text) (t : Text) (n : ℕ)
    → lookup t (extend_vocab vocab tokens) ≡ some n
    → (lookup t vocab ≡ some n)
      ⊎ ((elem t (select_new_tokens tokens vocab) ≡ true)
          × (n ≡ next_id vocab + index t (select_new_tokens tokens vocab)))
unfolding extend_vocab
origin vocab tokens t n h =
    let new = select_new_tokens tokens vocab in
    let (members, sorted, distinct) = select_new_tokens_lem tokens vocab in
    let found = lookup-assign_ids vocab (next_id vocab) new t distinct in ground arith

-- Two tokens of an extended vocabulary with the same id are the same token, provided that the base
-- vocabulary gives no id twice; and the id is below the next id of the base vocabulary plus the
-- number of new tokens.
pub extend_vocab-injective :
    (vocab : Dict Text ℕ) (tokens : List Text) (s t : Text) (n : ℕ)
    → IsInjective vocab
    → lookup s (extend_vocab vocab tokens) ≡ some n
    → lookup t (extend_vocab vocab tokens) ≡ some n
    → (s ≡ t) × (n < next_id vocab + length (select_new_tokens tokens vocab))
extend_vocab-injective vocab tokens s t n injective h k =
    let new = select_new_tokens tokens vocab in
    elim (origin vocab tokens s n h) [
      | inl a ↦
          let below = below_next_id vocab s a in
          elim (origin vocab tokens t n k) [
            | inl b ↦ (injective s t n a b, omega arith)
            | inr (b, e) ↦ let no : ⊥ = omega arith in elim no [ ]
          ]
      | inr (a, e) ↦
          let last = index_below s new a in
          elim (origin vocab tokens t n k) [
            | inl b ↦ let below = below_next_id vocab t b in let no : ⊥ = omega arith in elim no [ ]
            | inr (b, f) ↦ (index_injective s t new a b (omega arith), omega arith)
          ]
    ]
