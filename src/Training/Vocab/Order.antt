-- ===== src/Training/Vocab/Order.antt =====
-- ml/training/vocab_extension.py: the order and the members of `sorted(set(tokens))`.
use es_kaq_translator_v.Base.{
  ℕ, ◌≡◌, refl, ◌∙◌, Bool, true, false, List, [], ◌∷◌, if◌then◌else◌, ◌=?◌, elem, ◌&&◌, arith,
  Bool-cases, inl, inr, IsDistinct, not, filter_b, elem-filter, All,
}
use es_kaq_translator_v.Base.{list_eq, nat_eq, list_beq}
use es_kaq_translator_v.Base.Dict.{Dict, has_key}
use es_kaq_translator_v.Text.{Text, text_eq}
use es_kaq_translator_v.Training.Vocab.{before, put, sorted_set, select_new_tokens}

-- All later tokens are after an earlier one.
abbrev pub IsSorted : List Text → Type 0
IsSorted [] = Unit
IsSorted (t ∷ ts) = All (λ u. before t u ≡ true) ts × IsSorted ts

pub before_irrefl : (t : Text) → before t t ≡ false
unfolding before
before_irrefl [] = refl
before_irrefl (c ∷ t) = ground (arith, before_irrefl t)

pub before_trans : (s t u : Text) → before s t ≡ true → before t u ≡ true → before s u ≡ true
unfolding before
before_trans s t [] h k = cc
before_trans s [] (e ∷ u) h k = cc
before_trans [] (d ∷ t) (e ∷ u) h k = refl
before_trans (c ∷ s) (d ∷ t) (e ∷ u) h k = ground (arith, before_trans s t u)

before_total : (s t : Text) → (s =? t) ≡ false → before s t ≡ false → before t s ≡ true
unfolding before list_beq
before_total [] [] h k = cc
before_total [] (d ∷ t) h k = cc
before_total (c ∷ s) [] h k = refl
before_total (c ∷ s) (d ∷ t) h k = ground (arith, before_total s t)

elem-put : (a t : Text) (ts : List Text) → elem a (put t ts) ≡ (if t =? a then true else elem a ts)
unfolding put
elem-put a t [] = refl
elem-put a t (u ∷ us) =
    ground (arith, elem-put a t us, text_eq.beq_iff t u, text_eq.beq_iff t a, text_eq.beq_iff u a)

pub elem-sorted_set : (a : Text) (ts : List Text) → elem a (sorted_set ts) ≡ elem a ts
unfolding sorted_set
elem-sorted_set a [] = refl
elem-sorted_set a (t ∷ ts) = elem-put a t (sorted_set ts) ∙ rw (elem-sorted_set a ts) refl

after_put :
    (v t : Text) (us : List Text)
    → before v t ≡ true
    → All (λ u. before v u ≡ true) us
    → All (λ u. before v u ≡ true) (put t us)
unfolding put
after_put v t [] h k = (h, tt)
after_put v t (u ∷ us) h k = ground (arith, after_put v t us)

All-trans :
    (t u : Text) (us : List Text)
    → before t u ≡ true
    → All (λ v. before u v ≡ true) us
    → All (λ v. before t v ≡ true) us
All-trans t u [] h k = tt
All-trans t u (v ∷ us) h k = (before_trans t u v h k.0, All-trans t u us h k.1)

put-IsSorted : (t : Text) (ts : List Text) → IsSorted ts → IsSorted (put t ts)
unfolding put
put-IsSorted t [] h = (tt, tt)
put-IsSorted t (u ∷ us) h = elim (Bool-cases (t =? u)) [
  | inl same ↦ rw same h
  | inr other ↦ elim (Bool-cases (before t u)) [
    | inl less ↦ rw (other, less) ((less, All-trans t u us less h.0), h)
    | inr more ↦
        rw (other, more) (after_put u t us (before_total t u other more) h.0, put-IsSorted t us h.1)
  ]
]

pub sorted_set-IsSorted : (ts : List Text) → IsSorted (sorted_set ts)
unfolding sorted_set
sorted_set-IsSorted [] = tt
sorted_set-IsSorted (t ∷ ts) = put-IsSorted t (sorted_set ts) (sorted_set-IsSorted ts)

pub not_after : (t : Text) (ts : List Text) → All (λ u. before t u ≡ true) ts → elem t ts ≡ false
not_after t [] h = refl
not_after t (u ∷ us) h = ground (arith, not_after t us h.1, text_eq.beq_iff u t, before_irrefl t)

pub IsSorted-IsDistinct : (ts : List Text) → IsSorted ts → IsDistinct ts
IsSorted-IsDistinct [] h = tt
IsSorted-IsDistinct (t ∷ ts) h = (not_after t ts h.0, IsSorted-IsDistinct ts h.1)

filter-All :
    (p q : Text → Bool) (ts : List Text)
    → All (λ t. q t ≡ true) ts
    → All (λ t. q t ≡ true) (filter_b p ts)
filter-All p q [] h = tt
filter-All p q (t ∷ ts) h = ground (arith, filter-All p q ts h.1)

filter-IsSorted : (p : Text → Bool) (ts : List Text) → IsSorted ts → IsSorted (filter_b p ts)
filter-IsSorted p [] h = tt
filter-IsSorted p (t ∷ ts) h = elim (Bool-cases (p t)) [
  | inl keep ↦ rw (keep, filter_b) (filter-All p (before t) ts h.0, filter-IsSorted p ts h.1)
  | inr drop ↦ rw (drop, filter_b) (filter-IsSorted p ts h.1)
]

-- The selected tokens are exactly the candidates that the vocabulary does not hold, each once, in
-- the order of their code points.
pub select_new_tokens_lem :
    (candidates : List Text) (vocab : Dict Text ℕ)
    → ((t : Text)
        → elem t (select_new_tokens candidates vocab)
          ≡ (not (has_key t vocab) && elem t candidates))
      × IsSorted (select_new_tokens candidates vocab)
      × IsDistinct (select_new_tokens candidates vocab)
unfolding select_new_tokens
select_new_tokens_lem candidates vocab =
    let keep : Text → Bool = λ token. not (has_key token vocab) in
    let sorted = filter-IsSorted keep (sorted_set candidates) (sorted_set-IsSorted candidates) in
    (
      λ t. elem-filter keep t (sorted_set candidates) ∙ rw (elem-sorted_set t candidates) refl,
      sorted,
      IsSorted-IsDistinct _ sorted,
    )
