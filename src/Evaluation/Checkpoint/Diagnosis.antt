-- ===== src/Evaluation/Checkpoint/Diagnosis.antt =====
-- ml/evaluation/evaluate_checkpoint.py: what the check of the reconstructed tokens reports.
use es_kaq_translator_v.Base.{
  ℕ, suc, ◌≤◌, ◌≡◌, refl, ◌∙◌, Bool, true, false, some, List, [], ◌∷◌, ◌++◌, map, length, elem,
  filter_b, not, ◌&&◌, ltb, Bool-cases, inl, inr, arith, IsDistinct, elem-filter, ◌=?◌, beq_refl,
}
use es_kaq_translator_v.Base.Dict.{Dict}
use es_kaq_translator_v.Text.{Text, text_eq}
use es_kaq_translator_v.Training.Vocab.{sorted_set}
use es_kaq_translator_v.Training.Vocab.Order.{
  elem-sorted_set, sorted_set-IsSorted, IsSorted-IsDistinct,
}
use es_kaq_translator_v.Evaluation.Checkpoint.{
  Report, over_reconstructed, not_cross_checked, under_reconstructed, is_ambiguous,
  unaccounted_tokens, report_over, report_unaccounted, diagnose_word_boundary_reconstruction,
}

without : Text → List Text → List Text
without x = filter_b (λ a. not (a =? x))

filter-shorter : (p : Text → Bool) (ys : List Text) → length (filter_b p ys) ≤ length ys
filter-shorter p [] = omega arith
filter-shorter p (y ∷ ys) = ground (arith, filter-shorter p ys)

without-shorter :
    (x : Text) (ys : List Text) → elem x ys ≡ true → suc (length (without x ys)) ≤ length ys
unfolding without
without-shorter x [] h = absurd cc
without-shorter x (y ∷ ys) h = elim (Bool-cases (y =? x)) [
  | inl same ↦ rw same (let l = filter-shorter (λ a. not (a =? x)) ys in omega arith)
  | inr other ↦ rw other (let l = without-shorter x ys (rw other at h) in omega arith)
]

-- A list without repetitions is no longer than one that has all its elements.
distinct-shorter :
    (xs ys : List Text)
    → IsDistinct xs
    → ((a : Text) → elem a xs ≡ true → elem a ys ≡ true)
    → length xs ≤ length ys
unfolding without
distinct-shorter [] ys h inside = omega arith
distinct-shorter (x ∷ xs) ys h inside =
    let x_in : elem x ys ≡ true = inside x (rw (beq_refl x) refl) in
    let rest = distinct-shorter xs (without x ys) h.1 (λ a e.
      let a_in : elem a ys ≡ true = inside a (ground arith) in
      let apart : (a =? x) ≡ false = elim (Bool-cases (a =? x)) [
        | inr f ↦ f
        | inl t ↦
            let a_x = (text_eq.beq_iff a x).0 t in
            absurd (let no : elem x xs ≡ true = rw (← a_x) e in let out = h.0 in cc)
      ] in
      elem-filter (λ b. not (b =? x)) a ys ∙ rw (apart, a_in) refl) in
    omega (arith, rest, without-shorter x ys x_in)

-- No report says that tokens were missed.
abbrev pub IsComplete : List Report → Type 0
IsComplete [] = Unit
IsComplete (over_reconstructed tokens ∷ rs) = IsComplete rs
IsComplete (not_cross_checked n ∷ rs) = IsComplete rs
IsComplete (under_reconstructed tokens n ∷ rs) = ⊥

report_over-IsComplete :
    (over : List Text) (rs : List Report) → IsComplete rs → IsComplete (report_over over ++ rs)
unfolding report_over
report_over-IsComplete [] rs h = h
report_over-IsComplete (t ∷ over) rs h = h

report_unaccounted-IsComplete :
    (tokens : List Text) (added : ℕ)
    → length tokens ≤ added
    → IsComplete (report_unaccounted tokens (some added))
unfolding report_unaccounted
report_unaccounted-IsComplete [] added h = tt
report_unaccounted-IsComplete (t ∷ tokens) added h =
    let fits : ltb added (length (t ∷ tokens)) ≡ false = ground arith in rw fits tt

-- When every ambiguous token of the checkpoint that is not among the reconstructed ones was added by
-- the run that recorded `new_tokens_added`, as many as it added, no report says that tokens were
-- missed.
pub diagnose-IsComplete :
    (boundary added : List Text) (checkpoint_vocab base_vocab : Dict Text ℕ)
    → ((t : Text)
        → elem t (map (λ p. p.0) checkpoint_vocab) ≡ true
        → is_ambiguous base_vocab t ≡ true
        → elem t boundary ≡ false
        → elem t added ≡ true)
    → IsComplete (
        diagnose_word_boundary_reconstruction boundary checkpoint_vocab base_vocab
          (some (length added)))
unfolding diagnose_word_boundary_reconstruction unaccounted_tokens
diagnose-IsComplete boundary added checkpoint_vocab base_vocab h =
    let keys = map (λ p. p.0) checkpoint_vocab in
    let keep : Text → Bool = λ token. is_ambiguous base_vocab token && not (elem token boundary) in
    let tokens = sorted_set (filter_b keep keys) in
    let inside : (a : Text) → elem a tokens ≡ true → elem a added ≡ true = λ a e.
      let e1 = elem-sorted_set a (filter_b keep keys) in
      let e2 = elem-filter keep a keys in h a (ground arith) (ground arith) (ground arith) in
    report_over-IsComplete _ _ (
      report_unaccounted-IsComplete tokens (length added) (
        distinct-shorter tokens added
          (IsSorted-IsDistinct tokens (sorted_set-IsSorted (filter_b keep keys))) inside))
