-- ===== src/Training/Direction/Examples.antt =====
-- ml/training/direction.py: the examples of each direction, and the texts of each language.
use es_kaq_translator_v.Base.{
  ◌≡◌, refl, ap, ◌∙◌, true, List, [], ◌∷◌, ◌++◌, map, elem, list_beq, append_assoc, append-nil,
  Bool-cases, inl, inr, ◌⊎◌,
}
use es_kaq_translator_v.Text.{Text, text, text_eq}
use es_kaq_translator_v.Data.Normalize.{SentencePair}
use es_kaq_translator_v.Training.Direction.{
  ok, value_error, spanish, kaqchikel, TranslationExample, forward, backward, examples_of,
  build_direction_examples, collect_texts_for_language, direction_choices,
}

collect-append :
    (xs ys : List TranslationExample) (language : Text)
    → collect_texts_for_language (xs ++ ys) language
      ≡ collect_texts_for_language xs language ++ collect_texts_for_language ys language
unfolding collect_texts_for_language
collect-append [] ys language = refl
collect-append (x ∷ xs) ys language =
    rw (collect-append xs ys language, append_assoc, append_assoc) refl

collect-forward :
    (pairs : List SentencePair)
    → (collect_texts_for_language (map forward pairs) spanish ≡ map (λ p. p.0) pairs)
      × (collect_texts_for_language (map forward pairs) kaqchikel ≡ map (λ p. p.1) pairs)
unfolding collect_texts_for_language forward list_beq
collect-forward [] = (refl, refl)
collect-forward (p ∷ pairs) =
    (ap (◌∷◌ p.0) (collect-forward pairs).0, ap (◌∷◌ p.1) (collect-forward pairs).1)

collect-backward :
    (pairs : List SentencePair)
    → (collect_texts_for_language (map backward pairs) spanish ≡ map (λ p. p.0) pairs)
      × (collect_texts_for_language (map backward pairs) kaqchikel ≡ map (λ p. p.1) pairs)
unfolding collect_texts_for_language backward list_beq
collect-backward [] = (refl, refl)
collect-backward (p ∷ pairs) =
    (ap (◌∷◌ p.0) (collect-backward pairs).0, ap (◌∷◌ p.1) (collect-backward pairs).1)

-- Each direction has one example for each pair, and collecting the texts of a language gives back
-- that side of the corpus in its order; for both directions, there are two examples for each pair
-- and the side is collected twice. Any other direction is a `ValueError`.
pub build-collect :
    (pairs : List SentencePair) (direction : Text)
    → let sides = λ (examples : List TranslationExample) (es cak : List Text).
      (collect_texts_for_language examples spanish ≡ es)
      × (collect_texts_for_language examples kaqchikel ≡ cak) in
      let es = map (λ p. p.0) pairs in
      let cak = map (λ p. p.1) pairs in
      ((build_direction_examples pairs (text "es->cak") ≡ ok (map forward pairs))
        × sides (map forward pairs) es cak)
      × ((build_direction_examples pairs (text "cak->es") ≡ ok (map backward pairs))
          × sides (map backward pairs) es cak)
      × ((build_direction_examples pairs (text "both")
            ≡ ok (map forward pairs ++ map backward pairs))
          × sides (map forward pairs ++ map backward pairs) (es ++ es) (cak ++ cak))
      × ((elem direction direction_choices ≡ true)
          ⊎ (build_direction_examples pairs direction ≡ value_error direction))
unfolding build_direction_examples examples_of list_beq
build-collect pairs direction =
    let (fe, fc) = collect-forward pairs in
    let (be, bc) = collect-backward pairs in
    let twice = collect-append (map forward pairs) (map backward pairs) in
    (
      (ap ok (append-nil (map forward pairs)), (fe, fc)),
      (refl, (be, bc)),
      (refl, (twice spanish ∙ rw (fe, be) refl, twice kaqchikel ∙ rw (fc, bc) refl)),
      elim (Bool-cases (elem direction direction_choices)) [
        | inl known ↦ inl known
        | inr unknown ↦ inr (rw unknown refl)
      ],
    )
