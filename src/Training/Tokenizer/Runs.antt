-- ===== src/Training/Tokenizer/Runs.antt =====
-- ml/training/tokenizer_extension.py: the runs of tokens that are decoded together.
use es_kaq_translator_v.Base.{
  ◌≡◌, refl, ap, ◌∙◌, true, false, List, [], ◌∷◌, ◌++◌, drop, All, All-append, Bool-cases, inl, inr,
  append_assoc,
}
use es_kaq_translator_v.Text.{Text, text_eq}
use es_kaq_translator_v.Training.Gap.{all_of}
use es_kaq_translator_v.Training.Tokenizer.{starts_new_word, runs_from}

module _ (boundary : List Text) where
  -- A run has its word's start in front, and no other word's start.
  abbrev pub IsGlued : List Text → Type 0
  IsGlued [] = ⊥
  IsGlued (t ∷ run) = All (λ u. starts_new_word boundary u ≡ false) run

  abbrev pub Opens : List Text → Type 0
  Opens [] = ⊥
  Opens (t ∷ run) = starts_new_word boundary t ≡ true

  runs-concat :
      (c : Text) (current tokens : List Text)
      → all_of (λ r. r) (runs_from boundary (c ∷ current) tokens) ≡ c ∷ current ++ tokens
  unfolding runs_from all_of
  runs-concat c current [] = refl
  runs-concat c current (t ∷ tokens) = elim (Bool-cases (starts_new_word boundary t)) [
    | inl split ↦ rw split (ap (λ r. c ∷ current ++ r) (runs-concat t [] tokens))
    | inr glued ↦ rw glued (
        runs-concat c (current ++ (t ∷ [])) tokens
        ∙ ap (◌∷◌ c) (append_assoc current (t ∷ []) tokens))
  ]

  runs-IsGlued :
      (c : Text) (current tokens : List Text)
      → IsGlued (c ∷ current)
      → All IsGlued (runs_from boundary (c ∷ current) tokens)
  unfolding runs_from
  runs-IsGlued c current [] h = (h, tt)
  runs-IsGlued c current (t ∷ tokens) h = elim (Bool-cases (starts_new_word boundary t)) [
    | inl split ↦ rw split (h, runs-IsGlued t [] tokens tt)
    | inr glued ↦ rw glued (
        runs-IsGlued c (current ++ (t ∷ [])) tokens
          (All-append (λ u. starts_new_word boundary u ≡ false) current (t ∷ []) h (glued, tt)))
  ]

  runs-Opens :
      (c : Text) (current tokens : List Text)
      → Opens (c ∷ current)
      → All Opens (runs_from boundary (c ∷ current) tokens)
  unfolding runs_from
  runs-Opens c current [] h = (h, tt)
  runs-Opens c current (t ∷ tokens) h = elim (Bool-cases (starts_new_word boundary t)) [
    | inl split ↦ rw split (h, runs-Opens t [] tokens split)
    | inr glued ↦ rw glued (runs-Opens c (current ++ (t ∷ [])) tokens h)
  ]

  runs-later :
      (c : Text) (current tokens : List Text)
      → All Opens (drop 1 (runs_from boundary (c ∷ current) tokens))
  unfolding runs_from
  runs-later c current [] = tt
  runs-later c current (t ∷ tokens) = elim (Bool-cases (starts_new_word boundary t)) [
    | inl split ↦ rw split (runs-Opens t [] tokens split)
    | inr glued ↦ rw glued (runs-later c (current ++ (t ∷ [])) tokens)
  ]

  -- The runs are the tokens in order, none lost; no token that starts a word stands inside a run, and
  -- every run but the first begins with one.
  pub runs_from_lem :
      (tokens : List Text)
      → (all_of (λ r. r) (runs_from boundary [] tokens) ≡ tokens)
        × All IsGlued (runs_from boundary [] tokens)
        × All Opens (drop 1 (runs_from boundary [] tokens))
  unfolding runs_from all_of
  runs_from_lem [] = (refl, tt, tt)
  runs_from_lem (t ∷ tokens) =
      (runs-concat t [] tokens, runs-IsGlued t [] tokens tt, runs-later t [] tokens)
