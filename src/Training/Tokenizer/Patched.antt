-- ===== src/Training/Tokenizer/Patched.antt =====
-- ml/training/tokenizer_extension.py: a checkpoint's tokenizer that is patched, against the one that
-- was extended.
use es_kaq_translator_v.Base.{
  ℕ, ◌≡◌, refl, ap, sym, ◌∙◌, false, none, List, [], ◌∷◌, ◌++◌, elem, Bool-cases, inl, inr,
  if◌then◌else◌, filter_b, map, All, append-nil, append_assoc,
}
use es_kaq_translator_v.Base.Dict.{Dict}
use es_kaq_translator_v.Text.{Text, text, text_eq, join, remove_prefix}
use es_kaq_translator_v.Text.Space.{strip}
use es_kaq_translator_v.Training.Subwords.{word_boundary_marker}
use es_kaq_translator_v.Training.Tokenizer.{
  Transformers, Tokenizer, starts_new_word, runs_from, without_marker, is_part,
  convert_with_word_boundaries, mark_word_boundary_tokens, select_whole_word_tokens,
  compute_new_tokens_for_texts, reconstruct_whole_word_boundary_tokens,
  patch_word_boundary_decoding_for_checkpoint, with_new_tokens, extend_tokenizer_vocab,
}

mark-vocab :
    (tokenizer : Tokenizer) (tokens : List Text)
    → (mark_word_boundary_tokens tokenizer tokens).vocab ≡ tokenizer.vocab
unfolding mark_word_boundary_tokens
mark-vocab tokenizer [] = refl
mark-vocab tokenizer (t ∷ tokens) = refl

module _ (hf : Transformers) where
  -- A tokenizer just loaded, or saved and loaded again: nothing is marked.
  abbrev pub loaded : Dict Text ℕ → Tokenizer
  loaded vocab = record { vocab = vocab; boundary_tokens = none }

  patched-new :
      (base : Dict Text ℕ) (new_tokens : List Text)
      → let live =
          with_new_tokens hf (loaded base) new_tokens (select_whole_word_tokens new_tokens) in
        mark_word_boundary_tokens (loaded live.vocab) (select_whole_word_tokens new_tokens) ≡ live
  unfolding with_new_tokens select_whole_word_tokens mark_word_boundary_tokens
  patched-new base [] = refl
  patched-new base (t ∷ new_tokens) =
      let grown = loaded (hf.add_tokens base (t ∷ new_tokens)) in
      let marked = select_whole_word_tokens (t ∷ new_tokens) in
      ap (λ v. mark_word_boundary_tokens (loaded v) marked) (mark-vocab grown marked)

  -- A fresh tokenizer that is extended for some texts, and one that is saved after that, loaded again
  -- and patched with the same texts and the base vocabulary, are the same: they decode alike.
  pub patch-extend :
      (base : Dict Text ℕ) (sample_texts : List Text)
      → let live = (extend_tokenizer_vocab hf (loaded base) sample_texts).1 in
        (patch_word_boundary_decoding_for_checkpoint (loaded live.vocab) base sample_texts).1 ≡ live
  unfolding extend_tokenizer_vocab patch_word_boundary_decoding_for_checkpoint
      reconstruct_whole_word_boundary_tokens
  patch-extend base sample_texts = patched-new base (compute_new_tokens_for_texts sample_texts base)

  one-run :
      (boundary : List Text) (c : Text) (current tokens : List Text)
      → All (λ u. starts_new_word boundary u ≡ false) tokens
      → runs_from boundary (c ∷ current) tokens ≡ (c ∷ current ++ tokens) ∷ []
  unfolding runs_from
  one-run boundary c current [] h = ap (λ r. (c ∷ r) ∷ []) (sym (append-nil current))
  one-run boundary c current (t ∷ tokens) h = rw h.0 (
      one-run boundary c (current ++ (t ∷ [])) tokens h.1
      ∙ ap (λ r. (c ∷ r) ∷ []) (append_assoc current (t ∷ []) tokens))

  strip-part : (s : Text) → strip (join (text " ") (filter_b is_part (s ∷ []))) ≡ strip s
  unfolding join is_part
  strip-part [] = refl
  strip-part (c ∷ s) = refl

  -- Tokens of one word are decoded together, stripped. The marker of the first is taken off only if
  -- that token is registered: a word-initial token that is not keeps its marker when it is decoded.
  pub convert_run :
      (boundary : List Text) (token : Text) (tokens : List Text)
      → All (λ u. starts_new_word boundary u ≡ false) tokens
      → convert_with_word_boundaries hf boundary (token ∷ tokens)
        ≡ strip (
            hf.decode (
              (if elem token boundary then remove_prefix token word_boundary_marker else token)
              ∷ tokens))
  unfolding convert_with_word_boundaries runs_from without_marker
  convert_run boundary token tokens h =
      ap
        (λ rs. strip (
          join (text " ")
            (filter_b is_part (map (λ run. hf.decode (without_marker boundary run)) rs))))
        (one-run boundary token [] tokens h)
      ∙ strip-part (hf.decode (without_marker boundary (token ∷ tokens)))
      ∙ elim (Bool-cases (elem token boundary)) [
        | inl here ↦ rw (here, without_marker) refl
        | inr absent ↦ rw (absent, without_marker) refl
      ]
