-- ===== src/Data/Pipeline/Corpus.antt =====
-- ml/data/pipeline.py: the two commands, with the files that they read and write.
use es_kaq_translator_v.Base.{
  if◌then◌else◌, ℕ, ◌≡◌, refl, ap, ◌∙◌, Bool, true, false, List, [], ◌∷◌, ◌++◌, pair_eq, All, elem,
  arith, Bool-cases, inl, inr, length, ◌&&◌, ◌↔◌, ◌⊎◌, ◌≤◌,
}
use es_kaq_translator_v.Text.{Text, text_eq}
use es_kaq_translator_v.Text.Space.{
  is_space, is_blank, strip, lstrip, rstrip, rstrip_cons, lstrip_of_HasInkAhead,
}
use es_kaq_translator_v.Text.Lines.{is_break, break_is_space}
use es_kaq_translator_v.Data.Normalize.{SentencePair}
use es_kaq_translator_v.Data.Normalize.Tidy.{IsTidy, is_squeezed}
use es_kaq_translator_v.Data.LengthFilter.{
  Floats, LengthFilterConfig, is_valid_length, is_valid_pair_iff,
}
use es_kaq_translator_v.Data.CorpusIo.{
  Storage, ok, read_tsv_pairs, row, write_text, write_tsv_pairs,
}
use es_kaq_translator_v.Data.CorpusIo.RoundTrip.{FitsRow, fits, read-write}
use es_kaq_translator_v.Data.SplitIntegrity.{
  report_of, has_exact_overlap, validate_split_integrity, has_exact_overlap_iff,
}
use es_kaq_translator_v.Data.Pipeline.{
  clean_pairs, clean_corpus_file, clean_read, main, clean, validate_split, exit, not_written,
  validate_status, validate_split_files, checked, both, clean_status,
}
use es_kaq_translator_v.Data.Pipeline.Clean.{IsTidyPair, clean_pairs_lem}

fits_32 : fits 32 ≡ true
unfolding fits is_break
fits_32 = refl

tab_space : is_space 9 ≡ true
unfolding is_space
tab_space = refl

fits_ink : (c : ℕ) → is_space c ≡ false → fits c ≡ true
unfolding fits
fits_ink c h = ground (arith, break_is_space c, tab_space)

squeezed-fits : (b : Bool) (s : Text) → is_squeezed b s ≡ true → All (λ c. fits c ≡ true) s
unfolding is_squeezed
squeezed-fits b [] h = tt
squeezed-fits b (c ∷ s) h =
    (ground (arith, fits_ink c, fits_32), squeezed-fits (is_space c) s (ground arith))

rstrip_cons-visible :
    (c : ℕ) (r : Text) → is_space c ≡ false → (d : ℕ) × (s : Text) × (rstrip_cons c r ≡ d ∷ s)
unfolding rstrip_cons
rstrip_cons-visible c [] h = (c, [], rw h refl)
rstrip_cons-visible c (d ∷ s) h = (c, d ∷ s, refl)

strip-visible : (c : ℕ) (s t : Text) → strip t ≡ c ∷ s → is_blank t ≡ false
unfolding is_blank
strip-visible c s t h = rw (h, is_blank) refl

strip_ink : (c : ℕ) (s : Text) → is_space c ≡ false → (d : ℕ) × (r : Text) × (strip (c ∷ s) ≡ d ∷ r)
unfolding strip rstrip
strip_ink c s h =
    let (d, r, e) = rstrip_cons-visible c (rstrip s) h in
    (d, r, ap rstrip (lstrip_of_HasInkAhead (c ∷ s) h) ∙ e)

ink_visible : (c : ℕ) (s : Text) → is_space c ≡ false → is_blank (c ∷ s) ≡ false
ink_visible c s h = let (d, r, e) = strip_ink c s h in strip-visible d r (c ∷ s) e

row_visible : (es cak : Text) → IsTidy es → 1 ≤ length (strip es) → is_blank (row (es, cak)) ≡ false
unfolding row
row_visible [] cak h n =
    let none_left : ¬ (1 ≤ length (strip [])) = unfold strip lstrip rstrip in omega arith in
    elim (none_left n) [ ]
row_visible (c ∷ es) cak h n = ink_visible c (es ++ (9 ∷ cak)) h.ahead

module _ (fl : Floats) where
  tidy-FitsRow :
      (config : LengthFilterConfig fl) (p : SentencePair)
      → IsTidyPair p
      → is_valid_length fl config p.0 p.1 ≡ true
      → FitsRow p
  unfolding is_valid_length
  tidy-FitsRow config (es, cak) h v = record {
    es_fits = squeezed-fits false es h.0.squeezed;
    cak_fits = squeezed-fits false cak h.1.squeezed;
    visible = row_visible es cak h.0 ((is_valid_pair_iff fl config _ _).0 v).0;
  }

  All-FitsRow :
      (config : LengthFilterConfig fl) (pairs : List SentencePair)
      → All IsTidyPair pairs
      → All (λ p. is_valid_length fl config p.0 p.1 ≡ true) pairs
      → All FitsRow pairs
  All-FitsRow config [] h v = tt
  All-FitsRow config (p ∷ pairs) h v =
      (tidy-FitsRow config p h.0 v.0, All-FitsRow config pairs h.1 v.1)

  module _ (nfc : Text → Text) where
    -- A corpus that can be read is cleaned: where the output can be written the exit status is 0, and
    -- reading the output afterwards gives back exactly the cleaned pairs; where it cannot, the
    -- write's error ends the run and no file or object is changed.
    pub main-clean :
        (config : LengthFilterConfig fl) (st : Storage) (input output : Text)
        {pairs : List SentencePair}
        → read_tsv_pairs st input ≡ ok pairs
        → let (ended, st') = main nfc fl (clean input output config) st in
          (ended ≡ (if st.writable output then exit 0 else not_written))
          × (read_tsv_pairs st' output ≡ (
              if st.writable output
              then ok (clean_pairs nfc fl config pairs)
              else read_tsv_pairs st output))
          × ((if st.writable output then st else st') ≡ st)
    unfolding main clean_corpus_file clean_read clean_status write_tsv_pairs write_text
    main-clean config st input output {pairs} h =
        let (distinct, tidy, valid) = clean_pairs_lem nfc fl config pairs in
        rw h (elim (Bool-cases (st.writable output)) [
          | inl writable ↦
              let (done, back) =
                read-write st output (clean_pairs nfc fl config pairs)
                  (All-FitsRow config _ tidy valid) writable in
              rw writable (refl, rw writable at back, refl)
          | inr unwritable ↦ rw unwritable (refl, refl, refl)
        ])

    -- When both corpora can be read, the check of a split ends with status 1 if some pair is in
    -- both, with status 0 exactly if none is, and it changes no file.
    pub main-validate_split :
        (st : Storage) (train_path val_path : Text) {train val : List SentencePair}
        → read_tsv_pairs st train_path ≡ ok train
        → read_tsv_pairs st val_path ≡ ok val
        → let (ended, st') = main nfc fl (validate_split train_path val_path) st in
          ((ended ≡ exit 1) ⊎ (ended ≡ exit 0))
          × ((ended ≡ exit 0) ↔ ((p : SentencePair) → (elem p train && elem p val) ≡ false))
          × (st' ≡ st)
    unfolding main validate_split_files validate_status checked both validate_split_integrity
    main-validate_split st train_path val_path {train} {val} h k =
        let (f, g) = has_exact_overlap_iff train val in
        rw (h, k)
          (elim (Bool-cases (has_exact_overlap (report_of train val))) [
            | inl leak ↦ rw leak (inl refl, (λ e. cc, λ c. cc (g c)), refl)
            | inr none_shared ↦ rw none_shared (inr refl, (λ e. f none_shared, λ c. refl), refl)
          ])
