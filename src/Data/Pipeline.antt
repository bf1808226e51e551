-- ===== src/Data/Pipeline.antt =====
-- ml/data/pipeline.py: a corpus is normalised, deduplicated and filtered, and a split is checked.
pub mod Clean
pub mod Corpus
use es_kaq_translator_v.Base.{ℕ, Bool, true, false, List, map, if◌then◌else◌, pair_eq}
use es_kaq_translator_v.Text.{Text, text_eq}
use es_kaq_translator_v.Data.Normalize.{SentencePair, normalize_pair}
use es_kaq_translator_v.Data.Dedup.{deduplicate_pairs}
use es_kaq_translator_v.Data.LengthFilter.{Floats, LengthFilterConfig, filter_pairs_by_length}
use es_kaq_translator_v.Data.CorpusIo.{
  Storage, Write, written, refused, Read, ok, missing, value_error, read_tsv_pairs, write_tsv_pairs,
}
use es_kaq_translator_v.Data.SplitIntegrity.{
  Checked, reported, split_integrity_error, validate_split_integrity, has_exact_overlap,
}

-- The result of reading two corpora, the first one first.
unfoldable pub both :
    Read (List SentencePair)
    → Read (List SentencePair)
    → Read (List SentencePair × List SentencePair)
both (ok train) (ok val) = ok (train, val)
both (ok train) missing = missing
both (ok train) (value_error n fields) = value_error n fields
both missing val = missing
both (value_error n fields) val = value_error n fields

-- An error of the reading, or the checked report.
unfoldable pub checked : Bool → Read (List SentencePair × List SentencePair) → Read Checked
checked raise_on_overlap (ok (train, val)) =
    ok (validate_split_integrity train val raise_on_overlap)
checked raise_on_overlap missing = missing
checked raise_on_overlap (value_error n fields) = value_error n fields

unfoldable pub validate_split_files : Storage → Text → Text → Bool → Read Checked
validate_split_files st train_path val_path raise_on_overlap =
    checked raise_on_overlap (both (read_tsv_pairs st train_path) (read_tsv_pairs st val_path))

-- The process ends with an exit status, or with the error that reading or writing a corpus raised. The
-- last case is `SplitIntegrityError`.
pub data Ended : Type 0 where
  exit : ℕ → Ended
  no_such_file : Ended
  not_written : Ended
  bad_row : (line_number fields : ℕ) → Ended
  leaked : Ended

unfoldable pub validate_status : Read Checked → Ended
validate_status (ok (reported report)) = if has_exact_overlap report then exit 1 else exit 0
validate_status (ok (split_integrity_error report)) = leaked
validate_status missing = no_such_file
validate_status (value_error n fields) = bad_row n fields

unfoldable pub clean_status : Read (List SentencePair × Write) → Ended
clean_status (ok (cleaned, written)) = exit 0
clean_status (ok (cleaned, refused)) = not_written
clean_status missing = no_such_file
clean_status (value_error n fields) = bad_row n fields

module _ (nfc : Text → Text) (fl : Floats) where
  unfoldable pub clean_pairs : LengthFilterConfig fl → List SentencePair → List SentencePair
  clean_pairs config pairs =
      let normalized = map (λ p. normalize_pair nfc p.0 p.1) pairs in
      filter_pairs_by_length fl config (deduplicate_pairs normalized)

  -- What `clean_corpus_file` does with the pairs that were read: it returns those that it cleaned, unless
  -- the write was refused.
  unfoldable pub clean_read :
      LengthFilterConfig fl
      → Storage
      → Text
      → Read (List SentencePair)
      → Read (List SentencePair × Write) × Storage
  clean_read config st output_path (ok raw_pairs) =
      let cleaned = clean_pairs config raw_pairs in
      let (write, st') = write_tsv_pairs cleaned output_path st in (ok (cleaned, write), st')
  clean_read config st output_path missing = (missing, st)
  clean_read config st output_path (value_error n fields) = (value_error n fields, st)

  unfoldable pub clean_corpus_file :
      LengthFilterConfig fl
      → Storage
      → (input_path output_path : Text) → Read (List SentencePair × Write) × Storage
  clean_corpus_file config st input_path output_path =
      clean_read config st output_path (read_tsv_pairs st input_path)

  pub data Command : Type 0 where
    clean : (input output : Text) → LengthFilterConfig fl → Command
    validate_split : (train val : Text) → Command

  -- The parsed command is run; what it prints is left out.
  unfoldable pub main : Command → Storage → Ended × Storage
  main (clean input output config) st =
      let (cleaned, st') = clean_corpus_file config st input output in (clean_status cleaned, st')
  main (validate_split train val) st =
      (validate_status (validate_split_files st train val false), st)
