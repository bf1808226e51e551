-- ===== src/Data/Tests.antt =====
-- The theorems on the corpus modules at small corpora, and runs of the pipeline.
use es_kaq_translator_v.Base.{
  ℕ, ◌≡◌, refl, true, false, List, [], ◌∷◌, ◌++◌, map, All, elem, IsDistinct, ltb, ◌*◌, ◌↔◌, ◌⊎◌,
  ◌&&◌, not, pair_eq, nat_eq, list_beq,
}
use es_kaq_translator_v.Base.Dict.{lookup}
use es_kaq_translator_v.Text.{Text, text, text_eq, starts_with}
use es_kaq_translator_v.Text.Space.{is_space, is_blank, strip, lstrip, rstrip, rstrip_cons}
use es_kaq_translator_v.Text.Split.{split, onto_first}
use es_kaq_translator_v.Text.Lines.{
  is_break, universal_newlines, newlines_from, splitlines, lines_from,
}
use es_kaq_translator_v.Data.Normalize.{
  SentencePair, normalize_text, normalize_pair, squeeze, squeeze_from, normalize_glottal_marks,
  translate_mark,
}
use es_kaq_translator_v.Data.Dedup.{deduplicate_from, deduplicate_pairs, deduplicate_pairs_lem}
use es_kaq_translator_v.Data.LengthFilter.{
  Floats, LengthFilterConfig, is_valid_pair, is_valid_length, filter_pairs_by_length,
}
use es_kaq_translator_v.Data.CorpusIo.{
  Storage, ok, written, read_tsv_pairs, write_tsv_pairs, parse_lines, two_fields, row, with_pair,
  read_text, opened, parsed, ended,
}
use es_kaq_translator_v.Data.CorpusIo.RoundTrip.{FitsRow, fits, read-write}
use es_kaq_translator_v.Data.SplitIntegrity.{
  report_of, report_of_lem, one_sided, noted, is_new_overlap,
}
use es_kaq_translator_v.Data.Pipeline.{clean_pairs, main, clean, validate_split, exit}
use es_kaq_translator_v.Data.Pipeline.Clean.{IsTidyPair, clean_pairs_lem}
use es_kaq_translator_v.Data.Pipeline.Corpus.{main-clean, main-validate_split}

-- A quotient as the two numbers, and `m / n > p / q` where `m * q` is the larger product.
abbrev quotients : Floats
quotients = record { Float = ℕ × ℕ; div = λ m n. (m, n); gt = λ a b. ltb (b.0 * a.1) (a.0 * b.1) }

abbrev config : LengthFilterConfig quotients
config = record { min_length = 1; max_length = 400; max_ratio = (4, 1) }

abbrev same : Text → Text
same t = t

abbrev sun : SentencePair
sun = (text "sol", text "q'ij")

abbrev dog : SentencePair
dog = (text "perro", text "tz'i'")

abbrev raw : List SentencePair
raw = (text " sol ", text "q'ij") ∷ sun ∷ dog ∷ []

abbrev empty : Storage
empty = record { writable = λ p. true; files = []; objects = [] }

abbrev corpus : Storage
corpus = record {
  writable = λ p. true;
  files = (text "raw", text "sol\tq'ij\nperro\ttz'i'\n") ∷ [];
  objects = [];
}

deduplicate_pairs_lem_example :
    ((a : SentencePair)
      → elem a (deduplicate_pairs (sun ∷ dog ∷ sun ∷ [])) ≡ elem a (sun ∷ dog ∷ sun ∷ []))
    × IsDistinct (deduplicate_pairs (sun ∷ dog ∷ sun ∷ []))
    × (deduplicate_pairs ((sun ∷ dog ∷ sun ∷ []) ++ (dog ∷ []))
        ≡ deduplicate_pairs (sun ∷ dog ∷ sun ∷ [])
          ++ deduplicate_from (sun ∷ dog ∷ sun ∷ []) (dog ∷ []))
    × ((a : SentencePair)
        → elem a (deduplicate_from (sun ∷ dog ∷ sun ∷ []) (dog ∷ []))
          ≡ (not (elem a (sun ∷ dog ∷ sun ∷ [])) && elem a (dog ∷ [])))
deduplicate_pairs_lem_example = deduplicate_pairs_lem (sun ∷ dog ∷ sun ∷ []) (dog ∷ [])

sun-FitsRow : FitsRow sun
unfolding fits is_break is_blank strip lstrip rstrip rstrip_cons row is_space
sun-FitsRow = record {
  es_fits = (refl, (refl, (refl, tt)));
  cak_fits = (refl, (refl, (refl, (refl, tt))));
  visible = refl;
}

read-write_example :
    let (write, st') = write_tsv_pairs (sun ∷ []) (text "s3://b/k") empty in
    (write ≡ written) × (read_tsv_pairs st' (text "s3://b/k") ≡ ok (sun ∷ []))
read-write_example = read-write empty (text "s3://b/k") (sun ∷ []) (sun-FitsRow, tt) refl

abbrev two : List SentencePair
two = sun ∷ dog ∷ []

abbrev val : List SentencePair
val = dog ∷ (text "sol", text "ab'") ∷ []

report_of_lem_example :
    let r = report_of two val in
    ((p : SentencePair) → elem p r.exact_pair_overlap ≡ (elem p two && elem p val))
    × ((s : Text)
        → elem s r.source_overlap ≡ (elem s (map (λ p. p.0) two) && elem s (map (λ p. p.0) val)))
    × ((s : Text)
        → elem s r.target_overlap ≡ (elem s (map (λ p. p.1) two) && elem s (map (λ p. p.1) val)))
    × IsDistinct r.exact_pair_overlap
    × IsDistinct r.source_overlap
    × IsDistinct r.target_overlap
report_of_lem_example = report_of_lem two val

clean_pairs_lem_example :
    let cleaned = clean_pairs same quotients config raw in
    IsDistinct cleaned
    × All IsTidyPair cleaned
    × All (λ p. is_valid_length quotients config p.0 p.1 ≡ true) cleaned
clean_pairs_lem_example = clean_pairs_lem same quotients config raw

corpus-two : read_tsv_pairs corpus (text "raw") ≡ ok two
unfolding read_tsv_pairs read_text opened parsed parse_lines two_fields with_pair starts_with
    universal_newlines newlines_from splitlines lines_from is_break is_blank strip lstrip rstrip
    rstrip_cons is_space split onto_first lookup list_beq
corpus-two = refl

main-clean_example :
    let (ended, st') = main same quotients (clean (text "raw") (text "out") config) corpus in
    (ended ≡ exit 0)
    × (read_tsv_pairs st' (text "out") ≡ ok (clean_pairs same quotients config two))
    × (corpus ≡ corpus)
main-clean_example = main-clean quotients same config corpus (text "raw") (text "out") corpus-two

main-validate_split_example :
    let (ended, st') = main same quotients (validate_split (text "raw") (text "raw")) corpus in
    ((ended ≡ exit 1) ⊎ (ended ≡ exit 0))
    × ((ended ≡ exit 0) ↔ ((p : SentencePair) → (elem p two && elem p two) ≡ false))
    × (st' ≡ corpus)
main-validate_split_example =
    main-validate_split quotients same corpus (text "raw") (text "raw") corpus-two corpus-two

-- The duplicate that differs in its spaces is dropped; a longer corpus is kept in its order.
program : Unit {0}
unfolding clean_pairs normalize_pair normalize_text squeeze squeeze_from normalize_glottal_marks
    translate_mark filter_pairs_by_length is_valid_length is_valid_pair deduplicate_pairs
    deduplicate_from is_space strip lstrip rstrip rstrip_cons report_of one_sided noted
    is_new_overlap list_beq
program =
    let cleaned : clean_pairs same quotients config raw ≡ two = refl in
    let leaks : (report_of two val).exact_pair_overlap ≡ dog ∷ [] = refl in
    let sources : (report_of two val).source_overlap ≡ dog.0 ∷ sun.0 ∷ [] = refl in
    let targets : (report_of two val).target_overlap ≡ dog.1 ∷ [] = refl in tt
