-- ===== src/Data/GluedWords.antt =====
-- ml/data/glued_word_signal.py: words that look like a prefix glued to another word.
pub mod Candidate
use es_kaq_translator_v.Base.{
  ℕ, suc, ◌+◌, ◌≤◌, ◌≡◌, refl, Bool, true, false, Bool-cases, inl, inr, ◌⊎◌, Option, none, some,
  List, [], ◌∷◌, map, length, drop, elem, leb, ltb, ◌&&◌, ◌||◌, ◌=?◌, if◌then◌else◌, arith,
}
use es_kaq_translator_v.Base.Dict.{Dict, lookup, insert}
use es_kaq_translator_v.Text.{Text, text, text_eq, starts_with}

-- `frequencies.get(word, 0)`
unfoldable pub count_of : Text → Dict Text ℕ → ℕ
count_of word frequencies = elim (lookup word frequencies) [ none ↦ 0 | some n ↦ n ]

unfoldable pub add_words : (lower : Text → Text) → List Text → Dict Text ℕ → Dict Text ℕ
add_words lower [] counts = counts
add_words lower (word ∷ words) counts =
    let form = lower word in add_words lower words (insert form (count_of form counts + 1) counts)

-- `str.lower` and the words that `_WORD_RE` finds are parameters.
unfoldable pub count_sentences :
    (lower : Text → Text) (find_words : Text → List Text) → List Text → Dict Text ℕ → Dict Text ℕ
count_sentences lower find_words [] counts = counts
count_sentences lower find_words (sentence ∷ sentences) counts =
    count_sentences lower find_words sentences (add_words lower (find_words sentence) counts)

unfoldable pub build_word_frequencies :
    (lower : Text → Text) (find_words : Text → List Text) → List Text → Dict Text ℕ
build_word_frequencies lower find_words sentences = count_sentences lower find_words sentences []

pub record Thresholds : Type 0 where
  pub max_word_frequency : ℕ
  pub min_suffix_frequency : ℕ
  pub min_suffix_length : ℕ

-- What follows a prefix is long and frequent enough.
unfoldable pub is_glue : Thresholds → Dict Text ℕ → (lowered prefix : Text) → Bool
is_glue t frequencies lowered prefix =
    let suffix = drop (length prefix) lowered in
    starts_with lowered prefix
    && leb t.min_suffix_length (length suffix)
    && leb t.min_suffix_frequency (count_of suffix frequencies)

-- `best_prefix is None or len(prefix) > len(best_prefix)`
unfoldable pub is_better : Text → Option Text → Bool
is_better prefix none = true
is_better prefix (some best) = ltb (length best) (length prefix)

unfoldable pub best_prefix : (Text → Bool) → List Text → Option Text → Option Text
best_prefix ok [] best = best
best_prefix ok (prefix ∷ prefixes) best =
    best_prefix ok prefixes (if ok prefix && is_better prefix best then some prefix else best)

unfoldable pub find_glued_word_candidate :
    (lower : Text → Text)
    → Thresholds
    → Dict Text ℕ
    → (prefixes : List Text) → (word : Text) → Option Text
find_glued_word_candidate lower t frequencies prefixes word =
    let lowered = lower word in
    if ltb t.max_word_frequency (count_of lowered frequencies)
    then none
    else best_prefix (is_glue t frequencies lowered) prefixes none

-- The state of the scan: the words seen, and the candidates counted by prefix.
pub record Scan : Type 0 where
  pub seen_words : List Text
  pub candidate_counts_by_prefix : Dict Text ℕ
  pub num_candidate_words : ℕ

unfoldable pub counted : Option Text → Scan → Scan
counted none scan = scan
counted (some prefix) scan =
    let counts = scan.candidate_counts_by_prefix in
    record scan {
      candidate_counts_by_prefix = insert prefix (count_of prefix counts + 1) counts;
      num_candidate_words = scan.num_candidate_words + 1;
    }

-- The loop over the words, for `candidate` of a word in lower case; `seen_words` is a set.
unfoldable pub scan_words : (candidate : Text → Option Text) → List Text → Scan → Scan
scan_words candidate [] scan = scan
scan_words candidate (lowered ∷ words) scan =
    let next =
      counted (candidate lowered) (record scan { seen_words = lowered ∷ scan.seen_words }) in
    scan_words candidate words (if elem lowered scan.seen_words then scan else next)

unfoldable pub scan_sentences :
    (lower : Text → Text) (find_words : Text → List Text)
    → (candidate : Text → Option Text) → List Text
    → Scan
    → Scan
scan_sentences lower find_words candidate [] scan = scan
scan_sentences lower find_words candidate (sentence ∷ sentences) scan =
    scan_sentences lower find_words candidate sentences
      (scan_words candidate (map lower (find_words sentence)) scan)

-- What the report says of the candidates, for the Spanish sentences of a corpus.
unfoldable pub scan_candidates :
    (lower : Text → Text) (find_words : Text → List Text)
    → Thresholds
    → (prefixes es_sentences : List Text) → Scan
scan_candidates lower find_words t prefixes es_sentences =
    let frequencies = build_word_frequencies lower find_words es_sentences in
    scan_sentences lower find_words (find_glued_word_candidate lower t frequencies prefixes)
      es_sentences
      (record { seen_words = []; candidate_counts_by_prefix = []; num_candidate_words = 0 })
