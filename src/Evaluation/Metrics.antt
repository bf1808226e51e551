-- ===== src/Evaluation/Metrics.antt =====
-- ml/evaluation/metrics.py: corpus scores, together and by direction.
pub mod Buckets
pub mod Total
use es_kaq_translator_v.Base.{
  ℕ, Bool, true, false, List, [], ◌∷◌, ◌++◌, length, ◌==◌, nat_eq, ◌=?◌, if◌then◌else◌, ◌&&◌, not,
}
use es_kaq_translator_v.Base.Dict.{Dict}
use es_kaq_translator_v.Text.{Text, text_eq}
use es_kaq_translator_v.Api.Result.{Result, ok, raise, value_error}

-- sacrebleu: a corpus against a list of reference streams.
pub record Sacrebleu : Type 1 where
  pub Score : Type 0
  pub corpus_bleu : List Text → List (List Text) → Result Score
  pub corpus_chrf : List Text → List (List Text) → Result Score

pub record MetricsResult (Score : Type 0) : Type 0 where
  pub bleu : Score
  pub chrf : Score
  pub num_sentences : ℕ

-- One sentence: hypothesis, reference and direction, as `zip` pairs them.
abbrev pub Scored : Type 0
Scored = Text × Text × Text

unfoldable pub zip3 : List Text → List Text → List Text → List Scored
zip3 (h ∷ hs) (r ∷ rs) (d ∷ ds) = (h, r, d) ∷ zip3 hs rs ds
zip3 _ _ _ = []

abbrev pub Bucket : Type 0
Bucket = List Text × List Text

-- `buckets.setdefault(direction, ([], []))`, and the two `append`s.
unfoldable pub into_bucket : Scored → Dict Text Bucket → Dict Text Bucket
into_bucket (h, r, d) [] = (d, (h ∷ [], r ∷ [])) ∷ []
into_bucket (h, r, d) ((k, (hs, rs)) ∷ buckets) =
    let rest = into_bucket (h, r, d) buckets in
    if k =? d then (k, (hs ++ (h ∷ []), rs ++ (r ∷ []))) ∷ buckets else (k, (hs, rs)) ∷ rest

unfoldable pub buckets_from : Dict Text Bucket → List Scored → Dict Text Bucket
buckets_from buckets [] = buckets
buckets_from buckets (s ∷ ss) = buckets_from (into_bucket s buckets) ss

module _ (sacrebleu : Sacrebleu) where
  open sacrebleu use {Score, corpus_bleu, corpus_chrf}

  unfoldable pub compute_metrics : List Text → List Text → Result (MetricsResult Score)
  compute_metrics hypotheses references =
      if not (length hypotheses == length references)
      then raise value_error
      else elim (corpus_bleu hypotheses (references ∷ [])) [
        | raise e ↦ raise e
        | ok bleu ↦ elim (corpus_chrf hypotheses (references ∷ [])) [
          | raise e ↦ raise e
          | ok chrf ↦ ok (record { bleu = bleu; chrf = chrf; num_sentences = length hypotheses })
        ]
      ]

  -- The dict comprehension over the buckets.
  unfoldable pub score_buckets : Dict Text Bucket → Result (Dict Text (MetricsResult Score))
  score_buckets [] = ok []
  score_buckets ((d, (hs, rs)) ∷ buckets) =
      let rest = score_buckets buckets in
      elim (compute_metrics hs rs) [
        | raise e ↦ raise e
        | ok m ↦ elim rest [ raise e ↦ raise e | ok ms ↦ ok ((d, m) ∷ ms) ]
      ]

  unfoldable pub compute_metrics_by_direction :
      List Text → List Text → List Text → Result (Dict Text (MetricsResult Score))
  compute_metrics_by_direction hypotheses references directions =
      if length hypotheses == length references && length references == length directions
      then score_buckets (buckets_from [] (zip3 hypotheses references directions))
      else raise value_error
