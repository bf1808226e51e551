-- ===== src/Evaluation/Metrics/Total.antt =====
-- ml/evaluation/metrics.py: the sentences that the scores by direction count.
use es_kaq_translator_v.Base.{
  ℕ, ◌+◌, ◌≡◌, refl, List, [], ◌∷◌, length, ◌==◌, nat_eq, ◌=?◌, ◌&&◌, arith, Bool-cases, inl, inr,
  length-append,
}
use es_kaq_translator_v.Base.Dict.{Dict}
use es_kaq_translator_v.Text.{Text, text_eq}
use es_kaq_translator_v.Api.Result.{ok, Result-cases}
use es_kaq_translator_v.Evaluation.Metrics.{
  Sacrebleu, MetricsResult, Scored, zip3, Bucket, into_bucket, buckets_from, compute_metrics,
  score_buckets, compute_metrics_by_direction,
}

bucket_total : Dict Text Bucket → ℕ
bucket_total [] = 0
bucket_total ((d, b) ∷ buckets) = length b.0 + bucket_total buckets

into_bucket-total :
    (s : Scored) (b : Dict Text Bucket) → bucket_total (into_bucket s b) ≡ 1 + bucket_total b
unfolding into_bucket bucket_total
into_bucket-total (h, r, d) [] = refl
into_bucket-total (h, r, d) ((k, (hs, rs)) ∷ b) = elim (Bool-cases (k =? d)) [
  | inl same ↦ rw same (omega (arith, length-append hs (h ∷ [])))
  | inr other ↦ rw other (omega (arith, into_bucket-total (h, r, d) b))
]

buckets_from-total :
    (ss : List Scored) (b : Dict Text Bucket)
    → bucket_total (buckets_from b ss) ≡ length ss + bucket_total b
unfolding buckets_from
buckets_from-total [] b = omega arith
buckets_from-total (s ∷ ss) b =
    omega (arith, buckets_from-total ss (into_bucket s b), into_bucket-total s b)

length-zip3 :
    (hs rs ds : List Text)
    → length hs ≡ length rs
    → length rs ≡ length ds
    → length (zip3 hs rs ds) ≡ length hs
unfolding zip3
length-zip3 [] rs ds e f = refl
length-zip3 (h ∷ hs) [] ds e f = absurd (omega arith)
length-zip3 (h ∷ hs) (r ∷ rs) [] e f = absurd (omega arith)
length-zip3 (h ∷ hs) (r ∷ rs) (d ∷ ds) e f =
    omega (arith, length-zip3 hs rs ds (omega arith) (omega arith))

module _ (sacrebleu : Sacrebleu) where
  open sacrebleu use {Score}

  compute_metrics-count :
      (hs rs : List Text) (m : MetricsResult Score)
      → compute_metrics sacrebleu hs rs ≡ ok m
      → m.num_sentences ≡ length hs
  unfolding compute_metrics
  compute_metrics-count hs rs m e = ground arith

  -- The sentences that the scores count together.
  abbrev pub total : Dict Text (MetricsResult Score) → ℕ
  total [] = 0
  total ((d, m) ∷ ms) = m.num_sentences + total ms

  score_buckets-total :
      (b : Dict Text Bucket) (ms : Dict Text (MetricsResult Score))
      → score_buckets sacrebleu b ≡ ok ms
      → total ms ≡ bucket_total b
  unfolding score_buckets bucket_total
  score_buckets-total [] ms e = ground arith
  score_buckets-total ((d, (hs, rs)) ∷ b) ms e =
      elim (Result-cases (compute_metrics sacrebleu hs rs)) [
        | inr (x, f) ↦ ground arith
        | inl (m, f) ↦ elim (Result-cases (score_buckets sacrebleu b)) [
          | inr (x, g) ↦ ground arith
          | inl (rest, g) ↦
              ground (arith, score_buckets-total b rest g, compute_metrics-count hs rs m f)
        ]
      ]

  -- When the scores by direction are returned, the sentences that they count are together as many
  -- as the hypotheses.
  pub compute_metrics_by_direction-total :
      (hs rs ds : List Text) (ms : Dict Text (MetricsResult Score))
      → compute_metrics_by_direction sacrebleu hs rs ds ≡ ok ms
      → total ms ≡ length hs
  unfolding compute_metrics_by_direction bucket_total
  compute_metrics_by_direction-total hs rs ds ms e =
      elim (Bool-cases (length hs == length rs && length rs == length ds)) [
        | inr other ↦ ground arith
        | inl same ↦
            let scored : score_buckets sacrebleu (buckets_from [] (zip3 hs rs ds)) ≡ ok ms =
              ground arith in
            ground (
              arith,
              score_buckets-total (buckets_from [] (zip3 hs rs ds)) ms scored,
              buckets_from-total (zip3 hs rs ds) [],
              length-zip3 hs rs ds (ground arith) (ground arith),
            )
      ]
