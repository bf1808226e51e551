-- ===== src/Evaluation/Metrics/Buckets.antt =====
-- ml/evaluation/metrics.py: the buckets by direction, against the sentences of each direction.
use es_kaq_translator_v.Base.{
  ◌≡◌, refl, ap, ◌∙◌, Bool, true, false, List, [], ◌∷◌, ◌++◌, map, length, ◌==◌, nat_eq, ◌=?◌,
  if◌then◌else◌, ◌&&◌, not, arith, filter_b, elem, IsDistinct, IsDistinct-filter, elem-filter,
  Bool-cases, inl, inr, append-nil, append_assoc, beq_refl, length-map,
}
use es_kaq_translator_v.Base.Dict.{Dict}
use es_kaq_translator_v.Text.{Text, text_eq}
use es_kaq_translator_v.Api.Result.{Result, ok, raise, value_error, and_then, Result-cases}
use es_kaq_translator_v.Evaluation.Metrics.{
  Sacrebleu, MetricsResult, compute_metrics, Scored, zip3, Bucket, into_bucket, buckets_from,
  score_buckets, compute_metrics_by_direction,
}

-- Each direction once, in the order of its first sentence.
abbrev pub firsts : List Text → List Text
firsts [] = []
firsts (d ∷ ds) = d ∷ filter_b (λ k. not (k =? d)) (firsts ds)

-- The sentences of one direction, in order.
abbrev pub of_direction : Text → List Scored → List Scored
of_direction d = filter_b (λ s. s.2 =? d)

abbrev pub bucket_of : List Scored → Text → Text × Bucket
bucket_of rows d = (d, (map (λ s. s.0) (of_direction d rows), map (λ s. s.1) (of_direction d rows)))

elem-firsts : (d : Text) (ds : List Text) → elem d (firsts ds) ≡ elem d ds
elem-firsts d [] = refl
elem-firsts d (x ∷ ds) = ground (
  arith,
  elem-filter (λ k. not (k =? x)) d (firsts ds),
  elem-firsts d ds,
  text_eq.beq_iff x d,
  text_eq.beq_iff d x,
)

IsDistinct-firsts : (ds : List Text) → IsDistinct (firsts ds)
IsDistinct-firsts [] = tt
IsDistinct-firsts (x ∷ ds) = (
  ground (arith, elem-filter (λ k. not (k =? x)) x (firsts ds), beq_refl x),
  IsDistinct-filter (λ k. not (k =? x)) (firsts ds) (IsDistinct-firsts ds),
)

filter-append :
    {A : Type 0} (p : A → Bool) (xs ys : List A)
    → filter_b p (xs ++ ys) ≡ filter_b p xs ++ filter_b p ys
filter-append p [] ys = refl
filter-append p (x ∷ xs) ys = ground (arith, filter-append p xs ys)

firsts-append :
    (ds : List Text) (d : Text)
    → firsts (ds ++ (d ∷ [])) ≡ (if elem d ds then firsts ds else firsts ds ++ (d ∷ []))
firsts-append [] d = refl
firsts-append (x ∷ ds) d = elim (Bool-cases (elem d ds)) [
  | inl old ↦ rw (firsts-append ds d, old) (ground (arith, text_eq.beq_iff x d))
  | inr new ↦
      rw (firsts-append ds d, new, filter-append (λ k. not (k =? x)) (firsts ds) (d ∷ []))
        (elim (Bool-cases (x =? d)) [
          | inl same ↦
              let d_x : (d =? x) ≡ true =
                ground (arith, text_eq.beq_iff x d, text_eq.beq_iff d x) in
              rw (same, d_x, append-nil (filter_b (λ k. not (k =? x)) (firsts ds))) refl
          | inr other ↦
              let d_x : (d =? x) ≡ false =
                ground (arith, text_eq.beq_iff x d, text_eq.beq_iff d x) in
              rw (other, d_x) refl
        ])
]

-- One more sentence leaves the sentences of another direction as they are.
bucket_of-other :
    (rows : List Scored) (s : Scored) (d : Text)
    → (s.2 =? d) ≡ false
    → bucket_of (rows ++ (s ∷ [])) d ≡ bucket_of rows d
bucket_of-other rows s d e =
    rw (filter-append (λ t. t.2 =? d) rows (s ∷ []), e, append-nil (of_direction d rows)) refl

map-append : {A B : Type 0} (f : A → B) (xs ys : List A) → map f (xs ++ ys) ≡ map f xs ++ map f ys
map-append f [] ys = refl
map-append f (x ∷ xs) ys = ap (◌∷◌ (f x)) (map-append f xs ys)

bucket_of-same :
    (rows : List Scored) (s : Scored)
    → bucket_of (rows ++ (s ∷ [])) s.2 ≡ (
      s.2,
      (
        map (λ t. t.0) (of_direction s.2 rows) ++ (s.0 ∷ []),
        map (λ t. t.1) (of_direction s.2 rows) ++ (s.1 ∷ []),
      ),
    )
bucket_of-same rows s =
    rw
      (
        filter-append (λ t. t.2 =? s.2) rows (s ∷ []),
        beq_refl s.2,
        map-append (λ t. t.0) (of_direction s.2 rows) (s ∷ []),
        map-append (λ t. t.1) (of_direction s.2 rows) (s ∷ []),
      )
      refl

-- A direction that is not among `ds` has its bucket appended, and the others stay.
into_bucket-new :
    (rows : List Scored) (s : Scored) (ds : List Text)
    → elem s.2 ds ≡ false
    → into_bucket s (map (bucket_of rows) ds)
      ≡ map (bucket_of (rows ++ (s ∷ []))) ds ++ ((s.2, (s.0 ∷ [], s.1 ∷ [])) ∷ [])
unfolding into_bucket
into_bucket-new rows (h, r, d) [] e = refl
into_bucket-new rows (h, r, d) (k ∷ ds) e = elim (Bool-cases (k =? d)) [
  | inl same ↦ cc
  | inr other ↦
      rw
        (
          other,
          bucket_of-other rows (h, r, d) k
              (ground (arith, text_eq.beq_iff k d, text_eq.beq_iff d k)),
          into_bucket-new rows (h, r, d) ds (ground arith),
        )
        refl
]

map-others :
    (rows : List Scored) (s : Scored) (ds : List Text)
    → elem s.2 ds ≡ false
    → map (bucket_of (rows ++ (s ∷ []))) ds ≡ map (bucket_of rows) ds
map-others rows s [] e = refl
map-others rows s (k ∷ ds) e =
    let k_ne : (s.2 =? k) ≡ false = ground (arith, text_eq.beq_iff k s.2, text_eq.beq_iff s.2 k) in
    rw (bucket_of-other rows s k k_ne, map-others rows s ds (ground arith)) refl

into_bucket-old :
    (rows : List Scored) (s : Scored) (ds : List Text)
    → IsDistinct ds
    → elem s.2 ds ≡ true
    → into_bucket s (map (bucket_of rows) ds) ≡ map (bucket_of (rows ++ (s ∷ []))) ds
unfolding into_bucket
into_bucket-old rows (h, r, d) [] distinct e = cc
into_bucket-old rows (h, r, d) (k ∷ ds) distinct e = elim (Bool-cases (k =? d)) [
  | inl same ↦
      let k_d = (text_eq.beq_iff k d).0 same in
      let fresh : elem d ds ≡ false = rw (← k_d) distinct.0 in
      rw (same, k_d, map-others rows (h, r, d) ds fresh, bucket_of-same rows (h, r, d)) refl
  | inr other ↦
      rw
        (
          other,
          bucket_of-other rows (h, r, d) k
              (ground (arith, text_eq.beq_iff k d, text_eq.beq_iff d k)),
          into_bucket-old rows (h, r, d) ds distinct.1 (ground arith),
        )
        refl
]

-- What the loop has after the sentences of `rows`.
abbrev buckets_of : List Scored → Dict Text Bucket
buckets_of rows = map (bucket_of rows) (firsts (map (λ s. s.2) rows))

of_direction_absent :
    (d : Text) (rows : List Scored)
    → elem d (map (λ s. s.2) rows) ≡ false
    → of_direction d rows ≡ []
of_direction_absent d [] e = refl
of_direction_absent d (s ∷ rows) e = ground (arith, of_direction_absent d rows)

into_bucket-buckets_of :
    (rows : List Scored) (s : Scored)
    → into_bucket s (buckets_of rows) ≡ buckets_of (rows ++ (s ∷ []))
into_bucket-buckets_of rows s =
    let ds = map (λ t. t.2) rows in
    let keys : firsts (map (λ t. t.2) (rows ++ (s ∷ [])))
        ≡ (if elem s.2 ds then firsts ds else firsts ds ++ (s.2 ∷ [])) =
      ap firsts (map-append (λ t. t.2) rows (s ∷ [])) ∙ firsts-append ds s.2 in
    elim (Bool-cases (elem s.2 ds)) [
      | inl old ↦
          rw (keys, old)
            (into_bucket-old rows s (firsts ds) (IsDistinct-firsts ds) (elem-firsts s.2 ds ∙ old))
      | inr new ↦
          rw
            (
              keys,
              new,
              into_bucket-new rows s (firsts ds) (elem-firsts s.2 ds ∙ new),
              map-append (bucket_of (rows ++ (s ∷ []))) (firsts ds) (s.2 ∷ []),
              bucket_of-same rows s,
              of_direction_absent s.2 rows new,
            )
            refl
    ]

buckets_from_lem :
    (pre rows : List Scored) → buckets_from (buckets_of pre) rows ≡ buckets_of (pre ++ rows)
unfolding buckets_from
buckets_from_lem pre [] = rw (append-nil pre) refl
buckets_from_lem pre (s ∷ rows) =
    rw
      (
        into_bucket-buckets_of pre s,
        buckets_from_lem (pre ++ (s ∷ [])) rows,
        append_assoc pre (s ∷ []) rows,
      )
      refl

zip3-directions :
    (hs rs ds : List Text)
    → length hs ≡ length rs
    → length rs ≡ length ds
    → map (λ s. s.2) (zip3 hs rs ds) ≡ ds
unfolding zip3
zip3-directions [] [] [] e f = refl
zip3-directions [] [] (d ∷ ds) e f = absurd (omega arith)
zip3-directions [] (r ∷ rs) ds e f = absurd (omega arith)
zip3-directions (h ∷ hs) [] ds e f = absurd (omega arith)
zip3-directions (h ∷ hs) (r ∷ rs) [] e f = absurd (omega arith)
zip3-directions (h ∷ hs) (r ∷ rs) (d ∷ ds) e f =
    ap (◌∷◌ d) (zip3-directions hs rs ds (omega arith) (omega arith))

module _ (sacrebleu : Sacrebleu) where
  open sacrebleu use {Score}

  -- sacrebleu's two scores of some sentences against one stream of references, and their number.
  abbrev pub scores_of : (hs rs : List Text) → Result (MetricsResult Score)
  scores_of hs rs = and_then (sacrebleu.corpus_bleu hs (rs ∷ [])) (λ b.
      and_then (sacrebleu.corpus_chrf hs (rs ∷ []))
        (λ c. ok (record { bleu = b; chrf = c; num_sentences = length hs })))

  -- The directions with the scores of exactly their own hypotheses and references, up to the first
  -- error.
  abbrev pub scored : List Scored → List Text → Result (Dict Text (MetricsResult Score))
  scored rows [] = ok []
  scored rows (d ∷ ds) =
      let own = of_direction d rows in
      and_then (scores_of (map (λ s. s.0) own) (map (λ s. s.1) own))
        (λ m. and_then (scored rows ds) (λ ms. ok ((d, m) ∷ ms)))

  pub compute_metrics-scores_of :
      (hs rs : List Text)
      → (length hs == length rs) ≡ true
      → compute_metrics sacrebleu hs rs ≡ scores_of hs rs
  unfolding compute_metrics
  compute_metrics-scores_of hs rs same = elim (Result-cases (sacrebleu.corpus_bleu hs (rs ∷ []))) [
    | inr (x, out) ↦ rw (same, out) refl
    | inl (b, found) ↦ elim (Result-cases (sacrebleu.corpus_chrf hs (rs ∷ []))) [
      | inr (x, out) ↦ rw (same, found, out) refl
      | inl (c, found') ↦ rw (same, found, found') refl
    ]
  ]

  same_lengths :
      (rows : List Scored) → (length (map (λ s. s.0) rows) == length (map (λ s. s.1) rows)) ≡ true
  same_lengths rows =
      ground (arith, length-map (λ (s : Scored). s.0) rows, length-map (λ (s : Scored). s.1) rows)

  pub score_buckets-scored :
      (rows : List Scored) (ds : List Text)
      → score_buckets sacrebleu (map (bucket_of rows) ds) ≡ scored rows ds
  unfolding score_buckets
  score_buckets-scored rows [] = refl
  score_buckets-scored rows (d ∷ ds) =
      let own = of_direction d rows in
      let hs = map (λ s. s.0) own in
      let rs = map (λ s. s.1) own in
      let here = compute_metrics-scores_of hs rs (same_lengths own) in
      elim (Result-cases (scores_of hs rs)) [
        | inr (x, out) ↦ rw (score_buckets, here, out) refl
        | inl (m, found) ↦ elim (Result-cases (scored rows ds)) [
          | inr (x, out) ↦ rw (score_buckets, here, found, score_buckets-scored rows ds, out) refl
          | inl (ms, rest) ↦
              rw (score_buckets, here, found, score_buckets-scored rows ds, rest) refl
        ]
      ]

  -- With three lists of one length, each direction is scored once, in the order of its first
  -- sentence, by sacrebleu's BLEU and chrF on the hypotheses and references of exactly its own
  -- sentences, in their order, which are counted; with lists of different lengths the call raises
  -- `ValueError`, and otherwise an error is one of sacrebleu's.
  pub compute_metrics_by_direction_lem :
      (hs rs ds : List Text)
      → compute_metrics_by_direction sacrebleu hs rs ds ≡ (
          if length hs == length rs && length rs == length ds
          then scored (zip3 hs rs ds) (firsts ds)
          else raise value_error)
  unfolding compute_metrics_by_direction
  compute_metrics_by_direction_lem hs rs ds =
      elim (Bool-cases (length hs == length rs && length rs == length ds)) [
        | inl same ↦
            let keys = zip3-directions hs rs ds (ground arith) (ground arith) in
            rw same (
              ap (score_buckets sacrebleu) (
                buckets_from_lem [] (zip3 hs rs ds)
                ∙ ap (λ k. map (bucket_of (zip3 hs rs ds)) (firsts k)) keys)
              ∙ score_buckets-scored (zip3 hs rs ds) (firsts ds))
        | inr other ↦ rw other refl
      ]
