-- ===== src/Data/SplitIntegrity.antt =====
-- ml/data/split_integrity.py: what a train split and a validation split share.
use es_kaq_translator_v.Base.{
  ◌≡◌, refl, ◌∙◌, Bool, true, false, List, [], ◌∷◌, map, elem, IsDistinct, ◌&&◌, not, if◌then◌else◌,
  pair_eq, length, ltb, filter_b, Eq, elem-filter, arith, beq_refl, ◌↔◌, Bool-cases, inl, inr, ◌⊎◌,
  sym,
}
use es_kaq_translator_v.Text.{Text, text_eq}
use es_kaq_translator_v.Data.Normalize.{SentencePair}
use es_kaq_translator_v.Data.Dedup.{deduplicate_from, deduplicate_pairs, deduplicate_pairs_lem}

pub record SplitIntegrityReport : Type 0 where
  pub exact_pair_overlap : List SentencePair
  pub source_overlap : List Text
  pub target_overlap : List Text

unfoldable pub has_exact_overlap : SplitIntegrityReport → Bool
has_exact_overlap report = ltb 0 (length report.exact_pair_overlap)

-- `SplitIntegrityError` holds the report that it was raised for.
pub data Checked : Type 0 where
  reported : SplitIntegrityReport → Checked
  split_integrity_error : SplitIntegrityReport → Checked

-- `s in train and s not in seen`
unfoldable pub is_new_overlap : List Text → List Text → Text → Bool
is_new_overlap train seen s = elem s train && not (elem s seen)

unfoldable pub noted : Bool → Text → List Text → List Text
noted b s ss = if b then s ∷ ss else ss

-- The loop over the validation pairs, for both sides at once.
unfoldable pub one_sided :
    (sources targets seen_sources seen_targets : List Text)
    → List SentencePair
    → List Text × List Text
one_sided sources targets seen_sources seen_targets [] = ([], [])
one_sided sources targets seen_sources seen_targets ((es, cak) ∷ pairs) =
    let s = is_new_overlap sources seen_sources es in
    let t = is_new_overlap targets seen_targets cak in
    let rest =
      one_sided sources targets (noted s es seen_sources) (noted t cak seen_targets) pairs in
    (noted s es rest.0, noted t cak rest.1)

unfoldable pub report_of : (train_pairs val_pairs : List SentencePair) → SplitIntegrityReport
report_of train_pairs val_pairs =
    let sides =
      one_sided (map (λ p. p.0) train_pairs) (map (λ p. p.1) train_pairs) [] [] val_pairs in
    record {
      exact_pair_overlap = deduplicate_pairs (filter_b (λ p. elem p train_pairs) val_pairs);
      source_overlap = sides.0;
      target_overlap = sides.1;
    }

unfoldable pub validate_split_integrity :
    (train_pairs val_pairs : List SentencePair) → Bool → Checked
validate_split_integrity train_pairs val_pairs raise_on_overlap =
    let report = report_of train_pairs val_pairs in
    if raise_on_overlap && has_exact_overlap report
    then split_integrity_error report
    else reported report

first_overlap : List Text → List Text → List Text → List Text
first_overlap train seen xs = deduplicate_from seen (filter_b (λ s. elem s train) xs)

noted_first :
    (train seen xs : List Text) (x : Text)
    → first_overlap train seen (x ∷ xs)
      ≡ noted
          (is_new_overlap train seen x)
          x
          (first_overlap train (noted (is_new_overlap train seen x) x seen) xs)
unfolding first_overlap noted is_new_overlap deduplicate_from
noted_first train seen xs x = elim (Bool-cases (elem x train)) [
  | inl known ↦ elim (Bool-cases (elem x seen)) [
    | inl old ↦ rw (known, old, deduplicate_from) refl
    | inr new ↦ rw (known, new, deduplicate_from) refl
  ]
  | inr unknown ↦ rw unknown refl
]

-- The loop finds, on each side, the first occurrences of what the training pairs hold.
one_sided_lem :
    (sources targets ss st : List Text) (pairs : List SentencePair)
    → one_sided sources targets ss st pairs ≡ (
      first_overlap sources ss (map (λ p. p.0) pairs),
      first_overlap targets st (map (λ p. p.1) pairs),
    )
unfolding one_sided
one_sided_lem sources targets ss st [] = unfold first_overlap deduplicate_from in refl
one_sided_lem sources targets ss st ((es, cak) ∷ pairs) =
    let s = is_new_overlap sources ss es in
    let t = is_new_overlap targets st cak in
    rw
      (
        one_sided_lem sources targets (noted s es ss) (noted t cak st) pairs,
        noted_first sources ss (map (λ p. p.0) pairs) es,
        noted_first targets st (map (λ p. p.1) pairs) cak,
      )
      refl

elem-overlap :
    {A : Type 0} ⦃e : Eq A⦄ (train xs : List A) (a : A)
    → elem a (deduplicate_pairs (filter_b (λ x. elem x train) xs)) ≡ (elem a train && elem a xs)
elem-overlap train xs a =
    let overlap = filter_b (λ x. elem x train) xs in
    (deduplicate_pairs_lem overlap []).0 a ∙ elem-filter (λ x. elem x train) a xs

sources-overlap :
    (train val : List SentencePair)
    → (report_of train val).source_overlap
      ≡ deduplicate_pairs (filter_b (λ s. elem s (map (λ p. p.0) train)) (map (λ p. p.0) val))
unfolding report_of
sources-overlap train val =
    rw (one_sided_lem (map (λ p. p.0) train) (map (λ p. p.1) train) [] [] val)
      (unfold first_overlap deduplicate_pairs in refl)

targets-overlap :
    (train val : List SentencePair)
    → (report_of train val).target_overlap
      ≡ deduplicate_pairs (filter_b (λ s. elem s (map (λ p. p.1) train)) (map (λ p. p.1) val))
unfolding report_of
targets-overlap train val =
    rw (one_sided_lem (map (λ p. p.0) train) (map (λ p. p.1) train) [] [] val)
      (unfold first_overlap deduplicate_pairs in refl)

overlap_IsDistinct :
    {A : Type 0} ⦃e : Eq A⦄ (train xs : List A)
    → IsDistinct (deduplicate_pairs (filter_b (λ x. elem x train) xs))
overlap_IsDistinct train xs = (deduplicate_pairs_lem (filter_b (λ x. elem x train) xs) []).1

-- Each of the three overlaps of the report holds, each once, exactly what both splits hold: their
-- common pairs, their common sources and their common targets.
pub report_of_lem :
    (train val : List SentencePair)
    → let r = report_of train val in
      ((p : SentencePair) → elem p r.exact_pair_overlap ≡ (elem p train && elem p val))
      × ((s : Text)
          → elem s r.source_overlap
            ≡ (elem s (map (λ p. p.0) train) && elem s (map (λ p. p.0) val)))
      × ((s : Text)
          → elem s r.target_overlap
            ≡ (elem s (map (λ p. p.1) train) && elem s (map (λ p. p.1) val)))
      × IsDistinct r.exact_pair_overlap
      × IsDistinct r.source_overlap
      × IsDistinct r.target_overlap
report_of_lem train val =
    rw (sources-overlap train val, targets-overlap train val)
      (unfold report_of in
        (
          elem-overlap train val,
          elem-overlap (map (λ p. p.0) train) (map (λ p. p.0) val),
          elem-overlap (map (λ p. p.1) train) (map (λ p. p.1) val),
          overlap_IsDistinct train val,
          overlap_IsDistinct (map (λ p. p.0) train) (map (λ p. p.0) val),
          overlap_IsDistinct (map (λ p. p.1) train) (map (λ p. p.1) val),
        ))

nonempty_iff :
    {A : Type 0} ⦃e : Eq A⦄ (xs : List A)
    → (ltb 0 (length xs) ≡ false) ↔ ((a : A) → elem a xs ≡ false)
nonempty_iff [] = (λ h a. refl, λ h. refl)
nonempty_iff (x ∷ xs) = (λ h a. ground arith, λ h. ground (arith, h x, beq_refl x))

pub has_exact_overlap_iff :
    (train val : List SentencePair)
    → (has_exact_overlap (report_of train val) ≡ false)
      ↔ ((p : SentencePair) → (elem p train && elem p val) ≡ false)
unfolding has_exact_overlap report_of
has_exact_overlap_iff train val =
    let overlap = deduplicate_pairs (filter_b (λ p. elem p train) val) in
    let (f, g) = nonempty_iff overlap in
    (λ h p. sym (elem-overlap train val p) ∙ f h p, λ h. g (λ p. elem-overlap train val p ∙ h p))

-- A check that may raise returns the report exactly when no pair is in both splits; otherwise it
-- raises the error that holds that same report. A check that may not raise returns it always.
pub validate_split_integrity_lem :
    (train val : List SentencePair)
    → let r = report_of train val in
      ((validate_split_integrity train val true ≡ reported r)
        ↔ ((p : SentencePair) → (elem p train && elem p val) ≡ false))
      × ((validate_split_integrity train val true ≡ split_integrity_error r)
          ⊎ (validate_split_integrity train val true ≡ reported r))
      × (validate_split_integrity train val false ≡ reported r)
unfolding validate_split_integrity
validate_split_integrity_lem train val =
    let (f, g) = has_exact_overlap_iff train val in
    elim (Bool-cases (has_exact_overlap (report_of train val))) [
      | inl leak ↦ rw leak ((λ h. cc, λ h. cc (g h)), inl refl, refl)
      | inr clean ↦ rw clean ((λ h. f clean, λ h. refl), inr refl, refl)
    ]
