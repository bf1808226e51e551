-- ===== src/Data/Pipeline/Clean.antt =====
-- ml/data/pipeline.py: the pairs that `clean_pairs` returns.
use es_kaq_translator_v.Base.{
  ◌≡◌, refl, ap, Bool, true, List, [], ◌∷◌, map, pair_eq, filter_b, All, All-filter, IsDistinct,
  IsDistinct-filter, Bool-cases, inl, inr,
}
use es_kaq_translator_v.Text.{Text, text_eq}
use es_kaq_translator_v.Data.Normalize.{SentencePair, normalize_text, normalize_pair}
use es_kaq_translator_v.Data.Normalize.Tidy.{IsTidy, normalize_text-IsTidy, normalize_text_tidy}
use es_kaq_translator_v.Data.Dedup.{
  deduplicate_pairs, deduplicate_pairs_lem, deduplicate_pairs_distinct, deduplicate_from-All,
}
use es_kaq_translator_v.Data.LengthFilter.{
  Floats, LengthFilterConfig, filter_pairs_by_length, is_valid_length,
}
use es_kaq_translator_v.Data.Pipeline.{clean_pairs}

All-filtered : {A : Type 0} (p : A → Bool) (xs : List A) → All (λ x. p x ≡ true) (filter_b p xs)
All-filtered p [] = tt
All-filtered p (x ∷ xs) = elim (Bool-cases (p x)) [
  | inl t ↦ rw (t, filter_b, All) (t, All-filtered p xs)
  | inr f ↦ rw (f, filter_b) (All-filtered p xs)
]

filter-keeps_All :
    {A : Type 0} (p : A → Bool) (xs : List A) → All (λ x. p x ≡ true) xs → filter_b p xs ≡ xs
filter-keeps_All p [] h = refl
filter-keeps_All p (x ∷ xs) h = rw h.0 (ap (◌∷◌ x) (filter-keeps_All p xs h.1))

map_fixed : {A : Type 0} (f : A → A) (xs : List A) → All (λ x. f x ≡ x) xs → map f xs ≡ xs
map_fixed f [] h = refl
map_fixed f (x ∷ xs) h = rw (h.0, map_fixed f xs h.1) refl

abbrev pub IsTidyPair : SentencePair → Type 0
IsTidyPair p = IsTidy p.0 × IsTidy p.1

module _ (nfc : Text → Text) (fl : Floats) where
  All-normalized {κ} :
      (P : SentencePair → Type κ) (pairs : List SentencePair)
      → ((p : SentencePair) → P (normalize_pair nfc p.0 p.1))
      → All P (map (λ p. normalize_pair nfc p.0 p.1) pairs)
  All-normalized P [] h = tt
  All-normalized P (p ∷ pairs) h = (h p, All-normalized P pairs h)

  -- What every normalised pair satisfies, every cleaned pair does.
  clean_pairs-All {κ} :
      (P : SentencePair → Type κ) (config : LengthFilterConfig fl) (pairs : List SentencePair)
      → ((p : SentencePair) → P (normalize_pair nfc p.0 p.1))
      → All P (clean_pairs nfc fl config pairs)
  unfolding clean_pairs filter_pairs_by_length
  clean_pairs-All P config pairs h =
      All-filter P (λ p. is_valid_length fl config p.0 p.1) _
        (unfold deduplicate_pairs in deduplicate_from-All P [] _ (All-normalized P pairs h))

  pub normalize_pair-IsTidy : (p : SentencePair) → IsTidyPair (normalize_pair nfc p.0 p.1)
  unfolding normalize_pair
  normalize_pair-IsTidy p = (normalize_text-IsTidy nfc p.0, normalize_text-IsTidy nfc p.1)

  -- Cleaned pairs are all different, tidy on both sides, and of valid lengths, whatever was read.
  pub clean_pairs_lem :
      (config : LengthFilterConfig fl) (pairs : List SentencePair)
      → IsDistinct (clean_pairs nfc fl config pairs)
        × All IsTidyPair (clean_pairs nfc fl config pairs)
        × All (λ p. is_valid_length fl config p.0 p.1 ≡ true) (clean_pairs nfc fl config pairs)
  unfolding clean_pairs filter_pairs_by_length
  clean_pairs_lem config pairs =
      let normalized = map (λ p. normalize_pair nfc p.0 p.1) pairs in
      (
        IsDistinct-filter (λ p. is_valid_length fl config p.0 p.1) _
            ((deduplicate_pairs_lem normalized []).1),
        clean_pairs-All IsTidyPair config pairs normalize_pair-IsTidy,
        All-filtered (λ p. is_valid_length fl config p.0 p.1) _,
      )

  normalize_pair_idem :
      ((t : Text) → nfc (normalize_text nfc t) ≡ normalize_text nfc t)
      → (p : SentencePair) → (let q = normalize_pair nfc p.0 p.1 in normalize_pair nfc q.0 q.1 ≡ q)
  unfolding normalize_pair
  normalize_pair_idem normal (es, cak) =
      rw
        (
          normalize_text_tidy nfc _ (normalize_text-IsTidy nfc es) (normal es),
          normalize_text_tidy nfc _ (normalize_text-IsTidy nfc cak) (normal cak),
        )
        refl

  -- Cleaning again changes nothing, provided that a normalised sentence is in normal form.
  pub clean_pairs_idem :
      (config : LengthFilterConfig fl) (pairs : List SentencePair)
      → ((t : Text) → nfc (normalize_text nfc t) ≡ normalize_text nfc t)
      → clean_pairs nfc fl config (clean_pairs nfc fl config pairs)
        ≡ clean_pairs nfc fl config pairs
  unfolding clean_pairs
  clean_pairs_idem config pairs normal =
      let cleaned = clean_pairs nfc fl config pairs in
      let (distinct, tidy, valid) = clean_pairs_lem config pairs in
      let same =
        map_fixed (λ p. normalize_pair nfc p.0 p.1) cleaned
          (clean_pairs-All (λ p. normalize_pair nfc p.0 p.1 ≡ p) config pairs
            (normalize_pair_idem normal)) in
      rw (same, deduplicate_pairs_distinct cleaned distinct)
        (unfold filter_pairs_by_length in filter-keeps_All _ cleaned valid)
