-- ===== src/Data/LengthFilter.antt =====
-- ml/data/length_filter.py: pairs that are empty, too short, too long or too unequal are dropped.
use es_kaq_translator_v.Base.{
  ℕ, ◌≡◌, Bool, true, false, List, ◌==◌, ◌||◌, ltb, not, if◌then◌else◌, length, max, min, filter_b,
  arith, ◌≤◌, ◌↔◌,
}
use es_kaq_translator_v.Text.{Text}
use es_kaq_translator_v.Text.Space.{strip}
use es_kaq_translator_v.Data.Normalize.{SentencePair}

-- Python's floats, as far as they are used: the quotient of two lengths, and `>`.
pub record Floats : Type 1 where
  pub Float : Type 0
  pub div : ℕ → ℕ → Float
  pub gt : Float → Float → Bool

module _ (fl : Floats) where
  open fl use {Float, div, gt}

  pub record LengthFilterConfig : Type 0 where
    pub min_length : ℕ
    pub max_length : ℕ
    pub max_ratio : Float

  -- The tests on the lengths of the two stripped sides.
  unfoldable pub is_valid_pair : LengthFilterConfig → ℕ → ℕ → Bool
  is_valid_pair config es_len cak_len =
      if es_len == 0 || cak_len == 0
      then false
      else if ltb es_len config.min_length || ltb cak_len config.min_length
      then false
      else if ltb config.max_length es_len || ltb config.max_length cak_len
      then false
      else not (gt (div (max es_len cak_len) (min es_len cak_len)) config.max_ratio)

  unfoldable pub is_valid_length : LengthFilterConfig → Text → Text → Bool
  is_valid_length config es cak = is_valid_pair config (length (strip es)) (length (strip cak))

  unfoldable pub filter_pairs_by_length : LengthFilterConfig → List SentencePair → List SentencePair
  filter_pairs_by_length config = filter_b (λ p. is_valid_length config p.0 p.1)

  -- Exactly those pairs pass whose stripped sides are non-empty, within the two bounds, and whose
  -- longer side is at most `max_ratio` times the shorter.
  pub is_valid_pair_iff :
      (config : LengthFilterConfig) (m n : ℕ)
      → (is_valid_pair config m n ≡ true) ↔ (
          (1 ≤ m)
          × (1 ≤ n)
          × (config.min_length ≤ m)
          × (config.min_length ≤ n)
          × (m ≤ config.max_length)
          × (n ≤ config.max_length)
          × (gt (div (max m n) (min m n)) config.max_ratio ≡ false))
  unfolding is_valid_pair
  is_valid_pair_iff config m n = ground arith

  -- The order of the two sides does not matter.
  pub is_valid_length_comm :
      (config : LengthFilterConfig) (es cak : Text)
      → is_valid_length config es cak ≡ is_valid_length config cak es
  unfolding is_valid_length is_valid_pair
  is_valid_length_comm config es cak =
      let m = length (strip es) in
      let n = length (strip cak) in
      let longer : max m n ≡ max n m = omega arith in
      let shorter : min m n ≡ min n m = omega arith in rw (longer, shorter) (ground arith)
