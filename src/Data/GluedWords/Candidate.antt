-- ===== src/Data/GluedWords/Candidate.antt =====
-- ml/data/glued_word_signal.py: the prefix that is reported of a word.
mod Tests
use es_kaq_translator_v.Base.{
  ℕ, ◌≤◌, ◌≡◌, refl, Bool, true, false, Bool-cases, inl, inr, ◌⊎◌, Option, none, some, List, [],
  ◌∷◌, length, elem, ltb, ◌&&◌, ◌=?◌, if◌then◌else◌, arith,
}
use es_kaq_translator_v.Base.Dict.{Dict}
use es_kaq_translator_v.Text.{Text, text_eq}
use es_kaq_translator_v.Data.GluedWords.{
  count_of, Thresholds, is_glue, is_better, best_prefix, find_glued_word_candidate,
}

module _ (ok : Text → Bool) where
  best_prefix-found :
      (prefixes : List Text) (best : Option Text) (p : Text)
      → best_prefix ok prefixes best ≡ some p
      → (best ≡ some p) ⊎ ((elem p prefixes ≡ true) × (ok p ≡ true))
  unfolding best_prefix
  best_prefix-found [] best p h = inl h
  best_prefix-found (q ∷ prefixes) best p h = elim (Bool-cases (ok q && is_better q best)) [
    | inl taken ↦
        let found = best_prefix-found prefixes (some q) p (rw taken at h) in
        ground (arith, text_eq.beq_iff q p)
    | inr left ↦
        let found = best_prefix-found prefixes best p (rw left at h) in
        ground (arith, text_eq.beq_iff q p)
  ]

  from_prefixes :
      (prefixes : List Text) (p : Text)
      → best_prefix ok prefixes none ≡ some p
      → (elem p prefixes ≡ true) × (ok p ≡ true)
  from_prefixes prefixes p h = elim (best_prefix-found prefixes none p h) [
    | inl e ↦ absurd cc
    | inr found ↦ found
  ]

  abbrev Reaches : Option Text → ℕ → Type 0
  Reaches best n = (b : Text) × (best ≡ some b) × (n ≤ length b)

  best_prefix-keeps :
      (prefixes : List Text) (best : Option Text) (n : ℕ)
      → Reaches best n
      → Reaches (best_prefix ok prefixes best) n
  unfolding best_prefix is_better
  best_prefix-keeps [] best n h = h
  best_prefix-keeps (q ∷ prefixes) none n (b, e, l) = absurd cc
  best_prefix-keeps (q ∷ prefixes) (some best) n (b, e, l) =
      let again = best_prefix-keeps prefixes in
      let same : best ≡ b = cc in
      elim (Bool-cases (ok q && ltb (length best) (length q))) [
        | inl taken ↦
            let more : n ≤ length q = ground arith in rw taken (again (some q) n (q, refl, more))
        | inr left ↦ rw left (again (some best) n (b, e, l))
      ]

  first :
      (prefixes : List Text) (best : Option Text) (q : Text)
      → Reaches
          (best_prefix ok prefixes (if true && is_better q best then some q else best))
          (length q)
  unfolding is_better
  first prefixes none q = best_prefix-keeps prefixes (some q) (length q) (q, refl, omega arith)
  first prefixes (some best) q = elim (Bool-cases (ltb (length best) (length q))) [
    | inl longer ↦ rw longer (best_prefix-keeps prefixes (some q) (length q) (q, refl, omega arith))
    | inr shorter ↦
        let l : length q ≤ length best = ground arith in
        rw shorter (best_prefix-keeps prefixes (some best) (length q) (best, refl, l))
  ]

  best_prefix-reaches :
      (prefixes : List Text) (best : Option Text) (q : Text)
      → elem q prefixes ≡ true
      → ok q ≡ true
      → Reaches (best_prefix ok prefixes best) (length q)
  unfolding best_prefix
  best_prefix-reaches [] best q e h = absurd cc
  best_prefix-reaches (r ∷ prefixes) best q e h = elim (Bool-cases (r =? q)) [
    | inl same ↦
        let r_q : r ≡ q = (text_eq.beq_iff r q).0 same in rw (r_q, h) (first prefixes best q)
    | inr other ↦
        let inside : elem q prefixes ≡ true = ground arith in
        best_prefix-reaches prefixes (if ok r && is_better r best then some r else best) q inside h
  ]

module _ (lower : Text → Text) (t : Thresholds) (frequencies : Dict Text ℕ) (prefixes : List Text)
    (word : Text) where
  -- A prefix that is found makes a rare word out of a long and frequent rest, and no such prefix is
  -- longer; and for a rare word one is found whenever there is one.
  pub find_glued_word_candidate_lem :
      let found = find_glued_word_candidate lower t frequencies prefixes word in
      let rare = count_of (lower word) frequencies ≤ t.max_word_frequency in
      let fits = λ (p : Text). is_glue t frequencies (lower word) p ≡ true in
      ((p : Text)
        → found ≡ some p
        → rare
          × (elem p prefixes ≡ true)
          × fits p
          × ((q : Text) → elem q prefixes ≡ true → fits q → length q ≤ length p))
      × ((q : Text) → rare → elem q prefixes ≡ true → fits q → (p : Text) × (found ≡ some p))
  unfolding find_glued_word_candidate
  find_glued_word_candidate_lem =
      let glue = is_glue t frequencies (lower word) in
      elim (Bool-cases (ltb t.max_word_frequency (count_of (lower word) frequencies))) [
        | inl common ↦ (rw common (λ p h. absurd cc), λ q rare. absurd (ground arith))
        | inr uncommon ↦
            let rare : count_of (lower word) frequencies ≤ t.max_word_frequency = ground arith in
            (
              rw uncommon (λ p h.
                  let (inside, fits) = from_prefixes glue prefixes p h in
                  (
                    rare,
                    inside,
                    fits,
                    λ q e g.
                        let (b, at_b, l) = best_prefix-reaches glue prefixes none q e g in
                        let b_p : b ≡ p = cc in rw (← b_p) l,
                  )),
              rw uncommon (λ q r e g.
                  let (b, at_b, l) = best_prefix-reaches glue prefixes none q e g in (b, at_b)),
            )
      ]
