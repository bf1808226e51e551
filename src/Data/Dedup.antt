-- ===== src/Data/Dedup.antt =====
-- ml/data/dedup.py: exact duplicates are dropped, and first occurrences stay in order.
use es_kaq_translator_v.Base.{
  ◌≡◌, refl, ap, ◌∙◌, Bool, true, false, List, [], ◌∷◌, ◌++◌, ◌&&◌, ◌||◌, not, ◌=?◌, elem,
  IsDistinct, Eq, beq_refl, arith, Bool-cases, inl, inr, if◌then◌else◌, elem-append, All,
  append-nil, subst,
}

or_true : (b : Bool) → (b || true) ≡ true
or_true true = refl
or_true false = refl

module _ {ℓ} {A : Type ℓ} ⦃e : Eq A⦄ where
  -- The loop, with the set of what was seen.
  unfoldable pub deduplicate_from : List A → List A → List A
  deduplicate_from seen [] = []
  deduplicate_from seen (p ∷ pairs) = elim (elem p seen) [
    | true ↦ deduplicate_from seen pairs
    | false ↦ p ∷ deduplicate_from (p ∷ seen) pairs
  ]

  unfoldable pub deduplicate_pairs : List A → List A
  deduplicate_pairs = deduplicate_from []

  elem-deduplicate_from :
      (a : A) (seen xs : List A)
      → elem a (deduplicate_from seen xs) ≡ (not (elem a seen) && elem a xs)
  unfolding deduplicate_from
  elem-deduplicate_from a seen [] = ground arith
  elem-deduplicate_from a seen (x ∷ xs) =
      ground (
        arith,
        e.beq_iff x a,
        elem-deduplicate_from a seen xs,
        elem-deduplicate_from a (x ∷ seen) xs,
      )

  IsDistinct-deduplicate_from : (seen xs : List A) → IsDistinct (deduplicate_from seen xs)
  unfolding deduplicate_from
  IsDistinct-deduplicate_from seen [] = tt
  IsDistinct-deduplicate_from seen (x ∷ xs) = elim (Bool-cases (elem x seen)) [
    | inl old ↦ rw (old, IsDistinct) (IsDistinct-deduplicate_from seen xs)
    | inr new ↦
        rw (new, IsDistinct)
          (
            ground (arith, elem-deduplicate_from x (x ∷ seen) xs, beq_refl x),
            IsDistinct-deduplicate_from (x ∷ seen) xs,
          )
  ]

  -- Only the members of what was seen matter.
  deduplicate_from_same :
      (seen seen' xs : List A)
      → ((a : A) → elem a seen ≡ elem a seen')
      → deduplicate_from seen xs ≡ deduplicate_from seen' xs
  unfolding deduplicate_from
  deduplicate_from_same seen seen' [] h = refl
  deduplicate_from_same seen seen' (x ∷ xs) h = elim (Bool-cases (elem x seen')) [
    | inl old ↦ rw (h x, old, deduplicate_from) (deduplicate_from_same seen seen' xs h)
    | inr new ↦
        rw (h x, new, deduplicate_from)
          (ap (◌∷◌ x) (
            deduplicate_from_same (x ∷ seen) (x ∷ seen') xs
              (λ a. ap (λ b. if x =? a then true else b) (h a))))
  ]

  elem_middle : (x a : A) (xs seen : List A) → elem a (xs ++ (x ∷ seen)) ≡ elem a (x ∷ (xs ++ seen))
  elem_middle x a [] seen = refl
  elem_middle x a (y ∷ xs) seen = ground (arith, elem_middle x a xs seen)

  elem_old :
      (x a : A) (xs seen : List A)
      → elem x seen ≡ true
      → elem a (xs ++ seen) ≡ elem a (x ∷ (xs ++ seen))
  elem_old x a xs seen old = rw elem-append (elim (Bool-cases (x =? a)) [
    | inl same ↦
        rw (same, subst (λ y. elem y seen ≡ true) ((e.beq_iff x a).0 same) old)
          (or_true (elem a xs))
    | inr other ↦ rw other refl
  ])

  deduplicate_from-append :
      (seen xs ys : List A)
      → deduplicate_from seen (xs ++ ys)
        ≡ deduplicate_from seen xs ++ deduplicate_from (xs ++ seen) ys
  unfolding deduplicate_from
  deduplicate_from-append seen [] ys = refl
  deduplicate_from-append seen (x ∷ xs) ys = elim (Bool-cases (elem x seen)) [
    | inl old ↦
        rw (old, deduplicate_from)
          (deduplicate_from-append seen xs ys
            ∙ ap (◌++◌ (deduplicate_from seen xs)) (
                deduplicate_from_same (xs ++ seen) (x ∷ (xs ++ seen)) ys
                  (λ a. elem_old x a xs seen old)))
    | inr new ↦
        rw (new, deduplicate_from)
          (ap (◌∷◌ x) (
            deduplicate_from-append (x ∷ seen) xs ys
            ∙ ap (◌++◌ (deduplicate_from (x ∷ seen) xs)) (
                deduplicate_from_same (xs ++ (x ∷ seen)) (x ∷ (xs ++ seen)) ys
                  (λ a. elem_middle x a xs seen))))
  ]

  -- The result has the members of the input, each once, and it grows at its end as the input does:
  -- of what follows `xs`, those are added that `xs` does not hold, so first occurrences are kept in
  -- their order.
  pub deduplicate_pairs_lem :
      (xs ys : List A)
      → ((a : A) → elem a (deduplicate_pairs xs) ≡ elem a xs)
        × IsDistinct (deduplicate_pairs xs)
        × (deduplicate_pairs (xs ++ ys) ≡ deduplicate_pairs xs ++ deduplicate_from xs ys)
        × ((a : A) → elem a (deduplicate_from xs ys) ≡ (not (elem a xs) && elem a ys))
  unfolding deduplicate_pairs
  deduplicate_pairs_lem xs ys = (
    λ a. elem-deduplicate_from a [] xs,
    IsDistinct-deduplicate_from [] xs,
    deduplicate_from-append [] xs ys ∙ rw append-nil refl,
    λ a. elem-deduplicate_from a xs ys,
  )

  fresh_cons :
      (x : A) (seen xs : List A)
      → elem x xs ≡ false
      → All (λ y. elem y seen ≡ false) xs
      → All (λ y. elem y (x ∷ seen) ≡ false) xs
  fresh_cons x seen [] n h = tt
  fresh_cons x seen (y ∷ xs) n h =
      (ground (arith, e.beq_iff x y, e.beq_iff y x), fresh_cons x seen xs (ground arith) h.1)

  deduplicate_from_distinct :
      (seen xs : List A)
      → IsDistinct xs
      → All (λ y. elem y seen ≡ false) xs
      → deduplicate_from seen xs ≡ xs
  unfolding deduplicate_from
  deduplicate_from_distinct seen [] d h = refl
  deduplicate_from_distinct seen (x ∷ xs) d h =
      rw (h.0, deduplicate_from)
        (ap (◌∷◌ x) (deduplicate_from_distinct (x ∷ seen) xs d.1 (fresh_cons x seen xs d.0 h.1)))

  none_seen : (xs : List A) → All (λ y. elem y [] ≡ false) xs
  none_seen [] = tt
  none_seen (x ∷ xs) = (refl, none_seen xs)

  -- A list without repetitions stays as it is.
  pub deduplicate_pairs_distinct : (xs : List A) → IsDistinct xs → deduplicate_pairs xs ≡ xs
  unfolding deduplicate_pairs
  deduplicate_pairs_distinct xs d = deduplicate_from_distinct [] xs d (none_seen xs)

  -- What every input satisfies, every result does.
  pub deduplicate_from-All {κ} :
      (P : A → Type κ) (seen xs : List A) → All P xs → All P (deduplicate_from seen xs)
  unfolding deduplicate_from
  deduplicate_from-All P seen [] h = tt
  deduplicate_from-All P seen (x ∷ xs) h = elim (Bool-cases (elem x seen)) [
    | inl old ↦ rw (old, All) (deduplicate_from-All P seen xs h.1)
    | inr new ↦ rw (new, All) (h.0, deduplicate_from-All P (x ∷ seen) xs h.1)
  ]
