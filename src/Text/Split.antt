-- ===== src/Text/Split.antt =====
-- `str.split` and `str.partition` at one code point.
use es_kaq_translator_v.Base.{
  ℕ, ◌≡◌, refl, false, List, [], ◌∷◌, ◌++◌, ◌==◌, if◌then◌else◌, arith, elem, nat_eq,
}

-- The first part gets one more code point in front.
unfoldable pub onto_first : ℕ → List (List ℕ) → List (List ℕ)
onto_first c [] = (c ∷ []) ∷ []
onto_first c (part ∷ parts) = (c ∷ part) ∷ parts

-- `s.split(sep)` for one code point `sep`
unfoldable pub split : ℕ → List ℕ → List (List ℕ)
unfolding onto_first
split sep [] = [] ∷ []
split sep (c ∷ s) = let rest = split sep s in if c == sep then [] ∷ rest else onto_first c rest

-- `bucket, _, key = s.partition(sep)`
unfoldable pub partition : ℕ → List ℕ → List ℕ × List ℕ
partition sep [] = ([], [])
partition sep (c ∷ s) =
    let rest = partition sep s in if c == sep then ([], s) else (c ∷ rest.0, rest.1)

-- A text without the separator, followed by it and more.
pub split-append :
    (sep : ℕ) (s rest : List ℕ)
    → elem sep s ≡ false
    → split sep (s ++ (sep ∷ rest)) ≡ s ∷ split sep rest
unfolding split onto_first
split-append sep [] rest h = ground arith
split-append sep (c ∷ s) rest h = ground (arith, split-append sep s rest)

pub split_absent : (sep : ℕ) (s : List ℕ) → elem sep s ≡ false → split sep s ≡ s ∷ []
unfolding split onto_first
split_absent sep [] h = refl
split_absent sep (c ∷ s) h = ground (arith, split_absent sep s)
