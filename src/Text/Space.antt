-- ===== src/Text/Space.antt =====
-- White space: `str.isspace`, `str.strip` and its halves. `\s` of `re` is the same set.
use es_kaq_translator_v.Base.{
  ℕ, ◌≡◌, refl, Bool, true, false, List, [], ◌∷◌, ◌==◌, leb, ◌||◌, ◌&&◌, if◌then◌else◌, Bool-cases,
  inl, inr,
}

-- The code points that Python calls white space.
unfoldable pub is_space : ℕ → Bool
is_space c =
    (leb 9 c && leb c 13)
    || (leb 28 c && leb c 32)
    || c == 133
    || c == 160
    || c == 5760
    || (leb 8192 c && leb c 8202)
    || c == 8232
    || c == 8233
    || c == 8239
    || c == 8287
    || c == 12288

-- `s.lstrip()`
unfoldable pub lstrip : List ℕ → List ℕ
lstrip [] = []
lstrip (c ∷ s) = let rest = lstrip s in if is_space c then rest else c ∷ s

-- `s.rstrip()`
unfoldable pub rstrip_cons : ℕ → List ℕ → List ℕ
rstrip_cons c [] = if is_space c then [] else c ∷ []
rstrip_cons c (d ∷ s) = c ∷ d ∷ s

unfoldable pub rstrip : List ℕ → List ℕ
unfolding rstrip_cons
rstrip [] = []
rstrip (c ∷ s) = rstrip_cons c (rstrip s)

-- `s.strip()`
unfoldable pub strip : List ℕ → List ℕ
unfolding lstrip rstrip
strip s = rstrip (lstrip s)

-- `s.strip()` is empty.
unfoldable pub is_blank : List ℕ → Bool
unfolding strip
is_blank s = elim (strip s) [ [] ↦ true | c ∷ r ↦ false ]

-- The first code point, if any, is no white space; so for the last.
abbrev pub HasInkAhead : List ℕ → Type 0
HasInkAhead [] = Unit
HasInkAhead (c ∷ s) = is_space c ≡ false

abbrev pub HasInkBehind : List ℕ → Type 0
HasInkBehind [] = Unit
HasInkBehind (c ∷ []) = is_space c ≡ false
HasInkBehind (c ∷ d ∷ s) = HasInkBehind (d ∷ s)

pub lstrip-HasInkAhead : (s : List ℕ) → HasInkAhead (lstrip s)
unfolding lstrip
lstrip-HasInkAhead [] = tt
lstrip-HasInkAhead (c ∷ s) = elim (Bool-cases (is_space c)) [
  | inl e ↦ rw (e, HasInkAhead) (lstrip-HasInkAhead s)
  | inr e ↦ rw e e
]

rstrip_cons-HasInkBehind : (c : ℕ) (s : List ℕ) → HasInkBehind s → HasInkBehind (rstrip_cons c s)
unfolding rstrip_cons
rstrip_cons-HasInkBehind c [] h = elim (Bool-cases (is_space c)) [
  | inl e ↦ rw (e, HasInkBehind) tt
  | inr e ↦ rw e e
]
rstrip_cons-HasInkBehind c (d ∷ s) h = h

pub rstrip-HasInkBehind : (s : List ℕ) → HasInkBehind (rstrip s)
unfolding rstrip
rstrip-HasInkBehind [] = tt
rstrip-HasInkBehind (c ∷ s) = rstrip_cons-HasInkBehind c (rstrip s) (rstrip-HasInkBehind s)

pub rstrip_of_HasInkBehind : (s : List ℕ) → HasInkBehind s → rstrip s ≡ s
unfolding rstrip rstrip_cons
rstrip_of_HasInkBehind [] h = refl
rstrip_of_HasInkBehind (c ∷ []) h = rw h refl
rstrip_of_HasInkBehind (c ∷ d ∷ s) h = rw (rstrip_of_HasInkBehind (d ∷ s) h, rstrip_cons) refl

pub lstrip_of_HasInkAhead : (s : List ℕ) → HasInkAhead s → lstrip s ≡ s
unfolding lstrip
lstrip_of_HasInkAhead [] h = refl
lstrip_of_HasInkAhead (c ∷ s) h = rw h refl

rstrip_cons-HasInkAhead : (c : ℕ) (s : List ℕ) → is_space c ≡ false → HasInkAhead (rstrip_cons c s)
unfolding rstrip_cons
rstrip_cons-HasInkAhead c [] h = rw (h, HasInkAhead) h
rstrip_cons-HasInkAhead c (d ∷ s) h = h

rstrip-HasInkAhead : (s : List ℕ) → HasInkAhead s → HasInkAhead (rstrip s)
unfolding rstrip
rstrip-HasInkAhead [] h = tt
rstrip-HasInkAhead (c ∷ s) h = rstrip_cons-HasInkAhead c (rstrip s) h

pub strip-HasInkAhead : (s : List ℕ) → HasInkAhead (strip s)
unfolding strip
strip-HasInkAhead s = rstrip-HasInkAhead (lstrip s) (lstrip-HasInkAhead s)

pub strip-HasInkBehind : (s : List ℕ) → HasInkBehind (strip s)
unfolding strip
strip-HasInkBehind s = rstrip-HasInkBehind (lstrip s)

pub strip_of_ink : (s : List ℕ) → HasInkAhead s → HasInkBehind s → strip s ≡ s
unfolding strip
strip_of_ink s a b = rw (lstrip_of_HasInkAhead s a, rstrip_of_HasInkBehind s b) refl

pub strip_idem : (s : List ℕ) → strip (strip s) ≡ strip s
strip_idem s = strip_of_ink (strip s) (strip-HasInkAhead s) (strip-HasInkBehind s)
