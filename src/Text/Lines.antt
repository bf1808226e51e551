-- ===== src/Text/Lines.antt =====
-- `str.splitlines`, and the newline translation of a file that is opened as text.
use es_kaq_translator_v.Base.{
  ℕ, ◌≡◌, refl, Bool, true, false, List, [], ◌∷◌, ◌++◌, ◌==◌, ◌&&◌, ◌||◌, leb, if◌then◌else◌, arith,
  ap, All,
}
use es_kaq_translator_v.Text.Space.{is_space}
use es_kaq_translator_v.Text.Split.{onto_first}

-- The code points that end a line.
unfoldable pub is_break : ℕ → Bool
is_break c = (leb 10 c && leb c 13) || (leb 28 c && leb c 30) || c == 133 || c == 8232 || c == 8233

-- The flag says that the code point before was a carriage return, which a newline joins.
unfoldable pub lines_from : Bool → List ℕ → List (List ℕ)
lines_from after_cr [] = []
lines_from after_cr (c ∷ s) =
    let rest = lines_from (c == 13) s in
    if after_cr && c == 10 then rest else if is_break c then [] ∷ rest else onto_first c rest

-- `s.splitlines()`
unfoldable pub splitlines : List ℕ → List (List ℕ)
splitlines = lines_from false

unfoldable pub newlines_from : Bool → List ℕ → List ℕ
newlines_from after_cr [] = []
newlines_from after_cr (c ∷ s) =
    let rest = newlines_from (c == 13) s in
    if after_cr && c == 10 then rest else if c == 13 then 10 ∷ rest else c ∷ rest

-- What `open(path).read()` makes of the decoded text: each line ends with a newline.
unfoldable pub universal_newlines : List ℕ → List ℕ
universal_newlines = newlines_from false

pub break_is_space : (c : ℕ) → is_break c ≡ true → is_space c ≡ true
unfolding is_break is_space
break_is_space c h = ground arith

-- A line without a break, followed by a newline and more.
pub splitlines-append :
    (l rest : List ℕ)
    → All (λ c. is_break c ≡ false) l
    → splitlines (l ++ (10 ∷ rest)) ≡ l ∷ splitlines rest
unfolding splitlines lines_from is_break onto_first
splitlines-append [] rest h = refl
splitlines-append (c ∷ l) rest h = ground (arith, splitlines-append l rest h.1)

pub universal_newlines_id : (s : List ℕ) → All (λ c. (c == 13) ≡ false) s → universal_newlines s ≡ s
unfolding universal_newlines newlines_from
universal_newlines_id [] h = refl
universal_newlines_id (c ∷ s) h = rw h.0 (ap (◌∷◌ c) (universal_newlines_id s h.1))
