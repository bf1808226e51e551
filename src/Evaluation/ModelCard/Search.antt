-- ===== src/Evaluation/ModelCard/Search.antt =====
-- ml/evaluation/model_card.py: the search for a field over the lines of a card.
use es_kaq_translator_v.Base.{
  ℕ, ◌≡◌, refl, ap, ◌∙◌, Bool, true, false, Option, none, some, List, [], ◌∷◌, ◌++◌, ◌==◌, nat_eq,
  ◌=?◌, not, arith, All, all_b, append_assoc, drop-append, list_beq,
}
use es_kaq_translator_v.Text.{Text, text, text_eq, starts_with, join}
use es_kaq_translator_v.Text.Space.{is_space, lstrip}
use es_kaq_translator_v.Evaluation.ModelCard.{
  field_line, take_class, unless_empty, match_field, search_field, label,
}

abbrev pub no_star : Text → Bool
no_star = all_b (λ c. not (c == 42))

-- At least one code point, all of one class.
abbrev pub IsWord : (ℕ → Bool) → Text → Type 0
IsWord p [] = ⊥
IsWord p (c ∷ s) = all_b p (c ∷ s) ≡ true

-- The lines, each with its newline.
abbrev pub ended : List Text → Text
ended [] = []
ended (l ∷ ls) = l ++ (10 ∷ ended ls)

pub join-ended : (l : Text) (ls : List Text) → join (10 ∷ []) (l ∷ ls) ++ (10 ∷ []) ≡ ended (l ∷ ls)
unfolding join
join-ended l [] = refl
join-ended l (m ∷ ls) =
    append_assoc l ((10 ∷ []) ++ join (10 ∷ []) (m ∷ ls)) (10 ∷ [])
    ∙ ap (λ t. l ++ (10 ∷ t)) (join-ended m ls)

starts_with-append : (s rest : Text) → starts_with (s ++ rest) s ≡ true
unfolding starts_with
starts_with-append [] rest = refl
starts_with-append (c ∷ s) rest = ground (arith, starts_with-append s rest)

pub take_class-append :
    (p : ℕ → Bool) (s rest : Text)
    → all_b p s ≡ true
    → p 10 ≡ false
    → take_class p (s ++ (10 ∷ rest)) ≡ s
unfolding take_class
take_class-append p [] rest h e = ground arith
take_class-append p (c ∷ s) rest h e = ground (arith, take_class-append p s rest)

-- A label, one space, a word of the class and the end of the line.
pub match_field-hit :
    (lab v rest : Text) (p : ℕ → Bool)
    → IsWord p v
    → ((c : ℕ) → p c ≡ true → is_space c ≡ false)
    → p 10 ≡ false
    → match_field lab p (lab ++ (32 ∷ v ++ (10 ∷ rest))) ≡ some v
unfolding match_field lstrip unless_empty is_space
match_field-hit lab [] rest p w ink e = absurd w
match_field-hit lab (c ∷ v) rest p w ink e =
    let c_ink : is_space c ≡ false = ink c (ground arith) in
    rw
      (
        starts_with-append lab (32 ∷ (c ∷ v) ++ (10 ∷ rest)),
        drop-append lab (32 ∷ (c ∷ v) ++ (10 ∷ rest)),
        c_ink,
        take_class-append p (c ∷ v) rest w e,
      )
      refl

-- A label's name: no star in it, and no colon in front.
pub record IsName (l : ℕ) (ls : Text) : Type 0 where
  pub head_ne_colon : (l == 58) ≡ false
  pub starless : no_star (l ∷ ls) ≡ true

search-miss :
    (lab : Text) (p : ℕ → Bool) (c : ℕ) (s : Text)
    → match_field lab p (c ∷ s) ≡ none
    → search_field lab p (c ∷ s) ≡ search_field lab p s
unfolding search_field
search-miss lab p c s e = rw (search_field, e) refl

search-hit :
    (lab : Text) (p : ℕ → Bool) (c : ℕ) (s v : Text)
    → match_field lab p (c ∷ s) ≡ some v
    → search_field lab p (c ∷ s) ≡ some v
unfolding search_field
search-hit lab p c s v e = rw (search_field, e) refl

-- Two names with a star behind each agree only if they are the same.
names-apart :
    (n m r q : Text)
    → no_star n ≡ true
    → no_star m ≡ true
    → (n =? m) ≡ false
    → starts_with (n ++ (42 ∷ r)) (m ++ (42 ∷ q)) ≡ false
unfolding starts_with list_beq
names-apart [] [] r q a b e = cc
names-apart [] (d ∷ m) r q a b e = ground arith
names-apart (c ∷ n) [] r q a b e = ground arith
names-apart (c ∷ n) (d ∷ m) r q a b e = ground (arith, names-apart n m r q)

-- A field's line and what follows it.
pub field_line-append :
    (name v rest : Text)
    → field_line name v ++ rest ≡ text "- **" ++ (name ++ (text "**: " ++ (v ++ rest)))
unfolding field_line
field_line-append name v rest =
    ap (λ t. text "- **" ++ t)
      (append_assoc name (text "**: " ++ v) rest
        ∙ ap (λ t. name ++ t) (append_assoc (text "**: ") v rest))

module _ (l : ℕ) (ls : Text) (named : IsName l ls) (p : ℕ → Bool) where
  abbrev search : Text → Option Text
  search = search_field (label (l ∷ ls)) p

  -- The position that the search stands at does not match.
  step :
      (c : ℕ) (s : Text) → starts_with (c ∷ s) (label (l ∷ ls)) ≡ false → search (c ∷ s) ≡ search s
  step c s e =
      let miss : match_field (label (l ∷ ls)) p (c ∷ s) ≡ none = unfold match_field in rw e refl in
      search-miss (label (l ∷ ls)) p c s miss

  skip-starless : (s rest : Text) → no_star s ≡ true → search (s ++ rest) ≡ search rest
  unfolding label starts_with
  skip-starless [] rest h = refl
  skip-starless (c ∷ s) rest h =
      step c (s ++ rest) (ground arith) ∙ skip-starless s rest (ground arith)

  -- A field under another name.
  skip-other :
      (c : ℕ) (n rest : Text)
      → no_star (c ∷ n) ≡ true
      → ((c ∷ n) =? (l ∷ ls)) ≡ false
      → search (text "**" ++ ((c ∷ n) ++ (text "**: " ++ rest))) ≡ search rest
  unfolding label starts_with
  skip-other c n rest star other =
      let colon = named.head_ne_colon in
      step 42 (42 ∷ (c ∷ n) ++ (text "**: " ++ rest))
        (names-apart (c ∷ n) (l ∷ ls) _ _ star named.starless other)
      ∙ step 42 ((c ∷ n) ++ (text "**: " ++ rest)) (ground arith)
      ∙ skip-starless (c ∷ n) (text "**: " ++ rest) star
      ∙ step 42 (text "*: " ++ rest) (ground arith)
      ∙ step 42 (text ": " ++ rest) (ground arith)
      ∙ skip-starless (text ": ") rest refl

  -- A whole line: plain text, or a field under another name.
  pub data IsOther : Text → Type 0 where
    plain : (s : Text) → no_star s ≡ true → IsOther s
    field :
        (c : ℕ) (n v : Text)
        → no_star (c ∷ n) ≡ true
        → ((c ∷ n) =? (l ∷ ls)) ≡ false
        → no_star v ≡ true
        → IsOther (field_line (c ∷ n) v)

  skip-line : (s rest : Text) → IsOther s → search (s ++ (10 ∷ rest)) ≡ search rest
  unfolding label starts_with field_line
  skip-line _ rest (plain s star) = skip-starless s (10 ∷ rest) star ∙ step 10 rest refl
  skip-line _ rest (field c n v star other star_v) =
      let tail = v ++ (10 ∷ rest) in
      ap search (field_line-append (c ∷ n) v (10 ∷ rest))
      ∙ skip-starless (text "- ") (text "**" ++ ((c ∷ n) ++ (text "**: " ++ tail))) refl
      ∙ skip-other c n tail star other
      ∙ skip-starless v (10 ∷ rest) star_v
      ∙ step 10 rest refl

  pub skip-lines :
      (before after : List Text)
      → All IsOther before
      → search (ended (before ++ after)) ≡ search (ended after)
  skip-lines [] after h = refl
  skip-lines (s ∷ before) after h =
      skip-line s (ended (before ++ after)) h.0 ∙ skip-lines before after h.1

  -- The field itself, with a word of the class as its value.
  pub search-field :
      (v rest : Text)
      → IsWord p v
      → ((c : ℕ) → p c ≡ true → is_space c ≡ false)
      → p 10 ≡ false
      → search (field_line (l ∷ ls) v ++ (10 ∷ rest)) ≡ some v
  unfolding label
  search-field v rest w ink e =
      let tail = text "**: " ++ (v ++ (10 ∷ rest)) in
      let whole : label (l ∷ ls) ++ (32 ∷ v ++ (10 ∷ rest)) ≡ text "**" ++ ((l ∷ ls) ++ tail) =
        ap (λ t. text "**" ++ t) (append_assoc (l ∷ ls) (text "**:") (32 ∷ v ++ (10 ∷ rest))) in
      let found : match_field (label (l ∷ ls)) p (text "**" ++ ((l ∷ ls) ++ tail)) ≡ some v =
        rw (← whole) (match_field-hit (label (l ∷ ls)) v rest p w ink e) in
      ap search (field_line-append (l ∷ ls) v (10 ∷ rest))
      ∙ skip-starless (text "- ") (text "**" ++ ((l ∷ ls) ++ tail)) refl
      ∙ search-hit (label (l ∷ ls)) p 42 (42 ∷ (l ∷ ls) ++ tail) v found

  -- A field below lines of other kinds.
  pub search-below :
      (before : List Text) (v : Text) (after : List Text)
      → All IsOther before
      → IsWord p v
      → ((c : ℕ) → p c ≡ true → is_space c ≡ false)
      → p 10 ≡ false
      → search (ended (before ++ (field_line (l ∷ ls) v ∷ after))) ≡ some v
  search-below before v after others w ink e =
      skip-lines before (field_line (l ∷ ls) v ∷ after) others
      ∙ search-field v (ended after) w ink e
