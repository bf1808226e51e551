-- ===== src/Training/Direction/Tags.antt =====
-- ml/training/direction.py: writing and removing a direction tag.
use es_kaq_translator_v.Base.{
  ◌≡◌, refl, ap, true, false, Option, none, some, if◌then◌else◌, Bool-cases, sym, ◌=?◌, list_beq,
  [], ◌∷◌, ◌++◌, length, drop, ◌⊎◌, inl, inr, Option-cases, arith,
}
use es_kaq_translator_v.Base.Dict.{lookup}
use es_kaq_translator_v.Text.{Text, text, text_eq, starts_with}
use es_kaq_translator_v.Text.Space.{lstrip, is_space}
use es_kaq_translator_v.Training.Direction.{
  Outcome, spanish, kaqchikel, ok, key_error, direction_tags, tag_of, with_tag, tag_source_text,
  without_tag, strip_leading_direction_tag,
}

starts_with-append : (p s : Text) → starts_with (p ++ s) p ≡ true
unfolding starts_with
starts_with-append [] s = refl
starts_with-append (c ∷ p) s = ground (arith, starts_with-append p s)

drop-append_length : (p s : Text) → drop (length p) (p ++ s) ≡ s
drop-append_length [] s = refl
drop-append_length (c ∷ p) s = drop-append_length p s

lstrip_space : (s : Text) → lstrip (32 ∷ s) ≡ lstrip s
unfolding lstrip is_space
lstrip_space s = refl

-- A language has one of the two tags, or none.
pub tag_of-cases :
    (language : Text)
    → ((tag : Text) × (tag_of language ≡ ok tag)) ⊎ (tag_of language ≡ key_error language)
unfolding tag_of
tag_of-cases language = elim (Option-cases (lookup language direction_tags)) [
  | inl absent ↦ inr (rw (absent, tag_of) refl)
  | inr (tag, found) ↦ inl (tag, rw (found, tag_of) refl)
]

untag :
    (tag source_text : Text)
    → without_tag (tag ++ (32 ∷ source_text)) (ok tag) ≡ ok (lstrip source_text)
unfolding without_tag
untag tag s =
    rw (starts_with-append tag (32 ∷ s), drop-append_length tag (32 ∷ s)) (ap ok (lstrip_space s))

pub tag_of-spanish : tag_of spanish ≡ ok (text "__es__")
unfolding tag_of lookup list_beq
tag_of-spanish = refl

pub tag_of-kaqchikel : tag_of kaqchikel ≡ ok (text "__cak__")
unfolding tag_of lookup list_beq
tag_of-kaqchikel = refl

pub tag_of-other :
    (language : Text)
    → (language =? spanish) ≡ false
    → (language =? kaqchikel) ≡ false
    → tag_of language ≡ key_error language
unfolding tag_of lookup list_beq
tag_of-other language e f =
    let e' : (spanish =? language) ≡ false =
      ground (arith, text_eq.beq_iff spanish language, text_eq.beq_iff language spanish) in
    let f' : (kaqchikel =? language) ≡ false =
      ground (arith, text_eq.beq_iff kaqchikel language, text_eq.beq_iff language kaqchikel) in
    rw (e', f') refl

-- The tag of a language, if it has one.
abbrev pub tag_for : Text → Option Text
tag_for language =
    if language =? spanish
    then some (text "__es__")
    else (if language =? kaqchikel then some (text "__cak__") else none)

-- Spanish has the tag `__es__` and Kaqchikel `__cak__`. A text is tagged with its language's tag and a
-- space, and removing the tag from it gives the text back, less the white space at its start; for any
-- other language both functions raise `KeyError`.
pub strip-tag :
    (source_text language : Text)
    → (tag_source_text source_text language ≡ elim (tag_for language) as (λ o. Outcome Text) [
      | none ↦ key_error language
      | some tag ↦ ok (tag ++ (32 ∷ source_text))
    ])
      × (strip_leading_direction_tag
            (elim (tag_for language) as (λ o. Text) [
              | none ↦ source_text
              | some tag ↦ tag ++ (32 ∷ source_text)
            ])
            language
          ≡ elim (tag_for language) as (λ o. Outcome Text) [
            | none ↦ key_error language
            | some tag ↦ ok (lstrip source_text)
          ])
unfolding tag_source_text strip_leading_direction_tag with_tag
strip-tag source_text language = elim (Bool-cases (language =? spanish)) [
  | inl es ↦
      let found = rw (sym ((text_eq.beq_iff language spanish).0 es)) at tag_of-spanish in
      rw (es, found) (refl, untag (text "__es__") source_text)
  | inr not_es ↦ elim (Bool-cases (language =? kaqchikel)) [
    | inl cak ↦
        let found = rw (sym ((text_eq.beq_iff language kaqchikel).0 cak)) at tag_of-kaqchikel in
        rw (not_es, cak, found) (refl, untag (text "__cak__") source_text)
    | inr not_cak ↦
        let absent = tag_of-other language not_es not_cak in
        rw (not_es, not_cak, absent) (refl, unfold without_tag in refl)
  ]
]
