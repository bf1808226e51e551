-- ===== src/Training/Generation/Translated.antt =====
-- ml/training/train.py: generate_translations, against a translation of each example by itself.
use es_kaq_translator_v.Base.{
  ℕ, zero, suc, ◌≤◌, ◌<◌, ◌≡◌, refl, ap, subst, sym, ◌∙◌, true, Option, none, some, List, [], ◌∷◌,
  map, length, get_elem?, elem, nat_eq, take, drop, take-append-drop, length-drop, arith, All,
  Bool-cases, inl, inr,
}
use es_kaq_translator_v.Base.Dict.{Dict}
use es_kaq_translator_v.Text.{Text, text_eq}
use es_kaq_translator_v.Training.Direction.{
  Outcome, TranslationExample, tag_of, tag_source_text, strip_leading_direction_tag,
}
use es_kaq_translator_v.Training.Generation.{
  ok, Decoder, grouped, fill, batch_texts, empty_slots, set_slot, run_batch, run_batches,
  run_languages, generate_translations,
}
use es_kaq_translator_v.Training.Generation.Slots.{
  IsFilled, set_all, set_all-append, keep_all, length-set_all, all-IsFilled, all_filled-wanted,
  length-empty_slots, get-inside,
}
use es_kaq_translator_v.Training.Generation.Groups.{
  in_groups, grouped-in, AllGroups, grouped-AllGroups,
}

-- The tag of a language that has one.
abbrev pub tag_text : Text → Text
tag_text language = elim (tag_of language) [
  | Outcome.ok t ↦ t
  | Outcome.key_error k ↦ []
  | Outcome.value_error v ↦ []
]

-- The example's translation by itself: its tagged source is generated from, and the tag stripped.
pub record IsTranslated (one : ℕ → Text → Text) (token_id : Text → ℕ) (example : TranslationExample)
    (want : Text) : Type 0 where
  pub tagged : tag_of example.target_lang ≡ Outcome.ok (tag_text example.target_lang)
  pub source : Text
  pub has_source : tag_source_text example.source_text example.target_lang ≡ Outcome.ok source
  pub stripped :
      strip_leading_direction_tag
        (one (token_id (tag_text example.target_lang)) source)
        example.target_lang
      ≡ Outcome.ok want

module _ (decoder : Decoder) (examples : List TranslationExample) (one : ℕ → Text → Text)
    (want : TranslationExample → Text)
    (per_text : (bos : ℕ) (ts : List Text) → decoder.generate bos ts ≡ map (one bos) ts) where
  -- What is wanted at an index.
  text_at : ℕ → Text
  text_at i = elim (get_elem? examples i) [ none ↦ [] | some e ↦ want e ]

  text_at-get :
      (i : ℕ) (e : TranslationExample) → get_elem? examples i ≡ some e → text_at i ≡ want e
  unfolding text_at
  text_at-get i e h = rw (text_at, h) refl

  -- The example at the index is of this language, and translated as wanted.
  Ready : Text → ℕ → Type 0
  Ready language i =
      (e : TranslationExample) × (s : Text) × (get_elem? examples i ≡ some e)
      × (tag_source_text e.source_text language ≡ Outcome.ok s)
      × (strip_leading_direction_tag (one (decoder.token_id (tag_text language)) s) language
          ≡ Outcome.ok (text_at i))

  HasTag : Text → Type 0
  HasTag language = tag_of language ≡ Outcome.ok (tag_text language)

  batch-ok :
      (language : Text) (is : List ℕ)
      → All (Ready language) is
      → (ts : List Text) × (batch_texts examples language is ≡ ok ts)
        × ((slots : List (Option Text))
            → fill language is (map (one (decoder.token_id (tag_text language))) ts) slots
              ≡ ok (set_all text_at is slots))
  unfolding batch_texts fill Ready
  batch-ok language [] h = ([], refl, λ slots. refl)
  batch-ok language (i ∷ is) h =
      let (e, s, found, source, stripped) = h.0 in
      let (ts, texts, filled) = batch-ok language is h.1 in
      (
        s ∷ ts,
        rw (found, source, texts) refl,
        λ slots. rw stripped (filled (set_slot i (text_at i) slots)),
      )

  run_batch-ok :
      (n : ℕ) (language : Text) (is : List ℕ) (slots : List (Option Text))
      → All (Ready language) is
      → run_batch decoder examples n language (decoder.token_id (tag_text language)) is slots
        ≡ ok (set_all text_at is slots)
  unfolding run_batch
  run_batch-ok n language is slots h =
      let (ts, texts, filled) = batch-ok language is h in
      rw (texts, per_text (decoder.token_id (tag_text language)) ts) (filled slots)

  All-take : (P : ℕ → Type 0) (n : ℕ) (is : List ℕ) → All P is → All P (take n is)
  All-take P zero is h = tt
  All-take P (suc n) [] h = tt
  All-take P (suc n) (i ∷ is) h = (h.0, All-take P n is h.1)

  All-drop : (P : ℕ → Type 0) (n : ℕ) (is : List ℕ) → All P is → All P (drop n is)
  All-drop P zero is h = h
  All-drop P (suc n) [] h = tt
  All-drop P (suc n) (i ∷ is) h = All-drop P n is h.1

  run_batches-ok :
      (n fuel : ℕ) (language : Text) (is : List ℕ) (slots : List (Option Text))
      → length is ≤ fuel
      → All (Ready language) is
      → run_batches decoder examples
          (suc n)
          fuel
          language
          (decoder.token_id (tag_text language))
          is
          slots
        ≡ ok (set_all text_at is slots)
  unfolding run_batches
  run_batches-ok n fuel language [] slots f h = refl
  run_batches-ok n zero language (i ∷ is) slots f h = absurd (omega arith)
  run_batches-ok n (suc fuel) language (i ∷ is) slots f h =
      let now = take (suc n) (i ∷ is) in
      let later = drop (suc n) (i ∷ is) in
      let first =
        run_batch-ok (suc n) language now slots (All-take (Ready language) (suc n) (i ∷ is) h) in
      let rest =
        run_batches-ok n fuel language later (set_all text_at now slots)
          (let l = length-drop (suc n) (i ∷ is) in omega arith)
          (All-drop (Ready language) (suc n) (i ∷ is) h) in
      rw first (
        rest
        ∙ ap ok (
            sym (set_all-append text_at now later slots)
            ∙ ap (λ js. set_all text_at js slots) (take-append-drop (suc n) (i ∷ is))))

  set_groups : Dict Text (List ℕ) → List (Option Text) → List (Option Text)
  set_groups [] slots = slots
  set_groups ((language, is) ∷ groups) slots = set_groups groups (set_all text_at is slots)

  run_languages-ok :
      (n : ℕ) (groups : Dict Text (List ℕ)) (slots : List (Option Text))
      → AllGroups HasTag Ready groups
      → run_languages decoder examples (suc n) groups slots ≡ ok (set_groups groups slots)
  unfolding run_languages set_groups HasTag
  run_languages-ok n [] slots h = refl
  run_languages-ok n ((language, is) ∷ groups) slots h =
      rw (h.0.0, run_batches-ok n (length is) language is slots (omega arith) h.0.1)
        (run_languages-ok n groups (set_all text_at is slots) h.1)

  keep_groups :
      (groups : Dict Text (List ℕ)) (j : ℕ) (slots : List (Option Text))
      → IsFilled text_at j slots
      → IsFilled text_at j (set_groups groups slots)
  unfolding set_groups
  keep_groups [] j slots h = h
  keep_groups ((language, is) ∷ groups) j slots h =
      keep_groups groups j (set_all text_at is slots) (keep_all text_at is j slots h)

  groups-IsFilled :
      (groups : Dict Text (List ℕ)) (j : ℕ) (slots : List (Option Text))
      → in_groups j groups ≡ true
      → j < length slots
      → IsFilled text_at j (set_groups groups slots)
  unfolding set_groups
  groups-IsFilled [] j slots e h = absurd cc
  groups-IsFilled ((language, is) ∷ groups) j slots e h = elim (Bool-cases (elem j is)) [
    | inl here ↦
        keep_groups groups j (set_all text_at is slots) (all-IsFilled text_at is j slots here h)
    | inr later ↦
        groups-IsFilled groups j (set_all text_at is slots) (rw later at e)
          (let l = length-set_all text_at is slots in omega arith)
  ]

  length-set_groups :
      (groups : Dict Text (List ℕ)) (slots : List (Option Text))
      → length (set_groups groups slots) ≡ length slots
  unfolding set_groups
  length-set_groups [] slots = refl
  length-set_groups ((language, is) ∷ groups) slots =
      length-set_groups groups (set_all text_at is slots) ∙ length-set_all text_at is slots

  All-get :
      (P : TranslationExample → Type 0) (xs : List TranslationExample) (j : ℕ)
      (x : TranslationExample)
      → All P xs
      → get_elem? xs j ≡ some x
      → P x
  All-get P [] j x h e = absurd cc
  All-get P (y ∷ xs) zero x h e = (let y_x : y ≡ x = cc in subst P y_x h.0)
  All-get P (y ∷ xs) (suc j) x h e = All-get P xs j x h.1 e

  -- For a decoder that treats each text of a batch by itself, a positive batch size and examples whose
  -- languages have tags: all slots are filled, and the result is each example's translation by
  -- itself, in the order of the examples, however they are grouped and cut into batches.
  pub generate_translations_lem :
      (n : ℕ)
      → All (λ e. IsTranslated one decoder.token_id e (want e)) examples
      → generate_translations decoder examples (suc n) ≡ ok (map want examples)
  unfolding generate_translations Ready HasTag
  generate_translations_lem n h =
      let groups = grouped [] 0 examples in
      let slots = empty_slots examples in
      let ready : AllGroups HasTag Ready groups =
        grouped-AllGroups HasTag Ready examples [] 0 examples
          (λ j x found.
            let t =
              All-get (λ e. IsTranslated one decoder.token_id e (want e)) examples j x h found in
            (
              t.tagged,
              (
                x,
                t.source,
                found,
                t.has_source,
                t.stripped ∙ ap (λ w. Outcome.ok w) (sym (text_at-get j x found)),
              ),
            ))
          (λ j k e. ap (get_elem? examples) (omega arith)) tt in
      let size = length-empty_slots examples in
      rw (run_languages-ok n groups slots ready) (
        all_filled-wanted want examples (set_groups groups slots)
          (length-set_groups groups slots ∙ size)
          (λ j x found.
            let inside = get-inside examples j x found in
            groups-IsFilled groups j slots (grouped-in j j [] 0 examples inside (omega arith))
              (omega arith)
            ∙ ap (λ w. some (some w)) (text_at-get j x found)))
