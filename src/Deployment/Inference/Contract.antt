-- ===== src/Deployment/Inference/Contract.antt =====
-- ml/deployment/inference.py: the contract of a request body.
use es_kaq_translator_v.Base.{
  ℕ, ◌≡◌, refl, sym, ap, ◌∙◌, true, false, some, [], ◌∷◌, ◌=?◌, ◌↔◌, ◌⊎◌, inl, inr, elem, arith,
  Bool-cases, Option-cases, subst,
}
use es_kaq_translator_v.Text.{Text, text, text_eq}
use es_kaq_translator_v.Text.Space.{strip}
use es_kaq_translator_v.Api.Json.{Json, Fields, get_field}
use es_kaq_translator_v.Deployment.Inference.{
  InferenceRequest, ok, supported, supported_langs, with_text, check_fields, parse_request,
}

-- The contract of a request body, field by field.
pub record IsRequest (payload : Fields) (request : InferenceRequest) : Type 0 where
  pub source : get_field (text "source_lang") payload ≡ some (Json.str request.source_lang)
  pub target : get_field (text "target_lang") payload ≡ some (Json.str request.target_lang)
  pub source_known : elem request.source_lang supported_langs ≡ true
  pub target_known : elem request.target_lang supported_langs ≡ true
  pub differ : (request.source_lang =? request.target_lang) ≡ false
  pub given : Text
  pub text_field : get_field (text "text") payload ≡ some (Json.str given)
  pub stripped : request.text ≡ strip given
  pub not_empty : (c : ℕ) × (s : Text) × (strip given ≡ c ∷ s)

pub Text-cases : (t : Text) → (t ≡ []) ⊎ ((c : ℕ) × (s : Text) × (t ≡ c ∷ s))
Text-cases [] = inl refl
Text-cases (c ∷ s) = inr (c, s, refl)

supported-some :
    (j : Json) {lang : Text}
    → supported j ≡ some lang
    → (j ≡ Json.str lang) × (elem lang supported_langs ≡ true)
unfolding supported
supported-some (Json.str t) {lang} h = elim (Bool-cases (elem t supported_langs)) [
  | inl known ↦ let e : t ≡ lang = ground arith in (ap Json.str e, rw e at known)
  | inr unknown ↦ cc (rw unknown at h)
]
supported-some Json.null h = cc
supported-some (Json.bool b) h = cc
supported-some (Json.num n) h = cc
supported-some (Json.arr i) h = cc
supported-some (Json.obj f) h = cc

supported_known : (t : Text) → elem t supported_langs ≡ true → supported (Json.str t) ≡ some t
unfolding supported
supported_known t h = rw h refl

parse_request_of :
    (payload : Fields) (request : InferenceRequest)
    → IsRequest payload request
    → parse_request payload ≡ ok request
unfolding parse_request check_fields with_text
parse_request_of payload request h =
    let (c, s, e) = h.not_empty in
    rw
      (
        h.source,
        parse_request,
        h.target,
        h.text_field,
        check_fields,
        supported_known _ h.source_known,
        supported_known _ h.target_known,
        h.differ,
        with_text,
        e,
      )
      (ap (λ t. ok (record request { text = t })) (sym (h.stripped ∙ e)))

abbrev made : Text → Text → ℕ → Text → InferenceRequest
made source target c s = record { source_lang = source; target_lang = target; text = c ∷ s }

with_text-ok :
    (source target : Text) (j : Json) {request : InferenceRequest}
    → with_text source target j ≡ ok request
    → (t : Text) × (j ≡ Json.str t)
      × (request.source_lang ≡ source)
      × (request.target_lang ≡ target)
      × (request.text ≡ strip t)
      × ((c : ℕ) × (s : Text) × (strip t ≡ c ∷ s))
unfolding with_text
with_text-ok source target (Json.str t) {request} h = elim (Text-cases (strip t)) [
  | inl no_text ↦ cc (rw (no_text, with_text) at h)
  | inr (c, s, e) ↦
      let q : made source target c s ≡ request = cc (rw (e, with_text) at h) in
      (
        t,
        refl,
        ap (λ r. r.source_lang) (sym q),
        ap (λ r. r.target_lang) (sym q),
        ap (λ r. r.text) (sym q) ∙ sym e,
        (c, s, e),
      )
]
with_text-ok source target Json.null h = cc
with_text-ok source target (Json.bool b) h = cc
with_text-ok source target (Json.num n) h = cc
with_text-ok source target (Json.arr i) h = cc
with_text-ok source target (Json.obj f) h = cc

check_fields-ok :
    (s t x : Json) {request : InferenceRequest}
    → check_fields s t x ≡ ok request
    → (a : Text) × (b : Text) × (supported s ≡ some a)
      × (supported t ≡ some b)
      × ((a =? b) ≡ false)
      × (with_text a b x ≡ ok request)
unfolding check_fields
check_fields-ok s t x h = elim (Option-cases (supported s)) [
  | inl no_s ↦ cc (rw (no_s, check_fields) at h)
  | inr (a, known) ↦ elim (Option-cases (supported t)) [
    | inl no_t ↦ cc (rw (known, check_fields, no_t) at h)
    | inr (b, known') ↦ elim (Bool-cases (a =? b)) [
      | inl same ↦ cc (rw (known, check_fields, known', same) at h)
      | inr other ↦ (a, b, known, known', other, rw (known, check_fields, known', other) at h)
    ]
  ]
]

parse_request-ok :
    (payload : Fields) {request : InferenceRequest}
    → parse_request payload ≡ ok request
    → (s : Json) × (t : Json) × (x : Json) × (get_field (text "source_lang") payload ≡ some s)
      × (get_field (text "target_lang") payload ≡ some t)
      × (get_field (text "text") payload ≡ some x)
      × (check_fields s t x ≡ ok request)
unfolding parse_request
parse_request-ok payload h = elim (Option-cases (get_field (text "source_lang") payload)) [
  | inl no_s ↦ cc (rw (no_s, parse_request) at h)
  | inr (s, e) ↦ elim (Option-cases (get_field (text "target_lang") payload)) [
    | inl no_t ↦ cc (rw (e, parse_request, no_t) at h)
    | inr (t, f) ↦ elim (Option-cases (get_field (text "text") payload)) [
      | inl no_x ↦ cc (rw (e, parse_request, f, no_x) at h)
      | inr (x, g) ↦ (s, t, x, e, f, g, rw (e, parse_request, f, g) at h)
    ]
  ]
]

parsed-IsRequest :
    (payload : Fields) (request : InferenceRequest)
    → parse_request payload ≡ ok request
    → IsRequest payload request
parsed-IsRequest payload request h =
    let (s, t, x, e, f, g, checked) = parse_request-ok payload h in
    let (a, b, known_s, known_t, other, made_text) = check_fields-ok s t x checked in
    let (given, is_text, same_s, same_t, same_x, visible) = with_text-ok a b x made_text in
    let (str_s, in_s) = supported-some s known_s in
    let (str_t, in_t) = supported-some t known_t in
    record {
      source = e ∙ ap some (str_s ∙ ap Json.str (sym same_s));
      target = f ∙ ap some (str_t ∙ ap Json.str (sym same_t));
      source_known = subst (λ l. elem l supported_langs ≡ true) (sym same_s) in_s;
      target_known = subst (λ l. elem l supported_langs ≡ true) (sym same_t) in_t;
      differ = rw (same_s, same_t) other;
      given = given;
      text_field = g ∙ ap some is_text;
      stripped = same_x;
      not_empty = visible;
    }

-- A body is parsed as a request exactly when it names two different supported languages, has a
-- string as its text that is more than white space, and the request holds these languages and the
-- text without the white space at its ends.
pub parse_request_iff :
    (payload : Fields) (request : InferenceRequest)
    → (parse_request payload ≡ ok request) ↔ IsRequest payload request
parse_request_iff payload request =
    (parsed-IsRequest payload request, parse_request_of payload request)
