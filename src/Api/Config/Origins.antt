-- ===== src/Api/Config/Origins.antt =====
-- apps/api/app/config.py: the list of origins that a variable holds.
use es_kaq_translator_v.Base.{
  ℕ, ◌≡◌, refl, ap, ◌∙◌, true, false, some, List, [], ◌∷◌, map, filter_b, not, elem, All, nat_eq,
}
use es_kaq_translator_v.Text.{Text, join}
use es_kaq_translator_v.Text.Space.{strip, is_blank, lstrip, rstrip}
use es_kaq_translator_v.Text.Split.{split, split-append, split_absent}
use es_kaq_translator_v.Api.Config.{origins_of, get_allowed_origins}

-- An origin as it is written in the variable: not blank, without white space at its ends, and
-- without a comma.
pub record IsOrigin (origin : Text) : Type 0 where
  pub visible : is_blank origin ≡ false
  pub stripped : strip origin ≡ origin
  pub no_comma : elem b',' origin ≡ false

split-join :
    (o : Text) (os : List Text)
    → All IsOrigin (o ∷ os)
    → split b',' (join (b',' ∷ []) (o ∷ os)) ≡ o ∷ os
unfolding join
split-join o [] h = split_absent b',' o h.0.no_comma
split-join o (p ∷ os) h =
    split-append b',' o (join (b',' ∷ []) (p ∷ os)) h.0.no_comma ∙ ap (◌∷◌ o) (split-join p os h.1)

strip_origins :
    (os : List Text)
    → All IsOrigin os
    → map strip (filter_b (λ origin. not (is_blank origin)) os) ≡ os
strip_origins [] h = refl
strip_origins (o ∷ os) h = rw (h.0.visible, h.0.stripped, strip_origins os h.1) refl

join_cons :
    (c : ℕ) (o : Text) (os : List Text) → (t : Text) × (join (b',' ∷ []) ((c ∷ o) ∷ os) ≡ c ∷ t)
unfolding join
join_cons c o [] = (o, refl)
join_cons c o (p ∷ os) = (_, refl)

some_origins :
    (raw : Text) (c : ℕ) (t : Text) → raw ≡ c ∷ t → get_allowed_origins (some raw) ≡ origins_of raw
unfolding get_allowed_origins
some_origins raw c t e = rw e refl

blank_nothing : is_blank [] ≡ true
unfolding is_blank strip
blank_nothing = unfold lstrip rstrip in refl

-- A variable that holds some origins, joined by commas, allows exactly these, in their order.
pub get_allowed_origins-join :
    (o : Text) (os : List Text)
    → All IsOrigin (o ∷ os)
    → get_allowed_origins (some (join (b',' ∷ []) (o ∷ os))) ≡ o ∷ os
get_allowed_origins-join [] os h = cc (h.0.visible, blank_nothing)
get_allowed_origins-join (c ∷ o) os h =
    let (t, e) = join_cons c o os in
    some_origins (join (b',' ∷ []) ((c ∷ o) ∷ os)) c t e
    ∙ unfold origins_of in
      (ap (λ l. map strip (filter_b (λ origin. not (is_blank origin)) l)) (split-join (c ∷ o) os h)
        ∙ strip_origins ((c ∷ o) ∷ os) h)
