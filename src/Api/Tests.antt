-- ===== src/Api/Tests.antt =====
-- The theorems on the configuration and on validation messages at small inputs.
use es_kaq_translator_v.Base.{refl, none, some, List, [], ◌∷◌}
use es_kaq_translator_v.Text.{text}
use es_kaq_translator_v.Text.Space.{strip, is_blank, lstrip, rstrip, rstrip_cons, is_space}
use es_kaq_translator_v.Api.Config.Origins.{IsOrigin}
use es_kaq_translator_v.Api.Validation.{ErrorDetail}

a-IsOrigin : IsOrigin (text "http://a")
unfolding is_blank strip lstrip rstrip rstrip_cons is_space
a-IsOrigin = record { visible = refl; stripped = refl; no_comma = refl }

b-IsOrigin : IsOrigin (text "http://b")
unfolding is_blank strip lstrip rstrip rstrip_cons is_space
b-IsOrigin = record { visible = refl; stripped = refl; no_comma = refl }

abbrev errors : List ErrorDetail
errors =
    record { loc = []; kind = none }
    ∷ record { loc = text "body" ∷ text "text" ∷ []; kind = some (text "string_too_long") }
    ∷ []
