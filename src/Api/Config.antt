-- ===== src/Api/Config.antt =====
-- apps/api/app/config.py: the origins that CORS allows.
pub mod Origins
use es_kaq_translator_v.Base.{Option, none, some, List, [], ◌∷◌, map, filter_b, not}
use es_kaq_translator_v.Text.{Text, text}
use es_kaq_translator_v.Text.Space.{strip, is_blank}
use es_kaq_translator_v.Text.Split.{split}

abbrev pub default_allowed_origins : List Text
default_allowed_origins = text "http://localhost:5173" ∷ []

-- `[origin.strip() for origin in raw.split(",") if origin.strip()]`
unfoldable pub origins_of : Text → List Text
origins_of raw = map strip (filter_b (λ origin. not (is_blank origin)) (split b',' raw))

-- The variable `ALLOWED_ORIGINS`, unset or empty, gives the default.
unfoldable pub get_allowed_origins : Option Text → List Text
get_allowed_origins none = default_allowed_origins
get_allowed_origins (some []) = default_allowed_origins
get_allowed_origins (some (c ∷ raw)) = origins_of (c ∷ raw)
