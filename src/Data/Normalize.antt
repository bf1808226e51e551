-- ===== src/Data/Normalize.antt =====
-- ml/data/normalize.py: Unicode form, glottal marks and white space of one sentence.
pub mod Tidy
use es_kaq_translator_v.Base.{ℕ, Bool, true, false, List, [], ◌∷◌, map, ◌==◌, if◌then◌else◌}
use es_kaq_translator_v.Text.{Text}
use es_kaq_translator_v.Text.Space.{is_space, strip}

abbrev pub SentencePair : Type 0
SentencePair = Text × Text

-- U+02C8, the look-alike that the corpus holds, and the apostrophe.
abbrev pub glottal_lookalike : ℕ
glottal_lookalike = 0x2c8

abbrev pub ascii_apostrophe : ℕ
ascii_apostrophe = 39

unfoldable pub translate_mark : ℕ → ℕ
translate_mark c = if c == glottal_lookalike then ascii_apostrophe else c

unfoldable pub normalize_glottal_marks : Text → Text
normalize_glottal_marks = map translate_mark

-- `_WHITESPACE_RE.sub(" ", s)`; the flag says that a run of white space has begun.
unfoldable pub squeeze_from : Bool → Text → Text
squeeze_from in_run [] = []
squeeze_from in_run (c ∷ s) =
    let rest = squeeze_from (is_space c) s in
    if is_space c then (if in_run then rest else 32 ∷ rest) else c ∷ rest

unfoldable pub squeeze : Text → Text
squeeze = squeeze_from false

-- `unicodedata.normalize("NFC", text)` is the parameter.
module _ (nfc : Text → Text) where
  unfoldable pub normalize_text : Text → Text
  normalize_text t = strip (squeeze (normalize_glottal_marks (nfc t)))

  unfoldable pub normalize_pair : Text → Text → SentencePair
  normalize_pair es cak = (normalize_text es, normalize_text cak)
