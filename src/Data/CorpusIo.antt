-- ===== src/Data/CorpusIo.antt =====
-- ml/data/corpus_io.py: corpora as files or S3 objects of two tab-separated columns.
pub mod RoundTrip
use es_kaq_translator_v.Base.{
  ℕ, ◌+◌, ◌≡◌, Bool, true, false, Option, none, some, List, [], ◌∷◌, ◌++◌, map, length, drop,
  if◌then◌else◌, pair_eq,
}
use es_kaq_translator_v.Base.Dict.{Dict, lookup, insert}
use es_kaq_translator_v.Text.{Text, text, text_eq, starts_with, join}
use es_kaq_translator_v.Text.Space.{is_blank}
use es_kaq_translator_v.Text.Split.{split, partition}
use es_kaq_translator_v.Text.Lines.{splitlines, universal_newlines}
use es_kaq_translator_v.Data.Normalize.{SentencePair}

abbrev pub s3_prefix : Text
s3_prefix = text "s3://"

unfoldable pub parse_s3_uri : Text → Text × Text
parse_s3_uri uri = partition b'/' (drop (length s3_prefix) uri)

-- The decoded contents of the local files, and of the S3 objects by bucket and key. A path that is not
-- writable is one that `open` or `put_object` refuses.
pub record Storage : Type 0 where
  pub writable : Text → Bool
  pub files : Dict Text Text
  pub objects : Dict (Text × Text) Text

-- A file that is missing raises the error of `open` or of S3, a bad row `ValueError` with its line
-- number and its number of fields.
pub data Read (A : Type 0) : Type 0 where
  ok : A → Read A
  missing : Read A
  value_error : (line_number fields : ℕ) → Read A

unfoldable pub opened : Option Text → Read Text
opened none = missing
opened (some t) = ok (universal_newlines t)

unfoldable pub fetched : Option Text → Read Text
fetched none = missing
fetched (some t) = ok t

unfoldable pub read_text : Storage → Text → Read Text
read_text st path =
    if starts_with path s3_prefix
    then fetched (lookup (parse_s3_uri path) st.objects)
    else opened (lookup path st.files)

-- Whether the write is refused, which raises the error of `open` or of S3.
pub data Write : Type 0 where
  written refused : Write

unfoldable pub with_contents : Text → Text → Storage → Storage
with_contents t path st =
    if starts_with path s3_prefix
    then record st { objects = insert (parse_s3_uri path) t st.objects }
    else record st { files = insert path t st.files }

unfoldable pub write_text : Text → Text → Storage → Write × Storage
write_text t path st =
    if st.writable path then (written, with_contents t path st) else (refused, st)

-- `es, cak = fields`, where there are two.
unfoldable pub two_fields : List Text → Option SentencePair
two_fields (es ∷ cak ∷ []) = some (es, cak)
two_fields _ = none

unfoldable pub with_pair : SentencePair → Read (List SentencePair) → Read (List SentencePair)
with_pair p (ok pairs) = ok (p ∷ pairs)
with_pair p missing = missing
with_pair p (value_error n fields) = value_error n fields

-- The loop over the numbered lines.
unfoldable pub parse_lines : ℕ → List Text → Read (List SentencePair)
parse_lines line_number [] = ok []
parse_lines line_number (line ∷ lines) =
    let rest = parse_lines (line_number + 1) lines in
    let fields = split 9 line in
    if is_blank line then rest else elim (two_fields fields) [
      | some p ↦ with_pair p rest
      | none ↦ value_error line_number (length fields)
    ]

unfoldable pub parsed : Read Text → Read (List SentencePair)
parsed (ok t) = parse_lines 1 (splitlines t)
parsed missing = missing
parsed (value_error n fields) = value_error n fields

unfoldable pub read_tsv_pairs : Storage → Text → Read (List SentencePair)
read_tsv_pairs st path = parsed (read_text st path)

-- `f"{es}\t{cak}"`
unfoldable pub row : SentencePair → Text
row (es, cak) = es ++ (9 ∷ cak)

-- `if text: text += "\n"`
unfoldable pub ended : Text → Text
ended [] = []
ended (c ∷ t) = (c ∷ t) ++ (10 ∷ [])

unfoldable pub render : List SentencePair → Text
render pairs = ended (join (10 ∷ []) (map row pairs))

unfoldable pub write_tsv_pairs : List SentencePair → Text → Storage → Write × Storage
write_tsv_pairs pairs path st = write_text (render pairs) path st
