-- ===== src/Deployment/S3Uri.antt =====
-- `_S3_URI_RE` of ml/deployment/deploy.py, ml/training/submit_job.py and
-- ml/evaluation/evaluate_checkpoint.py, and the functions that match a URI with it.
use es_kaq_translator_v.Base.{
  ℕ, ◌≡◌, refl, ap, ◌∙◌, Bool, true, false, Option, none, some, [], ◌∷◌, ◌++◌, ◌==◌, nat_eq,
  if◌then◌else◌, length, drop, elem, arith, all_b, not,
}
use es_kaq_translator_v.Text.{Text, text, text_eq, starts_with}
use es_kaq_translator_v.Text.Split.{partition}
use es_kaq_translator_v.Api.Result.{Result, ok, raise, value_error}

-- `(?P<key>.+)$`: one line, not empty, and at most one newline behind it.
unfoldable pub key_from : (seen : Bool) → Text → Option Text
key_from seen [] = if seen then some [] else none
key_from seen (c ∷ []) = if c == 10 then (if seen then some [] else none) else some (c ∷ [])
key_from seen (c ∷ d ∷ s) =
    let rest = key_from true (d ∷ s) in
    if c == 10 then none else elim rest [ none ↦ none | some key ↦ some (c ∷ key) ]

unfoldable pub bucket_and_key : Text × Text → Option (Text × Text)
bucket_and_key ([], key) = none
bucket_and_key (c ∷ bucket, key) = elim (key_from false key) [
  | none ↦ none
  | some k ↦ some (c ∷ bucket, k)
]

-- The two groups of `^s3://(?P<bucket>[^/]+)/(?P<key>.+)$`.
unfoldable pub match_s3_uri : Text → Option (Text × Text)
match_s3_uri uri =
    if starts_with uri (text "s3://")
    then bucket_and_key (partition b'/' (drop (length (text "s3://")) uri))
    else none

unfoldable pub parse_s3_uri : Text → Result (Text × Text)
parse_s3_uri uri = elim (match_s3_uri uri) [ none ↦ raise value_error | some parts ↦ ok parts ]

key_from-line :
    (seen : Bool) (c : ℕ) (s : Text)
    → all_b (λ d. not (d == 10)) (c ∷ s) ≡ true
    → key_from seen (c ∷ s) ≡ some (c ∷ s)
unfolding key_from
key_from-line seen c [] h = ground arith
key_from-line seen c (d ∷ s) h = ground (arith, key_from-line true d s)

partition-append :
    (sep : ℕ) (s rest : Text) → elem sep s ≡ false → partition sep (s ++ (sep ∷ rest)) ≡ (s, rest)
unfolding partition
partition-append sep [] rest h = ground arith
partition-append sep (c ∷ s) rest h = ground (arith, partition-append sep s rest)

-- The URI of an object gives back its bucket and its key, for a bucket that is not empty and has no
-- slash and a key that is not empty and has no newline.
pub parse-s3_uri :
    (b : ℕ) (bucket : Text) (c : ℕ) (key : Text)
    → elem b'/' (b ∷ bucket) ≡ false
    → all_b (λ d. not (d == 10)) (c ∷ key) ≡ true
    → parse_s3_uri (text "s3://" ++ ((b ∷ bucket) ++ (b'/' ∷ c ∷ key))) ≡ ok (b ∷ bucket, c ∷ key)
unfolding parse_s3_uri match_s3_uri starts_with bucket_and_key
parse-s3_uri b bucket c key h k =
    let parts : bucket_and_key (partition b'/' ((b ∷ bucket) ++ (b'/' ∷ c ∷ key)))
        ≡ some (b ∷ bucket, c ∷ key) =
      ap bucket_and_key (partition-append b'/' (b ∷ bucket) (c ∷ key) h)
      ∙ (rw (bucket_and_key, key_from-line false c key k) refl) in
    rw (parse_s3_uri, match_s3_uri, parts) refl
