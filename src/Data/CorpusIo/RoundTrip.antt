-- ===== src/Data/CorpusIo/RoundTrip.antt =====
-- ml/data/corpus_io.py: writing against reading, and rows that are not two columns.
use es_kaq_translator_v.Base.{
  ℕ, ◌+◌, ◌≡◌, refl, ap, ◌∙◌, Bool, true, false, none, List, [], ◌∷◌, ◌++◌, map, length, ◌==◌, ◌&&◌,
  pair_eq, All, All-append, All-map, elem, nat_eq, arith, beq_refl, Bool-cases, inl, inr,
  append_assoc, subst, Option-cases, not,
}
use es_kaq_translator_v.Base.Dict.{lookup-insert}
use es_kaq_translator_v.Text.{Text, text_eq, starts_with, join}
use es_kaq_translator_v.Text.Space.{is_blank}
use es_kaq_translator_v.Text.Split.{split, split-append, split_absent}
use es_kaq_translator_v.Text.Lines.{
  is_break, splitlines, lines_from, splitlines-append, universal_newlines, universal_newlines_id,
}
use es_kaq_translator_v.Data.Normalize.{SentencePair}
use es_kaq_translator_v.Data.CorpusIo.{
  Storage, Read, ok, missing, value_error, opened, fetched, read_text, with_contents, write_text,
  written, two_fields, with_pair, parse_lines, parsed, read_tsv_pairs, row, ended, render,
  write_tsv_pairs, s3_prefix, parse_s3_uri,
}

-- A code point that may stand in a column: no tab, and no end of a line.
unfoldable pub fits : ℕ → Bool
fits c = not (is_break c) && not (c == 9)

-- Both columns hold such code points alone, and the row is not blank.
pub record FitsRow (p : SentencePair) : Type 0 where
  pub es_fits : All (λ c. fits c ≡ true) p.0
  pub cak_fits : All (λ c. fits c ≡ true) p.1
  pub visible : is_blank (row p) ≡ false

no_tab : (s : Text) → All (λ c. fits c ≡ true) s → elem 9 s ≡ false
unfolding fits
no_tab [] h = refl
no_tab (c ∷ s) h = ground (arith, no_tab s h.1)

split-row : (p : SentencePair) → FitsRow p → split 9 (row p) ≡ p.0 ∷ p.1 ∷ []
unfolding row
split-row (es, cak) h =
    split-append 9 es cak (no_tab es h.es_fits)
    ∙ ap (◌∷◌ es) (split_absent 9 cak (no_tab cak h.cak_fits))

fits-no_break : (c : ℕ) → fits c ≡ true → is_break c ≡ false
unfolding fits
fits-no_break c h = ground arith

fits-no_return : (c : ℕ) → fits c ≡ true → (c == 13) ≡ false
unfolding fits is_break
fits-no_return c h = ground arith

row-All :
    (P : ℕ → Type 0)
    → P 9
    → ((c : ℕ) → fits c ≡ true → P c)
    → (p : SentencePair) → FitsRow p
    → All P (row p)
unfolding row
row-All P tab f (es, cak) h =
    All-append P es (9 ∷ cak) (All-map _ P f es h.es_fits) (tab, All-map _ P f cak h.cak_fits)

tab-no_break : is_break 9 ≡ false
unfolding is_break
tab-no_break = refl

-- The text of some rows: each ends with a newline.
unlines : List SentencePair → Text
unlines [] = []
unlines (p ∷ pairs) = row p ++ (10 ∷ unlines pairs)

row_cons : (p : SentencePair) → (c : ℕ) × (t : Text) × (row p ≡ c ∷ t)
unfolding row
row_cons ([], cak) = (9, cak, refl)
row_cons (c ∷ es, cak) = (c, es ++ (9 ∷ cak), refl)

ended_cons : (t : Text) (c : ℕ) (s : Text) → t ≡ c ∷ s → ended t ≡ t ++ (10 ∷ [])
unfolding ended
ended_cons t c s e = rw e refl

join_cons :
    (p : SentencePair) (pairs : List SentencePair)
    → (c : ℕ) × (t : Text) × (join (10 ∷ []) (map row (p ∷ pairs)) ≡ c ∷ t)
unfolding join
join_cons p [] = row_cons p
join_cons p (q ∷ pairs) =
    let (c, t, e) = row_cons p in
    (
      c,
      t ++ ((10 ∷ []) ++ join (10 ∷ []) (map row (q ∷ pairs))),
      ap (λ (u : Text). u ++ ((10 ∷ []) ++ join (10 ∷ []) (map row (q ∷ pairs)))) e,
    )

join_rows :
    (p : SentencePair) (pairs : List SentencePair)
    → join (10 ∷ []) (map row (p ∷ pairs)) ++ (10 ∷ []) ≡ unlines (p ∷ pairs)
unfolding join unlines
join_rows p [] = refl
join_rows p (q ∷ pairs) =
    append_assoc (row p) _ (10 ∷ []) ∙ ap (λ (t : Text). row p ++ (10 ∷ t)) (join_rows q pairs)

render-unlines : (pairs : List SentencePair) → render pairs ≡ unlines pairs
unfolding render unlines
render-unlines [] = unfold join ended in refl
render-unlines (p ∷ pairs) =
    let (c, t, e) = join_cons p pairs in ended_cons _ c t e ∙ join_rows p pairs

splitlines-unlines :
    (pairs : List SentencePair) → All FitsRow pairs → splitlines (unlines pairs) ≡ map row pairs
unfolding unlines
splitlines-unlines [] h = unfold splitlines lines_from in refl
splitlines-unlines (p ∷ pairs) h =
    splitlines-append (row p) (unlines pairs) (row-All _ tab-no_break fits-no_break p h.0)
    ∙ ap (◌∷◌ (row p)) (splitlines-unlines pairs h.1)

parse_lines-rows :
    (n : ℕ) (pairs : List SentencePair)
    → All FitsRow pairs
    → parse_lines n (map row pairs) ≡ ok pairs
unfolding parse_lines two_fields with_pair
parse_lines-rows n [] h = refl
parse_lines-rows n (p ∷ pairs) h =
    rw (h.0.visible, split-row p h.0, parse_lines-rows (n + 1) pairs h.1) refl

unlines-no_return :
    (pairs : List SentencePair) → All FitsRow pairs → All (λ c. (c == 13) ≡ false) (unlines pairs)
unfolding unlines
unlines-no_return [] h = tt
unlines-no_return (p ∷ pairs) h =
    All-append _ (row p) _ (row-All _ refl fits-no_return p h.0) (refl, unlines-no_return pairs h.1)

parse-render :
    (pairs : List SentencePair) → All FitsRow pairs → parsed (ok (render pairs)) ≡ ok pairs
unfolding parsed
parse-render pairs h =
    rw (render-unlines pairs, splitlines-unlines pairs h) (parse_lines-rows 1 pairs h)

render-newlines :
    (pairs : List SentencePair)
    → All FitsRow pairs
    → universal_newlines (render pairs) ≡ render pairs
render-newlines pairs h =
    rw (render-unlines pairs) (universal_newlines_id (unlines pairs) (unlines-no_return pairs h))

-- A text without carriage returns is read as it was written.
pub read-write_text :
    (st : Storage) (path t : Text)
    → universal_newlines t ≡ t
    → read_text (with_contents t path st) path ≡ ok t
unfolding with_contents read_text opened fetched
read-write_text st path t h = elim (Bool-cases (starts_with path s3_prefix)) [
  | inl e ↦
      rw
        (
          e,
          lookup-insert (parse_s3_uri path) (parse_s3_uri path) t st.objects,
          beq_refl (parse_s3_uri path),
        )
        refl
  | inr e ↦ rw (e, lookup-insert path path t st.files, beq_refl path, h) refl
]

-- A corpus that is written, to a file or to S3, reads back as the same pairs, provided that no
-- sentence holds a tab or the end of a line, no row is blank, and the path can be written.
pub read-write :
    (st : Storage) (path : Text) (pairs : List SentencePair)
    → All FitsRow pairs
    → st.writable path ≡ true
    → let (write, st') = write_tsv_pairs pairs path st in
      (write ≡ written) × (read_tsv_pairs st' path ≡ ok pairs)
unfolding read_tsv_pairs write_tsv_pairs write_text
read-write st path pairs h writable = rw writable (
  refl,
  rw (read-write_text st path (render pairs) (render-newlines pairs h)) (parse-render pairs h),
)

with_pair-ok :
    (p : SentencePair) (r : Read (List SentencePair)) {pairs : List SentencePair}
    → with_pair p r ≡ ok pairs
    → (rest : List SentencePair) × (r ≡ ok rest) × (pairs ≡ p ∷ rest)
unfolding with_pair
with_pair-ok p (ok rest) h = (rest, refl, ground arith)
with_pair-ok p missing h = cc
with_pair-ok p (value_error n f) h = cc

-- The first line that is neither blank nor two columns stops the reading, and the error holds its
-- line number and the number of its columns, whatever comes after it.
pub parse_lines-error :
    (n : ℕ) (good : List Text) (bad : Text) (rest : List Text) {pairs : List SentencePair}
    → parse_lines n good ≡ ok pairs
    → is_blank bad ≡ false
    → two_fields (split 9 bad) ≡ none
    → parse_lines n (good ++ (bad ∷ rest)) ≡ value_error (n + length good) (length (split 9 bad))
unfolding parse_lines with_pair
parse_lines-error n [] bad rest h visible two =
    rw (visible, two) (ap (λ (m : ℕ). value_error m (length (split 9 bad))) (omega arith))
parse_lines-error n (l ∷ good) bad rest h visible two =
    let moved : (n + 1) + length good ≡ n + length (l ∷ good) = omega arith in
    elim (Bool-cases (is_blank l)) [
      | inl blank ↦
          rw (blank, parse_lines)
            (subst
              (λ m.
                parse_lines (n + 1) (good ++ (bad ∷ rest)) ≡ value_error m (length (split 9 bad)))
              moved
              (parse_lines-error (n + 1) good bad rest (rw (blank, parse_lines) at h) visible two))
      | inr seen ↦ elim (Option-cases (two_fields (split 9 l))) [
        | inl absent ↦ cc (rw (seen, absent, parse_lines) at h)
        | inr (p, found) ↦
            let (good', read, e) =
              with_pair-ok p (parse_lines (n + 1) good) (rw (seen, found, parse_lines) at h) in
            rw (seen, found, parse_lines, parse_lines-error (n + 1) good bad rest read visible two)
              (ap (λ (m : ℕ). value_error m (length (split 9 bad))) moved)
      ]
    ]
