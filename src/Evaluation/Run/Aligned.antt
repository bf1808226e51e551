-- ===== src/Evaluation/Run/Aligned.antt =====
-- ml/evaluation/run.py: the lines that are read back from the files of a run.
use es_kaq_translator_v.Base.{
  ℕ, ◌≡◌, ◌≢◌, refl, ap, sym, ◌∙◌, true, false, List, [], ◌∷◌, ◌++◌, map, ◌==◌, nat_eq, arith, All,
  append_assoc, All-map, All-append,
}
use es_kaq_translator_v.Text.{Text}
use es_kaq_translator_v.Text.Space.{strip}
use es_kaq_translator_v.Text.Split.{onto_first}
use es_kaq_translator_v.Text.Lines.{
  is_break, lines_from, splitlines, splitlines-append, universal_newlines_id,
}
use es_kaq_translator_v.Evaluation.ModelCard.Search.{ended, join-ended}
use es_kaq_translator_v.Evaluation.Run.{lines_file, read_lines}

-- A line that `splitlines` leaves whole.
abbrev pub IsUnbroken : Text → Type 0
IsUnbroken = All (λ c. is_break c ≡ false)

unbroken-no_return : (c : ℕ) → is_break c ≡ false → (c == 13) ≡ false
unfolding is_break
unbroken-no_return c h = ground arith

ended-no_return : (ls : List Text) → All IsUnbroken ls → All (λ c. (c == 13) ≡ false) (ended ls)
ended-no_return [] h = tt
ended-no_return (l ∷ ls) h =
    All-append (λ c. (c == 13) ≡ false) l (10 ∷ ended ls)
      (All-map (λ c. is_break c ≡ false) (λ c. (c == 13) ≡ false) unbroken-no_return l h.0)
      (refl, ended-no_return ls h.1)

splitlines-ended : (ls : List Text) → All IsUnbroken ls → splitlines (ended ls) ≡ ls
unfolding splitlines lines_from
splitlines-ended [] h = refl
splitlines-ended (l ∷ ls) h =
    splitlines-append l (ended ls) h.0 ∙ ap (◌∷◌ l) (splitlines-ended ls h.1)

pub lines_file-ended : (ls : List Text) → ls ≢ [] → lines_file ls ≡ ended ls
unfolding lines_file
lines_file-ended [] h = absurd (h refl)
lines_file-ended (l ∷ ls) h = join-ended l ls

-- At least one line, none of them broken: the lines read are those written, stripped.
pub read-lines_file :
    (ls : List Text) → ls ≢ [] → All IsUnbroken ls → read_lines (lines_file ls) ≡ map strip ls
unfolding read_lines
read-lines_file ls ne h =
    rw
      (
        lines_file-ended ls ne,
        universal_newlines_id (ended ls) (ended-no_return ls h),
        splitlines-ended ls h,
      )
      refl

-- A code point that ends a line, and is no carriage return, cuts the text in two.
splitlines-cut :
    (a : Text) (b : ℕ) (rest : Text)
    → IsUnbroken a
    → is_break b ≡ true
    → (b == 13) ≡ false
    → splitlines (a ++ (b ∷ rest)) ≡ a ∷ splitlines rest
unfolding splitlines lines_from onto_first
splitlines-cut [] b rest h e f = ground arith
splitlines-cut (c ∷ a) b rest h e f =
    ground (arith, splitlines-cut a b rest h.1 e f, unbroken-no_return c h.0)

ended-append : (ls ms : List Text) → ended (ls ++ ms) ≡ ended ls ++ ended ms
ended-append [] ms = refl
ended-append (l ∷ ls) ms =
    ap (λ t. l ++ (10 ∷ t)) (ended-append ls ms) ∙ sym (append_assoc l (10 ∷ ended ls) (ended ms))

splitlines-ended_append :
    (ls : List Text) (rest : Text)
    → All IsUnbroken ls
    → splitlines (ended ls ++ rest) ≡ ls ++ splitlines rest
unfolding splitlines
splitlines-ended_append [] rest h = refl
splitlines-ended_append (l ∷ ls) rest h =
    ap splitlines (append_assoc l (10 ∷ ended ls) rest)
    ∙ splitlines-append l (ended ls ++ rest) h.0
    ∙ ap (◌∷◌ l) (splitlines-ended_append ls rest h.1)

module _ (before after : List Text) (a c : Text) (b : ℕ) (h : All IsUnbroken before)
    (k : All IsUnbroken after) (left : IsUnbroken a) (right : IsUnbroken c) (e : is_break b ≡ true)
    (f : (b == 13) ≡ false) where
  unfoldable pub broken : List Text
  broken = before ++ ((a ++ (b ∷ c)) ∷ after)

  pub broken-no_return : All (λ d. (d == 13) ≡ false) (ended broken)
  unfolding broken
  broken-no_return =
      let P : ℕ → Type 0 = λ d. (d == 13) ≡ false in
      let plain = All-map (λ d. is_break d ≡ false) P unbroken-no_return in
      rw (ended-append before ((a ++ (b ∷ c)) ∷ after)) (
        All-append P (ended before) (ended ((a ++ (b ∷ c)) ∷ after)) (ended-no_return before h) (
          All-append P (a ++ (b ∷ c)) (10 ∷ ended after)
            (All-append P a (b ∷ c) (plain a left) (f, plain c right))
            (refl, ended-no_return after k)))

  pub splitlines-broken : splitlines (ended broken) ≡ before ++ (a ∷ c ∷ after)
  unfolding broken
  splitlines-broken =
      ap splitlines (ended-append before ((a ++ (b ∷ c)) ∷ after))
      ∙ splitlines-ended_append before (ended ((a ++ (b ∷ c)) ∷ after)) h
      ∙ ap (λ t. before ++ t)
          (ap splitlines (append_assoc a (b ∷ c) (10 ∷ ended after))
            ∙ splitlines-cut a b (c ++ (10 ∷ ended after)) left e f
            ∙ ap (◌∷◌ a)
                (splitlines-append c (ended after) right ∙ ap (◌∷◌ c) (splitlines-ended after k)))
