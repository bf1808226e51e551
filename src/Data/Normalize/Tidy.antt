-- ===== src/Data/Normalize/Tidy.antt =====
-- ml/data/normalize.py: the form of a normalised sentence.
use es_kaq_translator_v.Base.{
  ℕ, ◌≡◌, refl, Bool, true, false, [], ◌∷◌, ◌==◌, ◌&&◌, not, if◌then◌else◌, arith,
}
use es_kaq_translator_v.Text.{Text}
use es_kaq_translator_v.Text.Space.{
  is_space, strip, lstrip, rstrip, rstrip_cons, HasInkAhead, HasInkBehind, strip-HasInkAhead,
  strip-HasInkBehind, strip_of_ink,
}
use es_kaq_translator_v.Data.Normalize.{
  translate_mark, normalize_glottal_marks, glottal_lookalike, squeeze_from, squeeze, normalize_text,
}

-- White space is single spaces, and there is no look-alike of the apostrophe. The flag says that
-- white space came right before.
unfoldable pub is_squeezed : Bool → Text → Bool
is_squeezed after [] = true
is_squeezed after (c ∷ s) =
    (if is_space c then c == 32 && not after else not (c == glottal_lookalike))
    && is_squeezed (is_space c) s

-- A tidy sentence has, besides, no white space at its ends.
pub record IsTidy (s : Text) : Type 0 where
  pub squeezed : is_squeezed false s ≡ true
  pub ahead : HasInkAhead s
  pub behind : HasInkBehind s

is_squeezed-weaken : (s : Text) → is_squeezed true s ≡ true → is_squeezed false s ≡ true
unfolding is_squeezed
is_squeezed-weaken [] h = h
is_squeezed-weaken (c ∷ s) h = ground arith

translate_mark_clean : (c : ℕ) → (translate_mark c == glottal_lookalike) ≡ false
unfolding translate_mark
translate_mark_clean c = ground arith

space_32 : is_space 32 ≡ true
unfolding is_space
space_32 = refl

squeeze_from-is_squeezed :
    (b : Bool) (s : Text) → is_squeezed b (squeeze_from b (normalize_glottal_marks s)) ≡ true
unfolding squeeze_from normalize_glottal_marks is_squeezed
squeeze_from-is_squeezed b [] = refl
squeeze_from-is_squeezed true (c ∷ s) =
    ground (arith, translate_mark_clean c, squeeze_from-is_squeezed (is_space (translate_mark c)) s)
squeeze_from-is_squeezed false (c ∷ s) = ground (
  arith,
  space_32,
  translate_mark_clean c,
  squeeze_from-is_squeezed (is_space (translate_mark c)) s,
)

lstrip-is_squeezed :
    (b : Bool) (s : Text) → is_squeezed b s ≡ true → is_squeezed false (lstrip s) ≡ true
unfolding lstrip is_squeezed
lstrip-is_squeezed b [] h = refl
lstrip-is_squeezed b (c ∷ s) h = ground (arith, lstrip-is_squeezed (is_space c) s)

rstrip_cons-is_squeezed :
    (b : Bool) (c : ℕ) (s : Text)
    → is_squeezed b (c ∷ s) ≡ true
    → is_squeezed b (rstrip_cons c s) ≡ true
unfolding rstrip_cons is_squeezed
rstrip_cons-is_squeezed b c [] h = ground arith
rstrip_cons-is_squeezed b c (d ∷ s) h = h

rstrip-is_squeezed :
    (b : Bool) (s : Text) → is_squeezed b s ≡ true → is_squeezed b (rstrip s) ≡ true
unfolding rstrip is_squeezed
rstrip-is_squeezed b [] h = refl
rstrip-is_squeezed b (c ∷ s) h =
    rstrip_cons-is_squeezed b c (rstrip s) (ground (arith, rstrip-is_squeezed (is_space c) s))

squeeze_of_squeezed : (b : Bool) (s : Text) → is_squeezed b s ≡ true → squeeze_from b s ≡ s
unfolding squeeze_from is_squeezed
squeeze_of_squeezed b [] h = refl
squeeze_of_squeezed b (c ∷ s) h = ground (arith, squeeze_of_squeezed (is_space c) s)

marks_of_squeezed : (b : Bool) (s : Text) → is_squeezed b s ≡ true → normalize_glottal_marks s ≡ s
unfolding normalize_glottal_marks translate_mark is_squeezed is_space
marks_of_squeezed b [] h = refl
marks_of_squeezed b (c ∷ s) h = ground (arith, marks_of_squeezed (is_space c) s)

module _ (nfc : Text → Text) where
  -- Every normalised sentence is tidy, whatever `nfc` returns.
  pub normalize_text-IsTidy : (t : Text) → IsTidy (normalize_text nfc t)
  unfolding normalize_text strip squeeze
  normalize_text-IsTidy t =
      let s = squeeze_from false (normalize_glottal_marks (nfc t)) in
      record {
        squeezed =
            rstrip-is_squeezed false (lstrip s)
              (lstrip-is_squeezed false s (squeeze_from-is_squeezed false (nfc t)));
        ahead = strip-HasInkAhead s;
        behind = strip-HasInkBehind s;
      }

  -- A tidy sentence in normal form is left as it is.
  pub normalize_text_tidy : (t : Text) → IsTidy t → nfc t ≡ t → normalize_text nfc t ≡ t
  unfolding normalize_text squeeze
  normalize_text_tidy t h e =
      rw (e, marks_of_squeezed false t h.squeezed, squeeze_of_squeezed false t h.squeezed)
        (strip_of_ink t h.ahead h.behind)
