-- ===== src/Training/Averaging/Selection.antt =====
-- ml/training/checkpoint_averaging.py: which checkpoints are averaged.
use es_kaq_translator_v.Base.{
  ℕ, zero, suc, ◌-◌, ◌≤◌, ◌≡◌, refl, Bool, List, [], ◌∷◌, ◌++◌, map, length, drop, take, leb, min,
  arith, All, All-map, Bool-cases, inl, inr, take-append-drop, length-drop,
}
use mathlib.Core.List.{Perm}
use mathlib.Core.List.Perm as Perm
use es_kaq_translator_v.Text.{Text}
use es_kaq_translator_v.Training.Averaging.{
  Digits, numbered_dirs, put_by_step, by_step, find_checkpoint_dirs, pos, negsuc, ok, value_error,
  select_last_n_checkpoints,
}

-- The steps never decrease.
abbrev pub IsAscending : List (ℕ × Text) → Type 0
IsAscending [] = Unit
IsAscending (p ∷ ps) = All (λ q. p.0 ≤ q.0) ps × IsAscending ps

put_by_step-Perm : (p : ℕ × Text) (ps : List (ℕ × Text)) → Perm (put_by_step p ps) (p ∷ ps)
unfolding put_by_step
put_by_step-Perm p [] = Perm.refl (p ∷ [])
put_by_step-Perm p (q ∷ qs) = elim (Bool-cases (leb p.0 q.0)) [
  | inl e ↦ rw e (Perm.refl (p ∷ q ∷ qs))
  | inr e ↦ rw e (Perm.trans (Perm.cons q (put_by_step-Perm p qs)) (Perm.swap p q qs))
]

by_step-Perm : (ps : List (ℕ × Text)) → Perm (by_step ps) ps
unfolding by_step
by_step-Perm [] = Perm.refl []
by_step-Perm (p ∷ ps) = Perm.trans (put_by_step-Perm p (by_step ps)) (Perm.cons p (by_step-Perm ps))

put_by_step-All :
    (n : ℕ) (p : ℕ × Text) (ps : List (ℕ × Text))
    → n ≤ p.0
    → All (λ q. n ≤ q.0) ps
    → All (λ q. n ≤ q.0) (put_by_step p ps)
unfolding put_by_step
put_by_step-All n p [] e h = (e, tt)
put_by_step-All n p (q ∷ qs) e h = elim (Bool-cases (leb p.0 q.0)) [
  | inl t ↦ rw t (e, h)
  | inr t ↦ rw t (h.0, put_by_step-All n p qs e h.1)
]

put_by_step-IsAscending :
    (p : ℕ × Text) (ps : List (ℕ × Text)) → IsAscending ps → IsAscending (put_by_step p ps)
unfolding put_by_step
put_by_step-IsAscending p [] h = (tt, tt)
put_by_step-IsAscending p (q ∷ qs) h = elim (Bool-cases (leb p.0 q.0)) [
  | inl t ↦
      let below : p.0 ≤ q.0 = ground arith in
      rw t ((below, All-map (λ r. q.0 ≤ r.0) (λ r. p.0 ≤ r.0) (λ r f. omega arith) qs h.0), h)
  | inr t ↦ rw t (put_by_step-All q.0 p qs (ground arith) h.0, put_by_step-IsAscending p qs h.1)
]

by_step-IsAscending : (ps : List (ℕ × Text)) → IsAscending (by_step ps)
unfolding by_step
by_step-IsAscending [] = tt
by_step-IsAscending (p ∷ ps) = put_by_step-IsAscending p (by_step ps) (by_step-IsAscending ps)

-- The checkpoints found are exactly the directories whose names match, each as often as it is
-- listed, in the order of their steps as numbers.
pub find_checkpoint_dirs_lem :
    (digits : Digits) (entries : List (Text × Bool))
    → (ps : List (ℕ × Text)) × (find_checkpoint_dirs digits entries ≡ map (λ p. p.1) ps)
      × Perm ps (numbered_dirs digits entries)
      × IsAscending ps
unfolding find_checkpoint_dirs
find_checkpoint_dirs_lem digits entries =
    let ps = numbered_dirs digits entries in
    (by_step ps, refl, by_step-Perm ps, by_step-IsAscending ps)

-- A positive count selects an end of the list, of that length or of the whole list's if that is
-- less; zero and the negative counts raise `ValueError`.
pub select_last_n_checkpoints_lem :
    {A : Type 0} (dirs : List A)
    → ((m : ℕ)
        → (before : List A) × (selected : List A) × (select_last_n_checkpoints dirs (pos (suc m))
            ≡ ok selected)
          × (before ++ selected ≡ dirs)
          × (length selected ≡ min (suc m) (length dirs)))
      × (select_last_n_checkpoints dirs (pos zero) ≡ value_error)
      × ((n : ℕ) → select_last_n_checkpoints dirs (negsuc n) ≡ value_error)
unfolding select_last_n_checkpoints
select_last_n_checkpoints_lem dirs = (
  λ m.
      let k = length dirs - suc m in
      (take k dirs, drop k dirs, refl, take-append-drop k dirs, omega (arith, length-drop k dirs)),
  refl,
  λ n. refl,
)
