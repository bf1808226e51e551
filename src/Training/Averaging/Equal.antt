-- ===== src/Training/Averaging/Equal.antt =====
-- ml/training/checkpoint_averaging.py: the average of checkpoints of one run, key by key.
use es_kaq_translator_v.Base.{
  ℕ, suc, ◌≡◌, ◌↔◌, refl, ap, sym, ◌∙◌, true, false, Option, none, some, List, [], ◌∷◌, ◌++◌, map,
  length, length-map, Bool-cases, ◌=?◌, All, IsDistinct, inl, inr, append-nil,
}
use es_kaq_translator_v.Base.Dict.{lookup}
use es_kaq_translator_v.Text.{Text, text_eq}
use es_kaq_translator_v.Training.Averaging.{
  Averaged, ok, value_error, file_not_found_error, Torch, StateDict, Accumulator, add_state_dict,
  same_keys, add_all, averaged, average_state_dicts,
}
use es_kaq_translator_v.Training.Averaging.Mean.{joined, Fits, add_state_dict_lem}

-- What torch documents of shapes.
pub record ShapeLaws (torch : Torch) : Type 0 where
  pub same_shape_iff : (a b : torch.Shape) → (torch.same_shape a b ≡ true) ↔ (a ≡ b)
  pub shape-float : (t : torch.Tensor) → torch.shape (torch.float t) ≡ torch.shape t
  pub shape-add :
      (a b : torch.Tensor)
      → torch.shape b ≡ torch.shape a
      → torch.shape (torch.add a b) ≡ torch.shape a

module _ (torch : Torch) (laws : ShapeLaws torch) where
  open torch use {Tensor, Shape, Dtype, shape, float, add, divide, to}

  abbrev pub shape_of : Option Tensor → Option Shape
  shape_of none = none
  shape_of (some t) = some (shape t)

  abbrev sum_shape : Option (Tensor × Dtype) → Option Shape
  sum_shape none = none
  sum_shape (some s) = some (shape s.0)

  Fits-shapes :
      (o u : Option Tensor) (s : Option (Tensor × Dtype))
      → shape_of o ≡ shape_of u
      → sum_shape s ≡ shape_of u
      → Fits torch o s
  Fits-shapes none u s e f = tt
  Fits-shapes (some t) u none e f = tt
  Fits-shapes (some t) none (some s) e f = absurd cc
  Fits-shapes (some t) (some u) (some s) e f = (laws.same_shape_iff (shape t) (shape s.0)).1 cc

  joined-shape :
      (o u : Option Tensor) (s : Option (Tensor × Dtype))
      → shape_of o ≡ shape_of u
      → sum_shape s ≡ shape_of u
      → sum_shape (joined torch o s) ≡ shape_of u
  joined-shape none u s e f = f
  joined-shape (some t) u none e f = ap some (laws.shape-float t) ∙ e
  joined-shape (some t) none (some s) e f = absurd cc
  joined-shape (some t) (some u) (some s) e f =
      ap some (laws.shape-add s.0 (float t) (laws.shape-float t ∙ cc)) ∙ f

  started-shape : (o : Option Tensor) → sum_shape (joined torch o none) ≡ shape_of o
  started-shape none = refl
  started-shape (some t) = ap some (laws.shape-float t)

  Fits-start : (o : Option Tensor) → Fits torch o none
  Fits-start none = tt
  Fits-start (some t) = tt

  -- A checkpoint of the run that `reference` is of: no key twice, the same keys, and under each
  -- key a tensor of the same shape.
  pub record IsAlike (reference d : StateDict torch) : Type 0 where
    pub distinct : IsDistinct (map (λ p. p.0) d)
    pub keys : same_keys torch d reference ≡ true
    pub shapes : (k : Text) → shape_of (lookup k d) ≡ shape_of (lookup k reference)

  -- The sum of a key's tensors, in the order of the checkpoints.
  abbrev pub sums :
      Text → List (StateDict torch) → Option (Tensor × Dtype) → Option (Tensor × Dtype)
  sums k [] s = s
  sums k (d ∷ ds) s = sums k ds (joined torch (lookup k d) s)

  add_all-step :
      (reference d : StateDict torch) (rest : List (Averaged (StateDict torch)))
      (acc acc' : Accumulator torch)
      → same_keys torch d reference ≡ true
      → add_state_dict torch d acc ≡ ok acc'
      → add_all torch reference (ok d ∷ rest) acc ≡ add_all torch reference rest acc'
  unfolding add_all
  add_all-step reference d rest acc acc' e f = rw (add_all, e, f) refl

  add_all_lem :
      (reference : StateDict torch) (ds : List (StateDict torch)) (acc : Accumulator torch)
      → ((k : Text) → sum_shape (lookup k acc) ≡ shape_of (lookup k reference))
      → All (IsAlike reference) ds
      → (acc' : Accumulator torch) × ((rest : List (Averaged (StateDict torch)))
          → add_all torch reference (map ok ds ++ rest) acc ≡ add_all torch reference rest acc')
        × ((k : Text) → lookup k acc' ≡ sums k ds (lookup k acc))
  add_all_lem reference [] acc shaped h = (acc, λ rest. refl, λ k. refl)
  add_all_lem reference (d ∷ ds) acc shaped h =
      let alike = h.0 in
      let fits : (k : Text) → Fits torch (lookup k d) (lookup k acc) = λ k.
        Fits-shapes (lookup k d) (lookup k reference) (lookup k acc) (alike.shapes k) (shaped k) in
      let (acc1, e1, l1) = add_state_dict_lem torch d acc alike.distinct fits in
      let shaped1 : (k : Text) → sum_shape (lookup k acc1) ≡ shape_of (lookup k reference) = λ k.
        ap sum_shape (l1 k)
        ∙ joined-shape (lookup k d) (lookup k reference) (lookup k acc) (alike.shapes k)
            (shaped k) in
      let (acc2, e2, l2) = add_all_lem reference ds acc1 shaped1 h.1 in
      (
        acc2,
        λ rest. add_all-step reference d (map ok ds ++ rest) acc acc1 alike.keys e1 ∙ e2 rest,
        λ k. l2 k ∙ ap (sums k ds) (l1 k),
      )

  -- The same from the first checkpoint on.
  add_first :
      (d : StateDict torch) (ds : List (StateDict torch))
      → All (IsAlike d) (d ∷ ds)
      → (acc : Accumulator torch) × ((rest : List (Averaged (StateDict torch)))
          → add_all torch d (ok d ∷ (map ok ds ++ rest)) [] ≡ add_all torch d rest acc)
        × ((k : Text) → lookup k acc ≡ sums k (d ∷ ds) none)
  unfolding lookup
  add_first d ds h =
      let alike = h.0 in
      let (acc1, e1, l1) =
        add_state_dict_lem torch d [] alike.distinct (λ k. Fits-start (lookup k d)) in
      let shaped : (k : Text) → sum_shape (lookup k acc1) ≡ shape_of (lookup k d) =
        λ k. ap sum_shape (l1 k) ∙ started-shape (lookup k d) in
      let (acc2, e2, l2) = add_all_lem d ds acc1 shaped h.1 in
      (
        acc2,
        λ rest. add_all-step d d (map ok ds ++ rest) [] acc1 alike.keys e1 ∙ e2 rest,
        λ k. l2 k ∙ ap (sums k ds) (l1 k),
      )

  abbrev pub mean_of : ℕ → Option (Tensor × Dtype) → Option Tensor
  mean_of n none = none
  mean_of n (some s) = some (to (divide s.0 n) s.1)

  averaged-lookup :
      (n : ℕ) (k : Text) (acc : Accumulator torch)
      → lookup k (averaged torch n acc) ≡ mean_of n (lookup k acc)
  unfolding averaged lookup
  averaged-lookup n k [] = refl
  averaged-lookup n k ((j, s) ∷ acc) = elim (Bool-cases (j =? k)) [
    | inl here ↦ rw here refl
    | inr later ↦ rw later (averaged-lookup n k acc)
  ]

  -- Checkpoints with the same keys, and the same shape under each key, are averaged: there is a
  -- result, and each key has the sum of its tensors in all of them, divided by their number, in the
  -- dtype of the first; no other key is there.
  pub average_state_dicts_lem :
      (d : StateDict torch) (ds : List (StateDict torch))
      → All (IsAlike d) (d ∷ ds)
      → (result : StateDict torch) × (average_state_dicts torch (map ok (d ∷ ds)) ≡ ok result)
        × ((k : Text) → lookup k result ≡ mean_of (length (d ∷ ds)) (sums k (d ∷ ds) none))
  unfolding average_state_dicts add_all
  average_state_dicts_lem d ds h =
      let (acc, e, l) = add_first d ds h in
      let n = suc (length ds) in
      let run : add_all torch d (ok d ∷ map ok ds) [] ≡ ok acc =
        ap (λ t. add_all torch d (ok d ∷ t) []) (sym (append-nil (map ok ds)))
        ∙ e []
        ∙ (unfold add_all in refl) in
      (
        averaged torch n acc,
        rw (average_state_dicts, run)
            (ap (λ m. ok (averaged torch (suc m) acc)) (length-map ok ds)),
        λ k. averaged-lookup n k acc ∙ ap (mean_of n) (l k),
      )

  -- After checkpoints of one run, one with other keys raises `ValueError`, and one whose weights
  -- are missing raises `FileNotFoundError`, whatever follows.
  pub average_state_dicts-error :
      (d : StateDict torch) (ds : List (StateDict torch)) (bad : Averaged (StateDict torch))
      (rest : List (Averaged (StateDict torch)))
      → All (IsAlike d) (d ∷ ds)
      → ((other : StateDict torch) × (bad ≡ ok other) × (same_keys torch other d ≡ false)
          → average_state_dicts torch (map ok (d ∷ ds) ++ (bad ∷ rest)) ≡ value_error)
        × (bad ≡ file_not_found_error
            → average_state_dicts torch (map ok (d ∷ ds) ++ (bad ∷ rest)) ≡ file_not_found_error)
  unfolding average_state_dicts add_all
  average_state_dicts-error d ds bad rest h =
      let (acc, e, l) = add_first d ds h in
      (
        λ p. rw (average_state_dicts, e (bad ∷ rest), p.1, add_all, p.2) refl,
        λ q. rw (average_state_dicts, e (bad ∷ rest), q, add_all) refl,
      )
