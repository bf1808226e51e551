-- ===== src/Training/Averaging/Mean.antt =====
-- ml/training/checkpoint_averaging.py: the running sums, against the tensors of each key.
use es_kaq_translator_v.Base.{
  ◌≡◌, refl, ◌∙◌, true, Option, none, some, [], ◌∷◌, map, IsDistinct, Bool-cases, Option-cases, inl,
  inr, if◌then◌else◌, ◌=?◌, beq_refl,
}
use es_kaq_translator_v.Base.Dict.{lookup, insert, lookup-insert}
use es_kaq_translator_v.Text.{Text, text_eq}
use es_kaq_translator_v.Training.Averaging.{
  ok, Torch, StateDict, Accumulator, add_tensor, add_state_dict,
}
use es_kaq_translator_v.Training.Averaging.Output.{lookup_absent}

module _ (torch : Torch) where
  open torch use {Tensor, Shape, Dtype, shape, same_shape, dtype, float, add, divide, to}

  -- A tensor is added to the sum of its key; the first starts it.
  abbrev pub joined : Option Tensor → Option (Tensor × Dtype) → Option (Tensor × Dtype)
  joined none sum = sum
  joined (some t) none = some (float t, dtype t)
  joined (some t) (some sum) = some (add sum.0 (float t), sum.1)

  -- The tensor may be added to the sum.
  abbrev pub Fits : Option Tensor → Option (Tensor × Dtype) → Type 0
  Fits none sum = Unit
  Fits (some t) none = Unit
  Fits (some t) (some sum) = same_shape (shape t) (shape sum.0) ≡ true

  add_tensor_lem :
      (key : Text) (t : Tensor) (acc : Accumulator torch)
      → Fits (some t) (lookup key acc)
      → (acc' : Accumulator torch) × (add_tensor torch key t acc ≡ ok acc')
        × ((k : Text)
            → lookup k acc' ≡ (if key =? k then joined (some t) (lookup key acc) else lookup k acc))
  unfolding add_tensor
  add_tensor_lem key t acc fits = elim (Option-cases (lookup key acc)) [
    | inl absent ↦ (
      insert key (float t, dtype t) acc,
      rw (add_tensor, absent) refl,
      λ k. rw absent (lookup-insert key k (float t, dtype t) acc),
    )
    | inr (sum, present) ↦
        let ok_shape : same_shape (shape t) (shape sum.0) ≡ true = rw present at fits in
        let next : Tensor × Dtype = (add sum.0 (float t), sum.1) in
        (
          insert key next acc,
          rw (add_tensor, present, ok_shape) refl,
          λ k. rw present (lookup-insert key k next acc),
        )
  ]

  absent-Fits : (o : Option Tensor) (s : Option (Tensor × Dtype)) → o ≡ none → Fits o s
  absent-Fits none s e = tt
  absent-Fits (some t) s e = absurd cc

  add_state_dict-step :
      (key : Text) (t : Tensor) (d : StateDict torch) (acc acc1 : Accumulator torch)
      → add_tensor torch key t acc ≡ ok acc1
      → add_state_dict torch ((key, t) ∷ d) acc ≡ add_state_dict torch d acc1
  unfolding add_state_dict
  add_state_dict-step key t d acc acc1 e = rw (add_state_dict, e) refl

  -- One state dict: every key's sum takes its tensor.
  pub add_state_dict_lem :
      (d : StateDict torch) (acc : Accumulator torch)
      → IsDistinct (map (λ p. p.0) d)
      → ((k : Text) → Fits (lookup k d) (lookup k acc))
      → (acc' : Accumulator torch) × (add_state_dict torch d acc ≡ ok acc')
        × ((k : Text) → lookup k acc' ≡ joined (lookup k d) (lookup k acc))
  unfolding add_state_dict lookup
  add_state_dict_lem [] acc h fits = (acc, refl, λ k. refl)
  add_state_dict_lem ((key, t) ∷ d) acc h fits =
      let here : Fits (some t) (lookup key acc) = rw (beq_refl key) at (fits key) in
      let (acc1, e1, l1) = add_tensor_lem key t acc here in
      let fits1 : (k : Text) → Fits (lookup k d) (lookup k acc1) = λ k.
        elim (Bool-cases (key =? k)) [
          | inl same ↦
              let key_k = (text_eq.beq_iff key k).0 same in
              absent-Fits (lookup k d) (lookup k acc1) (lookup_absent k d (rw (← key_k) h.0))
          | inr other ↦
              let l : lookup k acc1 ≡ lookup k acc = rw (l1 k, other) refl in
              rw l (rw other at (fits k))
        ] in
      let (acc2, e2, l2) = add_state_dict_lem d acc1 h.1 fits1 in
      (
        acc2,
        add_state_dict-step key t d acc acc1 e1 ∙ e2,
        λ k. l2 k ∙ elim (Bool-cases (key =? k)) [
          | inl same ↦
              let key_k = (text_eq.beq_iff key k).0 same in
              let gone : lookup k d ≡ none = lookup_absent k d (rw (← key_k) h.0) in
              let l : lookup k acc1 ≡ joined (some t) (lookup key acc) = rw (l1 k, same) refl in
              rw (same, gone, l, key_k) refl
          | inr other ↦
              let l : lookup k acc1 ≡ lookup k acc = rw (l1 k, other) refl in rw (other, l) refl
        ],
      )
