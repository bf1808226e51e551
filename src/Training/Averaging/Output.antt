-- ===== src/Training/Averaging/Output.antt =====
-- ml/training/checkpoint_averaging.py: the directory of the averaged checkpoint.
use es_kaq_translator_v.Base.{
  ◌≡◌, refl, ap, sym, ◌∙◌, true, false, Option, none, some, List, [], ◌∷◌, map, elem, IsDistinct,
  Bool-cases, inl, inr, if◌then◌else◌, ◌=?◌, arith, list_beq,
}
use es_kaq_translator_v.Base.Dict.{Dict, lookup, insert, lookup-insert}
use es_kaq_translator_v.Text.{Text, text_eq}
use es_kaq_translator_v.Training.Averaging.{
  weights_filename, is_excluded, ok, Torch, StateDict, Safetensors, Directory, load_state_dict,
  copy_files, last_dir, average_state_dicts, average_checkpoints,
}

pub lookup_absent :
    {V : Type 0} (k : Text) (d : Dict Text V)
    → elem k (map (λ p. p.0) d) ≡ false
    → lookup k d ≡ none
unfolding lookup
lookup_absent k [] e = refl
lookup_absent k ((j, v) ∷ d) e = ground (arith, lookup_absent k d)

module _ (torch : Torch) (safetensors : Safetensors torch) where
  open safetensors use {File, save_file}

  -- The file of that name in the last checkpoint, if it is copied, and else what was there.
  abbrev pub copied :
      Text → Directory torch safetensors → Option (Option File) → Option (Option File)
  copied name entries before = if is_excluded name then before else elim (lookup name entries) [
    | none ↦ before
    | some none ↦ before
    | some (some file) ↦ some (some file)
  ]

  weights-excluded : is_excluded weights_filename ≡ true
  unfolding is_excluded list_beq
  weights-excluded = refl

  copied-cons_excluded :
      (name n : Text) (file : File) (entries : Directory torch safetensors)
      (before : Option (Option File))
      → is_excluded n ≡ true
      → copied name ((n, some file) ∷ entries) before ≡ copied name entries before
  unfolding lookup
  copied-cons_excluded name n file entries before out = elim (Bool-cases (n =? name)) [
    | inl same ↦
        let out' : is_excluded name ≡ true = rw (← (text_eq.beq_iff n name).0 same) out in
        rw out' refl
    | inr other ↦ rw other refl
  ]

  copied-insert :
      (name n : Text) (file : File) (entries output : Directory torch safetensors)
      → elem n (map (λ p. p.0) entries) ≡ false
      → is_excluded n ≡ false
      → copied name entries (lookup name (insert n (some file) output))
        ≡ copied name ((n, some file) ∷ entries) (lookup name output)
  unfolding lookup
  copied-insert name n file entries output h kept = elim (Bool-cases (n =? name)) [
    | inl same ↦
        let n_name = (text_eq.beq_iff n name).0 same in
        let gone : lookup name entries ≡ none = lookup_absent name entries (rw (← n_name) h) in
        let kept' : is_excluded name ≡ false = rw (← n_name) kept in
        rw (kept', same, gone, lookup-insert n name (some file) output, same) refl
    | inr other ↦
        let kept_before : lookup name (insert n (some file) output) ≡ lookup name output =
          rw (lookup-insert n name (some file) output, other) refl in
        ap (copied name entries) kept_before ∙ rw other refl
  ]

  copy_files-lookup :
      (name : Text) (entries output : Directory torch safetensors)
      → IsDistinct (map (λ p. p.0) entries)
      → lookup name (copy_files torch safetensors entries output)
        ≡ copied name entries (lookup name output)
  unfolding copy_files lookup
  copy_files-lookup name [] output h = ground arith
  copy_files-lookup name ((n, none) ∷ entries) output h = elim (Bool-cases (n =? name)) [
    | inl same ↦
        let n_name = (text_eq.beq_iff n name).0 same in
        let gone : lookup name entries ≡ none = lookup_absent name entries (rw (← n_name) h.0) in
        rw (copy_files-lookup name entries output h.1, gone, same) refl
    | inr other ↦ rw (copy_files-lookup name entries output h.1, other) refl
  ]
  copy_files-lookup name ((n, some file) ∷ entries) output h = elim (Bool-cases (is_excluded n)) [
    | inl out ↦ rw out (
        copy_files-lookup name entries output h.1
        ∙ sym (copied-cons_excluded name n file entries _ out))
    | inr kept ↦ rw kept (
        copy_files-lookup name entries (insert n (some file) output) h.1
        ∙ copied-insert name n file entries output h.0 kept)
  ]

  -- When the weights are averaged, the output directory holds them under the weights' name; under
  -- every other name it holds the file of the last checkpoint, if there is one and it is no file of
  -- the training's progress, and else what it held before.
  pub average_checkpoints_lem :
      (d : Directory torch safetensors) (ds : List (Directory torch safetensors))
      (output : Directory torch safetensors) (weights : StateDict torch)
      → IsDistinct (map (λ p. p.0) (last_dir torch safetensors d ds))
      → average_state_dicts torch (map (load_state_dict torch safetensors) (d ∷ ds)) ≡ ok weights
      → (out : Directory torch safetensors) × (average_checkpoints torch safetensors (d ∷ ds) output
          ≡ ok out)
        × ((name : Text)
            → lookup name out ≡ (
                if weights_filename =? name
                then some (some (save_file weights))
                else copied name (last_dir torch safetensors d ds) (lookup name output)))
  unfolding average_checkpoints
  average_checkpoints_lem d ds output weights h e =
      let start = insert weights_filename (some (save_file weights)) output in
      let last = last_dir torch safetensors d ds in
      (
        copy_files torch safetensors last start,
        rw (average_checkpoints, e) refl,
        λ name. copy_files-lookup name last start h ∙ elim (Bool-cases (weights_filename =? name)) [
          | inl same ↦
              let kept : is_excluded name ≡ true =
                rw (← (text_eq.beq_iff weights_filename name).0 same) weights-excluded in
              rw
                (
                  kept,
                  same,
                  lookup-insert weights_filename name (some (save_file weights)) output,
                  same,
                )
                refl
          | inr other ↦
              let kept_before : lookup name start ≡ lookup name output =
                rw (lookup-insert weights_filename name (some (save_file weights)) output, other)
                  refl in
              ap (copied name last) kept_before ∙ rw other refl
        ],
      )
