-- ===== src/Training/Averaging.antt =====
-- ml/training/checkpoint_averaging.py: the mean of the last checkpoints of a run.
pub mod Selection
mod Tests
pub mod Mean
pub mod Equal
pub mod Output
use es_kaq_translator_v.Base.{
  ℕ, zero, suc, ◌+◌, ◌-◌, ◌*◌, Bool, true, false, Option, none, some, List, [], ◌∷◌, ◌++◌, map,
  length, drop, elem, all_b, leb, not, ◌&&◌, ◌==◌, nat_eq, if◌then◌else◌,
}
use es_kaq_translator_v.Base.Dict.{Dict, lookup, insert, has_key}
use es_kaq_translator_v.Text.{Text, text, text_eq, starts_with}

abbrev pub weights_filename : Text
weights_filename = text "model.safetensors"

abbrev pub excluded_filenames : List Text
excluded_filenames =
    weights_filename
    ∷ text "optimizer.pt"
    ∷ text "scheduler.pt"
    ∷ text "rng_state.pth"
    ∷ text "trainer_state.json"
    ∷ text "training_args.bin"
    ∷ text "scaler.pt"
    ∷ []

-- `entry.name in _EXCLUDED_FILENAMES`
unfoldable pub is_excluded : Text → Bool
is_excluded name = elem name excluded_filenames

-- An integer argument.
pub data ℤ : Type 0 where
  pos : ℕ → ℤ
  negsuc : ℕ → ℤ

pub data Averaged (A : Type 0) : Type 0 where
  ok : A → Averaged A
  value_error file_not_found_error : Averaged A

-- Python's `\d` and the value that `int` gives such a code point.
pub record Digits : Type 0 where
  pub is_digit : ℕ → Bool
  pub digit_value : ℕ → ℕ

unfoldable pub put_by_step : ℕ × Text → List (ℕ × Text) → List (ℕ × Text)
put_by_step p [] = p ∷ []
put_by_step p (q ∷ qs) = let rest = put_by_step p qs in if leb p.0 q.0 then p ∷ q ∷ qs else q ∷ rest

-- `numbered_dirs.sort(key=lambda pair: pair[0])`, which is stable
unfoldable pub by_step : List (ℕ × Text) → List (ℕ × Text)
by_step [] = []
by_step (p ∷ ps) = put_by_step p (by_step ps)

module _ (digits : Digits) where
  open digits use {is_digit, digit_value}

  -- All digits, at least one, and then the end or a last newline, which `$` allows; the value.
  unfoldable pub steps_from : (n : ℕ) → (seen : Bool) → Text → Option ℕ
  steps_from n seen [] = if seen then some n else none
  steps_from n seen (c ∷ []) =
      if is_digit c then some (n * 10 + digit_value c) else if seen && c == 10 then some n else none
  steps_from n seen (c ∷ d ∷ s) =
      let rest = steps_from (n * 10 + digit_value c) true (d ∷ s) in
      if is_digit c then rest else none

  -- `_CHECKPOINT_DIR_RE.match(name)`, and the step that its group reads.
  unfoldable pub checkpoint_step : Text → Option ℕ
  checkpoint_step name =
      if starts_with name (text "checkpoint-") then steps_from 0 false (drop 11 name) else none

  -- The loop over the entries, each with its name and whether it is a directory.
  unfoldable pub numbered_dirs : List (Text × Bool) → List (ℕ × Text)
  numbered_dirs [] = []
  numbered_dirs ((name, is_dir) ∷ entries) =
      let rest = numbered_dirs entries in
      if not is_dir
      then rest
      else elim (checkpoint_step name) [ none ↦ rest | some step ↦ (step, name) ∷ rest ]

  unfoldable pub find_checkpoint_dirs : List (Text × Bool) → List Text
  find_checkpoint_dirs entries = map (λ p. p.1) (by_step (numbered_dirs entries))

-- `checkpoint_dirs[-n:]`
unfoldable pub select_last_n_checkpoints : {A : Type 0} → List A → ℤ → Averaged (List A)
select_last_n_checkpoints dirs (negsuc n) = value_error
select_last_n_checkpoints dirs (pos zero) = value_error
select_last_n_checkpoints dirs (pos (suc n)) = ok (drop (length dirs - suc n) dirs)

-- Tensors: `float()`, `+`, division by a count and `to(dtype)`.
pub record Torch : Type 1 where
  pub Tensor : Type 0
  pub Shape : Type 0
  pub Dtype : Type 0
  pub shape : Tensor → Shape
  pub same_shape : Shape → Shape → Bool
  pub dtype : Tensor → Dtype
  pub float : Tensor → Tensor
  pub add : Tensor → Tensor → Tensor
  pub divide : Tensor → ℕ → Tensor
  pub to : Tensor → Dtype → Tensor

module _ (torch : Torch) where
  open torch use {Tensor, Dtype, shape, same_shape, dtype, float, add, divide, to}

  abbrev pub StateDict : Type 0
  StateDict = Dict Text Tensor

  -- `accumulator` and `original_dtypes`, which always have the same keys.
  abbrev pub Accumulator : Type 0
  Accumulator = Dict Text (Tensor × Dtype)

  unfoldable pub add_tensor : Text → Tensor → Accumulator → Averaged Accumulator
  add_tensor key tensor acc = elim (lookup key acc) [
    | none ↦ ok (insert key (float tensor, dtype tensor) acc)
    | some sum ↦
        if not (same_shape (shape tensor) (shape sum.0))
        then value_error
        else ok (insert key (add sum.0 (float tensor), sum.1) acc)
  ]

  unfoldable pub add_state_dict : StateDict → Accumulator → Averaged Accumulator
  add_state_dict [] acc = ok acc
  add_state_dict ((key, tensor) ∷ items) acc = elim (add_tensor key tensor acc) [
    | ok acc' ↦ add_state_dict items acc'
    | value_error ↦ value_error
    | file_not_found_error ↦ file_not_found_error
  ]

  -- `set(a) == set(b)`
  unfoldable pub same_keys : StateDict → StateDict → Bool
  same_keys a b = all_b (λ p. has_key p.0 b) a && all_b (λ p. has_key p.0 a) b

  -- The rest of the sequence, whose items are loaded one by one; `reference` has the first keys.
  unfoldable pub add_all :
      (reference : StateDict) → List (Averaged StateDict) → Accumulator → Averaged Accumulator
  add_all reference [] acc = ok acc
  add_all reference (value_error ∷ rest) acc = value_error
  add_all reference (file_not_found_error ∷ rest) acc = file_not_found_error
  add_all reference (ok d ∷ rest) acc =
      if not (same_keys d reference) then value_error else elim (add_state_dict d acc) [
        | ok acc' ↦ add_all reference rest acc'
        | value_error ↦ value_error
        | file_not_found_error ↦ file_not_found_error
      ]

  -- `(value / count).to(original_dtypes[key])`
  unfoldable pub averaged : (count : ℕ) → Accumulator → StateDict
  averaged count = map (λ p. (p.0, to (divide p.1.0 count) p.1.1))

  unfoldable pub average_state_dicts : List (Averaged StateDict) → Averaged StateDict
  average_state_dicts [] = value_error
  average_state_dicts (value_error ∷ rest) = value_error
  average_state_dicts (file_not_found_error ∷ rest) = file_not_found_error
  average_state_dicts (ok d ∷ rest) = elim (add_all d (ok d ∷ rest) []) [
    | ok acc ↦ ok (averaged (suc (length rest)) acc)
    | value_error ↦ value_error
    | file_not_found_error ↦ file_not_found_error
  ]

-- safetensors: the contents of a file of weights.
pub record Safetensors (torch : Torch) : Type 1 where
  pub File : Type 0
  pub load_file : File → StateDict torch
  pub save_file : StateDict torch → File

module _ (torch : Torch) (safetensors : Safetensors torch) where
  open safetensors use {File, load_file, save_file}

  -- The entries of a directory: a file with its contents, or another kind of entry.
  abbrev pub Directory : Type 0
  Directory = Dict Text (Option File)

  unfoldable pub load_state_dict : Directory → Averaged (StateDict torch)
  load_state_dict checkpoint_dir = elim (lookup weights_filename checkpoint_dir) [
    | none ↦ file_not_found_error
    | some none ↦ file_not_found_error
    | some (some file) ↦ ok (load_file file)
  ]

  unfoldable pub copy_files : Directory → Directory → Directory
  copy_files [] output = output
  copy_files ((name, none) ∷ entries) output = copy_files entries output
  copy_files ((name, some file) ∷ entries) output =
      copy_files entries (if is_excluded name then output else insert name (some file) output)

  -- `checkpoint_dirs[-1]` of `d ∷ ds`
  unfoldable pub last_dir : Directory → List Directory → Directory
  last_dir d [] = d
  last_dir d (e ∷ ds) = last_dir e ds

  -- What the output directory holds afterwards.
  unfoldable pub average_checkpoints : List Directory → (output : Directory) → Averaged Directory
  average_checkpoints [] output = value_error
  average_checkpoints (d ∷ ds) output =
      elim (average_state_dicts torch (map load_state_dict (d ∷ ds))) [
        | ok weights ↦
            ok (
              copy_files (last_dir d ds)
                (insert weights_filename (some (save_file weights)) output))
        | value_error ↦ value_error
        | file_not_found_error ↦ file_not_found_error
      ]

  -- The exit status, and what the output directory holds then.
  unfoldable pub main :
      Digits
      → (root : Dict Text (Bool × Directory)) → (output : Directory) → (n : ℤ)
      → Averaged (ℕ × Directory)
  main digits root output n =
      let named : Text → Directory =
        λ name. elim (lookup name root) as (λ o. Directory) [ none ↦ [] | some entry ↦ entry.1 ] in
      elim (find_checkpoint_dirs digits (map (λ p. (p.0, p.1.0)) root)) [
        | [] ↦ ok (1, output)
        | d ∷ ds ↦ elim (select_last_n_checkpoints (map named (d ∷ ds)) n) [
          | ok selected ↦ elim (average_checkpoints selected output) [
            | ok output' ↦ ok (0, output')
            | value_error ↦ value_error
            | file_not_found_error ↦ file_not_found_error
          ]
          | value_error ↦ value_error
          | file_not_found_error ↦ file_not_found_error
        ]
      ]
