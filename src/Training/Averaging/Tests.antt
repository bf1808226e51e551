-- ===== src/Training/Averaging/Tests.antt =====
-- The theorems on averaging at numbers for tensors.
use es_kaq_translator_v.Base.{
  ℕ, zero, suc, ◌+◌, ◌/◌, ◌≡◌, refl, Bool, true, none, some, List, [], ◌∷◌, ◌++◌, map, length, min,
  ◌==◌, ==_iff, ◌=?◌, if◌then◌else◌, leb, ◌&&◌, list_beq, ◌-◌, arith, nat_eq,
}
use es_kaq_translator_v.Base.Dict.{lookup, insert}
use es_kaq_translator_v.Text.{Text, text, text_eq}
use es_kaq_translator_v.Training.Averaging.{
  Digits, pos, negsuc, ok, value_error, select_last_n_checkpoints, Torch, StateDict, Safetensors,
  Directory, weights_filename, average_state_dicts, average_checkpoints, load_state_dict, last_dir,
  add_all, add_state_dict, add_tensor, averaged, same_keys,
}
use es_kaq_translator_v.Training.Averaging.Selection.{select_last_n_checkpoints_lem}
use es_kaq_translator_v.Training.Averaging.Equal.{
  ShapeLaws, IsAlike, sums, mean_of, average_state_dicts_lem,
}
use es_kaq_translator_v.Training.Averaging.Output.{copied, average_checkpoints_lem}

abbrev ascii : Digits
ascii = record { is_digit = λ c. leb 48 c && leb c 57; digit_value = λ c. c - 48 }

abbrev entries : List (Text × Bool)
entries = (text "checkpoint-10", true) ∷ (text "runs", true) ∷ (text "checkpoint-9", true) ∷ []

abbrev numbers : List ℕ
numbers = 5 ∷ 6 ∷ 7 ∷ []

select_last_n_checkpoints_lem_example :
    ((m : ℕ)
      → (before : List ℕ) × (selected : List ℕ) × (select_last_n_checkpoints numbers (pos (suc m))
          ≡ ok selected)
        × (before ++ selected ≡ numbers)
        × (length selected ≡ min (suc m) (length numbers)))
    × (select_last_n_checkpoints numbers (pos zero) ≡ value_error)
    × ((n : ℕ) → select_last_n_checkpoints numbers (negsuc n) ≡ value_error)
select_last_n_checkpoints_lem_example = select_last_n_checkpoints_lem numbers

-- A tensor is a pair of a shape and a number.
abbrev torch : Torch
torch = record {
  Tensor = ℕ × ℕ;
  Shape = ℕ;
  Dtype = ℕ;
  shape = λ t. t.0;
  same_shape = ◌==◌;
  dtype = λ t. 16;
  float = λ t. t;
  add = λ a b. (a.0, a.1 + b.1);
  divide = λ t n. (t.0, t.1 / n);
  to = λ t d. t;
}

torch-ShapeLaws : ShapeLaws torch
torch-ShapeLaws = record {
  same_shape_iff = ==_iff;
  shape-float = λ t. refl;
  shape-add = λ a b e. refl;
}

abbrev first : StateDict torch
first = (text "w", (2, 10)) ∷ []

abbrev second : StateDict torch
second = (text "w", (2, 20)) ∷ []

first-IsAlike : IsAlike torch torch-ShapeLaws first first
unfolding lookup same_keys list_beq
first-IsAlike = record { distinct = (refl, tt); keys = refl; shapes = λ k. refl }

second-IsAlike : IsAlike torch torch-ShapeLaws first second
unfolding lookup same_keys list_beq
second-IsAlike = record { distinct = (refl, tt); keys = refl; shapes = λ k. ground arith }

average_state_dicts_lem_example :
    (result : StateDict torch) × (average_state_dicts torch (map ok (first ∷ second ∷ []))
      ≡ ok result)
    × ((k : Text)
        → lookup k result
          ≡ mean_of torch torch-ShapeLaws
              (length (first ∷ second ∷ []))
              (sums torch torch-ShapeLaws k (first ∷ second ∷ []) none))
average_state_dicts_lem_example =
    average_state_dicts_lem torch torch-ShapeLaws first (second ∷ [])
      (first-IsAlike, (second-IsAlike, tt))

abbrev files : Safetensors torch
files = record { File = StateDict torch; load_file = λ f. f; save_file = λ s. s }

abbrev checkpoint : Directory torch files
checkpoint =
    (weights_filename, some first)
    ∷ (text "optimizer.pt", some [])
    ∷ (text "config.json", some [])
    ∷ []

average_checkpoints_lem_example :
    (out : Directory torch files) × (average_checkpoints torch files (checkpoint ∷ []) [] ≡ ok out)
    × ((name : Text)
        → lookup name out ≡ (
            if weights_filename =? name
            then some (some first)
            else copied torch files name (last_dir torch files checkpoint []) (lookup name [])))
unfolding list_beq average_state_dicts add_all add_state_dict add_tensor lookup insert averaged
    same_keys load_state_dict last_dir
average_checkpoints_lem_example =
    average_checkpoints_lem torch files checkpoint [] [] first (refl, (refl, (refl, tt))) refl
