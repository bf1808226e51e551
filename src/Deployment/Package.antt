-- ===== src/Deployment/Package.antt =====
-- ml/deployment/package_model.py: a training run's archive is repackaged with the inference code.
pub mod Contents
use es_kaq_translator_v.Base.{
  Bool, true, false, Option, none, some, List, [], ◌∷◌, ◌++◌, ◌=?◌, ◌||◌, not, if◌then◌else◌, any_b,
  filter_b,
}
use es_kaq_translator_v.Base.Dict.{Dict, lookup, insert}
use es_kaq_translator_v.Text.{Text, text, text_eq, starts_with}
use es_kaq_translator_v.Api.Result.{Result, ok, raise, os_error}

-- `name == directory or name.startswith(directory + "/")`
unfoldable pub is_under : (directory name : Text) → Bool
is_under directory name = (name =? directory) || starts_with name (directory ++ text "/")

module _ (Content : Type 0) where
  -- The members of a tar file, in order: a regular file with its contents, or another member.
  abbrev pub Archive : Type 0
  Archive = List (Text × Option Content)

  -- The regular files of a directory tree, by path.
  abbrev pub Tree : Type 0
  Tree = Dict Text Content

  -- `shutil.copy2(ml_root / source, target)`
  unfoldable pub copy2 : Tree → (source target : Text) → Result Tree → Result Tree
  copy2 ml_root source target (raise e) = raise e
  copy2 ml_root source target (ok tree) = elim (lookup source ml_root) [
    | none ↦ raise os_error
    | some content ↦ ok (insert target content tree)
  ]

  -- The files below `code/`, from those of `ml/`.
  unfoldable pub build_inference_code_dir : (ml_root : Tree) → Result Tree
  build_inference_code_dir ml_root =
      let t1 = copy2 ml_root (text "deployment/inference.py") (text "inference.py") (ok []) in
      let t2 = copy2 ml_root (text "deployment/requirements.txt") (text "requirements.txt") t1 in
      let t3 = copy2 ml_root (text "training/__init__.py") (text "training/__init__.py") t2 in
      copy2 ml_root (text "training/direction.py") (text "training/direction.py") t3

  unfoldable pub kept_members : Archive → Archive
  kept_members = filter_b (λ m. not (is_under (text "checkpoints") m.0))

  -- The members under the paths, below the destination, at which `tarfile` puts them. `placed` is its
  -- treatment of a name, which drops `.` and repeated slashes and may refuse a name.
  unfoldable pub placed_members : (placed : Text → Result Text) → Archive → Result Archive
  placed_members placed [] = ok []
  placed_members placed ((name, content) ∷ members) =
      let rest = placed_members placed members in
      elim (placed name) [
        | raise e ↦ raise e
        | ok path ↦ elim rest [ raise e ↦ raise e | ok ms ↦ ok ((path, content) ∷ ms) ]
      ]

  -- The files of `tar.extractall`: a later member at the same path replaces an earlier one.
  unfoldable pub extract_all : Archive → Tree → Tree
  extract_all [] tree = tree
  extract_all ((name, none) ∷ members) tree = extract_all members tree
  extract_all ((name, some content) ∷ members) tree = extract_all members (insert name content tree)

  -- `shutil.copytree(code_dir, extract_dir / "code")`, file by file
  unfoldable pub copy_tree : Tree → Tree → Tree
  copy_tree [] tree = tree
  copy_tree ((path, content) ∷ code) tree =
      copy_tree code (insert (text "code/" ++ path) content tree)

  -- The files of the archive that is written. `copytree` refuses a directory that exists.
  unfoldable pub packaged : (members : Archive) → (code : Tree) → Result Tree
  packaged members code =
      if any_b (λ m. is_under (text "code") m.0) members
      then raise os_error
      else ok (copy_tree code (extract_all members []))

  -- The members are filtered by their names as they stand in the archive.
  unfoldable pub repackage_model_artifact :
      (placed : Text → Result Text) → Archive → (code : Tree) → Result Tree
  repackage_model_artifact placed archive code =
      elim (placed_members placed (kept_members archive)) [
        | raise e ↦ raise e
        | ok members ↦ packaged members code
      ]
