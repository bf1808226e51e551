-- ===== src/Deployment/Package/Contents.antt =====
-- ml/deployment/package_model.py: what the repackaged archive holds under each path.
use es_kaq_translator_v.Base.{
  ◌≡◌, refl, ap, ◌∙◌, true, false, Option, none, some, [], ◌∷◌, ◌++◌, ◌=?◌, if◌then◌else◌, any_b,
  All, Bool-cases, inl, inr, arith, list_beq, nat_eq,
}
use es_kaq_translator_v.Base.Dict.{lookup, insert, lookup-insert}
use es_kaq_translator_v.Text.{Text, text, text_eq, starts_with}
use es_kaq_translator_v.Api.Result.{Result, ok}
use es_kaq_translator_v.Deployment.Package.{
  Archive, Tree, is_under, kept_members, placed_members, packaged, extract_all, copy_tree,
  repackage_model_artifact,
}

under-apart : (d n m : Text) → is_under d n ≡ true → is_under d m ≡ false → (n =? m) ≡ false
under-apart d n m a b = elim (Bool-cases (n =? m)) [
  | inr apart ↦ apart
  | inl same ↦
      absurd
        (let e = (text_eq.beq_iff n m).0 same in let c : is_under d m ≡ true = rw (← e) a in cc)
]

module _ (Content : Type 0) where
  -- The last member of that name that is a regular file, or what was there.
  abbrev pub last_file : Text → Archive Content → Option Content → Option Content
  last_file name [] before = before
  last_file name ((n, none) ∷ members) before = last_file name members before
  last_file name ((n, some content) ∷ members) before =
      last_file name members (if n =? name then some content else before)

  extract_all-lookup :
      (name : Text) (members : Archive Content) (tree : Tree Content)
      → lookup name (extract_all Content members tree) ≡ last_file name members (lookup name tree)
  unfolding extract_all
  extract_all-lookup name [] tree = refl
  extract_all-lookup name ((n, none) ∷ members) tree = extract_all-lookup name members tree
  extract_all-lookup name ((n, some content) ∷ members) tree =
      extract_all-lookup name members (insert n content tree)
      ∙ ap (last_file name members) (lookup-insert n name content tree)

  -- What the filter drops has no bearing on another name.
  last_file-kept :
      (name : Text) (members : Archive Content) (before : Option Content)
      → is_under (text "checkpoints") name ≡ false
      → last_file name (kept_members Content members) before ≡ last_file name members before
  unfolding kept_members
  last_file-kept name [] before h = refl
  last_file-kept name ((n, none) ∷ members) before h =
      elim (Bool-cases (is_under (text "checkpoints") n)) [
        | inl out ↦ rw out (last_file-kept name members before h)
        | inr kept ↦ rw kept (last_file-kept name members before h)
      ]
  last_file-kept name ((n, some content) ∷ members) before h =
      elim (Bool-cases (is_under (text "checkpoints") n)) [
        | inl out ↦
            let apart : (n =? name) ≡ false = under-apart (text "checkpoints") n name out h in
            rw (out, apart) (last_file-kept name members before h)
        | inr kept ↦
            rw kept (last_file-kept name members (if n =? name then some content else before) h)
      ]

  -- A name that the filter drops is in no kept member.
  last_file-dropped :
      (name : Text) (members : Archive Content) (before : Option Content)
      → is_under (text "checkpoints") name ≡ true
      → last_file name (kept_members Content members) before ≡ before
  unfolding kept_members
  last_file-dropped name [] before h = refl
  last_file-dropped name ((n, none) ∷ members) before h =
      elim (Bool-cases (is_under (text "checkpoints") n)) [
        | inl out ↦ rw out (last_file-dropped name members before h)
        | inr kept ↦ rw kept (last_file-dropped name members before h)
      ]
  last_file-dropped name ((n, some content) ∷ members) before h =
      elim (Bool-cases (is_under (text "checkpoints") n)) [
        | inl out ↦ rw out (last_file-dropped name members before h)
        | inr kept ↦
            let apart : (n =? name) ≡ false = ground (
              arith,
              under-apart (text "checkpoints") name n h kept,
              text_eq.beq_iff n name,
              text_eq.beq_iff name n,
            ) in
            rw (kept, apart) (last_file-dropped name members before h)
      ]

  -- A file of the code directory, by its path in the archive.
  abbrev pub code_file : Text → Tree Content → Option Content → Option Content
  code_file name [] before = before
  code_file name ((path, content) ∷ code) before =
      code_file name code (if (text "code/" ++ path) =? name then some content else before)

  copy_tree-lookup :
      (name : Text) (code tree : Tree Content)
      → lookup name (copy_tree Content code tree) ≡ code_file name code (lookup name tree)
  unfolding copy_tree
  copy_tree-lookup name [] tree = refl
  copy_tree-lookup name ((path, content) ∷ code) tree =
      copy_tree-lookup name code (insert (text "code/" ++ path) content tree)
      ∙ ap (code_file name code) (lookup-insert (text "code/" ++ path) name content tree)

  code_path-not_checkpoint :
      (path : Text) → is_under (text "checkpoints") (text "code/" ++ path) ≡ false
  unfolding is_under starts_with list_beq
  code_path-not_checkpoint path = refl

  code-not_checkpoint :
      (path name : Text)
      → is_under (text "checkpoints") name ≡ true
      → ((text "code/" ++ path) =? name) ≡ false
  code-not_checkpoint path name h =
      let apart =
        under-apart (text "checkpoints") name (text "code/" ++ path) h
          (code_path-not_checkpoint path) in
      ground (
        arith,
        apart,
        text_eq.beq_iff (text "code/" ++ path) name,
        text_eq.beq_iff name (text "code/" ++ path),
      )

  code_file-checkpoint :
      (name : Text) (code : Tree Content) (before : Option Content)
      → is_under (text "checkpoints") name ≡ true
      → code_file name code before ≡ before
  code_file-checkpoint name [] before h = refl
  code_file-checkpoint name ((path, content) ∷ code) before h =
      rw (code-not_checkpoint path name h) (code_file-checkpoint name code before h)

  no_code-kept :
      (members : Archive Content)
      → any_b (λ m. is_under (text "code") m.0) members ≡ false
      → any_b (λ m. is_under (text "code") m.0) (kept_members Content members) ≡ false
  unfolding kept_members
  no_code-kept [] h = refl
  no_code-kept (m ∷ members) h = elim (Bool-cases (is_under (text "checkpoints") m.0)) [
    | inl out ↦ rw out (no_code-kept members (ground arith))
    | inr kept ↦
        let here : is_under (text "code") m.0 ≡ false = ground arith in
        rw (kept, here) (no_code-kept members (ground arith))
  ]

  kept-placed :
      (placed : Text → Result Text) (members : Archive Content)
      → All (λ m. placed m.0 ≡ ok m.0) members
      → placed_members Content placed (kept_members Content members)
        ≡ ok (kept_members Content members)
  unfolding placed_members kept_members
  kept-placed placed [] h = refl
  kept-placed placed (m ∷ members) h = elim (Bool-cases (is_under (text "checkpoints") m.0)) [
    | inl out ↦ rw out (kept-placed placed members h.1)
    | inr kept ↦ rw (kept, placed_members, h.0, kept-placed placed members h.1) refl
  ]

  -- An archive of which each member is extracted to the path that its name is, and none to `code` or
  -- below it, is repackaged; the result holds nothing under `checkpoints`, under `code/` the files of
  -- the code directory, and every other regular file of the archive as its last member of that name
  -- has it.
  pub repackage_model_artifact_lem :
      (placed : Text → Result Text) (archive : Archive Content) (code : Tree Content)
      → All (λ m. placed m.0 ≡ ok m.0) archive
      → any_b (λ m. is_under (text "code") m.0) archive ≡ false
      → (tree : Tree Content) × (repackage_model_artifact Content placed archive code ≡ ok tree)
        × ((name : Text)
            → lookup name tree ≡ (
                if is_under (text "checkpoints") name
                then none
                else code_file name code (last_file name archive none)))
  unfolding repackage_model_artifact packaged lookup
  repackage_model_artifact_lem placed archive code p h =
      let files = extract_all Content (kept_members Content archive) [] in
      (
        copy_tree Content code files,
        rw
            (
              repackage_model_artifact,
              kept-placed placed archive p,
              packaged,
              no_code-kept archive h,
            )
            refl,
        λ name.
            copy_tree-lookup name code files
            ∙ ap (code_file name code) (extract_all-lookup name (kept_members Content archive) [])
            ∙ elim (Bool-cases (is_under (text "checkpoints") name)) [
              | inl out ↦ rw out (
                  ap (code_file name code) (last_file-dropped name archive none out)
                  ∙ code_file-checkpoint name code none out)
              | inr kept ↦
                  rw kept (ap (code_file name code) (last_file-kept name archive none kept))
            ],
      )
