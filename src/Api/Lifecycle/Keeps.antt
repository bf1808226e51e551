-- ===== src/Api/Lifecycle/Keeps.antt =====
-- What leaves an item with a terminal status as it is: a rule for each way to build a handler, and
-- one for each operation of jobs.py.
use es_kaq_translator_v.Base.{◌≡◌, false, Option, none, some, ◌=?◌, inl, inr, Bool-cases, ◌∙◌}
use es_kaq_translator_v.Base.Dict.{Dict}
use es_kaq_translator_v.Text.{Text, text_eq}
use es_kaq_translator_v.Api.Result.{
  Exn, Result, ok, raise, Exec, pure, lift, or_throw, continue, ◌>>=◌,
}
use es_kaq_translator_v.Api.Dynamo.{Value, Item}
use es_kaq_translator_v.Api.World.{Services, World}
use es_kaq_translator_v.Api.Jobs.{conditional_update}
use es_kaq_translator_v.Api.Jobs.Record.{is_open}
use es_kaq_translator_v.Api.Jobs.Guard.{stored, conditional_update_closed, conditional_update_other}

module _ (s : Services) (k : Text) (item : Item) where
  pub record Keeps {A : Type 0} (m : Exec (World s.dynamo) A) : Type 0 where
    pub at : (w : World s.dynamo) → stored s w k ≡ some item → stored s (m w).1 k ≡ some item

  pub Keeps-of_table :
      {A : Type 0} (m : Exec (World s.dynamo) A)
      → ((w : World s.dynamo) → (m w).1.table ≡ w.table)
      → Keeps m
  Keeps-of_table m same = record { at = λ w h. rw (same w) h }

  pub continue-Keeps :
      {A B : Type 0} (r : Result A) (f : A → Exec (World s.dynamo) B)
      → ((a : A) → Keeps (f a))
      → Keeps (continue r f)
  continue-Keeps (ok a) f h = h a
  continue-Keeps (raise e) f h = record { at = λ w p. p }

  pub >>=-Keeps :
      {A B : Type 0} (m : Exec (World s.dynamo) A) (f : A → Exec (World s.dynamo) B)
      → Keeps m
      → ((a : A) → Keeps (f a))
      → Keeps (m >>= f)
  >>=-Keeps m f hm hf = record { at = λ w h. (continue-Keeps (m w).0 f hf).at (m w).1 (hm.at w h) }

  pub lift-Keeps : {A : Type 0} (r : Result A) → Keeps (lift r)
  lift-Keeps r = record { at = λ w h. h }

  pub pure-Keeps : {A : Type 0} (a : A) → Keeps (pure a)
  pure-Keeps a = record { at = λ w h. h }

  pub or_throw-Keeps : {A : Type 0} (o : Option A) (e : Exn) → Keeps (or_throw o e)
  or_throw-Keeps none e = record { at = λ w h. h }
  or_throw-Keeps (some a) e = record { at = λ w h. h }

  pub conditional_update-Keeps :
      is_open item ≡ false
      → (j : Text) (fields : Dict Text Value) → Keeps (conditional_update s j fields)
  conditional_update-Keeps closed j fields = elim (Bool-cases (j =? k)) [
    | inl same ↦
        let e = (text_eq.beq_iff j k).0 same in
        record { at = λ w h. conditional_update_closed s j fields w (rw (e, h) closed) k ∙ h }
    | inr other ↦ record { at = λ w h. conditional_update_other s j fields w k other ∙ h }
  ]
