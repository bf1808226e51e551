-- ===== src/Api/Jobs/Guard.antt =====
-- The conditional write of a terminal status, against any table that keeps the laws of `Dynamo`.
use es_kaq_translator_v.Base.{
  ◌≡◌, refl, sym, Bool, true, false, Option, some, ◌=?◌, if◌then◌else◌, beq_refl, inl, inr, ◌⊎◌,
  ◌∙◌,
}
use es_kaq_translator_v.Base.Dict.{Dict}
use mathlib.Core.Bool.{false≢true}
use es_kaq_translator_v.Text.{Text, text_eq}
use es_kaq_translator_v.Api.Result.{Result-cases, ok}
use es_kaq_translator_v.Api.Dynamo.{
  Value, Item, Reply, returned, refused, UpdateRequest, holds, assign, attributes, upserted,
  conditional_check_failed,
}
use es_kaq_translator_v.Api.World.{Services, World, required_name}
use es_kaq_translator_v.Api.Jobs.{conditional_update, try_update, table_name, terminal_update}
use es_kaq_translator_v.Api.Jobs.Record.{is_open, holds-terminal_update}

-- What the table of a world holds under a key.
abbrev pub stored : (s : Services) → World s.dynamo → Text → Option Item
stored s w k = s.dynamo.content w.table k

-- A read of that key in that world returns what the table holds. `GetItem` does not promise it: a
-- read may be throttled, and without `ConsistentRead` it may be out of date.
abbrev pub IsFresh : (s : Services) → World s.dynamo → Text → Type 0
IsFresh s w k = s.dynamo.get_item w.table w.now k ≡ returned (stored s w k)

-- The table takes writes: they are not throttled, and an update is refused for its condition alone.
pub record IsHealthy (s : Services) : Type 0 where
  pub puts : (t : s.dynamo.Table) (item : Item) → (s.dynamo.put_item t item).0 ≡ returned tt
  pub updates :
      (t : s.dynamo.Table) (r : UpdateRequest)
      → ((s.dynamo.update_item t r).0 ≡ returned tt)
        ⊎ ((s.dynamo.update_item t r).0 ≡ refused conditional_check_failed)

-- The answer of an update, without a match on its unit.
pub Reply-cases : (r : Reply (Unit {0})) → (r ≡ returned tt) ⊎ ((c : Text) × (r ≡ refused c))
Reply-cases (returned tt) = inl refl
Reply-cases (refused c) = inr (c, refl)

module _ (s : Services) (r : UpdateRequest) (w : World s.dynamo) where
  abbrev held : Bool
  held = holds r (attributes (stored s w r.key)) r.condition

  -- An update whose condition fails writes nothing.
  try_update_closed : held ≡ false → (j : Text) → stored s (try_update s r w).1 j ≡ stored s w j
  unfolding try_update
  try_update_closed closed j = elim (Reply-cases (s.dynamo.update_item w.table r).0) [
    | inl e ↦ absurd (false≢true (sym closed ∙ s.dynamo.update_condition w.table r e))
    | inr (c, e) ↦ s.dynamo.update_refused w.table r c e j
  ]

  -- The failed condition is passed over.
  try_update_passed : IsHealthy s → held ≡ false → (try_update s r w).0 ≡ ok tt
  unfolding try_update
  try_update_passed healthy closed = elim (healthy.updates w.table r) [
    | inl e ↦ absurd (false≢true (sym closed ∙ s.dynamo.update_condition w.table r e))
    | inr e ↦ rw e (rw (beq_refl conditional_check_failed) refl)
  ]

  -- One whose condition holds is carried out, and touches no other key.
  try_update_open :
      IsHealthy s
      → held ≡ true
      → ((try_update s r w).0 ≡ ok tt)
        × ((j : Text)
            → stored s (try_update s r w).1 j ≡ (
                if r.key =? j
                then some (assign r r.sets (upserted r.key (stored s w r.key)))
                else stored s w j))
  unfolding try_update
  try_update_open healthy open_ = elim (healthy.updates w.table r) [
    | inl e ↦ (rw e refl, s.dynamo.update_returned w.table r e)
    | inr e ↦ absurd (false≢true (sym (s.dynamo.update_check_failed w.table r e) ∙ open_))
  ]

module _ (s : Services) (r : UpdateRequest) (w : World s.dynamo) where
  -- No update touches an item under another key.
  try_update_other :
      (j : Text) → (r.key =? j) ≡ false → stored s (try_update s r w).1 j ≡ stored s w j
  unfolding try_update
  try_update_other j other = elim (Reply-cases (s.dynamo.update_item w.table r).0) [
    | inl e ↦ s.dynamo.update_returned w.table r e j ∙ rw other refl
    | inr (c, e) ↦ s.dynamo.update_refused w.table r c e j
  ]

module _ (s : Services) (k : Text) (fields : Dict Text Value) (w : World s.dynamo) where
  abbrev request : UpdateRequest
  request = terminal_update k fields

  held-request : held s request w ≡ is_open (attributes (stored s w k))
  unfolding terminal_update
  held-request = holds-terminal_update k fields (attributes (stored s w k))

  -- A job whose status is terminal is left as it is, and so is every other one.
  pub conditional_update_closed :
      is_open (attributes (stored s w k)) ≡ false
      → (j : Text) → stored s (conditional_update s k fields w).1 j ≡ stored s w j
  unfolding conditional_update table_name terminal_update
  conditional_update_closed closed j = elim (Result-cases (required_name w.environ.table_name)) [
    | inl (n, e) ↦ rw e (try_update_closed s request w (held-request ∙ closed) j)
    | inr (x, e) ↦ rw e refl
  ]

  -- An open one gets the fields.
  pub conditional_update_open :
      {name : Text}
      → IsHealthy s
      → required_name w.environ.table_name ≡ ok name
      → is_open (attributes (stored s w k)) ≡ true
      → ((conditional_update s k fields w).0 ≡ ok tt)
        × ((j : Text)
            → stored s (conditional_update s k fields w).1 j ≡ (
                if k =? j
                then some (assign request request.sets (upserted k (stored s w k)))
                else stored s w j))
  unfolding conditional_update table_name terminal_update
  conditional_update_open healthy named open_ =
      rw named (try_update_open s request w healthy (held-request ∙ open_))

  pub conditional_update_other :
      (j : Text) → (k =? j) ≡ false → stored s (conditional_update s k fields w).1 j ≡ stored s w j
  unfolding conditional_update table_name terminal_update
  conditional_update_other j other = elim (Result-cases (required_name w.environ.table_name)) [
    | inl (n, e) ↦ rw e (try_update_other s request w j other)
    | inr (x, e) ↦ rw e refl
  ]

  -- The update touches the table alone.
  pub log-conditional_update : (conditional_update s k fields w).1.log ≡ w.log
  unfolding conditional_update table_name try_update
  log-conditional_update = elim (Result-cases (required_name w.environ.table_name)) [
    | inl (n, e) ↦ rw e refl
    | inr (x, e) ↦ rw e refl
  ]

  pub endpoint_calls-conditional_update :
      (conditional_update s k fields w).1.endpoint_calls ≡ w.endpoint_calls
  unfolding conditional_update table_name try_update
  endpoint_calls-conditional_update = elim (Result-cases (required_name w.environ.table_name)) [
    | inl (n, e) ↦ rw e refl
    | inr (x, e) ↦ rw e refl
  ]

  pub conditional_update_passed :
      {name : Text}
      → IsHealthy s
      → required_name w.environ.table_name ≡ ok name
      → is_open (attributes (stored s w k)) ≡ false
      → (conditional_update s k fields w).0 ≡ ok tt
  unfolding conditional_update table_name terminal_update
  conditional_update_passed healthy named closed =
      rw named (try_update_passed s request w healthy (held-request ∙ closed))

  pub environ-conditional_update :
      ((conditional_update s k fields w).1.environ ≡ w.environ)
      × ((conditional_update s k fields w).1.now ≡ w.now)
  unfolding conditional_update table_name try_update
  environ-conditional_update = elim (Result-cases (required_name w.environ.table_name)) [
    | inl (n, e) ↦ rw e (refl, refl)
    | inr (x, e) ↦ rw e (refl, refl)
  ]
