-- ===== src/Api/Dynamo.antt =====
-- The DynamoDB table, which the program uses through `boto3`: a parameter of the model, with the
-- documented behaviour of the three calls as laws.
use es_kaq_translator_v.Base.{
  ℕ, ◌≡◌, Bool, true, false, Option, none, some, List, [], ◌∷◌, ◌=?◌, ◌==◌, if◌then◌else◌, ◌||◌,
}
use es_kaq_translator_v.Base.Dict.{Dict, lookup, insert}
use es_kaq_translator_v.Text.{Text, text_eq, text}

-- An attribute: a string or a number.
pub data Value : Type 0 where
  str : Text → Value
  num : ℕ → Value

unfoldable pub value_eq : Value → Value → Bool
value_eq (str s) (str t) = s =? t
value_eq (num m) (num n) = m == n
value_eq _ _ = false

abbrev pub Item : Type 0
Item = Dict Text Value

-- A call's answer: what it returns, or the code of the `ClientError` that it raises.
pub data Reply (A : Type 0) : Type 0 where
  returned : A → Reply A
  refused : Text → Reply A

-- A condition expression over name and value placeholders, as its syntax tree.
pub data Condition : Type 0 where
  attribute_not_exists : (name : Text) → Condition
  equals : (name value : Text) → Condition
  either : Condition → Condition → Condition

-- The arguments of `update_item`: `sets` lists the assignments of the `SET` expression, each a name
-- placeholder with a value placeholder.
pub record UpdateRequest : Type 0 where
  pub key : Text
  pub sets : List (Text × Text)
  pub names : Dict Text Text
  pub values : Dict Text Value
  pub condition : Condition

-- The attributes of the item that the key names; none if there is no such item.
abbrev pub attributes : Option Item → Item
attributes none = []
attributes (some item) = item

abbrev attribute : UpdateRequest → Item → Text → Option Value
attribute r item name = elim (lookup name r.names) [ none ↦ none | some attr ↦ lookup attr item ]

-- The documented meaning of a condition on the attributes of an item.
unfoldable pub holds : UpdateRequest → Item → Condition → Bool
holds r item (attribute_not_exists name) = elim (attribute r item name) [
  | none ↦ true
  | some v ↦ false
]
holds r item (equals name value) = elim (attribute r item name) [
  | none ↦ false
  | some v ↦ elim (lookup value r.values) [ none ↦ false | some w ↦ value_eq v w ]
]
holds r item (either c d) = holds r item c || holds r item d

-- The documented meaning of the assignments, in order.
unfoldable pub assign : UpdateRequest → List (Text × Text) → Item → Item
assign r [] item = item
assign r ((name, value) ∷ sets) item = elim (lookup name r.names) [
  | none ↦ assign r sets item
  | some attr ↦ elim (lookup value r.values) [
    | none ↦ assign r sets item
    | some v ↦ assign r sets (insert attr v item)
  ]
]

-- `update_item` creates the item, with its key, if there is none.
abbrev pub upserted : Text → Option Item → Item
upserted key none = (text "job_id", str key) ∷ []
upserted key (some item) = item

abbrev pub conditional_check_failed : Text
conditional_check_failed = text "ConditionalCheckFailedException"

pub record Dynamo : Type 1 where
  pub Table : Type 0
  -- what the table holds under a key, for the laws alone
  pub content : Table → Text → Option Item
  -- `GetItem` without `ConsistentRead`, at a time in seconds: what it returns may be out of date
  pub get_item : Table → (now : ℕ) → Text → Reply (Option Item)
  pub put_item : Table → Item → Reply (Unit {0}) × Table
  pub update_item : Table → UpdateRequest → Reply (Unit {0}) × Table
  pub put_returned :
      (t : Table) (item : Item) (k : Text)
      → lookup (text "job_id") item ≡ some (str k)
      → (put_item t item).0 ≡ returned tt
      → (j : Text) → content (put_item t item).1 j ≡ (if k =? j then some item else content t j)
  pub put_refused :
      (t : Table) (item : Item) (c : Text)
      → (put_item t item).0 ≡ refused c
      → (j : Text) → content (put_item t item).1 j ≡ content t j
  -- an update takes place only where its condition holds
  pub update_condition :
      (t : Table) (r : UpdateRequest)
      → (update_item t r).0 ≡ returned tt
      → holds r (attributes (content t r.key)) r.condition ≡ true
  pub update_returned :
      (t : Table) (r : UpdateRequest)
      → (update_item t r).0 ≡ returned tt
      → (j : Text)
      → content (update_item t r).1 j ≡ (
          if r.key =? j
          then some (assign r r.sets (upserted r.key (content t r.key)))
          else content t j)
  pub update_refused :
      (t : Table) (r : UpdateRequest) (c : Text)
      → (update_item t r).0 ≡ refused c
      → (j : Text) → content (update_item t r).1 j ≡ content t j
  -- the error code of a failed condition means that the condition failed
  pub update_check_failed :
      (t : Table) (r : UpdateRequest)
      → (update_item t r).0 ≡ refused conditional_check_failed
      → holds r (attributes (content t r.key)) r.condition ≡ false
