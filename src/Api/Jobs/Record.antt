-- ===== src/Api/Jobs/Record.antt =====
-- The items that jobs.py writes: what the guard says of them, and what a terminal write makes of
-- them.
use es_kaq_translator_v.Base.{ℕ, ◌≡◌, refl, Bool, true, none, some, ◌≤◌, length, list_beq, arith}
use es_kaq_translator_v.Base.Dict.{Dict, lookup, insert, lookup-insert}
use es_kaq_translator_v.Text.{Text, text, text_eq}
use es_kaq_translator_v.Api.Result.{ok}
use es_kaq_translator_v.Api.Models.{
  TranslateRequest, Direction, es_to_cak, cak_to_es, parse_direction, make_request, status_value,
  pending, succeeded, failed,
}
use es_kaq_translator_v.Api.Dynamo.{
  Value, str, num, Item, holds, attribute_not_exists, equals, either, assign, value_eq,
}
use es_kaq_translator_v.Api.Jobs.{
  attr, as_text, string_of, new_item, terminal_update, succeeded_fields, failed_fields, request_of,
  name_placeholder,
}

-- The job has no terminal status yet.
unfoldable pub is_open : Item → Bool
unfolding value_eq
is_open item = elim (lookup (text "status") item) [
  | none ↦ true
  | some v ↦ value_eq v (str (status_value pending))
]

-- The record with a success, or a failure, written on it.
unfoldable pub with_success : Text → Item → Item
with_success translation item =
    insert (text "translation") (str translation)
      (insert (text "status") (str (status_value succeeded)) item)

unfoldable pub with_failure : ℕ → Text → Item → Item
with_failure status_code error item = insert (text "error") (str error) (
    insert (text "status_code") (num status_code)
      (insert (text "status") (str (status_value failed)) item))

names-status :
    (k : Text) (fields : Dict Text Value)
    → lookup (name_placeholder (text "status")) (terminal_update k fields).names
      ≡ some (text "status")
unfolding terminal_update
names-status k fields = rw lookup-insert (unfold list_beq in refl)

values-pending :
    (k : Text) (fields : Dict Text Value)
    → lookup (text ":pending_status") (terminal_update k fields).values
      ≡ some (str (status_value pending))
unfolding terminal_update
values-pending k fields = rw lookup-insert (unfold list_beq in refl)

condition-terminal_update :
    (k : Text) (fields : Dict Text Value)
    → (terminal_update k fields).condition
      ≡ either
          (attribute_not_exists (name_placeholder (text "status")))
          (equals (name_placeholder (text "status")) (text ":pending_status"))
unfolding terminal_update
condition-terminal_update k fields = refl

-- The condition of the update is the guard, whatever the fields are.
pub holds-terminal_update :
    (k : Text) (fields : Dict Text Value) (item : Item)
    → let r = terminal_update k fields in holds r item r.condition ≡ is_open item
unfolding holds is_open
holds-terminal_update k fields item =
    let r = terminal_update k fields in
    let names = r.names in
    ground
      (arith, names-status k fields, values-pending k fields, condition-terminal_update k fields)

pub assign-succeeded :
    (k t : Text) (item : Item)
    → let r = terminal_update k (succeeded_fields t) in assign r r.sets item ≡ with_success t item
unfolding assign terminal_update succeeded_fields with_success lookup insert list_beq
assign-succeeded k t item = refl

pub assign-failed :
    (k : Text) (c : ℕ) (m : Text) (item : Item)
    → let r = terminal_update k (failed_fields c m) in assign r r.sets item ≡ with_failure c m item
unfolding assign terminal_update failed_fields with_failure lookup insert list_beq
assign-failed k c m item = refl

request_of-parts :
    (k : Text) (now : ℕ) (t : Text) (d : Direction)
    → 1 ≤ length t
    → length t ≤ 2000
    → request_of (new_item k now (record { text = t; direction = d }))
      ≡ ok (record { text = t; direction = d })
unfolding request_of new_item attr as_text string_of parse_direction make_request lookup list_beq
request_of-parts k now t es_to_cak h h' = ground arith
request_of-parts k now t cak_to_es h h' = ground arith

-- What `create_job` stores of a valid request, `get_job_input` reads back.
pub request_of-new_item :
    (k : Text) (now : ℕ) (request : TranslateRequest)
    → 1 ≤ length request.text
    → length request.text ≤ 2000
    → request_of (new_item k now request) ≡ ok request
request_of-new_item k now request h h' = request_of-parts k now request.text request.direction h h'
