-- ===== src/Api/Fake.antt =====
-- apps/api/tests/_fake_dynamodb.py: a table in memory that keeps the laws of `Dynamo`, and services
-- round it, at which the theorems are applied.
use es_kaq_translator_v.Base.{
  ℕ, ◌≡◌, refl, Bool, true, false, Option, none, some, [], ◌∷◌, ◌=?◌, if◌then◌else◌, inl, inr,
  Bool-cases, ◌⊎◌, arith,
}
use es_kaq_translator_v.Base.Dict.{Dict, lookup, insert, lookup-insert}
use es_kaq_translator_v.Text.{Text, text, text_eq}
use es_kaq_translator_v.Api.Dynamo.{
  Dynamo, Value, str, num, Item, Reply, returned, refused, UpdateRequest, holds, assign, attributes,
  upserted, conditional_check_failed,
}
use es_kaq_translator_v.Api.Jobs.Guard.{IsHealthy}
use es_kaq_translator_v.Api.World.{Services, World, Environ, body}
use es_kaq_translator_v.Api.Json.{Json, field, end}

abbrev pub Table : Type 0
Table = Dict Text Item

-- The key that an item is stored under.
unfoldable pub key_of : Option Value → Text
key_of none = []
key_of (some (str k)) = k
key_of (some (num n)) = []

abbrev pub get_item : Table → (now : ℕ) → Text → Reply (Option Item)
get_item t now k = returned (lookup k t)

abbrev pub put_item : Table → Item → Reply (Unit {0}) × Table
put_item t item = (returned tt, insert (key_of (lookup (text "job_id") item)) item t)

unfoldable pub update_item : Table → UpdateRequest → Reply (Unit {0}) × Table
update_item t r =
    if holds r (attributes (lookup r.key t)) r.condition
    then (returned tt, insert r.key (assign r r.sets (upserted r.key (lookup r.key t))) t)
    else (refused conditional_check_failed, t)

pub put_returned :
    (t : Table) (item : Item) (k : Text)
    → lookup (text "job_id") item ≡ some (str k)
    → (put_item t item).0 ≡ returned tt
    → (j : Text) → lookup j (put_item t item).1 ≡ (if k =? j then some item else lookup j t)
unfolding key_of
put_returned t item k named h j = rw (named, key_of) (lookup-insert k j item t)

pub put_refused :
    (t : Table) (item : Item) (c : Text)
    → (put_item t item).0 ≡ refused c
    → (j : Text) → lookup j (put_item t item).1 ≡ lookup j t
put_refused t item c h j = cc

module _ (t : Table) (r : UpdateRequest) where
  abbrev pub held : Bool
  held = holds r (attributes (lookup r.key t)) r.condition

  pub update_condition : (update_item t r).0 ≡ returned tt → held ≡ true
  unfolding update_item
  update_condition h = ground arith

  pub update_returned :
      (update_item t r).0 ≡ returned tt
      → (j : Text)
      → lookup j (update_item t r).1 ≡ (
          if r.key =? j
          then some (assign r r.sets (upserted r.key (lookup r.key t)))
          else lookup j t)
  unfolding update_item
  update_returned h j = elim (Bool-cases held) [
    | inl e ↦ rw e (lookup-insert r.key j _ t)
    | inr e ↦ absurd (ground arith)
  ]

  pub update_refused :
      (c : Text)
      → (update_item t r).0 ≡ refused c
      → (j : Text) → lookup j (update_item t r).1 ≡ lookup j t
  unfolding update_item
  update_refused c h j = elim (Bool-cases held) [
    | inl e ↦ absurd (ground arith)
    | inr e ↦ rw e refl
  ]

  pub update_check_failed : (update_item t r).0 ≡ refused conditional_check_failed → held ≡ false
  unfolding update_item
  update_check_failed h = ground arith

  update_answers :
      ((update_item t r).0 ≡ returned tt) ⊎ ((update_item t r).0 ≡ refused conditional_check_failed)
  unfolding update_item
  update_answers = elim (Bool-cases held) [ inl e ↦ inl (rw e refl) | inr e ↦ inr (rw e refl) ]

abbrev pub fake_dynamo : Dynamo
fake_dynamo = record {
  Table = Table;
  content = λ t k. lookup k t;
  get_item = get_item;
  put_item = put_item;
  update_item = update_item;
  put_returned = put_returned;
  put_refused = put_refused;
  update_condition = update_condition;
  update_returned = update_returned;
  update_refused = update_refused;
  update_check_failed = update_check_failed;
}

-- Services whose endpoint always answers the same body, which `loads` reads.
abbrev pub fake_services : Services
fake_services = record {
  dynamo = fake_dynamo;
  new_uuid = λ n. b'j' ∷ n ∷ [];
  is_uuid = λ k. true;
  int_of = λ t. none;
  dumps = λ j. [];
  loads = λ t. some (Json.obj (field (text "translated_text") (Json.str (text "utz sq'ij")) end));
  invoke_endpoint = λ n name request. body (text "ok");
  latency_ms = λ n. 120;
  invoke = λ n. returned tt;
}

pub fake-IsHealthy : IsHealthy fake_services
fake-IsHealthy = record { puts = λ t item. refl; updates = update_answers }

abbrev pub fake_environ : Environ
fake_environ = record {
  table_name = some (text "jobs");
  worker_function_name = some (text "worker");
  endpoint_name = some (text "translator");
}

abbrev pub world_of : Table → World fake_dynamo
world_of t = record {
  table = t;
  now = 1000;
  environ = fake_environ;
  uuids = 7;
  endpoint_calls = 0;
  invoke_calls = 0;
  invocations = [];
  log = [];
}
