-- ===== src/Api/Json.antt =====
-- JSON values, as `json.loads` returns them and `json.dumps` takes them.
use es_kaq_translator_v.Base.{ℕ, Bool, Option, none, some, ◌=?◌, if◌then◌else◌}
use es_kaq_translator_v.Text.{Text, text_eq}

-- The lists and the objects are declared in the block, since they hold values.
mutual
  pub data Json : Type 0 where
    null : Json
    bool : Bool → Json
    num : ℕ → Json
    str : Text → Json
    arr : Items → Json
    obj : Fields → Json

  pub data Items : Type 0 where
    nil : Items
    cons : Json → Items → Items

  pub data Fields : Type 0 where
    end : Fields
    field : Text → Json → Fields → Fields

-- `payload.get(key)`
unfoldable pub get_field : Text → Fields → Option Json
get_field k end = none
get_field k (field j v rest) = if j =? k then some v else get_field k rest
