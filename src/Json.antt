-- ===== src/Json.antt =====
-- The JSON documents that the program builds and reads, and what it takes from cJSON and the C
-- library. A number is kept by its `valueint`, which is all that the program reads or writes of it.
-- Where the program prints a document after a row of `cJSON_Add…` calls, the model writes the
-- document that those calls add up to; an allocation that fails inside cJSON shows only as `print`
-- returning NULL.
use mlink_device.Prelude.{◌≡◌, Bool, true, false, Option, none, some, List, [], ◌∷◌}
use mlink_device.Prelude.Int.{ℤ}
use mlink_device.Prelude.Bytes.{Bytes}

mutual
  pub data Json : Type 0 where
    null : Json
    bool : Bool → Json
    num : ℤ → Json
    str : Bytes → Json
    arr : Items → Json
    obj : Fields → Json
    raw : Bytes → Json

  pub data Items : Type 0 where
    nil : Items
    cons : Json → Items → Items

  pub data Fields : Type 0 where
    end : Fields
    field : Bytes → Json → Fields → Fields

abbrev pub items : List Json → Items
items [] = nil
items (j ∷ js) = cons j (items js)

abbrev pub fields : List (Bytes × Json) → Fields
fields [] = end
fields ((k, j) ∷ js) = field k j (fields js)

abbrev pub array : List Json → Json
array js = arr (items js)

abbrev pub object : List (Bytes × Json) → Json
object js = obj (fields js)

-- cJSON_IsBool, cJSON_IsNumber, cJSON_IsString and cJSON_IsObject, which are false of NULL.
abbrev pub is_bool : Option Json → Bool
is_bool (some (bool b)) = true
is_bool _ = false

abbrev pub is_number : Option Json → Bool
is_number (some (num n)) = true
is_number _ = false

abbrev pub is_object : Option Json → Bool
is_object (some (obj fs)) = true
is_object _ = false

-- `valuestring` behind a test by cJSON_IsString.
abbrev pub get_string : Option Json → Option Bytes
get_string (some (str s)) = some s
get_string _ = none

pub record Env : Type 0 where
  -- cJSON_Parse and cJSON_PrintUnformatted
  pub parse : Bytes → Option Json
  pub print : Json → Option Bytes
  -- cJSON_GetObjectItem
  pub get_item : Json → Bytes → Option Json
  -- the field of that name of an item
  pub valueint : Json → ℤ
  -- snprintf with "%d"
  pub decimal : ℤ → Bytes

-- What cJSON documents of those. The field of an item that is no number is not documented.
pub record EnvLaws (e : Env) : Type 0 where
  pub valueint_num : (n : ℤ) → e.valueint (num n) ≡ n
