-- ===== src/Mcp/Property.antt =====
-- core/mcp/mcp_property.c: the typed parameters of a tool, and lists of them.
pub mod Copy
pub mod Accept
pub mod Default
pub mod Blocks
pub mod Sound
pub mod Granting
use mlink_device.Prelude.{is_some}
use mlink_device.Prelude.{
  zero, suc, Bool, true, false, not, ◌&&◌, Option, none, some, List, [], ◌∷◌, ◌++◌, if◌then◌else◌,
}
use mlink_device.Prelude.Int.{ℤ, pos, ltb_ℤ}
use mlink_device.Prelude.Bytes.{Bytes, bytes}
use mlink_device.Memory.{M, pure, ◌>>=◌, ◌>>◌, strdup}
use mlink_device.Memory as Memory
use mlink_device.Json.{Json, bool, num, str, object, Env, is_bool, is_number, get_string}

pub data PropertyType : Type 0 where
  boolean integer string : PropertyType

-- The union: the member that was last written. Reading another member of zeroed memory gives 0.
pub data Value : Type 0 where
  bool_value : Bool → Value
  int_value : ℤ → Value
  string_value : Option Bytes → Value

abbrev pub as_bool : Value → Bool
as_bool (bool_value b) = b
as_bool _ = false

abbrev pub as_int : Value → ℤ
as_int (int_value n) = n
as_int _ = pos 0

abbrev pub as_string : Value → Option Bytes
as_string (string_value s) = s
as_string _ = none

pub record Property : Type 0 where
  pub name : Option Bytes
  pub type : PropertyType
  pub has_default : Bool
  pub has_min : Bool
  pub has_max : Bool
  pub min_value : ℤ
  pub max_value : ℤ
  pub value : Value

abbrev pub is_boolean : PropertyType → Bool
is_boolean boolean = true
is_boolean _ = false

abbrev pub is_integer : PropertyType → Bool
is_integer integer = true
is_integer _ = false

abbrev pub is_string : PropertyType → Bool
is_string string = true
is_string _ = false

-- A `strdup` that fails leaves NULL in the copy.
unfoldable pub copy_func : Property → M Property
copy_func s = do
  name ← strdup s.name
  if is_string s.type && s.has_default
      then (strdup (as_string s.value) >>= λ text.
          pure (record s { name = name; value = string_value text }))
      else pure (record s { name = name })

unfoldable pub free_func : Property → M (Unit {0})
free_func p = do
  Memory.free p.name
  if is_string p.type && p.has_default then Memory.free (as_string p.value) else pure tt

unfoldable pub set_bool : Property → Bool → Bool × Property
set_bool p value =
    if not (is_boolean p.type)
    then (false, p)
    else (true, record p { value = bool_value value; has_default = true })

unfoldable pub set_int : Property → ℤ → Bool × Property
set_int p value =
    if not (is_integer p.type)
    then (false, p)
    else if p.has_min && ltb_ℤ value p.min_value
    then (false, p)
    else if p.has_max && ltb_ℤ p.max_value value
    then (false, p)
    else (true, record p { value = int_value value; has_default = true })

-- A NULL text counts as the empty one.
abbrev pub or_empty : Option Bytes → Bytes
or_empty none = []
or_empty (some s) = s

unfoldable pub set_string : Property → Option Bytes → M (Bool × Property)
set_string p value =
    if not (is_string p.type)
    then pure (false, p)
    else (Memory.free (as_string p.value)
        >> (strdup (some (or_empty value)) >>= λ text.
            pure (is_some text, record p { value = string_value text; has_default = true })))

abbrev pub is_one : ℤ → Bool
is_one (pos (suc zero)) = true
is_one _ = false

unfoldable pub copy_from_json : Env → Property → Json → M (Bool × Property)
copy_from_json e p json = elim p.type [
  | boolean ↦
      if is_bool (some json) then pure (set_bool p (is_one (e.valueint json))) else pure (false, p)
  | integer ↦ if is_number (some json) then pure (set_int p (e.valueint json)) else pure (false, p)
  | string ↦ elim (get_string (some json)) [
    | none ↦ pure (false, p)
    | some text ↦ set_string p (some text)
  ]
]

abbrev when : Bool → Bytes → Json → List (Bytes × Json)
when b k j = if b then (k, j) ∷ [] else []

-- The document that `mcp_property_to_json` prints.
unfoldable pub property_document : Property → Json
property_document p = elim p.type [
  | boolean ↦ object (
      (bytes "type", str (bytes "boolean"))
      ∷ when p.has_default (bytes "default") (bool (as_bool p.value)))
  | integer ↦ object (
      (bytes "type", str (bytes "integer"))
      ∷ (when p.has_default (bytes "default") (num (as_int p.value))
          ++ (when p.has_min (bytes "minimum") (num p.min_value)
              ++ when p.has_max (bytes "maximum") (num p.max_value))))
  | string ↦ object (
      (bytes "type", str (bytes "string"))
      ∷ when (p.has_default && is_some (as_string p.value)) (bytes "default")
          (str (or_empty (as_string p.value))))
]

unfoldable pub property_to_json : Env → Property → Option Bytes
property_to_json e p = e.print (property_document p)

-- An item under a NULL key is not added.
abbrev pub add_item : List (Bytes × Json) → Option Bytes → Json → List (Bytes × Json)
add_item entries none json = entries
add_item entries (some key) json = entries ++ (key, json) ∷ []

-- The entries of the object with the property, or none where it returns false.
unfoldable pub append_json : Env → List (Bytes × Json) → Property → Option (List (Bytes × Json))
append_json e entries p = elim (property_to_json e p) [
  | none ↦ none
  | some text ↦ elim (e.parse text) [
    | none ↦ none
    | some parsed ↦ some (add_item entries p.name parsed)
  ]
]
