-- ===== src/Mcp/Tool.antt =====
-- core/mcp/mcp_tool.c: a tool, its description for the client, and its call.
pub mod Lifetime
pub mod Schema
use mlink_device.Prelude.{
  Bool, true, false, not, Option, none, some, List, [], ◌∷◌, ◌++◌, if◌then◌else◌,
}
use mlink_device.Prelude.Bytes.{Bytes, bytes}
use mlink_device.Memory.{M, pure, ◌>>=◌, ◌>>◌, strdup, malloc}
use mlink_device.Memory as Memory
use mlink_device.DynList.Contents.{contents}
use mlink_device.Json.{Json, str, object, array, Env}
use mlink_device.Mcp.Property.{Property, append_json}
use mlink_device.Mcp.PropertyList.{PropertyList}
use mlink_device.Mcp.PropertyList as PropertyList
use mlink_device.Mcp.ReturnValue.{ReturnValue}
use mlink_device.Mcp.ReturnValue as ReturnValue

-- The callback with its `user_ctx`.
abbrev pub Callback : Type 0
Callback = PropertyList → ReturnValue

pub record Tool : Type 0 where
  pub name : Bytes
  pub description : Bytes
  pub properties : PropertyList
  pub callback : Option Callback
  pub user_only : Bool

-- Gives back a tool whose texts may be NULL, the block of the tool last.
abbrev pub destroy_parts : Option Bytes → Option Bytes → PropertyList → M (Unit {0})
destroy_parts name description properties = do
  Memory.free name
  Memory.free description
  _ ← PropertyList.free properties
  Memory.free (some tt)

unfoldable pub destroy : Option Tool → M (Unit {0})
destroy none = pure tt
destroy (some tool) = destroy_parts (some tool.name) (some tool.description) tool.properties

-- The tool from its parts, or all parts given back where a text is NULL.
abbrev pub finish :
    Option Bytes → Option Bytes → PropertyList → Option Callback → Bool → M (Option Tool)
finish (some n) (some d) properties callback user_only = pure (
    some (record {
      name = n;
      description = d;
      properties = properties;
      callback = callback;
      user_only = user_only;
    }))
finish none description properties callback user_only =
    destroy_parts none description properties >> pure none
finish (some n) none properties callback user_only =
    destroy_parts (some n) none properties >> pure none

unfoldable pub create :
    Option Bytes → Option Bytes → PropertyList → Option Callback → Bool → M (Option Tool)
create name description properties callback user_only = malloc >>= λ granted.
    if granted
    then (do
      n ← strdup name
      d ← strdup description
      ps ← PropertyList.clone properties
      finish n d ps callback user_only)
    else pure none

-- cJSON_CreateString, which returns NULL of NULL, and cJSON_AddItemToArray, which adds no NULL.
abbrev pub item_if : Option Bytes → List Json
item_if none = []
item_if (some s) = str s ∷ []

-- The array `required`, none while `has_required` is false.
abbrev pub names : Option (List Json) → List Json
names none = []
names (some required) = required

-- The loop over the properties: the entries of `properties` and the names in `required`, or none
-- where a property cannot be appended.
unfoldable pub schema_loop :
    Env
    → List Property
    → List (Bytes × Json)
    → Option (List Json)
    → Option (List (Bytes × Json) × Option (List Json))
schema_loop e [] entries required = some (entries, required)
schema_loop e (p ∷ ps) entries required =
    let required' =
      if not p.has_default then some (names required ++ item_if p.name) else required in
    elim (append_json e entries p) [
      | none ↦ none
      | some entries' ↦ schema_loop e ps entries' required'
    ]

abbrev pub is_empty : {A : Type 0} → List A → Bool
is_empty [] = true
is_empty (x ∷ xs) = false

abbrev pub when : Bool → Bytes → Json → List (Bytes × Json)
when b k j = if b then (k, j) ∷ [] else []

abbrev pub user_audience : Json
user_audience = object ((bytes "audience", array (str (bytes "user") ∷ [])) ∷ [])

abbrev pub required_member : Option (List Json) → List (Bytes × Json)
required_member none = []
required_member (some required) = (bytes "required", array required) ∷ []

unfoldable pub tool_document : Tool → List (Bytes × Json) → Option (List Json) → Json
tool_document tool entries required = object (
    (bytes "name", str tool.name)
    ∷ (bytes "description", str tool.description)
    ∷ (
      bytes "inputSchema",
      object (
          (bytes "type", str (bytes "object"))
          ∷ (bytes "properties", object entries)
          ∷ required_member required),
    )
    ∷ when tool.user_only (bytes "annotations") user_audience)

unfoldable pub tool_to_json : Env → Tool → Option Bytes
tool_to_json e tool = elim (schema_loop e (contents tool.properties) [] none) [
  | none ↦ none
  | some (entries, required) ↦ e.print (tool_document tool entries required)
]

-- None where the tool has no callback or its content cannot be printed.
unfoldable pub call : Env → Tool → PropertyList → M (Option Bytes)
call e tool arguments = elim tool.callback [
  | none ↦ pure none
  | some callback ↦ ReturnValue.free (callback arguments) >>= λ _.
      pure (ReturnValue.build_content e (callback arguments))
]
