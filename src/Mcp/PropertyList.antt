-- ===== src/Mcp/PropertyList.antt =====
-- core/mcp/mcp_property.c: the lists of properties, over core/posix/list.c.
pub mod Find
pub mod Lookup
pub mod Add
pub mod Clone
pub mod Through
pub mod Blocks
pub mod Sound
pub mod Granting
use mlink_device.Prelude.{
  ℕ, zero, suc, ◌+◌, Bool, true, false, not, ◌||◌, Option, none, some, if◌then◌else◌,
}
use mlink_device.Prelude.Int.{ℤ, pos}
use mlink_device.Prelude.Bytes.{Bytes, strcmp_eq}
use mlink_device.Memory.{M, pure, ◌>>=◌, ◌>>◌, strdup}
use mlink_device.Memory as Memory
use mlink_device.DynList.{DynList}
use mlink_device.DynList as Items
use mlink_device.Mcp.Property.{
  boolean, integer, string, bool_value, int_value, string_value, as_bool, as_int, as_string,
  Property, is_boolean, is_integer, is_string, copy_func, free_func,
}

abbrev pub PropertyList : Type 0
PropertyList = DynList Property

-- Of an LP64 machine.
abbrev pub sizeof_property : ℕ
sizeof_property = 32

unfoldable pub init : PropertyList
unfolding Items.init
init = Items.init Property sizeof_property

unfoldable pub free : PropertyList → M PropertyList
free list = Items.free free_func list

pub add : PropertyList → Property → M (Bool × PropertyList)
add list p = Items.add copy_func list p

-- `create`, none where the block of the list itself is refused.
pub create : M (Option PropertyList)
create = do granted ← Memory.malloc; pure (if granted then some init else none)

pub destroy : Option PropertyList → M (Unit {0})
destroy none = pure tt
destroy (some list) = do _ ← free list; Memory.free (some tt)

abbrev pub is_named : Bytes → Property → Bool
is_named name p = elim p.name [ none ↦ false | some n ↦ strcmp_eq n name ]

-- The loop of `mcp_property_list_get` and its const twin.
pub find_loop : PropertyList → Bytes → ℕ → ℕ → Option Property
find_loop list name index zero = none
find_loop list name index (suc rounds) =
    let next = find_loop list name (index + 1) rounds in
    elim (Items.get list index) [ none ↦ next | some p ↦ if is_named name p then some p else next ]

pub get : PropertyList → Option Bytes → Option Property
unfolding find_loop
get list none = none
get list (some name) = find_loop list name 0 list.count

-- Adds the property that was put together on the stack, and frees that one.
abbrev add_built : PropertyList → Property → M (Bool × PropertyList)
add_built list p = do added ← add list p; free_func p; pure added

-- The properties that the three functions below put together.
abbrev pub bool_property : Bytes → Bool → Bool → Property
bool_property name has_default default_value = record {
  name = some name;
  type = boolean;
  has_default = has_default;
  has_min = false;
  has_max = false;
  min_value = pos 0;
  max_value = pos 0;
  value = bool_value default_value;
}

abbrev pub int_property : Bytes → Bool → ℤ → Bool → ℤ → Bool → ℤ → Property
int_property name has_default default_value has_min min_value has_max max_value = record {
  name = some name;
  type = integer;
  has_default = has_default;
  has_min = has_min;
  has_max = has_max;
  min_value = min_value;
  max_value = max_value;
  value = int_value default_value;
}

abbrev pub string_property : Bytes → Bool → Option Bytes → Property
string_property name has_default text = record {
  name = some name;
  type = string;
  has_default = has_default;
  has_min = false;
  has_max = false;
  min_value = pos 0;
  max_value = pos 0;
  value = string_value text;
}

-- `return false` where a text could not be duplicated.
abbrev pub or_refuse :
    Option Bytes
    → M (Bool × PropertyList)
    → (Bytes → M (Bool × PropertyList))
    → M (Bool × PropertyList)
or_refuse none refused go = refused
or_refuse (some text) refused go = go text

unfoldable pub add_bool : PropertyList → Option Bytes → Bool → Bool → M (Bool × PropertyList)
add_bool list none has_default default_value = pure (false, list)
add_bool list (some name) has_default default_value = strdup (some name) >>= λ copied.
    or_refuse copied (pure (false, list))
      (λ n. add_built list (bool_property n has_default default_value))

unfoldable pub add_int :
    PropertyList → Option Bytes → Bool → ℤ → Bool → ℤ → Bool → ℤ → M (Bool × PropertyList)
add_int list none has_default default_value has_min min_value has_max max_value = pure (false, list)
add_int list (some name) has_default default_value has_min min_value has_max max_value =
    strdup (some name) >>= λ copied. or_refuse copied (pure (false, list)) (λ n.
      add_built list (int_property n has_default default_value has_min min_value has_max max_value))

-- The default of a string property, behind its name.
abbrev pub add_text : PropertyList → Bytes → Bytes → M (Bool × PropertyList)
add_text list name text = strdup (some text) >>= λ copied.
    or_refuse copied (free_func (string_property name true none) >> pure (false, list))
      (λ t. add_built list (string_property name true (some t)))

unfoldable pub add_string : PropertyList → Option Bytes → Option Bytes → M (Bool × PropertyList)
add_string list none default_value = pure (false, list)
add_string list (some name) none = strdup (some name) >>= λ copied.
    or_refuse copied (pure (false, list)) (λ n. add_built list (string_property n false none))
add_string list (some name) (some text) = strdup (some name) >>= λ copied.
    or_refuse copied (pure (false, list)) (λ n. add_text list n text)

-- The three getters: the value written to `out_value`, or none where they return false.
unfoldable pub get_bool : PropertyList → Option Bytes → Option Bool
get_bool list name = elim (get list name) [
  | none ↦ none
  | some p ↦ if not (is_boolean p.type) || not p.has_default then none else some (as_bool p.value)
]

unfoldable pub get_int : PropertyList → Option Bytes → Option ℤ
get_int list name = elim (get list name) [
  | none ↦ none
  | some p ↦ if not (is_integer p.type) || not p.has_default then none else some (as_int p.value)
]

unfoldable pub get_string : PropertyList → Option Bytes → Option Bytes
get_string list name = elim (get list name) [
  | none ↦ none
  | some p ↦ if not (is_string p.type) || not p.has_default then none else as_string p.value
]

-- Where an item cannot be added, the clone is emptied and the loop left.
pub clone_loop : PropertyList → PropertyList → ℕ → ℕ → M PropertyList
clone_loop source clone index zero = pure clone
clone_loop source clone index (suc rounds) = elim (Items.get source index) [
  | none ↦ free clone
  | some p ↦ do
    (added, clone') ← add clone p
    if added then clone_loop source clone' (index + 1) rounds else free clone'
]

pub clone : PropertyList → M PropertyList
clone source = clone_loop source init 0 source.count
