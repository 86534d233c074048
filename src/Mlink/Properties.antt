-- ===== src/Mlink/Properties.antt =====
-- The property lists of the public interface (core/mlink.c), which are those of core/mcp.
use mlink_device.Prelude.{Bool, Option}
use mlink_device.Prelude.Int.{ℤ}
use mlink_device.Prelude.Bytes.{Bytes}
use mlink_device.Memory.{M}
use mlink_device.Mcp.PropertyList.{PropertyList}
use mlink_device.Mcp.PropertyList as Lists

unfoldable pub create : M (Option PropertyList)
create = Lists.create

unfoldable pub destroy : Option PropertyList → M (Unit {0})
destroy list = Lists.destroy list

unfoldable pub add_bool : PropertyList → Option Bytes → Bool → Bool → M (Bool × PropertyList)
add_bool list name has_default default_value = Lists.add_bool list name has_default default_value

unfoldable pub add_int :
    PropertyList → Option Bytes → Bool → ℤ → Bool → ℤ → Bool → ℤ → M (Bool × PropertyList)
add_int list name has_default default_value has_min min_value has_max max_value =
    Lists.add_int list name has_default default_value has_min min_value has_max max_value

unfoldable pub add_string : PropertyList → Option Bytes → Option Bytes → M (Bool × PropertyList)
add_string list name default_value = Lists.add_string list name default_value

unfoldable pub get_bool : PropertyList → Option Bytes → Option Bool
get_bool list name = Lists.get_bool list name

unfoldable pub get_int : PropertyList → Option Bytes → Option ℤ
get_int list name = Lists.get_int list name

unfoldable pub get_string : PropertyList → Option Bytes → Option Bytes
get_string list name = Lists.get_string list name
